-- ===== src/Tests/Plans.antt =====
-- The computing parts of the controller on small specs.
use leilfs_operator.Base.{
  ℕ, Bool, true, false, List, [], ◌∷◌, ◌++◌, map, some, none, ◌≡◌, ◌↔◌, ◌⊎◌, refl, All, ok, err,
  keep,
}
use leilfs_operator.Base.Int.{ℤ, pos, negsuc}
use leilfs_operator.Text.{Text, codes, fields, split_lines, is_space, decimal}
use leilfs_operator.Api.{GoalSpec, NamedPort, ChunkServerSpec}
use leilfs_operator.Controller.Goals.{
  build_goals_config, master_snippet, title, heading, negative_len, goal_pattern,
  replication_pattern,
}
use leilfs_operator.Controller.Goals.Words.{goal_words}
use leilfs_operator.Controller.Goals.Config.{
  GoalFits, is_written, last_default, build_goals_config-lines,
}
use leilfs_operator.Controller.Support.{Supported, validate_cluster_spec, validate_cluster_spec_iff}
use leilfs_operator.Controller.Volumes.{
  Pairwise, Backed, build_chunk_volumes, build_chunk_volumes-Backed, Lists, master_probe_port,
  master_probe_port-Lists,
}
use leilfs_operator.Tests.Values.{word, is_word, two_nodes, cluster}

abbrev goal : ℕ → Text → List Text → Bool → GoalSpec
goal copies name labels default = record {
  id = pos 11;
  name = name;
  replication = some (pos copies);
  ec = none;
  node_labels = labels;
  default = default;
}

abbrev ec_goal : GoalSpec
ec_goal = record {
  id = pos 10;
  name = codes "ec_4_2";
  replication = none;
  ec = some (record { data_parts = pos 4; parity_parts = pos 2 });
  node_labels = [];
  default = true;
}

abbrev unset : GoalSpec
unset = record {
  id = pos 3;
  name = codes "unset";
  replication = none;
  ec = none;
  node_labels = [];
  default = true;
}

abbrev goals : List GoalSpec
goals = ec_goal ∷ goal 3 (codes "spread") (codes "n1" ∷ codes "n2" ∷ []) false ∷ unset ∷ []

goals-GoalFits : All GoalFits goals
unfolding is_word is_space
goals-GoalFits = (
  record { name_word = word _ refl; label_words = tt; not_negative = tt },
  (
    record {
      name_word = word _ refl;
      label_words = (word _ refl, (word _ refl, tt));
      not_negative = tt;
    },
    (record { name_word = word _ refl; label_words = tt; not_negative = tt }, tt),
  ),
)

build_goals_config-lines_example :
    (file : Text) × (build_goals_config goals
      ≡ ok (file, master_snippet (last_default (keep is_written goals) [])))
    × (map fields (split_lines file)
        ≡ fields title ∷ fields heading ∷ (map goal_words (keep is_written goals) ++ [] ∷ []))
build_goals_config-lines_example = build_goals_config-lines goals goals-GoalFits

ec_words :
    goal_words ec_goal
    ≡ codes "10"
      ∷ codes "ec_4_2"
      ∷ codes ":"
      ∷ codes "$ec(4,2)"
      ∷ codes "#"
      ∷ codes "←"
      ∷ codes "default"
      ∷ []
unfolding goal_words decimal
ec_words = refl

-- A negative replication is no word of a pattern, but a panic.
negative_panics :
    goal_pattern (record unset { replication = some (negsuc 0) }) ≡ err (negative_len (negsuc 0))
unfolding goal_pattern replication_pattern
negative_panics = refl

validate_cluster_spec_iff_example :
    (validate_cluster_spec (cluster two_nodes (pos 0)) ≡ none)
    ↔ Supported (cluster two_nodes (pos 0))
validate_cluster_spec_iff_example = validate_cluster_spec_iff (cluster two_nodes (pos 0))

two_nodes_accepted : validate_cluster_spec (cluster two_nodes (pos 0)) ≡ none
unfolding validate_cluster_spec
two_nodes_accepted = refl

build_chunk_volumes-Backed_example :
    All
      (λ (srv : ChunkServerSpec).
        Pairwise Backed (build_chunk_volumes srv).0 (build_chunk_volumes srv).1)
      two_nodes
build_chunk_volumes-Backed_example =
    build_chunk_volumes-Backed (cluster two_nodes (pos 0)) two_nodes_accepted

abbrev ports : List NamedPort
ports = record { name = codes "admin"; container_port = pos 1 } ∷ []

master_probe_port-Lists_example :
    Lists ports (codes "client") (master_probe_port ports)
    ⊎ (((n : ℤ) → ¬ Lists ports (codes "client") n)
        × (Lists ports (codes "admin") (master_probe_port ports)
            ⊎ (((n : ℤ) → ¬ Lists ports (codes "admin") n) × (master_probe_port ports ≡ pos 9421))))
master_probe_port-Lists_example = master_probe_port-Lists ports
