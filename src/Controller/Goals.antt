-- ===== src/Controller/Goals.antt =====
-- internal/controller/leilfscluster_controller.go, buildGoalsConfig: the text of sfsgoals.cfg and
-- the snippet for the default goal.
pub mod Words
pub mod Config
use leilfs_operator.Base.{
  ℕ, suc, ◌-◌, List, [], ◌∷◌, ◌++◌, Option, none, some, Result, ok, err, ◌>>=◌, length, replicate,
  if◌then◌else◌,
}
use leilfs_operator.Base.Int.{ℤ, pos, negsuc}
use leilfs_operator.Text.{Text, codes, decimal, join}
use leilfs_operator.Text.Fields.{blank}
use leilfs_operator.Api.{EcSpec, GoalSpec}

-- fmt's %d, and %-4d and %-22s by the width.
abbrev pub show_ℤ : ℤ → Text
show_ℤ (pos n) = decimal n
show_ℤ (negsuc n) = 45 ∷ decimal (suc n)

abbrev pub pad_right : ℕ → Text → Text
pad_right width s = s ++ replicate (width - length s) 32

-- The run-time panic of `make` with a negative length.
pub data MakePanic : Type 0 where
  negative_len : ℤ → MakePanic

-- $ec(%d,%d)
abbrev pub ec_text : EcSpec → Text
ec_text e =
    codes "$ec(" ++ (show_ℤ e.data_parts ++ (codes "," ++ (show_ℤ e.parity_parts ++ codes ")")))

unfoldable pub ec_pattern : EcSpec → List Text → Text
ec_pattern e [] = ec_text e
ec_pattern e (l ∷ ls) = ec_text e ++ (codes " { " ++ (join blank (l ∷ ls) ++ codes " }"))

-- One underscore for each copy, or the labels.
unfoldable pub replication_pattern : ℤ → List Text → Result MakePanic Text
replication_pattern n (l ∷ ls) = ok (join blank (l ∷ ls))
replication_pattern (pos n) [] = ok (join blank (replicate n (codes "_")))
replication_pattern (negsuc n) [] = err (negative_len (negsuc n))

-- `none` is the `continue` of a goal that sets neither.
unfoldable pub goal_pattern : GoalSpec → Result MakePanic (Option Text)
goal_pattern g = elim g.ec [
  | some e ↦ ok (some (ec_pattern e g.node_labels))
  | none ↦ elim g.replication [
    | some n ↦ replication_pattern n g.node_labels >>= λ p. ok (some p)
    | none ↦ ok none
  ]
]

abbrev pub marker : GoalSpec → Text
marker g = if g.default then codes "  # ← default" else []

-- %-4d %-22s : %s%s, without the line break
abbrev pub goal_text : GoalSpec → Text → Text
goal_text g pattern =
    pad_right 4 (show_ℤ g.id)
    ++ (32 ∷ (pad_right 22 g.name ++ (codes " : " ++ (pattern ++ marker g))))

abbrev pub new_default : GoalSpec → Text → Text
new_default g name = if g.default then g.name else name

-- The loop over the goals: the text so far, and the last default goal's name.
unfoldable pub write_goals : List GoalSpec → Text → Text → Result MakePanic (Text × Text)
write_goals [] out name = ok (out, name)
write_goals (g ∷ gs) out name = goal_pattern g >>= λ p. elim p [
  | some pattern ↦ write_goals gs (out ++ (goal_text g pattern ++ (10 ∷ []))) (new_default g name)
  | none ↦ write_goals gs out name
]

abbrev pub title : Text
title = codes "# sfsgoals.cfg — generated by leilfs-operator (do not edit manually)"

abbrev pub heading : Text
heading = codes "# id  name                  : pattern"

unfoldable pub master_snippet : Text → Text
master_snippet [] = []
master_snippet (c ∷ name) =
    codes "# Add this line to /etc/saunafs/sfsmaster.cfg to set the default goal:"
    ++ (10 ∷ (codes "SFSMASTER_DEFAULT_GOAL = " ++ ((c ∷ name) ++ (10 ∷ []))))

unfoldable pub build_goals_config : List GoalSpec → Result MakePanic (Text × Text)
unfolding write_goals master_snippet
build_goals_config goals = write_goals goals (title ++ (10 ∷ (heading ++ (10 ∷ [])))) [] >>= λ r.
    ok (r.0, master_snippet r.1)
