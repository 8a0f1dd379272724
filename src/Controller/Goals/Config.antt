-- ===== src/Controller/Goals/Config.antt =====
-- buildGoalsConfig: the whole of sfsgoals.cfg, line by line.
use leilfs_operator.Base.{
  ℕ, zero, suc, ◌-◌, Bool, true, false, List, [], ◌∷◌, ◌++◌, map, Option, none, some, ◌≡◌, refl, ap,
  ◌∙◌, sym, arith, All, All-append, replicate, append-nil, append_assoc, length, if◌then◌else◌,
  Result, ok, keep, Bool-cases, inl, inr,
}
use leilfs_operator.Base.Int.{ℤ, pos, negsuc}
use leilfs_operator.Text.{Text, codes, is_space, fields, join, split_lines}
use leilfs_operator.Text.Fields.{IsWord, blank, fields-word, fields-join, fields-join-blank}
use leilfs_operator.Text.Lines.{IsLine, split_lines-append, word-IsLine, join-IsLine}
use leilfs_operator.Api.{EcSpec, GoalSpec}
use leilfs_operator.Controller.Goals.{
  MakePanic, show_ℤ, pad_right, ec_text, replication_pattern, goal_pattern, goal_text, marker,
  new_default, write_goals, title, heading, master_snippet, build_goals_config,
}
use leilfs_operator.Controller.Goals.Words.{
  braced, copies, pattern_words, goal_words, show_ℤ-IsWord, ec_text-IsWord, ec_pattern-join,
  fields-pad_right,
}

-- What the resource's schema asks of a goal: words for names and labels, no negative replication.
abbrev pub NotNegative : Option ℤ → Type 0
NotNegative none = Unit
NotNegative (some (pos n)) = Unit
NotNegative (some (negsuc n)) = ⊥

pub record GoalFits (g : GoalSpec) : Type 0 where
  pub name_word : IsWord g.name
  pub label_words : All IsWord g.node_labels
  pub not_negative : NotNegative g.replication

-- A goal that sets neither `ec` nor `replication` is not written.
abbrev pub is_written : GoalSpec → Bool
is_written g = elim g.ec [
  | some e ↦ true
  | none ↦ elim g.replication [ some n ↦ true | none ↦ false ]
]

replicate-IsWord : (n : ℕ) → All IsWord (replicate n (codes "_"))
replicate-IsWord zero = tt
replicate-IsWord (suc n) = (((λ h. absurd (cc)), (unfold is_space in refl, tt)), replicate-IsWord n)

braced-IsWord : (ls : List Text) → All IsWord ls → All IsWord (braced ls)
braced-IsWord [] h = tt
braced-IsWord (l ∷ ls) h = (
  ((λ e. absurd (cc)), (unfold is_space in refl, tt)),
  All-append IsWord (l ∷ ls) (codes "}" ∷ []) h
      (((λ e. absurd (cc)), (unfold is_space in refl, tt)), tt),
)

copies-IsWord : (n : ℤ) (ls : List Text) → All IsWord ls → All IsWord (copies n ls)
copies-IsWord n (l ∷ ls) h = h
copies-IsWord (pos n) [] h = replicate-IsWord n
copies-IsWord (negsuc n) [] h = tt

pattern_words-IsWord : (g : GoalSpec) → GoalFits g → All IsWord (pattern_words g)
pattern_words-IsWord g h = by_kind g.ec g.replication
  where
    by_kind :
        (e : Option EcSpec) (r : Option ℤ)
        → All IsWord (elim e [
          | some e ↦ ec_text e ∷ braced g.node_labels
          | none ↦ elim r [ some n ↦ copies n g.node_labels | none ↦ [] ]
        ])
    by_kind (some e) r = (ec_text-IsWord e, braced-IsWord g.node_labels h.label_words)
    by_kind none (some n) = copies-IsWord n g.node_labels h.label_words
    by_kind none none = tt

replication_pattern-join :
    (n : ℤ) (ls : List Text)
    → NotNegative (some n)
    → replication_pattern n ls ≡ ok (join blank (copies n ls))
unfolding replication_pattern
replication_pattern-join (pos n) (l ∷ ls) h = refl
replication_pattern-join (negsuc n) (l ∷ ls) h = refl
replication_pattern-join (pos n) [] h = refl
replication_pattern-join (negsuc n) [] h = absurd h

-- The text written for a goal's pattern is its words, one blank apart.
goal_pattern-join :
    (g : GoalSpec)
    → GoalFits g
    → goal_pattern g ≡ ok (if is_written g then some (join blank (pattern_words g)) else none)
unfolding goal_pattern
goal_pattern-join g h = by_kind g.ec g.replication h.not_negative
  where
    by_kind :
        (e : Option EcSpec) (r : Option ℤ)
        → NotNegative r
        → ◌≡◌ {A = Result MakePanic (Option Text)}
            (goal_pattern (record g { ec = e; replication = r }))
            (ok (
              if is_written (record g { ec = e; replication = r })
              then some (join blank (pattern_words (record g { ec = e; replication = r })))
              else none))
    by_kind (some e) r n = rw (ec_pattern-join e g.node_labels)
    by_kind none (some n) m = rw (replication_pattern-join n g.node_labels m)
    by_kind none none m = refl

marker-fields :
    (d : Bool) (ws : List Text)
    → All IsWord ws
    → fields (join blank ws ++ (if d then codes "  # ← default" else []))
      ≡ ws ++ (if d then codes "#" ∷ codes "←" ∷ codes "default" ∷ [] else [])
marker-fields true ws h =
    fields-join-blank ws (codes " # ← default") h ∙ (unfold fields is_space in refl)
marker-fields false ws h =
    ap fields (append-nil (join blank ws)) ∙ (fields-join ws h ∙ sym (append-nil ws))

-- The words of a written line.
goal_text-words :
    (g : GoalSpec) → GoalFits g → fields (goal_text g (join blank (pattern_words g))) ≡ goal_words g
unfolding goal_words
goal_text-words g h =
    let rest = join blank (pattern_words g) ++ marker g in
    fields-pad_right 4 (show_ℤ g.id) (pad_right 22 g.name ++ (codes " : " ++ rest))
      (show_ℤ-IsWord g.id)
    ∙ ap (λ t. show_ℤ g.id ∷ t)
        (fields-pad_right 22 g.name (codes ": " ++ rest) h.name_word
          ∙ ap (λ t. g.name ∷ t)
              (fields-word (codes ":") rest ((λ e. absurd (cc)), (unfold is_space in refl, tt))
                ∙ ap (λ t. codes ":" ∷ t)
                    (marker-fields g.default (pattern_words g) (pattern_words-IsWord g h))))

spaces-IsLine : (n : ℕ) → IsLine (replicate n 32)
spaces-IsLine zero = tt
spaces-IsLine (suc n) = (omega arith, spaces-IsLine n)

pad_right-IsLine : (width : ℕ) (w : Text) → IsWord w → IsLine (pad_right width w)
pad_right-IsLine width w h =
    All-append _ w (replicate (width - length w) 32) (word-IsLine w h.1)
      (spaces-IsLine (width - length w))

marker-IsLine : (g : GoalSpec) → IsLine (marker g)
marker-IsLine g = by_default g.default
  where
    by_default : (d : Bool) → IsLine (if d then codes "  # ← default" else [])
    by_default true = ground arith
    by_default false = tt

goal_text-IsLine : (g : GoalSpec) → GoalFits g → IsLine (goal_text g (join blank (pattern_words g)))
goal_text-IsLine g h =
    let pattern = join-IsLine (pattern_words g) (pattern_words-IsWord g h) in
    let tail = All-append _ (join blank (pattern_words g)) (marker g) pattern (marker-IsLine g) in
    let colon : IsLine (codes " : " ++ (join blank (pattern_words g) ++ marker g)) =
      (omega arith, (omega arith, (omega arith, tail))) in
    let named =
      All-append _ (pad_right 22 g.name) _ (pad_right-IsLine 22 g.name h.name_word) colon in
    let blank_named : IsLine (
        32 ∷ (pad_right 22 g.name ++ (codes " : " ++ (join blank (pattern_words g) ++ marker g)))) =
      (omega arith, named) in
    All-append _ (pad_right 4 (show_ℤ g.id)) _
      (pad_right-IsLine 4 (show_ℤ g.id) (show_ℤ-IsWord g.id)) blank_named

-- What the loop appends.
goals_text : List GoalSpec → Text
goals_text [] = []
goals_text (g ∷ gs) =
    let rest = goals_text gs in
    if is_written g then (goal_text g (join blank (pattern_words g)) ++ (10 ∷ [])) ++ rest else rest

-- The name of the last of the goals that are marked as default.
pub last_default : List GoalSpec → Text → Text
last_default [] name = name
last_default (g ∷ gs) name = last_default gs (new_default g name)

write_goals-eq :
    (gs : List GoalSpec) (out name : Text)
    → All GoalFits gs
    → write_goals gs out name ≡ ok (out ++ goals_text gs, last_default (keep is_written gs) name)
unfolding write_goals goals_text last_default keep
write_goals-eq [] out name h = rw append-nil
write_goals-eq (g ∷ gs) out name (hg, hs) = elim (Bool-cases (is_written g)) [
  | inl there ↦
      let line = goal_text g (join blank (pattern_words g)) ++ (10 ∷ []) in
      rw (goal_pattern-join g hg, there)
        (write_goals-eq gs (out ++ line) (new_default g name) hs
          ∙ ap (λ t. ok (t, last_default (keep is_written gs) (new_default g name)))
              (append_assoc out line (goals_text gs)))
  | inr skipped ↦ rw (goal_pattern-join g hg, skipped) (write_goals-eq gs out name hs)
]

cons_line : (l s : Text) → IsLine l → split_lines (l ++ (10 ∷ s)) ≡ l ∷ split_lines s
cons_line l s h = split_lines-append l s false h ∙ ap (λ t. t ∷ split_lines s) (append-nil l)

goals_text-words :
    (gs : List GoalSpec)
    → All GoalFits gs
    → map fields (split_lines (goals_text gs)) ≡ map goal_words (keep is_written gs) ++ [] ∷ []
unfolding goals_text keep
goals_text-words [] h = unfold split_lines fields in refl
goals_text-words (g ∷ gs) (hg, hs) = elim (Bool-cases (is_written g)) [
  | inl there ↦
      let line = goal_text g (join blank (pattern_words g)) in
      rw there (
        ap (map fields) (
          ap split_lines (append_assoc line (10 ∷ []) (goals_text gs))
          ∙ cons_line line (goals_text gs) (goal_text-IsLine g hg))
        ∙ rw (goal_text-words g hg, goals_text-words gs hs))
  | inr skipped ↦ rw skipped (goals_text-words gs hs)
]

title-IsLine : IsLine title
title-IsLine = ground arith

heading-IsLine : IsLine heading
heading-IsLine = ground arith

-- If the names and labels are words and no replication is negative, the goals are written without a
-- panic. Behind the two lines of the header, sfsgoals.cfg has one line for each goal that sets `ec`
-- or `replication`, in order, and the words of that line are the goal's id, its name, a colon, its
-- pattern and the marker of a default goal; the snippet names the last such goal that is a default.
pub build_goals_config-lines :
    (goals : List GoalSpec)
    → All GoalFits goals
    → (file : Text) × (build_goals_config goals
        ≡ ok (file, master_snippet (last_default (keep is_written goals) [])))
      × (map fields (split_lines file)
          ≡ fields title ∷ fields heading ∷ (map goal_words (keep is_written goals) ++ [] ∷ []))
unfolding build_goals_config
build_goals_config-lines goals h =
    let head = title ++ (10 ∷ (heading ++ (10 ∷ []))) in
    (
      head ++ goals_text goals,
      rw (write_goals-eq goals head [] h),
      ap (map fields) (
            cons_line title (heading ++ (10 ∷ goals_text goals)) title-IsLine
            ∙ ap (λ t. title ∷ t) (cons_line heading (goals_text goals) heading-IsLine))
          ∙ ap (λ t. fields title ∷ fields heading ∷ t) (goals_text-words goals h),
    )
