-- ===== src/Exporter/Parser/RoundTrip/Goals.antt =====
-- `list-goals`: the definition is printed in quotes and may hold blanks.
use mathlib.Core.List.{cons-ne-nil}
use leilfs_operator.Base.{
  ℕ, Bool, List, [], ◌∷◌, ◌++◌, map, append-nil, append_assoc, suc, ◌≡◌, ◌≢◌, refl, ap, ◌∙◌, sym,
  All, All-append, ok, ◌≤◌, arith, ltb, false, length,
}
use leilfs_operator.Text.{Text, is_space, max_u64, decimal, fields, join, join_rest}
use leilfs_operator.Text.Decimal.{parse_uint-decimal, decimal-IsWord}
use leilfs_operator.Text.Fields.{IsWord, blank, fields-join}
use leilfs_operator.Exporter.Parser.{Parsed}
use leilfs_operator.Exporter.Parser.Storage.{
  Goal, goal_of, goal_line, parse_goals, trim_prefix_quote, trim_suffix_quote,
}
use leilfs_operator.Exporter.Parser.RoundTrip.{IsRow, Table, print_rows, collect-print_rows}

-- A closing quote behind the last word, and an opening one before the first.
abbrev pub close_quote : List Text → List Text
close_quote [] = []
close_quote (w ∷ []) = (w ++ 34 ∷ []) ∷ []
close_quote (w ∷ v ∷ ws) = w ∷ close_quote (v ∷ ws)

abbrev pub open_quote : List Text → List Text
open_quote [] = []
open_quote (w ∷ ws) = (34 ∷ w) ∷ ws

-- id name "definition"
abbrev pub goal_row : Goal → List Text
goal_row g = decimal g.id ∷ g.name ∷ open_quote (close_quote (fields g.definition))

pub record GoalFits (g : Goal) : Type 0 where
  pub id_fits : g.id ≤ max_u64
  pub name_word : IsWord g.name
  pub definition_words : IsRow (fields g.definition)
  -- the words of the definition stand one blank apart
  pub definition_joined : g.definition ≡ join blank (fields g.definition)

trim_suffix_quote-append : (s : Text) → trim_suffix_quote (s ++ 34 ∷ []) ≡ s
unfolding trim_suffix_quote
trim_suffix_quote-append [] = refl
trim_suffix_quote-append (c ∷ []) = refl
trim_suffix_quote-append (c ∷ d ∷ s) = ap (λ t. c ∷ t) (trim_suffix_quote-append (d ∷ s))

join_rest-close_quote :
    (w : Text) (ws : List Text)
    → join_rest blank (close_quote (w ∷ ws)) ≡ join_rest blank (w ∷ ws) ++ 34 ∷ []
unfolding join_rest
join_rest-close_quote w [] = simp append-nil
join_rest-close_quote w (v ∷ ws) =
    ap (λ t. 32 ∷ (w ++ t)) (join_rest-close_quote v ws)
    ∙ ap (λ t. 32 ∷ t) (sym (append_assoc w (join_rest blank (v ∷ ws)) (34 ∷ [])))

-- The quoted words spell the definition in quotes.
join-quoted :
    (ws : List Text)
    → ws ≢ []
    → join blank (open_quote (close_quote ws)) ≡ 34 ∷ (join blank ws ++ 34 ∷ [])
unfolding join join_rest
join-quoted [] h = absurd (h refl)
join-quoted (w ∷ []) h = simp append-nil
join-quoted (w ∷ v ∷ ws) h =
    ap (λ t. 34 ∷ (w ++ t)) (join_rest-close_quote v ws)
    ∙ ap (λ t. 34 ∷ t) (sym (append_assoc w (join_rest blank (v ∷ ws)) (34 ∷ [])))

abbrev IsInk : ℕ → Type 0
IsInk c = is_space c ≡ false

quote-ne-nil : (w : Text) → w ++ 34 ∷ [] ≢ []
quote-ne-nil [] e = cc
quote-ne-nil (c ∷ w) e = cc

close_quote-words : (ws : List Text) → All IsWord ws → All IsWord (close_quote ws)
close_quote-words [] h = tt
close_quote-words (w ∷ []) ((_, hw), _) =
    ((quote-ne-nil w, All-append IsInk w (34 ∷ []) hw (unfold is_space in (refl, tt))), tt)
close_quote-words (w ∷ v ∷ ws) (hw, hs) = (hw, close_quote-words (v ∷ ws) hs)

open_quote-words : (ws : List Text) → All IsWord ws → All IsWord (open_quote ws)
open_quote-words [] h = tt
open_quote-words (w ∷ ws) ((_, hw), hs) = ((cons-ne-nil 34 w, (unfold is_space in refl, hw)), hs)

goal_row-IsRow : (g : Goal) → GoalFits g → IsRow (goal_row g)
goal_row-IsRow g h = (
  cons-ne-nil _ _,
  (
    decimal-IsWord g.id,
    (
      h.name_word,
      open_quote-words (close_quote (fields g.definition))
          (close_quote-words (fields g.definition) h.definition_words.1),
    ),
  ),
)

length-quoted : (ws : List Text) → ws ≢ [] → 1 ≤ length (open_quote (close_quote ws))
length-quoted [] h = absurd (h refl)
length-quoted (w ∷ []) h = omega arith
length-quoted (w ∷ v ∷ ws) h = omega arith

unquote :
    (ws : List Text)
    → ws ≢ []
    → trim_suffix_quote (trim_prefix_quote (join blank (open_quote (close_quote ws))))
      ≡ join blank ws
unquote ws h =
    rw (join-quoted ws h) (unfold trim_prefix_quote in trim_suffix_quote-append (join blank ws))

goal_of-row : (g : Goal) → GoalFits g → goal_of (goal_row g) ≡ ok g
unfolding goal_of
goal_of-row g h =
    let with_definition : Text → Parsed Goal = λ d. ok (record g { definition = d }) in
    rw (parse_uint-decimal g.id h.id_fits) (
      ap with_definition
        (unquote (fields g.definition) h.definition_words.0 ∙ sym h.definition_joined))

goal_line-row : (g : Goal) → GoalFits g → goal_line (join blank (goal_row g)) ≡ ok g
unfolding goal_line
goal_line-row g h =
    let quoted : List Text = open_quote (close_quote (fields g.definition)) in
    let enough : ltb (suc (suc (length quoted))) 3 ≡ false =
      ground (arith, length-quoted (fields g.definition) h.definition_words.0) in
    rw (fields-join (goal_row g) (goal_row-IsRow g h).1) (rw enough (goal_of-row g h))

goal_table : Table Goal
goal_table = record {
  line = goal_line;
  row = goal_row;
  Fits = GoalFits;
  row-IsRow = goal_row-IsRow;
  line-row = goal_line-row;
}

-- Goals whose definition is printed in quotes, blanks included, are read back as they are with the
-- quotes taken off, if the id fits in 64 bits, the name is a word and the definition is one or more
-- words that stand one blank apart.
pub parse_goals-print_rows :
    (crlf : Bool) (gs : List Goal)
    → All GoalFits gs
    → parse_goals (print_rows crlf (map goal_row gs)) ≡ ok gs
unfolding parse_goals goal_table
parse_goals-print_rows crlf gs h = collect-print_rows goal_table crlf gs h
