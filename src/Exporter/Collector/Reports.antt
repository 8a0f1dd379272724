-- ===== src/Exporter/Collector/Reports.antt =====
-- internal/exporter/collector.go: what a scrape reports of a file system whose subcommands print the
-- documented layouts.
use mathlib.Core.List.{Memᴰ}
use leilfs_operator.Base.{
  true, false, List, [], ◌∷◌, none, some, ◌≡◌, ◌↔◌, refl, sym, ap, ◌∙◌, arith, All, All-Memᴰ,
  Bool-cases, inl, inr, if◌then◌else◌, Option,
}
use leilfs_operator.Text.{Text, codes, text_eq, text_eq_iff}
use leilfs_operator.Exporter.Collector.{
  Sample, of_uint, CollectorOptions, CmdSpec, spec, porcelain, specs, ScrapeResult, result_of,
  run_all,
}
use leilfs_operator.Exporter.Collector.Samples.{any_err, up_sample, failed, on_result}

-- A map that is gone through in any order holds the nine results.
pub record IsOrder (c : CollectorOptions) (order : List CmdSpec) : Type 0 where
  pub only : (s : CmdSpec) → Memᴰ s order → Memᴰ s (specs c)
  pub every : (s : CmdSpec) → Memᴰ s (specs c) → Memᴰ s order

-- The subcommand of a name.
abbrev named : CollectorOptions → Text → CmdSpec
named c name =
    if text_eq name (codes "ready-chunkservers-count")
    then spec c name (name ∷ [])
    else porcelain c name

specs-named : (c : CollectorOptions) → All (λ s. s ≡ named c s.name) (specs c)
unfolding specs text_eq
specs-named c = (refl, (refl, (refl, (refl, (refl, (refl, (refl, (refl, (refl, tt)))))))))

result_of-run_all :
    (run : List Text → ScrapeResult) (order : List CmdSpec) (s : CmdSpec)
    → Memᴰ s order
    → ((t : CmdSpec) → Memᴰ t order → t.name ≡ s.name → t ≡ s)
    → result_of s.name (run_all run order) ≡ some (run s.args)
unfolding result_of run_all
result_of-run_all run [] s m same = elim m [ ]
result_of-run_all run (t ∷ order) s m same = elim (Bool-cases (text_eq t.name s.name)) [
  | inl hit ↦ rw hit (
      ap (λ (u : CmdSpec). some (run u.args))
        (same t (Memᴰ.head refl) ((text_eq_iff t.name s.name).0 hit)))
  | inr miss ↦
      rw miss (result_of-run_all run order s (later m miss) (λ u mu e. same u (Memᴰ.tail mu) e))
]
  where
    later : Memᴰ s (t ∷ order) → text_eq t.name s.name ≡ false → Memᴰ s order
    later (Memᴰ.head e) miss =
        absurd (cc (miss, (text_eq_iff t.name s.name).1 (ap (λ (u : CmdSpec). u.name) (sym e))))
    later (Memᴰ.tail rest) miss = rest

-- Every subcommand's own result is found under its name, in whatever order the map is gone through.
pub result_of-spec :
    (run : List Text → ScrapeResult) (c : CollectorOptions) (order : List CmdSpec) (s : CmdSpec)
    → IsOrder c order
    → Memᴰ s (specs c)
    → result_of s.name (run_all run order) ≡ some (run s.args)
result_of-spec run c order s o m = result_of-run_all run order s (o.every s m) λ t mt e.
    All-Memᴰ (λ u. u ≡ named c u.name) (specs c) (specs-named c) (o.only t mt)
    ∙ (ap (named c) e ∙ sym (All-Memᴰ (λ u. u ≡ named c u.name) (specs c) (specs-named c) m))

-- A result without an error.
abbrev pub Printed : ScrapeResult → Text → Type 0
Printed r text = (r.out ≡ text) × (r.err ≡ none)

failed-none : (r : ScrapeResult) → r.err ≡ none → failed r ≡ false
failed-none r e = rw e

pub on_result-Printed :
    (r : ScrapeResult) (text : Text) (f : Text → List Sample)
    → Printed r text
    → on_result (some r) f ≡ f text
unfolding on_result
on_result-Printed r text f (out, err) = rw (failed-none r err) (ap f out)

pub any_err-none :
    (run : List Text → ScrapeResult) (order : List CmdSpec)
    → ((s : CmdSpec) → Memᴰ s order → (run s.args).err ≡ none)
    → any_err (run_all run order) ≡ false
unfolding any_err run_all
any_err-none run [] h = refl
any_err-none run (s ∷ order) h =
    rw (failed-none (run s.args) (h s (Memᴰ.head refl)))
      (any_err-none run order (λ t m. h t (Memᴰ.tail m)))

any_err-some :
    (run : List Text → ScrapeResult) (order : List CmdSpec) (s : CmdSpec) {e : Text}
    → Memᴰ s order
    → (run s.args).err ≡ some e
    → any_err (run_all run order) ≡ true
unfolding any_err run_all
any_err-some run [] s m h = elim m [ ]
any_err-some run (t ∷ order) s (Memᴰ.head e) h = rw (← e, h)
any_err-some run (t ∷ order) s (Memᴰ.tail m) h = ground (arith, any_err-some run order s m h)

-- `leilfs_fs_up` is 1 exactly when no subcommand of the scrape returned an error. What the
-- subcommands printed has no part in it: a scrape whose every output is refused by its parser is up.
pub up_iff_no_error :
    (run : List Text → ScrapeResult) (c : CollectorOptions) (order : List CmdSpec)
    → IsOrder c order
    → ((up_sample (run_all run order)).value ≡ of_uint 1)
      ↔ ((s : CmdSpec) → Memᴰ s (specs c) → (run s.args).err ≡ none)
unfolding up_sample
up_iff_no_error run c order o = (
  λ up s m.
      none_of (run s.args).err
        (λ e failed_run. ground (arith, any_err-some run order s (o.every s m) failed_run)),
  λ clean. rw (any_err-none run order (λ s m. clean s (o.only s m))),
)
  where
    none_of : (r : Option Text) → ((e : Text) → r ≡ some e → ⊥) → r ≡ none
    none_of none h = refl
    none_of (some e) h = absurd (h e refl)
