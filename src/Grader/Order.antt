-- ===== src/Grader/Order.antt =====
-- The reward does not depend on the order of the reports.
use mathlib.Core.Logic.{∥∥₁_elim}
use mathlib.Core.List.{Perm, Permᴰ}
use deepswe_eval_lab.Base.{
  String, ◌≡◌, refl, sym, ◌∙◌, ap, true, false, Option, none, some, List, ◌++◌, arith, mem, ok,
  fun_ext,
}
use deepswe_eval_lab.Base.Json.{Json}
use deepswe_eval_lab.Grader.Status.{Status, Case}
use deepswe_eval_lab.Grader.Reports.{TestCase}
use deepswe_eval_lab.Grader.Score.{Config, Reward, Outcome, cmd_grade}
use deepswe_eval_lab.Grader.Merge.{worst, join_option, join_option_assoc, cases_of, worst-append}
use deepswe_eval_lab.Grader.Verdict.{
  cases_at, known_format, expected_by, reward_json-expected, solved, passes, passes-worst,
}

join_option_comm : (a b : Option Status) → join_option a b ≡ join_option b a
join_option_comm none none = refl
join_option_comm none (some b) = refl
join_option_comm (some a) none = refl
join_option_comm (some a) (some b) = ground arith

-- Reordering the reports leaves the worst status of every id.
worst-perm :
    (cases : String → List Case) (k : String) (reps reps' : List String)
    → Permᴰ reps reps'
    → worst k (cases_of cases reps) ≡ worst k (cases_of cases reps')
unfolding cases_of
worst-perm cases k _ _ Permᴰ.nil = refl
worst-perm cases k _ _ (Permᴰ.cons {a = a} {b = b} {l₁ = l} {l₂ = l'} e p) = ground (
  arith,
  e,
  worst-append k (cases a) (cases_of cases l),
  worst-append k (cases b) (cases_of cases l'),
  worst-perm cases k l l' p,
)
worst-perm cases k _ _ (Permᴰ.swap {a = a} {b = b} {a' = c} {b' = d} {l = l} e f) =
    rw (e, f)
      (cc (
        worst-append k (cases d) (cases c ++ cases_of cases l),
        worst-append k (cases c) (cases d ++ cases_of cases l),
        worst-append k (cases c) (cases_of cases l),
        worst-append k (cases d) (cases_of cases l),
        join_option_assoc (worst k (cases d)) (worst k (cases c)) (worst k (cases_of cases l)),
        join_option_assoc (worst k (cases c)) (worst k (cases d)) (worst k (cases_of cases l)),
        join_option_comm (worst k (cases c)) (worst k (cases d)),
      ))
worst-perm cases k _ _ (Permᴰ.trans {l₁ = l} {l₂ = m} {l₃ = n} p q) =
    worst-perm cases k l m p ∙ worst-perm cases k m n q

solved-perm :
    (cases : String → List Case) (reps reps' : List String)
    → Permᴰ reps reps'
    → solved (cases_of cases reps) ≡ solved (cases_of cases reps')
solved-perm cases reps reps' p = fun_ext (λ k.
    sym (passes-worst k (cases_of cases reps))
    ∙ ap passes (worst-perm cases k reps reps' p)
    ∙ passes-worst k (cases_of cases reps'))

Reward-set : IsSet Reward
Reward-set = hlevel

module _ (show : Json → String) (load_json : String → Option Json)
    (load_xml : String → Option (List TestCase)) where
  -- Two configs that differ in the order of their reports only are graded alike.
  pub cmd_grade-perm :
      (cfg : Config) (argv : List String) (reps reps' : List String) (out out' : Outcome)
      → mem "--apply-failed" argv ≡ false
      → known_format cfg ≡ true
      → Perm reps reps'
      → cmd_grade show load_json load_xml (record cfg { reports = some reps }) argv ≡ ok out
      → cmd_grade show load_json load_xml (record cfg { reports = some reps' }) argv ≡ ok out'
      → out.reward_json ≡ out'.reward_json
  cmd_grade-perm cfg argv reps reps' out out' plain known p run run' =
      ∥∥₁_elim p (Reward-set _ _) (λ d.
        reward_json-expected show load_json load_xml (record cfg { reports = some reps }) argv reps
          out plain known refl run
        ∙ ap (expected_by cfg) (solved-perm (cases_at show load_json load_xml cfg) reps reps' d)
        ∙ sym (
            reward_json-expected show load_json load_xml (record cfg { reports = some reps' }) argv
              reps' out' plain known refl run'))
