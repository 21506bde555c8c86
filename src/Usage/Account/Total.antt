-- ===== src/Usage/Account/Total.antt =====
-- The total of an account is stated exactly where every turn has reported all of it.
use deepswe_eval_lab.Base.{
  ℕ, suc, ◌+◌, ◌≤◌, ◌≡◌, refl, sym, ap, ◌∙◌, subst, Bool, true, false, not, ◌&&◌, Option, none,
  some, List, [], ◌∷◌, if◌then◌else◌, eqb, arith, all, All, map, length, length-map, is_empty, ok,
  Bool-cases, inl, inr,
}
use deepswe_eval_lab.Base.Rat.{Rat}
use deepswe_eval_lab.Base.Json.{Fields}
use deepswe_eval_lab.Usage.Reports.{Tokens, Report, reports}
use deepswe_eval_lab.Usage.Values.{
  with_found, found, Resolution, sum, sum_known, coverage, is_complete,
}
use deepswe_eval_lab.Usage.Account.{
  tokens_of_reports, tokens_in, input_count, total_of, token_cover, when_complete, Accounting,
  account, accounting,
}
use deepswe_eval_lab.Usage.Account.AddsUp.{length-found, accounting-account}
use deepswe_eval_lab.Usage.Account.Valid.{HasTotal, SlotTotals, reports-SlotTotals}

-- A turn that has reported all of its tokens.
unfoldable pub reports_all : Option Report → Bool
reports_all none = false
reports_all (some r) = elim r.tokens [ none ↦ false | some t ↦ t.complete ]

abbrev input_in : Option Tokens → ℕ
input_in none = 0
input_in (some t) = total_of t.totals.input

-- The input tokens of a turn: none where it has no token report.
unfoldable pub input_of : Option Report → ℕ
input_of r = input_in (tokens_in r)

abbrev input_total : Tokens → ℕ
input_total t = total_of t.totals.input

-- Each valid report gives its total.
found-total_step :
    (o : Option Tokens) (ts : List Tokens)
    → SlotTotals o
    → found (input_count "total") ts ≡ map input_total ts
    → found (input_count "total") (with_found o ts) ≡ map input_total (with_found o ts)
unfolding found SlotTotals HasTotal
found-total_step none ts v h = h
found-total_step (some t) ts v h = rw (v.input, h) refl

found-total :
    (rs : List (Option Report))
    → All (λ r. SlotTotals (tokens_in r)) rs
    → found (input_count "total") (tokens_of_reports rs) ≡ map input_total (tokens_of_reports rs)
unfolding found tokens_of_reports
found-total [] v = refl
found-total (none ∷ rs) (v, vs) = found-total rs vs
found-total (some r ∷ rs) (v, vs) =
    found-total_step r.tokens (tokens_of_reports rs) v (found-total rs vs)

sum-total_step :
    (o : Option Tokens) (ts : List Tokens) (n : ℕ)
    → sum (map input_total ts) ≡ n
    → sum (map input_total (with_found o ts)) ≡ input_in o + n
unfolding sum
sum-total_step none ts n h = omega (arith, h)
sum-total_step (some t) ts n h = omega (arith, h)

sum-total :
    (rs : List (Option Report))
    → sum (map input_total (tokens_of_reports rs)) ≡ sum (map input_of rs)
unfolding found tokens_of_reports sum input_of
sum-total [] = refl
sum-total (none ∷ rs) = omega (arith, sum-total rs)
sum-total (some r ∷ rs) =
    sum-total_step r.tokens (tokens_of_reports rs) (sum (map input_of rs)) (sum-total rs)

abbrev full : Tokens → Bool
full t = t.complete

all-full_step :
    (o : Option Tokens) (ts : List Tokens) (n : ℕ)
    → length ts ≤ n
    → (eqb (length (with_found o ts)) (suc n) && all full (with_found o ts))
      ≡ (elim o [ none ↦ false | some t ↦ t.complete ] && (eqb (length ts) n && all full ts))
all-full_step none ts n h = ground arith
all-full_step (some t) ts n h = ground arith

-- All turns have tokens, all of them complete.
all-full :
    (rs : List (Option Report))
    → (eqb (length (tokens_of_reports rs)) (length rs) && all full (tokens_of_reports rs))
      ≡ all reports_all rs
unfolding found tokens_of_reports reports_all
all-full [] = refl
all-full (none ∷ rs) =
    all-full_step none (tokens_of_reports rs) (length rs) (length-found tokens_in rs)
all-full (some r ∷ rs) =
    all-full_step r.tokens (tokens_of_reports rs) (length rs) (length-found tokens_in rs)
    ∙ ap (λ b. elim r.tokens [ none ↦ false | some t ↦ t.complete ] && b) (all-full rs)

is_complete-token_cover :
    (rs : List (Option Report))
    → is_complete (token_cover rs) ≡ (not (is_empty rs) && all reports_all rs)
unfolding coverage tokens_of_reports found
is_complete-token_cover [] = refl
is_complete-token_cover (r ∷ rs) = ground (arith, all-full (r ∷ rs))

sum_known-length : (ns : List ℕ) → eqb (length ns) 0 ≡ false → sum_known ns ≡ some (sum ns)
unfolding sum_known
sum_known-length [] h = cc
sum_known-length (n ∷ ns) h = refl

is_complete-length :
    (reported_turns turns : ℕ) (whole : Bool)
    → is_complete (coverage reported_turns turns whole) ≡ true
    → eqb reported_turns 0 ≡ false
unfolding coverage
is_complete-length n turns whole h = ground arith

when_complete-total :
    (rs : List (Option Report))
    → All (λ r. SlotTotals (tokens_in r)) rs
    → when_complete
        (token_cover rs)
        (sum_known (found (input_count "total") (tokens_of_reports rs)))
      ≡ (if not (is_empty rs) && all reports_all rs then some (sum (map input_of rs)) else none)
when_complete-total rs v = elim (Bool-cases (is_complete (token_cover rs))) [
  | inl e ↦
      let ts = tokens_of_reports rs in
      let some_turn : eqb (length (map input_total ts)) 0 ≡ false =
        rw (length-map input_total ts)
          (is_complete-length (length ts) (length rs) (all full ts) e) in
      rw
        (
          e,
          sym (is_complete-token_cover rs) ∙ e,
          found-total rs v,
          sum_known-length (map input_total ts) some_turn,
        )
        (ap some (sum-total rs))
  | inr e ↦ rw (e, sym (is_complete-token_cover rs) ∙ e) refl
]

-- The input tokens of a role's account are stated exactly where it has a turn and each of its turns has reported all of
-- its tokens; they are then the sum of the input tokens of all turns.
pub accounting-input_tokens :
    (usage : Fields) (rs : List (Option Report)) (tool_uses wall_ms : Rat)
    (given : Option (List Resolution)) (a : Accounting)
    → reports usage ≡ ok rs
    → accounting rs tool_uses wall_ms given ≡ ok a
    → a.input_tokens
      ≡ (if not (is_empty rs) && all reports_all rs then some (sum (map input_of rs)) else none)
unfolding account
accounting-input_tokens usage rs tool_uses wall_ms given a v h =
    let (resolutions, n, e) = accounting-account rs tool_uses wall_ms given h in
    subst
      (λ (a : Accounting).
        a.input_tokens
        ≡ (if not (is_empty rs) && all reports_all rs then some (sum (map input_of rs)) else none))
      {y = a} e (when_complete-total rs (reports-SlotTotals usage v))
