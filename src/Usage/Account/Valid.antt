-- ===== src/Usage/Account/Valid.antt =====
-- The reports that pass the checks have the totals that the account reads.
use deepswe_eval_lab.Base.{
  ℕ, ◌≡◌, refl, subst, String, true, not, Option, none, some, List, [], ◌∷◌, arith, All, Result, ok,
  after_check, after_bind, Option-cases, inl, inr,
}
use deepswe_eval_lab.Base.Dict
use deepswe_eval_lab.Base.Dict.{Dict}
use deepswe_eval_lab.Base.Json
use deepswe_eval_lab.Base.Json.{
  Json, null, bool, int, float, nonfinite, str, arr, obj, Fields, end, field,
}
use deepswe_eval_lab.Usage.Reports.{
  UsageError, unsupported_schema, is_two, slots, invalid_total, invalid_coverage, count, is_some,
  counted, with_count, records_of, with_records, equals_text, in_set, input_keys, output_keys,
  Totals, Tokens, Report, side_counts, side_of, validate_tokens, tokens_of, optional_tokens,
  optional_cost, report_of, reports_loop, reports,
}
use deepswe_eval_lab.Usage.Account.{tokens_in, total_of}

-- A side of a valid report has a total.
unfoldable pub HasTotal : Dict ℕ → Type 0
HasTotal d = Dict.get "total" d ≡ some (total_of d)

get-find-none : (key : String) (fs : Fields) → Json.find key fs ≡ none → Json.get key fs ≡ null
unfolding Json.find Json.get
get-find-none key end h = refl
get-find-none key (field j v fs) h = ground (arith, get-find-none key fs)

with_count-HasTotal :
    (side : String) (o : Option Json) (rest : Result UsageError (Dict ℕ)) {d : Dict ℕ}
    → is_some o ≡ true
    → with_count side "total" o rest ≡ ok d
    → HasTotal d
unfolding Dict.get HasTotal
with_count-HasTotal side none rest s h = cc
with_count-HasTotal side (some value) rest {d} s h =
    after_bind (counted side "total" value) h λ n e h.
      after_bind rest h λ others f h. subst HasTotal {x = ("total", n) ∷ others} {y = d} (cc h) refl

is_some-find :
    (key : String) (fs : Fields)
    → is_some (count (Json.get key fs)) ≡ true
    → is_some (Json.find key fs) ≡ true
unfolding count
is_some-find key fs h = elim (Option-cases (Json.find key fs)) [
  | inl e ↦ cc (subst (λ v. is_some (count v) ≡ true) (get-find-none key fs e) h)
  | inr p ↦ rw p.1 refl
]

side_of-HasTotal :
    (side : String) (keys : List String) (value : Json) {d : Dict ℕ}
    → side_of side ("total" ∷ keys) value ≡ ok d
    → HasTotal d
unfolding side_of side_counts
side_of-HasTotal side keys (obj values) h =
    after_check (not (is_some (count (Json.get "total" values)))) (invalid_total side) h λ b h.
      with_count-HasTotal side (Json.find "total" values) (side_counts side values keys)
        (is_some-find "total" values (ground arith)) h
side_of-HasTotal side keys null h = cc
side_of-HasTotal side keys (bool b) h = cc
side_of-HasTotal side keys (int n) h = cc
side_of-HasTotal side keys (float x) h = cc
side_of-HasTotal side keys nonfinite h = cc
side_of-HasTotal side keys (str s) h = cc
side_of-HasTotal side keys (arr xs) h = cc

-- A token report with a total on both sides.
pub record HasTotals (t : Tokens) : Type 0 where
  pub input : HasTotal t.totals.input
  pub output : HasTotal t.totals.output

validate_tokens-HasTotal :
    (value : Json) {t : Totals}
    → validate_tokens value ≡ ok t
    → HasTotal t.input × HasTotal t.output
unfolding validate_tokens
validate_tokens-HasTotal (obj tokens) {t} h =
    after_bind (side_of "input" input_keys (Json.get "input" tokens)) h λ i e h.
      after_bind (side_of "output" output_keys (Json.get "output" tokens)) h λ o f h.
        subst (λ (t : Totals). HasTotal t.input × HasTotal t.output) {y = t} (cc h)
          (side_of-HasTotal "input" _ _ e, side_of-HasTotal "output" _ _ f)
validate_tokens-HasTotal null h = cc
validate_tokens-HasTotal (bool b) h = cc
validate_tokens-HasTotal (int n) h = cc
validate_tokens-HasTotal (float x) h = cc
validate_tokens-HasTotal nonfinite h = cc
validate_tokens-HasTotal (str s) h = cc
validate_tokens-HasTotal (arr xs) h = cc

tokens_of-HasTotals : (value : Json) {t : Tokens} → tokens_of value ≡ ok t → HasTotals t
unfolding tokens_of
tokens_of-HasTotals (obj tokens) {t} h =
    after_bind (in_set ("complete" ∷ "partial" ∷ []) (Json.get "coverage" tokens)) h λ known e h.
      after_check (not known) invalid_coverage h λ a h.
        after_bind (validate_tokens (Json.get "totals" tokens)) h λ totals f h.
          after_bind (records_of (Json.find "records" tokens)) h λ rs g h.
            let (i, o) = validate_tokens-HasTotal (Json.get "totals" tokens) f in
            subst HasTotals
              {x = with_records (equals_text "complete" (Json.get "coverage" tokens)) totals rs}
              {y = t} (cc h) (record { input = i; output = o })
tokens_of-HasTotals null h = cc
tokens_of-HasTotals (bool b) h = cc
tokens_of-HasTotals (int n) h = cc
tokens_of-HasTotals (float x) h = cc
tokens_of-HasTotals nonfinite h = cc
tokens_of-HasTotals (str s) h = cc
tokens_of-HasTotals (arr xs) h = cc

-- The tokens of a slot, if it has any.
unfoldable pub SlotTotals : Option Tokens → Type 0
SlotTotals none = Unit
SlotTotals (some t) = HasTotals t

optional_tokens-SlotTotals :
    (value : Option Json) {o : Option Tokens} → optional_tokens value ≡ ok o → SlotTotals o
unfolding optional_tokens SlotTotals
optional_tokens-SlotTotals none {o} h = subst SlotTotals {x = none} {y = o} (cc h) tt
optional_tokens-SlotTotals (some value) {o} h =
    after_bind (tokens_of value) h
      λ t e h. subst SlotTotals {x = some t} {y = o} (cc h) (tokens_of-HasTotals value e)

report_of-SlotTotals :
    (value : Json) {r : Option Report} → report_of value ≡ ok r → SlotTotals (tokens_in r)
unfolding report_of SlotTotals
report_of-SlotTotals null {r} h = subst (λ r. SlotTotals (tokens_in r)) {x = none} {y = r} (cc h) tt
report_of-SlotTotals (obj fs) {r} h =
    after_bind (optional_tokens (Json.find "tokens" fs)) h λ tokens e h.
      after_bind (optional_cost fs) h λ cost f h.
        subst (λ r. SlotTotals (tokens_in r)) {x = some (record { tokens = tokens; cost = cost })}
          {y = r} (cc h) (optional_tokens-SlotTotals (Json.find "tokens" fs) e)
report_of-SlotTotals (bool b) h = cc
report_of-SlotTotals (int n) h = cc
report_of-SlotTotals (float x) h = cc
report_of-SlotTotals nonfinite h = cc
report_of-SlotTotals (str s) h = cc
report_of-SlotTotals (arr xs) h = cc

reports_loop-SlotTotals :
    (values : List Json) {rs : List (Option Report)}
    → reports_loop values ≡ ok rs
    → All (λ r. SlotTotals (tokens_in r)) rs
unfolding reports_loop
reports_loop-SlotTotals [] {rs} h =
    subst (All (λ r. SlotTotals (tokens_in r))) {x = []} {y = rs} (cc h) tt
reports_loop-SlotTotals (x ∷ xs) {rs} h = after_bind (report_of x) h λ r e h.
    after_bind (reports_loop xs) h λ others f h.
      subst (All (λ r. SlotTotals (tokens_in r))) {x = r ∷ others} {y = rs} (cc h)
        (report_of-SlotTotals x e, reports_loop-SlotTotals xs f)

-- Each slot of valid reports has totals where it has tokens.
pub reports-SlotTotals :
    (usage : Fields) {rs : List (Option Report)}
    → reports usage ≡ ok rs
    → All (λ r. SlotTotals (tokens_in r)) rs
unfolding reports
reports-SlotTotals usage h =
    after_check (not (is_two (Json.get "usageSchema" usage))) unsupported_schema h λ a h.
      after_bind (slots (Json.get "usageReports" usage) (count (Json.get "turns" usage))) h
        λ values e h. reports_loop-SlotTotals values h
