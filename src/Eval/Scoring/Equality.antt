-- ===== src/Eval/Scoring/Equality.antt =====
-- Python's `==` on values that were read from JSON.
use deepswe_eval_lab.Base.{ℕ, suc, Bool, true, false, ◌&&◌, Option, none, some, ◌==◌, eqb}
use deepswe_eval_lab.Base.Rat
use deepswe_eval_lab.Base.Rat.{Rat}
use deepswe_eval_lab.Base.Json
use deepswe_eval_lab.Base.Json.{
  Json, Items, Fields, null, bool, int, float, nonfinite, str, arr, obj, nil, cons, end, field,
}
use deepswe_eval_lab.Eval.Scoring.Patches.{number_of}

abbrev equal_numbers : Option Rat → Option Rat → Bool
equal_numbers (some x) (some y) = Rat.eq x y
equal_numbers _ _ = false

abbrev fields_count : Fields → ℕ
fields_count end = 0
fields_count (field k v fs) = suc (fields_count fs)

-- `json_in fs gs`: each key of `fs` is in `gs` with an equal value. `nonfinite` equals nothing, as NaN.
unfoldable mutual
  pub json_eq : Json → Json → Bool
  json_eq null null = true
  json_eq null _ = false
  json_eq (str s) (str t) = s == t
  json_eq (str s) _ = false
  json_eq (arr xs) (arr ys) = items_eq xs ys
  json_eq (arr xs) _ = false
  json_eq (obj fs) (obj gs) = eqb (fields_count fs) (fields_count gs) && json_in fs gs
  json_eq (obj fs) _ = false
  json_eq v w = equal_numbers (number_of v) (number_of w)

  items_eq : Items → Items → Bool
  items_eq nil nil = true
  items_eq (cons x xs) (cons y ys) = let rest = items_eq xs ys in json_eq x y && rest
  items_eq _ _ = false

  json_in : Fields → Fields → Bool
  json_in end gs = true
  json_in (field k v fs) gs =
      let rest = json_in fs gs in
      elim (Json.find k gs) [ none ↦ false | some w ↦ json_eq v w && rest ]
