-- ===== src/Eval/Scoring/Stats/Sign.antt =====
-- The sign test: it does not tell improvements from harm, and gives a probability.
use deepswe_eval_lab.Base.{
  ℕ, zero, suc, ◌+◌, ◌*◌, ◌^◌, ◌≤◌, min, ◌≡◌, refl, Option, none, some, if◌then◌else◌, leb, eqb,
  arith, Bool-cases, inl, inr,
}
use deepswe_eval_lab.Base.Int.{pos_part}
use deepswe_eval_lab.Base.Rat.{Rat}
use deepswe_eval_lab.Eval.Scoring.Stats.{comb, comb_sum, p_value, mcnemar_exact_p}

comb_sum-positive : (n tail : ℕ) → 1 ≤ comb_sum n tail
unfolding comb_sum comb
comb_sum-positive n zero = omega arith
comb_sum-positive n (suc tail) = omega (arith, comb_sum-positive n tail)

add_comm : (a b : ℕ) → a + b ≡ b + a
add_comm a b = omega arith

min_comm : (a b : ℕ) → min a b ≡ min b a
min_comm a b = ground arith

-- A positive probability: 0 < p ≤ 1.
pub record IsProbability (p : Rat) : Type 0 where
  pub positive : 1 ≤ pos_part p.num
  pub at_most_one : pos_part p.num ≤ p.den

p_value-IsProbability : (n c : ℕ) → 1 ≤ c → IsProbability (p_value n c)
p_value-IsProbability n c h = elim (Bool-cases (leb (2 ^ n) (2 * c))) [
  | inl e ↦ rw e (record { positive = omega arith; at_most_one = omega arith })
  | inr e ↦ rw e (record { positive = omega (arith, h); at_most_one = ground arith })
]

-- No pairs that differ give no value, others a probability.
unfoldable pub IsPValue : ℕ → Option Rat → Type 0
IsPValue zero r = r ≡ none
IsPValue (suc n) r = (p : Rat) × (r ≡ some p) × IsProbability p

IsPValue-of :
    (n tail : ℕ) → IsPValue n (if eqb n 0 then none else some (p_value n (comb_sum n tail)))
unfolding IsPValue
IsPValue-of zero tail = refl
IsPValue-of (suc n) tail = (
  p_value (suc n) (comb_sum (suc n) tail),
  ground arith,
  p_value-IsProbability (suc n) (comb_sum (suc n) tail) (comb_sum-positive (suc n) tail),
)

mcnemar_exact_p-symmetric :
    (improved harmed : ℕ) → mcnemar_exact_p improved harmed ≡ mcnemar_exact_p harmed improved
unfolding mcnemar_exact_p
mcnemar_exact_p-symmetric improved harmed = cc (add_comm improved harmed, min_comm improved harmed)

-- The sign test gives no value exactly without pairs that differ, else a positive number of at most 1,
-- and the same value with the improved and the harmed pairs exchanged.
pub mcnemar_exact_p-IsPValue :
    (improved harmed : ℕ)
    → IsPValue (improved + harmed) (mcnemar_exact_p improved harmed)
      × (mcnemar_exact_p improved harmed ≡ mcnemar_exact_p harmed improved)
unfolding mcnemar_exact_p
mcnemar_exact_p-IsPValue improved harmed = (
  IsPValue-of (improved + harmed) (min improved harmed),
  mcnemar_exact_p-symmetric improved harmed,
)
