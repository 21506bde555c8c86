-- ===== src/Base/Rat.antt =====
-- Python floats by their exact values: a numerator over a positive denominator. Rounding is not
-- modelled; signs, orders and zero tests of a difference or a quotient are those of IEEE arithmetic.
use deepswe_eval_lab.Base.{ℕ, ◌*◌, Bool}
use deepswe_eval_lab.Base.Int.{ℤ, pos, ◌-ℤ◌, ◌*ℤ◌, ◌+ℤ◌, ltb_ℤ, leb_ℤ, eqb_ℤ}

pub record Rat : Type 0 where
  pub num : ℤ
  pub den : ℕ

abbrev pub of_int : ℤ → Rat
of_int n = record { num = n; den = 1 }

abbrev pub of_nat : ℕ → Rat
of_nat n = of_int (pos n)

unfoldable pub sub : Rat → Rat → Rat
unfolding ◌-ℤ◌ ◌*ℤ◌
sub a b = record { num = a.num *ℤ pos b.den -ℤ b.num *ℤ pos a.den; den = a.den * b.den }

unfoldable pub add : Rat → Rat → Rat
unfolding ◌+ℤ◌ ◌*ℤ◌
add a b = record { num = a.num *ℤ pos b.den +ℤ b.num *ℤ pos a.den; den = a.den * b.den }

unfoldable pub mul : Rat → Rat → Rat
unfolding ◌*ℤ◌
mul a b = record { num = a.num *ℤ b.num; den = a.den * b.den }

-- Order and equality by cross multiplication.
unfoldable pub lt : Rat → Rat → Bool
unfolding ◌*ℤ◌
lt a b = ltb_ℤ (a.num *ℤ pos b.den) (b.num *ℤ pos a.den)

unfoldable pub le : Rat → Rat → Bool
unfolding ◌*ℤ◌
le a b = leb_ℤ (a.num *ℤ pos b.den) (b.num *ℤ pos a.den)

unfoldable pub eq : Rat → Rat → Bool
unfolding ◌*ℤ◌
eq a b = eqb_ℤ (a.num *ℤ pos b.den) (b.num *ℤ pos a.den)
