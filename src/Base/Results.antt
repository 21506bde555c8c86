-- ===== src/Base/Results.antt =====
-- Exceptions as values: what a function returns, or what it raises.
use mathlib.Core.Path.{◌≡◌, refl, subst}
use mathlib.Core.Bool.{Bool, true, false}
use mathlib.Core.Logic.{◌⊎◌, inl, inr}

pub data Result {ℓ κ} (E : Type ℓ) (A : Type κ) : Type (ℓ ⊔ κ) where
  err : (raised : E) → Result E A
  ok : (returned : A) → Result E A

-- `if test: raise error`
abbrev pub reject {ℓ} : {E : Type ℓ} → Bool → E → Result E (Unit {0})
reject true e = err e
reject false e = ok tt

-- A call, and what is done with the value that it returns.
infixl 5 ◌>>=◌
abbrev pub ◌>>=◌ {ℓ κ μ} :
    {E : Type ℓ} {A : Type κ} {B : Type μ} (call : Result E A) (next : A → Result E B) → Result E B
err raised >>= next = err raised
ok returned >>= next = next returned

-- A check before the rest.
infixl 5 ◌>>◌
abbrev pub ◌>>◌ {ℓ μ} :
    {E : Type ℓ} {B : Type μ} (check : Result E (Unit {0})) (rest : Result E B) → Result E B
check >> rest = check >>= λ _. rest

-- A proof about a bind, or a check, that returned continues with what it passed on.
pub after_bind {ℓ κ μ ν} :
    {E : Type ℓ} {A : Type κ} {B : Type μ} {C : Type ν} (m : Result E A) {f : A → Result E B}
    {b : B}
    → (m >>= f) ≡ ok b
    → ((a : A) → m ≡ ok a → f a ≡ ok b → C)
    → C
after_bind (ok a) h k = k a refl h
after_bind (err e) h k = cc

pub after_check {ℓ κ ν} :
    {E : Type ℓ} {B : Type κ} {C : Type ν} (b : Bool) (e : E) {m : Result E B} {out : B}
    → (reject b e >> m) ≡ ok out
    → (b ≡ false → m ≡ ok out → C)
    → C
after_check true e h k = cc
after_check false e h k = k refl h

-- The value on the way, as a pair with its equations.
pub value_returned {ℓ κ μ} :
    {E : Type ℓ} {A : Type κ} {B : Type μ} {next : A → Result E B} {out : B} (call : Result E A)
    → (call >>= next) ≡ ok out
    → (value : A) × (call ≡ ok value) × (next value ≡ ok out)
value_returned call h = after_bind call h λ value e f. (value, e, f)

pub Result-cases {ℓ κ} :
    {E : Type ℓ} {A : Type κ} (m : Result E A) → ((a : A) × (m ≡ ok a)) ⊎ ((e : E) × (m ≡ err e))
Result-cases (ok a) = inl (a, refl)
Result-cases (err e) = inr (e, refl)

-- A property of the error of a check and its rest: of the check's own, or of that of the rest.
pub error_of_check {ℓ κ μ} :
    {E : Type ℓ} {B : Type κ} (P : E → Type μ) (b : Bool) (x : E) {rest : Result E B} {e : E}
    → (reject b x >> rest) ≡ err e
    → P x
    → (rest ≡ err e → P e)
    → P e
error_of_check P true x h p k = subst P (cc h) p
error_of_check P false x h p k = k h
