-- ===== src/Eval/Launcher/Redact/Secrets.antt =====
-- The arguments that are recorded do not depend on the secrets.
use Prim.Native.Char.{code}
use deepswe_eval_lab.Base.{
  ◌≡◌, refl, ap, ◌∙◌, subst, String, ◌<>◌, Bool, true, false, none, some, List, [], ◌∷◌, ◌==◌,
  eq_iff, eqb, mem, arith, inl, inr, Bool-cases, Option-cases, all,
}
use text.Mathlib.TextLemmas.{nil-append, cons-append, append_assoc}
use text.Mathlib.TextEquality.{Char-path}
use mathlib.Core.Option.{some-injective}
use deepswe_eval_lab.Base.Text.{remove_prefix}
use deepswe_eval_lab.Eval.Launcher.Redact.{
  partition, redact_assignment, secret_env_flags, has_flag, matched_flag, redact_value, redact_loop,
  redact_args,
}

-- Two lists of arguments that differ in secrets alone: in the value of a `KEY=value` that follows a
-- secret flag or is joined to one by a `=`, or in all of such an argument that has no `=` of its own.
pub data DifferInSecrets : Bool → List String → List String → Type 0 where
  done : (b : Bool) → DifferInSecrets b [] []
  assignment :
      (key s t : String) {xs ys : List String}
      → partition key ≡ none
      → DifferInSecrets false xs ys
      → DifferInSecrets true ((key <> "=" <> s) ∷ xs) ((key <> "=" <> t) ∷ ys)
  bare :
      (s t : String) {xs ys : List String}
      → partition s ≡ none
      → partition t ≡ none
      → DifferInSecrets false xs ys
      → DifferInSecrets true (s ∷ xs) (t ∷ ys)
  flag :
      (value : String) {xs ys : List String}
      → mem value secret_env_flags ≡ true
      → DifferInSecrets true xs ys
      → DifferInSecrets false (value ∷ xs) (value ∷ ys)
  joined :
      (f key s t : String) {xs ys : List String}
      → mem f secret_env_flags ≡ true
      → partition key ≡ none
      → DifferInSecrets false xs ys
      → DifferInSecrets false
          ((f <> "=" <> key <> "=" <> s) ∷ xs)
          ((f <> "=" <> key <> "=" <> t) ∷ ys)
  joined_bare :
      (f s t : String) {xs ys : List String}
      → mem f secret_env_flags ≡ true
      → partition s ≡ none
      → partition t ≡ none
      → DifferInSecrets false xs ys
      → DifferInSecrets false ((f <> "=" <> s) ∷ xs) ((f <> "=" <> t) ∷ ys)
  plain :
      (value : String) {xs ys : List String}
      → mem value secret_env_flags ≡ false
      → DifferInSecrets false xs ys
      → DifferInSecrets false (value ∷ xs) (value ∷ ys)

equals-append : (s : String) → "=" <> s ≡ String.◌∷◌ "=" s
equals-append s = cons-append "=" "" s ∙ ap (String.◌∷◌ "=") (nil-append s)

-- A text without a `=` before the first one.
partition-append :
    (key s : String) → partition key ≡ none → partition (key <> "=" <> s) ≡ some (key, s)
unfolding partition
partition-append String.[] s h = rw (nil-append ("=" <> s), equals-append s) refl
partition-append (String.◌∷◌ c key) s h =
    rw (cons-append c key ("=" <> s)) (ground (arith, partition-append key s))

redact_assignment-append :
    (key s : String)
    → partition key ≡ none
    → redact_assignment (key <> "=" <> s) ≡ key <> "=<redacted>"
unfolding redact_assignment
redact_assignment-append key s h = ground (arith, partition-append key s h)

redact_assignment-bare : (s : String) → partition s ≡ none → redact_assignment s ≡ "<redacted>"
unfolding redact_assignment
redact_assignment-bare s h = ground arith

-- A text begins with another one exactly if it is that one and a rest.
remove_prefix-append : (p r : String) → remove_prefix p (p <> r) ≡ some r
unfolding remove_prefix
remove_prefix-append String.[] r = rw (nil-append r) refl
remove_prefix-append (String.◌∷◌ c p) r =
    rw (cons-append c p r) (ground (arith, remove_prefix-append p r))

remove_prefix-eq-some : (p v r : String) → remove_prefix p v ≡ some r → v ≡ p <> r
unfolding remove_prefix
remove_prefix-eq-some String.[] v r h = rw (nil-append r) (some-injective _ _ h)
remove_prefix-eq-some (String.◌∷◌ c p) String.[] r h = cc
remove_prefix-eq-some (String.◌∷◌ c p) (String.◌∷◌ d v) r h =
    elim (Bool-cases (eqb (code c) (code d))) [
      | inl e ↦
          cc (
            Char-path c d (ground arith),
            remove_prefix-eq-some p v r (cc (e, h)),
            cons-append c p r,
          )
      | inr e ↦ ground arith
    ]

has_flag-partition :
    (g v : String) (key rest : String)
    → partition g ≡ none
    → partition v ≡ some (key, rest)
    → has_flag g v ≡ true
    → g ≡ key
unfolding has_flag
has_flag-partition g v key rest p q h = elim (Option-cases (remove_prefix (g <> "=") v)) [
  | inl e ↦ ground arith
  | inr (r, e) ↦
      let f : v ≡ g <> "=" <> r = remove_prefix-eq-some (g <> "=") v r e ∙ append_assoc g "=" r in
      cc (partition-append g r p, ap partition f, q)
]

has_flag-append : (f rest : String) → has_flag f (f <> "=" <> rest) ≡ true
unfolding has_flag
has_flag-append f rest =
    subst (λ v. has_flag f v ≡ true) (append_assoc f "=" rest)
      (ground (arith, remove_prefix-append (f <> "=") rest))

abbrev no_equals : String → Bool
no_equals s = elim (partition s) [ none ↦ true | some kv ↦ false ]

partition-none : (s : String) → no_equals s ≡ true → partition s ≡ none
partition-none s h = elim (Option-cases (partition s)) [ inl e ↦ e | inr (kv, e) ↦ ground arith ]

-- The flags hold no `=`.
mem-no_equals :
    (flags : List String) (f : String)
    → all no_equals flags ≡ true
    → mem f flags ≡ true
    → partition f ≡ none
mem-no_equals [] f a m = cc
mem-no_equals (g ∷ gs) f a m = elim (Bool-cases (g == f)) [
  | inl e ↦ subst (λ s. partition s ≡ none) ((eq_iff g f).0 e) (partition-none g (ground arith))
  | inr e ↦ mem-no_equals gs f (ground arith) (ground arith)
]

-- The flag that an argument is joined to is the one that is found.
matched_flag-joined :
    (flags : List String) (f rest : String)
    → all no_equals flags ≡ true
    → partition f ≡ none
    → mem f flags ≡ true
    → matched_flag flags (f <> "=" <> rest) ≡ some f
unfolding matched_flag
matched_flag-joined [] f rest a p m = cc
matched_flag-joined (g ∷ gs) f rest a p m = elim (Bool-cases (has_flag g (f <> "=" <> rest))) [
  | inl e ↦ rw e (
      ap some (
        has_flag-partition g (f <> "=" <> rest) f rest (partition-none g (ground arith))
          (partition-append f rest p) e))
  | inr e ↦ rw e (
      matched_flag-joined gs f rest (ground arith) p (
        ground
          (arith, has_flag-append f rest, eq_iff g f, ap (λ k. has_flag k (f <> "=" <> rest)), m)))
]

-- What is joined to a flag is no flag.
mem-joined :
    (flags : List String) (f rest : String)
    → all no_equals flags ≡ true
    → partition f ≡ none
    → mem (f <> "=" <> rest) flags ≡ false
mem-joined flags f rest a p = elim (Bool-cases (mem (f <> "=" <> rest) flags)) [
  | inl m ↦ cc (mem-no_equals flags (f <> "=" <> rest) a m, partition-append f rest p)
  | inr m ↦ m
]

flags-no_equals : all no_equals secret_env_flags ≡ true
unfolding partition
flags-no_equals = refl

redact_value-joined :
    (f key s : String)
    → mem f secret_env_flags ≡ true
    → partition key ≡ none
    → redact_value (f <> "=" <> key <> "=" <> s) ≡ f <> "=" <> key <> "=<redacted>"
unfolding redact_value
redact_value-joined f key s m k =
    let p = mem-no_equals secret_env_flags f flags-no_equals m in
    ground (
      arith,
      matched_flag-joined secret_env_flags f (key <> "=" <> s) flags-no_equals p m,
      partition-append f (key <> "=" <> s) p,
      redact_assignment-append key s k,
    )

redact_value-matched :
    (v f key s r : String)
    → matched_flag secret_env_flags v ≡ some f
    → partition v ≡ some (key, s)
    → redact_assignment s ≡ r
    → redact_value v ≡ f <> "=" <> r
unfolding redact_value
redact_value-matched v f key s r m p k = ground arith

redact_value-joined_bare :
    (f s : String)
    → mem f secret_env_flags ≡ true
    → partition s ≡ none
    → redact_value (f <> "=" <> s) ≡ f <> "=" <> "<redacted>"
redact_value-joined_bare f s m k =
    let p = mem-no_equals secret_env_flags f flags-no_equals m in
    redact_value-matched (f <> "=" <> s) f f s "<redacted>"
      (matched_flag-joined secret_env_flags f s flags-no_equals p m) (partition-append f s p)
      (redact_assignment-bare s k)

redact_loop-DifferInSecrets :
    {b : Bool} {xs ys : List String} → DifferInSecrets b xs ys → redact_loop b xs ≡ redact_loop b ys
unfolding redact_loop
redact_loop-DifferInSecrets (done b) = refl
redact_loop-DifferInSecrets (assignment key s t k d) = cc (
  redact_assignment-append key s k,
  redact_assignment-append key t k,
  redact_loop-DifferInSecrets d,
)
redact_loop-DifferInSecrets (bare s t p q d) =
    cc (redact_assignment-bare s p, redact_assignment-bare t q, redact_loop-DifferInSecrets d)
redact_loop-DifferInSecrets (flag value m d) = ground (arith, redact_loop-DifferInSecrets d)
redact_loop-DifferInSecrets (joined f key s t m k d) =
    let p = mem-no_equals secret_env_flags f flags-no_equals m in
    ground (
      arith,
      redact_loop-DifferInSecrets d,
      redact_value-joined f key s m k,
      redact_value-joined f key t m k,
      mem-joined secret_env_flags f (key <> "=" <> s) flags-no_equals p,
      mem-joined secret_env_flags f (key <> "=" <> t) flags-no_equals p,
    )
redact_loop-DifferInSecrets (joined_bare f s t m k l d) =
    let p = mem-no_equals secret_env_flags f flags-no_equals m in
    ground (
      arith,
      redact_loop-DifferInSecrets d,
      redact_value-joined_bare f s m k,
      redact_value-joined_bare f t m l,
      mem-joined secret_env_flags f s flags-no_equals p,
      mem-joined secret_env_flags f t flags-no_equals p,
    )
redact_loop-DifferInSecrets (plain value m d) = ground (arith, redact_loop-DifferInSecrets d)

-- Two command lines that differ in secrets alone are recorded as one.
pub redact_args-DifferInSecrets :
    (xs ys : List String) → DifferInSecrets false xs ys → redact_args xs ≡ redact_args ys
unfolding redact_args
redact_args-DifferInSecrets xs ys d = redact_loop-DifferInSecrets d
