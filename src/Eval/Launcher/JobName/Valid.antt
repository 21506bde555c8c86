-- ===== src/Eval/Launcher/JobName/Valid.antt =====
-- A generated job name could be given explicitly.
use Prim.Native.Char.{code}
use text.Mathlib.TextLemmas.{nil-append, cons-append}
use deepswe_eval_lab.Base.{
  ℕ, zero, suc, ◌+◌, ◌-◌, ◌≤◌, ◌<◌, ◌≡◌, refl, ap, ◌∙◌, String, ◌<>◌, Bool, true, false, ◌&&◌,
  Option, List, ◌==◌, eq_iff, eq_refl, leb, leb→le, arith, Bool-cases, inl, inr, ok,
}
use deepswe_eval_lab.Eval.Launcher.JobName.{
  char_count, take_chars, is_separator, lstrip_separators, rstrip_separators, strip_separators,
  is_safe, safe_job_component, validate_explicit_job_name, shorten_generated_job_name,
  default_job_name,
}
use deepswe_eval_lab.Eval.Launcher.JobName.Labels.{
  char_count-append, char_count-take_chars, char_count-rstrip_separators,
}

module _ (is_alnum : ℕ → Bool) where
  -- All characters may stand in a name.
  unfoldable pub all_safe : String → Bool
  all_safe String.[] = true
  all_safe (String.◌∷◌ c s) = is_safe is_alnum (code c) && all_safe s

  all_safe-append : (s t : String) → all_safe (s <> t) ≡ (all_safe s && all_safe t)
  unfolding all_safe
  all_safe-append String.[] t = rw (nil-append t) refl
  all_safe-append (String.◌∷◌ c s) t = rw (cons-append c s t) (ground (arith, all_safe-append s t))

  is_safe_dash : is_safe is_alnum 45 ≡ true
  is_safe_dash = ground arith

  all_safe-safe_job_component : (s : String) → all_safe (safe_job_component is_alnum s) ≡ true
  unfolding all_safe safe_job_component
  all_safe-safe_job_component String.[] = refl
  all_safe-safe_job_component (String.◌∷◌ c s) = elim (Bool-cases (is_safe is_alnum (code c))) [
    | inl e ↦ rw e (ground (arith, e, all_safe-safe_job_component s))
    | inr e ↦ rw e (ground (arith, is_safe_dash, all_safe-safe_job_component s))
  ]

  -- A text of such characters is kept as it is.
  safe_job_component-all_safe : (s : String) → all_safe s ≡ true → safe_job_component is_alnum s ≡ s
  unfolding all_safe safe_job_component
  safe_job_component-all_safe String.[] h = refl
  safe_job_component-all_safe (String.◌∷◌ c s) h = elim (Bool-cases (is_safe is_alnum (code c))) [
    | inl e ↦ rw e (ap (String.◌∷◌ c) (safe_job_component-all_safe s (ground arith)))
    | inr e ↦ ground arith
  ]

  all_safe-take_chars : (n : ℕ) (s : String) → all_safe s ≡ true → all_safe (take_chars n s) ≡ true
  unfolding all_safe take_chars
  all_safe-take_chars zero s h = refl
  all_safe-take_chars (suc n) String.[] h = refl
  all_safe-take_chars (suc n) (String.◌∷◌ c s) h = ground (arith, all_safe-take_chars n s)

  all_safe-rstrip_separators :
      (s : String) → all_safe s ≡ true → all_safe (rstrip_separators s) ≡ true
  unfolding all_safe rstrip_separators
  all_safe-rstrip_separators String.[] h = refl
  all_safe-rstrip_separators (String.◌∷◌ c s) h =
      elim (Bool-cases (is_separator (code c) && rstrip_separators s == "")) [
        | inl e ↦ rw e refl
        | inr e ↦ rw e (ground (arith, all_safe-rstrip_separators s))
      ]

  all_safe-lstrip_separators :
      (s : String) → all_safe s ≡ true → all_safe (lstrip_separators s) ≡ true
  unfolding all_safe lstrip_separators
  all_safe-lstrip_separators String.[] h = refl
  all_safe-lstrip_separators (String.◌∷◌ c s) h = elim (Bool-cases (is_separator (code c))) [
    | inl e ↦ rw e (all_safe-lstrip_separators s (ground arith))
    | inr e ↦ rw e h
  ]

  -- What an explicit name must be.
  record IsName (name : String) : Type 0 where
    safe : all_safe name ≡ true
    long : 3 ≤ char_count name
    short : char_count name ≤ 200

  IsName-ne :
      (name short : String) → 3 ≤ char_count name → char_count short < 3 → (name == short) ≡ false
  IsName-ne name short h k = elim (Bool-cases (name == short)) [
    | inl e ↦ grind (arith, ap char_count ((eq_iff name short).0 e))
    | inr e ↦ e
  ]

  validate_explicit_job_name-IsName :
      (name : String) → IsName name → validate_explicit_job_name is_alnum name ≡ ok tt
  unfolding validate_explicit_job_name char_count
  validate_explicit_job_name-IsName name v = ground (
    arith,
    safe_job_component-all_safe name v.safe,
    eq_refl name,
    IsName-ne name "" v.long (omega arith),
    IsName-ne name "." v.long (omega arith),
    IsName-ne name ".." v.long (omega arith),
    v.short,
  )

  all_safe-dash : (s : String) → all_safe ("-" <> s) ≡ all_safe s
  unfolding all_safe
  all_safe-dash s = rw (cons-append "-" "" s) (rw (nil-append s) (ground (arith, is_safe_dash)))

  char_count-dash : (s : String) → char_count ("-" <> s) ≡ suc (char_count s)
  unfolding char_count
  char_count-dash s = rw (cons-append "-" "" s) (rw (nil-append s) refl)

  shortened-IsName :
      (base digest timestamp : String) (n : ℕ)
      → all_safe base ≡ true
      → all_safe digest ≡ true
      → all_safe timestamp ≡ true
      → 2 ≤ char_count timestamp
      → n + (char_count digest + char_count timestamp) ≤ 198
      → IsName (rstrip_separators (take_chars n base) <> "-" <> digest <> "-" <> timestamp)
  shortened-IsName base digest timestamp n b d t lo room =
      let front = rstrip_separators (take_chars n base) in
      let tail : String = digest <> "-" <> timestamp in
      let safes : all_safe front ≡ true =
        all_safe-rstrip_separators (take_chars n base) (all_safe-take_chars n base b) in
      let tail_safe : all_safe tail ≡ true =
        ground (arith, all_safe-append digest ("-" <> timestamp), all_safe-dash timestamp) in
      let tail_count : char_count tail ≡ char_count digest + suc (char_count timestamp) =
        char_count-append digest ("-" <> timestamp)
        ∙ ap (λ k. char_count digest + k) (char_count-dash timestamp) in
      let count : char_count (front <> "-" <> tail) ≡ char_count front + suc (char_count tail) =
        char_count-append front ("-" <> tail)
        ∙ ap (λ k. char_count front + k) (char_count-dash tail) in
      record {
        safe =
            ground
              (arith, all_safe-append front ("-" <> tail), all_safe-dash tail, safes, tail_safe);
        long = omega (arith, count, tail_count);
        short = omega (
          arith,
          count,
          tail_count,
          char_count-rstrip_separators (take_chars n base),
          char_count-take_chars n base,
        );
      }

  shorten_generated_job_name-IsName :
      (hexdigest : String → String) (base timestamp : String)
      → all_safe base ≡ true
      → all_safe timestamp ≡ true
      → all_safe (hexdigest base) ≡ true
      → 2 ≤ char_count timestamp
      → char_count timestamp ≤ 100
      → IsName (shorten_generated_job_name is_alnum hexdigest base timestamp)
  unfolding shorten_generated_job_name
  shorten_generated_job_name-IsName hexdigest base timestamp b t d lo hi =
      elim (Bool-cases (leb (char_count base) (200 - char_count timestamp - 1))) [
        | inl e ↦ rw e (record {
          safe = ground (arith, all_safe-append base ("-" <> timestamp), all_safe-dash timestamp);
          long =
              omega (arith, char_count-append base ("-" <> timestamp), char_count-dash timestamp);
          short = omega (
            arith,
            leb→le (char_count base) (200 - char_count timestamp - 1) e,
            char_count-append base ("-" <> timestamp),
            char_count-dash timestamp,
          );
        })
        | inr e ↦ rw e (
            shortened-IsName base (take_chars 8 (hexdigest base)) timestamp
              (200 - char_count timestamp - 1 - char_count (take_chars 8 (hexdigest base)) - 1) b
              (all_safe-take_chars 8 (hexdigest base) d) t lo
              (omega (arith, char_count-take_chars 8 (hexdigest base))))
      ]

  -- The name that the launcher makes for a job is one that a user could give: whatever the agent, the tasks, the
  -- labels of the lists and the models are called, it has no character but letters, digits, ".", "_" and "-", is not
  -- empty or dots, and is not longer than 200 characters. It holds when the digest and the time have only such
  -- characters and the time has 2 to 100 of them.
  pub default_job_name-validate_explicit_job_name :
      (show_nat : ℕ → String) (hexdigest : String → String) (timestamp agent : String)
      (tasks labels : List String) (modifier reviewer : Option String)
      → ((base : String) → all_safe (hexdigest base) ≡ true)
      → all_safe timestamp ≡ true
      → 2 ≤ char_count timestamp
      → char_count timestamp ≤ 100
      → validate_explicit_job_name is_alnum (
          default_job_name is_alnum show_nat hexdigest timestamp agent tasks labels modifier
            reviewer)
        ≡ ok tt
  unfolding default_job_name strip_separators
  default_job_name-validate_explicit_job_name show_nat hexdigest timestamp agent tasks labels
        modifier reviewer d t lo hi =
      validate_explicit_job_name-IsName _ (
        shorten_generated_job_name-IsName hexdigest _ timestamp
          (all_safe-rstrip_separators _
            (all_safe-lstrip_separators _ (all_safe-safe_job_component _)))
          t (d _) lo hi)
