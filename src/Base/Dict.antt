-- ===== src/Base/Dict.antt =====
-- Python's `dict` with text keys: an association list in insertion order.
use deepswe_eval_lab.Base.{
  String, ◌≡◌, refl, Bool, true, false, not, ◌&&◌, ◌||◌, Option, none, some, List, [], ◌∷◌, arith,
  ◌==◌, eq_iff, if◌then◌else◌, Bool-cases, inl, inr, subst,
}

abbrev pub Dict {ℓ} : Type ℓ → Type ℓ
Dict V = List (String × V)

module _ {ℓ} {V : Type ℓ} where
  -- `d.get(k)`
  unfoldable pub get : String → Dict V → Option V
  get k [] = none
  get k ((j, v) ∷ d) = if j == k then some v else get k d

  -- `d[k] = v`: a key that is there keeps its place.
  unfoldable pub insert : String → V → Dict V → Dict V
  insert k v [] = (k, v) ∷ []
  insert k v ((j, w) ∷ d) = if j == k then (j, v) ∷ d else (j, w) ∷ insert k v d

  -- `k in d`
  unfoldable pub has : String → Dict V → Bool
  has k [] = false
  has k ((j, v) ∷ d) = j == k || has k d

  -- No key is listed twice.
  unfoldable pub nodup : Dict V → Bool
  unfolding has
  nodup [] = true
  nodup ((k, v) ∷ d) = not (has k d) && nodup d

  pub get-nil : (k : String) → get k [] ≡ none
  unfolding get
  get-nil k = refl

  pub get-insert :
      (j k : String) (v : V) (d : Dict V)
      → get j (insert k v d) ≡ (if k == j then some v else get j d)
  unfolding get insert
  get-insert j k v [] = refl
  get-insert j k v ((i, w) ∷ d) =
      ground (arith, eq_iff k j, eq_iff i k, eq_iff i j, get-insert j k v d)

  pub has-insert : (j k : String) (v : V) (d : Dict V) → has j (insert k v d) ≡ (k == j || has j d)
  unfolding has insert
  has-insert j k v [] = refl
  has-insert j k v ((i, w) ∷ d) =
      ground (arith, eq_iff k j, eq_iff i k, eq_iff i j, has-insert j k v d)

  pub nodup-insert :
      (k : String) (v : V) (d : Dict V) → nodup d ≡ true → nodup (insert k v d) ≡ true
  unfolding nodup insert
  nodup-insert k v [] h = refl
  nodup-insert k v ((i, w) ∷ d) h =
      ground (arith, eq_iff k i, eq_iff i k, has-insert i k v d, nodup-insert k v d)

  pub get-eq-none : (k : String) (d : Dict V) → has k d ≡ false → get k d ≡ none
  unfolding get has
  get-eq-none k [] h = refl
  get-eq-none k ((j, v) ∷ d) h = ground (arith, get-eq-none k d)

  -- `d.get(j)` after `d.setdefault(k, v)`.
  unfoldable pub set_default : String → V → Dict V → Dict V
  set_default k v d = if has k d then d else insert k v d

  pub has-get : (k : String) (d : Dict V) → has k d ≡ true → (v : V) × (get k d ≡ some v)
  unfolding get has
  has-get k [] h = cc
  has-get k ((j, v) ∷ d) h = elim (Bool-cases (j == k)) [
    | inl e ↦ (v, rw e refl)
    | inr e ↦ let (w, f) = has-get k d (ground arith) in (w, rw e f)
  ]

  -- The first value, if there is one, or else the second.
  abbrev pub first_of : Option V → Option V → Option V
  first_of none o = o
  first_of (some w) o = some w

  pub first_of-none : (o : Option V) → o ≡ first_of o none
  first_of-none none = refl
  first_of-none (some w) = refl

  pub get-set_default :
      (j k : String) (v : V) (d : Dict V)
      → get j (set_default k v d) ≡ first_of (get j d) (if k == j then some v else none)
  unfolding set_default
  get-set_default j k v d = elim (Bool-cases (has k d)) [
    | inl e ↦ elim (Bool-cases (k == j)) [
      | inl g ↦
          let (w, f) = has-get k d e in
          rw (e, subst (λ i. get i d ≡ some w) ((eq_iff k j).0 g) f) refl
      | inr g ↦ rw (e, g) (first_of-none (get j d))
    ]
    | inr e ↦ elim (Bool-cases (k == j)) [
      | inl g ↦
          rw
            (
              e,
              get-insert j k v d,
              g,
              subst (λ i. get i d ≡ none) ((eq_iff k j).0 g) (get-eq-none k d e),
            )
            refl
      | inr g ↦ rw (e, get-insert j k v d, g) (first_of-none (get j d))
    ]
  ]
