-- ===== src/Eval/Scoring/Stats/Partition.antt =====
-- The classes of the pairs that are complete, and the two-by-two table.
use deepswe_eval_lab.Base.{
  ℕ, ◌+◌, ◌≤◌, ◌≡◌, refl, sym, ap, subst, ◌⊎◌, inl, inr, String, Bool, true, false, none, some,
  List, [], ◌∷◌, ◌==◌, length, keep, count_if, map, All, arith, Bool-cases, Option-cases,
  length-keep, length-map, count_if-le-length,
}
use deepswe_eval_lab.Base.Rat
use deepswe_eval_lab.Base.Rat.{Rat}
use deepswe_eval_lab.Eval.Scoring.Pairs.{Pair, Scored, classify, pair_of}
use deepswe_eval_lab.Eval.Scoring.Stats.{has_class, is_complete, pair_stats}

IsClassified : Pair → Type 0
IsClassified p = p.classification ≡ classify p.delta

classify-cases :
    (d : Rat)
    → (classify (some d) ≡ "improved")
      ⊎ (classify (some d) ≡ "harmed")
      ⊎ (classify (some d) ≡ "unchanged")
unfolding classify
classify-cases d = elim (Bool-cases (Rat.lt (Rat.of_nat 0) d)) [
  | inl e ↦ inl (ground arith)
  | inr e ↦ elim (Bool-cases (Rat.lt d (Rat.of_nat 0))) [
    | inl f ↦ inr (inl (ground arith))
    | inr f ↦ inr (inr (ground arith))
  ]
]

-- One pair's shares in the three classes.
unfoldable pub one : Bool → ℕ
one true = 1
one false = 0

shares : String → ℕ
shares s = one (s == "improved") + one (s == "harmed") + one (s == "unchanged")

classify-shares : (d : Rat) → shares (classify (some d)) ≡ 1
unfolding shares one
classify-shares d = elim (classify-cases d) [
  | inl e ↦ rw e refl
  | inr f ↦ elim f [ inl e ↦ rw e refl | inr e ↦ rw e refl ]
]

pub count_if-one :
    (q : Pair → Bool) (p : Pair) (ps : List Pair) → count_if q (p ∷ ps) ≡ one (q p) + count_if q ps
unfolding one
count_if-one q p ps = ground arith

pub keep_complete :
    (p : Pair) (d : Rat) (ps : List Pair)
    → p.delta ≡ some d
    → keep is_complete (p ∷ ps) ≡ p ∷ keep is_complete ps
keep_complete p d ps e = ground arith

pub keep_incomplete :
    (p : Pair) (ps : List Pair) → p.delta ≡ none → keep is_complete (p ∷ ps) ≡ keep is_complete ps
keep_incomplete p ps e = ground arith

Partitioned : List Pair → Type 0
Partitioned ps =
    count_if (has_class "improved") ps
      + count_if (has_class "harmed") ps
      + count_if (has_class "unchanged") ps
    ≡ length ps

cons-Partitioned :
    (p : Pair) (ps : List Pair)
    → shares p.classification ≡ 1
    → Partitioned ps
    → Partitioned (p ∷ ps)
unfolding Partitioned shares
cons-Partitioned p ps s h = omega (
  arith,
  s,
  h,
  count_if-one (has_class "improved") p ps,
  count_if-one (has_class "harmed") p ps,
  count_if-one (has_class "unchanged") p ps,
)

complete-Partitioned : (ps : List Pair) → All IsClassified ps → Partitioned (keep is_complete ps)
unfolding Partitioned IsClassified
complete-Partitioned [] h = refl
complete-Partitioned (p ∷ ps) (c, cs) = elim (Option-cases p.delta) [
  | inl e ↦ subst Partitioned (sym (keep_incomplete p ps e)) (complete-Partitioned ps cs)
  | inr (d, e) ↦ subst Partitioned (sym (keep_complete p d ps e)) (
      cons-Partitioned p (keep is_complete ps)
        (cc (ap shares c, ap (λ o. shares (classify o)) e, classify-shares d))
        (complete-Partitioned ps cs))
]

pairs-IsClassified :
    (reuse : Bool) (trials : List Scored) → All IsClassified (map (pair_of reuse) trials)
unfolding IsClassified pair_of
pairs-IsClassified reuse [] = tt
pairs-IsClassified reuse (t ∷ ts) = (refl, pairs-IsClassified reuse ts)

-- In the statistics of scored trials each pair that has a difference is improved, harmed or unchanged,
-- and only one of these, and no more pairs are complete than there are.
pub pair_stats-partition :
    (reuse : Bool) (trials : List Scored)
    → ((pair_stats (map (pair_of reuse) trials)).improved
          + (pair_stats (map (pair_of reuse) trials)).harmed
          + (pair_stats (map (pair_of reuse) trials)).unchanged
        ≡ (pair_stats (map (pair_of reuse) trials)).complete)
      × ((pair_stats (map (pair_of reuse) trials)).complete ≤ length trials)
unfolding pair_stats Partitioned
pair_stats-partition reuse trials = (
  complete-Partitioned (map (pair_of reuse) trials) (pairs-IsClassified reuse trials),
  omega (
    arith,
    length-keep is_complete (map (pair_of reuse) trials),
    count_if-le-length is_complete (map (pair_of reuse) trials),
    length-map (pair_of reuse) trials,
  ),
)
