-- ===== src/Eval/Scoring/Stats/Table.antt =====
-- The two-by-two table of rewards that are 0 or 1, and the pairs of the intention to treat.
use deepswe_eval_lab.Base.{
  ℕ, ◌+◌, ◌≡◌, refl, sym, ap, subst, ◌⊎◌, inl, inr, Bool, false, not, ◌&&◌, Option, none, some,
  List, [], ◌∷◌, ◌==◌, length, keep, count_if, map, All, arith, Option-cases,
}
use deepswe_eval_lab.Base.Rat
use deepswe_eval_lab.Base.Rat.{Rat}
use deepswe_eval_lab.Eval.Scoring.Patches.{reward}
use deepswe_eval_lab.Eval.Scoring.Pairs.{
  Pair, Scored, is_none, classify, difference, final_score, pair_of,
}
use deepswe_eval_lab.Eval.Scoring.Stats.{
  is_one, has_class, is_complete, failed_both, passed_both, pair_stats,
}
use deepswe_eval_lab.Eval.Scoring.Stats.Partition.{
  one, count_if-one, keep_complete, keep_incomplete,
}

-- A reward is missing, 0 or 1.
unfoldable pub IsBinary : Option Rat → Type 0
IsBinary r = (r ≡ none) ⊎ (r ≡ some (Rat.of_nat 0)) ⊎ (r ≡ some (Rat.of_nat 1))

-- The rewards that the pair of a trial compares.
unfoldable pub HasBinaryRewards : Bool → Scored → Type 0
HasBinaryRewards reuse t =
    IsBinary (reward t.initial) × IsBinary (reward (final_score reuse t.trial t.final).score)

cells : Option Rat → Option Rat → ℕ
cells i f =
    one (not (is_one i) && not (is_one f))
    + one (classify (difference i f) == "improved")
    + one (classify (difference i f) == "harmed")
    + one (is_one i && is_one f)

cells-one :
    (i f : Option Rat) → IsBinary i → IsBinary f → is_none (difference i f) ≡ false → cells i f ≡ 1
unfolding IsBinary cells one is_one classify difference Rat.sub Rat.lt Rat.eq
cells-one i f (inl e) b h = ground arith
cells-one i f (inr (inl e)) (inl g) h = ground arith
cells-one i f (inr (inr e)) (inl g) h = ground arith
cells-one i f (inr (inl e)) (inr (inl g)) h = rw e (rw g refl)
cells-one i f (inr (inl e)) (inr (inr g)) h = rw e (rw g refl)
cells-one i f (inr (inr e)) (inr (inl g)) h = rw e (rw g refl)
cells-one i f (inr (inr e)) (inr (inr g)) h = rw e (rw g refl)

Tabled : List Pair → Type 0
Tabled ps =
    count_if failed_both ps
      + count_if (has_class "improved") ps
      + count_if (has_class "harmed") ps
      + count_if passed_both ps
    ≡ length ps

cons-Tabled :
    (p : Pair) (ps : List Pair)
    → p.classification ≡ classify (difference p.initial_reward p.final_reward)
    → cells p.initial_reward p.final_reward ≡ 1
    → Tabled ps
    → Tabled (p ∷ ps)
unfolding Tabled cells
cons-Tabled p ps c s h = omega (
  arith,
  s,
  h,
  ap (λ s. one (s == "improved")) c,
  ap (λ s. one (s == "harmed")) c,
  count_if-one failed_both p ps,
  count_if-one (has_class "improved") p ps,
  count_if-one (has_class "harmed") p ps,
  count_if-one passed_both p ps,
)

complete-Tabled :
    (reuse : Bool) (trials : List Scored)
    → All (HasBinaryRewards reuse) trials
    → Tabled (keep is_complete (map (pair_of reuse) trials))
unfolding Tabled HasBinaryRewards pair_of
complete-Tabled reuse [] h = refl
complete-Tabled reuse (t ∷ ts) ((b, c), hs) = elim (Option-cases (pair_of reuse t).delta) [
  | inl e ↦
      subst Tabled (sym (keep_incomplete (pair_of reuse t) (map (pair_of reuse) ts) e))
        (complete-Tabled reuse ts hs)
  | inr (d, e) ↦ subst Tabled (sym (keep_complete (pair_of reuse t) d (map (pair_of reuse) ts) e)) (
      cons-Tabled (pair_of reuse t) (keep is_complete (map (pair_of reuse) ts)) refl
        (cells-one (reward t.initial) (reward (final_score reuse t.trial t.final).score) b c
          (ap is_none e))
        (complete-Tabled reuse ts hs))
]

-- With rewards that are 0, 1 or missing, the four cells of the table hold each complete pair once.
pub pair_stats-table :
    (reuse : Bool) (trials : List Scored)
    → All (HasBinaryRewards reuse) trials
    → (pair_stats (map (pair_of reuse) trials)).two_by_two.failed_both
        + (pair_stats (map (pair_of reuse) trials)).two_by_two.improved
        + (pair_stats (map (pair_of reuse) trials)).two_by_two.harmed
        + (pair_stats (map (pair_of reuse) trials)).two_by_two.passed_both
      ≡ (pair_stats (map (pair_of reuse) trials)).complete
unfolding pair_stats Tabled
pair_stats-table reuse trials h = complete-Tabled reuse trials h
