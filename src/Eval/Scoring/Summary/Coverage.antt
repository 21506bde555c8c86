-- ===== src/Eval/Scoring/Summary/Coverage.antt =====
-- The numbers of the summary add up.
use deepswe_eval_lab.Base.{
  ℕ, ◌+◌, ◌≤◌, ◌≡◌, refl, ap, inl, inr, String, Bool, true, false, ◌&&◌, List, [], ◌∷◌, ◌==◌,
  length, keep, count_if, map, all, arith, length-keep, length-map, count_if-le-length,
}
use deepswe_eval_lab.Eval.Scoring.Pairs.{Pair, Scored, is_none, conformance, final_score, pair_of}
use deepswe_eval_lab.Eval.Scoring.Stats.{is_complete, pair_stats, pair_name}
use deepswe_eval_lab.Eval.Scoring.Stats.Partition.{one, count_if-one}
use deepswe_eval_lab.Eval.Scoring.Summary.{conforms, itt_pairs, Summary, summary, summarise}
use deepswe_eval_lab.Eval.Scoring.Summary.ExitCode.{IsKind, conformance-IsKind}

-- What the summary promises of its counts.
pub record AddsUp (s : Summary) (trials : ℕ) : Type 0 where
  pub conformances : s.matched + length s.mismatched + s.skipped + length s.unavailable ≡ trials
  pub completeness : s.complete_pairs + length s.incomplete_pairs ≡ trials
  pub itt_complete : s.intention_to_treat.complete ≡ s.intention_to_treat.pairs
  pub itt_bound : s.intention_to_treat.pairs ≤ s.complete_pairs
  pub protocol_complete : s.completed_protocol.complete ≡ s.completed_protocol.pairs
  pub protocol_bound : s.completed_protocol.pairs ≤ s.intention_to_treat.pairs

kind_shares : String → ℕ
kind_shares s =
    one (s == "matched") + one (s == "mismatched") + one (s == "skipped") + one (s == "unavailable")

IsKind-shares : (s : String) → IsKind s → kind_shares s ≡ 1
unfolding IsKind kind_shares one
IsKind-shares s (inl e) = rw e refl
IsKind-shares s (inr (inl e)) = rw e refl
IsKind-shares s (inr (inr e)) = rw e refl

skipped-shares : kind_shares "skipped" ≡ 1
unfolding kind_shares one
skipped-shares = refl

pair_of-shares : (reuse : Bool) (t : Scored) → kind_shares (pair_of reuse t).final_conformance ≡ 1
unfolding pair_of final_score
pair_of-shares true t = skipped-shares
pair_of-shares false t =
    IsKind-shares (conformance t.trial t.final) (conformance-IsKind t.trial t.final)

rows_conformances :
    (reuse : Bool) (trials : List Scored)
    → count_if (conforms "matched") (map (pair_of reuse) trials)
        + count_if (conforms "mismatched") (map (pair_of reuse) trials)
        + count_if (conforms "skipped") (map (pair_of reuse) trials)
        + count_if (conforms "unavailable") (map (pair_of reuse) trials)
      ≡ length trials
unfolding kind_shares
rows_conformances reuse [] = refl
rows_conformances reuse (t ∷ ts) = omega (
  arith,
  rows_conformances reuse ts,
  pair_of-shares reuse t,
  count_if-one (conforms "matched") (pair_of reuse t) (map (pair_of reuse) ts),
  count_if-one (conforms "mismatched") (pair_of reuse t) (map (pair_of reuse) ts),
  count_if-one (conforms "skipped") (pair_of reuse t) (map (pair_of reuse) ts),
  count_if-one (conforms "unavailable") (pair_of reuse t) (map (pair_of reuse) ts),
)

-- An intention-to-treat pair is complete.
itt_included_complete :
    (reuse : Bool) (t : Scored)
    → ((pair_of reuse t).itt_included && is_none (pair_of reuse t).delta) ≡ false
unfolding pair_of
itt_included_complete reuse t = ground arith

all-itt_pairs :
    (reuse : Bool) (trials : List Scored)
    → all is_complete (itt_pairs (map (pair_of reuse) trials)) ≡ true
all-itt_pairs reuse [] = refl
all-itt_pairs reuse (t ∷ ts) = ground (arith, itt_included_complete reuse t, all-itt_pairs reuse ts)

all-keep : (p q : Pair → Bool) (rows : List Pair) → all p rows ≡ true → all p (keep q rows) ≡ true
all-keep p q [] h = refl
all-keep p q (r ∷ rows) h = ground (arith, all-keep p q rows)

keep-all : (p : Pair → Bool) (rows : List Pair) → all p rows ≡ true → keep p rows ≡ rows
keep-all p [] h = refl
keep-all p (r ∷ rows) h = ground (arith, keep-all p rows)

itt_pairs-bound :
    (reuse : Bool) (trials : List Scored)
    → count_if (λ p. p.itt_included) (map (pair_of reuse) trials)
        + count_if (λ p. is_none p.delta) (map (pair_of reuse) trials)
      ≤ length trials
itt_pairs-bound reuse [] = omega arith
itt_pairs-bound reuse (t ∷ ts) =
    ground (arith, itt_included_complete reuse t, itt_pairs-bound reuse ts)

-- Each scored trial counts once among the four conformances and once as complete or not; the
-- intention-to-treat pairs, and those of a completed protocol among them, are complete pairs.
pub summarise-AddsUp :
    (reuse : Bool) (trials : List Scored) → AddsUp (summarise reuse trials) (length trials)
unfolding summarise summary pair_stats
summarise-AddsUp reuse trials =
    let rows = map (pair_of reuse) trials in
    let itt = all-itt_pairs reuse trials in
    let incomplete = λ (p : Pair). is_none p.delta in
    let bound = itt_pairs-bound reuse trials in
    record {
      conformances = omega (
        arith,
        rows_conformances reuse trials,
        length-map pair_name (keep (conforms "mismatched") rows),
        length-keep (conforms "mismatched") rows,
        length-map pair_name (keep (conforms "unavailable") rows),
        length-keep (conforms "unavailable") rows,
      );
      completeness = omega (
        arith,
        bound,
        length-map pair_name (keep incomplete rows),
        length-keep incomplete rows,
        length-map (pair_of reuse) trials,
      );
      itt_complete = ap length (keep-all is_complete (itt_pairs rows) itt);
      itt_bound = omega (
        arith,
        bound,
        length-keep (λ (p : Pair). p.itt_included) rows,
        length-keep incomplete rows,
        length-map (pair_of reuse) trials,
      );
      protocol_complete = ap length (
          keep-all is_complete (keep (λ p. p.completed_protocol) (itt_pairs rows))
            (all-keep is_complete (λ p. p.completed_protocol) (itt_pairs rows) itt));
      protocol_bound = omega (
        arith,
        length-keep (λ p. p.completed_protocol) (itt_pairs rows),
        count_if-le-length (λ p. p.completed_protocol) (itt_pairs rows),
      );
    }
