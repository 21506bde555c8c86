-- ===== src/Eval/Scoring/Run/Scores.antt =====
-- The scores of a job: each stage of an eligible trial keeps one.
use deepswe_eval_lab.Base.{
  ◌≡◌, refl, ap, ◌∙◌, subst, inl, inr, String, Bool, true, false, ◌&&◌, ◌||◌, some, List, [], ◌∷◌,
  ◌==◌, ◌<>◌, eq_iff, eq_refl, map, mem, All, arith, Bool-cases, Option-cases, ok,
}
use deepswe_eval_lab.Base.Dict.{Dict}
use deepswe_eval_lab.Eval.Scoring.Patches.{StagePatch, TrialPatchSet, StageScore}
use deepswe_eval_lab.Eval.Scoring.Work.{
  Host, Digests, UniqueWork, StageKey, Scores, set_score, get_score, Collected, collect_stage,
  collect_stages, digests_of, collect,
}
use deepswe_eval_lab.Eval.Scoring.Job.{attach_scores, score_at}

-- `key in stage_scores`
unfoldable pub has_score : StageKey → Scores → Bool
has_score key [] = false
has_score (t, s) (((u, r), score) ∷ rest) = (t == u && s == r) || has_score (t, s) rest

has_score-set_score :
    (t s u r : String) (score : StageScore) (scores : Scores)
    → has_score (t, s) (set_score (u, r) score scores)
      ≡ ((t == u && s == r) || has_score (t, s) scores)
unfolding has_score set_score
has_score-set_score t s u r score [] = refl
has_score-set_score t s u r score (((v, q), old) ∷ rest) = ground (
  arith,
  eq_iff u v,
  eq_iff r q,
  eq_iff t u,
  eq_iff t v,
  eq_iff s r,
  eq_iff s q,
  has_score-set_score t s u r score rest,
)

get_score-has_score :
    (t s : String) (scores : Scores)
    → has_score (t, s) scores ≡ true
    → (score : StageScore) × (get_score (t, s) scores ≡ some score)
unfolding get_score has_score
get_score-has_score t s [] h = cc
get_score-has_score t s (((u, r), score) ∷ rest) h = elim (Bool-cases (t == u && s == r)) [
  | inl e ↦ (score, rw e refl)
  | inr e ↦ let (found, f) = get_score-has_score t s rest (cc (e, h)) in (found, rw e f)
]

pub score_at-has_score :
    (t s : String) (scores : Scores)
    → has_score (t, s) scores ≡ true
    → (score : StageScore) × (score_at scores (t, s) ≡ ok score)
unfolding score_at
score_at-has_score t s scores h =
    let (score, e) = get_score-has_score t s scores h in (score, ground (arith, e))

has_score-attach_scores :
    (host : Host) (works : Dict UniqueWork) (t s : String) (scores : Scores)
    → has_score (t, s) (attach_scores host works scores) ≡ has_score (t, s) scores
unfolding has_score attach_scores
has_score-attach_scores host works t s [] = refl
has_score-attach_scores host works t s (((u, r), score) ∷ rest) =
    ap (λ b. (t == u && s == r) || b) (has_score-attach_scores host works t s rest)

abbrev pub ids : List StagePatch → List String
ids stages = map (λ (s : StagePatch). s.stage_id) stages

module _ (host : Host) (reuse : Bool) (identity : Dict String) where
  collect_stage-scores :
      (digests : Digests) (trial : TrialPatchSet) (p : StagePatch) (c : Collected) (t s : String)
      → has_score (t, s) (collect_stage host reuse identity digests trial p c).scores
        ≡ ((t == trial.trial_name && s == p.stage_id) || has_score (t, s) c.scores)
  unfolding collect_stage
  collect_stage-scores digests trial p c t s =
      has_score-set_score t s trial.trial_name p.stage_id _ c.scores

  -- The stages of a trial are added to the scores, and none is removed.
  collect_stages-scores :
      (digests : Digests) (trial : TrialPatchSet) (stages : List StagePatch) (c : Collected)
      (t s : String)
      → has_score (t, s) (collect_stages host reuse identity digests trial stages c).scores
        ≡ (has_score (t, s) c.scores || (t == trial.trial_name && mem s (ids stages)))
  unfolding collect_stages
  collect_stages-scores digests trial [] c t s = ground arith
  collect_stages-scores digests trial (p ∷ ps) c t s =
      let next = collect_stage host reuse identity digests trial p c in
      ground (
        arith,
        collect_stages-scores digests trial ps next t s,
        collect_stage-scores digests trial p c t s,
        eq_iff s p.stage_id,
        eq_iff p.stage_id s,
      )

  collect_keeps :
      (trials : List TrialPatchSet) (c out : Collected) (t s : String)
      → collect host reuse identity trials c ≡ ok out
      → has_score (t, s) c.scores ≡ true
      → has_score (t, s) out.scores ≡ true
  unfolding collect
  collect_keeps [] c out t s e h =
      subst (λ o. has_score (t, s) o.scores ≡ true) {x = c} {y = out} (cc e) h
  collect_keeps (trial ∷ rest) c out t s e h =
      elim (Option-cases (host.directory (trial.task_dir <> "/tests"))) [
        | inl g ↦ cc
        | inr (files, g) ↦
            let next =
              collect_stages host reuse identity (digests_of host trial files) trial trial.stages
                c in
            let f : collect host reuse identity rest next ≡ ok out = cc (g, e) in
            collect_keeps rest next out t s f (
              ground (
                arith,
                collect_stages-scores (digests_of host trial files) trial trial.stages c t s,
              ))
      ]

-- Each stage of a trial has a score.
abbrev pub HasScores : Scores → TrialPatchSet → Type 0
HasScores scores trial =
    (s : String) → mem s (ids trial.stages) ≡ true → has_score (trial.trial_name, s) scores ≡ true

module _ (host : Host) (reuse : Bool) (identity : Dict String) where
  pub collect-scores :
      (trials : List TrialPatchSet) (c out : Collected)
      → collect host reuse identity trials c ≡ ok out
      → All (HasScores out.scores) trials
  unfolding collect
  collect-scores [] c out e = tt
  collect-scores (trial ∷ rest) c out e =
      elim (Option-cases (host.directory (trial.task_dir <> "/tests"))) [
        | inl g ↦ cc
        | inr (files, g) ↦
            let next =
              collect_stages host reuse identity (digests_of host trial files) trial trial.stages
                c in
            let k : collect host reuse identity rest next ≡ ok out = cc (g, e) in
            (
              λ s m. collect_keeps host reuse identity rest next out trial.trial_name s k (
                  ground (
                    arith,
                    m,
                    collect_stages-scores host reuse identity (digests_of host trial files) trial
                        trial.stages c trial.trial_name s,
                    eq_refl trial.trial_name,
                  )),
              collect-scores rest next out k,
            )
      ]

pub attached :
    (host : Host) (works : Dict UniqueWork) (scores : Scores) (trials : List TrialPatchSet)
    → All (HasScores scores) trials
    → All (HasScores (attach_scores host works scores)) trials
attached host works scores [] v = tt
attached host works scores (t ∷ ts) (h, hs) = (
  λ s m. has_score-attach_scores host works t.trial_name s scores ∙ h s m,
  attached host works scores ts hs,
)
