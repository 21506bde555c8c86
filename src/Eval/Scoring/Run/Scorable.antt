-- ===== src/Eval/Scoring/Run/Scorable.antt =====
-- agent_eval/patch_scoring.py: the lookups of scores that the loop over the trials makes.
use deepswe_eval_lab.Base.{
  ℕ, ◌≡◌, refl, sym, ap, ◌∙◌, subst, ◌++◌, keep, if◌then◌else◌, mem-append, String, Bool, true,
  false, some, List, [], ◌∷◌, eq_refl, mem, All, arith, ok,
}
use deepswe_eval_lab.Eval.Scoring.Patches.{StagePatch, TrialPatchSet, StageScore}
use deepswe_eval_lab.Eval.Scoring.Pairs.{Revision, Scored}
use deepswe_eval_lab.Eval.Scoring.Work.{Scores}
use deepswe_eval_lab.Eval.Scoring.Job.{
  stages_at, parent_at, revisions_at, changed_later, scored_of, scored_trials,
}
use deepswe_eval_lab.Eval.Discovery.Layout.{PatchFile}
use deepswe_eval_lab.Eval.Discovery.Stages.{ReviewPatch, last_stage, id_of}
use deepswe_eval_lab.Eval.Discovery.Stages.Chain.{IsChain, IsStages, revision_ids}
use deepswe_eval_lab.Eval.Scoring.Run.Scores.{ids, HasScores, has_score, score_at-has_score}

-- A stage that is listed, with a parent that is.
pub record HasParent (listed : List String) (s : StagePatch) : Type 0 where
  own : mem s.stage_id listed ≡ true
  parent : String
  named : s.parent_stage_id ≡ some parent
  known : mem parent listed ≡ true

-- A trial with a first and a final stage, in which each later stage has a parent.
pub record IsScorable (trial : TrialPatchSet) : Type 0 where
  pub initial : mem "initial" (ids trial.stages) ≡ true
  pub final : mem "final" (ids trial.stages) ≡ true
  pub parents : All (HasParent (ids trial.stages)) (changed_later trial.stages)

last_stage-snoc :
    (before : List StagePatch) (s : StagePatch) → last_stage (before ++ s ∷ []) ≡ some s
last_stage-snoc [] s = refl
last_stage-snoc (a ∷ []) s = refl
last_stage-snoc (a ∷ b ∷ rest) s = last_stage-snoc (b ∷ rest) s

-- One more element, if a test keeps it.
pub All-keep_if :
    {A : Type 0} (P : A → Type 0) (b : Bool) {x : A} (xs : List A)
    → (b ≡ true → P x)
    → All P xs
    → All P (if b then x ∷ xs else xs)
All-keep_if P true xs h hs = (h refl, hs)
All-keep_if P false xs h hs = hs

-- The parent of each later stage of a chain is the stage before it.
IsChain-parents :
    (before : List StagePatch) (last : StagePatch) (rest : List StagePatch) (listed : List String)
    → mem last.stage_id listed ≡ true
    → ((s : String) → mem s (ids rest) ≡ true → mem s listed ≡ true)
    → IsChain (before ++ last ∷ []) rest
    → All (HasParent listed) (keep (λ (s : StagePatch). s.changed) rest)
unfolding IsChain
IsChain-parents before last [] listed m within c = tt
IsChain-parents before last (s ∷ rest) listed m within (d, c) =
    let own : mem s.stage_id listed ≡ true =
      within s.stage_id (ground (arith, eq_refl s.stage_id)) in
    let later =
      IsChain-parents (before ++ last ∷ []) s rest listed own (λ x n. within x (ground (arith, n)))
        c in
    let has : HasParent listed s = record {
      own = own;
      parent = last.stage_id;
      named = d.parent ∙ ap id_of (last_stage-snoc before last);
      known = m;
    } in
    All-keep_if (HasParent listed) s.changed (keep (λ (s : StagePatch). s.changed) rest) (λ _. has)
      later

IsChain-changed_later :
    (stages : List StagePatch)
    → IsChain [] stages
    → All (HasParent (ids stages)) (changed_later stages)
unfolding IsChain
IsChain-changed_later [] c = tt
IsChain-changed_later (first ∷ rest) (_, c) =
    IsChain-parents [] first rest (ids (first ∷ rest)) (ground (arith, eq_refl first.stage_id))
      (λ x n. ground (arith, n)) c

pub IsStages-IsScorable :
    (show_nat : ℕ → String) (first : ReviewPatch) (rest : List ReviewPatch) (final : PatchFile)
    (trial : TrialPatchSet)
    → IsStages show_nat first rest final trial.stages
    → IsScorable trial
IsStages-IsScorable show_nat first rest final trial v = record {
  initial = rw v.ids refl;
  final =
      subst (λ l. mem "final" l ≡ true) (sym v.ids)
        (ground (arith, mem-append "final" (revision_ids show_nat 1 rest) ("final" ∷ [])));
  parents = IsChain-changed_later trial.stages v.chain;
}

module _ (scores : Scores) (trial : String) where
  stages_at-total :
      (stages : List StagePatch)
      → ((s : String) → mem s (ids stages) ≡ true → has_score (trial, s) scores ≡ true)
      → (out : List StageScore) × (stages_at scores trial stages ≡ ok out)
  unfolding stages_at
  stages_at-total [] has = ([], refl)
  stages_at-total (s ∷ rest) has =
      let (score, a) =
        score_at-has_score trial s.stage_id scores
          (has s.stage_id (ground (arith, eq_refl s.stage_id))) in
      let (others, b) = stages_at-total rest (λ x m. has x (ground (arith, m))) in
      (score ∷ others, rw (a, b) refl)

  revisions_at-total :
      (listed : List String) (stages : List StagePatch)
      → ((s : String) → mem s listed ≡ true → has_score (trial, s) scores ≡ true)
      → All (HasParent listed) stages
      → (out : List Revision) × (revisions_at scores trial stages ≡ ok out)
  unfolding revisions_at parent_at
  revisions_at-total listed [] has v = ([], refl)
  revisions_at-total listed (s ∷ rest) has (p, v) =
      let (child, a) = score_at-has_score trial s.stage_id scores (has s.stage_id p.own) in
      let (parent, b) = score_at-has_score trial p.parent scores (has p.parent p.known) in
      let (others, c) = revisions_at-total listed rest has v in
      (record { stage = s; child = child; parent = parent } ∷ others, rw (a, p.named, b, c) refl)

scored_of-total :
    (scores : Scores) (trial : TrialPatchSet)
    → HasScores scores trial
    → IsScorable trial
    → (out : Scored) × (scored_of scores trial ≡ ok out)
unfolding scored_of
scored_of-total scores trial has v =
    let name = trial.trial_name in
    let (final, a) = score_at-has_score name "final" scores (has "final" v.final) in
    let (stages, b) = stages_at-total scores name trial.stages has in
    let (initial, c) = score_at-has_score name "initial" scores (has "initial" v.initial) in
    let (revisions, d) =
      revisions_at-total scores name (ids trial.stages) (changed_later trial.stages) has
        v.parents in
    (
      record {
        trial = trial;
        final = final;
        stages = stages;
        initial = initial;
        revisions = revisions;
      },
      rw (a, b, c, d) refl,
    )

pub scored_trials-total :
    (scores : Scores) (trials : List TrialPatchSet)
    → All (HasScores scores) trials
    → All IsScorable trials
    → (out : List Scored) × (scored_trials scores trials ≡ ok out)
unfolding scored_trials
scored_trials-total scores [] h v = ([], refl)
scored_trials-total scores (t ∷ ts) (h, hs) (v, vs) =
    let (scored, a) = scored_of-total scores t h v in
    let (others, b) = scored_trials-total scores ts hs vs in (scored ∷ others, rw (a, b) refl)
