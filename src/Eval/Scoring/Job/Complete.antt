-- ===== src/Eval/Scoring/Job/Complete.antt =====
-- A job that is scored was complete: all of its trials could be read, and each eligible one is counted.
use deepswe_eval_lab.Base.{
  ◌≡◌, refl, sym, ap, ◌∙◌, subst, String, Bool, true, false, not, List, [], ◌∷◌, map, is_empty,
  length, length-map, if◌then◌else◌, ok, after_bind, after_check, not-eq-false,
}
use deepswe_eval_lab.Base.Dict.{Dict}
use deepswe_eval_lab.Eval.Scoring.Patches.{TrialPatchSet}
use deepswe_eval_lab.Eval.Scoring.Pairs.{Pair, Scored, pair_of}
use deepswe_eval_lab.Eval.Scoring.Summary.{summarise}
use deepswe_eval_lab.Eval.Scoring.Summary.Coverage.{AddsUp, summarise-AddsUp}
use deepswe_eval_lab.Eval.Scoring.Work.{
  Host, Scores, no_trials, layout_errors, job_artifacts, collect, nothing,
}
use deepswe_eval_lab.Eval.Scoring.Verify.{
  VerificationRequest, VerificationRecord, ResultDir, scan_cached_results, run_works,
}
use deepswe_eval_lab.Eval.Scoring.Job.{
  Discovered, layout_problems, trials_of, eligible_trials, with_job_artifacts, attach_scores,
  score_at, stages_at, revisions_at, changed_later, scored_of, scored_trials, ScoreOptions, Job,
  score_eligible, score_patch_job,
}

scored_of-trial :
    (scores : Scores) (trial : TrialPatchSet) (out : Scored)
    → scored_of scores trial ≡ ok out
    → out.trial ≡ trial
unfolding scored_of
scored_of-trial scores trial out h =
    let name = trial.trial_name in
    after_bind (score_at scores (name, "final")) h λ final _ h₁.
      after_bind (stages_at scores name trial.stages) h₁ λ stages _ h₂.
        after_bind (score_at scores (name, "initial")) h₂ λ initial _ h₃.
          after_bind (revisions_at scores name (changed_later trial.stages)) h₃ λ revisions _ h₄.
            subst (λ (o : Scored). o.trial ≡ trial)
              {x = record {
                trial = trial;
                final = final;
                stages = stages;
                initial = initial;
                revisions = revisions;
              }}
              {y = out} (cc h₄) refl

-- Each trial is scored, in order.
scored_trials-trials :
    (scores : Scores) (trials : List TrialPatchSet) (out : List Scored)
    → scored_trials scores trials ≡ ok out
    → map (λ (s : Scored). s.trial) out ≡ trials
unfolding scored_trials
scored_trials-trials scores [] out h =
    subst (λ l. map (λ (s : Scored). s.trial) l ≡ []) {x = []} {y = out} (cc h) refl
scored_trials-trials scores (t ∷ ts) out h = after_bind (scored_of scores t) h λ scored e h₁.
    after_bind (scored_trials scores ts) h₁ λ others f h₂.
      subst (λ l. map (λ (s : Scored). s.trial) l ≡ t ∷ ts) {x = scored ∷ others} {y = out} (cc h₂)
        (cc (scored_of-trial scores t scored e, scored_trials-trials scores ts others f))

is_empty-nil : {A : Type 0} (xs : List A) → is_empty xs ≡ true → xs ≡ []
is_empty-nil [] h = refl
is_empty-nil (x ∷ xs) h = cc

pair_trials :
    (reuse : Bool) (scored : List Scored)
    → map (λ (p : Pair). p.trial) (map (pair_of reuse) scored)
      ≡ map (λ (t : TrialPatchSet). t.trial_name) (map (λ (s : Scored). s.trial) scored)
unfolding pair_of
pair_trials reuse [] = refl
pair_trials reuse (s ∷ ss) = ap (λ l. s.trial.trial_name ∷ l) (pair_trials reuse ss)

-- What a job that was scored promises of its trials.
pub record IsComplete (discovered : List Discovered) (job : Job) : Type 0 where
  pub some_trial : is_empty discovered ≡ false
  pub no_layout_errors : layout_problems discovered ≡ []
  pub no_artifacts : with_job_artifacts (eligible_trials (trials_of discovered)) ≡ []
  pub paired :
      map (λ (p : Pair). p.trial) job.pairs
      ≡ map (λ (t : TrialPatchSet). t.trial_name) (eligible_trials (trials_of discovered))
  pub counted : AddsUp job.summary (length (eligible_trials (trials_of discovered)))

unfoldable IsCounted : List TrialPatchSet → Job → Type 0
IsCounted eligible job =
    (map (λ (p : Pair). p.trial) job.pairs ≡ map (λ (t : TrialPatchSet). t.trial_name) eligible)
    × AddsUp job.summary (length eligible)

score_eligible-IsCounted :
    (host : Host) (verify_patch : VerificationRequest → VerificationRecord) (now : String)
    (options : ScoreOptions) (identity : Dict String) (dirs : List (List ResultDir))
    (eligible : List TrialPatchSet) (job : Job)
    → score_eligible host verify_patch now options identity dirs eligible ≡ ok job
    → IsCounted eligible job
unfolding score_eligible IsCounted
score_eligible-IsCounted host verify_patch now options identity dirs eligible job h =
    after_bind (collect host options.reuse_final_score identity eligible nothing) h λ c _ h₁.
      let works =
        run_works host verify_patch now identity
          (if options.force then [] else scan_cached_results dirs []) c.works in
      let scores = attach_scores host works c.scores in
      after_bind (scored_trials scores eligible) h₁ λ scored e h₂.
        let t : map (λ (s : Scored). s.trial) scored ≡ eligible =
          scored_trials-trials scores eligible scored e in
        subst (IsCounted eligible)
          {x = record {
            works = works;
            scores = scores;
            pairs = map (pair_of options.reuse_final_score) scored;
            summary = summarise options.reuse_final_score scored;
          }}
          {y = job} (cc h₂)
          (
            pair_trials options.reuse_final_score scored
                ∙ ap (map (λ (t : TrialPatchSet). t.trial_name)) t,
            subst (AddsUp (summarise options.reuse_final_score scored))
                (sym (length-map (λ (s : Scored). s.trial) scored) ∙ ap length t)
                (summarise-AddsUp options.reuse_final_score scored),
          )

-- A job is scored only if some trial was selected, all trials could be read and no eligible one has job
-- artifacts; it then has one pair for each eligible trial, in order, and its counts add up to them.
pub score_patch_job-IsComplete :
    (host : Host) (verify_patch : VerificationRequest → VerificationRecord) (now : String)
    (options : ScoreOptions) (identity : Dict String) (dirs : List (List ResultDir))
    (discovered : List Discovered) (job : Job)
    → score_patch_job host verify_patch now options identity dirs discovered ≡ ok job
    → IsComplete discovered job
unfolding score_patch_job IsCounted
score_patch_job-IsComplete host verify_patch now options identity dirs discovered job h =
    let eligible = eligible_trials (trials_of discovered) in
    after_check (is_empty discovered) no_trials h λ c₁ h₁.
      after_check (not (is_empty (layout_problems discovered)))
        (layout_errors (layout_problems discovered)) h₁
        λ c₂ h₂.
          after_check (not (is_empty (with_job_artifacts eligible)))
            (job_artifacts
              (map (λ (t : TrialPatchSet). t.trial_name) (with_job_artifacts eligible)))
            h₂
            λ c₃ h₃.
              let (p, q) =
                score_eligible-IsCounted host verify_patch now options identity dirs eligible job
                  h₃ in
              record {
                some_trial = c₁;
                no_layout_errors = is_empty-nil (layout_problems discovered) (not-eq-false c₂);
                no_artifacts = is_empty-nil (with_job_artifacts eligible) (not-eq-false c₃);
                paired = p;
                counted = q;
              }
