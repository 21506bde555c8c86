-- ===== src/Eval/Scoring/Run/Total.antt =====
-- agent_eval/patch_scoring.py: the errors of a job on trials that were read from their directories.
use deepswe_eval_lab.Base.{
  ℕ, ◌≡◌, refl, subst, inl, inr, String, Bool, true, false, not, List, [], ◌∷◌, ◌<>◌, if◌then◌else◌,
  map, All, is_empty, Option-cases, Result-cases, Result, ok, err, after_bind, error_of_check,
}
use deepswe_eval_lab.Base.Dict.{Dict}
use deepswe_eval_lab.Eval.Scoring.Patches.{TrialPatchSet}
use deepswe_eval_lab.Eval.Discovery.Layout.{TrialDir, Entry, round_entries}
use deepswe_eval_lab.Eval.Discovery.Scan.{discover_trial_patches}
use deepswe_eval_lab.Eval.Discovery.Scan.Valid.{
  IsDiscovered, without_patch, with_stages, discover_trial_patches-IsDiscovered,
}
use deepswe_eval_lab.Eval.Discovery.Trial.{Reader, DiscoveryError, layout}
use deepswe_eval_lab.Eval.Scoring.Work.{
  Host, Collected, collect_stages, digests_of, ScoringError, key_error, tests_missing, no_trials,
  layout_errors, job_artifacts, collect, nothing,
}
use deepswe_eval_lab.Eval.Scoring.Job.{
  Discovered, layout_problems, with_job_artifacts, trials_of, eligible_trials, attach_scores,
  ScoreOptions, score_eligible, score_patch_job,
}
use deepswe_eval_lab.Eval.Scoring.Verify.{
  VerificationRequest, VerificationRecord, ResultDir, scan_cached_results, run_works,
}
use deepswe_eval_lab.Eval.Scoring.Run.{Child, discovered_of, discover_all}
use deepswe_eval_lab.Eval.Scoring.Run.Scores.{collect-scores, attached}
use deepswe_eval_lab.Eval.Scoring.Run.Scorable.{
  All-keep_if, IsScorable, IsStages-IsScorable, scored_trials-total,
}

unfoldable pub is_key_error : ScoringError → Bool
is_key_error (key_error a b) = true
is_key_error _ = false

-- Collecting fails only for a missing directory of tests.
collect-error :
    (host : Host) (reuse : Bool) (identity : Dict String) (trials : List TrialPatchSet)
    (c : Collected) (e : ScoringError)
    → collect host reuse identity trials c ≡ err e
    → is_key_error e ≡ false
unfolding collect is_key_error
collect-error host reuse identity [] c e h = cc
collect-error host reuse identity (trial ∷ rest) c e h =
    elim (Option-cases (host.directory (trial.task_dir <> "/tests"))) [
      | inl g ↦
          subst (λ x. is_key_error x ≡ false) {x = tests_missing (trial.task_dir <> "/tests")}
            {y = e} (cc (g, h)) refl
      | inr (files, g) ↦
          collect-error host reuse identity rest
            (collect_stages host reuse identity (digests_of host trial files) trial trial.stages c)
            e (cc (g, h))
    ]

score_eligible-error :
    (host : Host) (verify_patch : VerificationRequest → VerificationRecord) (now : String)
    (options : ScoreOptions) (identity : Dict String) (dirs : List (List ResultDir))
    (eligible : List TrialPatchSet) (e : ScoringError)
    → All IsScorable eligible
    → score_eligible host verify_patch now options identity dirs eligible ≡ err e
    → is_key_error e ≡ false
unfolding score_eligible
score_eligible-error host verify_patch now options identity dirs eligible e v h =
    elim (Result-cases (collect host options.reuse_final_score identity eligible nothing)) [
      | inl (c, f) ↦
          let works =
            run_works host verify_patch now identity
              (if options.force then [] else scan_cached_results dirs []) c.works in
          let scores = attach_scores host works c.scores in
          let (scored, g) =
            scored_trials-total scores eligible
              (attached host works c.scores eligible
                (collect-scores host options.reuse_final_score identity eligible nothing c f))
              v in
          cc (f, g, h)
      | inr (x, f) ↦
          subst (λ y. is_key_error y ≡ false) {x = x} {y = e} (cc (f, h))
            (collect-error host options.reuse_final_score identity eligible nothing x f)
    ]

-- A trial that was read from some directory.
abbrev WasDiscovered : (ℕ → String) → TrialPatchSet → Type 0
WasDiscovered show_nat trial =
    (dir : TrialDir) × (entries : List Entry) × IsDiscovered show_nat dir entries trial

-- The trials that were read and are eligible.
discovered-IsScorable :
    (show_nat : ℕ → String) (dir : TrialDir) (entries : List Entry) (trial : TrialPatchSet)
    → IsDiscovered show_nat dir entries trial
    → trial.eligible ≡ true
    → IsScorable trial
discovered-IsScorable show_nat dir entries trial (without_patch e s f m) h = cc
discovered-IsScorable show_nat dir entries trial (with_stages first rest final e p v b) h =
    IsStages-IsScorable show_nat first rest final trial v

eligible-IsScorable :
    (show_nat : ℕ → String) (trials : List TrialPatchSet)
    → All (WasDiscovered show_nat) trials
    → All IsScorable (eligible_trials trials)
eligible-IsScorable show_nat [] v = tt
eligible-IsScorable show_nat (t ∷ ts) ((dir, entries, d), ds) =
    All-keep_if IsScorable t.eligible (eligible_trials ts)
      (discovered-IsScorable show_nat dir entries t d) (eligible-IsScorable show_nat ts ds)

discovered_of-ok :
    (r : Result DiscoveryError TrialPatchSet) (trial : TrialPatchSet)
    → discovered_of r ≡ ok (ok trial)
    → r ≡ ok trial
discovered_of-ok (ok t) trial h = cc
discovered_of-ok (err (layout reasons)) trial h = cc
discovered_of-ok (err _) trial h = cc

found-IsDiscovered :
    (reader : Reader) (child : Child) (found : Discovered) (others : List Discovered)
    → discovered_of (discover_trial_patches reader child.dir) ≡ ok found
    → All (WasDiscovered reader.show_nat) (trials_of others)
    → All (WasDiscovered reader.show_nat) (trials_of (found ∷ others))
unfolding trials_of
found-IsDiscovered reader child (err reasons) others e v = v
found-IsDiscovered reader child (ok trial) others e v =
    let (_, d) =
      discover_trial_patches-IsDiscovered reader child.dir trial
        (discovered_of-ok (discover_trial_patches reader child.dir) trial e) in
    ((child.dir, (round_entries reader.digit child.dir.rounds).1, d), v)

discover_all-IsDiscovered :
    (reader : Reader) (children : List Child) (discovered : List Discovered)
    → discover_all reader children ≡ ok discovered
    → All (WasDiscovered reader.show_nat) (trials_of discovered)
unfolding discover_all trials_of
discover_all-IsDiscovered reader [] discovered h =
    subst (λ d. All (WasDiscovered reader.show_nat) (trials_of d)) {x = []} {y = discovered} (cc h)
      tt
discover_all-IsDiscovered reader (child ∷ rest) discovered h =
    after_bind (discovered_of (discover_trial_patches reader child.dir)) h λ found e h₁.
      after_bind (discover_all reader rest) h₁ λ others f h₂.
        subst (λ d. All (WasDiscovered reader.show_nat) (trials_of d)) {x = found ∷ others}
          {y = discovered} (cc h₂)
          (found-IsDiscovered reader child found others e
            (discover_all-IsDiscovered reader rest others f))

-- A job on trials that were read from their directories never misses a score, be it of the first or the
-- final stage, of a stage's row or of the parent of a later stage that changed: if scoring fails, then
-- for another reason than a stage without a score.
pub score_patch_job-not-key_error :
    (reader : Reader) (host : Host) (verify_patch : VerificationRequest → VerificationRecord)
    (now : String) (options : ScoreOptions) (identity : Dict String) (dirs : List (List ResultDir))
    (children : List Child) (discovered : List Discovered) (e : ScoringError)
    → discover_all reader children ≡ ok discovered
    → score_patch_job host verify_patch now options identity dirs discovered ≡ err e
    → is_key_error e ≡ false
unfolding score_patch_job is_key_error
score_patch_job-not-key_error reader host verify_patch now options identity dirs children discovered
      e d h =
    let eligible = eligible_trials (trials_of discovered) in
    let is_other = λ (x : ScoringError). is_key_error x ≡ false in
    error_of_check is_other (is_empty discovered) no_trials h refl λ h₁.
      error_of_check is_other (not (is_empty (layout_problems discovered)))
        (layout_errors (layout_problems discovered)) h₁ refl
        λ h₂.
          error_of_check is_other (not (is_empty (with_job_artifacts eligible)))
            (job_artifacts
              (map (λ (t : TrialPatchSet). t.trial_name) (with_job_artifacts eligible)))
            h₂ refl
            λ h₃.
              score_eligible-error host verify_patch now options identity dirs eligible e
                (eligible-IsScorable reader.show_nat (trials_of discovered)
                  (discover_all-IsDiscovered reader children discovered d))
                h₃
