-- ===== src/Eval/Scoring/Verify.antt =====
-- agent_eval/patch_scoring.py: results that are reused, and the runs of the verifier.
pub mod Runs
pub mod Results
use deepswe_eval_lab.Base.{
  ℕ, zero, suc, String, ◌<>◌, Bool, true, false, not, ◌&&◌, ◌||◌, Option, none, some, List, [], ◌∷◌,
  ◌++◌, ◌==◌, if◌then◌else◌, map,
}
use deepswe_eval_lab.Base.Dict
use deepswe_eval_lab.Base.Dict.{Dict}
use deepswe_eval_lab.Base.Int.{pos}
use deepswe_eval_lab.Base.Rat.{Rat}
use deepswe_eval_lab.Base.Json
use deepswe_eval_lab.Base.Json.{
  Json, Items, Fields, null, bool, int, float, nonfinite, str, arr, obj, nil, cons, end, field,
}
use deepswe_eval_lab.Eval.Scoring.Patches.{StagePatch, TrialPatchSet, Fingerprint, StageScore}
use deepswe_eval_lab.Eval.Scoring.Equality.{json_eq}
use deepswe_eval_lab.Eval.Scoring.Work.{Host, UniqueWork, fingerprint_items, text_fields}

-- `isinstance(x, (int, float)) and not isinstance(x, bool)`
abbrev pub is_number : Json → Bool
is_number (int n) = true
is_number (float x) = true
is_number nonfinite = true
is_number _ = false

abbrev pub is_dict : Json → Bool
is_dict (obj fs) = true
is_dict _ = false

abbrev pub is_text : String → Json → Bool
is_text s (str t) = t == s
is_text s _ = false

abbrev reward_is_number : Json → Bool
reward_is_number (obj rewards) = is_number (Json.get "reward" rewards)
reward_is_number _ = false

unfoldable pub is_reusable_fields : Fields → String → Bool
is_reusable_fields record_ fingerprint_id =
    is_text "success" (Json.get "status" record_)
    && is_dict (Json.get "fingerprint" record_)
    && is_text fingerprint_id (Json.get "fingerprintId" record_)
    && reward_is_number (Json.get "rewards" record_)

-- A result directory: its name, and its `result.json` where that is JSON.
abbrev pub ResultDir : Type 0
ResultDir = String × Option Json

-- `cache.setdefault(result_dir.name, ...)` for a record that can be reused.
unfoldable pub add_cached : ResultDir → Dict Fields → Dict Fields
add_cached (name, some (obj fs)) cache =
    if is_reusable_fields fs name && not (Dict.has name cache)
    then Dict.insert name fs cache
    else cache
add_cached _ cache = cache

unfoldable pub scan_dirs : List ResultDir → Dict Fields → Dict Fields
scan_dirs [] cache = cache
scan_dirs (dir ∷ rest) cache = scan_dirs rest (add_cached dir cache)

-- `_scan_cached_results`, on the result directories of each trial in turn.
unfoldable pub scan_cached_results : List (List ResultDir) → Dict Fields → Dict Fields
scan_cached_results [] cache = cache
scan_cached_results (dirs ∷ rest) cache = scan_cached_results rest (scan_dirs dirs cache)

abbrev pub matches : Fields → Fingerprint → Bool
matches record_ fp =
    json_eq (Json.get "fingerprint" record_) (obj (text_fields (fingerprint_items fp)))

-- The work with what the cache has for it, if the fingerprint there is that of the work.
unfoldable pub resume : Option Fields → UniqueWork → Option UniqueWork
resume none work = none
resume (some hit) work =
    if matches hit work.fingerprint
    then some (record work { result = some hit; cached = true })
    else none

pub record VerificationRequest : Type 0 where
  pub task_dir : String
  pub patch_path : String
  pub output_dir : String
  pub session_key : String
  pub environment_config : Json
  pub verifier_config : Json
  pub timeout_multiplier : Rat
  pub verifier_timeout_multiplier : Json

pub record VerificationRecord : Type 0 where
  pub status : String
  pub rewards : Option Fields
  pub error_type : Option String
  pub error_message : Option String
  pub retryable : Bool
  pub started_at : String
  pub finished_at : String
  pub duration_seconds : Rat

unfoldable pub request_of : Host → UniqueWork → ℕ → VerificationRequest
request_of host work attempt = record {
  task_dir = work.trial.task_dir;
  patch_path = work.stage.patch_path;
  output_dir = work.result_dir;
  session_key = "ps-" <> work.fingerprint_id <> "-a" <> host.show_nat attempt;
  environment_config = work.trial.environment_config;
  verifier_config = work.trial.verifier_config;
  timeout_multiplier = work.trial.timeout_multiplier;
  verifier_timeout_multiplier = work.trial.verifier_timeout_multiplier;
}

abbrev optional_text : Option String → Json
optional_text none = null
optional_text (some s) = str s

abbrev optional_dict : Option Fields → Json
optional_dict none = null
optional_dict (some fs) = obj fs

unfoldable pub attempt_of : ℕ → VerificationRecord → Json
attempt_of attempt record_ = obj (
    field "attempt" (int (pos attempt)) (
      field "status" (str record_.status) (
        field "errorType" (optional_text record_.error_type) (
          field "errorMessage" (optional_text record_.error_message) (
            field "startedAt" (str record_.started_at) (
              field "finishedAt" (str record_.finished_at)
                (field "durationSeconds" (float record_.duration_seconds) end)))))))

-- The loop stops after this attempt.
abbrev pub is_final : VerificationRecord → Bool
is_final record_ = record_.status == "success" || not record_.retryable

-- The loop over the attempts, with the attempts that are left after this one.
unfoldable pub verify_loop :
    (ℕ → VerificationRecord) → ℕ → ℕ → List Json → VerificationRecord × List Json
verify_loop verify attempt zero seen =
    (verify attempt, seen ++ attempt_of attempt (verify attempt) ∷ [])
verify_loop verify attempt (suc left) seen =
    let attempts = seen ++ attempt_of attempt (verify attempt) ∷ [] in
    let next = verify_loop verify (suc attempt) left attempts in
    if is_final (verify attempt) then (verify attempt, attempts) else next

abbrev items : List Json → Items
items [] = nil
items (x ∷ xs) = cons x (items xs)

unfoldable pub record_of :
    String → Dict String → UniqueWork → VerificationRecord → List Json → Fields
record_of now identity work record_ attempts = field "schemaVersion" (int (pos 1)) (
    field "fingerprintId" (str work.fingerprint_id) (
      field "fingerprint" (obj (text_fields (fingerprint_items work.fingerprint))) (
        field "status" (str record_.status) (
          field "rewards" (optional_dict record_.rewards) (
            field "attempts" (arr (items attempts)) (
              field "identity" (obj (text_fields identity)) (
                field "task" (str work.trial.task_name) (
                  field "sourceTrial" (str work.trial.trial_name) (
                    field "stage" (str work.stage.stage_id) (
                      field "patchSha256" (str work.stage.patch_sha256)
                        (field "generatedAt" (str now) end)))))))))))

-- `_run_unique_work`, at the time `now`.
unfoldable pub run_unique_work :
    Host
    → (VerificationRequest → VerificationRecord)
    → String
    → Dict String
    → UniqueWork
    → UniqueWork
run_unique_work host verify_patch now identity work =
    let (record_, attempts) = verify_loop (λ n. verify_patch (request_of host work n)) 1 1 [] in
    record work { result = some (record_of now identity work record_ attempts) }

-- The work that was resumed, or else a run.
unfoldable pub run_pending :
    Host
    → (VerificationRequest → VerificationRecord)
    → String
    → Dict String
    → UniqueWork
    → Option UniqueWork
    → UniqueWork
run_pending host verify_patch now identity work (some resumed) = resumed
run_pending host verify_patch now identity work none =
    run_unique_work host verify_patch now identity work

-- The work of the job, resumed from the cache or run. The runs share no state, so their order is free.
unfoldable pub run_works :
    Host
    → (VerificationRequest → VerificationRecord)
    → String
    → Dict String
    → Dict Fields
    → Dict UniqueWork
    → Dict UniqueWork
run_works host verify_patch now identity cache [] = []
run_works host verify_patch now identity cache ((id, work) ∷ rest) =
    (id, run_pending host verify_patch now identity work (resume (Dict.get id cache) work))
    ∷ run_works host verify_patch now identity cache rest
