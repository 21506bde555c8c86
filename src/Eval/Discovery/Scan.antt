-- ===== src/Eval/Discovery/Scan.antt =====
-- agent_eval/patch_discovery.py: the checks on the rounds, and discover_trial_patches.
pub mod Patched
pub mod Valid
use deepswe_eval_lab.Base.{
  ℕ, zero, suc, ◌+◌, String, Bool, true, false, not, ◌&&◌, ◌||◌, Option, none, some, List, [], ◌∷◌,
  ◌++◌, ◌==◌, if◌then◌else◌, ltb, leb, eqb, map, keep, all, any, length, is_empty, max, Result, ok,
  err, ◌>>=◌, ◌>>◌, reject,
}
use deepswe_eval_lab.Base.Int.{ℤ, pos, ◌+ℤ◌, leb_ℤ, ltb_ℤ, eqb_ℤ}
use deepswe_eval_lab.Base.Json
use deepswe_eval_lab.Base.Json.{Json, Fields, null, str, arr, obj}
use deepswe_eval_lab.Eval.Scoring.Patches.{StagePatch, TrialPatchSet}
use deepswe_eval_lab.Eval.Discovery.Layout.{
  Reason, rounds_without_checkpoint, patch_without_checkpoint, no_review_rounds, no_metadata,
  not_terminal, unexpected_role, no_patch, inconsistent_reviews, inconsistent_revisions,
  several_interrupted, unsupported_outcome, not_the_submission, final_empty, too_many_changes,
  missing, JsonFile, absent, PatchFile, SafeChild, outside, no_file, file, RoundDir, TrialDir,
  load_json, Entry, round_entries, text_is, has_role, round_succeeded,
}
use deepswe_eval_lab.Eval.Discovery.Stages.{ReviewPatch, stages_of, changed_after_initial}
use deepswe_eval_lab.Eval.Discovery.Trial.{
  Reader, DiscoveryError, layout, unhashable, attribute_error, index_error, Checked, dict_of, when,
  or_zero, raise_if, Header, read_header, child_reasons, is_empty_patch, is_file, checkpoint_count,
  is_review, is_revision, Body, patch_set,
}

abbrev pub is_null : Json → Bool
is_null null = true
is_null _ = false

-- `max(n for n, _, _ in entries)`; no caller asks for the last of no rounds.
abbrev pub last_round : List Entry → ℕ
last_round [] = 0
last_round (e ∷ rest) = max e.number (last_round rest)

abbrev has_metadata : RoundDir → Bool
has_metadata dir = elim dir.metadata [ absent ↦ false | _ ↦ true ]

-- The check of the metadata of a review round, `degraded` if the trial has a reason to be.
unfoldable pub review_reasons : Bool → ℕ → Entry → List Reason
review_reasons degraded last e =
    if has_metadata e.dir
    then when (not (has_role "reviewer" e.dir)) (unexpected_role e.dir.name)
    else if not degraded
    then no_metadata e.dir.name ∷ []
    else when (not (eqb e.number last)) (not_terminal e.dir.name)

-- The patch of a review round, if it is there and not empty.
unfoldable pub review_patch : Entry → Option PatchFile
review_patch e = elim e.dir.patch [ none ↦ none | some p ↦ if eqb p.size 0 then none else some p ]

abbrev pub with_patch :
    Entry → Option PatchFile → List Reason × List ReviewPatch → List Reason × List ReviewPatch
with_patch e none (reasons, patches) = (no_patch e.dir.name ∷ reasons, patches)
with_patch e (some p) (reasons, patches) = (reasons, (e, p) ∷ patches)

-- The loop over the review rounds: reasons, and the rounds with a patch.
unfoldable pub review_loop : Bool → ℕ → List Entry → List Reason × List ReviewPatch
review_loop degraded last [] = ([], [])
review_loop degraded last (e ∷ rest) =
    let (reasons, patches) = with_patch e (review_patch e) (review_loop degraded last rest) in
    (review_reasons degraded last e ++ reasons, patches)

-- The loop over the revision rounds.
unfoldable pub revise_loop : List Entry → List Reason
revise_loop [] = []
revise_loop (e ∷ rest) =
    when (not (has_role "modifier" e.dir)) (unexpected_role e.dir.name) ++ revise_loop rest

abbrev pub succeeded : Entry → Bool
succeeded e = round_succeeded e.dir

abbrev pub interrupted : Entry → Bool
interrupted e = not (round_succeeded e.dir)

-- The checks on the rounds that were interrupted.
unfoldable pub interrupted_reasons : ℕ → List Entry → List Reason
interrupted_reasons last [] = []
interrupted_reasons last (e ∷ []) = when (not (eqb e.number last)) (not_terminal e.dir.name)
interrupted_reasons last (e ∷ f ∷ rest) = several_interrupted ∷ []

-- `review_count <= len(review_patches) <= review_count + 1`, and the count of the revisions.
unfoldable pub count_reasons : Header → List ReviewPatch → List Entry → List Reason
count_reasons h patches revisions =
    when
      (not (
        leb_ℤ (or_zero h.review_count) (pos (length patches))
        && leb_ℤ (pos (length patches)) (or_zero h.review_count +ℤ pos 1)))
      inconsistent_reviews
    ++ when (not (eqb_ℤ (pos (length (keep succeeded revisions))) (or_zero h.revision_count)))
        inconsistent_revisions

abbrev pub deliverable : Json → Bool
deliverable outcome =
    text_is "approved" outcome
    || text_is "max_reviews_reached" outcome
    || text_is "degraded" outcome

abbrev pub completed : Json → Bool
completed outcome = text_is "approved" outcome || text_is "max_reviews_reached" outcome

-- `x in` a set
abbrev pub hashable : Json → Bool
hashable (arr xs) = false
hashable (obj fs) = false
hashable _ = true

abbrev pub final_reasons : PatchFile → PatchFile → List Reason
final_reasons final model =
    when (not (final.sha256 == model.sha256)) not_the_submission
    ++ when (eqb final.size 0) final_empty

-- The reasons, with those of the branch without a checkpoint.
unfoldable pub bare_reasons : TrialDir → List Reason → List Entry → List Reason
bare_reasons dir reasons entries =
    reasons
    ++ when (any is_review entries || any is_revision entries) rounds_without_checkpoint
    ++ when (not (is_empty_patch dir.final) || not (is_empty_patch dir.model))
        patch_without_checkpoint

-- The branch without a checkpoint.
unfoldable pub no_initial_patch :
    Reader → TrialDir → Header → List Reason → List Entry → Checked TrialPatchSet
no_initial_patch reader dir h reasons entries = do
  raise_if (bare_reasons dir reasons entries)
  patch_set reader dir h (record {
    eligible = false;
    ineligible_reason = some "no_initial_patch";
    completed_protocol = false;
    stages = [];
    eval_final_rewards = none;
  })

abbrev rewards_of : Json → Option Fields
rewards_of (obj rewards) = elim (Json.find "reward" rewards) [ none ↦ none | some v ↦ some rewards ]
rewards_of _ = none

-- `eval_rewards`
unfoldable pub eval_rewards : Fields → Option Fields
eval_rewards result = elim (Json.get "verifier_result" result) [
  | obj v ↦ rewards_of (Json.get "rewards" v)
  | _ ↦ none
]

unfoldable pub completed_protocol : Header → List Entry → Bool
completed_protocol h entries =
    completed (Json.get "outcome" h.summary)
    && all succeeded (keep is_review entries)
    && all succeeded (keep is_revision entries)

-- The end: the stages, and what they may not exceed. No review patch at all is an IndexError.
unfoldable pub eligible_set :
    Reader → TrialDir → Header → List Entry → List ReviewPatch → PatchFile → Checked TrialPatchSet
eligible_set reader dir h entries [] final = err index_error
eligible_set reader dir h entries (first ∷ rest) final = do
  let stages = stages_of reader.show_nat dir.path first rest final
  reject (ltb_ℤ (or_zero h.revision_count) (pos (changed_after_initial stages)))
      (layout (too_many_changes ∷ []))
  patch_set reader dir h (record {
    eligible = true;
    ineligible_reason = none;
    completed_protocol = completed_protocol h entries;
    stages = stages;
    eval_final_rewards = eval_rewards h.result;
  })

-- The loop over the review rounds of a trial.
abbrev pub reviewed : Header → List Entry → List Reason × List ReviewPatch
reviewed h entries =
    review_loop (not (is_null (Json.get "degradedReason" h.summary))) (last_round entries)
      (keep is_review entries)

-- The reasons of the checks on the rounds and on the two patches.
unfoldable pub rounds_reasons : Header → List Entry → PatchFile → PatchFile → List Reason
rounds_reasons h entries final model =
    (reviewed h entries).0
    ++ revise_loop (keep is_revision entries)
    ++ count_reasons h (reviewed h entries).1 (keep is_revision entries)
    ++ interrupted_reasons (last_round entries) (keep interrupted (keep is_revision entries))
    ++ when (not (deliverable (Json.get "outcome" h.summary))) unsupported_outcome
    ++ final_reasons final model

-- The checks on the rounds of a trial with a checkpoint, and its two patches.
unfoldable pub check_rounds :
    Reader → TrialDir → Header → List Entry → PatchFile → PatchFile → Checked TrialPatchSet
check_rounds reader dir h entries final model = do
  reject (not (hashable (Json.get "outcome" h.summary))) unhashable
  raise_if (rounds_reasons h entries final model)
  eligible_set reader dir h entries (reviewed h entries).1 final

-- The reasons, with those of the files that a trial with a checkpoint has.
unfoldable pub file_reasons : TrialDir → List Reason → List Entry → List Reason
file_reasons dir reasons entries =
    reasons
    ++ when (not (any is_review entries)) no_review_rounds
    ++ when (not (is_file dir.final)) (missing "agent/system/final/patch.diff")
    ++ when (not (is_file dir.model)) (missing "artifacts/model.patch")

-- The two patches, where both are files.
unfoldable pub check_files :
    Reader → TrialDir → Header → List Entry → SafeChild → SafeChild → Checked TrialPatchSet
check_files reader dir h entries (file final) (file model) =
    check_rounds reader dir h entries final model
check_files reader dir h entries _ _ = err attribute_error

-- The branch with a checkpoint; a patch that is no file is among the reasons.
unfoldable pub with_initial_patch :
    Reader → TrialDir → Header → List Reason → List Entry → Checked TrialPatchSet
with_initial_patch reader dir h reasons entries = do
  raise_if (file_reasons dir reasons entries)
  check_files reader dir h entries dir.final dir.model

unfoldable pub by_checkpoint :
    Reader → TrialDir → List Reason → Header → List Entry → Checked TrialPatchSet
by_checkpoint reader dir reasons h entries =
    if eqb (checkpoint_count h.summary) 0
    then no_initial_patch reader dir h reasons entries
    else with_initial_patch reader dir h reasons entries

-- The reasons of the rounds' directory and of the two paths.
unfoldable pub path_reasons : Reader → TrialDir → List Reason
path_reasons reader dir =
    (round_entries reader.digit dir.rounds).0
    ++ child_reasons "agent/system/final/patch.diff" dir.final
    ++ child_reasons "artifacts/model.patch" dir.model

unfoldable pub with_header : Reader → TrialDir → List Reason × Header → Checked TrialPatchSet
with_header reader dir (reasons, h) =
    by_checkpoint reader dir (reasons ++ path_reasons reader dir) h
      (round_entries reader.digit dir.rounds).1

unfoldable pub read_both :
    Reader → TrialDir → List Reason → Option Fields → Option Fields → Checked TrialPatchSet
read_both reader dir reasons (some result) (some summary) = do
  header ← read_header reader result summary
  with_header reader dir header
read_both reader dir reasons _ _ = err (layout reasons)

unfoldable pub discover_trial_patches : Reader → TrialDir → Checked TrialPatchSet
discover_trial_patches reader dir =
    read_both reader dir
      ((load_json "result.json" dir.result).0 ++ (load_json "summary.json" dir.summary).0)
      (load_json "result.json" dir.result).1 (load_json "summary.json" dir.summary).1
