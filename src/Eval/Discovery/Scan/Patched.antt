-- ===== src/Eval/Discovery/Scan/Patched.antt =====
-- The patches of a trial directory whose rounds give no reason against it.
use deepswe_eval_lab.Base.{
  ℕ, ◌≡◌, refl, ap, Bool, true, false, not, Option, none, some, List, [], ◌∷◌, ◌++◌, ◌==◌, map,
  keep, All, is_empty, arith, eqb, not-eq-false,
}
use deepswe_eval_lab.Base.Json
use deepswe_eval_lab.Base.Json.{Json, Fields, null, str, arr, obj}
use deepswe_eval_lab.Eval.Discovery.Layout.{
  Reason, no_patch, unsupported_outcome, not_the_submission, final_empty, PatchFile, file, TrialDir,
  Entry,
}
use deepswe_eval_lab.Eval.Discovery.Stages.{ReviewPatch}
use deepswe_eval_lab.Eval.Discovery.Trial.{when, is_review, is_revision, Header}
use deepswe_eval_lab.Eval.Discovery.Scan.{
  review_patch, review_reasons, with_patch, review_loop, revise_loop, count_reasons,
  interrupted_reasons, last_round, interrupted, deliverable, is_null, final_reasons, reviewed,
  rounds_reasons,
}

-- The patch of a review round is that of its directory, and not empty.
abbrev pub HasPatch : ReviewPatch → Type 0
HasPatch (e, patch) = (e.dir.patch ≡ some patch) × (eqb patch.size 0 ≡ false)

abbrev pub round_of : ReviewPatch → Entry
round_of (e, patch) = e

-- The patches of a trial directory: those of all its review rounds, in their order, and the final patch,
-- which is not empty and the one that was submitted.
pub record IsPatched (dir : TrialDir) (entries : List Entry) (patches : List ReviewPatch)
    (final : PatchFile) : Type 0 where
  pub model : PatchFile
  pub final_file : dir.final ≡ file final
  pub model_file : dir.model ≡ file model
  pub submitted : (final.sha256 == model.sha256) ≡ true
  pub final_size : eqb final.size 0 ≡ false
  pub reviews : map round_of patches ≡ keep is_review entries
  pub patched : All HasPatch patches

pub both_empty :
    (xs ys : List Reason) → is_empty (xs ++ ys) ≡ true → (is_empty xs ≡ true) × (is_empty ys ≡ true)
both_empty [] ys h = (refl, h)
both_empty (x ∷ xs) ys h = cc

-- Of a list that is empty, the first and the last part are.
ends_empty :
    (first b c d e last : List Reason)
    → is_empty (first ++ b ++ c ++ d ++ e ++ last) ≡ true
    → (is_empty first ≡ true) × (is_empty last ≡ true)
ends_empty first b c d e last h =
    let (t₁, of_last) = both_empty (first ++ b ++ c ++ d ++ e) last h in
    let (t₂, _) = both_empty (first ++ b ++ c ++ d) e t₁ in
    let (t₃, _) = both_empty (first ++ b ++ c) d t₂ in
    let (t₄, _) = both_empty (first ++ b) c t₃ in ((both_empty first b t₄).0, of_last)

pub is_empty-when : (b : Bool) (reason : Reason) → is_empty (when b reason) ≡ true → b ≡ false
is_empty-when true reason h = cc
is_empty-when false reason h = refl

review_patch-HasPatch : (e : Entry) (p : PatchFile) → review_patch e ≡ some p → HasPatch (e, p)
unfolding review_patch
review_patch-HasPatch e p h = ground arith

-- The patches of the rounds, one for each.
AllPatched : List Entry → List ReviewPatch → Type 0
AllPatched entries patches = (map round_of patches ≡ entries) × All HasPatch patches

with_patch-AllPatched :
    (e : Entry) (patch : Option PatchFile) (own : List Reason)
    (later : List Reason × List ReviewPatch) (rest : List Entry)
    → review_patch e ≡ patch
    → is_empty (own ++ (with_patch e patch later).0) ≡ true
    → (is_empty later.0 ≡ true → AllPatched rest later.1)
    → AllPatched (e ∷ rest) (with_patch e patch later).1
unfolding AllPatched
with_patch-AllPatched e none own (reasons, patches) rest f h k =
    cc (both_empty own (no_patch e.dir.name ∷ reasons) h).1
with_patch-AllPatched e (some p) own (reasons, patches) rest f h k =
    let (m, v) = k (both_empty own reasons h).1 in
    (ap (λ l. e ∷ l) m, (review_patch-HasPatch e p f, v))

-- Without a reason, each review round has its patch.
review_loop-AllPatched :
    (degraded : Bool) (last : ℕ) (entries : List Entry)
    → is_empty (review_loop degraded last entries).0 ≡ true
    → AllPatched entries (review_loop degraded last entries).1
unfolding review_loop AllPatched
review_loop-AllPatched degraded last [] h = (refl, tt)
review_loop-AllPatched degraded last (e ∷ rest) h =
    with_patch-AllPatched e (review_patch e) (review_reasons degraded last e)
      (review_loop degraded last rest) rest refl h (review_loop-AllPatched degraded last rest)

pub rounds_reasons-IsPatched :
    (dir : TrialDir) (h : Header) (entries : List Entry) (final model : PatchFile)
    → dir.final ≡ file final
    → dir.model ≡ file model
    → is_empty (rounds_reasons h entries final model) ≡ true
    → IsPatched dir entries (reviewed h entries).1 final
unfolding rounds_reasons AllPatched
rounds_reasons-IsPatched dir h entries final model f m none_given =
    let (none_reviewed, none_final) =
      ends_empty (reviewed h entries).0 (revise_loop (keep is_revision entries))
        (count_reasons h (reviewed h entries).1 (keep is_revision entries))
        (interrupted_reasons (last_round entries) (keep interrupted (keep is_revision entries)))
        (when (not (deliverable (Json.get "outcome" h.summary))) unsupported_outcome)
        (final_reasons final model) none_given in
    let (same, full) =
      both_empty (when (not (final.sha256 == model.sha256)) not_the_submission)
        (when (eqb final.size 0) final_empty) none_final in
    let (reviews, patched) =
      review_loop-AllPatched (not (is_null (Json.get "degradedReason" h.summary)))
        (last_round entries) (keep is_review entries) none_reviewed in
    record {
      model = model;
      final_file = f;
      model_file = m;
      submitted =
          not-eq-false (is_empty-when (not (final.sha256 == model.sha256)) not_the_submission same);
      final_size = is_empty-when (eqb final.size 0) final_empty full;
      reviews = reviews;
      patched = patched;
    }
