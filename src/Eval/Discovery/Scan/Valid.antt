-- ===== src/Eval/Discovery/Scan/Valid.antt =====
-- What a trial directory that was accepted gives.
use deepswe_eval_lab.Base.{
  ℕ, ◌≡◌, refl, sym, subst, String, Bool, true, false, not, ◌||◌, Option, none, some, List, [], ◌∷◌,
  ◌++◌, any, is_empty, arith, Bool-cases, inl, inr, ok, ◌>>◌, eqb, after_bind, after_check,
  not-eq-false,
}
use deepswe_eval_lab.Base.Int.{pos, ltb_ℤ}
use deepswe_eval_lab.Base.Json
use deepswe_eval_lab.Base.Json.{Json, Fields, null, str, arr, obj}
use deepswe_eval_lab.Eval.Scoring.Patches.{TrialPatchSet}
use deepswe_eval_lab.Eval.Discovery.Layout.{
  Reason, too_many_changes, rounds_without_checkpoint, patch_without_checkpoint, PatchFile,
  SafeChild, file, outside, no_file, TrialDir, Entry, load_json, round_entries,
}
use deepswe_eval_lab.Eval.Discovery.Stages.{ReviewPatch, stages_of, changed_after_initial}
use deepswe_eval_lab.Eval.Discovery.Stages.Chain.{IsStages, stages_of-IsStages}
use deepswe_eval_lab.Eval.Discovery.Trial.{
  Reader, layout, unhashable, or_zero, raise_if, when, is_empty_patch, is_review, is_revision,
  Header, read_header, checkpoint_count, Body, patch_set,
}
use deepswe_eval_lab.Eval.Discovery.Scan.{
  hashable, bare_reasons, no_initial_patch, eligible_set, reviewed, rounds_reasons, check_rounds,
  file_reasons, check_files, by_checkpoint, path_reasons, with_initial_patch, with_header,
  read_both, discover_trial_patches,
}
use deepswe_eval_lab.Eval.Discovery.Scan.Patched.{
  IsPatched, both_empty, is_empty-when, rounds_reasons-IsPatched,
}

-- A trial that was read, from its directory with the given rounds: without a checkpoint it has no
-- patches, no stages and is not eligible; else its stages are those of its patches, and no more of them
-- changed than the summary counts revisions.
pub data IsDiscovered (show_nat : ℕ → String) (dir : TrialDir) (entries : List Entry)
    (out : TrialPatchSet) : Type 0 where
  without_patch :
      out.eligible ≡ false
      → out.stages ≡ []
      → is_empty_patch dir.final ≡ true
      → is_empty_patch dir.model ≡ true
      → IsDiscovered show_nat dir entries out
  with_stages :
      (first : ReviewPatch) (rest : List ReviewPatch) (final : PatchFile)
      → out.eligible ≡ true
      → IsPatched dir entries (first ∷ rest) final
      → IsStages show_nat first rest final out.stages
      → ltb_ℤ out.revision_count (pos (changed_after_initial out.stages)) ≡ false
      → IsDiscovered show_nat dir entries out

record HasBody (dir : TrialDir) (h : Header) (body : Body) (out : TrialPatchSet) : Type 0 where
  name : out.trial_name ≡ dir.name
  eligible : out.eligible ≡ body.eligible
  stages : out.stages ≡ body.stages
  revisions : out.revision_count ≡ or_zero h.revision_count

patch_set-HasBody :
    (reader : Reader) (dir : TrialDir) (h : Header) (body : Body) (out : TrialPatchSet)
    → patch_set reader dir h body ≡ ok out
    → HasBody dir h body out
unfolding patch_set
patch_set-HasBody reader dir h body out e = ground arith

-- The trial's name, and what it was read as.
Accepted : Reader → TrialDir → List Entry → TrialPatchSet → Type 0
Accepted reader dir entries out =
    (out.trial_name ≡ dir.name) × IsDiscovered reader.show_nat dir entries out

no_patches : (a b : Bool) → (not a || not b) ≡ false → (a ≡ true) × (b ≡ true)
no_patches a b h = (ground arith, ground arith)

no_initial_patch-Accepted :
    (reader : Reader) (dir : TrialDir) (h : Header) (reasons : List Reason) (entries : List Entry)
    (out : TrialPatchSet)
    → no_initial_patch reader dir h reasons entries ≡ ok out
    → Accepted reader dir entries out
unfolding no_initial_patch bare_reasons Accepted
no_initial_patch-Accepted reader dir h reasons entries out e =
    after_check (not (is_empty (bare_reasons dir reasons entries)))
      (layout (bare_reasons dir reasons entries)) e
      λ c f.
        let b = patch_set-HasBody reader dir h _ out f in
        let found =
          when (any is_review entries || any is_revision entries) rounds_without_checkpoint in
        let patches =
          when (not (is_empty_patch dir.final) || not (is_empty_patch dir.model))
            patch_without_checkpoint in
        let bare =
          is_empty-when (not (is_empty_patch dir.final) || not (is_empty_patch dir.model))
            patch_without_checkpoint (both_empty (reasons ++ found) patches (not-eq-false c)).1 in
        (
          b.name,
          without_patch b.eligible b.stages
              (no_patches (is_empty_patch dir.final) (is_empty_patch dir.model) bare).0
              (no_patches (is_empty_patch dir.final) (is_empty_patch dir.model) bare).1,
        )

eligible_set-Accepted :
    (reader : Reader) (dir : TrialDir) (h : Header) (entries : List Entry)
    (patches : List ReviewPatch) (final : PatchFile) (out : TrialPatchSet)
    → IsPatched dir entries patches final
    → eligible_set reader dir h entries patches final ≡ ok out
    → Accepted reader dir entries out
unfolding eligible_set Accepted
eligible_set-Accepted reader dir h entries [] final out v e = cc
eligible_set-Accepted reader dir h entries (first ∷ rest) final out v e =
    let stages = stages_of reader.show_nat dir.path first rest final in
    after_check (ltb_ℤ (or_zero h.revision_count) (pos (changed_after_initial stages)))
      (layout (too_many_changes ∷ [])) e
      λ c f.
        let b = patch_set-HasBody reader dir h _ out f in
        (
          b.name,
          with_stages first rest final b.eligible v
              (subst (IsStages reader.show_nat first rest final) (sym b.stages)
                (stages_of-IsStages reader.show_nat dir.path first rest final))
              (rw (b.revisions, b.stages) c),
        )

check_files-Accepted :
    (reader : Reader) (dir : TrialDir) (h : Header) (entries : List Entry) (final model : SafeChild)
    (out : TrialPatchSet)
    → dir.final ≡ final
    → dir.model ≡ model
    → check_files reader dir h entries final model ≡ ok out
    → Accepted reader dir entries out
unfolding check_files check_rounds
check_files-Accepted reader dir h entries (file final) (file model) out f m e =
    after_check (not (hashable (Json.get "outcome" h.summary))) unhashable e λ _ e₁.
      after_check (not (is_empty (rounds_reasons h entries final model)))
        (layout (rounds_reasons h entries final model)) e₁
        λ c e₂.
          eligible_set-Accepted reader dir h entries (reviewed h entries).1 final out
            (rounds_reasons-IsPatched dir h entries final model f m (not-eq-false c)) e₂
check_files-Accepted reader dir h entries (file final) outside out f m e = cc
check_files-Accepted reader dir h entries (file final) no_file out f m e = cc
check_files-Accepted reader dir h entries outside model out f m e = cc
check_files-Accepted reader dir h entries no_file model out f m e = cc

by_checkpoint-Accepted :
    (reader : Reader) (dir : TrialDir) (reasons : List Reason) (h : Header) (entries : List Entry)
    (out : TrialPatchSet)
    → by_checkpoint reader dir reasons h entries ≡ ok out
    → Accepted reader dir entries out
unfolding by_checkpoint with_initial_patch
by_checkpoint-Accepted reader dir reasons h entries out e =
    elim (Bool-cases (eqb (checkpoint_count h.summary) 0)) [
      | inl c ↦ no_initial_patch-Accepted reader dir h reasons entries out (cc (c, e))
      | inr c ↦
          let f : (raise_if (file_reasons dir reasons entries)
                >> check_files reader dir h entries dir.final dir.model)
              ≡ ok out =
            cc (c, e) in
          after_bind (raise_if (file_reasons dir reasons entries)) f
            λ _ _ g. check_files-Accepted reader dir h entries dir.final dir.model out refl refl g
    ]

read_both-Accepted :
    (reader : Reader) (dir : TrialDir) (reasons : List Reason) (result summary : Option Fields)
    (out : TrialPatchSet)
    → read_both reader dir reasons result summary ≡ ok out
    → Accepted reader dir (round_entries reader.digit dir.rounds).1 out
unfolding read_both with_header
read_both-Accepted reader dir reasons (some result) (some summary) out e =
    after_bind (read_header reader result summary) e λ header _ f.
      by_checkpoint-Accepted reader dir (header.0 ++ path_reasons reader dir) header.1
        (round_entries reader.digit dir.rounds).1 out f
read_both-Accepted reader dir reasons none summary out e = cc
read_both-Accepted reader dir reasons (some result) none out e = cc

-- A trial directory that is accepted keeps its name. Either it is not eligible and has no stages, and
-- neither its final nor its submitted patch is there with a content; or it is eligible, and its stages
-- are those of the patches of its review rounds, each of which has one that is not empty, in order, and
-- of its final patch, which is not empty and has the digest of the submitted patch. No more stages are
-- then changed after the first than the summary counts revisions.
pub discover_trial_patches-IsDiscovered :
    (reader : Reader) (dir : TrialDir) (out : TrialPatchSet)
    → discover_trial_patches reader dir ≡ ok out
    → (out.trial_name ≡ dir.name)
      × IsDiscovered reader.show_nat dir (round_entries reader.digit dir.rounds).1 out
unfolding discover_trial_patches Accepted
discover_trial_patches-IsDiscovered reader dir out e =
    read_both-Accepted reader dir
      ((load_json "result.json" dir.result).0 ++ (load_json "summary.json" dir.summary).0)
      (load_json "result.json" dir.result).1 (load_json "summary.json" dir.summary).1 out e
