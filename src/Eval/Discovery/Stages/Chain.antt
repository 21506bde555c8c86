-- ===== src/Eval/Discovery/Stages/Chain.antt =====
-- The stages of a trial form a chain, in which each stage is described by those before it.
use deepswe_eval_lab.Base.{
  ℕ, suc, ◌≡◌, refl, sym, ap, ◌∙◌, subst, String, ◌<>◌, Option, none, some, List, [], ◌∷◌, ◌++◌,
  append_assoc, append-nil, ◌==◌, if◌then◌else◌, map, length, arith,
}
use mathlib.Core.List.{map-append}
use deepswe_eval_lab.Base.Dict
use deepswe_eval_lab.Base.Dict.{Dict}
use deepswe_eval_lab.Eval.Scoring.Patches.{StagePatch}
use deepswe_eval_lab.Eval.Discovery.Layout.{PatchFile}
use deepswe_eval_lab.Eval.Discovery.Stages.{
  Staged, last_stage, id_of, differs, NewStage, stage_after, add_stage, ReviewPatch, review_stage,
  final_stage, revision_stages, add_stages, stages_of,
}

-- The id of the first stage with a digest.
unfoldable pub first_with : String → List StagePatch → Option String
first_with sha [] = none
first_with sha (s ∷ rest) =
    Dict.first_of (if s.patch_sha256 == sha then some s.stage_id else none) (first_with sha rest)

-- What a stage says of itself, after the stages before it.
pub record IsDescribed (before : List StagePatch) (s : StagePatch) : Type 0 where
  pub parent : s.parent_stage_id ≡ id_of (last_stage before)
  pub ordinal : s.ordinal ≡ length before
  pub changed : s.changed ≡ differs s.patch_sha256 (last_stage before)
  pub alias : s.alias_of ≡ first_with s.patch_sha256 before

-- Each stage of a list, after those before it.
unfoldable pub IsChain : List StagePatch → List StagePatch → Type 0
IsChain before [] = Unit
IsChain before (s ∷ rest) = IsDescribed before s × IsChain (before ++ s ∷ []) rest

IsChain-snoc :
    (before stages : List StagePatch) (s : StagePatch)
    → IsChain before stages
    → IsDescribed (before ++ stages) s
    → IsChain before (stages ++ s ∷ [])
unfolding IsChain
IsChain-snoc before [] s h d = (subst (λ b. IsDescribed b s) (append-nil before) d, tt)
IsChain-snoc before (t ∷ rest) s (e, h) d = (
  e,
  IsChain-snoc (before ++ t ∷ []) rest s h
      (subst (λ b. IsDescribed b s) (sym (append_assoc before (t ∷ []) rest)) d),
)

first_with-append :
    (sha : String) (xs ys : List StagePatch)
    → first_with sha (xs ++ ys) ≡ Dict.first_of (first_with sha xs) (first_with sha ys)
unfolding first_with
first_with-append sha [] ys = refl
first_with-append sha (s ∷ xs) ys = ground (arith, first_with-append sha xs ys)

-- The dictionary of digests agrees with the stages so far, which form a chain.
record IsStaged (st : Staged) : Type 0 where
  memo : (sha : String) → Dict.get sha st.sha_to_stage ≡ first_with sha st.stages
  chain : IsChain [] st.stages

add_stage-memo :
    (new : NewStage) (st : Staged) (sha : String)
    → Dict.get sha st.sha_to_stage ≡ first_with sha st.stages
    → Dict.get sha (add_stage new st).sha_to_stage ≡ first_with sha (add_stage new st).stages
unfolding add_stage first_with
add_stage-memo new st sha h =
    Dict.get-set_default sha new.sha new.stage_id st.sha_to_stage
    ∙ rw (first_with-append sha st.stages (stage_after st.stages st.sha_to_stage new ∷ []), h)
        (ap (Dict.first_of (first_with sha st.stages))
          (Dict.first_of-none (if new.sha == sha then some new.stage_id else none)))

add_stage-IsStaged : (new : NewStage) (st : Staged) → IsStaged st → IsStaged (add_stage new st)
unfolding add_stage
add_stage-IsStaged new st v = record {
  memo = λ sha. add_stage-memo new st sha (v.memo sha);
  chain =
      IsChain-snoc [] st.stages (stage_after st.stages st.sha_to_stage new) v.chain
        (record { parent = refl; ordinal = refl; changed = refl; alias = v.memo new.sha });
}

add_stages-IsStaged :
    (news : List NewStage) (st : Staged) → IsStaged st → IsStaged (add_stages news st)
unfolding add_stages
add_stages-IsStaged [] st v = v
add_stages-IsStaged (new ∷ rest) st v =
    add_stages-IsStaged rest (add_stage new st) (add_stage-IsStaged new st v)

-- The ids and the digests of the stages are those that were added.
add_stages-field :
    (f : StagePatch → String) (g : NewStage → String) (news : List NewStage) (st : Staged)
    → ((stages : List StagePatch) (seen : Dict String) (new : NewStage)
        → f (stage_after stages seen new) ≡ g new)
    → map f (add_stages news st).stages ≡ map f st.stages ++ map g news
unfolding add_stages add_stage
add_stages-field f g [] st h = sym (append-nil (map f st.stages))
add_stages-field f g (new ∷ rest) st h =
    add_stages-field f g rest (add_stage new st) h
    ∙ ap (λ l. l ++ map g rest)
        (map-append f st.stages (stage_after st.stages st.sha_to_stage new ∷ []))
    ∙ append_assoc (map f st.stages) (f (stage_after st.stages st.sha_to_stage new) ∷ [])
        (map g rest)
    ∙ ap (λ t. map f st.stages ++ t ∷ map g rest) (h st.stages st.sha_to_stage new)

-- "revision-1", "revision-2" and so on.
unfoldable pub revision_ids : (ℕ → String) → ℕ → List ReviewPatch → List String
revision_ids show_nat index [] = []
revision_ids show_nat index (p ∷ rest) =
    ("revision-" <> show_nat index) ∷ revision_ids show_nat (suc index) rest

abbrev pub sha_of : ReviewPatch → String
sha_of (e, patch) = patch.sha256

revision_stages-ids :
    (show_nat : ℕ → String) (path : String) (index : ℕ) (rest : List ReviewPatch)
    → map (λ (n : NewStage). n.stage_id) (revision_stages show_nat path index rest)
      ≡ revision_ids show_nat index rest
unfolding revision_stages revision_ids
revision_stages-ids show_nat path index [] = refl
revision_stages-ids show_nat path index ((e, p) ∷ rest) =
    ap (λ l. ("revision-" <> show_nat index) ∷ l)
      (revision_stages-ids show_nat path (suc index) rest)

revision_stages-shas :
    (show_nat : ℕ → String) (path : String) (index : ℕ) (rest : List ReviewPatch)
    → map (λ (n : NewStage). n.sha) (revision_stages show_nat path index rest) ≡ map sha_of rest
unfolding revision_stages
revision_stages-shas show_nat path index [] = refl
revision_stages-shas show_nat path index ((e, p) ∷ rest) =
    ap (λ l. p.sha256 ∷ l) (revision_stages-shas show_nat path (suc index) rest)

-- The stages of a trial, against an independent description of them.
pub record IsStages (show_nat : ℕ → String) (first : ReviewPatch) (rest : List ReviewPatch)
    (final : PatchFile) (stages : List StagePatch) : Type 0 where
  pub chain : IsChain [] stages
  pub ids :
      map (λ (s : StagePatch). s.stage_id) stages
      ≡ "initial" ∷ (revision_ids show_nat 1 rest ++ "final" ∷ [])
  pub shas :
      map (λ (s : StagePatch). s.patch_sha256) stages
      ≡ sha_of first ∷ (map sha_of rest ++ final.sha256 ∷ [])

nothing-IsStaged : IsStaged (record { stages = []; sha_to_stage = [] })
unfolding Dict.get first_with IsChain
nothing-IsStaged = record { memo = λ sha. refl; chain = tt }

-- The stages of a trial are its first review patch, its later review patches in order, and its final
-- patch. Each names the one before it as its parent, has its position as ordinal, is changed exactly if
-- its digest is not that of its parent, and is an alias of the first stage before it with its digest.
pub stages_of-IsStages :
    (show_nat : ℕ → String) (path : String) (first : ReviewPatch) (rest : List ReviewPatch)
    (final : PatchFile)
    → IsStages show_nat first rest final (stages_of show_nat path first rest final)
unfolding stages_of
stages_of-IsStages show_nat path (e, p) rest final =
    let later = revision_stages show_nat path 1 rest in
    let news = review_stage path "initial" (e, p) ∷ (later ++ final_stage path final ∷ []) in
    let start : Staged = record { stages = []; sha_to_stage = [] } in
    record {
      chain = (add_stages-IsStaged news start nothing-IsStaged).chain;
      ids =
          add_stages-field (λ s. s.stage_id) (λ n. n.stage_id) news start (λ stages seen new. refl)
          ∙ ap (λ l. "initial" ∷ l)
              (map-append (λ (n : NewStage). n.stage_id) later (final_stage path final ∷ [])
                ∙ ap (λ l. l ++ "final" ∷ []) (revision_stages-ids show_nat path 1 rest));
      shas =
          add_stages-field (λ s. s.patch_sha256) (λ n. n.sha) news start (λ stages seen new. refl)
          ∙ ap (λ l. p.sha256 ∷ l)
              (map-append (λ (n : NewStage). n.sha) later (final_stage path final ∷ [])
                ∙ ap (λ l. l ++ final.sha256 ∷ []) (revision_stages-shas show_nat path 1 rest));
    }
