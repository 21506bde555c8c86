-- ===== src/Eval/Scoring/Work/Cover.antt =====
-- The work of a job leaves out no stage.
use deepswe_eval_lab.Base.{
  String, ◌<>◌, ◌≡◌, refl, ap, subst, inl, inr, Bool, true, false, not, ◌&&◌, ◌||◌, none, some,
  List, [], ◌∷◌, ◌==◌, eq_iff, eq_refl, arith, Bool-cases, Option-cases, ok,
}
use deepswe_eval_lab.Base.Dict
use deepswe_eval_lab.Base.Dict.{Dict}
use deepswe_eval_lab.Eval.Scoring.Patches.{StagePatch, TrialPatchSet}
use deepswe_eval_lab.Eval.Scoring.Work.{
  Host, Digests, fingerprint, fingerprint_id, UniqueWork, skip_direct, Collected, new_work,
  add_work, collect_stage, collect_stages, digests_of, collect,
}

-- What stays in the work once it is there.
add_work-has :
    (skip : Bool) (id j : String) (work : UniqueWork) (works : Dict UniqueWork)
    → Dict.has j (add_work skip id work works) ≡ (Dict.has j works || id == j && not skip)
unfolding add_work
add_work-has skip id j work works = elim (Bool-cases (id == j)) [
  | inl e ↦
      ground
        (arith, Dict.has-insert j id work works, ap (λ i. Dict.has i works) ((eq_iff id j).0 e))
  | inr e ↦ ground (arith, Dict.has-insert j id work works)
]

module _ (host : Host) (reuse : Bool) (identity : Dict String) where
  -- A stage has its piece of work, or its patch is that of a final stage alone and is not run again.
  unfoldable pub is_covered : Digests → TrialPatchSet → Dict UniqueWork → StagePatch → Bool
  is_covered digests trial works stage =
      skip_direct reuse trial stage
      || Dict.has (fingerprint_id host (fingerprint identity digests trial stage)) works

  unfoldable pub are_covered : Digests → TrialPatchSet → Dict UniqueWork → List StagePatch → Bool
  are_covered digests trial works [] = true
  are_covered digests trial works (stage ∷ rest) =
      is_covered digests trial works stage && are_covered digests trial works rest

  -- All stages of all trials.
  unfoldable pub all_covered : List TrialPatchSet → Dict UniqueWork → Bool
  all_covered [] works = true
  all_covered (trial ∷ rest) works = elim (host.directory (trial.task_dir <> "/tests")) [
    | none ↦ false
    | some files ↦
        are_covered (digests_of host trial files) trial works trial.stages && all_covered rest works
  ]

  collect_stage-covers :
      (digests : Digests) (trial : TrialPatchSet) (stage : StagePatch) (c : Collected)
      → is_covered digests trial
          (collect_stage host reuse identity digests trial stage c).works
          stage
        ≡ true
  unfolding is_covered collect_stage
  collect_stage-covers digests trial stage c = ground (
    arith,
    eq_refl (fingerprint_id host (fingerprint identity digests trial stage)),
    add_work-has (skip_direct reuse trial stage)
        (fingerprint_id host (fingerprint identity digests trial stage))
        (fingerprint_id host (fingerprint identity digests trial stage))
        (new_work trial stage (fingerprint identity digests trial stage)
          (fingerprint_id host (fingerprint identity digests trial stage)))
        c.works,
  )

  collect_stage-keeps :
      (digests : Digests) (trial : TrialPatchSet) (stage : StagePatch) (c : Collected) (j : String)
      → Dict.has j c.works ≡ true
      → Dict.has j (collect_stage host reuse identity digests trial stage c).works ≡ true
  unfolding collect_stage
  collect_stage-keeps digests trial stage c j h = ground (
    arith,
    add_work-has (skip_direct reuse trial stage)
        (fingerprint_id host (fingerprint identity digests trial stage)) j
        (new_work trial stage (fingerprint identity digests trial stage)
          (fingerprint_id host (fingerprint identity digests trial stage)))
        c.works,
  )

  collect_stages-keeps :
      (digests : Digests) (trial : TrialPatchSet) (stages : List StagePatch) (c : Collected)
      (j : String)
      → Dict.has j c.works ≡ true
      → Dict.has j (collect_stages host reuse identity digests trial stages c).works ≡ true
  unfolding collect_stages
  collect_stages-keeps digests trial [] c j h = h
  collect_stages-keeps digests trial (s ∷ ss) c j h =
      collect_stages-keeps digests trial ss (collect_stage host reuse identity digests trial s c) j
        (collect_stage-keeps digests trial s c j h)

  collect_stages-covers :
      (digests : Digests) (trial : TrialPatchSet) (stages : List StagePatch) (c : Collected)
      → are_covered digests trial
          (collect_stages host reuse identity digests trial stages c).works
          stages
        ≡ true
  unfolding collect_stages are_covered is_covered
  collect_stages-covers digests trial [] c = refl
  collect_stages-covers digests trial (s ∷ ss) c =
      let next = collect_stage host reuse identity digests trial s c in
      ground (
        arith,
        collect_stage-covers digests trial s c,
        collect_stages-covers digests trial ss next,
        collect_stages-keeps digests trial ss next
            (fingerprint_id host (fingerprint identity digests trial s)),
      )

  collect-keeps :
      (trials : List TrialPatchSet) (c out : Collected) (j : String)
      → collect host reuse identity trials c ≡ ok out
      → Dict.has j c.works ≡ true
      → Dict.has j out.works ≡ true
  unfolding collect
  collect-keeps [] c out j e h = subst (λ o. Dict.has j o.works ≡ true) {x = c} {y = out} (cc e) h
  collect-keeps (trial ∷ rest) c out j e h =
      elim (Option-cases (host.directory (trial.task_dir <> "/tests"))) [
        | inl g ↦ cc
        | inr (files, g) ↦
            let next =
              collect_stages host reuse identity (digests_of host trial files) trial trial.stages
                c in
            collect-keeps rest next out j (cc (g, e))
              (collect_stages-keeps (digests_of host trial files) trial trial.stages c j h)
      ]

  are_covered_mono :
      (digests : Digests) (trial : TrialPatchSet) (stages : List StagePatch) (v w : Dict UniqueWork)
      → ((j : String) → Dict.has j v ≡ true → Dict.has j w ≡ true)
      → are_covered digests trial v stages ≡ true
      → are_covered digests trial w stages ≡ true
  unfolding are_covered is_covered
  are_covered_mono digests trial [] v w k h = refl
  are_covered_mono digests trial (s ∷ ss) v w k h = ground (
    arith,
    k (fingerprint_id host (fingerprint identity digests trial s)),
    are_covered_mono digests trial ss v w k,
  )

  pub collect-all_covered :
      (trials : List TrialPatchSet) (c out : Collected)
      → collect host reuse identity trials c ≡ ok out
      → all_covered trials out.works ≡ true
  unfolding collect all_covered
  collect-all_covered [] c out e = refl
  collect-all_covered (trial ∷ rest) c out e =
      elim (Option-cases (host.directory (trial.task_dir <> "/tests"))) [
        | inl g ↦ cc
        | inr (files, g) ↦
            let next =
              collect_stages host reuse identity (digests_of host trial files) trial trial.stages
                c in
            let f : collect host reuse identity rest next ≡ ok out = cc (g, e) in
            ground (
              arith,
              g,
              collect-all_covered rest next out f,
              are_covered_mono (digests_of host trial files) trial trial.stages next.works out.works
                  (λ j. collect-keeps rest next out j f)
                  (collect_stages-covers (digests_of host trial files) trial trial.stages c),
            )
      ]
