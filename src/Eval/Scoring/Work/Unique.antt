-- ===== src/Eval/Scoring/Work/Unique.antt =====
-- The work of a job: one piece for each fingerprint that a stage needs.
use deepswe_eval_lab.Base.{
  String, ◌<>◌, ◌≡◌, refl, subst, inl, inr, Bool, true, not, ◌&&◌, List, [], ◌∷◌, ◌==◌, eq_iff,
  Bool-cases, Option-cases, ok,
}
use deepswe_eval_lab.Base.Dict
use deepswe_eval_lab.Base.Dict.{Dict}
use deepswe_eval_lab.Eval.Scoring.Patches.{StagePatch, TrialPatchSet}
use deepswe_eval_lab.Eval.Scoring.Work.{
  Host, Digests, fingerprint, fingerprint_id, UniqueWork, skip_direct, Collected, new_work,
  add_work, collect_stage, collect_stages, digests_of, collect, nothing,
}
use deepswe_eval_lab.Eval.Scoring.Work.Cover.{all_covered, collect-all_covered}

-- The key of a piece of work is the id of its fingerprint.
unfoldable pub IsKeyed : Host → Dict UniqueWork → Type 0
IsKeyed host [] = Unit
IsKeyed host ((id, work) ∷ rest) =
    (id ≡ fingerprint_id host work.fingerprint) × (work.fingerprint_id ≡ id) × IsKeyed host rest

-- No key stands twice, and each is the id of its work's fingerprint.
pub record IsUnique (host : Host) (works : Dict UniqueWork) : Type 0 where
  pub distinct : Dict.nodup works ≡ true
  pub keyed : IsKeyed host works

IsKeyed-insert :
    (host : Host) (id : String) (work : UniqueWork) (works : Dict UniqueWork)
    → id ≡ fingerprint_id host work.fingerprint
    → work.fingerprint_id ≡ id
    → IsKeyed host works
    → IsKeyed host (Dict.insert id work works)
unfolding IsKeyed Dict.insert
IsKeyed-insert host id work [] e f h = (e, f, tt)
IsKeyed-insert host id work ((j, w) ∷ rest) e f (a, b, c) = elim (Bool-cases (j == id)) [
  | inl g ↦ rw g (cc ((eq_iff j id).0 g, e), cc ((eq_iff j id).0 g, f), c)
  | inr g ↦ rw g (a, b, IsKeyed-insert host id work rest e f c)
]

add_work-IsUnique :
    (host : Host) (skip : Bool) (id : String) (work : UniqueWork) (works : Dict UniqueWork)
    → id ≡ fingerprint_id host work.fingerprint
    → work.fingerprint_id ≡ id
    → IsUnique host works
    → IsUnique host (add_work skip id work works)
unfolding add_work
add_work-IsUnique host skip id work works e f u =
    elim (Bool-cases (not (Dict.has id works) && not skip)) [
      | inl g ↦ rw g (record {
        distinct = Dict.nodup-insert id work works u.distinct;
        keyed = IsKeyed-insert host id work works e f u.keyed;
      })
      | inr g ↦ rw g u
    ]

module _ (host : Host) (reuse : Bool) (identity : Dict String) where
  collect_stages-IsUnique :
      (digests : Digests) (trial : TrialPatchSet) (stages : List StagePatch) (c : Collected)
      → IsUnique host c.works
      → IsUnique host (collect_stages host reuse identity digests trial stages c).works
  unfolding collect_stages collect_stage
  collect_stages-IsUnique digests trial [] c u = u
  collect_stages-IsUnique digests trial (s ∷ ss) c u =
      collect_stages-IsUnique digests trial ss (collect_stage host reuse identity digests trial s c)
        (add_work-IsUnique host (skip_direct reuse trial s)
          (fingerprint_id host (fingerprint identity digests trial s))
          (new_work trial s (fingerprint identity digests trial s)
            (fingerprint_id host (fingerprint identity digests trial s)))
          c.works refl refl u)

  collect-IsUnique :
      (trials : List TrialPatchSet) (c out : Collected)
      → collect host reuse identity trials c ≡ ok out
      → IsUnique host c.works
      → IsUnique host out.works
  unfolding collect
  collect-IsUnique [] c out e u = subst (λ o. IsUnique host o.works) {x = c} {y = out} (cc e) u
  collect-IsUnique (trial ∷ rest) c out e u =
      elim (Option-cases (host.directory (trial.task_dir <> "/tests"))) [
        | inl g ↦ cc
        | inr (files, g) ↦
            let next =
              collect_stages host reuse identity (digests_of host trial files) trial trial.stages
                c in
            collect-IsUnique rest next out (cc (g, e))
              (collect_stages-IsUnique (digests_of host trial files) trial trial.stages c u)
      ]

-- Nothing to do, to begin with.
nothing-IsUnique : (host : Host) → IsUnique host []
unfolding IsKeyed Dict.nodup
nothing-IsUnique host = record { distinct = refl; keyed = tt }

-- The work collected for a job has one piece for each fingerprint, under the id of that fingerprint, and
-- covers every stage of every trial, save a final stage that is not run because the score of its
-- evaluation is reused and no other stage has its patch.
pub collect-IsUnique_covered :
    (host : Host) (reuse : Bool) (identity : Dict String) (trials : List TrialPatchSet)
    (out : Collected)
    → collect host reuse identity trials nothing ≡ ok out
    → IsUnique host out.works × (all_covered host reuse identity trials out.works ≡ true)
collect-IsUnique_covered host reuse identity trials out e = (
  collect-IsUnique host reuse identity trials nothing out e (nothing-IsUnique host),
  collect-all_covered host reuse identity trials nothing out e,
)
