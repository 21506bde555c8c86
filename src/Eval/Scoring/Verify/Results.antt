-- ===== src/Eval/Scoring/Verify/Results.antt =====
-- Each piece of work gets a result: one that was stored for the same fingerprint, or that of its runs.
use deepswe_eval_lab.Base.{
  ◌≤◌, ◌≡◌, refl, sym, subst, String, true, not, ◌&&◌, Option, none, some, List, [], ◌∷◌, ◌==◌,
  eq_iff, length, Bool-cases, inl, inr, arith,
}
use deepswe_eval_lab.Base.Dict
use deepswe_eval_lab.Base.Dict.{Dict}
use deepswe_eval_lab.Base.Json.{Json, Fields, obj}
use deepswe_eval_lab.Eval.Scoring.Work.{Host, UniqueWork}
use deepswe_eval_lab.Eval.Scoring.Verify.{
  is_reusable_fields, ResultDir, add_cached, scan_dirs, scan_cached_results, matches, resume,
  VerificationRequest, VerificationRecord, request_of, verify_loop, record_of, run_unique_work,
  run_pending, run_works,
}
use deepswe_eval_lab.Eval.Scoring.Verify.Runs.{IsRun, IsRun-length, verify_loop-IsRun}

-- Every entry can be reused for its key.
IsReusable : Dict Fields → Type 0
IsReusable cache =
    (id : String) (fs : Fields) → Dict.get id cache ≡ some fs → is_reusable_fields fs id ≡ true

insert-IsReusable :
    (name : String) (fs : Fields) (cache : Dict Fields)
    → is_reusable_fields fs name ≡ true
    → IsReusable cache
    → IsReusable (Dict.insert name fs cache)
unfolding IsReusable
insert-IsReusable name fs cache h u id gs e = elim (Bool-cases (name == id)) [
  | inl f ↦
      subst (λ i. is_reusable_fields gs i ≡ true) ((eq_iff name id).0 f)
        (subst (λ g. is_reusable_fields g name ≡ true)
          (ground (arith, Dict.get-insert id name fs cache)) h)
  | inr f ↦ u id gs (ground (arith, Dict.get-insert id name fs cache))
]

add_cached-IsReusable :
    (dir : ResultDir) (cache : Dict Fields) → IsReusable cache → IsReusable (add_cached dir cache)
unfolding add_cached
add_cached-IsReusable (name, some (obj fs)) cache u =
    elim (Bool-cases (is_reusable_fields fs name && not (Dict.has name cache))) [
      | inl e ↦ rw e (insert-IsReusable name fs cache (ground arith) u)
      | inr e ↦ rw e u
    ]
add_cached-IsReusable (name, none) cache u = u
add_cached-IsReusable (name, some _) cache u = u

scan_dirs-IsReusable :
    (dirs : List ResultDir) (cache : Dict Fields)
    → IsReusable cache
    → IsReusable (scan_dirs dirs cache)
unfolding scan_dirs
scan_dirs-IsReusable [] cache u = u
scan_dirs-IsReusable (dir ∷ rest) cache u =
    scan_dirs-IsReusable rest (add_cached dir cache) (add_cached-IsReusable dir cache u)

scan_cached_results-IsReusable :
    (dirs : List (List ResultDir)) (cache : Dict Fields)
    → IsReusable cache
    → IsReusable (scan_cached_results dirs cache)
unfolding scan_cached_results
scan_cached_results-IsReusable [] cache u = u
scan_cached_results-IsReusable (ds ∷ rest) cache u =
    scan_cached_results-IsReusable rest (scan_dirs ds cache) (scan_dirs-IsReusable ds cache u)

nil-IsReusable : IsReusable []
unfolding IsReusable Dict.get
nil-IsReusable id fs e = cc

cached-reusable :
    (cache : Dict Fields) (id : String)
    → IsReusable cache
    → (fs : Fields) → Dict.get id cache ≡ some fs
    → is_reusable_fields fs id ≡ true
unfolding IsReusable
cached-reusable cache id u fs e = u id fs e

module _ (host : Host) (verify_patch : VerificationRequest → VerificationRecord) (now : String)
    (identity : Dict String) where
  -- How a piece of work was scored.
  pub data IsScored (id : String) (work : UniqueWork) : UniqueWork → Type 0 where
    reused :
        (fs : Fields)
        → is_reusable_fields fs id ≡ true
        → matches fs work.fingerprint ≡ true
        → IsScored id work (record work { result = some fs; cached = true })
    verified :
        (attempts : List Json) (out : VerificationRecord)
        → length attempts ≤ 2
        → IsRun (λ n. verify_patch (request_of host work n)) 1 1 attempts out
        → IsScored id work
            (record work { result = some (record_of now identity work out attempts) })

  run_unique_work-IsScored :
      (id : String) (work : UniqueWork)
      → IsScored id work (run_unique_work host verify_patch now identity work)
  unfolding run_unique_work
  run_unique_work-IsScored id work =
      let (attempts, e, r) =
        verify_loop-IsRun (λ n. verify_patch (request_of host work n)) 1 1 [] in
      let out = verify_loop (λ n. verify_patch (request_of host work n)) 1 1 [] in
      subst
        (λ list.
          IsScored id work (record work { result = some (record_of now identity work out.0 list) }))
        (sym e) (verified attempts out.0 (IsRun-length r) r)

  run_pending-IsScored :
      (id : String) (work : UniqueWork) (hit : Option Fields)
      → ((fs : Fields) → hit ≡ some fs → is_reusable_fields fs id ≡ true)
      → IsScored id work (run_pending host verify_patch now identity work (resume hit work))
  unfolding run_pending resume
  run_pending-IsScored id work none u = run_unique_work-IsScored id work
  run_pending-IsScored id work (some fs) u = elim (Bool-cases (matches fs work.fingerprint)) [
    | inl f ↦ rw f (reused fs (u fs refl) f)
    | inr f ↦ rw f (run_unique_work-IsScored id work)
  ]

  get-run_works :
      (cache : Dict Fields) (works : Dict UniqueWork) (id : String) (work : UniqueWork)
      → Dict.get id works ≡ some work
      → Dict.get id (run_works host verify_patch now identity cache works)
        ≡ some (run_pending host verify_patch now identity work (resume (Dict.get id cache) work))
  unfolding run_works Dict.get
  get-run_works cache [] id work e = cc
  get-run_works cache ((j, w) ∷ rest) id work e = elim (Bool-cases (j == id)) [
    | inl f ↦
        let p = (eq_iff j id).0 f in let q : some w ≡ some work = ground arith in rw f (cc (p, q))
    | inr f ↦ rw f (get-run_works cache rest id work (cc (f, e)))
  ]

-- Every piece of work gets a result: a stored one that counts as a success with a numeric reward for the
-- same id and the same fingerprint, or the record of at most two runs of the verifier, of which the
-- second follows only a failure that can be retried.
pub run_works-IsScored :
    (host : Host) (verify_patch : VerificationRequest → VerificationRecord) (now : String)
    (identity : Dict String) (dirs : List (List ResultDir)) (works : Dict UniqueWork) (id : String)
    (work : UniqueWork)
    → Dict.get id works ≡ some work
    → (out : UniqueWork) × (Dict.get id
          (run_works host verify_patch now identity (scan_cached_results dirs []) works)
        ≡ some out)
      × IsScored host verify_patch now identity id work out
run_works-IsScored host verify_patch now identity dirs works id work e =
    let cache = scan_cached_results dirs [] in
    (
      run_pending host verify_patch now identity work (resume (Dict.get id cache) work),
      get-run_works host verify_patch now identity cache works id work e,
      run_pending-IsScored host verify_patch now identity id work (Dict.get id cache)
          (cached-reusable cache id (scan_cached_results-IsReusable dirs [] nil-IsReusable)),
    )
