-- ===== src/Eval/Scoring/Verify/Runs.antt =====
-- The runs of the verifier on one patch.
use deepswe_eval_lab.Base.{
  ℕ, zero, suc, ◌≤◌, ◌≡◌, refl, ◌∙◌, true, false, List, [], ◌∷◌, ◌++◌, append_assoc, length,
  Bool-cases, inl, inr, arith,
}
use deepswe_eval_lab.Base.Json.{Json}
use deepswe_eval_lab.Eval.Scoring.Verify.{VerificationRecord, attempt_of, is_final, verify_loop}

-- Runs from an attempt on, with so many left after it: the attempts that are recorded and the record of
-- the last one. Only an attempt that failed and can be retried is followed by another.
pub data IsRun (verify : ℕ → VerificationRecord)
    : ℕ → ℕ → List Json → VerificationRecord → Type 0 where
  last : (a : ℕ) → IsRun verify a 0 (attempt_of a (verify a) ∷ []) (verify a)
  stop :
      (a left : ℕ)
      → is_final (verify a) ≡ true
      → IsRun verify a (suc left) (attempt_of a (verify a) ∷ []) (verify a)
  again :
      (a left : ℕ) {attempts : List Json} {out : VerificationRecord}
      → is_final (verify a) ≡ false
      → IsRun verify (suc a) left attempts out
      → IsRun verify a (suc left) (attempt_of a (verify a) ∷ attempts) out

-- No more attempts are made than the limit.
pub IsRun-length :
    {verify : ℕ → VerificationRecord} {a left : ℕ} {attempts : List Json} {out : VerificationRecord}
    → IsRun verify a left attempts out
    → length attempts ≤ suc left
IsRun-length (last a) = omega arith
IsRun-length (stop a left h) = omega arith
IsRun-length (again a left h r) = omega (arith, IsRun-length r)

-- The loop makes such runs, and records them after what it has seen.
pub verify_loop-IsRun :
    (verify : ℕ → VerificationRecord) (a left : ℕ) (seen : List Json)
    → (attempts : List Json) × ((verify_loop verify a left seen).1 ≡ seen ++ attempts)
      × IsRun verify a left attempts (verify_loop verify a left seen).0
unfolding verify_loop
verify_loop-IsRun verify a zero seen = (attempt_of a (verify a) ∷ [], refl, last a)
verify_loop-IsRun verify a (suc left) seen = elim (Bool-cases (is_final (verify a))) [
  | inl e ↦ rw e (attempt_of a (verify a) ∷ [], refl, stop a left e)
  | inr e ↦
      let (attempts, f, r) =
        verify_loop-IsRun verify (suc a) left (seen ++ attempt_of a (verify a) ∷ []) in
      rw e (
        attempt_of a (verify a) ∷ attempts,
        f ∙ append_assoc seen (attempt_of a (verify a) ∷ []) attempts,
        again a left e r,
      )
]
