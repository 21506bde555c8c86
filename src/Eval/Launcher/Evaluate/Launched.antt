-- ===== src/Eval/Launcher/Evaluate/Launched.antt =====
-- What holds of a launch.
use deepswe_eval_lab.Base.{
  ◌≤◌, ◌≡◌, String, true, false, not, ◌&&◌, ◌||◌, some, ◌==◌, if◌then◌else◌, mem, map, ok,
}
use deepswe_eval_lab.Base.Int.{pos, ltb_ℤ}
use deepswe_eval_lab.Base.Rat
use deepswe_eval_lab.Base.Rat.{Rat}
use deepswe_eval_lab.Eval.Planning.{present}
use deepswe_eval_lab.Eval.Planning.Sound.{IsSound}
use deepswe_eval_lab.Eval.Launcher.Tasks.{agent_timeout}
use deepswe_eval_lab.Eval.Launcher.Tasks.Chosen.{IsSelection}
use deepswe_eval_lab.Eval.Launcher.JobName.{char_count, validate_explicit_job_name}
use deepswe_eval_lab.Eval.Launcher.JobName.Valid.{all_safe}
use deepswe_eval_lab.Eval.Launcher.Evaluate.{
  World, EvalArgs, request_of, require_plan_credentials, has_task, toml_of, Prepared, planned,
}

-- The clock and the digest write only what may stand in a name, and the time is not too short or long.
pub record IsClocked (w : World) : Type 0 where
  pub digest : (base : String) → all_safe w.is_alnum (w.hexdigest base) ≡ true
  pub time : all_safe w.is_alnum w.timestamp ≡ true
  pub long : 2 ≤ char_count w.timestamp
  pub short : char_count w.timestamp ≤ 100

-- What was prepared for a launch.
pub record IsPrepared (w : World) (args : EvalArgs) (p : Prepared) : Type 0 where
  pub tasks :
      IsSelection w.lines_of
        (has_task w (w.resolve_path args.tasks_dir))
        args.task
        (map w.resolve_path args.task_list)
        p.tasks
  pub planned : IsSound (request_of args p.timeout p.spec) p.plan
  pub timeouts :
      (name : String)
      → mem name p.tasks ≡ true
      → (t : Rat) × (agent_timeout (toml_of w (w.resolve_path args.tasks_dir) name) ≡ some t)
        × (Rat.eq t p.timeout ≡ true)
        × (Rat.lt (Rat.of_nat 0) t ≡ true)
  pub spec : w.runtime_spec args.runtime_image args.runtime_platform ≡ ok p.spec
  pub reviews : (not (args.agent == "collab") && present args.max_reviews) ≡ false
  pub attempts : (ltb_ℤ args.n_attempts (pos 1) || ltb_ℤ args.n_concurrent (pos 1)) ≡ false
  pub credentials : (if args.dry_run then ok tt else require_plan_credentials w p.plan) ≡ ok tt
  pub status :
      (if args.dry_run
        then w.inspect p.spec
        else w.prepare (args.rebuild_runtime || args.rebuild) p.spec)
      ≡ ok p.status
  pub named : validate_explicit_job_name w.is_alnum p.job_name ≡ ok tt
