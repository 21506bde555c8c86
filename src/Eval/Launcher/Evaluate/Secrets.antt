-- ===== src/Eval/Launcher/Evaluate/Secrets.antt =====
-- What the launcher prints and records does not depend on the secrets among the arguments.
use deepswe_eval_lab.Base.{
  ◌≡◌, refl, ap, String, Bool, true, false, Option, none, some, List, [], ◌∷◌, ◌++◌, if◌then◌else◌,
  mem, Result, ok, err, ◌>>=◌,
}
use deepswe_eval_lab.Eval.Launcher.Redact.{
  secret_env_flags, redact_assignment, redact_value, redact_loop, redact_args,
}
use deepswe_eval_lab.Eval.Launcher.Redact.Secrets.{DifferInSecrets, redact_args-DifferInSecrets}
use deepswe_eval_lab.Eval.Models.{ExecutionPlan}
use deepswe_eval_lab.Eval.Launcher.Command.{
  Printer, CommandArgs, include_tasks, plan_args, job_args, build_pier_command,
}
use deepswe_eval_lab.Eval.Launcher.Evaluate.{
  World, EvalArgs, EvalError, Prepared, RunManifest, Output, Launch, Run, without_dashes,
  command_args, command_of, selected, planned, launch_of, evaluate,
}

-- What others see of a launch: the output and the manifest, not the command that is run.
abbrev manifest_only : Option Run → Option RunManifest
manifest_only none = none
manifest_only (some r) = some r.manifest

abbrev pub shown_launch : Launch → Output × Option RunManifest
shown_launch l = (l.output, manifest_only l.run)

unfoldable pub shown : Result EvalError Launch → Result EvalError (Output × Option RunManifest)
shown (ok l) = ok (shown_launch l)
shown (err e) = err e

-- Two lists that are recorded as one whatever stands before them.
record Alike (xs ys : List String) : Type 0 where
  same : (b : Bool) → redact_loop b xs ≡ redact_loop b ys

cons-same :
    (x : String) {xs ys : List String}
    → Alike xs ys
    → (b : Bool) → redact_loop b (x ∷ xs) ≡ redact_loop b (x ∷ ys)
unfolding redact_loop
cons-same x h true = ap (λ l. redact_assignment x ∷ l) (h.same false)
cons-same x h false = rw (h.same true, h.same false) refl

cons-Alike : (x : String) {xs ys : List String} → Alike xs ys → Alike (x ∷ xs) (x ∷ ys)
cons-Alike x h = record { same = cons-same x h }

append-Alike : (p : List String) {xs ys : List String} → Alike xs ys → Alike (p ++ xs) (p ++ ys)
append-Alike [] h = h
append-Alike (x ∷ p) h = cons-Alike x (append-Alike p h)

plain-same :
    (x : String) (xs ys : List String)
    → mem x secret_env_flags ≡ false
    → DifferInSecrets false xs ys
    → (b : Bool) → redact_loop b (x ∷ xs) ≡ redact_loop b (x ∷ ys)
unfolding redact_loop redact_args
plain-same x xs ys m d true =
    ap (λ l. redact_assignment x ∷ l) (redact_args-DifferInSecrets xs ys d)
plain-same x xs ys m d false =
    rw m (ap (λ l. redact_value x ∷ l) (redact_args-DifferInSecrets xs ys d))

redact_args-build_pier_command :
    (print : Printer) (c : CommandArgs) (plan : ExecutionPlan) (xs ys : List String)
    → mem c.jobs_dir secret_env_flags ≡ false
    → DifferInSecrets false xs ys
    → redact_args (build_pier_command print (record c { extra_args = xs }) plan)
      ≡ redact_args (build_pier_command print (record c { extra_args = ys }) plan)
unfolding build_pier_command plan_args job_args redact_args
redact_args-build_pier_command print c plan xs ys m d =
    let tail : Alike (c.jobs_dir ∷ xs) (c.jobs_dir ∷ ys) = record {
      same = plain-same c.jobs_dir xs ys m d;
    } in
    let whole = append-Alike (c.pier_bin ∷ "run" ∷ "--path" ∷ c.tasks_dir ∷ []) (
      append-Alike (include_tasks c.task_names) (
        append-Alike (plan_args print c plan)
          (append-Alike ("--job-name" ∷ c.job_name ∷ "--jobs-dir" ∷ []) tail))) in
    whole.same false

redact_args-command_of :
    (w : World) (args : EvalArgs) (xs ys : List String) (p : Prepared)
    → mem (w.resolve_path args.jobs_dir) secret_env_flags ≡ false
    → DifferInSecrets false (without_dashes xs) (without_dashes ys)
    → redact_args (command_of w args xs p) ≡ redact_args (command_of w args ys p)
unfolding command_of
redact_args-command_of w args xs ys p m d =
    redact_args-build_pier_command w.print (command_args w args p []) p.plan (without_dashes xs)
      (without_dashes ys) m d

manifest_only-command :
    (dry : Bool) (m : RunManifest) (c d : List String)
    → manifest_only (if dry then none else some (record { manifest = m; command = c }))
      ≡ manifest_only (if dry then none else some (record { manifest = m; command = d }))
manifest_only-command true m c d = refl
manifest_only-command false m c d = refl

launch_of-shown :
    (w : World) (args : EvalArgs) (xs ys argv argv2 : List String) (p : Prepared)
    → mem (w.resolve_path args.jobs_dir) secret_env_flags ≡ false
    → DifferInSecrets false (without_dashes xs) (without_dashes ys)
    → DifferInSecrets false argv argv2
    → shown_launch (launch_of w args xs argv p) ≡ shown_launch (launch_of w args ys argv2 p)
launch_of-shown w args xs ys argv argv2 p m d a =
    rw (redact_args-command_of w args xs ys p m d, redact_args-DifferInSecrets argv argv2 a)
      (ap (λ r. ((launch_of w args ys argv2 p).output, r))
        (manifest_only-command args.dry_run _ (command_of w args xs p) (command_of w args ys p)))

shown-bind :
    (r : Result EvalError Prepared) (f g : Prepared → Launch)
    → ((p : Prepared) → shown_launch (f p) ≡ shown_launch (g p))
    → shown (r >>= λ p. ok (f p)) ≡ shown (r >>= λ p. ok (g p))
unfolding shown
shown-bind (ok p) f g h = ap ok (h p)
shown-bind (err e) f g h = refl

shown-bind_both :
    (t : Result EvalError (List String)) (q : List String → Result EvalError Prepared)
    (f g : Prepared → Launch)
    → ((p : Prepared) → shown_launch (f p) ≡ shown_launch (g p))
    → shown (t >>= λ tasks. (q tasks >>= λ p. ok (f p)))
      ≡ shown (t >>= λ tasks. (q tasks >>= λ p. ok (g p)))
unfolding shown
shown-bind_both (ok tasks) q f g h = shown-bind (q tasks) f g h
shown-bind_both (err e) q f g h = refl

-- Two runs of the launcher whose arguments differ in secrets alone print the same and write the same manifest, or fail
-- with the same error. It holds if the directory of the jobs, a resolved path, is not spelled like one of the flags.
pub evaluate-DifferInSecrets :
    (w : World) (args : EvalArgs) (xs ys argv argv2 : List String)
    → mem (w.resolve_path args.jobs_dir) secret_env_flags ≡ false
    → DifferInSecrets false (without_dashes xs) (without_dashes ys)
    → DifferInSecrets false argv argv2
    → shown (evaluate w args xs argv) ≡ shown (evaluate w args ys argv2)
unfolding evaluate
evaluate-DifferInSecrets w args xs ys argv argv2 m d a =
    shown-bind_both (selected w args) (planned w args) (launch_of w args xs argv)
      (launch_of w args ys argv2) (λ p. launch_of-shown w args xs ys argv argv2 p m d a)
