-- ===== src/Lib.antt =====
-- Verification library of the DeepSWE evaluation lab.
--
-- The program runs coding agents on tasks and grades their patches. Its graders, its launcher, the
-- scoring of its patches, the accounting of its tokens and a part of its task selection are modelled.
--
-- Grader: tests/grader.py of each task (113 equal copies; the lines are those of
-- tasks/abs-module-cache-flags/tests/grader.py). `prepare` installs the tests after the submitted
-- patch, `grade` reads the reports of the test runs and writes the reward. Grader/Status, Reports,
-- Score and Patch, Prepare hold the definitions: norm_status, add, parse_ctrf, parse_junit, load_ids,
-- stats, bucket, cmd_grade, patch_paths, reset_paths and cmd_prepare under the names of the source.
-- A report is given by what the JSON or XML reader returns, and git and the files of the container by
-- a record of answers. Grader/Merge, Order, Verdict, Limits, Messages, Whitelist, Patch/Paths and
-- Prepare/Effects hold the proofs.
--
-- Eval/Models, Profiles, Planning: wip/agent_eval/models.py, profiles.py and planning.py. A profile
-- file becomes a registry, a request becomes one plan. Errors are values, one constructor for each
-- check. Floats are exact rationals with a positive denominator: rounding is not modelled.
--
-- Eval/Launcher: wip/agent_eval/cli.py, tasks.py and pier_command.py. Evaluate is the subcommand
-- `eval`: Tasks chooses the tasks and their common timeout, JobName makes or checks the name of the
-- job, Planning makes the plan, Network lists the domains that the manifest records for it, Command
-- makes the command line of `pier run`, and Redact hides secrets in what is printed and recorded.
-- World holds what the launcher finds outside of it: files, the clock, git, the runtime image, pier.
-- The loop of _task_list_label runs on fuel, one more than the length of the label: each pass that finds two
-- dashes in a row makes the label shorter, so that the loop ends before the fuel does.
--
-- Eval/Discovery: wip/agent_eval/patch_discovery.py. A trial directory is given by its files. Layout
-- reads the rounds, Stages chains the patches into stages, Trial reads the two JSON files and makes a
-- TrialPatchSet, Scan has the checks and discover_trial_patches. A reason of a LayoutError is a
-- constructor; the other exceptions of Python that the code can raise are errors of their own.
--
-- Eval/Scoring: wip/agent_eval/patch_scoring.py, with the records of patch_discovery.py and
-- patch_verifier.py. Work gives each stage patch a fingerprint and collects one piece of work for each
-- fingerprint; Verify reuses stored results and runs the verifier, at most twice; Pairs compares the
-- first with the final score of a trial and each revision with its parent; Stats and Summary count the
-- pairs and set the exit code; Job is score_patch_job on what was discovered, and Run puts the choice
-- of the trial directories and their discovery before it.
-- Hashes, JSON printing, files and the verifier are parameters. The runs of the verifier share no
-- state, so their concurrent order is not part of the model.
--
-- Selection: wip/scripts/select_discriminative_tasks.py. Layers has apply_layers on rows of measures.
--
-- Usage: wip/scripts/token_usage.py. Reports checks the reports of a role and keeps what the accounting
-- reads of them; Values has the coverage and the sums; Account has _accounting with the coverage, the
-- details and the usage by model, and _aggregate. Costs are exact rationals.
--
-- Base holds the shared types and lemmas: errors as values (Results), dictionaries as association
-- lists (Dict), JSON values (Json), texts (Text), integers and rationals (Int, Rat), lists of native
-- length (Lists). Every other loop is structural recursion on its list or on the attempts that are
-- left, and uses no fuel.
--
-- Not modelled: logging and written files, the rows of the stages (their lookups of scores are) and the
-- tally of the verifier's errors, the bootstrap interval (random numbers), the parser of the
-- command line and the subcommands `runtime prepare` and `score-patches` around score_patch_job,
-- credentials and images (files of the user, Docker), the trials and the statistics of the token
-- report, the metrics and samples of the task selection, containers and external processes, and the
-- TypeScript runtime of the agents.
pub mod Base
pub mod Grader
pub mod Eval
pub mod Selection
pub mod Usage
