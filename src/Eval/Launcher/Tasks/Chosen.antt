-- ===== src/Eval/Launcher/Tasks/Chosen.antt =====
-- The tasks of a job: each named once, checked, and those that were asked for.
use deepswe_eval_lab.Base.{
  String, ◌≡◌, refl, subst, Bool, true, false, not, ◌&&◌, ◌||◌, Option, List, [], ◌∷◌, ◌++◌, eq_iff,
  if◌then◌else◌, arith, mem, all, is_empty, distinct, mem-append, distinct-snoc, Result, ok, err,
  after_bind, after_check, ◌∙◌,
}
use deepswe_eval_lab.Eval.Launcher.Tasks.{
  TaskSelectionError, invalid_name, not_a_task, no_tasks, safe_task_name, read_task_list,
  extend_names, from_keys, check_names, resolve_tasks,
}

mem-from_keys :
    (k : String) (out names : List String)
    → mem k (from_keys out names) ≡ (mem k out || mem k names)
unfolding from_keys
mem-from_keys k out [] = ground arith
mem-from_keys k out (name ∷ names) = ground (
  arith,
  eq_iff name k,
  mem-append k out (name ∷ []),
  mem-from_keys k out names,
  mem-from_keys k (out ++ name ∷ []) names,
)

from_keys-distinct :
    (out names : List String) → distinct out ≡ true → distinct (from_keys out names) ≡ true
unfolding from_keys
from_keys-distinct out [] h = h
from_keys-distinct out (name ∷ names) h =
    from_keys-distinct (if mem name out then out else out ++ name ∷ []) names
      (ground (arith, distinct-snoc out name))

check_names-all :
    (has_task : String → Bool) (names : List String) {u : Unit {0}}
    → check_names has_task names ≡ ok u
    → all (λ name. safe_task_name name && has_task name) names ≡ true
unfolding check_names
check_names-all has_task [] h = refl
check_names-all has_task (name ∷ names) h =
    after_check (not (safe_task_name name)) (invalid_name name) h λ a h.
      after_check (not (has_task name)) (not_a_task name) h
        λ b h. ground (arith, check_names-all has_task names h)

-- Whether one of the lists, where it can be read, has the name.
pub listed : (String → Result TaskSelectionError (List String)) → String → List String → Bool
listed read k [] = false
listed read k (path ∷ paths) =
    elim (read path) [ err e ↦ false | ok names ↦ mem k names ] || listed read k paths

extend_names-mem :
    (lines_of : String → Option (List String)) (k : String) (names paths : List String)
    {out : List String}
    → extend_names lines_of names paths ≡ ok out
    → mem k out ≡ (mem k names || listed (read_task_list lines_of) k paths)
unfolding extend_names listed
extend_names-mem lines_of k names [] {out} h =
    subst (λ l. mem k l ≡ (mem k names || false)) {x = names} {y = out} (cc h) (ground arith)
extend_names-mem lines_of k names (path ∷ paths) h =
    after_bind (read_task_list lines_of path) h λ entries e h'. rw e (
      ground (
        arith,
        extend_names-mem lines_of k (names ++ entries) paths h',
        mem-append k names entries,
      ))

-- The tasks of a job that was asked for the tasks `explicit` and for the lists `task_lists`.
pub record IsSelection (lines_of : String → Option (List String)) (has_task : String → Bool)
    (explicit task_lists names : List String) : Type 0 where
  pub once : distinct names ≡ true
  pub some_task : is_empty names ≡ false
  pub checked : all (λ name. safe_task_name name && has_task name) names ≡ true
  pub asked :
      (name : String)
      → mem name names ≡ (mem name explicit || listed (read_task_list lines_of) name task_lists)

-- The tasks that a job runs on are those that the command line names or a task list has, each of them once; there is
-- at least one, every name is a safe one, and each has a `task.toml`.
pub resolve_tasks-IsSelection :
    (lines_of : String → Option (List String)) (has_task : String → Bool)
    (explicit task_lists names : List String)
    → resolve_tasks lines_of has_task explicit task_lists ≡ ok names
    → IsSelection lines_of has_task explicit task_lists names
unfolding resolve_tasks
resolve_tasks-IsSelection lines_of has_task explicit task_lists names h =
    after_bind (extend_names lines_of explicit task_lists) h λ all_names e h'.
      after_check (is_empty (from_keys [] all_names)) no_tasks h' λ a h'.
        after_bind (check_names has_task (from_keys [] all_names)) h' λ u c h'.
          subst (IsSelection lines_of has_task explicit task_lists) {x = from_keys [] all_names}
            {y = names} (cc h')
            (record {
              once = from_keys-distinct [] all_names refl;
              some_task = a;
              checked = check_names-all has_task (from_keys [] all_names) c;
              asked = λ name.
                  mem-from_keys name [] all_names
                  ∙ extend_names-mem lines_of name explicit task_lists e;
            })
