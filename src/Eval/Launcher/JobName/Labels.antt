-- ===== src/Eval/Launcher/JobName/Labels.antt =====
-- The labels of task lists, and the lengths of what makes up a name.
use Prim.Native.Char.{code}
use text.Mathlib.TextLemmas.{nil-append, cons-append}
use deepswe_eval_lab.Base.{
  ℕ, zero, suc, ◌+◌, ◌≤◌, ◌<◌, ◌≡◌, refl, String, ◌<>◌, Bool, true, false, ◌&&◌, some, ◌==◌, eqb,
  arith, Bool-cases, inl, inr,
}
use deepswe_eval_lab.Eval.Launcher.JobName.{
  char_count, take_chars, is_separator, rstrip_separators, strip_separators, replace_dashes,
  has_double_dash, collapse, safe_job_component, task_list_label,
}

pub char_count-append : (s t : String) → char_count (s <> t) ≡ char_count s + char_count t
unfolding char_count
char_count-append String.[] t = rw (nil-append t) (omega arith)
char_count-append (String.◌∷◌ c s) t = rw (cons-append c s t) (omega (arith, char_count-append s t))

pub char_count-take_chars : (n : ℕ) (s : String) → char_count (take_chars n s) ≤ n
unfolding char_count take_chars
char_count-take_chars zero s = omega arith
char_count-take_chars (suc n) String.[] = omega arith
char_count-take_chars (suc n) (String.◌∷◌ c s) = omega (arith, char_count-take_chars n s)

pub char_count-rstrip_separators : (s : String) → char_count (rstrip_separators s) ≤ char_count s
unfolding char_count rstrip_separators
char_count-rstrip_separators String.[] = omega arith
char_count-rstrip_separators (String.◌∷◌ c s) =
    elim (Bool-cases (is_separator (code c) && rstrip_separators s == "")) [
      | inl e ↦ rw e (omega arith)
      | inr e ↦ rw e (omega (arith, char_count-rstrip_separators s))
    ]

abbrev pending : Bool → ℕ
pending true = 1
pending false = 0

char_count-replace_dashes :
    (dash : Bool) (s : String) → char_count (replace_dashes dash s) ≤ char_count s + pending dash
unfolding char_count replace_dashes
char_count-replace_dashes true String.[] = omega arith
char_count-replace_dashes false String.[] = omega arith
char_count-replace_dashes true (String.◌∷◌ c s) = elim (Bool-cases (eqb (code c) 45)) [
  | inl e ↦ rw e (omega (arith, char_count-replace_dashes false s))
  | inr e ↦ rw e (omega (arith, char_count-replace_dashes false s))
]
char_count-replace_dashes false (String.◌∷◌ c s) = elim (Bool-cases (eqb (code c) 45)) [
  | inl e ↦ rw e (omega (arith, char_count-replace_dashes true s))
  | inr e ↦ rw e (omega (arith, char_count-replace_dashes false s))
]

-- A pass over a text with two dashes in a row makes it shorter.
replace_dashes-shorter :
    (dash : Bool) (s : String)
    → has_double_dash dash s ≡ true
    → char_count (replace_dashes dash s) < char_count s + pending dash
unfolding char_count replace_dashes has_double_dash
replace_dashes-shorter dash String.[] h = cc
replace_dashes-shorter true (String.◌∷◌ c s) h = elim (Bool-cases (eqb (code c) 45)) [
  | inl e ↦ rw e (omega (arith, char_count-replace_dashes false s))
  | inr e ↦ rw e (omega (arith, replace_dashes-shorter false s (cc (e, h))))
]
replace_dashes-shorter false (String.◌∷◌ c s) h = elim (Bool-cases (eqb (code c) 45)) [
  | inl e ↦ rw e (omega (arith, replace_dashes-shorter true s (cc (e, h))))
  | inr e ↦ rw e (omega (arith, replace_dashes-shorter false s (cc (e, h))))
]

-- The loop ends, since each pass makes the label shorter, and leaves no two dashes in a row.
collapse_total :
    (fuel : ℕ) (label : String)
    → char_count label < fuel
    → (out : String) × (collapse fuel label ≡ some out) × (has_double_dash false out ≡ false)
unfolding collapse
collapse_total zero label h = elim h [ ]
collapse_total (suc fuel) label h = elim (Bool-cases (has_double_dash false label)) [
  | inl e ↦ rw e (
      collapse_total fuel (replace_dashes false label)
        (omega (arith, h, replace_dashes-shorter false label e)))
  | inr e ↦ rw e (label, refl, e)
]

-- The label of a task list is found for every file name, is not empty, and has no two dashes in a row.
pub task_list_label_total :
    (is_alnum : ℕ → Bool) (stem : String)
    → (label : String) × (task_list_label is_alnum stem ≡ some label)
      × (has_double_dash false label ≡ false)
      × ((label == "") ≡ false)
unfolding task_list_label has_double_dash
task_list_label_total is_alnum stem =
    let (out, e, f) =
      collapse_total (suc (char_count (strip_separators (safe_job_component is_alnum stem))))
        (strip_separators (safe_job_component is_alnum stem)) (omega arith) in
    elim (Bool-cases (out == "")) [
      | inl g ↦ ("task-list", ground (arith, e), refl, refl)
      | inr g ↦ (out, ground (arith, e), f, g)
    ]
