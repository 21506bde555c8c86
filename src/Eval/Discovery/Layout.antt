-- ===== src/Eval/Discovery/Layout.antt =====
-- agent_eval/patch_discovery.py: the files of a trial directory, and its rounds.
use Prim.Native.Char.{code}
use Prim.Native.String.{String}
use deepswe_eval_lab.Base.{
  ℕ, ◌+◌, ◌*◌, ◌<>◌, Bool, false, not, ◌||◌, Option, none, some, List, [], ◌∷◌, ◌++◌, ◌==◌,
  if◌then◌else◌, leb, eqb,
}
use deepswe_eval_lab.Base.Json
use deepswe_eval_lab.Base.Json.{Json, Fields, null, str, arr, obj, to_list}

-- A check of the layout that failed, with what its message names.
pub data Reason : Type 0 where
  missing unreadable not_an_object : String → Reason
  no_config not_collab no_task_checksum no_result no_base_commit no_counts no_rounds : Reason
  task_unavailable : Reason
  escapes unrecognized_round : String → Reason
  not_starting_with_modify rounds_without_checkpoint patch_without_checkpoint no_review_rounds :
      Reason
  no_metadata not_terminal unexpected_role no_patch : String → Reason
  inconsistent_reviews inconsistent_revisions several_interrupted unsupported_outcome : Reason
  not_the_submission final_empty too_many_changes : Reason

-- A file that should hold JSON.
pub data JsonFile : Type 0 where
  absent malformed : JsonFile
  loaded : Json → JsonFile

-- A patch file: its size and its digest.
pub record PatchFile : Type 0 where
  pub size : ℕ
  pub sha256 : String

-- Where a path inside the trial leads: outside, to nothing, or to a file.
pub data SafeChild : Type 0 where
  outside no_file : SafeChild
  file : PatchFile → SafeChild

-- An entry of the directory of rounds.
pub record RoundDir : Type 0 where
  pub name : String
  pub is_dir : Bool
  pub metadata : JsonFile
  pub patch : Option PatchFile

-- A trial directory, resolved. `rounds` are in the order of their names; `none` is no directory.
pub record TrialDir : Type 0 where
  pub path : String
  pub name : String
  pub result : JsonFile
  pub summary : JsonFile
  pub rounds : Option (List RoundDir)
  pub final : SafeChild
  pub model : SafeChild

unfoldable pub load_json : String → JsonFile → List Reason × Option Fields
load_json name absent = (missing name ∷ [], none)
load_json name malformed = (unreadable name ∷ [], none)
load_json name (loaded (obj fs)) = ([], some fs)
load_json name (loaded _) = (not_an_object name ∷ [], none)

pub record Entry : Type 0 where
  pub number : ℕ
  pub kind : String
  pub dir : RoundDir

-- The end of `_ROUND_DIR`: `$` also stands before a final line break.
abbrev kind_is : String → String → Bool
kind_is kind s = s == kind || s == kind <> "\n"

unfoldable pub round_kind : String → Option String
round_kind s =
    if kind_is "modify" s
    then some "modify"
    else if kind_is "review" s
    then some "review"
    else if kind_is "revise" s
    then some "revise"
    else if kind_is "final-revision" s
    then some "final-revision"
    else none

-- `digit` gives the value of a character that `\d` matches.
module _ (digit : ℕ → Option ℕ) where
  abbrev two_digits : ℕ → ℕ → Option ℕ
  two_digits c d = elim (digit c) [
    | none ↦ none
    | some tens ↦ elim (digit d) [ none ↦ none | some ones ↦ some (tens * 10 + ones) ]
  ]

  -- `_ROUND_DIR.match(name)`: its number and its kind.
  unfoldable pub round_name : String → Option (ℕ × String)
  round_name (String.◌∷◌ c (String.◌∷◌ d (String.◌∷◌ dash rest))) =
      if eqb (code dash) 45
      then elim (two_digits (code c) (code d)) [
        | none ↦ none
        | some n ↦ elim (round_kind rest) [ none ↦ none | some kind ↦ some (n, kind) ]
      ]
      else none
  round_name _ = none

  -- The loop over the directory: reasons and entries, in its order.
  unfoldable pub entries_loop : List RoundDir → List Reason × List Entry
  entries_loop [] = ([], [])
  entries_loop (child ∷ rest) =
      let (reasons, entries) = entries_loop rest in
      if not child.is_dir then (reasons, entries) else elim (round_name child.name) [
        | none ↦ (unrecognized_round child.name ∷ reasons, entries)
        | some (n, kind) ↦ (reasons, record { number = n; kind = kind; dir = child } ∷ entries)
      ]

-- `entries.sort(key=lambda item: item[0])`
unfoldable pub insert_entry : Entry → List Entry → List Entry
insert_entry e [] = e ∷ []
insert_entry e (f ∷ rest) =
    let tail = insert_entry e rest in if leb e.number f.number then e ∷ f ∷ rest else f ∷ tail

unfoldable pub sort_entries : List Entry → List Entry
sort_entries [] = []
sort_entries (e ∷ rest) = insert_entry e (sort_entries rest)

abbrev start_reasons : List Entry → List Reason
start_reasons [] = []
start_reasons (e ∷ rest) =
    if not (eqb e.number 0) || not (e.kind == "modify") then not_starting_with_modify ∷ [] else []

abbrev sorted_result : List Reason → List Entry → List Reason × List Entry
sorted_result reasons entries = (reasons ++ start_reasons entries, entries)

unfoldable pub round_entries : (ℕ → Option ℕ) → Option (List RoundDir) → List Reason × List Entry
round_entries digit none = (no_rounds ∷ [], [])
round_entries digit (some children) =
    let (reasons, entries) = entries_loop digit children in
    sorted_result reasons (sort_entries entries)

-- `x == s`, for a text `s`.
abbrev pub text_is : String → Json → Bool
text_is s (str t) = t == s
text_is s _ = false

abbrev role_is : String → Json → Bool
role_is role (obj fs) = text_is role (Json.get "role" fs)
role_is role _ = false

-- `_round_role(dir) == role`
unfoldable pub has_role : String → RoundDir → Bool
has_role role dir = elim dir.metadata [ loaded v ↦ role_is role v | _ ↦ false ]

abbrev success : Json → Bool
success (obj last) = text_is "success" (Json.get "status" last)
success _ = false

abbrev last_succeeded : List Json → Bool
last_succeeded [] = false
last_succeeded (a ∷ []) = success a
last_succeeded (a ∷ b ∷ rest) = last_succeeded (b ∷ rest)

abbrev attempts_succeeded : Json → Bool
attempts_succeeded (arr xs) = last_succeeded (to_list xs)
attempts_succeeded _ = false

abbrev value_succeeded : Json → Bool
value_succeeded (obj fs) = attempts_succeeded (Json.get "attempts" fs)
value_succeeded _ = false

-- `_round_succeeded`
unfoldable pub round_succeeded : RoundDir → Bool
round_succeeded dir = elim dir.metadata [ loaded v ↦ value_succeeded v | _ ↦ false ]
