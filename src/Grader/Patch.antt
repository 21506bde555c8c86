-- ===== src/Grader/Patch.antt =====
-- grader.py: the paths that a unified diff touches.
pub mod Paths
use deepswe_eval_lab.Base.{
  ℕ, String, Bool, true, false, ◌&&◌, ◌||◌, not, Option, none, some, List, [], ◌∷◌, ◌++◌, ◌==◌, eqb,
  mem, if◌then◌else◌,
}
use Prim.Native.Char.{code}
use deepswe_eval_lab.Base.Text.{splitlines, remove_prefix}

-- `"?`, which takes a quote if there is one.
abbrev skip_quote : String → String
skip_quote String.[] = ""
skip_quote (String.◌∷◌ c s) = if eqb (code c) b'"' then s else String.◌∷◌ c s

-- `(.*?)"?$`: the rest of the line, less one quote at its end.
drop_end_quote : String → String
drop_end_quote String.[] = ""
drop_end_quote (String.◌∷◌ c s) =
    let rest = drop_end_quote s in if eqb (code c) b'"' && s == "" then "" else String.◌∷◌ c rest

-- `"? (?:"?b/(.*?)"?)$` from here on.
abbrev second_path : String → Option String
second_path s = elim (remove_prefix " " (skip_quote s)) [
  | none ↦ none
  | some t ↦ elim (remove_prefix "b/" (skip_quote t)) [
    | none ↦ none
    | some rest ↦ some (drop_end_quote rest)
  ]
]

-- `(.*?)` of the first path, the shortest that the rest of the pattern follows.
after_first : String → Option String
unfolding remove_prefix drop_end_quote
after_first String.[] = none
after_first (String.◌∷◌ c s) = elim (second_path (String.◌∷◌ c s)) [
  | none ↦ after_first s
  | some p ↦ some p
]

-- `m.group(2)` of the match of a `diff --git` line.
unfoldable pub diff_path : String → Option String
unfolding remove_prefix after_first
diff_path line = elim (remove_prefix "diff --git " line) [
  | none ↦ none
  | some rest ↦ elim (remove_prefix "a/" (skip_quote rest)) [ none ↦ none | some s ↦ after_first s ]
]

abbrev or_line : Option String → String → String
or_line (some p) other = p
or_line none other = other

-- The path that a line names, and the empty text where it names none.
unfoldable pub path_of : String → String
unfolding diff_path remove_prefix
path_of line =
    or_line (diff_path line)
      (or_line (remove_prefix "+++ b/" line) (or_line (remove_prefix "--- a/" line) ""))

-- `path and path != '/dev/null'`
unfoldable pub is_path : String → Bool
is_path p = not (p == "") && not (p == "/dev/null")

-- The loop of `patch_paths`; `seen` and `out` hold the same paths.
unfoldable pub paths_loop : List String → List String → List String
paths_loop out [] = out
paths_loop out (line ∷ rest) =
    let path = path_of line in
    paths_loop (if is_path path && not (mem path out) then out ++ path ∷ [] else out) rest

unfoldable pub patch_paths : String → List String
patch_paths text = paths_loop [] (splitlines text)
