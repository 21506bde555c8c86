-- ===== src/Grader/Patch/Paths.antt =====
-- The list of touched paths: what is in it, and that nothing is in it twice.
use deepswe_eval_lab.Base.{
  String, ◌≡◌, refl, ap, true, not, ◌&&◌, ◌||◌, List, [], ◌∷◌, ◌++◌, arith, ◌==◌, eq_iff,
  if◌then◌else◌, map, mem, distinct, mem-append, distinct-snoc,
}
use deepswe_eval_lab.Base.Text.{splitlines}
use deepswe_eval_lab.Grader.Patch.{path_of, is_path, paths_loop, patch_paths}

is_path-same : (p q : String) → (q == p) ≡ true → is_path q ≡ is_path p
is_path-same p q h = ap is_path ((eq_iff q p).0 h)

mem-paths_loop :
    (p : String) (out lines : List String)
    → mem p (paths_loop out lines) ≡ (mem p out || (is_path p && mem p (map path_of lines)))
unfolding paths_loop
mem-paths_loop p out [] = ground arith
mem-paths_loop p out (line ∷ lines) =
    let q = path_of line in
    ground (
      arith,
      eq_iff q p,
      is_path-same p q,
      mem-paths_loop p out lines,
      mem-paths_loop p (out ++ q ∷ []) lines,
      mem-append p out (q ∷ []),
    )

-- A text is a touched path exactly if it is neither empty nor `/dev/null` and some line names it.
pub mem-patch_paths :
    (p text : String)
    → mem p (patch_paths text) ≡ (is_path p && mem p (map path_of (splitlines text)))
unfolding patch_paths
mem-patch_paths p text = mem-paths_loop p [] (splitlines text)

paths_loop-distinct :
    (out lines : List String) → distinct out ≡ true → distinct (paths_loop out lines) ≡ true
unfolding paths_loop
paths_loop-distinct out [] h = h
paths_loop-distinct out (line ∷ lines) h =
    let q = path_of line in
    paths_loop-distinct (if is_path q && not (mem q out) then out ++ q ∷ [] else out) lines
      (ground (arith, distinct-snoc out q))

-- No path is listed twice.
pub patch_paths-distinct : (text : String) → distinct (patch_paths text) ≡ true
unfolding patch_paths
patch_paths-distinct text = paths_loop-distinct [] (splitlines text) refl

quoted_test : path_of "diff --git \"a/x y\" \"b/x y\"" ≡ "x y"
unfolding path_of
quoted_test = refl

paths_test :
    patch_paths "diff --git a/f b/g\n--- a/f\n+++ b/g\n--- /dev/null\n+++ b/new\n"
    ≡ "g" ∷ "f" ∷ "new" ∷ []
unfolding patch_paths paths_loop path_of is_path splitlines
paths_test = refl
