-- ===== src/Grader/Whitelist.antt =====
-- The whitelists that `load_ids` reads: no id twice, none empty, and every stripped line once.
use deepswe_eval_lab.Base.{
  String, ◌≡◌, refl, true, not, ◌&&◌, ◌||◌, List, [], ◌∷◌, ◌++◌, arith, ◌==◌, eq_iff, if◌then◌else◌,
  map, mem, distinct, mem-append, distinct-snoc,
}
use deepswe_eval_lab.Base.Text.{strip}
use deepswe_eval_lab.Grader.Score.{ids_loop, load_ids}

mem-ids_loop :
    (k : String) (ids lines : List String)
    → mem k (ids_loop ids lines) ≡ (mem k ids || (not (k == "") && mem k (map strip lines)))
unfolding ids_loop
mem-ids_loop k ids [] = ground arith
mem-ids_loop k ids (line ∷ lines) =
    let s = strip line in
    ground (
      arith,
      eq_iff s k,
      eq_iff k "",
      eq_iff s "",
      mem-ids_loop k ids lines,
      mem-ids_loop k (ids ++ s ∷ []) lines,
      mem-append k ids (s ∷ []),
    )

-- A text is an id of a whitelist exactly if it is not empty and some line of the config strips to it.
pub mem-load_ids :
    (k : String) (lines : List String)
    → mem k (load_ids lines) ≡ (not (k == "") && mem k (map strip lines))
unfolding load_ids
mem-load_ids k lines = ground (arith, mem-ids_loop k [] lines)

ids_loop-distinct :
    (ids lines : List String) → distinct ids ≡ true → distinct (ids_loop ids lines) ≡ true
unfolding ids_loop
ids_loop-distinct ids [] h = h
ids_loop-distinct ids (line ∷ lines) h =
    let s = strip line in
    ids_loop-distinct (if s == "" || mem s ids then ids else ids ++ s ∷ []) lines
      (ground (arith, distinct-snoc ids s))

-- No id is listed twice, however often the config repeats it.
pub load_ids-distinct : (lines : List String) → distinct (load_ids lines) ≡ true
unfolding load_ids
load_ids-distinct lines = ids_loop-distinct [] lines refl
