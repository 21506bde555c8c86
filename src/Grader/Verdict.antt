-- ===== src/Grader/Verdict.antt =====
-- What reward.json says of the reports: `cmd_grade` against the raw test cases, with no merge.
use deepswe_eval_lab.Base.{
  ◌+◌, String, ◌≡◌, refl, ◌∙◌, ap, Bool, true, false, not, ◌&&◌, ◌||◌, Option, none, some, List, [],
  ◌∷◌, arith, ◌==◌, ltb, eqb, if◌then◌else◌, map, all, any, mem, count_if, length, fun_ext,
  all-count_if, ok, inl, inr, Bool-cases,
}
use deepswe_eval_lab.Base.Dict
use deepswe_eval_lab.Base.Json.{Json}
use deepswe_eval_lab.Grader.Status.{Status, is_passed, Results, Case}
use deepswe_eval_lab.Grader.Reports.{
  TestCase, ctrf_tests, ctrf_case, junit_tests, junit_case, parse_ctrf, parse_junit,
}
use deepswe_eval_lab.Grader.Score.{
  Config, Row, Bucket, Reward, Outcome, load_ids, stats, row_of, count_row, bucket_loop, bucket,
  merge_reports, parser, by_suite, format_name, gather, conclude, cmd_grade,
}
use deepswe_eval_lab.Grader.Merge.{
  status_at, worst, join_option, keep_some, add_cases, cases_of, status_at-merge_reports,
  ctrf_loop-eq-add_cases, junit_loop-eq-add_cases,
}

-- Some case of the id was reported, and every case of the id passed.
abbrev pub solved : List Case → String → Bool
solved cs k =
    any (λ (c : Case). c.node_id == k) cs
    && all (λ (c : Case). not (c.node_id == k) || is_passed c.status) cs

abbrev pub passes : Option Status → Bool
passes none = false
passes (some st) = is_passed st

passes-join :
    (a : Status) (b : Option Status)
    → passes (join_option (some a) b)
      ≡ (is_passed a && elim b [ none ↦ true | some s ↦ is_passed s ])
passes-join a none = ground arith
passes-join a (some b) = ground arith

not_none : Option Status → Bool
not_none none = false
not_none (some s) = true

reported-worst :
    (k : String) (cs : List Case) → any (λ (c : Case). c.node_id == k) cs ≡ not_none (worst k cs)
unfolding worst not_none
reported-worst k [] = refl
reported-worst k (c ∷ cs) = ground (arith, reported-worst k cs)

all-worst :
    (k : String) (cs : List Case)
    → all (λ (c : Case). not (c.node_id == k) || is_passed c.status) cs
      ≡ (not (not_none (worst k cs)) || passes (worst k cs))
unfolding worst not_none
all-worst k [] = refl
all-worst k (c ∷ cs) = ground (arith, all-worst k cs)

-- The worst status of an id is "passed" exactly when the id is solved.
pub passes-worst : (k : String) (cs : List Case) → passes (worst k cs) ≡ solved cs k
unfolding not_none
passes-worst k cs = ground (arith, reported-worst k cs, all-worst k cs)

row_passed :
    (seen : Results) (k : String)
    → is_passed (row_of k (Dict.get k seen)).status ≡ passes (status_at seen k)
row_passed seen k = ground arith

abbrev good : Results → String → Bool
good seen k = passes (status_at seen k)

abbrev names : List Row → List String
names = map (λ (r : Row). r.name)

bucket_loop_lem :
    (seen : Results) (b : Bucket) (ids : List String)
    → ((bucket_loop seen b ids).p ≡ b.p + count_if (good seen) ids)
      × ((bucket_loop seen b ids).p + (bucket_loop seen b ids).f ≡ b.p + b.f + length ids)
unfolding bucket_loop
bucket_loop_lem seen b [] = omega arith
bucket_loop_lem seen b (k ∷ ids) =
    ground (
      arith,
      row_passed seen k,
      bucket_loop_lem seen (count_row b (row_of k (Dict.get k seen))) ids,
    )

-- A bucket counts the ids whose merged status is "passed", and all the others as failed.
pub bucket_counts :
    (seen : Results) (ids : List String)
    → ((bucket seen ids).p ≡ count_if (good seen) ids)
      × ((bucket seen ids).p + (bucket seen ids).f ≡ length ids)
unfolding bucket
bucket_counts seen ids =
    omega (arith, bucket_loop_lem seen (record { p = 0; f = 0; rows = [] }) ids)

none_failed : (seen : Results) (ids : List String) → eqb (bucket seen ids).f 0 ≡ all (good seen) ids
none_failed seen ids = ground (arith, bucket_counts seen ids, all-count_if (good seen) ids)

-- reward.json as a function of the raw cases: an id passes if it is solved, and the reward is 1
-- exactly if there is a fail-to-pass id and all ids of both buckets are solved.
abbrev pub expected_by : Config → (String → Bool) → Reward
expected_by cfg good =
    let f2p = load_ids cfg.f2p_node_ids in
    let p2p = load_ids cfg.p2p_node_ids in
    stats f2p p2p (if ltb 0 (length f2p) && (all good f2p && all good p2p) then 1 else 0) false
      (count_if good f2p) (count_if good p2p)

abbrev pub expected : Config → List Case → Reward
expected cfg cs = expected_by cfg (solved cs)

conclude-reward :
    (cfg : Config) (seen : Results) (cs : List Case)
    → ((k : String) → status_at seen k ≡ worst k cs)
    → (conclude cfg seen).reward_json ≡ expected cfg cs
unfolding conclude
conclude-reward cfg seen cs h =
    let same : good seen ≡ solved cs = fun_ext (λ k. ap passes (h k) ∙ passes-worst k cs) in
    rw (
      none_failed seen (load_ids cfg.f2p_node_ids),
      none_failed seen (load_ids cfg.p2p_node_ids),
      (bucket_counts seen (load_ids cfg.f2p_node_ids)).0,
      (bucket_counts seen (load_ids cfg.p2p_node_ids)).0,
      same,
    )

-- A format that `PARSERS` has.
abbrev pub known_format : Config → Bool
known_format cfg = format_name cfg.format == "ctrf" || format_name cfg.format == "junit"

module _ (show : Json → String) (load_json : String → Option Json)
    (load_xml : String → Option (List TestCase)) where
  -- The cases that a report file holds.
  abbrev pub cases_at : Config → String → List Case
  cases_at cfg path =
      if format_name cfg.format == "ctrf"
      then keep_some (map (ctrf_case show (by_suite cfg.node_id)) (ctrf_tests (load_json path)))
      else keep_some (map junit_case (junit_tests (load_xml path)))

  parser_lem :
      (cfg : Config)
      → known_format cfg ≡ true
      → (parse : String → Results) × (parser show load_json load_xml cfg ≡ ok parse)
        × ((path : String) → parse path ≡ add_cases [] (cases_at cfg path))
  unfolding parser parse_ctrf parse_junit
  parser_lem cfg h = elim (Bool-cases (format_name cfg.format == "ctrf")) [
    | inl e ↦ rw e (
        (
          _,
          refl,
          λ path.
              ctrf_loop-eq-add_cases show (by_suite cfg.node_id) [] (ctrf_tests (load_json path)),
        ))
    | inr e ↦
        let junit : (format_name cfg.format == "junit") ≡ true = ground arith in
        rw (e, junit) ((_, refl, λ path. junit_loop-eq-add_cases [] (junit_tests (load_xml path))))
  ]

  gather_lem :
      (cfg : Config) (reps : List String)
      → known_format cfg ≡ true
      → cfg.reports ≡ some reps
      → (seen : Results) × (gather show load_json load_xml cfg ≡ ok seen)
        × ((k : String) → status_at seen k ≡ worst k (cases_of (cases_at cfg) reps))
  unfolding gather Dict.get
  gather_lem cfg reps h e =
      let (parse, p, q) = parser_lem cfg h in
      (
        merge_reports parse [] reps,
        rw (p, e),
        λ k. ground (arith, status_at-merge_reports parse (cases_at cfg) q [] reps k),
      )

  -- Unless patching failed, `cmd_grade` with a known format and a list of reports writes the
  -- reward.json that `expected` states of the raw cases of all the reports.
  pub cmd_grade-expected :
      (cfg : Config) (argv : List String) (reps : List String)
      → mem "--apply-failed" argv ≡ false
      → known_format cfg ≡ true
      → cfg.reports ≡ some reps
      → (out : Outcome) × (cmd_grade show load_json load_xml cfg argv ≡ ok out)
        × (out.reward_json ≡ expected cfg (cases_of (cases_at cfg) reps))
  unfolding cmd_grade
  cmd_grade-expected cfg argv reps plain known e =
      let (seen, p, q) = gather_lem cfg reps known e in
      (conclude cfg seen, rw (plain, p), conclude-reward cfg seen _ q)

  pub reward_json-expected :
      (cfg : Config) (argv : List String) (reps : List String) (out : Outcome)
      → mem "--apply-failed" argv ≡ false
      → known_format cfg ≡ true
      → cfg.reports ≡ some reps
      → cmd_grade show load_json load_xml cfg argv ≡ ok out
      → out.reward_json ≡ expected cfg (cases_of (cases_at cfg) reps)
  reward_json-expected cfg argv reps out plain known e run =
      let (out', p, q) = cmd_grade-expected cfg argv reps plain known e in ground (arith, p, q)
