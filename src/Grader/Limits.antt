-- ===== src/Grader/Limits.antt =====
-- What every reward.json satisfies.
use deepswe_eval_lab.Base.{
  ◌≤◌, ◌<◌, String, ◌≡◌, ◌↔◌, true, false, Option, some, List, arith, mem, ok, value_returned,
  Bool-cases, inl, inr, all, length,
}
use deepswe_eval_lab.Base.Json.{Json}
use deepswe_eval_lab.Grader.Status.{Results}
use deepswe_eval_lab.Grader.Reports.{TestCase}
use deepswe_eval_lab.Grader.Score.{Config, Outcome, load_ids, stats, gather, conclude, cmd_grade}
use deepswe_eval_lab.Grader.Merge.{cases_of}
use deepswe_eval_lab.Grader.Verdict.{
  solved, bucket_counts, cases_at, known_format, reward_json-expected,
}

conclude_bounds :
    (cfg : Config) (seen : Results)
    → ((conclude cfg seen).reward_json.reward ≤ 1)
      × ((conclude cfg seen).reward_json.f2p_passed ≤ (conclude cfg seen).reward_json.f2p_total)
      × ((conclude cfg seen).reward_json.p2p_passed ≤ (conclude cfg seen).reward_json.p2p_total)
unfolding conclude
conclude_bounds cfg seen = ground (
  arith,
  bucket_counts seen (load_ids cfg.f2p_node_ids),
  bucket_counts seen (load_ids cfg.p2p_node_ids),
)

module _ (show : Json → String) (load_json : String → Option Json)
    (load_xml : String → Option (List TestCase)) where
  -- The reward is 1 exactly if the fail-to-pass list has an id and every id of both lists was
  -- reported, with every one of its cases passed.
  pub cmd_grade-reward_iff :
      (cfg : Config) (argv : List String) (reps : List String) (out : Outcome)
      → mem "--apply-failed" argv ≡ false
      → known_format cfg ≡ true
      → cfg.reports ≡ some reps
      → cmd_grade show load_json load_xml cfg argv ≡ ok out
      → let cs = cases_of (cases_at show load_json load_xml cfg) reps in
        (out.reward_json.reward ≡ 1) ↔ (
          (0 < length (load_ids cfg.f2p_node_ids))
          × (all (solved cs) (load_ids cfg.f2p_node_ids) ≡ true)
          × (all (solved cs) (load_ids cfg.p2p_node_ids) ≡ true))
  unfolding stats
  cmd_grade-reward_iff cfg argv reps out plain known e run =
      ground
        (arith, reward_json-expected show load_json load_xml cfg argv reps out plain known e run)

  -- Counts stay within the whitelists, and the reward is 0 or 1.
  pub cmd_grade_bounds :
      (cfg : Config) (argv : List String) (out : Outcome)
      → cmd_grade show load_json load_xml cfg argv ≡ ok out
      → (out.reward_json.reward ≤ 1)
        × (out.reward_json.f2p_passed ≤ out.reward_json.f2p_total)
        × (out.reward_json.p2p_passed ≤ out.reward_json.p2p_total)
  unfolding cmd_grade stats
  cmd_grade_bounds cfg argv out run = elim (Bool-cases (mem "--apply-failed" argv)) [
    | inl e ↦ ground arith
    | inr e ↦
        let (seen, p, q) =
          value_returned {next = λ seen. ok (conclude cfg seen)} {out = out}
            (gather show load_json load_xml cfg) (ground arith) in
        ground (arith, q, conclude_bounds cfg seen)
  ]
