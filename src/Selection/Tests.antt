-- ===== src/Selection/Tests.antt =====
-- Runs of the selection at concrete inputs.
use deepswe_eval_lab.Base.{String, List, [], ◌∷◌, some}
use deepswe_eval_lab.Base.Rat
use deepswe_eval_lab.Selection.Layers.{TaskRow, Thresholds, apply_layers}
use deepswe_eval_lab.Selection.Nested.{IsNested, apply_layers-IsNested}

abbrev task : String → TaskRow
task id = record {
  task_id = id;
  model_coverage = Rat.of_nat 5;
  minimum_effective_repeats = Rat.of_nat 3;
  error_rate = Rat.of_nat 0;
  verifier_timeouts = Rat.of_nat 0;
  base_model_equal_pass_rate = Rat.of_nat 0;
  config_equal_pass_rate = Rat.of_nat 0;
  low_model_count = Rat.of_nat 1;
  high_model_count = Rat.of_nat 1;
  item_rest_correlation_config = some (Rat.of_nat 1);
}

abbrev thresholds : Thresholds
thresholds = record {
  minimum_model_coverage = Rat.of_nat 4;
  minimum_effective_repeats_per_config = Rat.of_nat 2;
  maximum_error_rate = Rat.of_nat 0;
  maximum_verifier_timeouts = Rat.of_nat 0;
  broad_difficulty_min = Rat.of_nat 0;
  broad_difficulty_max = Rat.of_nat 1;
  broad_minimum_low_models = Rat.of_nat 1;
  broad_minimum_high_models = Rat.of_nat 1;
  core_difficulty_min = Rat.of_nat 0;
  core_difficulty_max = Rat.of_nat 1;
  core_minimum_low_models = Rat.of_nat 2;
  core_minimum_high_models = Rat.of_nat 1;
  core_minimum_item_rest_correlation = Rat.of_nat 0;
}

abbrev two_tasks : List TaskRow
two_tasks = task "b" ∷ task "a" ∷ []

apply_layers-IsNested_example : IsNested two_tasks thresholds (apply_layers two_tasks thresholds)
apply_layers-IsNested_example = apply_layers-IsNested two_tasks thresholds
