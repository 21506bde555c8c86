-- ===== src/Selection/Layers.antt =====
-- scripts/select_discriminative_tasks.py: the layers of tasks.
use Prim.Native.Nat.{Ordering}
use Prim.Native.String.{compare}
use deepswe_eval_lab.Base.{
  String, Bool, true, false, not, ◌&&◌, Option, none, some, List, [], ◌∷◌, ◌++◌, map, keep,
  is_empty,
}
use deepswe_eval_lab.Base.Rat
use deepswe_eval_lab.Base.Rat.{Rat}

-- The measures of a task that the layers read.
pub record TaskRow : Type 0 where
  pub task_id : String
  pub model_coverage : Rat
  pub minimum_effective_repeats : Rat
  pub error_rate : Rat
  pub verifier_timeouts : Rat
  pub base_model_equal_pass_rate : Rat
  pub config_equal_pass_rate : Rat
  pub low_model_count : Rat
  pub high_model_count : Rat
  pub item_rest_correlation_config : Option Rat

pub record Thresholds : Type 0 where
  pub minimum_model_coverage : Rat
  pub minimum_effective_repeats_per_config : Rat
  pub maximum_error_rate : Rat
  pub maximum_verifier_timeouts : Rat
  pub broad_difficulty_min : Rat
  pub broad_difficulty_max : Rat
  pub broad_minimum_low_models : Rat
  pub broad_minimum_high_models : Rat
  pub core_difficulty_min : Rat
  pub core_difficulty_max : Rat
  pub core_minimum_low_models : Rat
  pub core_minimum_high_models : Rat
  pub core_minimum_item_rest_correlation : Rat

-- A row with what `apply_layers` writes into it.
pub record LayeredRow : Type 0 where
  pub row : TaskRow
  pub stable : Bool
  pub stable_reasons : List String
  pub broad : Bool
  pub broad_reasons : List String
  pub core : Bool
  pub core_reasons : List String

-- `if test: reasons.append(reason)`
abbrev pub when : Bool → String → List String
when true reason = reason ∷ []
when false reason = []

abbrev pub outside : Rat → Rat → Rat → Bool
outside low high x = not (Rat.le low x && Rat.le x high)

abbrev pub too_low : Option Rat → Rat → Bool
too_low none bound = true
too_low (some x) bound = Rat.lt x bound

unfoldable pub stable_reasons : Thresholds → TaskRow → List String
stable_reasons t row =
    when (Rat.lt row.model_coverage t.minimum_model_coverage) "model_coverage"
    ++ when (Rat.lt row.minimum_effective_repeats t.minimum_effective_repeats_per_config)
        "minimum_effective_repeats"
    ++ when (Rat.lt t.maximum_error_rate row.error_rate) "error_rate"
    ++ when (Rat.lt t.maximum_verifier_timeouts row.verifier_timeouts) "verifier_timeouts"

unfoldable pub broad_reasons : Thresholds → TaskRow → List String
broad_reasons t row =
    when (outside t.broad_difficulty_min t.broad_difficulty_max row.base_model_equal_pass_rate)
      "base_model_equal_pass_rate"
    ++ when (outside t.broad_difficulty_min t.broad_difficulty_max row.config_equal_pass_rate)
        "config_equal_pass_rate"
    ++ when (Rat.lt row.low_model_count t.broad_minimum_low_models) "low_model_count"
    ++ when (Rat.lt row.high_model_count t.broad_minimum_high_models) "high_model_count"

unfoldable pub core_reasons : Thresholds → TaskRow → List String
core_reasons t row =
    when (outside t.core_difficulty_min t.core_difficulty_max row.base_model_equal_pass_rate)
      "base_model_equal_pass_rate"
    ++ when (outside t.core_difficulty_min t.core_difficulty_max row.config_equal_pass_rate)
        "config_equal_pass_rate"
    ++ when (Rat.lt row.low_model_count t.core_minimum_low_models) "low_model_count"
    ++ when (Rat.lt row.high_model_count t.core_minimum_high_models) "high_model_count"
    ++ when (too_low row.item_rest_correlation_config t.core_minimum_item_rest_correlation)
        "item_rest_correlation_config"

unfoldable pub layer_row : Thresholds → TaskRow → LayeredRow
layer_row t row =
    let stable = is_empty (stable_reasons t row) in
    let broad = stable && is_empty (broad_reasons t row) in
    record {
      row = row;
      stable = stable;
      stable_reasons = stable_reasons t row;
      broad = broad;
      broad_reasons = broad_reasons t row;
      core = broad && is_empty (core_reasons t row);
      core_reasons = core_reasons t row;
    }

-- `sorted(rows, key=lambda row: row["task_id"])`: equal ids keep their order.
unfoldable pub insert_row : TaskRow → List TaskRow → List TaskRow
insert_row row [] = row ∷ []
insert_row row (r ∷ rest) =
    let tail = insert_row row rest in
    elim (compare row.task_id r.task_id) [ Ordering.gt ↦ r ∷ tail | _ ↦ row ∷ r ∷ rest ]

unfoldable pub sort_rows : List TaskRow → List TaskRow
sort_rows [] = []
sort_rows (row ∷ rest) = insert_row row (sort_rows rest)

pub record Layers : Type 0 where
  pub all_rows : List LayeredRow
  pub stable : List LayeredRow
  pub broad_discriminative : List LayeredRow
  pub core_discriminative : List LayeredRow

abbrev layers_of : List LayeredRow → Layers
layers_of rows = record {
  all_rows = rows;
  stable = keep (λ (r : LayeredRow). r.stable) rows;
  broad_discriminative = keep (λ (r : LayeredRow). r.broad) rows;
  core_discriminative = keep (λ (r : LayeredRow). r.core) rows;
}

unfoldable pub apply_layers : List TaskRow → Thresholds → Layers
apply_layers rows t = layers_of (map (layer_row t) (sort_rows rows))
