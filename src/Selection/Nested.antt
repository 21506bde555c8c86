-- ===== src/Selection/Nested.antt =====
-- The layers against an independent description of them.
use mathlib.Core.List.{Perm}
use mathlib.Core.List.Perm
use Prim.Native.Nat.{Ordering}
use Prim.Native.String.{compare}
use deepswe_eval_lab.Base.{
  Bool, true, false, not, ◌&&◌, ◌≡◌, refl, ap, ◌∙◌, subst, sym, String, Option, none, some, List,
  [], ◌∷◌, ◌++◌, map, keep, is_empty, arith, Bool-cases, inl, inr,
}
use deepswe_eval_lab.Base.Rat
use deepswe_eval_lab.Base.Rat.{Rat}
use deepswe_eval_lab.Selection.Layers.{
  TaskRow, Thresholds, LayeredRow, when, outside, too_low, stable_reasons, broad_reasons,
  core_reasons, layer_row, insert_row, sort_rows, Layers, apply_layers,
}

abbrev at_least : Rat → Rat → Bool
at_least low x = not (Rat.lt x low)

abbrev within : Rat → Rat → Rat → Bool
within low high x = Rat.le low x && Rat.le x high

-- A task that is measured well enough.
unfoldable pub is_stable : Thresholds → TaskRow → Bool
is_stable t row =
    at_least t.minimum_model_coverage row.model_coverage
    && at_least t.minimum_effective_repeats_per_config row.minimum_effective_repeats
    && at_least row.error_rate t.maximum_error_rate
    && at_least row.verifier_timeouts t.maximum_verifier_timeouts

-- A task of the broad difficulty, with enough models that fail and that pass it.
unfoldable pub is_broad : Thresholds → TaskRow → Bool
is_broad t row =
    within t.broad_difficulty_min t.broad_difficulty_max row.base_model_equal_pass_rate
    && within t.broad_difficulty_min t.broad_difficulty_max row.config_equal_pass_rate
    && at_least t.broad_minimum_low_models row.low_model_count
    && at_least t.broad_minimum_high_models row.high_model_count

-- A correlation that is known and large enough.
abbrev correlates : Rat → Option Rat → Bool
correlates low none = false
correlates low (some x) = at_least low x

unfoldable pub is_core : Thresholds → TaskRow → Bool
is_core t row =
    within t.core_difficulty_min t.core_difficulty_max row.base_model_equal_pass_rate
    && within t.core_difficulty_min t.core_difficulty_max row.config_equal_pass_rate
    && at_least t.core_minimum_low_models row.low_model_count
    && at_least t.core_minimum_high_models row.high_model_count
    && correlates t.core_minimum_item_rest_correlation row.item_rest_correlation_config

abbrev rows_of : List LayeredRow → List TaskRow
rows_of rows = map (λ (r : LayeredRow). r.row) rows

-- The layers of some tasks: all of them in some order, and those that pass the tests of a layer.
pub record IsNested (rows : List TaskRow) (t : Thresholds) (layers : Layers) : Type 0 where
  pub all_kept : Perm (rows_of layers.all_rows) rows
  pub stable : rows_of layers.stable ≡ keep (is_stable t) (rows_of layers.all_rows)
  pub broad :
      rows_of layers.broad_discriminative
      ≡ keep (λ r. is_stable t r && is_broad t r) (rows_of layers.all_rows)
  pub core :
      rows_of layers.core_discriminative
      ≡ keep (λ r. is_stable t r && is_broad t r && is_core t r) (rows_of layers.all_rows)

insert_row-perm : (row : TaskRow) (rows : List TaskRow) → Perm (insert_row row rows) (row ∷ rows)
unfolding insert_row
insert_row-perm row [] = Perm.rfl
insert_row-perm row (r ∷ rest) =
    elim (compare row.task_id r.task_id)
      as (λ o.
        Perm (elim o [ Ordering.gt ↦ r ∷ insert_row row rest | _ ↦ row ∷ r ∷ rest ])
          (row ∷ r ∷ rest)) [
            | Ordering.gt ↦
                Perm.trans (Perm.cons r (insert_row-perm row rest)) (Perm.swap row r rest)
            | _ ↦ Perm.rfl
          ]

sort_rows-perm : (rows : List TaskRow) → Perm (sort_rows rows) rows
unfolding sort_rows
sort_rows-perm [] = Perm.rfl
sort_rows-perm (row ∷ rest) =
    Perm.trans (insert_row-perm row (sort_rows rest)) (Perm.cons row (sort_rows-perm rest))

-- No reason is given exactly if no test fails.
is_empty-when :
    (fails : Bool) (reason : String) (rest : List String)
    → is_empty (when fails reason ++ rest) ≡ (not fails && is_empty rest)
is_empty-when true reason rest = refl
is_empty-when false reason rest = refl

is_empty-last : (fails : Bool) (reason : String) → is_empty (when fails reason) ≡ not fails
is_empty-last true reason = refl
is_empty-last false reason = refl

no_reasons :
    (a b c d : Bool) (p q r s : String) (rest : List String)
    → is_empty (when a p ++ when b q ++ when c r ++ when d s ++ rest)
      ≡ (not a && not b && not c && not d && is_empty rest)
no_reasons a b c d p q r s rest = ground (
  arith,
  is_empty-when a p (when b q ++ when c r ++ when d s ++ rest),
  is_empty-when b q (when c r ++ when d s ++ rest),
  is_empty-when c r (when d s ++ rest),
  is_empty-when d s rest,
)

no_four_reasons :
    (a b c d : Bool) (p q r s : String)
    → is_empty (when a p ++ when b q ++ when c r ++ when d s) ≡ (not a && not b && not c && not d)
no_four_reasons a b c d p q r s = ground (
  arith,
  is_empty-when a p (when b q ++ when c r ++ when d s),
  is_empty-when b q (when c r ++ when d s),
  is_empty-when c r (when d s),
  is_empty-last d s,
)

outside-within : (low high x : Rat) → not (outside low high x) ≡ within low high x
outside-within low high x = ground arith

correlates-too_low : (low : Rat) (x : Option Rat) → not (too_low x low) ≡ correlates low x
correlates-too_low low none = refl
correlates-too_low low (some x) = refl

stable_reasons-is_stable :
    (t : Thresholds) (row : TaskRow) → is_empty (stable_reasons t row) ≡ is_stable t row
unfolding stable_reasons is_stable
stable_reasons-is_stable t row = no_four_reasons _ _ _ _ _ _ _ _

broad_reasons-is_broad :
    (t : Thresholds) (row : TaskRow) → is_empty (broad_reasons t row) ≡ is_broad t row
unfolding broad_reasons is_broad
broad_reasons-is_broad t row =
    let low = t.broad_difficulty_min in
    let high = t.broad_difficulty_max in
    no_four_reasons (outside low high row.base_model_equal_pass_rate)
      (outside low high row.config_equal_pass_rate)
      (Rat.lt row.low_model_count t.broad_minimum_low_models)
      (Rat.lt row.high_model_count t.broad_minimum_high_models) _ _ _ _
    ∙ ground (
      arith,
      outside-within low high row.base_model_equal_pass_rate,
      outside-within low high row.config_equal_pass_rate,
    )

core_reasons-is_core :
    (t : Thresholds) (row : TaskRow) → is_empty (core_reasons t row) ≡ is_core t row
unfolding core_reasons is_core
core_reasons-is_core t row =
    let low = t.core_difficulty_min in
    let high = t.core_difficulty_max in
    let bound = t.core_minimum_item_rest_correlation in
    no_reasons (outside low high row.base_model_equal_pass_rate)
      (outside low high row.config_equal_pass_rate)
      (Rat.lt row.low_model_count t.core_minimum_low_models)
      (Rat.lt row.high_model_count t.core_minimum_high_models) _ _ _ _
      (when (too_low row.item_rest_correlation_config bound) "item_rest_correlation_config")
    ∙ ground (
      arith,
      outside-within low high row.base_model_equal_pass_rate,
      outside-within low high row.config_equal_pass_rate,
      is_empty-last (too_low row.item_rest_correlation_config bound) "item_rest_correlation_config",
      correlates-too_low bound row.item_rest_correlation_config,
    )

module _ (t : Thresholds) where
  rows_of-layer_row : (rows : List TaskRow) → rows_of (map (layer_row t) rows) ≡ rows
  unfolding layer_row
  rows_of-layer_row [] = refl
  rows_of-layer_row (r ∷ rs) = ap (◌∷◌ r) (rows_of-layer_row rs)

  -- A layer holds the tasks that pass its test.
  rows_of-keep :
      (in_layer : LayeredRow → Bool) (test : TaskRow → Bool)
      → ((r : TaskRow) → in_layer (layer_row t r) ≡ test r)
      → (rows : List TaskRow) → rows_of (keep in_layer (map (layer_row t) rows)) ≡ keep test rows
  unfolding layer_row
  rows_of-keep in_layer test h [] = refl
  rows_of-keep in_layer test h (r ∷ rs) = elim (Bool-cases (test r)) [
    | inl e ↦ rw (h r, e) (ap (◌∷◌ r) (rows_of-keep in_layer test h rs))
    | inr e ↦ rw (h r, e) (rows_of-keep in_layer test h rs)
  ]

  layer_row-stable : (r : TaskRow) → (layer_row t r).stable ≡ is_stable t r
  unfolding layer_row
  layer_row-stable r = stable_reasons-is_stable t r

  layer_row-broad : (r : TaskRow) → (layer_row t r).broad ≡ (is_stable t r && is_broad t r)
  unfolding layer_row
  layer_row-broad r = cc (stable_reasons-is_stable t r, broad_reasons-is_broad t r)

  layer_row-core :
      (r : TaskRow) → (layer_row t r).core ≡ (is_stable t r && is_broad t r && is_core t r)
  unfolding layer_row
  layer_row-core r =
      ground
        (arith, stable_reasons-is_stable t r, broad_reasons-is_broad t r, core_reasons-is_core t r)

-- The tasks are kept, none lost and none doubled, in some order. Of them, the stable layer holds exactly
-- those within the four thresholds of stability, the broad layer those that are stable and within the
-- broad thresholds, and the core layer those that are in addition within the core thresholds, with a
-- known correlation.
pub apply_layers-IsNested :
    (rows : List TaskRow) (t : Thresholds) → IsNested rows t (apply_layers rows t)
unfolding apply_layers
apply_layers-IsNested rows t =
    let sorted = sort_rows rows in
    let same = rows_of-layer_row t sorted in
    record {
      all_kept = subst (λ l. Perm l rows) (sym same) (sort_rows-perm rows);
      stable =
          rows_of-keep t (λ r. r.stable) (is_stable t) (layer_row-stable t) sorted
          ∙ ap (keep (is_stable t)) (sym same);
      broad =
          rows_of-keep t (λ r. r.broad) (λ r. is_stable t r && is_broad t r) (layer_row-broad t)
            sorted
          ∙ ap (keep (λ r. is_stable t r && is_broad t r)) (sym same);
      core =
          rows_of-keep t (λ r. r.core) (λ r. is_stable t r && is_broad t r && is_core t r)
            (layer_row-core t) sorted
          ∙ ap (keep (λ r. is_stable t r && is_broad t r && is_core t r)) (sym same);
    }
