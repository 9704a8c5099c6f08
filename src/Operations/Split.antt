-- ===== src/Operations/Split.antt =====
-- split.py: the parts of a block or a map that several selections name.
use aml_storage.Prelude.{pos, String, List, [], ◌∷◌, ◌++◌, map, string_eq, contains}
use aml_storage.Result.{Result, ok, guard, ◌>>=◌, ◌>>◌, map_m, value_error}
use aml_storage.Numpy.{Numpy}
use aml_storage.Labels.Rows.{Row}
use aml_storage.Block.Core.{Arrays, TensorBlock}
use aml_storage.TensorMap.Core.{TensorMap}
use aml_storage.TensorMap.Core as Map
use aml_storage.TensorMap.Selection.{by_index, by_entry, get_block}
use aml_storage.Operations.Indexing.{Indexing}
use aml_storage.Operations.Slice.{SliceSelection, check_slice_args, sliced_block}

-- The loop of `_check_split_args` over the selections.
unfoldable pub check_selections :
    {A : Type 0} → TensorBlock A → String → List SliceSelection → Result (Unit {0})
unfolding check_slice_args
check_selections b axis [] = ok tt
check_selections b axis (selection ∷ selections) = do
  check_slice_args b axis selection
  check_selections b axis selections

-- `_check_split_args(block, axis, selections)`
unfoldable pub check_split_args :
    {A : Type 0} → TensorBlock A → String → List SliceSelection → Result (Unit {0})
unfolding check_selections
check_split_args b axis selections = do
  guard (contains ("samples" ∷ "properties" ∷ []) axis) value_error
  check_selections b axis selections

-- `all_new_blocks[group_i].append(new_block)` for each group.
unfoldable pub append_each : {A : Type 0} → List (List A) → List A → List (List A)
append_each [] xs = []
append_each (group ∷ groups) [] = group ∷ groups
append_each (group ∷ groups) (x ∷ xs) = (group ++ x ∷ []) ∷ append_each groups xs

module _ ⦃np : Numpy⦄ {A : Type 0} ⦃arrays : Arrays A⦄ ⦃indexing : Indexing A⦄ where
  -- `_split_block(block, axis, selections)`
  unfoldable pub split_blocks :
      TensorBlock A → String → List SliceSelection → Result (List (TensorBlock A))
  unfolding sliced_block
  split_blocks b axis selections = map_m (sliced_block b axis) selections

  -- `split_block(block, axis, selections)`
  unfoldable pub split_block :
      TensorBlock A → String → List SliceSelection → Result (List (TensorBlock A))
  unfolding check_split_args split_blocks
  split_block b axis selections = do
    check_split_args b axis selections
    split_blocks b axis selections

  -- The loop of `split` over the keys.
  unfoldable pub split_keys :
      TensorMap A
      → String
      → List SliceSelection
      → List Row
      → List (List (TensorBlock A))
      → Result (List (List (TensorBlock A)))
  unfolding get_block split_blocks append_each
  split_keys t axis selections [] groups = ok groups
  split_keys t axis selections (row ∷ rows) groups = do
    b ← get_block t (by_entry (record { names = t.keys.names; values = row }))
    new_blocks ← split_blocks b axis selections
    split_keys t axis selections rows (append_each groups new_blocks)

  -- `split(tensor, axis, selections)`
  unfoldable pub split : TensorMap A → String → List SliceSelection → Result (List (TensorMap A))
  unfolding get_block check_split_args split_keys Map.new
  split t axis selections = do
    first ← get_block t (by_index (pos 0))
    check_split_args first axis selections
    groups ← split_keys t axis selections t.keys.values (map (λ selection. []) selections)
    map_m (Map.new t.keys) groups
