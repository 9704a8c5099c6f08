-- ===== src/Operations/Slice.antt =====
-- slice.py: the samples or the properties of a block that a selection names, with the gradients
-- that refer to them.
use aml_storage.Prelude.{
  ℕ, suc, ℤ, pos, negsuc, String, Bool, List, [], ◌∷◌, all, ◌==◌, string_eq, contains, set,
  replicate, if◌then◌else◌,
}
use aml_storage.Result.{Result, ok, err, guard, ◌>>=◌, ◌>>◌, map_m, value_error, index_error}
use aml_storage.Numpy.{Numpy, array_2d, integral}
use aml_storage.Labels.Names.{sequence}
use aml_storage.Labels.Rows.{Row}
use aml_storage.Labels.Core.{Labels, len, size, init}
use aml_storage.Labels.Sets.{select}
use aml_storage.Labels.Dimensions.{column, list_item, item_or_raise}
use aml_storage.Block.Core.{Arrays, TensorBlock, values, samples, components, properties, gradients}
use aml_storage.Block.Core as Block
use aml_storage.TensorMap.Core.{TensorMap, count}
use aml_storage.TensorMap.Core as Map
use aml_storage.TensorMap.Selection.{by_index, by_entry, get_block}
use aml_storage.Operations.Rebuild.{add_each}
use aml_storage.Operations.Indexing.{Indexing, position_along, masked, picked, where_true, mask_of}

-- `List[int]`, an array of values of labels with one dimension, which is used in the same way, or
-- labels. Arrays with more dimensions are refused by a ValueError, and are left out.
pub data SliceSelection : Type 0 where
  indices : List ℤ → SliceSelection
  by_labels : Labels → SliceSelection

-- The labels along an axis.
abbrev pub axis_labels : {A : Type 0} → String → TensorBlock A → Labels
axis_labels axis b = if axis == "samples" then samples b else properties b

-- `_check_slice_args(block, axis, selection)`
unfoldable pub check_slice_args :
    {A : Type 0} → TensorBlock A → String → SliceSelection → Result (Unit {0})
check_slice_args b axis (indices is) =
    guard (contains ("samples" ∷ "properties" ∷ []) axis) value_error
check_slice_args b axis (by_labels l) = do
  guard (contains ("samples" ∷ "properties" ∷ []) axis) value_error
  guard (all (contains (axis_labels axis b).names) l.names) value_error

-- `selected`, as positions along the axis.
unfoldable pub selected_positions : Labels → SliceSelection → Result (List ℕ)
unfolding position_along select
selected_positions l (indices is) = map_m (position_along (len l)) is
selected_positions l (by_labels selection) = select l selection

-- `sample_map[selected] = range(len(selected))`, with the numbers counted from `k`.
unfoldable pub number_from : ℕ → List ℕ → List ℤ → List ℤ
number_from k [] sample_map = sample_map
number_from k (i ∷ selected) sample_map = number_from (suc k) selected (set sample_map i (pos k))

unfoldable pub sample_map : ℕ → List ℕ → List ℤ
unfolding number_from
sample_map n selected = number_from 0 selected (replicate n (negsuc 0))

-- The first column is replaced by the new position of the sample.
unfoldable pub renumbered : List ℤ → Row → Result Row
unfolding list_item item_or_raise
renumbered new_samples [] = err index_error
renumbered new_samples (v ∷ row) = do w ← item_or_raise (list_item new_samples v); ok (w ∷ row)

module _ ⦃np : Numpy⦄ {A : Type 0} ⦃arrays : Arrays A⦄ ⦃indexing : Indexing A⦄ where
  -- The gradient of the new block, where the samples are sliced.
  unfoldable pub gradient_of_samples :
      List Bool → List ℤ → Labels → String → TensorBlock A → Result (TensorBlock A)
  unfolding column list_item item_or_raise masked where_true renumbered init Block.new
  gradient_of_samples mask new_samples new_properties parameter g = do
    sample_column ← column (samples g) "sample"
    grad_samples_mask ← map_m (λ i. item_or_raise (list_item mask i)) sample_column
    new_values ← map_m (renumbered new_samples) (masked grad_samples_mask (samples g).values)
    new_grad_samples ←
        init (sequence (samples g).names) (array_2d integral (size (samples g)) new_values)
    Block.new (indexing.rows (values g) (where_true 0 grad_samples_mask)) new_grad_samples
        (components g) new_properties

  -- `_slice_block` for the axis "samples".
  unfoldable pub slice_samples : TensorBlock A → List ℕ → Result (TensorBlock A)
  unfolding mask_of sample_map picked init Block.new add_each gradient_of_samples
  slice_samples b selected = do
    let mask = mask_of (len (samples b)) selected
    new_samples ←
        init (sequence (samples b).names)
          (array_2d integral (size (samples b)) (picked (samples b).values selected))
    new_block ←
        Block.new (indexing.rows (values b) selected) new_samples (components b) (properties b)
    add_each (gradient_of_samples mask (sample_map (len (samples b)) selected) (properties b))
        new_block (gradients b)

  -- The gradient of the new block, where the properties are sliced.
  unfoldable pub gradient_of_properties :
      List Bool → Labels → String → TensorBlock A → Result (TensorBlock A)
  unfolding where_true Block.new
  gradient_of_properties mask new_properties parameter g =
      Block.new (indexing.columns (values g) (where_true 0 mask)) (samples g) (components g)
        new_properties

  -- `_slice_block` for the axis "properties".
  unfoldable pub slice_properties : TensorBlock A → List ℕ → Result (TensorBlock A)
  unfolding mask_of masked where_true init Block.new add_each gradient_of_properties
  slice_properties b selected = do
    let mask = mask_of (len (properties b)) selected
    new_properties ←
        init (sequence (properties b).names)
          (array_2d integral (size (properties b)) (masked mask (properties b).values))
    new_block ←
        Block.new (indexing.columns (values b) (where_true 0 mask)) (samples b) (components b)
          new_properties
    add_each (gradient_of_properties mask new_properties) new_block (gradients b)

  -- `_slice_block(block, axis, selection)`, for one of the two axes.
  unfoldable pub sliced_block : TensorBlock A → String → SliceSelection → Result (TensorBlock A)
  unfolding selected_positions slice_samples slice_properties
  sliced_block b axis selection = do
    selected ← selected_positions (axis_labels axis b) selection
    if axis == "samples" then slice_samples b selected else slice_properties b selected

  -- `slice_block(block, axis, selection)`
  unfoldable pub slice_block : TensorBlock A → String → SliceSelection → Result (TensorBlock A)
  unfolding check_slice_args sliced_block
  slice_block b axis selection = do check_slice_args b axis selection; sliced_block b axis selection

  -- `slice(tensor, axis, selection)`
  unfoldable pub slice : TensorMap A → String → SliceSelection → Result (TensorMap A)
  unfolding get_block check_slice_args sliced_block Map.new
  slice t axis selection = do
    first ← get_block t (by_index (pos 0))
    check_slice_args first axis selection
    blocks ←
        map_m
          (λ row. do
            b ← get_block t (by_entry (record { names = t.keys.names; values = row }))
            sliced_block b axis selection)
          t.keys.values
    Map.new t.keys blocks
