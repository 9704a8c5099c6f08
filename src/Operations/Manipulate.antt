-- ===== src/Operations/Manipulate.antt =====
-- manipulate_dimension.py: a dimension of the keys, or of an axis of every block, is permuted,
-- removed or renamed, and the blocks are made again around the same data.
use aml_storage.Prelude.{ℤ, String, List, [], ◌∷◌, ◌==◌, string_eq, contains, if◌then◌else◌}
use aml_storage.Result.{Result, ok, guard, ◌>>=◌, ◌>>◌, map_m, value_error}
use aml_storage.Numpy.{Numpy}
use aml_storage.Labels.Core.{Labels}
use aml_storage.Labels.Dimensions.{permute, remove, rename}
use aml_storage.Block.Core.{
  Arrays, TensorBlock, Gradients, no_gradient, gradient, values, samples, components, properties,
  gradients, add_gradient,
}
use aml_storage.Block.Core as Block
use aml_storage.TensorMap.Core.{TensorMap}
use aml_storage.TensorMap.Core as Map
use aml_storage.TensorMap.Selection.{by_dict, get_blocks}

-- `_check_axis(axis)`
unfoldable pub check_axis : String → Result (Unit {0})
check_axis axis =
    guard (contains ("keys" ∷ "samples" ∷ "components" ∷ "properties" ∷ []) axis) value_error

module _ {A : Type 0} ⦃arrays : Arrays A⦄ where
  -- The loop over `block.gradients()`: each gradient is made again, with its samples and components
  -- changed and with the properties of the new block, and added to the new block.
  unfoldable pub add_gradients :
      (Labels → Result Labels)
      → (List Labels → Result (List Labels))
      → TensorBlock A
      → Labels
      → Gradients A
      → Result (TensorBlock A)
  unfolding add_gradient Block.new
  add_gradients of_samples of_components new_block p no_gradient = ok new_block
  add_gradients of_samples of_components new_block p (gradient parameter g rest) = do
    gradient_samples ← of_samples (samples g)
    gradient_components ← of_components (components g)
    g' ← Block.new (values g) gradient_samples gradient_components p
    new_block' ← add_gradient new_block parameter g'
    add_gradients of_samples of_components new_block' p rest

-- Labels are changed only where `axis` names them.
unfoldable pub on_axis : String → String → (Labels → Result Labels) → Labels → Result Labels
on_axis axis name change l = if axis == name then change l else ok l

module _ ⦃np : Numpy⦄ where
  -- `labels.rename(old, new)` where `old` is a name of the labels
  unfoldable pub rename_if_named : String → String → Labels → Result Labels
  unfolding rename
  rename_if_named old new l = if contains l.names old then rename l old new else ok l

  -- The loop over the components, for the axis "components".
  unfoldable pub rename_components : String → String → String → List Labels → Result (List Labels)
  unfolding rename_if_named
  rename_components axis old new cs =
      if axis == "components" then map_m (rename_if_named old new) cs else ok cs

module _ ⦃np : Numpy⦄ {A : Type 0} ⦃arrays : Arrays A⦄ where
  -- One round of the loop over the blocks in `permute_dimensions` and `remove_dimension`.
  unfoldable pub changed_block :
      String → (Labels → Result Labels) → TensorBlock A → Result (TensorBlock A)
  unfolding on_axis add_gradients
  changed_block axis change b = do
    s ← on_axis axis "samples" change (samples b)
    p ← on_axis axis "properties" change (properties b)
    new_block ← Block.new (values b) s (components b) p
    add_gradients ok ok new_block p (gradients b)

  -- The common body of `permute_dimensions` and `remove_dimension`.
  unfoldable pub changed : TensorMap A → String → (Labels → Result Labels) → Result (TensorMap A)
  unfolding check_axis on_axis get_blocks changed_block Map.new
  changed t axis change = do
    check_axis axis
    keys ← on_axis axis "keys" change t.keys
    blocks ← get_blocks t (by_dict [])
    new_blocks ← map_m (changed_block axis change) blocks
    Map.new keys new_blocks

  -- `permute_dimensions(tensor, axis, dimensions_indexes)`
  unfoldable pub permute_dimensions : TensorMap A → String → List ℤ → Result (TensorMap A)
  unfolding changed permute
  permute_dimensions t axis dimensions_indexes = changed t axis (λ l. permute l dimensions_indexes)

  -- `remove_dimension(tensor, axis, name)`
  unfoldable pub remove_dimension : TensorMap A → String → String → Result (TensorMap A)
  unfolding changed remove
  remove_dimension t axis name = changed t axis (λ l. remove l name)

  -- One round of the loop over the blocks in `rename_dimension`.
  unfoldable pub renamed_block : String → String → String → TensorBlock A → Result (TensorBlock A)
  unfolding on_axis rename rename_if_named rename_components add_gradients
  renamed_block axis old new b = do
    s ← on_axis axis "samples" (λ l. rename l old new) (samples b)
    p ← on_axis axis "properties" (λ l. rename l old new) (properties b)
    cs ← rename_components axis old new (components b)
    new_block ← Block.new (values b) s cs p
    add_gradients (on_axis axis "samples" (rename_if_named old new))
        (rename_components axis old new) new_block p (gradients b)

  -- `rename_dimension(tensor, axis, old, new)`
  unfoldable pub rename_dimension : TensorMap A → String → String → String → Result (TensorMap A)
  unfolding check_axis on_axis rename get_blocks renamed_block Map.new
  rename_dimension t axis old new = do
    check_axis axis
    keys ← on_axis axis "keys" (λ l. rename l old new) t.keys
    blocks ← get_blocks t (by_dict [])
    new_blocks ← map_m (renamed_block axis old new) blocks
    Map.new keys new_blocks
