-- ===== src/Operations/Allclose.antt =====
-- allclose.py: blocks and maps with the same labels, gradients and close entries.
use aml_storage.Prelude.{
  Bool, not, Option, none, some, List, [], ◌∷◌, nat_eq, list_eq, ◌==◌, if◌then◌else◌,
}
use aml_storage.Result.{Result, ok, guard, ◌>>=◌, not_equal_error}
use aml_storage.Numpy.{Numpy}
use aml_storage.Labels.Dimensions.{LabelsEntry}
use aml_storage.Block.Core.{
  Arrays, TensorBlock, Gradients, no_gradient, gradient, values, gradients, get_gradient,
}
use aml_storage.TensorMap.Core.{TensorMap, items}
use aml_storage.TensorMap.Selection.{by_entry, get_block}
use aml_storage.Operations.Dispatch.{Closeness, dispatch_allclose}
use aml_storage.Operations.Metadata.{word, listed, check_blocks_impl, check_same_gradients_impl}
use aml_storage.Operations.MapMetadata.{check_same_keys_impl}
use aml_storage.Operations.Equal.{
  Difference, values_shapes, values_not_equal, metadata, gradient_values, keys_differ, of_block,
  is_nothing,
}

module _ {A R : Type 0} ⦃arrays : Arrays A⦄ ⦃closeness : Closeness A R⦄ (rtol atol : R)
    (equal_nan : Bool) where
  -- The loop over the gradients of the first block.
  unfoldable pub allclose_gradients : Gradients A → TensorBlock A → Result (Option Difference)
  unfolding get_gradient dispatch_allclose
  allclose_gradients no_gradient block_2 = ok none
  allclose_gradients (gradient parameter gradient_1 rest) block_2 = do
    gradient_2 ← get_gradient block_2 parameter
    close ← dispatch_allclose (values gradient_1) (values gradient_2) rtol atol equal_nan
    if close then allclose_gradients rest block_2 else ok (some (gradient_values parameter))

  -- The checks of `_allclose_block_impl` after the one of the values.
  unfoldable pub allclose_metadata : TensorBlock A → TensorBlock A → Result (Option Difference)
  unfolding check_blocks_impl check_same_gradients_impl allclose_gradients
  allclose_metadata block_1 block_2 = do
    found ← check_blocks_impl block_1 block_2 (word "all")
    elim found [
      | some message ↦ ok (some (metadata message))
      | none ↦ do
        found' ←
            check_same_gradients_impl block_1 block_2
              (listed ("samples" ∷ "properties" ∷ "components" ∷ []))
        elim found' [
          | some message ↦ ok (some (metadata message))
          | none ↦ allclose_gradients (gradients block_1) block_2
        ]
    ]

  -- `_allclose_block_impl(block_1, block_2, rtol, atol, equal_nan)`
  unfoldable pub allclose_block_impl : TensorBlock A → TensorBlock A → Result (Option Difference)
  unfolding dispatch_allclose allclose_metadata
  allclose_block_impl block_1 block_2 =
      if not (arrays.shape (values block_1) == arrays.shape (values block_2))
      then ok (some values_shapes)
      else do
        close ← dispatch_allclose (values block_1) (values block_2) rtol atol equal_nan
        if not close then ok (some values_not_equal) else allclose_metadata block_1 block_2

  -- `allclose_block(block_1, block_2, rtol, atol, equal_nan)`
  unfoldable pub allclose_block : TensorBlock A → TensorBlock A → Result Bool
  unfolding allclose_block_impl
  allclose_block block_1 block_2 = do
    difference ← allclose_block_impl block_1 block_2
    ok (is_nothing difference)

  -- `allclose_block_raise(block_1, block_2, rtol, atol, equal_nan)`
  unfoldable pub allclose_block_raise : TensorBlock A → TensorBlock A → Result (Unit {0})
  unfolding allclose_block_impl
  allclose_block_raise block_1 block_2 = do
    difference ← allclose_block_impl block_1 block_2
    guard (is_nothing difference) not_equal_error

module _ ⦃np : Numpy⦄ {A R : Type 0} ⦃arrays : Arrays A⦄ ⦃closeness : Closeness A R⦄ (rtol atol : R)
    (equal_nan : Bool) where
  -- The loop over the keys and the blocks of the first map.
  unfoldable pub allclose_items :
      List (LabelsEntry × TensorBlock A) → TensorMap A → Result (Option Difference)
  unfolding get_block allclose_block_impl
  allclose_items [] tensor_2 = ok none
  allclose_items ((key, block_1) ∷ pairs) tensor_2 = do
    block_2 ← get_block tensor_2 (by_entry key)
    found ← allclose_block_impl rtol atol equal_nan block_1 block_2
    elim found [
      | some difference ↦ ok (some (of_block key difference))
      | none ↦ allclose_items pairs tensor_2
    ]

  -- `_allclose_impl(tensor_1, tensor_2, rtol, atol, equal_nan)`
  unfoldable pub allclose_impl : TensorMap A → TensorMap A → Result (Option Difference)
  unfolding check_same_keys_impl items allclose_items
  allclose_impl tensor_1 tensor_2 = do
    found ← check_same_keys_impl tensor_1 tensor_2
    elim found [
      | some message ↦ ok (some (keys_differ message))
      | none ↦ do pairs ← items tensor_1; allclose_items pairs tensor_2
    ]

  -- `allclose(tensor_1, tensor_2, rtol, atol, equal_nan)`
  unfoldable pub allclose : TensorMap A → TensorMap A → Result Bool
  unfolding allclose_impl
  allclose tensor_1 tensor_2 = do
    difference ← allclose_impl tensor_1 tensor_2
    ok (is_nothing difference)

  -- `allclose_raise(tensor_1, tensor_2, rtol, atol, equal_nan)`
  unfoldable pub allclose_raise : TensorMap A → TensorMap A → Result (Unit {0})
  unfolding allclose_impl
  allclose_raise tensor_1 tensor_2 = do
    difference ← allclose_impl tensor_1 tensor_2
    guard (is_nothing difference) not_equal_error
