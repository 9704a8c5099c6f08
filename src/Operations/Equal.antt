-- ===== src/Operations/Equal.antt =====
-- equal.py: blocks and maps with the same labels, gradients and entries.
use aml_storage.Prelude.{
  Bool, true, false, not, Option, none, some, List, [], ◌∷◌, nat_eq, list_eq, string_eq, ◌==◌,
  if◌then◌else◌, String,
}
use aml_storage.Result.{Result, ok, guard, ◌>>=◌, not_equal_error}
use aml_storage.Numpy.{Numpy}
use aml_storage.Labels.Dimensions.{LabelsEntry}
use aml_storage.Block.Core.{
  Arrays, TensorBlock, Gradients, no_gradient, gradient, values, gradients, get_gradient,
}
use aml_storage.TensorMap.Core.{TensorMap, items}
use aml_storage.TensorMap.Selection.{by_entry, get_block}
use aml_storage.Operations.Metadata.{Message, word, check_blocks_impl, check_same_gradients_impl}
use aml_storage.Operations.MapMetadata.{check_same_keys_impl}

-- What a difference between two blocks or maps is told by. The empty message is `none`.
pub data Difference : Type 0 where
  values_shapes : Difference
  values_not_equal : Difference
  metadata : Message → Difference
  gradient_values : String → Difference
  keys_differ : Message → Difference
  of_block : LabelsEntry → Difference → Difference

-- `_dispatch.all(a == b)`, which may raise where the arrays are not of one kind.
pub record Entries (A : Type 0) : Type 0 where
  pub same_entries : A → A → Result Bool

abbrev pub is_nothing : Option Difference → Bool
is_nothing none = true
is_nothing (some difference) = false

module _ {A : Type 0} ⦃arrays : Arrays A⦄ ⦃entries : Entries A⦄ where
  -- The loop over the gradients of the first block.
  unfoldable pub equal_gradients : Gradients A → TensorBlock A → Result (Option Difference)
  unfolding get_gradient
  equal_gradients no_gradient block_2 = ok none
  equal_gradients (gradient parameter gradient_1 rest) block_2 = do
    gradient_2 ← get_gradient block_2 parameter
    same ← entries.same_entries (values gradient_1) (values gradient_2)
    if same then equal_gradients rest block_2 else ok (some (gradient_values parameter))

  -- The checks of `_equal_block_impl` after the one of the values.
  unfoldable pub equal_block_parts : TensorBlock A → TensorBlock A → Result (Option Difference)
  unfolding check_blocks_impl check_same_gradients_impl equal_gradients
  equal_block_parts block_1 block_2 = do
    found ← check_blocks_impl block_1 block_2 (word "all")
    elim found [
      | some message ↦ ok (some (metadata message))
      | none ↦ do
        found' ← check_same_gradients_impl block_1 block_2 (word "all")
        elim found' [
          | some message ↦ ok (some (metadata message))
          | none ↦ equal_gradients (gradients block_1) block_2
        ]
    ]

  -- `_equal_block_impl(block_1, block_2)`
  unfoldable pub equal_block_impl : TensorBlock A → TensorBlock A → Result (Option Difference)
  unfolding equal_block_parts
  equal_block_impl block_1 block_2 =
      if not (arrays.shape (values block_1) == arrays.shape (values block_2))
      then ok (some values_shapes)
      else do
        same ← entries.same_entries (values block_1) (values block_2)
        if not same then ok (some values_not_equal) else equal_block_parts block_1 block_2

  -- `equal_block(block_1, block_2)`
  unfoldable pub equal_block : TensorBlock A → TensorBlock A → Result Bool
  unfolding equal_block_impl
  equal_block block_1 block_2 = do
    difference ← equal_block_impl block_1 block_2
    ok (is_nothing difference)

  -- `equal_block_raise(block_1, block_2)`
  unfoldable pub equal_block_raise : TensorBlock A → TensorBlock A → Result (Unit {0})
  unfolding equal_block_impl
  equal_block_raise block_1 block_2 = do
    difference ← equal_block_impl block_1 block_2
    guard (is_nothing difference) not_equal_error

module _ ⦃np : Numpy⦄ {A : Type 0} ⦃arrays : Arrays A⦄ ⦃entries : Entries A⦄ where
  -- The loop over the keys and the blocks of the first map.
  unfoldable pub equal_items :
      List (LabelsEntry × TensorBlock A) → TensorMap A → Result (Option Difference)
  unfolding get_block equal_block_impl
  equal_items [] tensor_2 = ok none
  equal_items ((key, block_1) ∷ pairs) tensor_2 = do
    block_2 ← get_block tensor_2 (by_entry key)
    found ← equal_block_impl block_1 block_2
    elim found [
      | some difference ↦ ok (some (of_block key difference))
      | none ↦ equal_items pairs tensor_2
    ]

  -- `_equal_impl(tensor_1, tensor_2)`
  unfoldable pub equal_impl : TensorMap A → TensorMap A → Result (Option Difference)
  unfolding check_same_keys_impl items equal_items
  equal_impl tensor_1 tensor_2 = do
    found ← check_same_keys_impl tensor_1 tensor_2
    elim found [
      | some message ↦ ok (some (keys_differ message))
      | none ↦ do pairs ← items tensor_1; equal_items pairs tensor_2
    ]

  -- `equal(tensor_1, tensor_2)`
  unfoldable pub equal : TensorMap A → TensorMap A → Result Bool
  unfolding equal_impl
  equal tensor_1 tensor_2 = do difference ← equal_impl tensor_1 tensor_2; ok (is_nothing difference)

  -- `equal_raise(tensor_1, tensor_2)`
  unfoldable pub equal_raise : TensorMap A → TensorMap A → Result (Unit {0})
  unfolding equal_impl
  equal_raise tensor_1 tensor_2 = do
    difference ← equal_impl tensor_1 tensor_2
    guard (is_nothing difference) not_equal_error
