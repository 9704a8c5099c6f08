-- ===== src/Operations/Arithmetic.antt =====
-- add.py, subtract.py, and multiply.py and divide.py by a constant: operations on the values of
-- blocks and of their gradients.
use aml_storage.Prelude.{◌≡◌, Bool, true, [], is_empty, nat_eq, ◌==◌, list_eq}
use aml_storage.Result.{
  Result, ok, guard, ◌>>=◌, ◌>>◌, map_m, not_implemented_error, assertion_error,
}
use aml_storage.Numpy.{Numpy}
use aml_storage.Labels.Core.{equal}
use aml_storage.Labels.Dimensions.{LabelsEntry}
use aml_storage.Block.Core.{
  Arrays, TensorBlock, Gradients, no_gradient, gradient, values, samples, components, properties,
  gradients, gradients_list, get_gradient, new, add_gradient,
}
use aml_storage.Block.Valid.{alike}
use aml_storage.TensorMap.Core.{TensorMap, items}
use aml_storage.TensorMap.Core as Map
use aml_storage.TensorMap.Selection.{by_dict, by_entry, get_block, get_blocks}
use aml_storage.Operations.Derived.{with_arrays}
use aml_storage.Operations.Metadata.{word, check_blocks_raise, check_same_gradients_raise}
use aml_storage.Operations.MapMetadata.{check_same_keys_raise}

-- What the operations rely on of the operators of arrays: with a Python number, which is a `float`,
-- and with another array.
pub record Arithmetic (A : Type 0) ⦃arrays : Arrays A⦄ : Type 1 where
  pub Constant : Type 0
  pub minus_one : Constant
  pub negate : Constant → Constant
  pub plus_constant : Constant → A → A
  pub times_constant : Constant → A → A
  pub over_constant : A → Constant → A
  pub plus : A → A → Result A
  -- arrays of floating-point numbers
  pub is_floating : A → Bool
  pub plus_constant_lem :
      (k : Constant) (a : A)
      → is_floating a ≡ true
      → (arrays.shape (plus_constant k a) ≡ arrays.shape a)
        × (arrays.origin (plus_constant k a) ≡ arrays.origin a)
        × (arrays.dtype (plus_constant k a) ≡ arrays.dtype a)
        × (arrays.device (plus_constant k a) ≡ arrays.device a)
  -- the sum of arrays of the same library, shape and type, on the same device
  pub plus_lem :
      (a b : A)
      → arrays.shape a ≡ arrays.shape b
      → arrays.origin a ≡ arrays.origin b
      → alike a b ≡ true
      → (c : A) × (plus a b ≡ ok c)
        × (arrays.shape c ≡ arrays.shape a)
        × (arrays.origin c ≡ arrays.origin a)
        × (arrays.dtype c ≡ arrays.dtype a)
        × (arrays.device c ≡ arrays.device a)

module _ {A : Type 0} ⦃arrays : Arrays A⦄ ⦃arithmetic : Arithmetic A⦄ where
  -- `_add_block_constant(block, constant)`: the gradients stay as they are.
  unfoldable pub add_block_constant : TensorBlock A → arithmetic.Constant → Result (TensorBlock A)
  unfolding with_arrays
  add_block_constant b constant = with_arrays (arithmetic.plus_constant constant) (λ a. a) b

  -- `_multiply_block_constant(block, constant)`
  unfoldable pub multiply_block_constant :
      TensorBlock A → arithmetic.Constant → Result (TensorBlock A)
  unfolding with_arrays
  multiply_block_constant b constant =
      with_arrays (arithmetic.times_constant constant) (arithmetic.times_constant constant) b

  -- `_divide_block_constant(block, constant)`
  unfoldable pub divide_block_constant :
      TensorBlock A → arithmetic.Constant → Result (TensorBlock A)
  unfolding with_arrays
  divide_block_constant b constant =
      with_arrays (λ a. arithmetic.over_constant a constant)
        (λ a. arithmetic.over_constant a constant) b

  -- The loop of `_add_block_block` over the gradients of the first block.
  unfoldable pub add_gradients_of :
      Gradients A → TensorBlock A → TensorBlock A → Result (TensorBlock A)
  unfolding get_gradient equal
  add_gradients_of no_gradient block_2 result_block = ok result_block
  add_gradients_of (gradient parameter gradient_1 rest) block_2 result_block = do
    gradient_2 ← get_gradient block_2 parameter
    guard (arrays.shape (values gradient_1) == arrays.shape (values gradient_2)) assertion_error
    guard (equal (samples gradient_1) (samples gradient_2)) assertion_error
    guard (is_empty (gradients_list gradient_1)) not_implemented_error
    guard (is_empty (gradients_list gradient_2)) not_implemented_error
    sum ← arithmetic.plus (values gradient_1) (values gradient_2)
    g' ← new sum (samples gradient_1) (components gradient_1) (properties gradient_1)
    result_block' ← add_gradient result_block parameter g'
    add_gradients_of rest block_2 result_block'

  -- `_add_block_block(block_1, block_2)`
  unfoldable pub add_block_block : TensorBlock A → TensorBlock A → Result (TensorBlock A)
  unfolding add_gradients_of
  add_block_block block_1 block_2 = do
    sum ← arithmetic.plus (values block_1) (values block_2)
    result_block ← new sum (samples block_1) (components block_1) (properties block_1)
    add_gradients_of (gradients block_1) block_2 result_block

  -- `add(A, B)` where `B` is a number.
  unfoldable pub add_constant :
      ⦃np : Numpy⦄ → TensorMap A → arithmetic.Constant → Result (TensorMap A)
  unfolding get_blocks add_block_constant Map.new
  add_constant t constant = do
    blocks ← get_blocks t (by_dict [])
    new_blocks ← map_m (λ b. add_block_constant b constant) blocks
    Map.new t.keys new_blocks

  -- `multiply(A, B)` and `divide(A, B)` where `B` is a number.
  unfoldable pub multiply_constant :
      ⦃np : Numpy⦄ → TensorMap A → arithmetic.Constant → Result (TensorMap A)
  unfolding get_blocks multiply_block_constant Map.new
  multiply_constant t constant = do
    blocks ← get_blocks t (by_dict [])
    new_blocks ← map_m (λ b. multiply_block_constant b constant) blocks
    Map.new t.keys new_blocks

  unfoldable pub divide_constant :
      ⦃np : Numpy⦄ → TensorMap A → arithmetic.Constant → Result (TensorMap A)
  unfolding get_blocks divide_block_constant Map.new
  divide_constant t constant = do
    blocks ← get_blocks t (by_dict [])
    new_blocks ← map_m (λ b. divide_block_constant b constant) blocks
    Map.new t.keys new_blocks

  -- `subtract(A, B)` where `B` is a number.
  unfoldable pub subtract_constant :
      ⦃np : Numpy⦄ → TensorMap A → arithmetic.Constant → Result (TensorMap A)
  unfolding add_constant
  subtract_constant t constant = add_constant t (arithmetic.negate constant)

module _ ⦃np : Numpy⦄ {A : Type 0} ⦃arrays : Arrays A⦄ ⦃arithmetic : Arithmetic A⦄ where
  -- The loop of `add(A, B)` over the keys and the blocks, where `B` is a map.
  unfoldable pub add_item : TensorMap A → LabelsEntry × TensorBlock A → Result (TensorBlock A)
  unfolding get_block check_blocks_raise check_same_gradients_raise add_block_block
  add_item b (key, block_a) = do
    block_b ← get_block b (by_entry key)
    check_blocks_raise block_a block_b (word "all")
    check_same_gradients_raise block_a block_b (word "all")
    add_block_block block_a block_b

  -- `add(A, B)` where `B` is a map.
  unfoldable pub add : TensorMap A → TensorMap A → Result (TensorMap A)
  unfolding check_same_keys_raise items add_item Map.new
  add a b = do
    check_same_keys_raise a b
    pairs ← items a
    blocks ← map_m (add_item b) pairs
    Map.new a.keys blocks

  -- `subtract(A, B)` where `B` is a map.
  unfoldable pub subtract : TensorMap A → TensorMap A → Result (TensorMap A)
  unfolding multiply_constant add
  subtract a b = do c ← multiply_constant b arithmetic.minus_one; add a c
