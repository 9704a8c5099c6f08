-- ===== src/Operations/Products.antt =====
-- multiply.py and divide.py for two maps, pow.py and abs.py: operations for which the values of a
-- gradient are made with the values of the block at the samples that the gradient refers to.
use aml_storage.Prelude.{
  ℕ, ◌-◌, ℤ, pos, negsuc, String, List, [], ◌∷◌, ◌++◌, map, length, is_empty, replicate, ◌==◌,
  nat_eq, list_eq, if◌then◌else◌,
}
use aml_storage.Result.{
  Result, ok, guard, ◌>>=◌, ◌>>◌, map_m, not_implemented_error, assertion_error,
}
use aml_storage.Labels.Core.{len, equal}
use aml_storage.Labels.Dimensions.{column}
use aml_storage.Block.Core.{
  Arrays, TensorBlock, Gradients, no_gradient, gradient, values, samples, components, properties,
  gradients, gradients_list, get_gradient, add_gradient,
}
use aml_storage.Block.Core as Block
use aml_storage.Operations.Rebuild.{add_each}
use aml_storage.Operations.Indexing.{Indexing, position_along}
use aml_storage.Operations.Arithmetic.{Arithmetic}

-- What these operations rely on of arrays, besides the sum: the operators `*`, `/`, `**` and `-`,
-- the functions `abs` and `sign`, and the method `reshape`.
pub record Products (A : Type 0) ⦃arrays : Arrays A⦄ ⦃arithmetic : Arithmetic A⦄ : Type 0 where
  pub two : arithmetic.Constant
  pub minus_1 : arithmetic.Constant → arithmetic.Constant
  pub times : A → A → Result A
  pub over : A → A → Result A
  pub power : A → arithmetic.Constant → A
  pub negative : A → A
  pub absolute : A → A
  pub sign : A → A
  pub reshape : A → List ℤ → Result A

-- `_shape`
abbrev pub inner_shape : {A : Type 0} → TensorBlock A → List ℕ
inner_shape b = map len (components b) ++ len (properties b) ∷ []

module _ {A : Type 0} ⦃arrays : Arrays A⦄ ⦃arithmetic : Arithmetic A⦄ ⦃indexing : Indexing A⦄
    ⦃products : Products A⦄ where
  -- `array[to_index_array(column)].reshape([-1] + [1] * diff_components + _shape)`, for an array
  -- with `n` samples.
  unfoldable pub expanded : A → ℕ → List ℤ → ℕ → List ℕ → Result A
  unfolding position_along
  expanded array n column diff_components shape = do
    selected ← map_m (position_along n) column
    products.reshape (indexing.rows array selected)
        (negsuc 0 ∷ map pos (replicate diff_components 1 ++ shape))

  -- The gradient of the result in `_abs_block`.
  unfoldable pub abs_gradient : TensorBlock A → String → TensorBlock A → Result (TensorBlock A)
  unfolding column expanded Block.new
  abs_gradient b parameter g = do
    sample_column ← column (samples g) "sample"
    signs ←
        expanded (products.sign (values b)) (len (samples b)) sample_column
          (length (components g) - length (components b)) (inner_shape b)
    new_grad ← products.times (values g) signs
    Block.new new_grad (samples g) (components g) (properties g)

  -- `_abs_block(block)`
  unfoldable pub abs_block : TensorBlock A → Result (TensorBlock A)
  unfolding Block.new add_each abs_gradient
  abs_block b = do
    result_block ←
        Block.new (products.absolute (values b)) (samples b) (components b) (properties b)
    if is_empty (gradients_list b)
        then ok result_block
        else add_each (abs_gradient b) result_block (gradients b)

  -- The gradient of the result in `_pow_block_constant`.
  unfoldable pub pow_gradient :
      TensorBlock A → arithmetic.Constant → String → TensorBlock A → Result (TensorBlock A)
  unfolding column expanded Block.new
  pow_gradient b constant parameter g = do
    sample_column ← column (samples g) "sample"
    base ←
        expanded (values b) (len (samples b)) sample_column
          (length (arrays.shape (values g)) - length (arrays.shape (values b))) (inner_shape b)
    values_grad ←
        products.times (arithmetic.times_constant constant (values g))
          (products.power base (products.minus_1 constant))
    Block.new values_grad (samples g) (components g) (properties g)

  -- `_pow_block_constant(block, constant)`
  unfoldable pub pow_block_constant : TensorBlock A → arithmetic.Constant → Result (TensorBlock A)
  unfolding Block.new add_each pow_gradient
  pow_block_constant b constant = do
    result_block ←
        Block.new (products.power (values b) constant) (samples b) (components b) (properties b)
    add_each (pow_gradient b constant) result_block (gradients b)

  -- The values of the gradient of a product.
  unfoldable pub product_rule :
      TensorBlock A → TensorBlock A → TensorBlock A → TensorBlock A → Result A
  unfolding column expanded
  product_rule block_1 block_2 gradient_1 gradient_2 = do
    let diff_components =
        length (arrays.shape (values gradient_1)) - length (arrays.shape (values block_1))
    samples_1 ← column (samples gradient_1) "sample"
    samples_2 ← column (samples gradient_2) "sample"
    values_1 ←
        expanded (values block_1) (len (samples block_1)) samples_1 diff_components
          (inner_shape block_1)
    left ← products.times values_1 (values gradient_2)
    values_2 ←
        expanded (values block_2) (len (samples block_2)) samples_2 diff_components
          (inner_shape block_1)
    right ← products.times (values gradient_1) values_2
    arithmetic.plus left right

  -- The values of the gradient of a quotient.
  unfoldable pub quotient_rule :
      TensorBlock A → TensorBlock A → TensorBlock A → TensorBlock A → Result A
  unfolding column expanded
  quotient_rule block_1 block_2 gradient_1 gradient_2 = do
    let diff_components =
        length (arrays.shape (values gradient_1)) - length (arrays.shape (values block_1))
    samples_1 ← column (samples gradient_1) "sample"
    samples_2 ← column (samples gradient_2) "sample"
    values_1 ←
        expanded (values block_1) (len (samples block_1)) samples_1 diff_components
          (inner_shape block_1)
    numerator ← products.times (products.negative values_1) (values gradient_2)
    values_2 ←
        expanded (values block_2) (len (samples block_2)) samples_2 diff_components
          (inner_shape block_1)
    left ← products.over numerator (products.power values_2 products.two)
    right ← products.over (values gradient_1) values_2
    arithmetic.plus left right

  -- The loop over the gradients of the first block, with one of the two rules.
  unfoldable pub combine_gradients :
      (TensorBlock A → TensorBlock A → Result A)
      → Gradients A
      → TensorBlock A
      → TensorBlock A
      → Result (TensorBlock A)
  unfolding get_gradient equal Block.new
  combine_gradients rule no_gradient block_2 result_block = ok result_block
  combine_gradients rule (gradient parameter gradient_1 rest) block_2 result_block = do
    gradient_2 ← get_gradient block_2 parameter
    guard (is_empty (gradients_list gradient_1)) not_implemented_error
    guard (is_empty (gradients_list gradient_2)) not_implemented_error
    guard (arrays.shape (values gradient_1) == arrays.shape (values gradient_2)) assertion_error
    guard (equal (samples gradient_1) (samples gradient_2)) assertion_error
    gradient_values ← rule gradient_1 gradient_2
    g' ←
        Block.new gradient_values (samples gradient_1) (components gradient_1)
          (properties gradient_1)
    result_block' ← add_gradient result_block parameter g'
    combine_gradients rule rest block_2 result_block'

  -- `_multiply_block_block(block_1, block_2)`
  unfoldable pub multiply_block_block : TensorBlock A → TensorBlock A → Result (TensorBlock A)
  unfolding Block.new product_rule combine_gradients
  multiply_block_block block_1 block_2 = do
    product ← products.times (values block_1) (values block_2)
    result_block ← Block.new product (samples block_1) (components block_1) (properties block_1)
    combine_gradients (product_rule block_1 block_2) (gradients block_1) block_2 result_block

  -- `_divide_block_block(block_1, block_2)`
  unfoldable pub divide_block_block : TensorBlock A → TensorBlock A → Result (TensorBlock A)
  unfolding Block.new quotient_rule combine_gradients
  divide_block_block block_1 block_2 = do
    quotient ← products.over (values block_1) (values block_2)
    result_block ← Block.new quotient (samples block_1) (components block_1) (properties block_1)
    combine_gradients (quotient_rule block_1 block_2) (gradients block_1) block_2 result_block
