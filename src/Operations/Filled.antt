-- ===== src/Operations/Filled.antt =====
-- zeros_like.py, ones_like.py and empty_like.py: blocks and maps with the labels of others, all or
-- some of their gradients, and new entries.
use aml_storage.Prelude.{
  String, Bool, false, Option, none, some, List, [], ◌∷◌, is_empty, nat_eq, string_eq,
}
use aml_storage.Result.{Result, ok, guard, ◌>>=◌, ◌>>◌, map_m, not_implemented_error}
use aml_storage.Block.Core.{
  Arrays, TensorBlock, values, samples, components, properties, parameters, gradients_list,
  get_gradient, new, add_gradient,
}
use aml_storage.TensorMap.Core.{TensorMap}
use aml_storage.TensorMap.Core as Map
use aml_storage.Numpy.{Numpy}
use aml_storage.TensorMap.Selection.{by_dict, get_blocks}
use aml_storage.Operations.Metadata.{check_gradient_presence_raise}
use aml_storage.Operations.Storage.{Keeps}

-- What _dispatch.py relies on of NumPy and PyTorch to make a new array with the shape and the type
-- of another one, and, in PyTorch, its `requires_grad`.
pub record Filling (A : Type 0) ⦃arrays : Arrays A⦄ : Type 0 where
  pub zeros : A → Bool → A
  pub ones : A → Bool → A
  pub empty : A → Bool → A
  pub Keeps-zeros : (requires_grad : Bool) → Keeps (λ a. zeros a requires_grad)
  pub Keeps-ones : (requires_grad : Bool) → Keeps (λ a. ones a requires_grad)
  pub Keeps-empty : (requires_grad : Bool) → Keeps (λ a. empty a requires_grad)

-- `gradients`: a name, or a list of names.
pub data Parameters : Type 0 where
  one_name : String → Parameters
  names : List String → Parameters

-- `if isinstance(gradients, str): gradients = [gradients]`
unfoldable pub as_list : Parameters → List String
as_list (one_name name) = name ∷ []
as_list (names list) = list

module _ {A : Type 0} ⦃arrays : Arrays A⦄ (fill : A → Bool → A) where
  -- The loop over the parameters.
  unfoldable pub fill_gradients :
      TensorBlock A → List String → TensorBlock A → Result (TensorBlock A)
  unfolding get_gradient
  fill_gradients b [] result_block = ok result_block
  fill_gradients b (parameter ∷ rest) result_block = do
    g ← get_gradient b parameter
    guard (is_empty (gradients_list g)) not_implemented_error
    g' ← new (fill (values g) false) (samples g) (components g) (properties g)
    result_block' ← add_gradient result_block parameter g'
    fill_gradients b rest result_block'

  -- The parameters of the new gradients.
  unfoldable pub filled_names : TensorBlock A → Option Parameters → Result (List String)
  unfolding as_list check_gradient_presence_raise
  filled_names b none = ok (gradients_list b)
  filled_names b (some parameters) = do
    check_gradient_presence_raise b (as_list parameters)
    ok (as_list parameters)

  -- `zeros_like_block`, `ones_like_block` and `empty_like_block`, which differ in the entries.
  unfoldable pub filled_block : TensorBlock A → Option Parameters → Bool → Result (TensorBlock A)
  unfolding fill_gradients filled_names
  filled_block b parameters requires_grad = do
    result_block ← new (fill (values b) requires_grad) (samples b) (components b) (properties b)
    list ← filled_names b parameters
    fill_gradients b list result_block

  -- `zeros_like`, `ones_like` and `empty_like` for maps.
  unfoldable pub filled_tensor :
      ⦃np : Numpy⦄ → TensorMap A → Option Parameters → Bool → Result (TensorMap A)
  unfolding get_blocks filled_block Map.new
  filled_tensor t parameters requires_grad = do
    blocks ← get_blocks t (by_dict [])
    new_blocks ← map_m (λ b. filled_block b parameters requires_grad) blocks
    Map.new t.keys new_blocks

module _ {A : Type 0} ⦃arrays : Arrays A⦄ ⦃filling : Filling A⦄ where
  unfoldable pub zeros_like_block :
      TensorBlock A → Option Parameters → Bool → Result (TensorBlock A)
  unfolding filled_block
  zeros_like_block b parameters requires_grad =
      filled_block filling.zeros b parameters requires_grad

  unfoldable pub ones_like_block : TensorBlock A → Option Parameters → Bool → Result (TensorBlock A)
  unfolding filled_block
  ones_like_block b parameters requires_grad = filled_block filling.ones b parameters requires_grad

  unfoldable pub empty_like_block :
      TensorBlock A → Option Parameters → Bool → Result (TensorBlock A)
  unfolding filled_block
  empty_like_block b parameters requires_grad =
      filled_block filling.empty b parameters requires_grad

  unfoldable pub zeros_like :
      ⦃np : Numpy⦄ → TensorMap A → Option Parameters → Bool → Result (TensorMap A)
  unfolding filled_tensor
  zeros_like t parameters requires_grad = filled_tensor filling.zeros t parameters requires_grad

  unfoldable pub ones_like :
      ⦃np : Numpy⦄ → TensorMap A → Option Parameters → Bool → Result (TensorMap A)
  unfolding filled_tensor
  ones_like t parameters requires_grad = filled_tensor filling.ones t parameters requires_grad

  unfoldable pub empty_like :
      ⦃np : Numpy⦄ → TensorMap A → Option Parameters → Bool → Result (TensorMap A)
  unfolding filled_tensor
  empty_like t parameters requires_grad = filled_tensor filling.empty t parameters requires_grad
