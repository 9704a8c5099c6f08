-- ===== src/Operations/Storage.antt =====
-- detach.py, requires_grad.py, make_contiguous.py and is_contiguous.py: the operations on how the
-- arrays of a block are stored, which do not change their entries.
use aml_storage.Prelude.{
  ◌≡◌, refl, ◌∙◌, Bool, true, false, List, [], ◌∷◌, is_empty, nat_eq, and_true, Bool-cases, inl,
  inr, if◌then◌else◌,
}
use aml_storage.Result.{Result, ok, guard, ◌>>=◌, ◌>>◌, map_m, not_implemented_error}
use aml_storage.Labels.Core.{Labels}
use aml_storage.Block.Core.{
  Arrays, TensorBlock, block, Gradients, no_gradient, gradient, values, samples, components,
  properties, gradients, gradients_list, new,
}
use aml_storage.Block.Valid.{is_valid, are_valid}
use aml_storage.TensorMap.Core.{TensorMap}
use aml_storage.TensorMap.Core as Map
use aml_storage.Numpy.{Numpy}
use aml_storage.TensorMap.Selection.{by_dict, get_blocks}
use aml_storage.Operations.Share.{is_flat, valid_facts}
use aml_storage.Block.Valid.{own_facts}
use aml_storage.Operations.Derived.{
  with_arrays, Making-itself, derived_block, Fitting, derived_block_lem,
}

-- What an operation on one array keeps: all but its entries.
abbrev pub Keeps : {A : Type 0} ⦃arrays : Arrays A⦄ → (A → A) → Type 0
Keeps {A} ⦃arrays⦄ f =
    (a : A)
    → (arrays.shape (f a) ≡ arrays.shape a)
      × (arrays.origin (f a) ≡ arrays.origin a)
      × (arrays.dtype (f a) ≡ arrays.dtype a)
      × (arrays.device (f a) ≡ arrays.device a)

-- What _dispatch.py relies on of the arrays of NumPy and PyTorch: `is_contiguous` and
-- `flags["C_CONTIGUOUS"]`, `contiguous` and `ascontiguousarray`, and PyTorch's `detach` and
-- `requires_grad_`.
pub record Storage (A : Type 0) ⦃arrays : Arrays A⦄ : Type 0 where
  pub is_torch : A → Bool
  pub is_contiguous_array : A → Bool
  pub as_contiguous : A → A
  pub torch_detach : A → A
  pub torch_requires_grad : A → Bool → A
  pub Keeps-as_contiguous : Keeps as_contiguous
  pub Keeps-torch_detach : Keeps torch_detach
  pub Keeps-torch_requires_grad : (value : Bool) → Keeps (λ a. torch_requires_grad a value)
  pub is_contiguous_array-as_contiguous : (a : A) → is_contiguous_array (as_contiguous a) ≡ true

module _ {A : Type 0} ⦃arrays : Arrays A⦄ ⦃storage : Storage A⦄ where
  -- `_dispatch.make_contiguous(array)`
  unfoldable pub contiguous : A → A
  contiguous a = if storage.is_contiguous_array a then a else storage.as_contiguous a

  -- `_dispatch.detach(array)`
  unfoldable pub detached : A → A
  detached a = if storage.is_torch a then storage.torch_detach a else a

  -- `_dispatch.requires_grad(array, value)`
  unfoldable pub requiring : Bool → A → A
  requiring value a =
      if storage.is_torch a then storage.torch_requires_grad (storage.torch_detach a) value else a

  pub Keeps-contiguous : Keeps contiguous
  unfolding contiguous
  Keeps-contiguous a = elim (Bool-cases (storage.is_contiguous_array a)) [
    | inl yes' ↦ rw yes' (refl, refl, refl, refl)
    | inr no' ↦ rw no' (storage.Keeps-as_contiguous a)
  ]

  pub is_contiguous_array-contiguous : (a : A) → storage.is_contiguous_array (contiguous a) ≡ true
  unfolding contiguous
  is_contiguous_array-contiguous a = elim (Bool-cases (storage.is_contiguous_array a)) [
    | inl yes' ↦ rw (yes', contiguous) yes'
    | inr no' ↦ rw (no', contiguous) (storage.is_contiguous_array-as_contiguous a)
  ]

  Keeps-detached : Keeps detached
  unfolding detached
  Keeps-detached a = elim (Bool-cases (storage.is_torch a)) [
    | inl yes' ↦ rw yes' (storage.Keeps-torch_detach a)
    | inr no' ↦ rw no' (refl, refl, refl, refl)
  ]

  Keeps-requiring : (value : Bool) → Keeps (requiring value)
  unfolding requiring
  Keeps-requiring value a = elim (Bool-cases (storage.is_torch a)) [
    | inl yes' ↦
        let (s, o, d, e) = storage.Keeps-torch_requires_grad value (storage.torch_detach a) in
        let (s', o', d', e') = storage.Keeps-torch_detach a in
        rw yes' (s ∙ s', o ∙ o', d ∙ d', e ∙ e')
    | inr no' ↦ rw no' (refl, refl, refl, refl)
  ]

module _ {A : Type 0} ⦃arrays : Arrays A⦄ where
  -- Operations that keep all but the entries fit the gradients of a valid block.
  pub Fitting-Keeps :
      (f h : A → A) (v : A) (s : Labels) (cs : List Labels) (p : Labels) (g : Gradients A)
      → Keeps f
      → Keeps h
      → are_valid v s cs p g ≡ true
      → is_flat g ≡ true
      → Fitting (f v) (λ name c. h (values c)) g
  Fitting-Keeps f h v s cs p no_gradient keeps keeps' valid flat = tt
  Fitting-Keeps f h v s cs p (gradient name g rest) keeps keeps' valid flat =
      let (fits, like, _, _, others) = valid_facts v s cs p name g rest valid in
      let (g_flat, rest_flat) = and_true (is_empty (gradients_list g)) _ flat in
      let (_, _, d, e) = keeps v in
      let (shape, origin, d', e') = keeps' (values g) in
      (
        (shape, origin),
        rw (d, d', e, e') like,
        g_flat,
        Fitting-Keeps f h v s cs p rest keeps keeps' others rest_flat,
      )

  module _ (f : A → A) (keeps : Keeps f) where
    pub with_arrays-derived_block :
        (b : TensorBlock A)
        → is_valid b ≡ true
        → is_flat (gradients b) ≡ true
        → (with_arrays f f b ≡ ok (derived_block (f (values b)) (λ name c. f (values c)) b))
          × (is_valid (derived_block (f (values b)) (λ name c. f (values c)) b) ≡ true)
    unfolding with_arrays
    with_arrays-derived_block (block v s cs p g) valid flat =
        let (_, _, g_valid) = own_facts v s cs p g valid in
        let (shape, origin, _, _) = keeps v in
        derived_block_lem
          (λ parameter c. new (f (values c)) (samples c) (components c) (properties c)) (f v)
          (λ name c. f (values c)) (block v s cs p g) valid (shape, origin)
          (Fitting-Keeps f f v s cs p g keeps keeps g_valid flat)
          (Making-itself g (λ name c. f (values c)))

module _ {A : Type 0} ⦃arrays : Arrays A⦄ ⦃storage : Storage A⦄ where
  -- `detach_block(block)`
  unfoldable pub detach_block : TensorBlock A → Result (TensorBlock A)
  unfolding with_arrays detached
  detach_block b = with_arrays detached detached b

  -- `requires_grad_block(block, requires_grad)`
  unfoldable pub requires_grad_block : TensorBlock A → Bool → Result (TensorBlock A)
  unfolding with_arrays requiring
  requires_grad_block b requires_grad =
      with_arrays (requiring requires_grad) (requiring requires_grad) b

  -- `make_contiguous_block(block)`
  unfoldable pub make_contiguous_block : TensorBlock A → Result (TensorBlock A)
  unfolding with_arrays contiguous
  make_contiguous_block b = with_arrays contiguous contiguous b

  -- `detach(tensor)`
  unfoldable pub detach : ⦃np : Numpy⦄ → TensorMap A → Result (TensorMap A)
  unfolding get_blocks detach_block Map.new
  detach t = do
    blocks ← get_blocks t (by_dict [])
    new_blocks ← map_m detach_block blocks
    Map.new t.keys new_blocks

  -- `requires_grad(tensor, requires_grad)`
  unfoldable pub requires_grad : ⦃np : Numpy⦄ → TensorMap A → Bool → Result (TensorMap A)
  unfolding get_blocks requires_grad_block Map.new
  requires_grad t value = do
    blocks ← get_blocks t (by_dict [])
    new_blocks ← map_m (λ b. requires_grad_block b value) blocks
    Map.new t.keys new_blocks

  -- `make_contiguous(tensor)`
  unfoldable pub make_contiguous : ⦃np : Numpy⦄ → TensorMap A → Result (TensorMap A)
  unfolding get_blocks make_contiguous_block Map.new
  make_contiguous t = do
    blocks ← get_blocks t (by_dict [])
    new_blocks ← map_m make_contiguous_block blocks
    Map.new t.keys new_blocks

  -- The loop of `is_contiguous_block` over the gradients.
  unfoldable pub are_contiguous : Gradients A → Result Bool
  are_contiguous no_gradient = ok true
  are_contiguous (gradient parameter g rest) = do
    guard (is_empty (gradients_list g)) not_implemented_error
    if storage.is_contiguous_array (values g) then are_contiguous rest else ok false

  -- `is_contiguous_block(block)`
  unfoldable pub is_contiguous_block : TensorBlock A → Result Bool
  unfolding are_contiguous
  is_contiguous_block b =
      if storage.is_contiguous_array (values b) then are_contiguous (gradients b) else ok false

  -- The loop of `is_contiguous` over the blocks.
  unfoldable pub all_contiguous : List (TensorBlock A) → Result Bool
  unfolding is_contiguous_block
  all_contiguous [] = ok true
  all_contiguous (b ∷ blocks) = do
    contiguous ← is_contiguous_block b
    if contiguous then all_contiguous blocks else ok false

  -- `is_contiguous(tensor)`
  unfoldable pub is_contiguous : ⦃np : Numpy⦄ → TensorMap A → Result Bool
  unfolding get_blocks all_contiguous
  is_contiguous t = do blocks ← get_blocks t (by_dict []); all_contiguous blocks
