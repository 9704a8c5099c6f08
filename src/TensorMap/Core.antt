-- ===== src/TensorMap/Core.antt =====
-- The class `TensorMap`: its state, and its constructor with the checks of tensor.py and of
-- `TensorMap::new` in metatensor-core/src/tensor/mod.rs.
use aml_storage.Prelude.{
  ℕ, suc, ℤ, pos, negsuc, String, Bool, true, false, ◌&&◌, not, Option, none, some, List, [], ◌∷◌,
  map, length, all, get_elem?, ltb, nat_beq, ◌==◌, string_eq, list_eq,
}
use aml_storage.Result.{
  Result, ok, err, guard, map_m, ◌>>=◌, ◌>>◌, value_error, index_error, metatensor_error,
}
use aml_storage.Labels.Core.{Labels, len}
use aml_storage.Labels.Dimensions.{LabelsEntry}
use aml_storage.Labels.Rows.{Row}
use aml_storage.Block.Core.{
  Arrays, TensorBlock, block, Gradients, no_gradient, gradient, values, samples, components,
  properties, gradients, parameters, find_gradient,
}

pub record TensorMap (A : Type 0) : Type 0 where
  pub keys : Labels
  pub blocks : List (TensorBlock A)

module _ {A : Type 0} where
  -- The names of the components, in order.
  abbrev pub component_names : TensorBlock A → List (List String)
  component_names b = map (λ c. c.names) (components b)

  -- The names of samples and components of a gradient: `GradientMetadata`.
  same_metadata : TensorBlock A → TensorBlock A → Bool
  same_metadata a b =
      ((samples a).names == (samples b).names) && (component_names a == component_names b)

  -- `GradientMap::new(a) == GradientMap::new(b)`: as many parameters, and each parameter of `a`
  -- has in `b` the same metadata and, recursively, the same gradients.
  unfoldable mutual
    unfolding same_metadata find_gradient

    pub same_gradient_map : TensorBlock A → TensorBlock A → Bool
    same_gradient_map (block v s cs p g) b =
        nat_beq (length (parameters g)) (length (parameters (gradients b)))
        && gradients_found g (gradients b)

    pub gradients_found : Gradients A → Gradients A → Bool
    gradients_found no_gradient others = true
    gradients_found (gradient name a rest) others =
        elim (find_gradient name others) [
          | none ↦ false
          | some b ↦ same_metadata a b && same_gradient_map a b
        ]
        && gradients_found rest others

  -- What `TensorMap::new` checks of a block against the first block.
  unfoldable pub same_kind_of_data : TensorBlock A → TensorBlock A → Bool
  unfolding same_gradient_map
  same_kind_of_data first b =
      ((samples b).names == (samples first).names)
      && (component_names b == component_names first)
      && ((properties b).names == (properties first).names)
      && same_gradient_map b first

  -- Every block agrees with the first one.
  unfoldable pub uniform : (TensorBlock A → TensorBlock A → Bool) → List (TensorBlock A) → Bool
  uniform agree [] = true
  uniform agree (first ∷ blocks) = all (agree first) (first ∷ blocks)

module _ {A : Type 0} ⦃arrays : Arrays A⦄ where
  abbrev pub same_origin : TensorBlock A → TensorBlock A → Bool
  same_origin a b = nat_beq (arrays.origin (values b)) (arrays.origin (values a))

  -- The three checks of each block in tensor.py.
  abbrev pub same_storage : TensorBlock A → TensorBlock A → Bool
  same_storage a b =
      same_origin a b
      && nat_beq (arrays.device (values b)) (arrays.device (values a))
      && nat_beq (arrays.dtype (values b)) (arrays.dtype (values a))

  -- `TensorMap::new`
  unfoldable pub rust_new : Labels → List (TensorBlock A) → Result (TensorMap A)
  unfolding same_kind_of_data uniform
  rust_new keys blocks = do
    guard (nat_beq (length blocks) (len keys)) metatensor_error
    guard (uniform same_origin blocks) metatensor_error
    guard (uniform same_kind_of_data blocks) metatensor_error
    ok (record { keys = keys; blocks = blocks })

  -- `TensorMap(keys, blocks)`, for blocks that own their data.
  unfoldable pub new : Labels → List (TensorBlock A) → Result (TensorMap A)
  unfolding rust_new
  new keys blocks = do
    guard (uniform same_storage blocks) value_error
    guard (not keys.is_view) value_error
    rust_new keys blocks

module _ {A : Type 0} where
  -- `len(tensor)`
  abbrev pub count : TensorMap A → ℕ
  count t = len t.keys

  unfoldable pub native_block : Option (TensorBlock A) → Result (TensorBlock A)
  native_block none = err metatensor_error
  native_block (some b) = ok b

  -- `tensor.block_by_id(index)`: a negative index reaches the native library as a huge one.
  unfoldable pub block_by_id : TensorMap A → ℤ → Result (TensorBlock A)
  unfolding native_block
  block_by_id t (pos i) = do
    guard (ltb i (count t)) index_error
    native_block (get_elem? t.blocks i)
  block_by_id t (negsuc k) = err metatensor_error

  -- `tensor.blocks_by_id(indices)`
  unfoldable pub blocks_by_id : TensorMap A → List ℕ → Result (List (TensorBlock A))
  unfolding block_by_id
  blocks_by_id t indices = map_m (λ i. block_by_id t (pos i)) indices

  items_from : TensorMap A → ℕ → List Row → Result (List (LabelsEntry × TensorBlock A))
  unfolding block_by_id
  items_from t i [] = ok []
  items_from t i (row ∷ rows) = do
    b ← block_by_id t (pos i)
    rest ← items_from t (suc i) rows
    ok ((record { names = t.keys.names; values = row }, b) ∷ rest)

  -- `list(tensor.items())`
  unfoldable pub items : TensorMap A → Result (List (LabelsEntry × TensorBlock A))
  unfolding items_from
  items t = items_from t 0 t.keys.values
