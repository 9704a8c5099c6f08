-- ===== src/Block/Core.antt =====
-- `TensorBlock` of metatensor-core/src/blocks.rs: its data, its constructor and `add_gradient`,
-- as the Python class calls them. The arrays of values are an interface: NumPy or PyTorch arrays.
use aml_storage.Prelude.{
  ℕ, ◌+◌, pos, negsuc, String, Bool, true, false, ◌&&◌, not, Option, none, some, List, [], ◌∷◌, map,
  length, is_empty, all, ltb, leb, nat_beq, drop, ◌-◌, if◌then◌else◌, ◌==◌, int_eq, list_eq,
  string_eq, contains, distinct,
}
use aml_storage.Result.{Result, ok, err, guard, ◌>>◌, value_error, metatensor_error}
use aml_storage.Labels.Rows.{Row}
use aml_storage.Labels.Core.{Labels, len, size, equal}

-- What blocks read of an array: its shape, the library that it comes from, its element type and
-- the device that holds it, which are only compared; and a copy of an array.
pub record Arrays (A : Type 0) : Type 0 where
  pub shape : A → List ℕ
  pub origin : A → ℕ
  pub dtype : A → ℕ
  pub device : A → ℕ
  pub copy : A → A

-- The gradients stand in the order in which they were added.
mutual
  pub data TensorBlock (A : Type 0) : Type 0 where
    block : A → Labels → List Labels → Labels → Gradients A → TensorBlock A

  pub data Gradients (A : Type 0) : Type 0 where
    no_gradient : Gradients A
    gradient : String → TensorBlock A → Gradients A → Gradients A

module _ {A : Type 0} where
  abbrev pub values : TensorBlock A → A
  values (block v s cs p g) = v

  abbrev pub samples : TensorBlock A → Labels
  samples (block v s cs p g) = s

  abbrev pub components : TensorBlock A → List Labels
  components (block v s cs p g) = cs

  abbrev pub properties : TensorBlock A → Labels
  properties (block v s cs p g) = p

  abbrev pub gradients : TensorBlock A → Gradients A
  gradients (block v s cs p g) = g

  -- The parameters, in order.
  abbrev pub parameters : Gradients A → List String
  parameters no_gradient = []
  parameters (gradient name b rest) = name ∷ parameters rest

  -- `block.gradients_list()`
  abbrev pub gradients_list : TensorBlock A → List String
  gradients_list b = parameters (gradients b)

  -- `self.gradients.get(parameter)`
  unfoldable pub find_gradient : String → Gradients A → Option (TensorBlock A)
  find_gradient name no_gradient = none
  find_gradient name (gradient other b rest) =
      if other == name then some b else find_gradient name rest

  -- `block.has_gradient(parameter)`
  unfoldable pub has_gradient : TensorBlock A → String → Bool
  has_gradient b parameter = contains (gradients_list b) parameter

  unfoldable pub or_metatensor_error : Option (TensorBlock A) → Result (TensorBlock A)
  or_metatensor_error none = err metatensor_error
  or_metatensor_error (some b) = ok b

  -- `block.gradient(parameter)`, of a block that was not moved
  unfoldable pub get_gradient : TensorBlock A → String → Result (TensorBlock A)
  unfolding find_gradient or_metatensor_error
  get_gradient b parameter = or_metatensor_error (find_gradient parameter (gradients b))

  -- `self.gradients.insert(parameter, gradient)` and `self.gradient_parameters.push(parameter)`,
  -- for a parameter that is not there
  unfoldable pub push_gradient : String → TensorBlock A → Gradients A → Gradients A
  push_gradient name b no_gradient = gradient name b no_gradient
  push_gradient name b (gradient other c rest) = gradient other c (push_gradient name b rest)

-- The axes after the first have one entry for each label of the components, then the properties.
unfoldable pub inner_axes_match : List ℕ → List Labels → Labels → Bool
inner_axes_match [] cs p = false
inner_axes_match (n ∷ shape) [] p = nat_beq n (len p) && is_empty shape
inner_axes_match (n ∷ shape) (c ∷ cs) p = nat_beq n (len c) && inner_axes_match shape cs p

unfoldable pub first_axis_matches : List ℕ → Labels → Bool
first_axis_matches [] s = false
first_axis_matches (n ∷ shape) s = nat_beq n (len s)

unfoldable pub inner_axes : List ℕ → List ℕ
inner_axes [] = []
inner_axes (n ∷ shape) = shape

-- `check_data_and_labels`
unfoldable pub check_data_and_labels : List ℕ → Labels → List Labels → Labels → Result (Unit {0})
unfolding inner_axes_match first_axis_matches inner_axes
check_data_and_labels shape s cs p = do
  guard (nat_beq (length shape) (length cs + 2)) metatensor_error
  guard (first_axis_matches shape s) metatensor_error
  guard (distinct (map (λ c. c.names) cs)) metatensor_error
  guard (inner_axes_match (inner_axes shape) cs p) metatensor_error

-- `check_component_labels`
unfoldable pub check_component_labels : List Labels → Result (Unit {0})
check_component_labels cs =
    guard (all (λ c. nat_beq (size c) 1 && not (nat_beq (len c) 0)) cs) metatensor_error

-- Two lists of labels that are equal one by one.
unfoldable pub same_labels : List Labels → List Labels → Bool
unfolding equal
same_labels [] [] = true
same_labels (a ∷ xs) (b ∷ ys) = equal a b && same_labels xs ys
same_labels [] (b ∷ ys) = false
same_labels (a ∷ xs) [] = false

-- The first name of the samples of a gradient is "sample".
unfoldable pub starts_with_sample : List String → Bool
starts_with_sample [] = false
starts_with_sample (name ∷ names) = name == "sample"

-- The first value of a row is a position among `count` samples.
unfoldable pub refers_below : ℕ → Row → Bool
refers_below count [] = false
refers_below count (pos i ∷ row) = ltb i count
refers_below count (negsuc k ∷ row) = false

module _ {A : Type 0} ⦃arrays : Arrays A⦄ where
  -- `block.copy()`: the arrays of the block and of its gradients, at any depth, are copied.
  unfoldable mutual
    pub copy_block : TensorBlock A → TensorBlock A
    copy_block (block v s cs p g) = block (arrays.copy v) s cs p (copy_gradients g)

    pub copy_gradients : Gradients A → Gradients A
    copy_gradients no_gradient = no_gradient
    copy_gradients (gradient name b rest) = gradient name (copy_block b) (copy_gradients rest)

  -- `TensorBlock::new`
  unfoldable pub rust_new : A → Labels → List Labels → Labels → Result (TensorBlock A)
  unfolding check_data_and_labels check_component_labels
  rust_new v s cs p = do
    check_data_and_labels (arrays.shape v) s cs p
    check_component_labels cs
    ok (block v s cs p no_gradient)

  -- `TensorBlock(values, samples, components, properties)`: no label may be a view.
  unfoldable pub new : A → Labels → List Labels → Labels → Result (TensorBlock A)
  unfolding rust_new
  new v s cs p = do
    guard (all (λ c. not c.is_view) cs) value_error
    guard (not s.is_view) value_error
    guard (not p.is_view) value_error
    rust_new v s cs p

  -- `TensorBlock::add_gradient`
  unfoldable pub rust_add_gradient : TensorBlock A → String → TensorBlock A → Result (TensorBlock A)
  unfolding check_component_labels starts_with_sample refers_below push_gradient
  rust_add_gradient (block v s cs p g) parameter b = do
    guard (not (contains (parameters g) parameter)) metatensor_error
    guard (nat_beq (arrays.origin (values b)) (arrays.origin v)) metatensor_error
    guard (starts_with_sample (samples b).names) metatensor_error
    guard (all (refers_below (len s)) (samples b).values) metatensor_error
    check_component_labels (components b)
    guard (leb (length cs) (length (components b))) metatensor_error
    guard (equal (properties b) p) metatensor_error
    guard (same_labels (drop (length (components b) - length cs) (components b)) cs)
        metatensor_error
    ok (block v s cs p (push_gradient parameter b g))

  -- `block.add_gradient(parameter, gradient)` on two blocks that own their data: the element
  -- types and the devices are compared first.
  unfoldable pub add_gradient : TensorBlock A → String → TensorBlock A → Result (TensorBlock A)
  unfolding rust_add_gradient
  add_gradient b parameter g = do
    guard (nat_beq (arrays.dtype (values b)) (arrays.dtype (values g))) value_error
    guard (nat_beq (arrays.device (values b)) (arrays.device (values g))) value_error
    rust_add_gradient b parameter g
