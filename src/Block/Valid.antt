-- ===== src/Block/Valid.antt =====
-- The invariant of a block and of its gradients, at any depth: the array has the shape that the
-- labels give, and each gradient agrees with the block that it belongs to; and the outcome of the
-- constructors of block.py and blocks.rs by cases.
use aml_storage.Prelude.{
  ℕ, ◌+◌, ◌-◌, ◌≡◌, refl, Bool, true, ◌&&◌, not, List, [], ◌∷◌, ◌++◌, map, arith, length, all, drop,
  nat_beq, leb, if◌then◌else◌, ◌==◌, nat_eq, int_eq, list_eq, string_eq, list_beq, contains,
  distinct, and_true,
}
use aml_storage.Result.{ok, err, guard, value_error, metatensor_error}
use aml_storage.Labels.Core.{Labels, len, size, equal}
use aml_storage.Block.Core.{
  Arrays, TensorBlock, block, Gradients, no_gradient, gradient, values, samples, components,
  properties, parameters, inner_axes_match, check_data_and_labels, rust_new, new, same_labels,
  starts_with_sample, refers_below,
}

-- The shape that the labels give: samples, components in order, properties.
abbrev pub axes : Labels → List Labels → Labels → List ℕ
axes s cs p = len s ∷ (map len cs ++ len p ∷ [])

-- A label of components has one dimension and at least one entry.
abbrev pub is_component : Labels → Bool
is_component c = nat_beq (size c) 1 && not (nat_beq (len c) 0)

-- The conditions on an array and its labels.
abbrev pub describes : List ℕ → Labels → List Labels → Labels → Bool
describes shape s cs p =
    (shape == axes s cs p) && distinct (map (λ c. c.names) cs) && all is_component cs

-- The conditions on the labels and the array of a gradient of a block.
abbrev pub belongs : ℕ → ℕ → Labels → List Labels → Labels → Labels → List Labels → Labels → Bool
belongs origin origin' s cs p s' cs' p' =
    nat_beq origin' origin
    && starts_with_sample s'.names
    && all (refers_below (len s)) s'.values
    && leb (length cs) (length cs')
    && equal p' p
    && same_labels (drop (length cs' - length cs) cs') cs

-- No label of a block is a view.
abbrev pub are_owned : Labels → List Labels → Labels → Bool
are_owned s cs p = all (λ c. not c.is_view) cs && not s.is_view && not p.is_view

module _ {A : Type 0} ⦃arrays : Arrays A⦄ where
  -- Two arrays with the same element type, on the same device.
  abbrev pub alike : A → A → Bool
  alike a b =
      nat_beq (arrays.dtype a) (arrays.dtype b) && nat_beq (arrays.device a) (arrays.device b)

  unfoldable mutual
    pub is_valid : TensorBlock A → Bool
    is_valid (block v s cs p g) =
        describes (arrays.shape v) s cs p && are_owned s cs p && are_valid v s cs p g

    pub are_valid : A → Labels → List Labels → Labels → Gradients A → Bool
    are_valid v s cs p no_gradient = true
    are_valid v s cs p (gradient name b rest) =
        belongs (arrays.origin v) (arrays.origin (values b)) s cs p (samples b) (components b)
          (properties b)
        && alike v (values b)
        && not (contains (parameters rest) name)
        && is_valid b
        && are_valid v s cs p rest

inner_axes_match-eq :
    (shape : List ℕ) (cs : List Labels) (p : Labels)
    → inner_axes_match shape cs p ≡ (shape == map len cs ++ len p ∷ [])
unfolding inner_axes_match list_beq
inner_axes_match-eq [] [] p = refl
inner_axes_match-eq [] (c ∷ cs) p = refl
inner_axes_match-eq (n ∷ []) [] p = refl
inner_axes_match-eq (n ∷ m ∷ shape) [] p = ground arith
inner_axes_match-eq (n ∷ shape) (c ∷ cs) p = ground (arith, inner_axes_match-eq shape cs p)

length_of_inner_axes :
    (shape : List ℕ) (cs : List Labels) (p : Labels)
    → inner_axes_match shape cs p ≡ true
    → length shape ≡ length cs + 1
unfolding inner_axes_match
length_of_inner_axes [] cs p h = absurd (ground arith)
length_of_inner_axes (n ∷ []) [] p h = omega arith
length_of_inner_axes (n ∷ m ∷ shape) [] p h = absurd (ground arith)
length_of_inner_axes (n ∷ shape) (c ∷ cs) p h =
    omega (arith, length_of_inner_axes shape cs p (and_true (nat_beq n (len c)) _ h).1)

check_data_and_labels_lem :
    (shape : List ℕ) (s : Labels) (cs : List Labels) (p : Labels)
    → check_data_and_labels shape s cs p
      ≡ guard ((shape == axes s cs p) && distinct (map (λ c. c.names) cs)) metatensor_error
unfolding check_data_and_labels list_beq
check_data_and_labels_lem [] s cs p = ground arith
check_data_and_labels_lem (n ∷ shape) s cs p =
    ground (arith, inner_axes_match-eq shape cs p, length_of_inner_axes shape cs p)

module _ {A : Type 0} ⦃arrays : Arrays A⦄ where
  -- A block is made exactly when the shape of the array is the number of samples, the numbers of
  -- entries of the components in order, and the number of properties, the components have
  -- different names, and each has one dimension and some entry; else it is a MetatensorError.
  pub rust_new_lem :
      (v : A) (s : Labels) (cs : List Labels) (p : Labels)
      → rust_new v s cs p ≡ (
          if describes (arrays.shape v) s cs p
          then ok (block v s cs p no_gradient)
          else err metatensor_error)
  unfolding rust_new
  rust_new_lem v s cs p = ground (arith, check_data_and_labels_lem (arrays.shape v) s cs p)

  -- The outcome of every call of the constructor of a block: a ValueError where a label is a view;
  -- else a MetatensorError unless the shape of the array is the number of samples, the numbers of
  -- entries of the components in order, and the number of properties, the components have
  -- different names, and each has one dimension and some entry; else the block with these parts
  -- and no gradient.
  pub new_lem :
      (v : A) (s : Labels) (cs : List Labels) (p : Labels)
      → new v s cs p ≡ (
          if are_owned s cs p
          then if describes (arrays.shape v) s cs p
            then ok (block v s cs p no_gradient)
            else err metatensor_error
          else err value_error)
  unfolding new
  new_lem v s cs p = ground (arith, rust_new_lem v s cs p)

  -- What a valid block meets, and its converse.
  pub own_facts :
      (v : A) (s : Labels) (cs : List Labels) (p : Labels) (g : Gradients A)
      → is_valid (block v s cs p g) ≡ true
      → (describes (arrays.shape v) s cs p ≡ true)
        × (are_owned s cs p ≡ true)
        × (are_valid v s cs p g ≡ true)
  unfolding is_valid
  own_facts v s cs p g h = ground arith

  pub is_valid_intro :
      (v : A) (s : Labels) (cs : List Labels) (p : Labels) (g : Gradients A)
      → describes (arrays.shape v) s cs p ≡ true
      → are_owned s cs p ≡ true
      → are_valid v s cs p g ≡ true
      → is_valid (block v s cs p g) ≡ true
  unfolding is_valid
  is_valid_intro v s cs p g described owned h = ground arith
