-- ===== src/Operations/Sums.antt =====
-- The sums of add.py, of a valid block and a number, and of two valid blocks with the same labels.
use aml_storage.Prelude.{
  String, ◌≡◌, refl, sym, ap, ◌∙◌, fun_ext, true, ◌&&◌, none, some, List, map, arith, is_empty,
  nat_eq, ◌==◌, int_eq, list_eq, string_eq, beq_refl, beq_eq, distinct, and_true,
}
use aml_storage.Result.{ok, err, ◌>>=◌}
use aml_storage.Labels.Core.{Labels, equal}
use aml_storage.Block.Core.{
  Arrays, TensorBlock, block, Gradients, no_gradient, gradient, values, samples, components,
  properties, gradients, gradients_list, find_gradient, get_gradient, or_metatensor_error, new,
  add_gradient,
}
use aml_storage.Block.Valid.{is_valid, are_valid, describes, axes, alike}
use aml_storage.Operations.Share.{is_flat, valid_facts}
use aml_storage.Operations.Rebuild.{add_each}
use aml_storage.Block.Valid.{own_facts}
use aml_storage.Operations.Derived.{
  with_arrays, Making-itself, derived_block, Fitting, derived_block_lem,
}
use aml_storage.Operations.SameBlocks.{all_equal}
use aml_storage.Operations.SameMetadata.{all_equal_to}
use aml_storage.Operations.Arithmetic.{
  Arithmetic, add_block_constant, add_gradients_of, add_block_block,
}

shape_of :
    {A : Type 0} ⦃arrays : Arrays A⦄ (v : A) (s : Labels) (cs : List Labels) (p : Labels)
    → describes (arrays.shape v) s cs p ≡ true
    → arrays.shape v ≡ axes s cs p
shape_of ⦃arrays = arrays⦄ v s cs p h =
    let (rest, _) =
      and_true ((arrays.shape v == axes s cs p) && distinct (map (λ c. c.names) cs)) _ h in
    beq_eq (arrays.shape v) (axes s cs p) (and_true (arrays.shape v == axes s cs p) _ rest).0

equal-samples :
    {A : Type 0} (c d : TensorBlock A) → all_equal c d ≡ true → equal (samples c) (samples d) ≡ true
equal-samples c d h = ground arith

module _ {A : Type 0} ⦃arrays : Arrays A⦄ ⦃arithmetic : Arithmetic A⦄ where
  Fitting-plus_constant :
      (k : arithmetic.Constant) (v : A) (s : Labels) (cs : List Labels) (p : Labels)
      (g : Gradients A)
      → arithmetic.is_floating v ≡ true
      → are_valid v s cs p g ≡ true
      → is_flat g ≡ true
      → Fitting (arithmetic.plus_constant k v) (λ name c. values c) g
  Fitting-plus_constant k v s cs p no_gradient float valid flat = tt
  Fitting-plus_constant k v s cs p (gradient name g rest) float valid flat =
      let (fits, like, _, _, others) = valid_facts v s cs p name g rest valid in
      let (g_flat, rest_flat) = and_true (is_empty (gradients_list g)) _ flat in
      let (_, _, d, e) = arithmetic.plus_constant_lem k v float in
      (
        (refl, refl),
        rw (d, e) like,
        g_flat,
        Fitting-plus_constant k v s cs p rest float others rest_flat,
      )

  -- For a valid block of floating-point numbers whose gradients have no gradients, the sum with a
  -- number always returns: the block with the sum as its values, and its labels and its gradients as they are; and it is valid.
  pub add_block_constant-derived_block :
      (b : TensorBlock A) (k : arithmetic.Constant)
      → arithmetic.is_floating (values b) ≡ true
      → is_valid b ≡ true
      → is_flat (gradients b) ≡ true
      → (add_block_constant b k
          ≡ ok (derived_block (arithmetic.plus_constant k (values b)) (λ name c. values c) b))
        × (is_valid (derived_block (arithmetic.plus_constant k (values b)) (λ name c. values c) b)
            ≡ true)
  unfolding add_block_constant with_arrays
  add_block_constant-derived_block (block v s cs p g) k float valid flat =
      let (_, _, g_valid) = own_facts v s cs p g valid in
      let (shape, origin, _, _) = arithmetic.plus_constant_lem k v float in
      derived_block_lem (λ name c. new (values c) (samples c) (components c) (properties c))
        (arithmetic.plus_constant k v) (λ name c. values c) (block v s cs p g) valid (shape, origin)
        (Fitting-plus_constant k v s cs p g float g_valid flat)
        (Making-itself g (λ name c. values c))

  -- The sum of two arrays where there is one.
  abbrev pub sum : A → A → A
  sum a b = elim (arithmetic.plus a b) [ err raised ↦ a | ok c ↦ c ]

  sum_lem :
      (a b : A)
      → arrays.shape a ≡ arrays.shape b
      → arrays.origin a ≡ arrays.origin b
      → alike a b ≡ true
      → (arithmetic.plus a b ≡ ok (sum a b))
        × (arrays.shape (sum a b) ≡ arrays.shape a)
        × (arrays.origin (sum a b) ≡ arrays.origin a)
        × (arrays.dtype (sum a b) ≡ arrays.dtype a)
        × (arrays.device (sum a b) ≡ arrays.device a)
  sum_lem a b same from like =
      let (c, made, shape, origin, dtype, device) = arithmetic.plus_lem a b same from like in
      let it : sum a b ≡ c = rw (made, sum) refl in
      (
        made ∙ ap ok (sym it),
        ap arrays.shape it ∙ shape,
        ap arrays.origin it ∙ origin,
        ap arrays.dtype it ∙ dtype,
        ap arrays.device it ∙ device,
      )

  -- The values of the gradient of the sum: the sum with the values of the gradient of the second
  -- block with the same parameter.
  abbrev pub sum_with : Gradients A → String → TensorBlock A → A
  sum_with g name c = elim (find_gradient name g) [
    | none ↦ values c
    | some d ↦ sum (values c) (values d)
  ]

  -- Each gradient of the first list has in the second one a gradient with its parameter and its
  -- labels, and neither has gradients.
  abbrev pub Matching : Gradients A → Gradients A → Type 0
  Matching no_gradient others = Unit
  Matching (gradient name c rest) others =
      ((d : TensorBlock A) × (find_gradient name others ≡ some d)
        × (all_equal c d ≡ true)
        × (is_valid d ≡ true)
        × (arrays.origin (values c) ≡ arrays.origin (values d))
        × (alike (values c) (values d) ≡ true)
        × (is_empty (gradients_list d) ≡ true))
      × Matching rest others

  -- Valid blocks with the same labels have arrays of the same shape.
  same_shape :
      (c d : TensorBlock A)
      → is_valid c ≡ true
      → is_valid d ≡ true
      → all_equal c d ≡ true
      → arrays.shape (values c) ≡ arrays.shape (values d)
  same_shape (block v s cs p g) (block v' s' cs' p' g') valid valid' same =
      let (described, owned, _) = own_facts v s cs p g valid in
      let (described', owned', _) = own_facts v' s' cs' p' g' valid' in
      let (q, q', q'') =
        all_equal_to (block v s cs p g) (block v' s' cs' p' g') owned owned' same in
      shape_of v s cs p described
      ∙ (λ i. axes (q i) (q' i) (q'' i))
      ∙ sym (shape_of v' s' cs' p' described')

  sum_with_found :
      (g : Gradients A) (name : String) (c d : TensorBlock A)
      → find_gradient name g ≡ some d
      → sum_with g name c ≡ sum (values c) (values d)
  sum_with_found g name c d found = rw (found, sum_with) refl

  -- The loop over the gradients makes them from the sums.
  add_gradients_of-add_each :
      (g : Gradients A) (b : TensorBlock A) (nb : TensorBlock A) (v : A) (s : Labels)
      (cs : List Labels) (p : Labels)
      → are_valid v s cs p g ≡ true
      → is_flat g ≡ true
      → Matching g (gradients b)
      → add_gradients_of g b nb
        ≡ add_each
            (λ name c.
              new (sum_with (gradients b) name c) (samples c) (components c) (properties c))
            nb
            g
  unfolding add_gradients_of add_each get_gradient or_metatensor_error
  add_gradients_of-add_each no_gradient b nb v s cs p valid flat matching = refl
  add_gradients_of-add_each (gradient name c rest) b nb v s cs p valid flat
        ((d, found, same, d_valid, from, like, d_flat), others) =
      let (_, _, _, c_valid, rest_valid) = valid_facts v s cs p name c rest valid in
      let (c_flat, rest_flat) = and_true (is_empty (gradients_list c)) _ flat in
      let shapes = same_shape c d c_valid d_valid same in
      let (added, _, _, _, _) = sum_lem (values c) (values d) shapes from like in
      rw
        (
          found,
          ← shapes,
          beq_refl (arrays.shape (values c)),
          equal-samples c d same,
          c_flat,
          d_flat,
          added,
          sum_with_found (gradients b) name c d found,
        )
        (ap
          (λ k. do
            g' ← new (sum (values c) (values d)) (samples c) (components c) (properties c)
            nb' ← add_gradient nb name g'
            k nb')
          (fun_ext
            (λ nb'. add_gradients_of-add_each rest b nb' v s cs p rest_valid rest_flat others)))

  Fitting-sum_with :
      (g : Gradients A) (b : TensorBlock A) (v w : A) (s : Labels) (cs : List Labels) (p : Labels)
      → arrays.dtype w ≡ arrays.dtype v
      → arrays.device w ≡ arrays.device v
      → are_valid v s cs p g ≡ true
      → is_flat g ≡ true
      → Matching g (gradients b)
      → Fitting w (sum_with (gradients b)) g
  Fitting-sum_with no_gradient b v w s cs p dtype device valid flat matching = tt
  Fitting-sum_with (gradient name c rest) b v w s cs p dtype device valid flat
        ((d, found, same, d_valid, from, like, d_flat), others) =
      let (_, c_like, _, c_valid, rest_valid) = valid_facts v s cs p name c rest valid in
      let (c_flat, rest_flat) = and_true (is_empty (gradients_list c)) _ flat in
      let (_, shape, origin, dtype', device') =
        sum_lem (values c) (values d) (same_shape c d c_valid d_valid same) from like in
      (
        rw (sum_with_found (gradients b) name c d found) (shape, origin),
        rw (sum_with_found (gradients b) name c d found, dtype, device, dtype', device') c_like,
        c_flat,
        Fitting-sum_with rest b v w s cs p dtype device rest_valid rest_flat others,
      )

  pub add_block_block-derived_block :
      (a b : TensorBlock A)
      → is_valid a ≡ true
      → is_valid b ≡ true
      → is_flat (gradients a) ≡ true
      → all_equal a b ≡ true
      → arrays.origin (values a) ≡ arrays.origin (values b)
      → alike (values a) (values b) ≡ true
      → Matching (gradients a) (gradients b)
      → (add_block_block a b
          ≡ ok (derived_block (sum (values a) (values b)) (sum_with (gradients b)) a))
        × (is_valid (derived_block (sum (values a) (values b)) (sum_with (gradients b)) a) ≡ true)
  unfolding add_block_block
  add_block_block-derived_block (block v s cs p g) b valid b_valid flat same from like matching =
      let (_, _, g_valid) = own_facts v s cs p g valid in
      let (added, shape, origin, dtype, device) =
        sum_lem v (values b) (same_shape (block v s cs p g) b valid b_valid same) from like in
      rw (added, fun_ext (λ nb. add_gradients_of-add_each g b nb v s cs p g_valid flat matching))
        (derived_block_lem
          (λ name c. new (sum_with (gradients b) name c) (samples c) (components c) (properties c))
          (sum v (values b)) (sum_with (gradients b)) (block v s cs p g) valid (shape, origin)
          (Fitting-sum_with g b v (sum v (values b)) s cs p dtype device g_valid flat matching)
          (Making-itself g (sum_with (gradients b))))
