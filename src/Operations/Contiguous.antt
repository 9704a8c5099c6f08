-- ===== src/Operations/Contiguous.antt =====
-- make_contiguous.py makes what is_contiguous.py looks for.
use aml_storage.Prelude.{
  ◌≡◌, refl, ap, ap₂, true, arith, is_empty, nat_eq, and_true, Bool-cases, inl, inr,
}
use aml_storage.Result.{ok}
use aml_storage.Block.Core.{
  Arrays, TensorBlock, block, Gradients, no_gradient, gradient, values, samples, components,
  properties, gradients, gradients_list,
}
use aml_storage.Block.Valid.{is_valid}
use aml_storage.Operations.Share.{is_flat}
use aml_storage.Operations.Derived.{derived, derived_block}
use aml_storage.Operations.Storage.{
  Storage, contiguous, Keeps-contiguous, is_contiguous_array-contiguous, with_arrays-derived_block,
  make_contiguous_block, are_contiguous, is_contiguous_block,
}
use aml_storage.Prelude.{ap₂}

module _ {A : Type 0} ⦃arrays : Arrays A⦄ ⦃storage : Storage A⦄ where
  -- A block is contiguous where its values and those of its gradients, without gradients, are.
  are_contiguous-derived :
      (g : Gradients A) → are_contiguous (derived (λ name c. contiguous (values c)) g) ≡ ok true
  unfolding are_contiguous
  are_contiguous-derived no_gradient = refl
  are_contiguous-derived (gradient name g rest) =
      rw (is_contiguous_array-contiguous (values g)) (are_contiguous-derived rest)

  contiguous_self : (a : A) → storage.is_contiguous_array a ≡ true → contiguous a ≡ a
  unfolding contiguous
  contiguous_self a h = rw (h, contiguous) refl

  contiguous_gradient :
      (g : TensorBlock A)
      → is_empty (gradients_list g) ≡ true
      → storage.is_contiguous_array (values g) ≡ true
      → block (contiguous (values g)) (samples g) (components g) (properties g) no_gradient ≡ g
  contiguous_gradient (block v s cs p no_gradient) flat h =
      ap (λ w. block w s cs p no_gradient) (contiguous_self v h)
  contiguous_gradient (block v s cs p (gradient name g rest)) flat h = absurd (ground arith)

  derived-contiguous :
      (g : Gradients A)
      → is_flat g ≡ true
      → are_contiguous g ≡ ok true
      → derived (λ name c. contiguous (values c)) g ≡ g
  unfolding are_contiguous
  derived-contiguous no_gradient flat h = refl
  derived-contiguous (gradient name g rest) flat h =
      let (g_flat, rest_flat) = and_true (is_empty (gradients_list g)) _ flat in
      elim (Bool-cases (storage.is_contiguous_array (values g))) [
        | inl yes' ↦
            ap₂ (λ c others. gradient name c others) (contiguous_gradient g g_flat yes')
              (derived-contiguous rest rest_flat (rw (g_flat, yes') at h))
        | inr no' ↦ absurd (let h' = rw (g_flat, no') at h in ground arith)
      ]

  -- For a valid block whose gradients have no gradients, `make_contiguous_block` always returns a
  -- valid block with the labels and the parameters of the block, for which `is_contiguous_block`
  -- is true; and it returns the block itself where this is true of it.
  pub make_contiguous_block-is_contiguous_block :
      (b : TensorBlock A)
      → is_valid b ≡ true
      → is_flat (gradients b) ≡ true
      → (c : TensorBlock A) × (make_contiguous_block b ≡ ok c)
        × (is_valid c ≡ true)
        × (is_contiguous_block c ≡ ok true)
        × (c ≡ derived_block (contiguous (values b)) (λ name g. contiguous (values g)) b)
        × (is_contiguous_block b ≡ ok true → c ≡ b)
  unfolding make_contiguous_block is_contiguous_block
  make_contiguous_block-is_contiguous_block (block v s cs p g) valid flat =
      let (made, whole) =
        with_arrays-derived_block contiguous Keeps-contiguous (block v s cs p g) valid flat in
      (
        derived_block (contiguous v) (λ name c. contiguous (values c)) (block v s cs p g),
        made,
        whole,
        rw (is_contiguous_array-contiguous v) (are_contiguous-derived g),
        refl,
        λ h. elim (Bool-cases (storage.is_contiguous_array v)) [
          | inl yes' ↦
              ap₂ (λ w h. block w s cs p h) (contiguous_self v yes')
                (derived-contiguous g flat (rw yes' at h))
          | inr no' ↦ absurd (let h' = rw no' at h in ground arith)
        ],
      )
