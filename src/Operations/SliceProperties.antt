-- ===== src/Operations/SliceProperties.antt =====
-- The slices of slice.py along the properties of a valid block.
use aml_storage.Prelude.{
  ℕ, fun_ext, ◌≡◌, refl, true, false, List, is_empty, all, nat_eq, int_eq, list_eq, string_eq,
  contains, and_true,
}
use aml_storage.Result.{ok}
use aml_storage.Numpy.{Numpy}
use aml_storage.Labels.Core.{Labels, len}
use aml_storage.Labels.Valid.{IsValid}
use aml_storage.Block.Core.{
  Arrays, TensorBlock, block, Gradients, no_gradient, gradient, samples, components, properties,
  gradients, gradients_list,
}
use aml_storage.Block.Valid.{own_facts, is_valid, are_valid}
use aml_storage.Operations.Share.{is_flat, valid_facts, new_block}
use aml_storage.Operations.Rebuild.{Makes, rebuild_lem}
use aml_storage.Operations.Indexing.{Indexing, mask_of}
use aml_storage.Operations.KeptRows.{kept_labels}
use aml_storage.Operations.Slice.{
  slice_properties, gradient_of_properties, by_labels, check_slice_args, selected_positions,
  sliced_block, slice_block,
}
use aml_storage.Labels.Selection.{is_selected, select-is_selected}
use aml_storage.Operations.SlicedProperties.{
  init-masked, where_true-mask_of, kept_columns, sliced_gradients, with_properties, kept_gradient,
  is_valid-with_properties,
}

module _ ⦃np : Numpy⦄ {A : Type 0} ⦃arrays : Arrays A⦄ ⦃indexing : Indexing A⦄
    (selected : List ℕ) where
  Makes-sliced_gradients :
      (v : A) (s : Labels) (cs : List Labels) (p : Labels) (g : Gradients A)
      → are_valid v s cs p g ≡ true
      → is_flat g ≡ true
      → Makes
          (gradient_of_properties (mask_of (len p) selected) (kept_labels (contains selected) p))
          g
          (sliced_gradients (contains selected) p g)
  unfolding gradient_of_properties
  Makes-sliced_gradients v s cs p no_gradient valid flat = tt
  Makes-sliced_gradients v s cs p (gradient name g rest) valid flat =
      let (fits, like, later, g_valid, others) = valid_facts v s cs p name g rest valid in
      let (g_flat, rest_flat) = and_true (is_empty (gradients_list g)) _ flat in
      let (_, _, whole) = kept_gradient (contains selected) v s cs p g fits like g_valid in
      (
        refl,
        g_flat,
        rw (where_true-mask_of (len p) selected) (
            new_block _ (samples g) (components g) (kept_labels (contains selected) p) no_gradient
              whole),
        Makes-sliced_gradients v s cs p rest others rest_flat,
      )

  -- For a valid block whose properties satisfy the invariant of labels, and whose gradients have no
  -- gradients, the slice along the properties always returns: the properties at the selected
  -- positions in their order, each once, with the values and the values of each gradient at these
  -- positions, and the samples, the components and the parameters as they are; and this block is
  -- valid.
  pub slice_properties-with_properties :
      (b : TensorBlock A)
      → is_valid b ≡ true
      → is_flat (gradients b) ≡ true
      → IsValid (properties b)
      → (slice_properties b selected ≡ ok (with_properties (contains selected) b))
        × (is_valid (with_properties (contains selected) b) ≡ true)
  unfolding slice_properties
  slice_properties-with_properties (block v s cs p g) h flat labelled =
      let (_, _, valid) = own_facts v s cs p g h in
      let whole = is_valid-with_properties (contains selected) (block v s cs p g) h in
      (
        rw (init-masked p labelled selected, where_true-mask_of (len p) selected)
            (rebuild_lem
              (gradient_of_properties (mask_of (len p) selected)
                (kept_labels (contains selected) p))
              (kept_columns (contains selected) p v) s cs (kept_labels (contains selected) p) g
              (sliced_gradients (contains selected) p g)
              (Makes-sliced_gradients v s cs p g valid flat) whole),
        whole,
      )

module _ ⦃np : Numpy⦄ {A : Type 0} ⦃arrays : Arrays A⦄ ⦃indexing : Indexing A⦄ (b : TensorBlock A)
    (valid : is_valid b ≡ true) (flat : is_flat (gradients b) ≡ true)
    (labelled : IsValid (properties b)) where
  -- For a valid block whose properties satisfy the invariant of labels, and whose gradients have no
  -- gradients, and for a valid selection with at least one name, all of them names of the
  -- properties, `slice_block` along the properties always returns: the properties that agree with
  -- an entry of the selection, in their order, with the entries of the values and of the values
  -- of each gradient at their positions, and the samples, the components and the parameters of the gradients as they
  -- are; and this block is valid.
  pub slice_block-properties :
      (selection : Labels)
      → IsValid selection
      → all (contains (properties b).names) selection.names ≡ true
      → is_empty selection.names ≡ false
      → (slice_block b "properties" (by_labels selection)
          ≡ ok (with_properties (is_selected (properties b) selection) b))
        × (is_valid (with_properties (is_selected (properties b) selection) b) ≡ true)
  unfolding slice_block check_slice_args sliced_block selected_positions contains
  slice_block-properties selection sound known named =
      let (chosen, selected, same) =
        select-is_selected (properties b) selection labelled sound known named in
      let (sliced, whole) = slice_properties-with_properties chosen b valid flat labelled in
      rw (known, selected, ← fun_ext same) (sliced, whole)
