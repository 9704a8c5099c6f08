-- ===== src/Operations/SliceSamples.antt =====
-- The slices of slice.py along the samples of a valid block.
use aml_storage.Prelude.{
  ℕ, ◌≤◌, ℤ, pos, negsuc, String, ◌≡◌, refl, sym, ap, ◌∙◌, true, false, List, [], ◌∷◌, arith,
  length, is_empty, all, ltb, nat_eq, int_eq, list_eq, string_eq, contains, distinct, and_true,
  and_intro,
}
use aml_storage.Result.{ok, map_m, map_m-eq_ok, ok_injective}
use aml_storage.Numpy.{Numpy}
use aml_storage.Labels.Core.{Labels, len}
use aml_storage.Labels.Valid.{IsValid}
use aml_storage.Block.Core.{
  Arrays, TensorBlock, block, Gradients, no_gradient, gradient, values, samples, components,
  gradients, gradients_list, starts_with_sample, refers_below,
}
use aml_storage.Block.Valid.{is_valid, are_valid}
use aml_storage.Operations.Share.{is_flat, valid_facts, new_block}
use aml_storage.Operations.Rebuild.{Makes, rebuild_lem}
use aml_storage.Operations.Indexing.{Indexing, mask_of, position_along}
use aml_storage.Block.Valid.{own_facts, is_valid_intro}
use aml_storage.Operations.Picked.{length-picked}
use aml_storage.Operations.Renumber.{
  filter, masked-filter, all-filter, all_pass, refers_to, mask_items, renumbered_rows,
}
use aml_storage.Operations.FollowedSamples.{
  picked_labels, followed_labels, AreLabelled, init-picked, column_sample, init-followed_labels,
  followed_rows, followed_gradients, with_samples, parameters-followed_gradients, describes-rows,
  followed_gradient,
}
use aml_storage.Operations.Slice.{
  slice_samples, gradient_of_samples, sample_map, slice_block, check_slice_args, sliced_block,
  selected_positions, indices,
}

module _ {A : Type 0} ⦃arrays : Arrays A⦄ ⦃indexing : Indexing A⦄ (selected : List ℕ)
    (few : length selected ≤ 0x8000_0000) where
  are_valid-followed_gradients :
      (v : A) (s : Labels) (cs : List Labels) (p : Labels) (g : Gradients A)
      → all (λ i. ltb i (len s)) selected ≡ true
      → p.is_view ≡ false
      → AreLabelled g
      → are_valid v s cs p g ≡ true
      → are_valid
          (indexing.rows v selected)
          (picked_labels selected s)
          cs
          p
          (followed_gradients selected p g)
        ≡ true
  unfolding are_valid
  are_valid-followed_gradients v s cs p no_gradient below owned labelled h = refl
  are_valid-followed_gradients v s cs p (gradient name g rest) below owned (l, ls) h =
      let (fits, like, later, valid, others) = valid_facts v s cs p name g rest h in
      let (fits', like', valid') =
        followed_gradient selected v s cs p g few below owned l fits like valid in
      let rest' = are_valid-followed_gradients v s cs p rest below owned ls others in
      rw (fits', like', parameters-followed_gradients selected p rest, later, valid') rest'

  -- The block with the selected samples is valid where the block is.
  is_valid-with_samples :
      (v : A) (s : Labels) (cs : List Labels) (p : Labels) (g : Gradients A)
      → all (λ i. ltb i (len s)) selected ≡ true
      → AreLabelled g
      → is_valid (block v s cs p g) ≡ true
      → is_valid (with_samples selected (block v s cs p g)) ≡ true
  is_valid-with_samples v s cs p g below labelled h =
      let (described, owned, valid) = own_facts v s cs p g h in
      is_valid_intro (indexing.rows v selected) (picked_labels selected s) cs p
        (followed_gradients selected p g)
        (describes-rows selected v s (picked_labels selected s) cs p p selected refl
          (length-picked s.values selected below) below described)
        (ground arith) (are_valid-followed_gradients v s cs p g below (ground arith) labelled valid)

  module _ ⦃np : Numpy⦄ (apart : distinct selected ≡ true) where
    gradient_of_samples_lem :
        (n : ℕ) (p : Labels) (name : String) (g : TensorBlock A)
        → IsValid (samples g)
        → starts_with_sample (samples g).names ≡ true
        → all (refers_below n) (samples g).values ≡ true
        → is_valid (
            block
              (followed_rows selected (samples g) (values g))
              (followed_labels selected (samples g))
              (components g)
              p
              no_gradient)
          ≡ true
        → gradient_of_samples (mask_of n selected) (sample_map n selected) p name g
          ≡ ok (
              block
                (followed_rows selected (samples g) (values g))
                (followed_labels selected (samples g))
                (components g)
                p
                no_gradient)
    unfolding gradient_of_samples
    gradient_of_samples_lem n p name g labelled named refer whole =
        let rows = (samples g).values in
        rw
          (
            column_sample selected apart few (samples g) labelled named,
            mask_items selected n rows refer,
            masked-filter (refers_to selected) rows,
            renumbered_rows selected n (filter (refers_to selected) rows) apart
                (all-filter (refers_to selected) (refers_below n) rows refer)
                (all_pass (refers_to selected) rows),
            init-followed_labels selected apart few (samples g) labelled named,
          )
          (new_block _ (followed_labels selected (samples g)) (components g) p no_gradient whole)

    Makes-followed_gradients :
        (v : A) (s : Labels) (cs : List Labels) (p : Labels) (g : Gradients A)
        → all (λ i. ltb i (len s)) selected ≡ true
        → p.is_view ≡ false
        → AreLabelled g
        → are_valid v s cs p g ≡ true
        → is_flat g ≡ true
        → Makes
            (gradient_of_samples (mask_of (len s) selected) (sample_map (len s) selected) p)
            g
            (followed_gradients selected p g)
    Makes-followed_gradients v s cs p no_gradient below owned labelled valid flat = tt
    Makes-followed_gradients v s cs p (gradient name g rest) below owned (l, ls) valid flat =
        let (fits, like, later, g_valid, others) = valid_facts v s cs p name g rest valid in
        let (g_flat, rest_flat) = and_true (is_empty (gradients_list g)) _ flat in
        let (_, _, whole) =
          followed_gradient selected v s cs p g few below owned l fits like g_valid in
        (
          refl,
          g_flat,
          gradient_of_samples_lem (len s) p name g l (ground arith) (ground arith) whole,
          Makes-followed_gradients v s cs p rest below owned ls others rest_flat,
        )

    pub slice_samples-with_samples :
        (b : TensorBlock A)
        → all (λ i. ltb i (len (samples b))) selected ≡ true
        → is_valid b ≡ true
        → is_flat (gradients b) ≡ true
        → IsValid (samples b)
        → AreLabelled (gradients b)
        → (slice_samples b selected ≡ ok (with_samples selected b))
          × (is_valid (with_samples selected b) ≡ true)
    unfolding slice_samples
    slice_samples-with_samples (block v s cs p g) below h flat labelled gradients_labelled =
        let (_, owned, valid) = own_facts v s cs p g h in
        let p_owned : p.is_view ≡ false = ground arith in
        let whole = is_valid-with_samples v s cs p g below gradients_labelled h in
        (
          rw (init-picked s selected labelled apart) (
              rebuild_lem
                (gradient_of_samples (mask_of (len s) selected) (sample_map (len s) selected) p)
                (indexing.rows v selected) (picked_labels selected s) cs p g
                (followed_gradients selected p g)
                (Makes-followed_gradients v s cs p g below p_owned gradients_labelled valid flat)
                whole),
          whole,
        )

-- The positions that indices stand for are in range.
position_along-ltb : (n : ℕ) (i : ℤ) {j : ℕ} → position_along n i ≡ ok j → ltb j n ≡ true
unfolding position_along
position_along-ltb n (pos i) h = ground arith
position_along-ltb n (negsuc k) h = ground arith

positions_below :
    (n : ℕ) (is : List ℤ) {selected : List ℕ}
    → map_m (position_along n) is ≡ ok selected
    → all (λ j. ltb j n) selected ≡ true
unfolding map_m
positions_below n [] h = ap (all (λ j. ltb j n)) (sym (ok_injective h))
positions_below n (i ∷ is) h =
    let (j, js, first, others, same) = map_m-eq_ok (position_along n) i is h in
    ap (all (λ j. ltb j n)) (sym same)
    ∙ and_intro (ltb j n) _ (position_along-ltb n i first) (positions_below n is others)

module _ ⦃np : Numpy⦄ {A : Type 0} ⦃arrays : Arrays A⦄ ⦃indexing : Indexing A⦄ (b : TensorBlock A)
    (valid : is_valid b ≡ true) (flat : is_flat (gradients b) ≡ true)
    (labelled : IsValid (samples b)) (gradients_labelled : AreLabelled (gradients b)) where
  -- For a valid block whose samples, and those of its gradients, satisfy the invariant of labels,
  -- and whose gradients have no gradients, and for indices of different samples, at most 2 ^ 31 of
  -- them, `slice_block` along the samples always returns: the samples at these positions, in the
  -- order of the indices, with their values; of each gradient the samples that refer to one of
  -- them, by its new position, in their order, with their values; and the components, the properties and the parameters as they
  -- are; and this block is valid.
  pub slice_block-samples :
      (is : List ℤ) (selected : List ℕ)
      → map_m (position_along (len (samples b))) is ≡ ok selected
      → distinct selected ≡ true
      → length selected ≤ 0x8000_0000
      → (slice_block b "samples" (indices is) ≡ ok (with_samples selected b))
        × (is_valid (with_samples selected b) ≡ true)
  unfolding slice_block check_slice_args sliced_block selected_positions contains
  slice_block-samples is selected found apart few =
      let (sliced, whole) =
        slice_samples-with_samples selected few apart b (positions_below (len (samples b)) is found)
          valid flat labelled gradients_labelled in
      rw found (sliced, whole)
