-- ===== src/Operations/SlicedProperties.antt =====
-- The block that slice.py makes along the properties of a valid block, which is valid.
use aml_storage.Prelude.{
  ℕ, ◌≡◌, refl, ap, ◌∙◌, Bool, true, ◌&&◌, List, [], ◌∷◌, ◌++◌, map, arith, length, nat_eq, int_eq,
  list_eq, string_eq, beq_refl, beq_eq, contains, distinct, and_true, ◌==◌,
}
use aml_storage.Result.{ok}
use aml_storage.Numpy.{Numpy, array_2d, integral}
use aml_storage.Labels.Names.{sequence}
use aml_storage.Labels.Core.{Labels, len, size, init, equal}
use aml_storage.Labels.Valid.{IsValid, create_new_labels_lem}
use aml_storage.Labels.Editing.{init_stored}
use aml_storage.Block.Core.{
  Arrays, TensorBlock, block, Gradients, no_gradient, gradient, values, samples, components,
  properties, parameters,
}
use aml_storage.Block.Valid.{
  own_facts, is_valid_intro, is_valid, are_valid, describes, axes, belongs, alike,
}
use aml_storage.Operations.Share.{valid_facts}
use aml_storage.Labels.Equality.{equal_refl}
use aml_storage.Operations.Indexing.{Indexing, masked, where_true, mask_of}
use aml_storage.Operations.KeptRows.{
  keep_where, kept_labels, all-keep_where, distinct-keep_where, no_rows_without_names,
}
use aml_storage.Operations.Masks.{
  kept_positions, kept_positions_below, mask_of-contains, masked-keep_where, length-keep_where,
  where_true-keep_where,
}

module _ ⦃np : Numpy⦄ (l : Labels) (valid : IsValid l) (selected : List ℕ) where
  -- The labels with the entries that the mask keeps.
  pub init-masked :
      init
        (sequence l.names)
        (array_2d integral (size l) (masked (mask_of (len l) selected) l.values))
      ≡ ok (kept_labels (contains selected) l)
  init-masked =
      let keep = contains selected in
      rw (mask_of-contains (len l) selected, masked-keep_where keep 0 l.values)
        (init_stored l.names (size l) (keep_where keep 0 l.values) refl
            (all-keep_where _ keep 0 l.values valid.stored)
          ∙ create_new_labels_lem l.names (keep_where keep 0 l.values)
          ∙ rw
              (
                valid.valid_names,
                valid.distinct_names,
                distinct-keep_where keep 0 l.values valid.distinct_rows,
                no_rows_without_names l keep valid,
              )
              refl)

pub where_true-mask_of :
    (n : ℕ) (selected : List ℕ)
    → where_true 0 (mask_of n selected) ≡ kept_positions (contains selected) n
where_true-mask_of n selected =
    rw (mask_of-contains n selected) (where_true-keep_where (contains selected) 0 n)

pub len-equal : (a b : Labels) → equal a b ≡ true → len a ≡ len b
unfolding equal
len-equal a b h = ap length (beq_eq a.values b.values (and_true (a.names == b.names) _ h).1)

module _ {A : Type 0} ⦃arrays : Arrays A⦄ ⦃indexing : Indexing A⦄ (keep : ℕ → Bool) where
  -- The entries of the last axis that are kept, of an array with labels `p` along it.
  abbrev pub kept_columns : Labels → A → A
  kept_columns p v = indexing.columns v (kept_positions keep (len p))

  -- The gradients with the kept properties `p`.
  abbrev pub sliced_gradients : Labels → Gradients A → Gradients A
  sliced_gradients p no_gradient = no_gradient
  sliced_gradients p (gradient name g rest) =
      gradient name
        (block (kept_columns p (values g)) (samples g) (components g) (kept_labels keep p)
          no_gradient)
        (sliced_gradients p rest)

  -- The block with the kept properties, in each of its arrays, and all else as it is.
  abbrev pub with_properties : TensorBlock A → TensorBlock A
  with_properties (block v s cs p g) =
      block (kept_columns p v) s cs (kept_labels keep p) (sliced_gradients p g)

  parameters-sliced_gradients :
      (p : Labels) (g : Gradients A) → parameters (sliced_gradients p g) ≡ parameters g
  parameters-sliced_gradients p no_gradient = refl
  parameters-sliced_gradients p (gradient name g rest) =
      ap (λ names. name ∷ names) (parameters-sliced_gradients p rest)

  describes-kept_columns :
      (v : A) (s : Labels) (cs : List Labels) (q p : Labels)
      → len q ≡ len p
      → describes (arrays.shape v) s cs q ≡ true
      → describes (arrays.shape (kept_columns p v)) s cs (kept_labels keep p) ≡ true
  describes-kept_columns v s cs q p same h =
      let (rest, comps) =
        and_true ((arrays.shape v == axes s cs q) && distinct (map (λ c. c.names) cs)) _ h in
      let (shaped, named) = and_true (arrays.shape v == axes s cs q) _ rest in
      rw
        (
          indexing.shape-columns v (kept_positions keep (len p)) (len s ∷ map len cs) (len p)
              (beq_eq (arrays.shape v) (axes s cs q) shaped
                ∙ ap (λ n. len s ∷ (map len cs ++ n ∷ [])) same)
              (kept_positions_below keep (len p)),
          length-keep_where keep 0 p.values,
          beq_refl (axes s cs (kept_labels keep p)),
          named,
        )
        comps

  -- A gradient of the sliced block is valid, and belongs to it.
  pub kept_gradient :
      (v : A) (s : Labels) (cs : List Labels) (p : Labels) (g : TensorBlock A)
      → belongs
          (arrays.origin v)
          (arrays.origin (values g))
          s
          cs
          p
          (samples g)
          (components g)
          (properties g)
        ≡ true
      → alike v (values g) ≡ true
      → is_valid g ≡ true
      → (belongs
            (arrays.origin (kept_columns p v))
            (arrays.origin (kept_columns p (values g)))
            s
            cs
            (kept_labels keep p)
            (samples g)
            (components g)
            (kept_labels keep p)
          ≡ true)
        × (alike (kept_columns p v) (kept_columns p (values g)) ≡ true)
        × (is_valid (
              block
                (kept_columns p (values g))
                (samples g)
                (components g)
                (kept_labels keep p)
                no_gradient)
            ≡ true)
  unfolding are_valid
  kept_gradient v s cs p (block w s' cs' p' h) fits like valid =
      let (o, d, e) = indexing.columns_alike v (kept_positions keep (len p)) in
      let (o', d', e') = indexing.columns_alike w (kept_positions keep (len p)) in
      let (described, owned, _) = own_facts w s' cs' p' h valid in
      let same = len-equal p' p (ground arith) in
      (
        rw (o, o') (ground (arith, equal_refl (kept_labels keep p))),
        rw (d, d', e, e') like,
        is_valid_intro (kept_columns p w) s' cs' (kept_labels keep p) no_gradient
            (describes-kept_columns w s' cs' p' p same described) (ground arith) refl,
      )

  are_valid-sliced_gradients :
      (v : A) (s : Labels) (cs : List Labels) (p : Labels) (g : Gradients A)
      → are_valid v s cs p g ≡ true
      → are_valid (kept_columns p v) s cs (kept_labels keep p) (sliced_gradients p g) ≡ true
  unfolding are_valid
  are_valid-sliced_gradients v s cs p no_gradient h = refl
  are_valid-sliced_gradients v s cs p (gradient name g rest) h =
      let (fits, like, later, valid, others) = valid_facts v s cs p name g rest h in
      let (fits', like', valid') = kept_gradient v s cs p g fits like valid in
      let rest' = are_valid-sliced_gradients v s cs p rest others in
      rw (fits', like', parameters-sliced_gradients p rest, later, valid') rest'

  -- The block with the kept properties is valid where the block is.
  pub is_valid-with_properties :
      (b : TensorBlock A) → is_valid b ≡ true → is_valid (with_properties b) ≡ true
  is_valid-with_properties (block v s cs p g) h =
      let (described, owned, valid) = own_facts v s cs p g h in
      is_valid_intro (kept_columns p v) s cs (kept_labels keep p) (sliced_gradients p g)
        (describes-kept_columns v s cs p p refl described) (ground arith)
        (are_valid-sliced_gradients v s cs p g valid)
