-- ===== src/Operations/FollowedSamples.antt =====
-- What a slice of slice.py along the samples makes of the samples of a block and of its gradients.
use aml_storage.Prelude.{
  ℕ, ◌≤◌, pos, String, ◌≡◌, refl, sym, ap, ◌∙◌, true, false, ◌&&◌, not, List, [], ◌∷◌, ◌++◌, map,
  arith, length, is_empty, all, ltb, nat_eq, int_eq, list_eq, string_eq, ◌==◌, beq_refl, beq_eq,
  distinct, and_true, get_elem?, get_or, length-map, some, is_int32,
}
use aml_storage.Result.{ok}
use aml_storage.Numpy.{Numpy, array_2d, integral}
use aml_storage.Labels.Names.{sequence}
use aml_storage.Labels.Rows.{Row}
use aml_storage.Labels.Core.{Labels, len, size, init}
use aml_storage.Labels.Dimensions.{column}
use aml_storage.Labels.Valid.{IsValid, is_stored, create_new_labels_lem}
use aml_storage.Labels.Editing.{init_stored, name_at, column_at}
use aml_storage.Block.Core.{
  Arrays, TensorBlock, block, Gradients, no_gradient, gradient, values, samples, components,
  properties, parameters, starts_with_sample, refers_below,
}
use aml_storage.Block.Valid.{is_valid, are_valid, describes, axes, belongs, alike}
use aml_storage.Operations.Indexing.{Indexing, where_true, picked}
use aml_storage.Operations.SlicedProperties.{len-equal}
use aml_storage.Block.Valid.{own_facts, is_valid_intro}
use aml_storage.Labels.Equality.{equal_refl}
use aml_storage.Operations.Picked.{length-picked, all-picked, distinct-picked, is_empty-picked}
use aml_storage.Operations.Renumber.{
  filter, all-filter, all_pass, distinct-filter, length-where_true, where_true-ltb, refers_to,
  renumber, distinct-renumber, all-renumber,
}

-- The labels with the entries at the positions, in their order.
abbrev pub picked_labels : List ℕ → Labels → Labels
picked_labels selected l = record {
  names = l.names;
  values = picked l.values selected;
  is_view = false;
}

-- The samples of a gradient that refer to a selected sample, by its new position.
abbrev pub followed_labels : List ℕ → Labels → Labels
followed_labels selected l = record {
  names = l.names;
  values = map (renumber selected) (filter (refers_to selected) l.values);
  is_view = false;
}

-- The samples of each gradient satisfy the invariant of labels.
abbrev pub AreLabelled : {A : Type 0} → Gradients A → Type 0
AreLabelled no_gradient = Unit
AreLabelled (gradient name g rest) = IsValid (samples g) × AreLabelled rest

module _ ⦃np : Numpy⦄ where
  init_rows :
      (l : Labels) (rows : List Row)
      → IsValid l
      → is_stored rows ≡ true
      → distinct rows ≡ true
      → (is_empty l.names && not (is_empty rows)) ≡ false
      → init (sequence l.names) (array_2d integral (size l) rows)
        ≡ ok (record { names = l.names; values = rows; is_view = false })
  init_rows l rows valid stored apart named =
      init_stored l.names (size l) rows refl stored
      ∙ create_new_labels_lem l.names rows
      ∙ rw (valid.valid_names, valid.distinct_names, apart, named) refl

  pub init-picked :
      (l : Labels) (selected : List ℕ)
      → IsValid l
      → distinct selected ≡ true
      → init (sequence l.names) (array_2d integral (size l) (picked l.values selected))
        ≡ ok (picked_labels selected l)
  init-picked l selected valid apart =
      init_rows l (picked l.values selected) valid
        (all-picked (all is_int32) l.values selected valid.stored)
        (distinct-picked l.values selected valid.distinct_rows apart)
        (let hidden = valid.no_hidden_rows in ground (arith, is_empty-picked l.values selected))

first_name :
    (names : List String)
    → starts_with_sample names ≡ true
    → (get_elem? names 0 ≡ some "sample") × (is_empty names ≡ false)
unfolding starts_with_sample
first_name [] h = absurd (ground arith)
first_name (name ∷ names) h = (ap some (beq_eq name "sample" h), refl)

module _ ⦃np : Numpy⦄ (selected : List ℕ) (apart : distinct selected ≡ true)
    (few : length selected ≤ 0x8000_0000) where
  module _ (l : Labels) (valid : IsValid l) (named : starts_with_sample l.names ≡ true) where
    pub column_sample : column l "sample" ≡ ok (map (λ row. get_or row 0 (pos 0)) l.values)
    column_sample = column_at l 0 "sample" (name_at l valid 0 "sample" (first_name l.names named).0)

    pub init-followed_labels :
        init (sequence l.names) (array_2d integral (size l) (followed_labels selected l).values)
        ≡ ok (followed_labels selected l)
    init-followed_labels =
        let kept = filter (refers_to selected) l.values in
        let (stored, _, _) =
          all-renumber selected (size l) kept few (all_pass (refers_to selected) l.values)
            (all-filter (refers_to selected) (all is_int32) l.values valid.stored)
            (all-filter (refers_to selected) _ l.values valid.rectangular) in
        init_rows l (followed_labels selected l).values valid stored
          (distinct-renumber selected kept (all_pass (refers_to selected) l.values)
            (distinct-filter (refers_to selected) l.values valid.distinct_rows))
          (let (_, some_name) = first_name l.names named in ground arith)

module _ {A : Type 0} ⦃arrays : Arrays A⦄ ⦃indexing : Indexing A⦄ (selected : List ℕ) where
  -- The entries of the first axis, with the samples `l` along it, that refer to a selected sample.
  abbrev pub followed_rows : Labels → A → A
  followed_rows l v = indexing.rows v (where_true 0 (map (refers_to selected) l.values))

  -- The gradients with the samples that refer to a selected sample, and the properties `p`.
  abbrev pub followed_gradients : Labels → Gradients A → Gradients A
  followed_gradients p no_gradient = no_gradient
  followed_gradients p (gradient name g rest) =
      gradient name
        (block (followed_rows (samples g) (values g)) (followed_labels selected (samples g))
          (components g) p no_gradient)
        (followed_gradients p rest)

  -- The block with the selected samples, in the order of the selection.
  abbrev pub with_samples : TensorBlock A → TensorBlock A
  with_samples (block v s cs p g) =
      block (indexing.rows v selected) (picked_labels selected s) cs p (followed_gradients p g)

  pub parameters-followed_gradients :
      (p : Labels) (g : Gradients A) → parameters (followed_gradients p g) ≡ parameters g
  parameters-followed_gradients p no_gradient = refl
  parameters-followed_gradients p (gradient name g rest) =
      ap (λ names. name ∷ names) (parameters-followed_gradients p rest)

  -- Entries of the first axis, one for each new sample, with properties that are as many.
  pub describes-rows :
      (v : A) (s s' : Labels) (cs : List Labels) (q p : Labels) (positions : List ℕ)
      → len q ≡ len p
      → len s' ≡ length positions
      → all (λ i. ltb i (len s)) positions ≡ true
      → describes (arrays.shape v) s cs q ≡ true
      → describes (arrays.shape (indexing.rows v positions)) s' cs p ≡ true
  describes-rows v s s' cs q p positions same counted below h =
      let (rest, comps) =
        and_true ((arrays.shape v == axes s cs q) && distinct (map (λ c. c.names) cs)) _ h in
      let (shaped, named) = and_true (arrays.shape v == axes s cs q) _ rest in
      rw
        (
          indexing.shape-rows v positions (len s) (map len cs ++ len p ∷ [])
              (beq_eq (arrays.shape v) (axes s cs q) shaped
                ∙ ap (λ n. len s ∷ (map len cs ++ n ∷ [])) same)
              below,
          ← counted,
          beq_refl (axes s' cs p),
          named,
        )
        comps

  -- A gradient of the sliced block is valid, and belongs to it.
  pub followed_gradient :
      (v : A) (s : Labels) (cs : List Labels) (p : Labels) (g : TensorBlock A)
      → length selected ≤ 0x8000_0000
      → all (λ i. ltb i (len s)) selected ≡ true
      → p.is_view ≡ false
      → IsValid (samples g)
      → belongs
          (arrays.origin v)
          (arrays.origin (values g))
          s
          cs
          p
          (samples g)
          (components g)
          (properties g)
        ≡ true
      → alike v (values g) ≡ true
      → is_valid g ≡ true
      → (belongs
            (arrays.origin (indexing.rows v selected))
            (arrays.origin (followed_rows (samples g) (values g)))
            (picked_labels selected s)
            cs
            p
            (followed_labels selected (samples g))
            (components g)
            p
          ≡ true)
        × (alike (indexing.rows v selected) (followed_rows (samples g) (values g)) ≡ true)
        × (is_valid (
              block
                (followed_rows (samples g) (values g))
                (followed_labels selected (samples g))
                (components g)
                p
                no_gradient)
            ≡ true)
  unfolding are_valid
  followed_gradient v s cs p (block w s' cs' p' h) few below p_owned labelled fits like valid =
      let positions = where_true 0 (map (refers_to selected) s'.values) in
      let kept = filter (refers_to selected) s'.values in
      let (o, d, e) = indexing.rows_alike v selected in
      let (o', d', e') = indexing.rows_alike w positions in
      let (described, owned, _) = own_facts w s' cs' p' h valid in
      let same = len-equal p' p (ground arith) in
      let (_, refer, _) =
        all-renumber selected (size s') kept few (all_pass (refers_to selected) s'.values)
          (all-filter (refers_to selected) (all is_int32) s'.values labelled.stored)
          (all-filter (refers_to selected) _ s'.values labelled.rectangular) in
      let refer' =
        ap (λ n. all (refers_below n) (map (renumber selected) kept))
          (length-picked s.values selected below)
        ∙ refer in
      let counted =
        length-map (renumber selected) kept
        ∙ sym (length-where_true (refers_to selected) 0 s'.values) in
      (
        rw (o, o') (ground (arith, equal_refl p)),
        rw (d, d', e, e') like,
        is_valid_intro (followed_rows s' w) (followed_labels selected s') cs' p no_gradient
            (describes-rows w s' (followed_labels selected s') cs' p' p positions same counted
              (where_true-ltb (refers_to selected) s'.values) described)
            (ground arith) refl,
      )
