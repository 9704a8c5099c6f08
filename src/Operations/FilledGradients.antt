-- ===== src/Operations/FilledGradients.antt =====
-- Which gradients zeros_like.py, ones_like.py and empty_like.py make, and that their results are
-- valid blocks.
use aml_storage.Prelude.{
  String, ◌≡◌, refl, sym, ap, ◌∙◌, Bool, true, false, none, some, List, [], ◌∷◌, arith, is_empty,
  all, nat_eq, ◌==◌, contains, distinct, distinct_cons, string_eq, and_true, Bool-cases, inl, inr,
  fun_ext,
}
use mathlib.Core.Option.{some-injective}
use aml_storage.Result.{ok, guard, ◌>>=◌, ◌>>◌, not_implemented_error}
use aml_storage.Labels.Core.{Labels}
use aml_storage.Block.Core.{
  Arrays, TensorBlock, block, Gradients, no_gradient, gradient, values, samples, components,
  properties, gradients, parameters, gradients_list, find_gradient, get_gradient,
  or_metatensor_error, new, add_gradient,
}
use aml_storage.Block.Valid.{is_valid, are_valid, belongs, alike}
use aml_storage.Operations.Share.{is_flat, valid_facts}
use aml_storage.Operations.Rebuild.{add_each}
use aml_storage.Block.Valid.{own_facts, is_valid_intro}
use aml_storage.Operations.Derived.{Making-itself, derived_block, derived_block_lem}
use aml_storage.Operations.Metadata.{check_gradient_presence_raise}
use aml_storage.Operations.SameBlocks.{find_gradient_known}
use aml_storage.Operations.Storage.{Keeps, Fitting-Keeps}
use aml_storage.Operations.Filled.{fill_gradients, filled_names, filled_block, Parameters, as_list}

module _ {A : Type 0} where
  -- The gradients with the given parameters, in the order of these.
  abbrev pub chosen : Gradients A → List String → Gradients A
  chosen g [] = no_gradient
  chosen g (name ∷ list) =
      let rest = chosen g list in
      elim (find_gradient name g) [ none ↦ rest | some c ↦ gradient name c rest ]

  chosen_here :
      (g : Gradients A) (name : String) (list : List String) (c : TensorBlock A)
      → find_gradient name g ≡ some c
      → chosen g (name ∷ list) ≡ gradient name c (chosen g list)
  chosen_here g name list c found = rw (found, chosen) refl

  -- A parameter that is not in the list is not chosen.
  contains-chosen :
      (g : Gradients A) (list : List String) (name : String)
      → all (contains (parameters g)) list ≡ true
      → contains list name ≡ false
      → contains (parameters (chosen g list)) name ≡ false
  unfolding contains
  contains-chosen g [] name known h = refl
  contains-chosen g (other ∷ list) name known h =
      let (here, others) = and_true (contains (parameters g) other) _ known in
      let (c, found) = find_gradient_known other g here in
      ap (λ r. contains (parameters r) name) (chosen_here g other list c found)
      ∙ ground (arith, contains-chosen g list name others)

  pub is_flat_found :
      (g : Gradients A) (name : String) {c : TensorBlock A}
      → is_flat g ≡ true
      → find_gradient name g ≡ some c
      → is_empty (gradients_list c) ≡ true
  unfolding find_gradient
  is_flat_found no_gradient name flat found = absurd (ground arith)
  is_flat_found (gradient other d rest) name flat found = elim (Bool-cases (other == name)) [
    | inl yes' ↦ ground arith
    | inr no' ↦
        is_flat_found rest name (and_true (is_empty (gradients_list d)) _ flat).1 (rw no' at found)
  ]

  is_flat-chosen :
      (g : Gradients A) (list : List String)
      → is_flat g ≡ true
      → all (contains (parameters g)) list ≡ true
      → is_flat (chosen g list) ≡ true
  is_flat-chosen g [] flat known = refl
  is_flat-chosen g (name ∷ list) flat known =
      let (here, others) = and_true (contains (parameters g) name) _ known in
      let (c, found) = find_gradient_known name g here in
      ap is_flat (chosen_here g name list c found)
      ∙ rw (is_flat_found g name flat found) (is_flat-chosen g list flat others)

module _ {A : Type 0} ⦃arrays : Arrays A⦄ where
  pub found_facts :
      (v : A) (s : Labels) (cs : List Labels) (p : Labels) (g : Gradients A) (name : String)
      (c : TensorBlock A)
      → are_valid v s cs p g ≡ true
      → find_gradient name g ≡ some c
      → (belongs
            (arrays.origin v)
            (arrays.origin (values c))
            s
            cs
            p
            (samples c)
            (components c)
            (properties c)
          ≡ true)
        × (alike v (values c) ≡ true)
        × (is_valid c ≡ true)
  unfolding find_gradient
  found_facts v s cs p no_gradient name c valid found = absurd (ground arith)
  found_facts v s cs p (gradient other d rest) name c valid found =
      let (fits, like, _, d_valid, others) = valid_facts v s cs p other d rest valid in
      elim (Bool-cases (other == name)) [
        | inl yes' ↦
            let same = some-injective _ _ (rw yes' at found) in rw (← same) (fits, like, d_valid)
        | inr no' ↦ found_facts v s cs p rest name c others (rw no' at found)
      ]

  are_valid-chosen :
      (v : A) (s : Labels) (cs : List Labels) (p : Labels) (g : Gradients A) (list : List String)
      → are_valid v s cs p g ≡ true
      → all (contains (parameters g)) list ≡ true
      → distinct list ≡ true
      → are_valid v s cs p (chosen g list) ≡ true
  unfolding are_valid
  are_valid-chosen v s cs p g [] valid known apart = refl
  are_valid-chosen v s cs p g (name ∷ list) valid known apart =
      let (here, others) = and_true (contains (parameters g) name) _ known in
      let (new_name, rest) = distinct_cons name list apart in
      let (c, found) = find_gradient_known name g here in
      let (fits, like, c_valid) = found_facts v s cs p g name c valid found in
      ap (are_valid v s cs p) (chosen_here g name list c found)
      ∙ rw (fits, like, contains-chosen g list name others new_name, c_valid)
          (are_valid-chosen v s cs p g list valid others rest)

  module _ (fill : A → Bool → A) where
    -- The loop over the parameters is the loop over the gradients that they choose.
    fill_gradients-chosen :
        (b : TensorBlock A) (list : List String) (nb : TensorBlock A)
        → all (contains (gradients_list b)) list ≡ true
        → fill_gradients fill b list nb
          ≡ add_each
              (λ name c. new (fill (values c) false) (samples c) (components c) (properties c))
              nb
              (chosen (gradients b) list)
    unfolding fill_gradients add_each get_gradient or_metatensor_error
    fill_gradients-chosen b [] nb known = refl
    fill_gradients-chosen b (name ∷ list) nb known =
        let (here, others) = and_true (contains (gradients_list b) name) _ known in
        let (c, found) = find_gradient_known name (gradients b) here in
        rw (found) (
          ap
            (λ k. do
              guard (is_empty (gradients_list c)) not_implemented_error
              g' ← new (fill (values c) false) (samples c) (components c) (properties c)
              nb' ← add_gradient nb name g'
              k nb')
            (fun_ext (λ nb'. fill_gradients-chosen b list nb' others)))
        ∙ sym (
            ap
              (add_each
                (λ name c. new (fill (values c) false) (samples c) (components c) (properties c))
                nb)
              (chosen_here (gradients b) name list c found))

    present :
        (b : TensorBlock A) (list : List String)
        → all (contains (gradients_list b)) list ≡ true
        → check_gradient_presence_raise b list ≡ ok tt
    unfolding check_gradient_presence_raise
    present b [] h = refl
    present b (name ∷ list) h =
        let (here, others) = and_true (contains (gradients_list b) name) _ h in
        rw here (present b list others)

    -- The block with the chosen gradients, and new entries in all arrays.
    abbrev pub filled_with : Bool → List String → TensorBlock A → TensorBlock A
    filled_with requires_grad list (block v s cs p g) =
        derived_block (fill v requires_grad) (λ name c. fill (values c) false)
          (block v s cs p (chosen g list))

    fill_list :
        (b : TensorBlock A) (requires_grad : Bool) (list : List String)
        → ((value : Bool) → Keeps (λ a. fill a value))
        → is_valid b ≡ true
        → is_flat (gradients b) ≡ true
        → all (contains (gradients_list b)) list ≡ true
        → distinct list ≡ true
        → ((new (fill (values b) requires_grad) (samples b) (components b) (properties b) >>= λ nb.
              fill_gradients fill b list nb)
            ≡ ok (filled_with requires_grad list b))
          × (is_valid (filled_with requires_grad list b) ≡ true)
    fill_list (block v s cs p g) requires_grad list keeps valid flat known apart =
        let (described, owned, g_valid) = own_facts v s cs p g valid in
        let chosen_valid = are_valid-chosen v s cs p g list g_valid known apart in
        let (shape, origin, _, _) = keeps requires_grad v in
        rw (fun_ext (λ nb. fill_gradients-chosen (block v s cs p g) list nb known)) (
          derived_block_lem
            (λ name c. new (fill (values c) false) (samples c) (components c) (properties c))
            (fill v requires_grad) (λ name c. fill (values c) false)
            (block v s cs p (chosen g list))
            (is_valid_intro v s cs p (chosen g list) described owned chosen_valid) (shape, origin)
            (Fitting-Keeps (λ a. fill a requires_grad) (λ a. fill a false) v s cs p (chosen g list)
              (keeps requires_grad) (keeps false) chosen_valid (is_flat-chosen g list flat known))
            (Making-itself (chosen g list) (λ name c. fill (values c) false)))

    -- For an operation that makes arrays with the shape and the type of others: for a valid block
    -- whose gradients have no gradients, and a name or a list of different names that are all
    -- parameters of the block, the block with new entries is always made: it has the labels of the
    -- block, and the gradients with these parameters, in the order of the list, with new entries
    -- and their labels; and it is valid.
    pub filled_block-chosen :
        (b : TensorBlock A) (asked : Parameters) (requires_grad : Bool)
        → ((value : Bool) → Keeps (λ a. fill a value))
        → is_valid b ≡ true
        → is_flat (gradients b) ≡ true
        → all (contains (gradients_list b)) (as_list asked) ≡ true
        → distinct (as_list asked) ≡ true
        → (filled_block fill b (some asked) requires_grad
            ≡ ok (filled_with requires_grad (as_list asked) b))
          × (is_valid (filled_with requires_grad (as_list asked) b) ≡ true)
    unfolding filled_block filled_names
    filled_block-chosen b asked requires_grad keeps valid flat known apart =
        rw (present b (as_list asked) known)
          (fill_list b requires_grad (as_list asked) keeps valid flat known apart)
