-- ===== src/Operations/CheckedSums.antt =====
-- The sum of two blocks in add.py, after the checks of _utils.py on their labels and gradients.
use aml_storage.Prelude.{
  String, ◌≡◌, refl, sym, ap, ◌∙◌, Bool, true, false, Bool-cases, inl, inr, Option, none, some,
  List, [], ◌∷◌, arith, nat_eq, ◌==◌, if◌then◌else◌, int_eq, list_eq, string_eq, beq_refl, beq_eq,
  contains,
}
use mathlib.Core.Option.{some-injective}
use aml_storage.Labels.Core.{Labels}
use aml_storage.Result.{Result, ok, bind-eq_ok, ok_injective}
use aml_storage.Block.Core.{
  Arrays, TensorBlock, block, Gradients, no_gradient, gradient, values, samples, components,
  properties, gradients, parameters, gradients_list, find_gradient, get_gradient,
  or_metatensor_error,
}
use aml_storage.Block.Valid.{is_valid, are_valid, alike}
use aml_storage.Operations.Share.{is_flat, valid_facts}
use aml_storage.Block.Valid.{own_facts}
use aml_storage.Operations.Derived.{derived_block}
use aml_storage.Operations.SameBlocks.{all_equal}
use aml_storage.Operations.FilledGradients.{found_facts, is_flat_found}
use aml_storage.Operations.Metadata.{
  word, Message, of_gradient, gradient_parameters, raise_message, check_parts, check_blocks_impl,
  check_blocks_raise, check_gradients, check_same_gradients_impl, check_same_gradients_raise,
}
use aml_storage.Operations.Arithmetic.{Arithmetic, add_block_block}
use aml_storage.Operations.Sums.{sum, sum_with, Matching, add_block_block-derived_block}

abbrev all_parts : List String
all_parts = "samples" ∷ "components" ∷ "properties" ∷ []

raised_nothing : (message : Option Message) → raise_message message ≡ ok tt → message ≡ none
unfolding raise_message
raised_nothing none h = refl
raised_nothing (some message) h = cc

-- The checks that follow one that found nothing have found nothing.
passed :
    (told : Message → Message) (message : Option Message) (later : Result (Option Message))
    → (elim message [ some m ↦ ok (some (told m)) | none ↦ later ]) ≡ ok none
    → (message ≡ none) × (later ≡ ok none)
passed told none later h = (refl, h)
passed told (some m) later h = absurd (ground (arith, ok_injective h))

not_told :
    (m : Message) (difference : Bool) (later : Result (Option Message))
    → (if difference then ok (some m) else later) ≡ ok none
    → later ≡ ok none
not_told m false later h = h
not_told m true later h = absurd (ground (arith, ok_injective h))

module _ {A : Type 0} where
  returned_gradient :
      (found : Option (TensorBlock A)) {c : TensorBlock A}
      → or_metatensor_error found ≡ ok c
      → found ≡ some c
  unfolding or_metatensor_error
  returned_gradient none h = cc
  returned_gradient (some d) h = ap some (ok_injective h)

  check_parts-all_equal :
      (a b : TensorBlock A) → check_parts all_parts a b ≡ ok none → all_equal a b ≡ true
  unfolding check_parts
  check_parts-all_equal a b h = ground arith

  checked_gradient :
      (a b : TensorBlock A) (name : String) (rest : List String)
      → check_gradients all_parts (name ∷ rest) a b ≡ ok none
      → (c d : TensorBlock A) × (find_gradient name (gradients a) ≡ some c)
        × (find_gradient name (gradients b) ≡ some d)
        × (all_equal c d ≡ true)
        × (check_gradients all_parts rest a b ≡ ok none)
  unfolding check_gradients get_gradient
  checked_gradient a b name rest h =
      let (c, c_found, h₁) = bind-eq_ok (get_gradient a name) _ h in
      let (d, d_found, h₂) = bind-eq_ok (get_gradient b name) _ h₁ in
      let (message, checked, h₃) = bind-eq_ok (check_parts all_parts c d) _ h₂ in
      let (nothing, later) =
        passed (of_gradient name) message (check_gradients all_parts rest a b) h₃ in
      (
        c,
        d,
        returned_gradient (find_gradient name (gradients a)) c_found,
        returned_gradient (find_gradient name (gradients b)) d_found,
        check_parts-all_equal c d (checked ∙ ap ok nothing),
        later,
      )

  later_gradient :
      (m name : String) (c : TensorBlock A) (rest : Gradients A)
      → contains (parameters rest) m ≡ false
      → contains (parameters rest) name ≡ true
      → find_gradient name (gradient m c rest) ≡ find_gradient name rest
  unfolding find_gradient
  later_gradient m name c rest new known = elim (Bool-cases (m == name)) [
    | inl same ↦ absurd (ground (arith, ap (contains (parameters rest)) (beq_eq m name same)))
    | inr other ↦ rw other refl
  ]

  check_blocks_impl-checked :
      (a b : TensorBlock A) → check_blocks_impl a b (word "all") ≡ ok none → all_equal a b ≡ true
  unfolding check_blocks_impl
  check_blocks_impl-checked a b h = check_parts-all_equal a b h

  check_same_gradients_impl-checked :
      (a b : TensorBlock A)
      → check_same_gradients_impl a b (word "all") ≡ ok none
      → check_gradients all_parts (gradients_list a) a b ≡ ok none
  unfolding check_same_gradients_impl
  check_same_gradients_impl-checked a b h =
      not_told gradient_parameters _ (check_gradients all_parts (gradients_list a) a b) h

own_gradients :
    {A : Type 0} ⦃arrays : Arrays A⦄ (a : TensorBlock A)
    → is_valid a ≡ true
    → are_valid (values a) (samples a) (components a) (properties a) (gradients a) ≡ true
own_gradients (block v s cs p g) valid = let (_, _, h) = own_facts v s cs p g valid in h

module _ {A : Type 0} ⦃arrays : Arrays A⦄ ⦃arithmetic : Arithmetic A⦄ (a b : TensorBlock A) where
  -- Valid gradients that passed the checks match.
  matching :
      (v w : A) (s s' : Labels) (cs cs' : List Labels) (p p' : Labels) (g : Gradients A)
      → are_valid v s cs p g ≡ true
      → are_valid w s' cs' p' (gradients b) ≡ true
      → is_flat (gradients b) ≡ true
      → arrays.origin v ≡ arrays.origin w
      → alike v w ≡ true
      → ((name : String)
          → contains (parameters g) name ≡ true
          → find_gradient name (gradients a) ≡ find_gradient name g)
      → check_gradients all_parts (parameters g) a b ≡ ok none
      → Matching g (gradients b)
  unfolding find_gradient contains
  matching v w s s' cs cs' p p' no_gradient valid b_valid b_flat from like at checked = tt
  matching v w s s' cs cs' p p' (gradient name c rest) valid b_valid b_flat from like at checked =
      let (fits, c_like, new, _, others) = valid_facts v s cs p name c rest valid in
      let (c', d, c_found, d_found, same, later) =
        checked_gradient a b name (parameters rest) checked in
      let (d_fits, d_like, d_valid) =
        found_facts w s' cs' p' (gradients b) name d b_valid d_found in
      let here : some c ≡ some c' =
        (sym (at name (ground (arith, beq_refl name)) ∙ rw (beq_refl name) refl)) ∙ c_found in
      (
        (
          d,
          d_found,
          ap (λ x. all_equal x d) (some-injective c c' here) ∙ same,
          d_valid,
          ground arith,
          ground arith,
          is_flat_found (gradients b) name b_flat d_found,
        ),
        matching v w s s' cs cs' p p' rest others b_valid b_flat from like
            (λ n known. at n (ground arith) ∙ later_gradient name n c rest new known) later,
      )

  -- For valid blocks whose gradients have no gradients, and whose arrays are of the same library and
  -- type, on the same device: where the checks of `add` on their labels and on their gradients
  -- pass, the sum of the blocks always returns: the labels and the parameters of the first block,
  -- with the sums of the values, and of the values of the gradients with the same parameter; and it
  -- is valid.
  pub add_block_block-checks :
      is_valid a ≡ true
      → is_valid b ≡ true
      → is_flat (gradients a) ≡ true
      → is_flat (gradients b) ≡ true
      → arrays.origin (values a) ≡ arrays.origin (values b)
      → alike (values a) (values b) ≡ true
      → check_blocks_raise a b (word "all") ≡ ok tt
      → check_same_gradients_raise a b (word "all") ≡ ok tt
      → (add_block_block a b
          ≡ ok (derived_block (sum (values a) (values b)) (sum_with (gradients b)) a))
        × (is_valid (derived_block (sum (values a) (values b)) (sum_with (gradients b)) a) ≡ true)
  unfolding check_blocks_raise check_same_gradients_raise
  add_block_block-checks valid b_valid flat b_flat from like labels_checked gradients_checked =
      let (message, found, raised) =
        bind-eq_ok (check_blocks_impl a b (word "all")) _ labels_checked in
      let (message', found', raised') =
        bind-eq_ok (check_same_gradients_impl a b (word "all")) _ gradients_checked in
      let same = check_blocks_impl-checked a b (found ∙ ap ok (raised_nothing message raised)) in
      let checked =
        check_same_gradients_impl-checked a b (found' ∙ ap ok (raised_nothing message' raised')) in
      add_block_block-derived_block a b valid b_valid flat same from like (
        matching (values a) (values b) (samples a) (samples b) (components a) (components b)
          (properties a) (properties b) (gradients a) (own_gradients a valid)
          (own_gradients b b_valid) b_flat from like (λ name known. refl) checked)
