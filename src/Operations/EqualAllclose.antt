-- ===== src/Operations/EqualAllclose.antt =====
-- equal.py and allclose.py: blocks that are equal are close.
use aml_storage.Prelude.{
  ◌≡◌, refl, sym, ap, ◌∙◌, Bool, true, false, not, Option, none, some, List, [], ◌∷◌, String, arith,
  nat_eq, list_eq, string_eq, ◌==◌, if◌then◌else◌,
}
use aml_storage.Result.{Result, ok, err, ◌>>◌, type_error, bind-eq_ok, ok_injective}
use aml_storage.Block.Core.{
  Arrays, TensorBlock, block, values, samples, components, properties, find_gradient,
  or_metatensor_error, Gradients, no_gradient, gradient, gradients, get_gradient, gradients_list,
}
use aml_storage.Operations.Metadata.{
  Message, word, listed, check_part, check_parts, check_gradients, check_blocks_impl,
  check_same_gradients_impl, metadata_to_check, of_gradient,
}
use aml_storage.Operations.Equal.{
  Difference, Entries, is_nothing, equal_gradients, equal_block_parts, equal_block_impl,
  equal_block,
}
use aml_storage.Operations.EqualBlocks.{found_nothing}
use aml_storage.Operations.FilledGradients.{found_facts}
use aml_storage.Operations.Share.{valid_facts}
use aml_storage.Block.Valid.{is_valid, are_valid, alike, own_facts}
use aml_storage.Operations.Dispatch.{
  Library, torch_tensor, numpy_array, unknown_array, Closeness, dispatch_allclose,
  check_torch_tensor, check_numpy_array,
}
use aml_storage.Operations.Allclose.{
  allclose_metadata, allclose_gradients, allclose_block_impl, allclose_block,
}

-- The parts that equal.py compares, and the parts that allclose.py names, in their order.
abbrev default_parts : List String
default_parts = "samples" ∷ "components" ∷ "properties" ∷ []

abbrev named_parts : List String
named_parts = "samples" ∷ "properties" ∷ "components" ∷ []

-- A gradient in which nothing differs.
nothing_differs :
    (name : String) (found : Option Message) (later : Result (Option Message))
    → (elim found [ some message ↦ ok (some (of_gradient name message)) | none ↦ later ]) ≡ ok none
    → (found ≡ none) × (later ≡ ok none)
nothing_differs name none later h = (refl, h)
nothing_differs name (some message) later h = absurd (ground (arith, ok_injective h))

-- Two arrays whose comparison did not return a difference.
compared_first :
    (same : Bool) (d : Difference) (later : Result (Option Difference))
    {difference : Option Difference}
    → (if not same then ok (some d) else later) ≡ ok difference
    → is_nothing difference ≡ true
    → (same ≡ true) × (later ≡ ok difference)
compared_first true d later h nothing = (refl, h)
compared_first false d later h nothing = absurd (ground (arith, ap is_nothing (ok_injective h)))

compared_last :
    (same : Bool) (d : Difference) (later : Result (Option Difference))
    {difference : Option Difference}
    → (if same then later else ok (some d)) ≡ ok difference
    → is_nothing difference ≡ true
    → (same ≡ true) × (later ≡ ok difference)
compared_last true d later h nothing = (refl, h)
compared_last false d later h nothing = absurd (ground (arith, ap is_nothing (ok_injective h)))

module _ {A : Type 0} where
  -- Parts that are the same are the same in another order.
  reorder_parts :
      (a b : TensorBlock A)
      → check_parts default_parts a b ≡ ok none
      → check_parts named_parts a b ≡ ok none
  unfolding check_parts check_part
  reorder_parts a b h = ground arith

  reorder_gradients :
      (names : List String) (a b : TensorBlock A)
      → check_gradients default_parts names a b ≡ ok none
      → check_gradients named_parts names a b ≡ ok none
  unfolding check_gradients
  reorder_gradients [] a b h = refl
  reorder_gradients (name ∷ names) a b h =
      let (g, known, h') = bind-eq_ok (get_gradient a name) _ h in
      let (g', known', h'') = bind-eq_ok (get_gradient b name) _ h' in
      let (found, checked, rest) = bind-eq_ok (check_parts default_parts g g') _ h'' in
      let (no_message, later) = nothing_differs name found _ rest in
      rw (known, known', reorder_parts g g' (checked ∙ ap ok no_message))
        (reorder_gradients names a b later)

  reorder_same_gradients :
      (a b : TensorBlock A)
      → check_same_gradients_impl a b (word "all") ≡ ok none
      → check_same_gradients_impl a b (listed named_parts) ≡ ok none
  unfolding check_same_gradients_impl metadata_to_check
  reorder_same_gradients a b h = ground (arith, reorder_gradients (gradients_list a) a b)

-- A NumPy array or a PyTorch tensor.
abbrev pub is_known : Library → Bool
is_known torch_tensor = true
is_known numpy_array = true
is_known unknown_array = false

chosen_function :
    (library other : Library) (torch numpy : Result Bool)
    → library ≡ other
    → is_known library ≡ true
    → torch ≡ ok true
    → numpy ≡ ok true
    → (elim library [
      | torch_tensor ↦ check_torch_tensor other >> torch
      | numpy_array ↦ check_numpy_array other >> numpy
      | unknown_array ↦ err type_error
    ])
      ≡ ok true
unfolding check_torch_tensor check_numpy_array
chosen_function torch_tensor other torch numpy same known t n = rw (← same) t
chosen_function numpy_array other torch numpy same known t n = rw (← same) n
chosen_function unknown_array other torch numpy same known t n = absurd (ground arith)

module _ {A : Type 0} ⦃arrays : Arrays A⦄ where
  found_gradient :
      (b : TensorBlock A) (name : String) (g : TensorBlock A)
      → get_gradient b name ≡ ok g
      → find_gradient name (gradients b) ≡ some g
  unfolding get_gradient or_metatensor_error
  found_gradient b name g h = ground arith

  gradients_valid :
      (b : TensorBlock A)
      → is_valid b ≡ true
      → are_valid (values b) (samples b) (components b) (properties b) (gradients b) ≡ true
  gradients_valid (block v s cs p g) h = let (_, _, valid) = own_facts v s cs p g h in valid

module _ {A R : Type 0} ⦃arrays : Arrays A⦄ ⦃entries : Entries A⦄ ⦃closeness : Closeness A R⦄
    (rtol atol : R) (equal_nan : Bool)
    (torch_close : (v w : A)
      → alike v w ≡ true
      → entries.same_entries v w ≡ ok true
      → closeness.torch_allclose v w rtol atol equal_nan ≡ ok true)
    (numpy_close : (v w : A)
      → entries.same_entries v w ≡ ok true
      → closeness.numpy_allclose v w rtol atol equal_nan ≡ ok true) where
  dispatch_allclose-same_entries :
      (v w : A)
      → is_known (closeness.library_of (arrays.origin v)) ≡ true
      → arrays.origin v ≡ arrays.origin w
      → alike v w ≡ true
      → entries.same_entries v w ≡ ok true
      → dispatch_allclose v w rtol atol equal_nan ≡ ok true
  unfolding dispatch_allclose
  dispatch_allclose-same_entries v w known from like same =
      chosen_function (closeness.library_of (arrays.origin v))
        (closeness.library_of (arrays.origin w)) _ _ (ap closeness.library_of from) known
        (torch_close v w like same) (numpy_close v w same)

  -- The gradients of two valid blocks come from the same library where the blocks do.
  module _ (a : TensorBlock A) (b : TensorBlock A)
      (known : is_known (closeness.library_of (arrays.origin (values a))) ≡ true)
      (from : arrays.origin (values a) ≡ arrays.origin (values b))
      (like : alike (values a) (values b) ≡ true) where
    allclose_gradients-equal_gradients :
        (g : Gradients A) {difference : Option Difference}
        → are_valid (values a) (samples a) (components a) (properties a) g ≡ true
        → are_valid (values b) (samples b) (components b) (properties b) (gradients b) ≡ true
        → equal_gradients g b ≡ ok difference
        → is_nothing difference ≡ true
        → allclose_gradients rtol atol equal_nan g b ≡ ok none
    unfolding equal_gradients allclose_gradients
    allclose_gradients-equal_gradients no_gradient valid valid_b h nothing = refl
    allclose_gradients-equal_gradients (gradient name g rest) valid valid_b h nothing =
        let (g', known_g', h') = bind-eq_ok (get_gradient b name) _ h in
        let (compared, told, decided) =
          bind-eq_ok (entries.same_entries (values g) (values g')) _ h' in
        let (found_same, later) = compared_last compared _ _ decided nothing in
        let same = told ∙ ap ok found_same in
        let (fits, like_g, _, _, others) =
          valid_facts (values a) (samples a) (components a) (properties a) name g rest valid in
        let (fits', like_g', _) =
          found_facts (values b) (samples b) (components b) (properties b) (gradients b) name g'
            valid_b (found_gradient b name g' known_g') in
        let of_a : arrays.origin (values g) ≡ arrays.origin (values a) = ground arith in
        let of_b : arrays.origin (values g') ≡ arrays.origin (values b) = ground arith in
        let close =
          dispatch_allclose-same_entries (values g) (values g') (rw of_a known)
            (of_a ∙ from ∙ sym of_b) (ground arith) same in
        rw (known_g', close) (allclose_gradients-equal_gradients rest others valid_b later nothing)

  -- For two valid blocks whose arrays come from the same library, NumPy or PyTorch, and have the
  -- same element type and device, and for tolerances for which `torch.allclose` and `np.allclose`
  -- find arrays with the same entries close: where `equal_block` returns True, so does
  -- `allclose_block`.
  pub equal_block-allclose_block :
      (a b : TensorBlock A)
      → is_valid a ≡ true
      → is_valid b ≡ true
      → is_known (closeness.library_of (arrays.origin (values a))) ≡ true
      → arrays.origin (values a) ≡ arrays.origin (values b)
      → alike (values a) (values b) ≡ true
      → equal_block a b ≡ ok true
      → allclose_block rtol atol equal_nan a b ≡ ok true
  unfolding equal_block equal_block_impl equal_block_parts allclose_block allclose_block_impl
      allclose_metadata
  equal_block-allclose_block a b valid_a valid_b known from like h =
      let (difference, found, told) = bind-eq_ok (equal_block_impl a b) _ h in
      let nothing = ok_injective told in
      let (shaped, rest) =
        compared_first (arrays.shape (values a) == arrays.shape (values b)) _ _ found nothing in
      let (compared, decided, rest') =
        bind-eq_ok (entries.same_entries (values a) (values b)) _ rest in
      let (found_same, parts) = compared_first compared _ _ rest' nothing in
      let same = decided ∙ ap ok found_same in
      let (m, checked, later) = bind-eq_ok (check_blocks_impl a b (word "all")) _ parts in
      let (no_m, inner) = found_nothing m _ later nothing in
      let (m', checked', later') =
        bind-eq_ok (check_same_gradients_impl a b (word "all")) _ inner in
      let (no_m', gradients_equal) = found_nothing m' _ later' nothing in
      rw
        (
          shaped,
          dispatch_allclose-same_entries (values a) (values b) known from like same,
          checked ∙ ap ok no_m,
          reorder_same_gradients a b (checked' ∙ ap ok no_m'),
          allclose_gradients-equal_gradients a b known from like (gradients a)
              (gradients_valid a valid_a) (gradients_valid b valid_b) gradients_equal nothing,
        )
        refl
