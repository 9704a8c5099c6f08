-- ===== src/Operations/SameMetadata.antt =====
-- equal_metadata.py and _utils.py: the checks on blocks with owned labels, and on a map and
-- itself.
use aml_storage.Prelude.{
  ℕ, suc, ◌+◌, ◌≡◌, refl, ap, ◌∙◌, subst, ◌↔◌, Bool, true, false, none, some, List, [], ◌∷◌, arith,
  length, is_empty, nat_beq_iff, get_elem?, get_elem?-some, nat_eq, int_eq, string_eq, list_eq,
  beq_refl, all-contains,
}
use aml_storage.Result.{ok, guard, ◌>>=◌, not_equal_error}
use aml_storage.Numpy.{Numpy}
use aml_storage.Labels.Rows.{Row}
use aml_storage.Labels.Core.{len, equal}
use aml_storage.Labels.Valid.{IsValid}
use aml_storage.Block.Core.{TensorBlock, samples, components, properties}
use aml_storage.Block.Valid.{are_owned}
use aml_storage.TensorMap.Core.{TensorMap}
use aml_storage.TensorMap.Keys.{get_block-entry}
use aml_storage.Operations.Metadata.{
  Check, word, zip_equal, raise_message, check_blocks_impl, check_blocks,
}
use aml_storage.Operations.MapMetadata.{
  check_same_keys_impl, equal_blocks, equal_metadata_impl, equal_metadata, equal_metadata_raise,
}
use aml_storage.Labels.Equality.{equal_refl, equal_eq}
use aml_storage.Operations.SameBlocks.{
  zip_equal_refl, zip_equal_eq, all_equal, check_block_itself, rows_found,
}

module _ {A : Type 0} (a b : TensorBlock A) where
  check_blocks-all_equal : check_blocks a b (word "all") ≡ ok (all_equal a b)
  unfolding check_blocks
  check_blocks-all_equal = ground arith

  check_blocks_impl-all_equal : all_equal a b ≡ true → check_blocks_impl a b (word "all") ≡ ok none
  unfolding check_blocks_impl
  check_blocks_impl-all_equal h = ground arith

  all_equal_from :
      samples a ≡ samples b
      → components a ≡ components b
      → properties a ≡ properties b
      → all_equal a b ≡ true
  all_equal_from s c p =
      let samples_equal = subst (λ m. equal (samples a) m ≡ true) s (equal_refl (samples a)) in
      let components_equal =
        subst (λ cs. zip_equal (components a) cs ≡ true) c (zip_equal_refl (components a)) in
      let properties_equal =
        subst (λ m. equal (properties a) m ≡ true) p (equal_refl (properties a)) in
      ground (arith, nat_beq_iff (length (components a)) (length (components b)), ap length c)

  pub all_equal_to :
      are_owned (samples a) (components a) (properties a) ≡ true
      → are_owned (samples b) (components b) (properties b) ≡ true
      → all_equal a b ≡ true
      → (samples a ≡ samples b) × (components a ≡ components b) × (properties a ≡ properties b)
  all_equal_to own_a own_b h = (
    equal_eq (samples a) (samples b) (ground arith) (ground arith) (ground arith),
    zip_equal_eq (components a) (components b)
        (ground (arith, nat_beq_iff (length (components a)) (length (components b)))) (ground arith)
        (ground arith) (ground arith),
    equal_eq (properties a) (properties b) (ground arith) (ground arith) (ground arith),
  )

  -- For two blocks with owned labels the check of all metadata returns, and says that they are the
  -- same exactly where samples, components and properties are equal.
  pub check_blocks_lem :
      are_owned (samples a) (components a) (properties a) ≡ true
      → are_owned (samples b) (components b) (properties b) ≡ true
      → (same : Bool) × (check_blocks a b (word "all") ≡ ok same)
        × ((same ≡ true)
            ↔ (samples a ≡ samples b)
              × (components a ≡ components b)
              × (properties a ≡ properties b))
  check_blocks_lem own_a own_b = (
    all_equal a b,
    check_blocks-all_equal,
    (all_equal_to own_a own_b, λ h. all_equal_from h.0 h.1 h.2),
  )

module _ ⦃np : Numpy⦄ {A : Type 0} (t : TensorMap A) (valid : IsValid t.keys)
    (as_many : length t.blocks ≡ len t.keys) (named : is_empty t.keys.names ≡ false) where
  same_keys_itself : check_same_keys_impl t t ≡ ok none
  unfolding check_same_keys_impl
  same_keys_itself =
      let (present, found, every) =
        rows_found t.keys valid named t.keys.values
          (all-contains t.keys.values t.keys.values (λ r m. m)) in
      rw (beq_refl t.keys.names, (nat_beq_iff (len t.keys) (len t.keys)).1 refl, found, every) refl

  equal_blocks_itself :
      (i : ℕ) (rows : List Row)
      → i + length rows ≡ len t.keys
      → ((j : ℕ) → get_elem? t.keys.values (i + j) ≡ get_elem? rows j)
      → equal_blocks t t (word "all") rows ≡ ok none
  unfolding equal_blocks
  equal_blocks_itself i [] n at = refl
  equal_blocks_itself i (row ∷ rows) n at =
      let (b, block_at) = get_elem?-some t.blocks i (omega arith) in
      let key_at : get_elem? t.keys.values i ≡ some row =
        ap (get_elem? t.keys.values) (omega arith) ∙ at 0 in
      let later =
        equal_blocks_itself (suc i) rows (omega arith)
          (λ j. ap (get_elem? t.keys.values) (omega arith) ∙ at (suc j)) in
      rw (get_block-entry t valid named i row b key_at block_at, check_block_itself b) later

  -- A map whose keys are valid and have at least one name, with a block for each key, has the same
  -- metadata as itself: `equal_metadata` of all parts returns, and its result is True.
  pub equal_metadata-itself : equal_metadata t t (word "all") ≡ ok true
  unfolding equal_metadata equal_metadata_impl
  equal_metadata-itself =
      rw
        (
          same_keys_itself,
          equal_blocks_itself 0 t.keys.values (omega arith)
              (λ j. ap (get_elem? t.keys.values) (omega arith)),
        )
        refl

module _ ⦃np : Numpy⦄ {A : Type 0} (a b : TensorMap A) (check : Check) where
  -- For any two maps, `equal_metadata_raise` returns exactly where `equal_metadata` returns True,
  -- raises a NotEqualError where it returns False, and raises what it raises.
  pub equal_metadata_raise_lem :
      equal_metadata_raise a b check
      ≡ (equal_metadata a b check >>= λ same. guard same not_equal_error)
  unfolding equal_metadata_raise equal_metadata raise_message
  equal_metadata_raise_lem = ground arith
