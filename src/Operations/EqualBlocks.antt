-- ===== src/Operations/EqualBlocks.antt =====
-- equal.py and equal_metadata.py: blocks that are equal have the same metadata.
use aml_storage.Prelude.{
  ◌≡◌, refl, ap, ◌∙◌, Bool, true, false, not, Option, none, some, arith, nat_eq, list_eq, ◌==◌,
  if◌then◌else◌,
}
use aml_storage.Result.{Result, ok, bind-eq_ok, ok_injective}
use aml_storage.Block.Core.{Arrays, TensorBlock, values}
use aml_storage.Operations.Metadata.{
  Message, word, check_blocks_impl, check_same_gradients_impl, equal_metadata_block_impl,
  equal_metadata_block,
}
use aml_storage.Operations.Equal.{
  Difference, Entries, metadata, is_nothing, values_shapes, values_not_equal, equal_block_parts,
  equal_block_impl, equal_block,
}

-- A check that found nothing, where the whole found nothing.
pub found_nothing :
    (found : Option Message) (later : Result (Option Difference)) {difference : Option Difference}
    → (elim found [ some message ↦ ok (some (metadata message)) | none ↦ later ]) ≡ ok difference
    → is_nothing difference ≡ true
    → (found ≡ none) × (later ≡ ok difference)
found_nothing none later h nothing = (refl, h)
found_nothing (some message) later h nothing =
    absurd (ground (arith, ap is_nothing (ok_injective h)))

-- A test that did not return a difference.
pub no_difference :
    (different : Bool) (d : Difference) (later : Result (Option Difference))
    {difference : Option Difference}
    → (if different then ok (some d) else later) ≡ ok difference
    → is_nothing difference ≡ true
    → later ≡ ok difference
no_difference false d later h nothing = h
no_difference true d later h nothing = absurd (ground (arith, ap is_nothing (ok_injective h)))

metadata_checked :
    {A : Type 0} (a b : TensorBlock A)
    → check_blocks_impl a b (word "all") ≡ ok none
    → check_same_gradients_impl a b (word "all") ≡ ok none
    → equal_metadata_block a b (word "all") ≡ ok true
unfolding equal_metadata_block equal_metadata_block_impl
metadata_checked a b h k = rw (h, k) refl

module _ {A : Type 0} ⦃arrays : Arrays A⦄ ⦃entries : Entries A⦄ (a b : TensorBlock A) where
  -- For any two blocks, where `equal_block` returns True, so does `equal_metadata_block` of all
  -- parts.
  pub equal_block-equal_metadata_block :
      equal_block a b ≡ ok true → equal_metadata_block a b (word "all") ≡ ok true
  unfolding equal_block equal_block_impl equal_block_parts
  equal_block-equal_metadata_block h =
      let (difference, found, told) = bind-eq_ok (equal_block_impl a b) _ h in
      let nothing = ok_injective told in
      let shapes =
        no_difference (not (arrays.shape (values a) == arrays.shape (values b))) values_shapes _
          found nothing in
      let (close, compared, decided) =
        bind-eq_ok (entries.same_entries (values a) (values b)) _ shapes in
      let same = no_difference (not close) values_not_equal _ decided nothing in
      let (m, checked, later) = bind-eq_ok (check_blocks_impl a b (word "all")) _ same in
      let (no_m, rest) = found_nothing m _ later nothing in
      let (m', checked', later') = bind-eq_ok (check_same_gradients_impl a b (word "all")) _ rest in
      let (no_m', _) = found_nothing m' _ later' nothing in
      metadata_checked a b (checked ∙ ap ok no_m) (checked' ∙ ap ok no_m')
