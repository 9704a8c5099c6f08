-- ===== src/Operations/MapMetadata.antt =====
-- equal_metadata.py and _utils.py for maps: the keys are compared first, in any order, then the
-- blocks with the same key.
use aml_storage.Prelude.{
  Bool, not, Option, none, some, List, [], ◌∷◌, all, nat_beq, ◌==◌, string_eq, list_eq,
  if◌then◌else◌,
}
use aml_storage.Result.{Result, ok, ◌>>=◌, map_m}
use aml_storage.Numpy.{Numpy}
use aml_storage.Labels.Rows.{Row}
use aml_storage.Labels.Core.{len, contains_entry}
use aml_storage.TensorMap.Core.{TensorMap}
use aml_storage.TensorMap.Selection.{by_entry, get_block}
use aml_storage.Operations.Metadata.{
  Message, key_names, number_of_blocks, other_keys, Check, is_empty_message, raise_message,
  equal_metadata_block_impl,
}

module _ {A : Type 0} where
  -- `_check_same_keys_impl(a, b, fname)`
  unfoldable pub check_same_keys_impl : TensorMap A → TensorMap A → Result (Option Message)
  unfolding contains_entry
  check_same_keys_impl a b =
      if not (a.keys.names == b.keys.names)
      then ok (some key_names)
      else if not (nat_beq (len a.keys) (len b.keys))
      then ok (some number_of_blocks)
      else do
        present ← map_m (contains_entry a.keys) b.keys.values
        ok (if all (λ p. p) present then none else some other_keys)

  -- `_check_same_keys(a, b, fname)`
  unfoldable pub check_same_keys : TensorMap A → TensorMap A → Result Bool
  unfolding check_same_keys_impl
  check_same_keys a b = do message ← check_same_keys_impl a b; ok (is_empty_message message)

  -- `_check_same_keys_raise(a, b, fname)`
  unfoldable pub check_same_keys_raise : TensorMap A → TensorMap A → Result (Unit {0})
  unfolding check_same_keys_impl raise_message
  check_same_keys_raise a b = do message ← check_same_keys_impl a b; raise_message message

module _ ⦃np : Numpy⦄ {A : Type 0} where
  -- The loop over the keys of the first map.
  unfoldable pub equal_blocks :
      TensorMap A → TensorMap A → Check → List Row → Result (Option Message)
  unfolding get_block equal_metadata_block_impl
  equal_blocks a b check [] = ok none
  equal_blocks a b check (row ∷ rows) = do
    block_1 ← get_block a (by_entry (record { names = a.keys.names; values = row }))
    block_2 ← get_block b (by_entry (record { names = a.keys.names; values = row }))
    found ← equal_metadata_block_impl block_1 block_2 check
    elim found [ some message ↦ ok (some message) | none ↦ equal_blocks a b check rows ]

  -- `_equal_metadata_impl(tensor_1, tensor_2, check)`
  unfoldable pub equal_metadata_impl : TensorMap A → TensorMap A → Check → Result (Option Message)
  unfolding check_same_keys_impl equal_blocks
  equal_metadata_impl a b check = do
    found ← check_same_keys_impl a b
    elim found [ some message ↦ ok (some message) | none ↦ equal_blocks a b check a.keys.values ]

  -- `equal_metadata(tensor_1, tensor_2, check)`
  unfoldable pub equal_metadata : TensorMap A → TensorMap A → Check → Result Bool
  unfolding equal_metadata_impl
  equal_metadata a b check = do
    message ← equal_metadata_impl a b check
    ok (is_empty_message message)

  -- `equal_metadata_raise(tensor_1, tensor_2, check)`
  unfoldable pub equal_metadata_raise : TensorMap A → TensorMap A → Check → Result (Unit {0})
  unfolding equal_metadata_impl raise_message
  equal_metadata_raise a b check = do message ← equal_metadata_impl a b check; raise_message message
