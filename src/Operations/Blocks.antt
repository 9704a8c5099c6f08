-- ===== src/Operations/Blocks.antt =====
-- filter_blocks.py and drop_blocks.py: the blocks whose keys match a selection are kept, or left
-- out.
use aml_storage.Prelude.{
  ℕ, suc, pos, String, Bool, true, false, not, List, [], ◌∷◌, length, is_empty, nat_eq, contains,
  if◌then◌else◌,
}
use aml_storage.Result.{Result, ok, ◌>>=◌}
use aml_storage.Numpy.{Numpy, array_2d, integral}
use aml_storage.Labels.Names.{sequence}
use aml_storage.Labels.Rows.{Row}
use aml_storage.Labels.Core.{Labels, init}
use aml_storage.Labels.Sets.{select}
use aml_storage.Block.Core.{Arrays, TensorBlock, copy_block}
use aml_storage.TensorMap.Core.{TensorMap, new, block_by_id}
use aml_storage.Operations.Share.{share_block}

-- The number of columns of the stacked rows.
unfoldable pub width : List Row → ℕ
width [] = 0
width (row ∷ rows) = length row

module _ {A : Type 0} ⦃arrays : Arrays A⦄ where
  -- `block.copy()`, or a new block on the same data
  unfoldable pub taken : Bool → TensorBlock A → Result (TensorBlock A)
  unfolding share_block copy_block
  taken copy b = if copy then ok (copy_block b) else share_block b

  -- The loop over the keys: the values of the keys that are kept, and their blocks.
  unfoldable pub kept_blocks :
      (ℕ → Bool) → Bool → TensorMap A → ℕ → List Row → Result (List Row × List (TensorBlock A))
  unfolding taken block_by_id
  kept_blocks keep copy t i [] = ok ([], [])
  kept_blocks keep copy t i (row ∷ rows) = elim (keep i) [
    | true ↦ do
      b ← block_by_id t (pos i)
      new_block ← taken copy b
      (values, blocks) ← kept_blocks keep copy t (suc i) rows
      ok (row ∷ values, new_block ∷ blocks)
    | false ↦ kept_blocks keep copy t (suc i) rows
  ]

module _ ⦃np : Numpy⦄ where
  -- The new keys, with the names of the old ones.
  unfoldable pub new_keys : List String → List Row → Result Labels
  unfolding init width
  new_keys names rows =
      if is_empty rows
      then init (sequence names) (array_2d integral (length names) [])
      else init (sequence names) (array_2d integral (width rows) rows)

  module _ {A : Type 0} ⦃arrays : Arrays A⦄ where
    -- `filter_blocks(tensor, keys, copy)`
    unfoldable pub filter_blocks : TensorMap A → Labels → Bool → Result (TensorMap A)
    unfolding select kept_blocks new_keys new
    filter_blocks t keys copy = do
      to_keep_indices ← select t.keys keys
      (values, blocks) ← kept_blocks (contains to_keep_indices) copy t 0 t.keys.values
      keys' ← new_keys t.keys.names values
      new keys' blocks

    -- `drop_blocks(tensor, keys, copy)`
    unfoldable pub drop_blocks : TensorMap A → Labels → Bool → Result (TensorMap A)
    unfolding select kept_blocks new_keys new
    drop_blocks t keys copy = do
      to_remove_indices ← select t.keys keys
      (values, blocks) ←
          kept_blocks (λ i. not (contains to_remove_indices i)) copy t 0 t.keys.values
      keys' ← new_keys t.keys.names values
      new keys' blocks
