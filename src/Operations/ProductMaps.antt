-- ===== src/Operations/ProductMaps.antt =====
-- multiply.py, divide.py, pow.py and abs.py on maps.
use aml_storage.Prelude.{[]}
use aml_storage.Result.{Result, ◌>>=◌, ◌>>◌, map_m}
use aml_storage.Numpy.{Numpy}
use aml_storage.Labels.Dimensions.{LabelsEntry}
use aml_storage.Block.Core.{Arrays, TensorBlock}
use aml_storage.TensorMap.Core.{TensorMap, items}
use aml_storage.TensorMap.Core as Map
use aml_storage.TensorMap.Selection.{by_dict, by_entry, get_block, get_blocks}
use aml_storage.Operations.Metadata.{word, check_blocks_raise, check_same_gradients_raise}
use aml_storage.Operations.MapMetadata.{check_same_keys_raise}
use aml_storage.Operations.Indexing.{Indexing}
use aml_storage.Operations.Arithmetic.{Arithmetic}
use aml_storage.Operations.Products.{
  Products, abs_block, pow_block_constant, multiply_block_block, divide_block_block,
}

module _ ⦃np : Numpy⦄ {A : Type 0} ⦃arrays : Arrays A⦄ ⦃arithmetic : Arithmetic A⦄
    ⦃indexing : Indexing A⦄ ⦃products : Products A⦄ where
  -- The body of the loop over the keys and the blocks of the first map.
  unfoldable pub combine_item :
      (TensorBlock A → TensorBlock A → Result (TensorBlock A))
      → TensorMap A
      → LabelsEntry × TensorBlock A
      → Result (TensorBlock A)
  unfolding get_block check_blocks_raise check_same_gradients_raise
  combine_item operation b (key, block_a) = do
    block_b ← get_block b (by_entry key)
    check_blocks_raise block_a block_b (word "all")
    check_same_gradients_raise block_a block_b (word "all")
    operation block_a block_b

  -- `multiply(A, B)` where `B` is a map.
  unfoldable pub multiply : TensorMap A → TensorMap A → Result (TensorMap A)
  unfolding check_same_keys_raise items combine_item multiply_block_block Map.new
  multiply a b = do
    check_same_keys_raise a b
    pairs ← items a
    blocks ← map_m (combine_item multiply_block_block b) pairs
    Map.new a.keys blocks

  -- `divide(A, B)` where `B` is a map.
  unfoldable pub divide : TensorMap A → TensorMap A → Result (TensorMap A)
  unfolding check_same_keys_raise items combine_item divide_block_block Map.new
  divide a b = do
    check_same_keys_raise a b
    pairs ← items a
    blocks ← map_m (combine_item divide_block_block b) pairs
    Map.new a.keys blocks

  -- `pow(A, B)`
  unfoldable pub pow : TensorMap A → arithmetic.Constant → Result (TensorMap A)
  unfolding get_blocks pow_block_constant Map.new
  pow a constant = do
    blocks ← get_blocks a (by_dict [])
    new_blocks ← map_m (λ b. pow_block_constant b constant) blocks
    Map.new a.keys new_blocks

  -- `abs(A)`
  unfoldable pub abs : TensorMap A → Result (TensorMap A)
  unfolding get_block abs_block Map.new
  abs a = do
    blocks ←
        map_m
          (λ row. do
            b ← get_block a (by_entry (record { names = a.keys.names; values = row }))
            abs_block b)
          a.keys.values
    Map.new a.keys blocks
