-- ===== src/TensorMap/All.antt =====
-- `tensor.blocks()` without a selection (tensor.py).
use aml_storage.Prelude.{
  ℕ, zero, suc, ◌+◌, ◌<◌, pos, ◌≡◌, refl, sym, ap, ◌∙◌, false, Bool-cases, some, inl, inr, List, [],
  ◌∷◌, arith, length, range_from, is_empty, get_elem?, nat_beq, nat_beq_iff, subst,
}
use aml_storage.Result.{ok, map_m}
use aml_storage.Numpy.{Numpy}
use aml_storage.Labels.Core.{len}
use aml_storage.Block.Core.{TensorBlock}
use aml_storage.TensorMap.Core.{TensorMap, block_by_id, native_block, blocks_by_id}
use aml_storage.TensorMap.Selection.{by_dict, blocks_of_labels, get_blocks}

module _ {A : Type 0} (t : TensorMap A) where
  pub block_at :
      (i : ℕ) (b : TensorBlock A)
      → i < len t.keys
      → get_elem? t.blocks i ≡ some b
      → block_by_id t (pos i) ≡ ok b
  unfolding block_by_id native_block
  block_at i b lt at = rw at (ground arith)

  blocks_from :
      (i : ℕ) (blocks : List (TensorBlock A))
      → i + length blocks ≡ len t.keys
      → ((j : ℕ) → get_elem? t.blocks (i + j) ≡ get_elem? blocks j)
      → map_m (λ k. block_by_id t (pos k)) (range_from i (length blocks)) ≡ ok blocks
  unfolding map_m
  blocks_from i [] n at = refl
  blocks_from i (b ∷ blocks) n at =
      let later =
        blocks_from (suc i) blocks (omega arith)
          (λ j. ap (get_elem? t.blocks) (omega arith) ∙ at (suc j)) in
      let here : get_elem? t.blocks i ≡ some b = ap (get_elem? t.blocks) (omega arith) ∙ at 0 in
      ground (arith, block_at i b (omega arith) here)

  is_empty-range_from : (s n : ℕ) → nat_beq n 0 ≡ false → is_empty (range_from s n) ≡ false
  is_empty-range_from s zero h = absurd (ground arith)
  is_empty-range_from s (suc n) h = refl

  empty_list : (xs : List (TensorBlock A)) → length xs ≡ 0 → xs ≡ []
  empty_list [] h = refl
  empty_list (x ∷ xs) h = absurd (omega arith)

  module _ ⦃np : Numpy⦄ where
    -- In a map with a block for each key, `blocks` without a selection returns all the blocks, in
    -- the order of the keys.
    pub get_blocks-all : length t.blocks ≡ len t.keys → get_blocks t (by_dict []) ≡ ok t.blocks
    unfolding get_blocks blocks_of_labels blocks_by_id
    get_blocks-all as_many = elim (Bool-cases (nat_beq (len t.keys) 0)) [
      | inl none_there ↦
          rw none_there
            (ap ok (sym (empty_list t.blocks (ground (arith, nat_beq_iff (len t.keys) 0)))))
      | inr some_there ↦
          rw (some_there, is_empty-range_from 0 (len t.keys) some_there)
            (subst (λ n. map_m (λ k. block_by_id t (pos k)) (range_from 0 n) ≡ ok t.blocks) as_many
              (blocks_from 0 t.blocks (omega arith) (λ j. ap (get_elem? t.blocks) (omega arith))))
    ]
