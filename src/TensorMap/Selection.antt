-- ===== src/TensorMap/Selection.antt =====
-- How a `TensorMap` finds the blocks that match a selection: tensor.py over
-- `TensorMap::blocks_matching` of metatensor-core/src/tensor/mod.rs.
use aml_storage.Prelude.{
  ℕ, suc, ℤ, pos, String, Bool, true, ◌&&◌, Option, none, some, List, [], ◌∷◌, map, length,
  is_empty, get_or, range_from, nat_beq, if◌then◌else◌, ◌==◌, int_eq, string_eq, index_of,
}
use aml_storage.Result.{
  Result, ok, err, guard, ◌>>=◌, ◌>>◌, value_error, metatensor_error, overflow_error,
}
use aml_storage.Numpy.{Numpy, array_2d, integral}
use aml_storage.Labels.Names.{sequence}
use aml_storage.Labels.Rows.{Row}
use aml_storage.Labels.Core.{Labels, len, init, as_mts_labels}
use aml_storage.Labels.Dimensions.{LabelsEntry, entry}
use aml_storage.Block.Core.{TensorBlock}
use aml_storage.TensorMap.Core.{TensorMap, block_by_id, blocks_by_id}

-- The forms of a selection; keyword arguments are a dictionary.
pub data Selection : Type 0 where
  by_index : ℤ → Selection
  by_labels : Labels → Selection
  by_entry : LabelsEntry → Selection
  by_dict : List (String × ℤ) → Selection

-- The positions of the requested names in the keys.
unfoldable pub requested_dimensions : List String → List String → Result (List ℕ)
requested_dimensions names [] = ok []
requested_dimensions names (name ∷ rest) = elim (index_of names name) [
  | none ↦ err metatensor_error
  | some i ↦ do dimensions ← requested_dimensions names rest; ok (i ∷ dimensions)
]

-- `labels[requested_i] == value` for each requested dimension.
unfoldable pub matches : List ℕ → Row → Row → Bool
matches [] wanted key = true
matches (d ∷ dimensions) [] key = true
matches (d ∷ dimensions) (w ∷ wanted) key =
    (get_or key d (pos 0) == w) && matches dimensions wanted key

-- The positions of the keys that match, counted from `i`.
unfoldable pub matching_from : List ℕ → Row → ℕ → List Row → List ℕ
unfolding matches
matching_from dimensions wanted i [] = []
matching_from dimensions wanted i (key ∷ keys) =
    let rest = matching_from dimensions wanted (suc i) keys in
    if matches dimensions wanted key then i ∷ rest else rest

first_row : List Row → Row
first_row [] = []
first_row (row ∷ rows) = row

-- `TensorMap::blocks_matching`, for a map with as many blocks as keys
unfoldable pub rust_blocks_matching : Labels → Labels → Result (List ℕ)
unfolding requested_dimensions matching_from first_row
rust_blocks_matching keys selection =
    if is_empty selection.names then ok (range_from 0 (len keys)) else do
      guard (nat_beq (len selection) 1) metatensor_error
      dimensions ← requested_dimensions keys.names selection.names
      ok (matching_from dimensions (first_row selection.values) 0 keys.values)

module _ {A : Type 0} where
  -- `tensor.blocks_matching(selection)`
  unfoldable pub blocks_matching : TensorMap A → Labels → Result (List ℕ)
  unfolding rust_blocks_matching as_mts_labels
  blocks_matching t selection = do s ← as_mts_labels selection; rust_blocks_matching t.keys s

int32_values : (ℤ → Option ℤ) → List (String × ℤ) → Result (List ℤ)
int32_values int32 [] = ok []
int32_values int32 ((k, v) ∷ rest) = elim (int32 v) [
  | none ↦ err overflow_error
  | some w ↦ do ws ← int32_values int32 rest; ok (w ∷ ws)
]

module _ ⦃np : Numpy⦄ where
  -- `Labels(list(selection.keys()), np.array([...]))`
  dict_labels : List (String × ℤ) → Result Labels
  unfolding int32_values init
  dict_labels [] = init (sequence []) (array_2d integral 0 [])
  dict_labels (item ∷ items) = do
    row ← int32_values np.int32 (item ∷ items)
    init (sequence (map (λ kv. kv.0) (item ∷ items))) (array_2d integral (length row) (row ∷ []))

  entry_labels : LabelsEntry → Result Labels
  unfolding init
  entry_labels e = init (sequence e.names) (array_2d integral (length e.values) (e.values ∷ []))

  module _ {A : Type 0} where
    -- `block` once the selection is a set of labels; the message for several matches prints the
    -- first entry of the selection.
    unfoldable pub block_of_labels : TensorMap A → Labels → Result (TensorBlock A)
    unfolding blocks_matching block_by_id entry
    block_of_labels t selection = do
      matching ← blocks_matching t selection
      elim matching [
        | [] ↦ err value_error
        | i ∷ others ↦ elim others [
          | [] ↦ block_by_id t (pos i)
          | j ∷ more ↦ do first ← entry selection (pos 0); err value_error
        ]
      ]

    -- `tensor.block(selection)`
    unfoldable pub get_block : TensorMap A → Selection → Result (TensorBlock A)
    unfolding block_of_labels dict_labels entry_labels
    get_block t (by_index i) = block_by_id t i
    get_block t (by_labels l) = block_of_labels t l
    get_block t (by_entry e) = do l ← entry_labels e; block_of_labels t l
    get_block t (by_dict d) = do l ← dict_labels d; block_of_labels t l

    unfoldable pub blocks_of_labels : TensorMap A → Labels → Result (List (TensorBlock A))
    unfolding blocks_matching blocks_by_id
    blocks_of_labels t selection = do
      matching ← blocks_matching t selection
      if nat_beq (len t.keys) 0
          then ok []
          else if is_empty matching
          then err value_error
          else blocks_by_id t matching

    -- `tensor.blocks(selection)`
    unfoldable pub get_blocks : TensorMap A → Selection → Result (List (TensorBlock A))
    unfolding blocks_of_labels dict_labels entry_labels
    get_blocks t (by_index i) = do b ← block_by_id t i; ok (b ∷ [])
    get_blocks t (by_labels l) = blocks_of_labels t l
    get_blocks t (by_entry e) = do l ← entry_labels e; blocks_of_labels t l
    get_blocks t (by_dict d) = do l ← dict_labels d; blocks_of_labels t l
