-- ===== src/Operations/UniqueMetadata.antt =====
-- unique_metadata.py: the different entries of some dimensions of the samples or the properties, in
-- all the blocks of a map, or in one block.
use aml_storage.Prelude.{
  String, ◌≡◌, Bool, true, Option, none, some, List, [], ◌∷◌, length, string_eq, int_eq, list_eq,
  contains, distinct, ◌==◌, if◌then◌else◌, ◌&&◌,
}
use aml_storage.Result.{Result, ok, guard, ◌>>=◌, ◌>>◌, map_m, value_error}
use aml_storage.Numpy.{Numpy, array_2d, integral}
use aml_storage.Labels.Names.{NamesArg, text, sequence}
use aml_storage.Labels.Rows.{Row, row_leb}
use aml_storage.Labels.Core.{Labels, init}
use aml_storage.Labels.Dimensions.{view}
use aml_storage.Block.Core.{TensorBlock, samples, properties, get_gradient}
use aml_storage.Operations.Dispatch.{concatenate}
use aml_storage.TensorMap.Core.{TensorMap}
use aml_storage.TensorMap.Selection.{by_dict, get_blocks}

-- Each row is at most the next one.
abbrev pub is_sorted : List Row → Bool
is_sorted [] = true
is_sorted (row ∷ []) = true
is_sorted (row ∷ next ∷ rows) = row_leb row next && is_sorted (next ∷ rows)

-- `np.unique(array, axis=0)`: "the sorted unique elements of an array".
pub record Unique : Type 0 where
  pub unique : List Row → List Row
  pub contains-unique :
      (rows : List Row) (row : Row) → contains (unique rows) row ≡ contains rows row
  pub distinct-unique : (rows : List Row) → distinct (unique rows) ≡ true
  pub is_sorted-unique : (rows : List Row) → is_sorted (unique rows) ≡ true

-- `[names] if isinstance(names, str) else ...`
unfoldable pub names_list : NamesArg → List String
names_list (text name) = name ∷ []
names_list (sequence names) = names

-- `_check_args(axis, names, gradient)`, for arguments of the right types.
unfoldable pub check_args : String → Result (Unit {0})
check_args axis = guard (contains ("samples" ∷ "properties" ∷ []) axis) value_error

module _ {A : Type 0} where
  -- The values of the view of the labels along the axis.
  unfoldable pub viewed : String → List String → TensorBlock A → Result (List Row)
  unfolding view
  viewed axis names b =
      if axis == "samples"
      then (do l ← view (samples b) (sequence names); ok l.values)
      else (do l ← view (properties b) (sequence names); ok l.values)

  -- The blocks, or their gradients with the parameter.
  unfoldable pub blocks_or_gradients :
      Option String → List (TensorBlock A) → Result (List (TensorBlock A))
  unfolding get_gradient
  blocks_or_gradients none blocks = ok blocks
  blocks_or_gradients (some parameter) blocks = map_m (λ b. get_gradient b parameter) blocks

module _ ⦃np : Numpy⦄ ⦃unique : Unique⦄ {A : Type 0} where
  -- `_unique_from_blocks(blocks, axis, names)`
  unfoldable pub unique_from_blocks : List (TensorBlock A) → String → List String → Result Labels
  unfolding viewed concatenate init
  unique_from_blocks blocks axis names = do
    all_values ← map_m (viewed axis names) blocks
    rows ← concatenate all_values
    init (sequence names) (array_2d integral (length names) (unique.unique rows))

  -- `unique_metadata(tensor, axis, names, gradient)`
  unfoldable pub unique_metadata : TensorMap A → String → NamesArg → Option String → Result Labels
  unfolding names_list check_args get_blocks blocks_or_gradients unique_from_blocks
  unique_metadata t axis names parameter = do
    check_args axis
    all_blocks ← get_blocks t (by_dict [])
    blocks ← blocks_or_gradients parameter all_blocks
    unique_from_blocks blocks axis (names_list names)

  -- `unique_metadata_block(block, axis, names, gradient)`
  unfoldable pub unique_metadata_block :
      TensorBlock A → String → NamesArg → Option String → Result Labels
  unfolding names_list check_args blocks_or_gradients unique_from_blocks
  unique_metadata_block b axis names parameter = do
    check_args axis
    blocks ← blocks_or_gradients parameter (b ∷ [])
    unique_from_blocks blocks axis (names_list names)
