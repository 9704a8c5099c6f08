-- ===== src/Operations/InsertDimension.antt =====
-- manipulate_dimension.py: a dimension is inserted in the keys, or in an axis of every block, with
-- an array of values or with one value for all entries.
use aml_storage.Prelude.{
  ℕ, ℤ, pos, String, List, [], ◌∷◌, length, replicate, nat_beq, ◌==◌, string_eq, if◌then◌else◌,
}
use aml_storage.Result.{Result, ok, err, ◌>>=◌, value_error}
use aml_storage.Numpy.{Numpy, Values, array_1d, integral}
use aml_storage.Labels.Core.{Labels, len}
use aml_storage.Labels.Dimensions.{insert}
use aml_storage.Block.Core.{Arrays, samples, properties}
use aml_storage.TensorMap.Core.{TensorMap, count, block_by_id}
use aml_storage.Operations.Dispatch.{concatenate}
use aml_storage.Operations.Manipulate.{changed}

-- `Union[Array, int]`; an `int` is one that fits 64 bits.
pub data InsertedValues : Type 0 where
  one_value : ℤ → InsertedValues
  array : Values → InsertedValues

-- `label_values`, for labels with `n` entries: one value is repeated by
-- `_dispatch.concatenate([values] * n, axis=0)`.
unfoldable pub label_values : ℕ → InsertedValues → Result Values
unfolding concatenate
label_values n (array values) = ok values
label_values n (one_value v) = do
  repeated ← concatenate (replicate n (v ∷ []))
  ok (array_1d integral repeated)

module _ ⦃np : Numpy⦄ where
  unfoldable pub insert_values : ℤ → String → InsertedValues → Labels → Result Labels
  unfolding label_values insert
  insert_values index name values l = do
    column ← label_values (len l) values
    insert l index name column

module _ ⦃np : Numpy⦄ {A : Type 0} ⦃arrays : Arrays A⦄ where
  -- `insert_dimension(tensor, axis, index, name, values)`
  unfoldable pub insert_dimension :
      TensorMap A → String → ℤ → String → InsertedValues → Result (TensorMap A)
  unfolding changed insert_values
  insert_dimension t axis index name values = changed t axis (insert_values index name values)

  -- `tensor.sample_names` and `tensor.property_names`
  unfoldable pub sample_names : TensorMap A → Result (List String)
  unfolding block_by_id
  sample_names t =
      if nat_beq (count t) 0 then ok [] else do b ← block_by_id t (pos 0); ok (samples b).names

  unfoldable pub property_names : TensorMap A → Result (List String)
  unfolding block_by_id
  property_names t =
      if nat_beq (count t) 0 then ok [] else do b ← block_by_id t (pos 0); ok (properties b).names

  -- `append_dimension(tensor, axis, name, values)`
  unfoldable pub append_dimension :
      TensorMap A → String → String → InsertedValues → Result (TensorMap A)
  unfolding insert_dimension sample_names property_names
  append_dimension t axis name values =
      if axis == "keys"
      then insert_dimension t axis (pos (length t.keys.names)) name values
      else if axis == "samples"
      then (do names ← sample_names t; insert_dimension t axis (pos (length names)) name values)
      else if axis == "properties"
      then (do names ← property_names t; insert_dimension t axis (pos (length names)) name values)
      else err value_error
