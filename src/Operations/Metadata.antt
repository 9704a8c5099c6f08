-- ===== src/Operations/Metadata.antt =====
-- equal_metadata.py and the checks of _utils.py: whether two blocks, or two maps, have the same
-- metadata. A check returns a message, which is empty where nothing differs.
use aml_storage.Prelude.{
  String, Bool, true, false, ◌||◌, not, Option, none, some, List, [], ◌∷◌, length, all, nat_beq,
  ◌==◌, string_eq, list_eq, contains, if◌then◌else◌,
}
use aml_storage.Result.{Result, ok, err, guard, ◌>>=◌, value_error, not_equal_error}
use aml_storage.Labels.Core.{Labels, equal}
use aml_storage.Block.Core.{
  TensorBlock, samples, components, properties, gradients_list, get_gradient,
}

-- What a message says. `of_gradient` puts a gradient's parameter before the message.
pub data Message : Type 0 where
  key_names : Message
  number_of_blocks : Message
  other_keys : Message
  other_samples : Message
  other_properties : Message
  other_components : Message
  number_of_components : Message
  gradient_parameters : Message
  of_gradient : String → Message → Message

-- `Union[List[str], str]`
pub data Check : Type 0 where
  word : String → Check
  listed : List String → Check

-- The names of the parts to compare.
unfoldable pub metadata_to_check : Check → Result (List String)
metadata_to_check (word w) =
    if w == "all" then ok ("samples" ∷ "components" ∷ "properties" ∷ []) else err value_error
metadata_to_check (listed names) = ok names

-- `c1 == c2` for the pairs of `zip`.
unfoldable pub zip_equal : List Labels → List Labels → Bool
unfolding equal
zip_equal [] ds = true
zip_equal (c ∷ cs) [] = true
zip_equal (c ∷ cs) (d ∷ ds) = if equal c d then zip_equal cs ds else false

unfoldable pub compare_labels : Message → Labels → Labels → Option Message
unfolding equal
compare_labels message l m = if equal l m then none else some message

unfoldable pub compare_components : List Labels → List Labels → Option Message
unfolding zip_equal
compare_components cs ds =
    if nat_beq (length cs) (length ds)
    then if zip_equal cs ds then none else some other_components
    else some number_of_components

-- Whether the check found nothing: `message == ""`.
abbrev pub is_empty_message : Option Message → Bool
is_empty_message none = true
is_empty_message (some message) = false

-- `if message != "": raise NotEqualError(message)`
unfoldable pub raise_message : Option Message → Result (Unit {0})
raise_message message = guard (is_empty_message message) not_equal_error

module _ {A : Type 0} where
  -- One part of the metadata.
  unfoldable pub check_part : String → TensorBlock A → TensorBlock A → Result (Option Message)
  unfolding compare_labels compare_components
  check_part metadata a b =
      if metadata == "samples"
      then ok (compare_labels other_samples (samples a) (samples b))
      else if metadata == "properties"
      then ok (compare_labels other_properties (properties a) (properties b))
      else if metadata == "components"
      then ok (compare_components (components a) (components b))
      else err value_error

  -- The loop over the parts, which returns at the first difference.
  unfoldable pub check_parts : List String → TensorBlock A → TensorBlock A → Result (Option Message)
  unfolding check_part
  check_parts [] a b = ok none
  check_parts (metadata ∷ rest) a b = do
    found ← check_part metadata a b
    elim found [ some message ↦ ok (some message) | none ↦ check_parts rest a b ]

  -- `_check_blocks_impl(a, b, fname, check)`
  unfoldable pub check_blocks_impl : TensorBlock A → TensorBlock A → Check → Result (Option Message)
  unfolding metadata_to_check check_parts
  check_blocks_impl a b check = do names ← metadata_to_check check; check_parts names a b

  -- `_check_blocks(a, b, fname, check)`
  unfoldable pub check_blocks : TensorBlock A → TensorBlock A → Check → Result Bool
  unfolding check_blocks_impl
  check_blocks a b check = do message ← check_blocks_impl a b check; ok (is_empty_message message)

  -- `_check_blocks_raise(a, b, fname, check)`
  unfoldable pub check_blocks_raise : TensorBlock A → TensorBlock A → Check → Result (Unit {0})
  unfolding check_blocks_impl raise_message
  check_blocks_raise a b check = do message ← check_blocks_impl a b check; raise_message message

  -- The loop over the gradients of `a`.
  unfoldable pub check_gradients :
      List String → List String → TensorBlock A → TensorBlock A → Result (Option Message)
  unfolding check_parts get_gradient
  check_gradients names [] a b = ok none
  check_gradients names (parameter ∷ rest) a b = do
    grad_a ← get_gradient a parameter
    grad_b ← get_gradient b parameter
    found ← check_parts names grad_a grad_b
    elim found [
      | some message ↦ ok (some (of_gradient parameter message))
      | none ↦ check_gradients names rest a b
    ]

  -- `_check_same_gradients_impl(a, b, fname, check)`
  unfoldable pub check_same_gradients_impl :
      TensorBlock A → TensorBlock A → Check → Result (Option Message)
  unfolding metadata_to_check check_gradients
  check_same_gradients_impl a b check = do
    names ← metadata_to_check check
    if not (nat_beq (length (gradients_list a)) (length (gradients_list b)))
          || not (all (contains (gradients_list b)) (gradients_list a))
        then ok (some gradient_parameters)
        else check_gradients names (gradients_list a) a b

  -- `_check_same_gradients(a, b, fname, check)`
  unfoldable pub check_same_gradients : TensorBlock A → TensorBlock A → Check → Result Bool
  unfolding check_same_gradients_impl
  check_same_gradients a b check = do
    message ← check_same_gradients_impl a b check
    ok (is_empty_message message)

  -- `_check_same_gradients_raise(a, b, fname, check)`
  unfoldable pub check_same_gradients_raise :
      TensorBlock A → TensorBlock A → Check → Result (Unit {0})
  unfolding check_same_gradients_impl raise_message
  check_same_gradients_raise a b check = do
    message ← check_same_gradients_impl a b check
    raise_message message

  -- `_check_gradient_presence_raise(block, parameters, fname)`
  unfoldable pub check_gradient_presence_raise : TensorBlock A → List String → Result (Unit {0})
  check_gradient_presence_raise b [] = ok tt
  check_gradient_presence_raise b (parameter ∷ rest) =
      if contains (gradients_list b) parameter
      then check_gradient_presence_raise b rest
      else err value_error

  -- `_equal_metadata_block_impl(block_1, block_2, check)`
  unfoldable pub equal_metadata_block_impl :
      TensorBlock A → TensorBlock A → Check → Result (Option Message)
  unfolding check_blocks_impl check_same_gradients_impl
  equal_metadata_block_impl a b check = do
    found ← check_blocks_impl a b check
    elim found [ some message ↦ ok (some message) | none ↦ check_same_gradients_impl a b check ]

  -- `equal_metadata_block(block_1, block_2, check)`
  unfoldable pub equal_metadata_block : TensorBlock A → TensorBlock A → Check → Result Bool
  unfolding equal_metadata_block_impl
  equal_metadata_block a b check = do
    message ← equal_metadata_block_impl a b check
    ok (is_empty_message message)

  -- `equal_metadata_block_raise(block_1, block_2, check)`
  unfoldable pub equal_metadata_block_raise :
      TensorBlock A → TensorBlock A → Check → Result (Unit {0})
  unfolding equal_metadata_block_impl raise_message
  equal_metadata_block_raise a b check = do
    message ← equal_metadata_block_impl a b check
    raise_message message
