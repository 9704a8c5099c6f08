-- ===== src/Tests/OfBlocks.antt =====
-- Blocks: witnesses.
use aml_storage.Prelude.{
  ℕ, pos, ◌≡◌, refl, true, false, none, some, List, [], ◌∷◌, contains, distinct, list_beq, int_beq,
  int_eq, nat_eq, list_eq, string_eq, if◌then◌else◌, inl,
}
use aml_storage.Result.{ok, err, value_error, metatensor_error}
use aml_storage.Labels.Core.{Labels, equal}
use aml_storage.Block.Core.{
  TensorBlock, block, no_gradient, gradient, new, rust_add_gradient, add_gradient, same_labels,
  starts_with_sample, refers_below,
}
use aml_storage.Block.Valid.{is_valid, are_owned, describes, new_lem}
use aml_storage.Block.Acceptance.{CanBeGradient, add_gradient-CanBeGradient}
use aml_storage.Prelude.{◌↔◌}
use aml_storage.Block.Gradients.{IsExtended, add_gradient-IsExtended}
use aml_storage.Block.Object.{BlockObject, object_add_gradient}
use aml_storage.Block.Moves.{Owns, Moved, object_add_gradient-Moved, object_add_gradient-moved}
use aml_storage.Operations.Share.{share_block, share_block_lem}
use aml_storage.Tests.Inputs.{Shaped, shaped, row, first}

abbrev column_p : Labels
column_p = record { names = "p" ∷ []; values = (pos 0 ∷ []) ∷ (pos 1 ∷ []) ∷ []; is_view = false }

abbrev xyz : Labels
xyz = record {
  names = "xyz" ∷ [];
  values = (pos 0 ∷ []) ∷ (pos 1 ∷ []) ∷ (pos 2 ∷ []) ∷ [];
  is_view = false;
}

abbrev of_samples : Labels
of_samples = record {
  names = "sample" ∷ "atom" ∷ [];
  values = row 0 3 ∷ row 1 4 ∷ row 1 5 ∷ [];
  is_view = false;
}

abbrev array : List ℕ → Shaped
array shape = record { shape = shape; dtype = 0 }

-- Two samples and two properties.
abbrev pub plain : TensorBlock Shaped
plain = block (array (2 ∷ 2 ∷ [])) first [] column_p no_gradient

-- Three gradient samples, with a component for the direction.
abbrev forces : TensorBlock Shaped
forces = block (array (3 ∷ 3 ∷ 2 ∷ [])) of_samples (xyz ∷ []) column_p no_gradient

abbrev with_forces : TensorBlock Shaped
with_forces = block (array (2 ∷ 2 ∷ [])) first [] column_p (gradient "positions" forces no_gradient)

pub plain_valid : is_valid plain ≡ true
unfolding is_valid list_beq distinct contains
plain_valid = refl

forces_valid : is_valid forces ≡ true
unfolding is_valid list_beq distinct contains
forces_valid = refl

with_forces_valid : is_valid with_forces ≡ true
unfolding is_valid list_beq distinct contains equal same_labels starts_with_sample refers_below
    int_beq
with_forces_valid = refl

forces_added : add_gradient plain "positions" forces ≡ ok with_forces
unfolding add_gradient rust_add_gradient equal same_labels starts_with_sample refers_below list_beq
    distinct contains int_beq
forces_added = refl

add_gradient-IsExtended_example : IsExtended plain "positions" forces with_forces
add_gradient-IsExtended_example =
    add_gradient-IsExtended plain "positions" forces plain_valid forces_valid forces_added

add_gradient-CanBeGradient_example :
    ((c : TensorBlock Shaped) × (add_gradient plain "positions" forces ≡ ok c)
      × IsExtended plain "positions" forces c)
    ↔ CanBeGradient plain "positions" forces
add_gradient-CanBeGradient_example =
    add_gradient-CanBeGradient plain "positions" forces plain_valid forces_valid

new_lem_example : new (array (2 ∷ 3 ∷ [])) first [] column_p ≡ (
    if are_owned first [] column_p
    then if describes (2 ∷ 3 ∷ []) first [] column_p
      then ok (block (array (2 ∷ 3 ∷ [])) first [] column_p no_gradient)
      else err metatensor_error
    else err value_error)
new_lem_example = new_lem (array (2 ∷ 3 ∷ [])) first [] column_p

share_block_lem_example : share_block with_forces ≡ ok with_forces
share_block_lem_example = share_block_lem with_forces with_forces_valid refl

abbrev object : TensorBlock Shaped → BlockObject Shaped
object b = record { ptr = some b; has_parent = false; cached_dtype = none; cached_device = none }

abbrev moved_object : BlockObject Shaped
moved_object = record {
  ptr = none;
  has_parent = false;
  cached_dtype = some 0;
  cached_device = some 0;
}

owns : (b : TensorBlock Shaped) → Owns (object b) b
owns b = record { owned = refl; live = refl; dtype_cache = inl refl; device_cache = inl refl }

object_add_gradient-Moved_example :
    Moved plain forces
      (add_gradient plain "positions" forces)
      (object_add_gradient (object plain) (object forces) "positions")
object_add_gradient-Moved_example =
    object_add_gradient-Moved (object plain) (object forces) plain forces "positions" (owns plain)
      (owns forces)

object_add_gradient-moved_example :
    ((object_add_gradient (object plain) moved_object "positions").0 ≡ err value_error)
    × ((object_add_gradient (object plain) moved_object "positions").1.ptr ≡ some plain)
    × ((object_add_gradient (object plain) moved_object "positions").2.ptr ≡ none)
object_add_gradient-moved_example =
    object_add_gradient-moved (object plain) moved_object plain "positions" (owns plain) refl
