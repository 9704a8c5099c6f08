-- ===== src/Block/Moves.antt =====
-- Python block objects that are moved into one another: what `add_gradient` on objects does in
-- terms of `add_gradient` on blocks, and what becomes of the gradient when the call fails.
use aml_storage.Prelude.{
  String, ◌≡◌, ◌⊎◌, inl, inr, Bool-cases, Bool, true, false, none, some, arith, nat_beq,
  if◌then◌else◌,
}
use aml_storage.Result.{Result, ok, err, value_error, metatensor_error}
use aml_storage.Block.Core.{Arrays, TensorBlock, block, values, rust_add_gradient, add_gradient}
use aml_storage.Block.Gradients.{rust_add_gradient_lem}
use aml_storage.Block.Object.{BlockObject, dtype, device, object_add_gradient}

-- An object that owns the block `b` and has not been moved; its caches, if set, are those of `b`.
pub record Owns {A : Type 0} ⦃arrays : Arrays A⦄ (o : BlockObject A) (b : TensorBlock A)
    : Type 0 where
  pub owned : o.has_parent ≡ false
  pub live : o.ptr ≡ some b
  pub dtype_cache : (o.cached_dtype ≡ none) ⊎ (o.cached_dtype ≡ some (arrays.dtype (values b)))
  pub device_cache : (o.cached_device ≡ none) ⊎ (o.cached_device ≡ some (arrays.device (values b)))

module _ {A : Type 0} ⦃arrays : Arrays A⦄ where
  -- What a call makes of the two objects, by the outcome of `add_gradient` on their blocks.
  abbrev pub Moved :
      TensorBlock A
      → TensorBlock A
      → Result (TensorBlock A)
      → Result (Unit {0}) × BlockObject A × BlockObject A
      → Type 0
  Moved b g (ok c) after = (after.0 ≡ ok tt) × (after.1.ptr ≡ some c) × (after.2.ptr ≡ none)
  Moved b g (err value_error) after =
      (after.0 ≡ err value_error) × (after.1.ptr ≡ some b) × (after.2.ptr ≡ some g)
  Moved b g (err e) after = (after.0 ≡ err e) × (after.1.ptr ≡ some b) × (after.2.ptr ≡ none)

  dtype-Owns :
      (o : BlockObject A) (b : TensorBlock A)
      → Owns o b
      → ((dtype o).0 ≡ ok (arrays.dtype (values b))) × Owns (dtype o).1 b
  unfolding dtype
  dtype-Owns o b own = ground arith

  device-Owns :
      (o : BlockObject A) (b : TensorBlock A)
      → Owns o b
      → ((device o).0 ≡ ok (arrays.device (values b))) × Owns (device o).1 b
  unfolding device
  device-Owns o b own = ground arith

  one_error :
      (test : Bool) (c : TensorBlock A) (r : Result (TensorBlock A))
      → r ≡ (if test then ok c else err metatensor_error)
      → (r ≡ err metatensor_error) ⊎ ((d : TensorBlock A) × (r ≡ ok d))
  one_error true c r h = inr (c, h)
  one_error false c r h = inl h

  -- The native call fails in one way only.
  native_outcome :
      (b : TensorBlock A) (parameter : String) (g : TensorBlock A)
      → (rust_add_gradient b parameter g ≡ err metatensor_error)
        ⊎ ((c : TensorBlock A) × (rust_add_gradient b parameter g ≡ ok c))
  native_outcome (block v s cs p gs) parameter g =
      one_error _ _ _ (rust_add_gradient_lem v s cs p gs parameter g)

  -- For two objects that own their blocks, `add_gradient` of the second to the first has the
  -- outcome of `add_gradient` on the blocks: when it succeeds the first object holds the extended
  -- block and the second is empty; when the element types or the devices differ neither pointer
  -- changes; when the native library refuses the gradient, the first keeps its block and the
  -- second is empty all the same.
  pub object_add_gradient-Moved :
      (o o' : BlockObject A) (b g : TensorBlock A) (parameter : String)
      → Owns o b
      → Owns o' g
      → Moved b g (add_gradient b parameter g) (object_add_gradient o o' parameter)
  unfolding object_add_gradient add_gradient
  object_add_gradient-Moved o o' b g parameter own own' =
      elim (Bool-cases (nat_beq (arrays.dtype (values b)) (arrays.dtype (values g)))) [
        | inr types ↦ rw types (ground arith)
        | inl types ↦
            elim (Bool-cases (nat_beq (arrays.device (values b)) (arrays.device (values g)))) [
              | inr places ↦ rw (types, places) (ground arith)
              | inl places ↦ elim (native_outcome b parameter g) [
                | inl refused ↦ rw (types, places, refused) (ground arith)
                | inr (c, made) ↦ rw (types, places, made) (ground arith)
              ]
            ]
      ]

  -- On an object that owns its block, `add_gradient` of an object that was moved raises a
  -- ValueError, whatever element type and device it has cached, and neither pointer changes.
  pub object_add_gradient-moved :
      (o o' : BlockObject A) (b : TensorBlock A) (parameter : String)
      → Owns o b
      → o'.ptr ≡ none
      → ((object_add_gradient o o' parameter).0 ≡ err value_error)
        × ((object_add_gradient o o' parameter).1.ptr ≡ some b)
        × ((object_add_gradient o o' parameter).2.ptr ≡ none)
  unfolding object_add_gradient
  object_add_gradient-moved o o' b parameter own gone = ground arith
