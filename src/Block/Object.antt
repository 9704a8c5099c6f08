-- ===== src/Block/Object.antt =====
-- The Python objects of class `TensorBlock` (block.py), which own a native block, point into the
-- one of a parent, or were moved into another block and can no longer be used.
use aml_storage.Prelude.{ℕ, String, Bool, Option, none, some, nat_beq, if◌then◌else◌}
use aml_storage.Result.{Result, ok, err, value_error, assertion_error}
use aml_storage.Block.Core.{Arrays, TensorBlock, values, rust_add_gradient}

-- `ptr` is `none` once the block was moved (`_actual_ptr is None`); `has_parent` tells whether
-- `_parent` is set; the last two are the caches of `dtype` and `device`.
pub record BlockObject (A : Type 0) : Type 0 where
  pub ptr : Option (TensorBlock A)
  pub has_parent : Bool
  pub cached_dtype : Option ℕ
  pub cached_device : Option ℕ

module _ {A : Type 0} where
  -- `block._ptr`
  unfoldable pub get_ptr : BlockObject A → Result (TensorBlock A)
  get_ptr o = elim o.ptr [ none ↦ err value_error | some b ↦ ok b ]

  -- `block._move_ptr()`
  unfoldable pub move_ptr : BlockObject A → Result (Unit {0}) × BlockObject A
  move_ptr o = if o.has_parent then (err assertion_error, o) else (ok tt, record o { ptr = none })

  -- `TensorBlock._from_ptr(ptr, parent)`
  unfoldable pub from_ptr : TensorBlock A → Bool → BlockObject A
  from_ptr b parent = record {
    ptr = some b;
    has_parent = parent;
    cached_dtype = none;
    cached_device = none;
  }

module _ {A : Type 0} ⦃arrays : Arrays A⦄ where
  compute_dtype : Option ℕ → BlockObject A → Result ℕ × BlockObject A
  unfolding get_ptr
  compute_dtype (some d) o = (ok d, o)
  compute_dtype none o = elim (get_ptr o) [
    | err e ↦ (err e, o)
    | ok b ↦
        (ok (arrays.dtype (values b)), record o { cached_dtype = some (arrays.dtype (values b)) })
  ]

  -- `block.dtype`
  unfoldable pub dtype : BlockObject A → Result ℕ × BlockObject A
  unfolding compute_dtype
  dtype o = compute_dtype o.cached_dtype o

  compute_device : Option ℕ → BlockObject A → Result ℕ × BlockObject A
  unfolding get_ptr
  compute_device (some d) o = (ok d, o)
  compute_device none o = elim (get_ptr o) [
    | err e ↦ (err e, o)
    | ok b ↦ (
      ok (arrays.device (values b)),
      record o { cached_device = some (arrays.device (values b)) },
    )
  ]

  -- `block.device`
  unfoldable pub device : BlockObject A → Result ℕ × BlockObject A
  unfolding compute_device
  device o = compute_device o.cached_device o

  -- The native call, on the pointer of `self` and the moved pointer of the gradient.
  call_add_gradient :
      BlockObject A
      → BlockObject A
      → String
      → TensorBlock A
      → Result (Unit {0}) × BlockObject A × BlockObject A
  unfolding get_ptr
  call_add_gradient o g parameter moved = elim (get_ptr o) [
    | err e ↦ (err e, o, g)
    | ok b ↦ elim (rust_add_gradient b parameter moved) [
      | err e ↦ (err e, o, g)
      | ok c ↦ (ok tt, record o { ptr = some c }, g)
    ]
  ]

  -- The gradient's pointer is read, then the gradient is moved, then the native call is made.
  move_gradient :
      BlockObject A → BlockObject A → String → Result (Unit {0}) × BlockObject A × BlockObject A
  unfolding get_ptr move_ptr call_add_gradient
  move_gradient o g parameter = elim (get_ptr g) [
    | err e ↦ (err e, o, g)
    | ok moved ↦
        let (r, g') = move_ptr g in
        elim r [ err e ↦ (err e, o, g') | ok u ↦ call_add_gradient o g' parameter moved ]
  ]

  compare_devices :
      BlockObject A → BlockObject A → String → Result (Unit {0}) × BlockObject A × BlockObject A
  unfolding device move_gradient
  compare_devices o g parameter =
      let (r, o') = device o in
      elim r [
        | err e ↦ (err e, o', g)
        | ok d ↦
            let (r', g') = device g in
            elim r' [
              | err e ↦ (err e, o', g')
              | ok d' ↦
                  if nat_beq d d' then move_gradient o' g' parameter else (err value_error, o', g')
            ]
      ]

  compare_dtypes :
      BlockObject A → BlockObject A → String → Result (Unit {0}) × BlockObject A × BlockObject A
  unfolding dtype compare_devices
  compare_dtypes o g parameter =
      let (r, o') = dtype o in
      elim r [
        | err e ↦ (err e, o', g)
        | ok d ↦
            let (r', g') = dtype g in
            elim r' [
              | err e ↦ (err e, o', g')
              | ok d' ↦
                  if nat_beq d d'
                  then compare_devices o' g' parameter
                  else (err value_error, o', g')
            ]
      ]

  -- `self.add_gradient(parameter, gradient)`, for two different objects: the outcome, and both
  -- objects after the call.
  unfoldable pub object_add_gradient :
      BlockObject A → BlockObject A → String → Result (Unit {0}) × BlockObject A × BlockObject A
  unfolding compare_dtypes
  object_add_gradient o g parameter =
      if o.has_parent then (err value_error, o, g) else compare_dtypes o g parameter
