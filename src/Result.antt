-- ===== src/Result.antt =====
-- The outcome of a call that may raise: a value, or the exception's class. The texts of the
-- messages are left out.
use aml_storage.Prelude.{◌≡◌, refl, ap, Bool, true, false, List, [], ◌∷◌}

-- `metatensor_error` is raised for every failed call of the native library.
pub data Error : Type 0 where
  value_error : Error
  type_error : Error
  index_error : Error
  assertion_error : Error
  not_implemented_error : Error
  metatensor_error : Error
  overflow_error : Error
  -- `NotEqualError` of the operations
  not_equal_error : Error

-- What a Python call gives back.
pub data Result {u} (Value : Type u) : Type u where
  err : (raised : Error) → Result Value
  ok : (returned : Value) → Result Value

module _ {u} {Value : Type u} where
  -- Whether a call returned.
  abbrev pub is_ok : Result Value → Bool
  is_ok (err raised) = false
  is_ok (ok returned) = true

  pub ok_injective : {v w : Value} → ok v ≡ ok w → v ≡ w
  ok_injective {v} same = ap (λ r. elim r [ err raised ↦ v | ok returned ↦ returned ]) same

-- A statement `if not test: raise error`.
abbrev pub guard : (test : Bool) (error : Error) → Result (Unit {0})
guard false error = err error
guard true error = ok tt

pub guard-eq_ok : (b : Bool) (e : Error) {u : Unit {0}} → guard b e ≡ ok u → b ≡ true
guard-eq_ok true e h = refl
guard-eq_ok false e h = cc

module _ {v} {Next : Type v} where
  returned_both :
      (first : Result Next) (others : Result (List Next)) {ys : List Next}
      → (elim first [
        | err raised ↦ err raised
        | ok y ↦ elim others [ err raised ↦ err raised | ok rest ↦ ok (y ∷ rest) ]
      ])
        ≡ ok ys
      → (y : Next) × (rest : List Next) × (first ≡ ok y) × (others ≡ ok rest) × (y ∷ rest ≡ ys)
  returned_both (err raised) others h = cc
  returned_both (ok y) (err raised) h = cc
  returned_both (ok y) (ok rest) h = (y, rest, refl, refl, ok_injective h)

module _ {u v} {Value : Type u} {Next : Type v} where
  infixl 5 ◌>>=◌
  -- The rest of the code runs where the call returned; an exception ends it.
  abbrev pub ◌>>=◌ : Result Value → (Value → Result Next) → Result Next
  err raised >>= rest = err raised
  ok returned >>= rest = rest returned

  pub bind-eq_ok :
      (call : Result Value) (rest : Value → Result Next) {final : Next}
      → (call >>= rest) ≡ ok final
      → (x : Value) × (call ≡ ok x) × (rest x ≡ ok final)
  bind-eq_ok (err raised) rest h = cc
  bind-eq_ok (ok returned) rest h = (returned, refl, h)

  -- `[f(x) for x in xs]`, where `f` may raise.
  unfoldable pub map_m : (Value → Result Next) → List Value → Result (List Next)
  map_m f [] = ok []
  map_m f (x ∷ xs) = elim (f x) [
    | err raised ↦ err raised
    | ok y ↦ elim (map_m f xs) [ err raised ↦ err raised | ok ys ↦ ok (y ∷ ys) ]
  ]

  pub map_m_cons :
      (f : Value → Result Next) (x : Value) (xs : List Value) {y : Next} {ys : List Next}
      → f x ≡ ok y
      → map_m f xs ≡ ok ys
      → map_m f (x ∷ xs) ≡ ok (y ∷ ys)
  unfolding map_m
  map_m_cons f x xs first others = rw (first, others, map_m) refl

  pub map_m_fails :
      (f : Value → Result Next) (x : Value) (xs : List Value) {e : Error}
      → f x ≡ err e
      → map_m f (x ∷ xs) ≡ err e
  unfolding map_m
  map_m_fails f x xs failed = rw (failed, map_m) refl

  -- What calls that all returned gave back.
  pub map_m-eq_ok :
      (f : Value → Result Next) (x : Value) (xs : List Value) {ys : List Next}
      → map_m f (x ∷ xs) ≡ ok ys
      → (y : Next) × (rest : List Next) × (f x ≡ ok y) × (map_m f xs ≡ ok rest) × (y ∷ rest ≡ ys)
  unfolding map_m
  map_m-eq_ok f x xs h = returned_both (f x) (map_m f xs) h

infixl 5 ◌>>◌
-- A statement whose value is not used, then the rest.
abbrev pub ◌>>◌ {v} : {Next : Type v} → Result (Unit {0}) → Result Next → Result Next
statement >> rest = statement >>= λ done. rest
