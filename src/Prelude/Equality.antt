-- ===== src/Prelude/Equality.antt =====
-- Decidable equality as an interface with one operator, as Python's `==` on values, and the
-- membership tests that rest on it.
use Prim.Native.Nat.{ℕ}
use Prim.Native.String.{String}
use mathlib.Core.Path.{◌≡◌, refl}
use mathlib.Core.Logic.{◌↔◌}
use mathlib.Core.Bool.{Bool, true, false, ◌&&◌, ◌||◌, not}
use mathlib.Core.List.{List, [], ◌∷◌}
use native.Mathlib.Omega.{arith}
use text.Mathlib.Text.{◌==◌ as str_eq}
use text.Mathlib.TextEquality.{eq_iff}
use aml_storage.Prelude.Tests.{nat_beq, nat_beq_iff, Bool-cases}
use aml_storage.Prelude.Int.{ℤ, int_beq, int_beq_iff}

-- A type whose values are compared with `==`.
pub record Eq {u} (Value : Type u) : Type u where
  pub beq : (x y : Value) → Bool
  pub beq_iff : (x y : Value) → (beq x y ≡ true) ↔ (x ≡ y)

-- Texts are compared first, since names are looked up most.
instance abbrev pub string_eq : Eq String
string_eq = record { beq_iff = eq_iff; beq = str_eq }

instance abbrev pub int_eq : Eq ℤ
int_eq = record { beq_iff = int_beq_iff; beq = int_beq }

instance abbrev pub nat_eq : Eq ℕ
nat_eq = record { beq_iff = nat_beq_iff; beq = nat_beq }

module _ {u} {Value : Type u} ⦃equality : Eq Value⦄ where
  infix 50 ◌==◌
  abbrev pub ◌==◌ : (x y : Value) → Bool
  x == y = equality.beq x y

module _ {ℓ} {A : Type ℓ} ⦃e : Eq A⦄ where
  unfoldable pub list_beq : List A → List A → Bool
  list_beq [] [] = true
  list_beq (x ∷ xs) (y ∷ ys) = (x == y) && list_beq xs ys
  list_beq [] (y ∷ ys) = false
  list_beq (x ∷ xs) [] = false

  pub list_beq_iff : (xs ys : List A) → (list_beq xs ys ≡ true) ↔ (xs ≡ ys)
  unfolding list_beq
  list_beq_iff [] [] = (λ h. refl, λ h. refl)
  list_beq_iff (x ∷ xs) (y ∷ ys) = (
    λ h. ground (arith, e.beq_iff x y, list_beq_iff xs ys),
    λ h. ground (arith, e.beq_iff x y, list_beq_iff xs ys),
  )
  list_beq_iff [] (y ∷ ys) = (λ h. ground arith, λ h. cc)
  list_beq_iff (x ∷ xs) [] = (λ h. ground arith, λ h. cc)

instance abbrev pub list_eq {ℓ} : {A : Type ℓ} ⦃e : Eq A⦄ → Eq (List A)
list_eq = record { beq = list_beq; beq_iff = list_beq_iff }

module _ {ℓ} {A : Type ℓ} ⦃e : Eq A⦄ where
  pub beq_refl : (a : A) → (a == a) ≡ true
  beq_refl a = (e.beq_iff a a).1 refl

  pub beq_eq : (a b : A) → (a == b) ≡ true → a ≡ b
  beq_eq a b h = (e.beq_iff a b).0 h

  pub beq_ne : (a b : A) → (a ≡ b → ⊥) → (a == b) ≡ false
  beq_ne a b h = ground (arith, e.beq_iff a b, Bool-cases (a == b))

  -- `value in values`
  unfoldable pub contains : (values : List A) (value : A) → Bool
  contains [] value = false
  contains (first ∷ others) value = (value == first) || contains others value

  -- No element occurs twice.
  unfoldable pub distinct : List A → Bool
  distinct [] = true
  distinct (x ∷ xs) = not (contains xs x) && distinct xs
