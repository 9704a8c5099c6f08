-- ===== src/Prelude/Membership.antt =====
-- The position of an element, and the laws that tie positions, membership and distinctness.
use Prim.Native.Nat.{ℕ, zero, suc, ◌+◌, ◌<◌}
use mathlib.Core.Path.{◌≡◌, refl, sym, ap, ap₂, ◌∙◌}
use mathlib.Core.Logic.{◌↔◌, inl, inr}
use mathlib.Core.Bool.{Bool, true, false, ◌||◌}
use mathlib.Core.List.{List, [], ◌∷◌, ◌++◌, map}
use mathlib.Core.Option
use mathlib.Core.Option.{Option, none, some}
use native.Mathlib.Omega.{arith}
use aml_storage.Prelude.Tests.{if◌then◌else◌, Option-cases, and_true, and_intro, or_true}
use aml_storage.Prelude.Lists.{length, get_elem?, all, range_from, length-map, get_elem?-map-some}
use aml_storage.Prelude.Equality.{Eq, ◌==◌, contains, distinct, beq_refl, beq_eq}

module _ {ℓ} {A : Type ℓ} ⦃e : Eq A⦄ where
  -- `xs.index(a)`: the first position of `a`.
  unfoldable pub index_of : List A → A → Option ℕ
  index_of [] a = none
  index_of (x ∷ xs) a = if a == x then some 0 else Option.map suc (index_of xs a)

  -- A membership test is true exactly where a position is found.
  pub contains-index_of :
      (xs : List A) (a : A) → contains xs a ≡ elim (index_of xs a) [ none ↦ false | some i ↦ true ]
  unfolding contains index_of
  contains-index_of [] a = refl
  contains-index_of (x ∷ xs) a = ground (arith, contains-index_of xs a)

  pub index_of-get_elem? :
      (xs : List A) (a : A) (i : ℕ) → index_of xs a ≡ some i → get_elem? xs i ≡ some a
  unfolding index_of
  index_of-get_elem? [] a i h = absurd (ground arith)
  index_of-get_elem? (x ∷ xs) a zero h = ground (arith, beq_eq a x)
  index_of-get_elem? (x ∷ xs) a (suc i) h = index_of-get_elem? xs a i (ground arith)

  pub get_elem?-contains :
      (xs : List A) (a : A) (i : ℕ) → get_elem? xs i ≡ some a → contains xs a ≡ true
  unfolding contains
  get_elem?-contains [] a i h = absurd (ground arith)
  get_elem?-contains (x ∷ xs) a zero h = ground (arith, beq_refl a)
  get_elem?-contains (x ∷ xs) a (suc i) h = ground (arith, get_elem?-contains xs a i h)

  pub contains-append :
      (xs ys : List A) (a : A) → contains (xs ++ ys) a ≡ (contains xs a || contains ys a)
  unfolding contains
  contains-append [] ys a = refl
  contains-append (x ∷ xs) ys a = ground (arith, contains-append xs ys a)

  pub contains-all :
      (p : A → Bool) (xs : List A) (a : A) → all p xs ≡ true → contains xs a ≡ true → p a ≡ true
  unfolding contains
  contains-all p [] a h k = absurd (ground arith)
  contains-all p (x ∷ xs) a h k = elim (or_true (a == x) _ k) [
    | inl q ↦ ground (arith, beq_eq a x q)
    | inr q ↦ contains-all p xs a (and_true (p x) _ h).1 q
  ]

  pub distinct_cons :
      (x : A) (xs : List A)
      → distinct (x ∷ xs) ≡ true
      → (contains xs x ≡ false) × (distinct xs ≡ true)
  unfolding distinct
  distinct_cons x xs h = ground arith

  pub distinct_snoc :
      (xs : List A) (a : A)
      → distinct xs ≡ true
      → contains xs a ≡ false
      → distinct (xs ++ a ∷ []) ≡ true
  unfolding distinct contains
  distinct_snoc [] a h k = refl
  distinct_snoc (x ∷ xs) a h k =
      let (new, rest) = distinct_cons x xs h in
      ground (
        arith,
        distinct_snoc xs a rest,
        contains-append xs (a ∷ []) x,
        e.beq_iff x a,
        e.beq_iff a x,
      )

  -- In a list with no element twice, the first position is the only one.
  pub get_elem?-index_of :
      (xs : List A) (a : A) (i : ℕ)
      → distinct xs ≡ true
      → get_elem? xs i ≡ some a
      → index_of xs a ≡ some i
  unfolding index_of
  get_elem?-index_of [] a i d h = absurd (ground arith)
  get_elem?-index_of (x ∷ xs) a zero d h = ground (arith, beq_refl a)
  get_elem?-index_of (x ∷ xs) a (suc i) d h =
      let (new, rest) = distinct_cons x xs d in
      ground (arith, get_elem?-index_of xs a i rest h, get_elem?-contains xs a i h, beq_eq a x)

  pub index_of_unique :
      (xs : List A) (a : A) (i : ℕ)
      → distinct xs ≡ true
      → (index_of xs a ≡ some i) ↔ (get_elem? xs i ≡ some a)
  index_of_unique xs a i d = (index_of-get_elem? xs a i, get_elem?-index_of xs a i d)

  pub index_of-lt : (xs : List A) (a : A) (i : ℕ) → index_of xs a ≡ some i → i < length xs
  unfolding index_of
  index_of-lt [] a i h = absurd (ground arith)
  index_of-lt (x ∷ xs) a zero h = omega arith
  index_of-lt (x ∷ xs) a (suc i) h = omega (arith, index_of-lt xs a i (ground arith))

  pub contains_of_index :
      (xs : List A) (a : A) (i : ℕ) → index_of xs a ≡ some i → contains xs a ≡ true
  contains_of_index xs a i h = get_elem?-contains xs a i (index_of-get_elem? xs a i h)

  pub index_of-contains :
      (xs : List A) (a : A) → contains xs a ≡ true → (i : ℕ) × (index_of xs a ≡ some i)
  index_of-contains xs a h = elim (Option-cases (index_of xs a)) [
    | inl e ↦ absurd (ground (arith, contains-index_of xs a))
    | inr (i, e) ↦ (i, e)
  ]

  pub index_of_absent : (xs : List A) (a : A) → contains xs a ≡ false → index_of xs a ≡ none
  index_of_absent xs a h = ground (arith, contains-index_of xs a)

  -- Functions that agree on the elements of a list have the same image of it.
  pub map_congr {κ} :
      {B : Type κ} (f g : A → B) (xs : List A)
      → ((a : A) → contains xs a ≡ true → f a ≡ g a)
      → map f xs ≡ map g xs
  unfolding contains
  map_congr f g [] h = refl
  map_congr f g (x ∷ xs) h =
      ap₂ (λ y ys. y ∷ ys) (h x (ground (arith, beq_refl x)))
        (map_congr f g xs (λ a m. h a (ground arith)))

  pub index_of-append_left :
      (xs ys : List A) (a : A) (i : ℕ) → index_of xs a ≡ some i → index_of (xs ++ ys) a ≡ some i
  unfolding index_of
  index_of-append_left [] ys a i h = absurd (ground arith)
  index_of-append_left (x ∷ xs) ys a zero h = ground arith
  index_of-append_left (x ∷ xs) ys a (suc i) h = ground (arith, index_of-append_left xs ys a i)

  pub index_of_snoc :
      (xs : List A) (a : A) → index_of xs a ≡ none → index_of (xs ++ a ∷ []) a ≡ some (length xs)
  unfolding index_of
  index_of_snoc [] a h = ground (arith, beq_refl a)
  index_of_snoc (x ∷ xs) a h = ground (arith, index_of_snoc xs a)

module _ {ℓ} {A : Type ℓ} where
  pub get_elem?_ext :
      (xs ys : List A)
      → length xs ≡ length ys
      → ((i : ℕ) → i < length xs → get_elem? xs i ≡ get_elem? ys i)
      → xs ≡ ys
  get_elem?_ext [] [] h k = refl
  get_elem?_ext [] (y ∷ ys) h k = absurd (omega arith)
  get_elem?_ext (x ∷ xs) [] h k = absurd (omega arith)
  get_elem?_ext (x ∷ xs) (y ∷ ys) h k =
      ap₂ (λ z zs. z ∷ zs) (ground (arith, k 0))
        (get_elem?_ext xs ys (omega arith) (λ i lt. k (suc i) (omega arith)))

  pub get_elem?-some : (xs : List A) (i : ℕ) → i < length xs → (a : A) × (get_elem? xs i ≡ some a)
  get_elem?-some [] i h = elim h [ ]
  get_elem?-some (x ∷ xs) zero h = (x, refl)
  get_elem?-some (x ∷ xs) (suc i) h = get_elem?-some xs i (omega arith)

pub get_elem?-range_from : (s n i : ℕ) → i < n → get_elem? (range_from s n) i ≡ some (s + i)
get_elem?-range_from s zero i h = elim h [ ]
get_elem?-range_from s (suc n) zero h = ap some (omega arith)
get_elem?-range_from s (suc n) (suc i) h =
    get_elem?-range_from (suc s) n i (omega arith) ∙ ap some (omega arith)

pub length-range_from : (s n : ℕ) → length (range_from s n) ≡ n
length-range_from s zero = refl
length-range_from s (suc n) = ap suc (length-range_from (suc s) n)

-- In a list with no element twice, the positions of the elements are 0, 1, 2, ...
pub index_of_self {ℓ} :
    {A : Type ℓ} ⦃e : Eq A⦄ (xs : List A)
    → distinct xs ≡ true
    → map some (range_from 0 (length xs)) ≡ map (index_of xs) xs
index_of_self xs d =
    get_elem?_ext _ _
      (length-map some (range_from 0 (length xs))
        ∙ length-range_from 0 (length xs)
        ∙ sym (length-map (index_of xs) xs))
      λ i lt.
        let n = length xs in
        let below : i < n =
          omega (arith, length-map {0, 0} some (range_from 0 n), length-range_from 0 n) in
        let (a, found) = get_elem?-some xs i below in
        get_elem?-map-some some (range_from 0 n) i i
          (get_elem?-range_from 0 n i below ∙ ap some (omega arith))
        ∙ ap some (sym (get_elem?-index_of xs a i d found))
        ∙ sym (get_elem?-map-some (index_of xs) xs i a found)

module _ {ℓ} {A : Type ℓ} ⦃e : Eq A⦄ where
  -- A list contains each of its elements.
  pub all-contains :
      (xs ys : List A)
      → ((a : A) → contains ys a ≡ true → contains xs a ≡ true)
      → all (contains xs) ys ≡ true
  unfolding contains
  all-contains xs [] h = refl
  all-contains xs (y ∷ ys) h =
      and_intro (contains xs y) _ (h y (ground (arith, beq_refl y)))
        (all-contains xs ys (λ a m. h a (ground arith)))
