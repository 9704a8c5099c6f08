-- ===== src/Operations/Renumber.antt =====
-- The samples of a gradient in a slice along the samples, for slice.py: those that refer to a
-- selected sample, which they name by its new position.
use aml_storage.Prelude.{
  ℕ, suc, ◌+◌, ◌≤◌, pos, negsuc, ◌≡◌, refl, sym, ap, ◌∙◌, Bool, true, false, none, some, List, [],
  ◌∷◌, map, arith, length, all, ltb, get_or, nat_eq, int_eq, list_eq, contains, distinct, Eq,
  index_of, index_of-lt, index_of-get_elem?, index_of-contains, beq_eq, is_int32, range_from,
  get_elem?-range_from, get_elem?-map-some, and_true, if◌then◌else◌, distinct_cons, ltb, nat_beq,
}
use aml_storage.Result.{ok, map_m, map_m_cons}
use aml_storage.Labels.Rows.{Row}
use aml_storage.Labels.Dimensions.{list_item, item_or_raise}
use aml_storage.Block.Core.{refers_below}
use aml_storage.Operations.Indexing.{masked, where_true, mask_of}
use aml_storage.Operations.Masks.{mask_of-contains}
use aml_storage.Operations.Slice.{sample_map, renumbered}
use aml_storage.Operations.Picked.{get_elem?-sample_map}

module _ {ℓ} {A : Type ℓ} (f : A → Bool) where
  -- The elements that pass a test.
  abbrev pub filter : List A → List A
  filter [] = []
  filter (x ∷ xs) = let rest = filter xs in if f x then x ∷ rest else rest

  pub masked-filter : (xs : List A) → masked (map f xs) xs ≡ filter xs
  unfolding masked
  masked-filter [] = refl
  masked-filter (x ∷ xs) = ground (arith, masked-filter xs)

  pub all-filter : (p : A → Bool) (xs : List A) → all p xs ≡ true → all p (filter xs) ≡ true
  all-filter p [] h = refl
  all-filter p (x ∷ xs) h = ground (arith, all-filter p xs)

  pub all_pass : (xs : List A) → all f (filter xs) ≡ true
  all_pass [] = refl
  all_pass (x ∷ xs) = ground (arith, all_pass xs)

  pub length-where_true :
      (i : ℕ) (xs : List A) → length (where_true i (map f xs)) ≡ length (filter xs)
  unfolding where_true
  length-where_true i [] = refl
  length-where_true i (x ∷ xs) = ground (arith, length-where_true (suc i) xs)

  where_true_below :
      (i n : ℕ) (xs : List A)
      → i + length xs ≡ n
      → all (λ j. ltb j n) (where_true i (map f xs)) ≡ true
  unfolding where_true
  where_true_below i n [] h = refl
  where_true_below i n (x ∷ xs) h = ground (arith, where_true_below (suc i) n xs)

  pub where_true-ltb : (xs : List A) → all (λ j. ltb j (length xs)) (where_true 0 (map f xs)) ≡ true
  where_true-ltb xs = where_true_below 0 (length xs) xs (omega arith)

module _ {A : Type 0} ⦃e : Eq A⦄ (f : A → Bool) where
  contains-filter : (xs : List A) (x : A) → contains xs x ≡ false → contains (filter f xs) x ≡ false
  unfolding contains
  contains-filter [] x h = refl
  contains-filter (y ∷ xs) x h = ground (arith, contains-filter xs x)

  pub distinct-filter : (xs : List A) → distinct xs ≡ true → distinct (filter f xs) ≡ true
  unfolding distinct
  distinct-filter [] h = refl
  distinct-filter (x ∷ xs) h = ground (arith, distinct-filter xs, contains-filter xs x)

module _ {A : Type 0} {B : Type 0} ⦃e : Eq A⦄ ⦃d : Eq B⦄ (p : A → Bool) (f : A → B)
    (apart : (x y : A) → p x ≡ true → p y ≡ true → f x ≡ f y → x ≡ y) where
  contains-map :
      (xs : List A) (x : A)
      → all p xs ≡ true
      → p x ≡ true
      → contains xs x ≡ false
      → contains (map f xs) (f x) ≡ false
  unfolding contains
  contains-map [] x h k new = refl
  contains-map (y ∷ xs) x h k new =
      let (here, others) = and_true (p y) _ h in
      let later = contains-map xs x others k (ground arith) in
      ground (arith, beq_eq (f x) (f y), apart x y k here, e.beq_iff x y)

  -- A function that keeps apart the elements with a property keeps a list of them distinct.
  pub distinct-map :
      (xs : List A) → all p xs ≡ true → distinct xs ≡ true → distinct (map f xs) ≡ true
  unfolding distinct
  distinct-map [] h k = refl
  distinct-map (x ∷ xs) h k =
      let (here, others) = and_true (p x) _ h in
      let (new, rest) = distinct_cons x xs k in
      rw (contains-map xs x others here new) (distinct-map xs others rest)

-- The first value of a row is a selected position.
abbrev pub refers_to : List ℕ → Row → Bool
refers_to selected [] = false
refers_to selected (pos i ∷ row) = contains selected i
refers_to selected (negsuc k ∷ row) = false

-- The row with the place of its first value in the selection for this value.
abbrev pub renumber : List ℕ → Row → Row
renumber selected [] = []
renumber selected (pos i ∷ row) = elim (index_of selected i) [
  | none ↦ pos i ∷ row
  | some k ↦ pos k ∷ row
]
renumber selected (negsuc k ∷ row) = negsuc k ∷ row

module _ (selected : List ℕ) where
  -- Rows that refer to different samples are kept apart.
  renumber-apart :
      (x y : Row)
      → refers_to selected x ≡ true
      → refers_to selected y ≡ true
      → renumber selected x ≡ renumber selected y
      → x ≡ y
  renumber-apart [] y h k q = absurd (ground arith)
  renumber-apart (negsuc a ∷ x) y h k q = absurd (ground arith)
  renumber-apart (pos i ∷ x) [] h k q = absurd (ground arith)
  renumber-apart (pos i ∷ x) (negsuc a ∷ y) h k q = absurd (ground arith)
  renumber-apart (pos i ∷ x) (pos j ∷ y) h k q =
      let (a, at) = index_of-contains selected i h in
      let (b, at') = index_of-contains selected j k in
      ground (arith, index_of-get_elem? selected i a at, index_of-get_elem? selected j b at')

  pub distinct-renumber :
      (rows : List Row)
      → all (refers_to selected) rows ≡ true
      → distinct rows ≡ true
      → distinct (map (renumber selected) rows) ≡ true
  distinct-renumber = distinct-map (refers_to selected) (renumber selected) renumber-apart

  renumber_facts :
      (n : ℕ) (row : Row)
      → length selected ≤ 0x8000_0000
      → refers_to selected row ≡ true
      → all is_int32 row ≡ true
      → nat_beq (length row) n ≡ true
      → (all is_int32 (renumber selected row) ≡ true)
        × (refers_below (length selected) (renumber selected row) ≡ true)
        × (nat_beq (length (renumber selected row)) n ≡ true)
  unfolding refers_below
  renumber_facts n [] few h k w = absurd (ground arith)
  renumber_facts n (negsuc a ∷ row) few h k w = absurd (ground arith)
  renumber_facts n (pos i ∷ row) few h k w =
      let (a, at) = index_of-contains selected i h in ground (arith, index_of-lt selected i a at)

  -- The rows are stored, refer to the samples of the slice, and have as many values as they had.
  pub all-renumber :
      (n : ℕ) (rows : List Row)
      → length selected ≤ 0x8000_0000
      → all (refers_to selected) rows ≡ true
      → all (all is_int32) rows ≡ true
      → all (λ row. nat_beq (length row) n) rows ≡ true
      → (all (all is_int32) (map (renumber selected) rows) ≡ true)
        × (all (refers_below (length selected)) (map (renumber selected) rows) ≡ true)
        × (all (λ row. nat_beq (length row) n) (map (renumber selected) rows) ≡ true)
  all-renumber n [] few h k w = (refl, refl, refl)
  all-renumber n (row ∷ rows) few h k w =
      let (h₀, h₁) = and_true (refers_to selected row) _ h in
      let (k₀, k₁) = and_true (all is_int32 row) _ k in
      let (w₀, w₁) = and_true (nat_beq (length row) n) _ w in
      let (a, b, c) = renumber_facts n row few h₀ k₀ w₀ in
      let (a', b', c') = all-renumber n rows few h₁ k₁ w₁ in (rw a a', rw b b', rw c c')

  mask_item :
      (n : ℕ) (row : Row)
      → refers_below n row ≡ true
      → item_or_raise (list_item (mask_of n selected) (get_or row 0 (pos 0)))
        ≡ ok (refers_to selected row)
  unfolding item_or_raise list_item refers_below
  mask_item n [] h = absurd (ground arith)
  mask_item n (negsuc k ∷ row) h = absurd (ground arith)
  mask_item n (pos i ∷ row) h =
      let at =
        get_elem?-map-some (contains selected) (range_from 0 n) i i
          (get_elem?-range_from 0 n i (ground arith) ∙ ap some (omega arith)) in
      rw (mask_of-contains n selected, at) refl

  -- The mask of the samples of a gradient says which of them refer to a selected sample.
  pub mask_items :
      (n : ℕ) (rows : List Row)
      → all (refers_below n) rows ≡ true
      → map_m
          (λ i. item_or_raise (list_item (mask_of n selected) i))
          (map (λ row. get_or row 0 (pos 0)) rows)
        ≡ ok (map (refers_to selected) rows)
  unfolding map_m
  mask_items n [] h = refl
  mask_items n (row ∷ rows) h =
      let (here, others) = and_true (refers_below n row) _ h in
      map_m_cons (λ i. item_or_raise (list_item (mask_of n selected) i)) (get_or row 0 (pos 0))
        (map (λ row. get_or row 0 (pos 0)) rows) (mask_item n row here) (mask_items n rows others)

  renumbered_row :
      (n : ℕ) (row : Row)
      → distinct selected ≡ true
      → refers_below n row ≡ true
      → refers_to selected row ≡ true
      → renumbered (sample_map n selected) row ≡ ok (renumber selected row)
  unfolding renumbered item_or_raise list_item refers_below
  renumbered_row n [] d h k = absurd (ground arith)
  renumbered_row n (negsuc a ∷ row) d h k = absurd (ground arith)
  renumbered_row n (pos i ∷ row) d h k =
      let (a, at) = index_of-contains selected i k in
      rw (get_elem?-sample_map n selected i a d (ground arith) at)
        (ap ok (sym (rw (at, renumber) refl)))

  pub renumbered_rows :
      (n : ℕ) (rows : List Row)
      → distinct selected ≡ true
      → all (refers_below n) rows ≡ true
      → all (refers_to selected) rows ≡ true
      → map_m (renumbered (sample_map n selected)) rows ≡ ok (map (renumber selected) rows)
  unfolding map_m
  renumbered_rows n [] d h k = refl
  renumbered_rows n (row ∷ rows) d h k =
      let (h₀, h₁) = and_true (refers_below n row) _ h in
      let (k₀, k₁) = and_true (refers_to selected row) _ k in
      map_m_cons (renumbered (sample_map n selected)) row rows (renumbered_row n row d h₀ k₀)
        (renumbered_rows n rows d h₁ k₁)
