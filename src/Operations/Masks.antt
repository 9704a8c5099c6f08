-- ===== src/Operations/Masks.antt =====
-- The mask that a selection of positions gives, and what it keeps of an axis.
use aml_storage.Prelude.{
  ℕ, zero, suc, ◌+◌, ◌≡◌, refl, sym, ◌∙◌, ◌<◌, Bool, true, false, Bool-cases, inl, inr, some, List,
  [], ◌∷◌, map, arith, length, all, ltb, get_elem?, set, replicate, range_from, nat_eq, ◌==◌,
  contains, beq_eq, if◌then◌else◌, length-set, get_elem?-set_self, get_elem?-set_ne, get_elem?_ext,
  length-replicate, length-map, length-range_from, get_elem?-replicate, get_elem?-map-some,
  get_elem?-range_from, and_intro,
}
use aml_storage.Operations.Indexing.{set_all, masked, where_true, mask_of}
use aml_storage.Operations.KeptRows.{keep_where, all-keep_where}

module _ {A : Type 0} where
  length-set_all :
      (xs : List A) (positions : List ℕ) (v : A) → length (set_all xs positions v) ≡ length xs
  unfolding set_all
  length-set_all xs [] v = refl
  length-set_all xs (i ∷ positions) v = length-set_all (set xs i v) positions v ∙ length-set xs i v

  get_elem?-set_all :
      (xs : List A) (positions : List ℕ) (v : A) (j : ℕ)
      → j < length xs
      → get_elem? (set_all xs positions v) j
        ≡ (if contains positions j then some v else get_elem? xs j)
  unfolding set_all contains
  get_elem?-set_all xs [] v j lt = refl
  get_elem?-set_all xs (i ∷ positions) v j lt =
      let later = get_elem?-set_all (set xs i v) positions v j (omega (arith, length-set xs i v)) in
      elim (Bool-cases (j == i)) [
        | inl same ↦
            let here = get_elem?-set_self xs i v (ground (arith, beq_eq j i same)) in
            ground (arith, beq_eq j i same)
        | inr other ↦ ground (arith, get_elem?-set_ne xs i j v)
      ]

-- The mask is true exactly at the positions that are selected.
pub mask_of-contains :
    (n : ℕ) (selected : List ℕ) → mask_of n selected ≡ map (contains selected) (range_from 0 n)
unfolding mask_of
mask_of-contains n selected =
    let none_yet = replicate n false in
    let long = length-set_all none_yet selected true ∙ length-replicate n false in
    get_elem?_ext _ _
      (long ∙ sym (length-map (contains selected) (range_from 0 n) ∙ length-range_from 0 n))
      λ j lt.
        let below : j < n = omega arith in
        get_elem?-set_all none_yet selected true j (omega (arith, length-replicate n false))
        ∙ ground (
          arith,
          get_elem?-replicate n false j below,
          get_elem?-map-some (contains selected) (range_from 0 n) j j,
          get_elem?-range_from 0 n j below,
        )

-- The positions among `n` that are to be kept, in order.
abbrev pub kept_positions : (ℕ → Bool) → ℕ → List ℕ
kept_positions keep n = keep_where keep 0 (range_from 0 n)

module _ {ℓ} {A : Type ℓ} where
  pub masked-keep_where :
      (keep : ℕ → Bool) (i : ℕ) (xs : List A)
      → masked (map keep (range_from i (length xs))) xs ≡ keep_where keep i xs
  unfolding masked
  masked-keep_where keep i [] = refl
  masked-keep_where keep i (x ∷ xs) = ground (arith, masked-keep_where keep (suc i) xs)

  -- As many positions are kept as elements.
  pub length-keep_where :
      (keep : ℕ → Bool) (i : ℕ) (xs : List A)
      → length (keep_where keep i (range_from i (length xs))) ≡ length (keep_where keep i xs)
  length-keep_where keep i [] = refl
  length-keep_where keep i (x ∷ xs) = ground (arith, length-keep_where keep (suc i) xs)

pub where_true-keep_where :
    (keep : ℕ → Bool) (i n : ℕ)
    → where_true i (map keep (range_from i n)) ≡ keep_where keep i (range_from i n)
unfolding where_true
where_true-keep_where keep i zero = refl
where_true-keep_where keep i (suc n) = ground (arith, where_true-keep_where keep (suc i) n)

range_from_below : (i n m : ℕ) → i + n ≡ m → all (λ j. ltb j m) (range_from i n) ≡ true
range_from_below i zero m h = refl
range_from_below i (suc n) m h =
    and_intro (ltb i m) _ (ground arith) (range_from_below (suc i) n m (omega arith))

pub kept_positions_below :
    (keep : ℕ → Bool) (n : ℕ) → all (λ j. ltb j n) (kept_positions keep n) ≡ true
kept_positions_below keep n =
    all-keep_where (λ j. ltb j n) keep 0 (range_from 0 n) (range_from_below 0 n n (omega arith))
