-- ===== src/Operations/Picked.antt =====
-- The entries of labels at positions that are selected in any order, and the numbers that the
-- selection gives them, for slice.py.
use aml_storage.Prelude.{
  ℕ, suc, ◌+◌, ◌<◌, ℤ, pos, negsuc, ◌≡◌, refl, sym, ap, ◌∙◌, Bool, true, false, Bool-cases, inl,
  inr, Option-cases, none, some, List, [], ◌∷◌, arith, length, all, ltb, is_empty, get_elem?, set,
  replicate, nat_eq, ◌==◌, contains, distinct, Eq, index_of, beq_eq, distinct_cons, length-set,
  get_elem?-set_self, get_elem?-set_ne, get_elem?-some, get_elem?-index_of, index_of_absent,
  all-get_elem?, and_true, and_intro, length-replicate,
}
use aml_storage.Operations.Indexing.{picked}
use aml_storage.Operations.Slice.{number_from, sample_map}

module _ {ℓ} {A : Type ℓ} where
  picked_here :
      (xs : List A) (i : ℕ) (selected : List ℕ) (x : A)
      → get_elem? xs i ≡ some x
      → picked xs (i ∷ selected) ≡ x ∷ picked xs selected
  unfolding picked
  picked_here xs i selected x at = rw (at, picked) refl

  picked_nowhere :
      (xs : List A) (i : ℕ) (selected : List ℕ)
      → get_elem? xs i ≡ none
      → picked xs (i ∷ selected) ≡ picked xs selected
  unfolding picked
  picked_nowhere xs i selected at = rw (at, picked) refl

  pub length-picked :
      (xs : List A) (selected : List ℕ)
      → all (λ i. ltb i (length xs)) selected ≡ true
      → length (picked xs selected) ≡ length selected
  unfolding picked
  length-picked xs [] h = refl
  length-picked xs (i ∷ selected) h =
      let (below, others) = and_true (ltb i (length xs)) _ h in
      let (x, at) = get_elem?-some xs i (ground arith) in
      ap length (picked_here xs i selected x at) ∙ ap suc (length-picked xs selected others)

  pub all-picked :
      (p : A → Bool) (xs : List A) (selected : List ℕ)
      → all p xs ≡ true
      → all p (picked xs selected) ≡ true
  unfolding picked
  all-picked p xs [] h = refl
  all-picked p xs (i ∷ selected) h = elim (Option-cases (get_elem? xs i)) [
    | inl at ↦ ap (all p) (picked_nowhere xs i selected at) ∙ all-picked p xs selected h
    | inr (x, at) ↦
        ap (all p) (picked_here xs i selected x at)
        ∙ and_intro (p x) _ (all-get_elem? p xs i x h at) (all-picked p xs selected h)
  ]

  pub is_empty-picked :
      (xs : List A) (selected : List ℕ) → is_empty xs ≡ true → is_empty (picked xs selected) ≡ true
  unfolding picked
  is_empty-picked xs [] h = refl
  is_empty-picked [] (i ∷ selected) h = is_empty-picked [] selected h
  is_empty-picked (x ∷ xs) (i ∷ selected) h = absurd (ground arith)

module _ {A : Type 0} ⦃e : Eq A⦄ where
  -- Two positions of one entry are the same.
  same_position :
      (xs : List A) (x y : A) (i j : ℕ)
      → distinct xs ≡ true
      → get_elem? xs i ≡ some x
      → get_elem? xs j ≡ some y
      → (x == y) ≡ true
      → i ≡ j
  same_position xs x y i j d at at' same =
      let found = get_elem?-index_of xs x i d at in
      let found' = get_elem?-index_of xs x j d (at' ∙ ap some (sym (beq_eq x y same))) in
      ground arith

  -- An entry whose only position is not selected is not picked.
  contains-picked :
      (xs : List A) (selected : List ℕ) (x : A) (i : ℕ)
      → distinct xs ≡ true
      → get_elem? xs i ≡ some x
      → contains selected i ≡ false
      → contains (picked xs selected) x ≡ false
  unfolding contains picked
  contains-picked xs [] x i d at new = refl
  contains-picked xs (j ∷ selected) x i d at new =
      let later = contains-picked xs selected x i d at (ground arith) in
      elim (Option-cases (get_elem? xs j)) [
        | inl missing ↦ ap (λ ys. contains ys x) (picked_nowhere xs j selected missing) ∙ later
        | inr (y, at') ↦
            ap (λ ys. contains ys x) (picked_here xs j selected y at')
            ∙ ground (arith, same_position xs x y i j d at at')
      ]

  pub distinct-picked :
      (xs : List A) (selected : List ℕ)
      → distinct xs ≡ true
      → distinct selected ≡ true
      → distinct (picked xs selected) ≡ true
  unfolding picked distinct
  distinct-picked xs [] d h = refl
  distinct-picked xs (i ∷ selected) d h =
      let (new, others) = distinct_cons i selected h in
      let later = distinct-picked xs selected d others in
      elim (Option-cases (get_elem? xs i)) [
        | inl missing ↦ ap distinct (picked_nowhere xs i selected missing) ∙ later
        | inr (x, at) ↦
            ap distinct (picked_here xs i selected x at)
            ∙ rw (contains-picked xs selected x i d at new) later
      ]

length-number_from :
    (k : ℕ) (selected : List ℕ) (xs : List ℤ) → length (number_from k selected xs) ≡ length xs
unfolding number_from
length-number_from k [] xs = refl
length-number_from k (i ∷ selected) xs =
    length-number_from (suc k) selected (set xs i (pos k)) ∙ length-set xs i (pos k)

-- Each selected position has its place in the selection as its number, the others keep theirs.
get_elem?-number_from :
    (k : ℕ) (selected : List ℕ) (xs : List ℤ) (j : ℕ)
    → distinct selected ≡ true
    → j < length xs
    → get_elem? (number_from k selected xs) j
      ≡ elim (index_of selected j) [ none ↦ get_elem? xs j | some i ↦ some (pos (k + i)) ]
unfolding number_from index_of
get_elem?-number_from k [] xs j d lt = refl
get_elem?-number_from k (i ∷ selected) xs j d lt =
    let (new, others) = distinct_cons i selected d in
    let later =
      get_elem?-number_from (suc k) selected (set xs i (pos k)) j others
        (omega (arith, length-set xs i (pos k))) in
    elim (Bool-cases (j == i)) [
      | inl same ↦
          let q = beq_eq j i same in
          rw same (
            later
            ∙ rw (index_of_absent selected j (ap (contains selected) q ∙ new)) (
                ap (get_elem? (set xs i (pos k))) q
                ∙ get_elem?-set_self xs i (pos k) (ground arith)
                ∙ ap (λ m. some (pos m)) (omega arith)))
      | inr other ↦
          let apart = get_elem?-set_ne xs i j (pos k) (λ q. ground (arith)) in
          rw other (elim (Option-cases (index_of selected j)) [
            | inl at ↦ later ∙ rw (at) apart
            | inr (m, at) ↦ later ∙ rw (at) (ap (λ m. some (pos m)) (omega arith))
          ])
    ]

pub get_elem?-sample_map :
    (n : ℕ) (selected : List ℕ) (j i : ℕ)
    → distinct selected ≡ true
    → j < n
    → index_of selected j ≡ some i
    → get_elem? (sample_map n selected) j ≡ some (pos i)
unfolding sample_map
get_elem?-sample_map n selected j i d lt at =
    get_elem?-number_from 0 selected (replicate n (negsuc 0)) j d
      (omega (arith, length-replicate n (negsuc 0)))
    ∙ rw at (ap (λ m. some (pos m)) (omega arith))
