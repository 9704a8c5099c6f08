-- ===== src/Labels/Intersection/Loop.antt =====
-- The loop of `Labels::intersection` (labels.rs): which rows it collects, and what it writes to the
-- indexes of the two inputs.
use aml_storage.Prelude.{
  ℕ, suc, ◌+◌, ◌<◌, ℤ, pos, negsuc, ◌≡◌, refl, sym, ap₂, ◌∙◌, subst, Bool, true, false, ◌&&◌, none,
  some, Option-cases, Bool-cases, inl, inr, List, [], ◌∷◌, map, arith, length, all, set, get_elem?,
  get_elem?-set_self, get_elem?-set_ne, length-set, ◌==◌, int_eq, list_eq, string_eq, contains,
  contains-index_of, distinct, distinct_cons, index_of, index_of-get_elem?, get_elem?-index_of,
  index_of_absent, get_elem?-contains, map_congr, if◌then◌else◌, beq_eq, beq_refl, and_true,
  and_intro,
}
use aml_storage.Labels.Rows.{Row}
use aml_storage.Labels.Sets.{intersection_entries}

-- The position of a row in the rows of the output, counted from `n`, or -1.
abbrev pub place_from : ℕ → List Row → Row → ℤ
place_from n out r = elim (index_of out r) [ none ↦ negsuc 0 | some i ↦ pos (n + i) ]

-- What the first indexes say of the loop's output.
abbrev pub IsPlaced : ℕ → List Row → List Row × List ℤ × List ℤ → Type 0
IsPlaced n rest out = out.1 ≡ map (place_from n out.0) rest

place_from_head : (n : ℕ) (entry : Row) (out : List Row) → pos n ≡ place_from n (entry ∷ out) entry
unfolding index_of
place_from_head n entry out = ground (arith, beq_refl entry)

-- The loop's output where the entry is also in `second`, and where it is not.
module _ (second rest : List Row) (entry : Row) (n : ℕ) (indexes : List ℤ) where
  entries_found :
      (p : ℕ)
      → index_of second entry ≡ some p
      → intersection_entries second (entry ∷ rest) n indexes ≡ (
        entry ∷ (intersection_entries second rest (suc n) (set indexes p (pos n))).0,
        pos n ∷ (intersection_entries second rest (suc n) (set indexes p (pos n))).1,
        (intersection_entries second rest (suc n) (set indexes p (pos n))).2,
      )
  unfolding intersection_entries
  entries_found p e = rw (e, intersection_entries)

  entries_absent :
      index_of second entry ≡ none
      → intersection_entries second (entry ∷ rest) n indexes ≡ (
        (intersection_entries second rest n indexes).0,
        negsuc 0 ∷ (intersection_entries second rest n indexes).1,
        (intersection_entries second rest n indexes).2,
      )
  unfolding intersection_entries
  entries_absent e = rw (e, intersection_entries)

module _ (second : List Row) where
  pub contains-intersection_entries :
      (rest : List Row) (n : ℕ) (indexes : List ℤ) (r : Row)
      → contains (intersection_entries second rest n indexes).0 r
        ≡ (contains rest r && contains second r)
  unfolding intersection_entries contains
  contains-intersection_entries [] n indexes r = refl
  contains-intersection_entries (entry ∷ rest) n indexes r =
      elim (Option-cases (index_of second entry)) [
        | inl e ↦
            rw (e, intersection_entries)
              (ground (
                arith,
                contains-intersection_entries rest n indexes r,
                contains-index_of second entry,
                beq_eq r entry,
              ))
        | inr (p, e) ↦
            rw (e, intersection_entries)
              (ground (
                arith,
                contains-intersection_entries rest (suc n) (set indexes p (pos n)) r,
                contains-index_of second entry,
                beq_eq r entry,
              ))
      ]

  pub all-intersection_entries :
      (p : Row → Bool) (rest : List Row) (n : ℕ) (indexes : List ℤ)
      → all p rest ≡ true
      → all p (intersection_entries second rest n indexes).0 ≡ true
  unfolding intersection_entries
  all-intersection_entries p [] n indexes h = refl
  all-intersection_entries p (entry ∷ rest) n indexes h =
      elim (Option-cases (index_of second entry)) [
        | inl e ↦
            rw (e, intersection_entries)
              (all-intersection_entries p rest n indexes (and_true (p entry) _ h).1)
        | inr (q, e) ↦
            rw (e, intersection_entries)
              (and_intro (p entry) _ (and_true (p entry) _ h).0 (
                all-intersection_entries p rest (suc n) (set indexes q (pos n))
                  (and_true (p entry) _ h).1))
      ]

  pub distinct-intersection_entries :
      (rest : List Row) (n : ℕ) (indexes : List ℤ)
      → distinct rest ≡ true
      → distinct (intersection_entries second rest n indexes).0 ≡ true
  unfolding intersection_entries distinct
  distinct-intersection_entries [] n indexes h = refl
  distinct-intersection_entries (entry ∷ rest) n indexes h =
      elim (Option-cases (index_of second entry)) [
        | inl e ↦
            rw (e, intersection_entries)
              (distinct-intersection_entries rest n indexes (distinct_cons entry rest h).1)
        | inr (q, e) ↦
            rw (e, intersection_entries)
              (ground (
                arith,
                distinct-intersection_entries rest (suc n) (set indexes q (pos n)),
                contains-intersection_entries rest (suc n) (set indexes q (pos n)) entry,
              ))
      ]

  -- Placing a row after an entry that differs from it counts one more.
  place_from_cons :
      (n : ℕ) (entry : Row) (out rest : List Row) (r : Row)
      → contains rest entry ≡ false
      → contains rest r ≡ true
      → place_from (suc n) out r ≡ place_from n (entry ∷ out) r
  unfolding index_of
  place_from_cons n entry out rest r h k = ground (arith, beq_eq r entry)

  -- The indexes of `first` are the places of its rows in the output.
  pub first_indexes :
      (rest : List Row) (n : ℕ) (indexes : List ℤ)
      → distinct rest ≡ true
      → IsPlaced n rest (intersection_entries second rest n indexes)
  unfolding intersection_entries
  first_indexes [] n indexes h = refl
  first_indexes (entry ∷ rest) n indexes h = elim (Option-cases (index_of second entry)) [
    | inl e ↦
        subst (IsPlaced n (entry ∷ rest)) (sym (entries_absent second rest entry n indexes e)) (
          ap₂ (λ x xs. x ∷ xs)
            (ground (
              arith,
              index_of_absent (intersection_entries second rest n indexes).0 entry,
              contains-intersection_entries rest n indexes entry,
              distinct_cons entry rest h,
            ))
            (first_indexes rest n indexes (distinct_cons entry rest h).1))
    | inr (p, e) ↦
        subst (IsPlaced n (entry ∷ rest)) (sym (entries_found second rest entry n indexes p e)) (
          ap₂ (λ x xs. x ∷ xs) (place_from_head n entry _)
            (first_indexes rest (suc n) (set indexes p (pos n)) (distinct_cons entry rest h).1
              ∙ map_congr _ _ rest
                  (λ r m. place_from_cons n entry _ rest r (distinct_cons entry rest h).0 m)))
  ]

  -- One round of the loop on an entry of `second`, from what the later rounds do.
  found_step :
      (rest : List Row) (n : ℕ) (indexes : List ℤ) (k : ℕ) (v entry : Row) (q : ℕ) (out : List Row)
      (found : List ℤ)
      → distinct second ≡ true
      → contains rest entry ≡ false
      → get_elem? second k ≡ some v
      → k < length indexes
      → index_of second entry ≡ some q
      → get_elem? found k ≡ (
          if contains rest v
          then some (place_from (suc n) out v)
          else get_elem? (set indexes q (pos n)) k)
      → get_elem? found k ≡ (
          if contains (entry ∷ rest) v
          then some (place_from n (entry ∷ out) v)
          else get_elem? indexes k)
  unfolding contains
  found_step rest n indexes k v entry q out found ds new at lt e ih =
      elim (Bool-cases (v == entry)) [
        | inl same ↦ ground (
          arith,
          beq_eq v entry same,
          get_elem?-index_of second v k ds at,
          get_elem?-set_self indexes k (pos n) lt,
          place_from_head n entry out,
        )
        | inr other ↦ ground (
          arith,
          beq_refl v,
          index_of-get_elem? second entry q e,
          get_elem?-set_ne indexes q k (pos n),
          place_from_cons n entry out rest v new,
        )
      ]

  -- The indexes of `second` are set at the rows that `first` has, to their place in the output.
  pub second_indexes :
      (rest : List Row) (n : ℕ) (indexes : List ℤ) (k : ℕ) (v : Row)
      → distinct second ≡ true
      → distinct rest ≡ true
      → get_elem? second k ≡ some v
      → k < length indexes
      → get_elem? (intersection_entries second rest n indexes).2 k ≡ (
          if contains rest v
          then some (place_from n (intersection_entries second rest n indexes).0 v)
          else get_elem? indexes k)
  unfolding intersection_entries contains
  second_indexes [] n indexes k v ds d at lt = refl
  second_indexes (entry ∷ rest) n indexes k v ds d at lt =
      elim (Option-cases (index_of second entry)) [
        | inl e ↦
            rw (e, intersection_entries)
              (ground (
                arith,
                second_indexes rest n indexes k v ds (distinct_cons entry rest d).1 at lt,
                contains-index_of second entry,
                get_elem?-contains second v k at,
                beq_eq v entry,
              ))
        | inr (q, e) ↦
            rw (e, intersection_entries)
              (found_step rest n indexes k v entry q _ _ ds (distinct_cons entry rest d).0 at lt e (
                second_indexes rest (suc n) (set indexes q (pos n)) k v ds
                  (distinct_cons entry rest d).1 at
                  (omega (arith, length-set {0} indexes q (pos n)))))
      ]
