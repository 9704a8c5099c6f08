-- ===== src/Labels/Selection.antt =====
-- `Labels.select` of labels.py and labels.rs, on labels that satisfy the invariant. The native
-- code has a shorter way where the names of both are the same.
use aml_storage.Prelude.{
  ℕ, zero, suc, ◌+◌, ◌<◌, ℤ, pos, String, ◌≡◌, refl, sym, ap, ap₂, ◌∙◌, Bool, true, false, ◌||◌,
  Option, none, some, Option-cases, Bool-cases, inl, inr, List, [], ◌∷◌, map, arith, length,
  is_empty, all, all-get_elem?, get_elem?, get_elem?_ext, get_elem?-some, get_or,
  get_elem?-map-some, length-map, nat_beq_iff, nat_eq, ◌==◌, int_eq, list_eq, string_eq, contains,
  distinct, index_of, index_of-contains, get_elem?-index_of, index_of-get_elem?, beq_refl, beq_eq,
  and_true, get_elem?-contains, contains-index_of, get_elem?-lt, get_or-get_elem?,
}
use aml_storage.Result.{ok}
use aml_storage.Labels.Rows.{Row}
use aml_storage.Labels.Core.{Labels}
use aml_storage.Labels.Valid.{IsValid}
use aml_storage.Labels.Sets.{project, dimensions_of, select_candidates, select_entries, select}

-- The value of a row in the column with this name.
abbrev pub value_of : List String → Row → String → ℤ
value_of names row name = elim (index_of names name) [
  | none ↦ pos 0
  | some i ↦ get_or row i (pos 0)
]

-- Whether the row at this position agrees with an entry of the selection on its dimensions.
abbrev pub is_selected : Labels → Labels → ℕ → Bool
is_selected l selection i = elim (get_elem? l.values i) [
  | none ↦ false
  | some row ↦ contains selection.values (map (value_of l.names row) selection.names)
]

-- Where every name of the selection is known, the dimensions are found.
dimensions_of_known :
    (names rest : List String)
    → all (contains names) rest ≡ true
    → (ds : List ℕ) × (dimensions_of names rest ≡ ok ds)
      × ((row : Row) → project ds row ≡ map (value_of names row) rest)
unfolding dimensions_of project
dimensions_of_known names [] h = ([], refl, λ row. refl)
dimensions_of_known names (name ∷ rest) h =
    let (known, more) = and_true (contains names name) _ h in
    let (i, at) = index_of-contains names name known in
    let (ds, found, projected) = dimensions_of_known names rest more in
    (
      i ∷ ds,
      rw (at, dimensions_of, found),
      λ row. ap₂ (λ x xs. x ∷ xs) (rw (at, value_of)) (projected row),
    )

module _ (selection : List Row) (ds : List ℕ) where
  -- The candidates from position `k` on are all at least `k`.
  candidates_above :
      (k m : ℕ) (rows : List Row)
      → m < k
      → contains (select_candidates selection ds k rows) m ≡ false
  unfolding select_candidates contains
  candidates_above k m [] h = refl
  candidates_above k m (row ∷ rows) h = ground (arith, candidates_above (suc k) m rows)

  contains-select_candidates :
      (k j : ℕ) (rows : List Row)
      → contains (select_candidates selection ds k rows) (k + j)
        ≡ elim (get_elem? rows j) [ none ↦ false | some row ↦ contains selection (project ds row) ]
  unfolding select_candidates contains
  contains-select_candidates k j [] = refl
  contains-select_candidates k zero (row ∷ rows) = ground (arith, candidates_above (suc k) k rows)
  contains-select_candidates k (suc j) (row ∷ rows) =
      ground (arith, contains-select_candidates (suc k) j rows)

module _ (rows : List Row) (rest : List Row) (i : ℕ) where
  -- One round of the loop where the entry has position `q`.
  select_found :
      (entry : Row) (q : ℕ) (selected : Bool)
      → distinct rows ≡ true
      → index_of rows entry ≡ some q
      → selected ≡ elim (get_elem? rows i) [ none ↦ false | some row ↦ contains rest row ]
      → (i == q || selected)
        ≡ elim (get_elem? rows i) [ none ↦ false | some row ↦ contains (entry ∷ rest) row ]
  unfolding contains
  select_found entry q selected d at ih = elim (Option-cases (get_elem? rows i)) [
    | inl outside ↦ ground (arith, index_of-get_elem? rows entry q at)
    | inr (row, inside) ↦ ground (
      arith,
      index_of-get_elem? rows entry q at,
      get_elem?-index_of rows row i d inside,
      beq_eq row entry,
      beq_refl entry,
    )
  ]

  select_missing :
      (entry : Row) (selected : Bool)
      → index_of rows entry ≡ none
      → selected ≡ elim (get_elem? rows i) [ none ↦ false | some row ↦ contains rest row ]
      → selected ≡ elim (get_elem? rows i) [ none ↦ false | some row ↦ contains (entry ∷ rest) row ]
  unfolding contains
  select_missing entry selected at ih = elim (Option-cases (get_elem? rows i)) [
    | inl outside ↦ ground arith
    | inr (row, inside) ↦ ground (
      arith,
      get_elem?-contains rows row i inside,
      contains-index_of rows entry,
      beq_eq row entry,
    )
  ]

contains-select_entries :
    (rows entries : List Row) (i : ℕ)
    → distinct rows ≡ true
    → contains (select_entries rows entries) i
      ≡ elim (get_elem? rows i) [ none ↦ false | some row ↦ contains entries row ]
unfolding select_entries contains
contains-select_entries rows [] i d = ground arith
contains-select_entries rows (entry ∷ rest) i d = elim (Option-cases (index_of rows entry)) [
  | inl e ↦
      rw (e, select_entries)
        (select_missing rows rest i entry _ e (contains-select_entries rows rest i d))
  | inr (q, e) ↦
      rw (e, select_entries)
        (select_found rows rest i entry q _ d e (contains-select_entries rows rest i d))
]

-- Two tests on the value of an option that agree on it.
some_congr :
    (o : Option Row) (f g : Row → Bool)
    → ((row : Row) → o ≡ some row → f row ≡ g row)
    → elim o as (λ _. Bool) [ none ↦ false | some row ↦ f row ]
      ≡ elim o [ none ↦ false | some row ↦ g row ]
some_congr none f g h = refl
some_congr (some row) f g h = h row refl

-- A row read by the names of all its columns is the row.
pub value_of_names :
    (names : List String) (row : Row)
    → distinct names ≡ true
    → length row ≡ length names
    → map (value_of names row) names ≡ row
value_of_names names row d sized =
    get_elem?_ext _ _ (length-map (value_of names row) names ∙ sym sized) λ i lt.
      let (name, at) =
        get_elem?-some names i (omega (arith, length-map {0, 0} (value_of names row) names)) in
      let (v, inside) = get_elem?-some row i (omega (arith, get_elem?-lt names i name at, sized)) in
      get_elem?-map-some (value_of names row) names i name at
      ∙ ground (arith, get_elem?-index_of names name i d at, get_or-get_elem? row i v (pos 0))

module _ (l selection : Labels) (vl : IsValid l) (vs : IsValid selection) where
  same_names :
      selection.names ≡ l.names
      → (i : ℕ) → contains (select_entries l.values selection.values) i ≡ is_selected l selection i
  same_names same i =
      contains-select_entries l.values selection.values i vl.distinct_rows
      ∙ some_congr (get_elem? l.values i) _ _ (λ row at. ap (contains selection.values) (
          sym (
            ap (map (value_of l.names row)) same
            ∙ value_of_names l.names row vl.distinct_names
                ((nat_beq_iff _ _).0 (all-get_elem? _ l.values i row vl.rectangular at)))))

  -- For valid labels and a valid selection with at least one name, all of them names of the
  -- labels, `select` always returns: the positions in its result are exactly those of the rows
  -- that agree with an entry of the selection on the dimensions of the selection.
  pub select-is_selected :
      all (contains l.names) selection.names ≡ true
      → is_empty selection.names ≡ false
      → (chosen : List ℕ) × (select l selection ≡ ok chosen)
        × ((i : ℕ) → contains chosen i ≡ is_selected l selection i)
  unfolding select
  select-is_selected known named = elim (Bool-cases (selection.names == l.names)) [
    | inl same ↦ (
      select_entries l.values selection.values,
      rw (vl.owned, vs.owned, same, ← beq_eq selection.names l.names same, named),
      same_names (beq_eq selection.names l.names same),
    )
    | inr other ↦
        let (ds, found, projected) = dimensions_of_known l.names selection.names known in
        (
          select_candidates selection.values ds 0 l.values,
          rw (vl.owned, vs.owned, other, found, named),
          λ i.
              ap (contains (select_candidates selection.values ds 0 l.values)) (omega arith)
              ∙ contains-select_candidates selection.values ds 0 i l.values
              ∙ some_congr (get_elem? l.values i) _ _
                  (λ row at. ap (contains selection.values) (projected row)),
        )
  ]
