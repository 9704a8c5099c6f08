-- ===== src/Labels/Union.antt =====
-- What `Labels.union` and `Labels.union_and_mapping` return for labels that satisfy the invariant.
use aml_storage.Prelude.{
  ℕ, ◌≡◌, refl, sym, ap, ◌∙◌, length-map, length-range_from, Bool, true, false, ◌||◌, none, some,
  Option-cases, List, [], ◌∷◌, ◌++◌, map, arith, length, is_empty, all, all-append, range_from,
  int_eq, list_eq, string_eq, contains, contains-append, contains-index_of, distinct, distinct_snoc,
  index_of, index_of-append_left, index_of_snoc, index_of_self, list_beq_iff, inl, inr, ap₂, beq_eq,
  subst, map_congr, index_of-contains,
}
use aml_storage.Result.{ok, ◌>>=◌}
use aml_storage.Labels.Rows.{Row}
use aml_storage.Labels.Core.{Labels, len}
use aml_storage.Labels.Valid.{IsValid}
use aml_storage.Labels.Sets.{union_entries, union_and_mapping, union}
use aml_storage.Labels.Mappings.{written_all, check_mapping_requested}

all-union_entries :
    (p : Row → Bool) (values rest : List Row)
    → all p values ≡ true
    → all p rest ≡ true
    → all p (union_entries values rest).0 ≡ true
unfolding union_entries
all-union_entries p values [] h k = h
all-union_entries p values (entry ∷ rest) h k = ground (
  arith,
  all-union_entries p (values ++ entry ∷ []) rest,
  all-union_entries p values rest,
  all-append p values (entry ∷ []),
)

distinct-union_entries :
    (values rest : List Row)
    → distinct values ≡ true
    → distinct (union_entries values rest).0 ≡ true
unfolding union_entries
distinct-union_entries values [] h = h
distinct-union_entries values (entry ∷ rest) h = ground (
  arith,
  distinct-union_entries (values ++ entry ∷ []) rest,
  distinct-union_entries values rest,
  distinct_snoc values entry h,
  contains-index_of values entry,
)

-- Rows keep their position in the growing union.
index_of-union_entries :
    (values rest : List Row) (r : Row) (i : ℕ)
    → index_of values r ≡ some i
    → index_of (union_entries values rest).0 r ≡ some i
unfolding union_entries
index_of-union_entries values [] r i h = h
index_of-union_entries values (entry ∷ rest) r i h = ground (
  arith,
  index_of-union_entries (values ++ entry ∷ []) rest r i,
  index_of-union_entries values rest r i h,
  index_of-append_left values (entry ∷ []) r i h,
)

contains-union_entries :
    (values rest : List Row) (r : Row)
    → contains (union_entries values rest).0 r ≡ (contains values r || contains rest r)
unfolding union_entries contains
contains-union_entries values [] r = ground arith
contains-union_entries values (entry ∷ rest) r = ground (
  arith,
  contains-union_entries (values ++ entry ∷ []) rest r,
  contains-union_entries values rest r,
  contains-append values (entry ∷ []) r,
  contains-index_of values entry,
  beq_eq r entry,
)

union_entries_new :
    (values rest : List Row) (entry : Row)
    → index_of values entry ≡ none
    → union_entries values (entry ∷ rest) ≡ (
      (union_entries (values ++ entry ∷ []) rest).0,
      length values ∷ (union_entries (values ++ entry ∷ []) rest).1,
    )
unfolding union_entries
union_entries_new values rest entry e = rw (e, union_entries)

union_entries_old :
    (values rest : List Row) (entry : Row) (i : ℕ)
    → index_of values entry ≡ some i
    → union_entries values (entry ∷ rest)
      ≡ ((union_entries values rest).0, i ∷ (union_entries values rest).1)
unfolding union_entries
union_entries_old values rest entry i e = rw (e, union_entries)

union_entries_nil : (values : List Row) → union_entries values [] ≡ (values, [])
unfolding union_entries
union_entries_nil values = refl

-- What the second mapping says of a pair of rows and positions.
abbrev IsMapping : List Row → List Row × List ℕ → Type 0
IsMapping rest u = map some u.1 ≡ map (index_of u.0) rest

indexes_of-union_entries : (values rest : List Row) → IsMapping rest (union_entries values rest)
indexes_of-union_entries values [] = subst (IsMapping []) (sym (union_entries_nil values)) refl
indexes_of-union_entries values (entry ∷ rest) = elim (Option-cases (index_of values entry)) [
  | inl e ↦ subst (IsMapping (entry ∷ rest)) (sym (union_entries_new values rest entry e)) (
      ap₂ (λ x xs. x ∷ xs)
        (sym (
          index_of-union_entries (values ++ entry ∷ []) rest entry (length values)
            (index_of_snoc values entry e)))
        (indexes_of-union_entries (values ++ entry ∷ []) rest))
  | inr (i, e) ↦ subst (IsMapping (entry ∷ rest)) (sym (union_entries_old values rest entry i e)) (
      ap₂ (λ x xs. x ∷ xs) (sym (index_of-union_entries values rest entry i e))
        (indexes_of-union_entries values rest))
]

length-indexes : (values rest : List Row) → length (union_entries values rest).1 ≡ length rest
length-indexes values rest =
    sym (length-map some (union_entries values rest).1)
    ∙ ap length (indexes_of-union_entries values rest)
    ∙ length-map (index_of (union_entries values rest).0) rest

-- The outcome of a union: the same names, the entries of both inputs and no others, and for each
-- input the positions of its entries in the union.
pub record IsUnion (a b u : Labels) (first second : List ℕ) : Type 0 where
  pub valid : IsValid u
  pub names : u.names ≡ a.names
  pub entries : (r : Row) → contains u.values r ≡ (contains a.values r || contains b.values r)
  pub first_mapping : map some first ≡ map (index_of u.values) a.values
  pub second_mapping : map some second ≡ map (index_of u.values) b.values

module _ (a b : Labels) (va : IsValid a) (vb : IsValid b) where
  abbrev joined : Labels
  joined = record { names = a.names; values = (union_entries a.values b.values).0; is_view = false }

  joined-IsValid : a.names ≡ b.names → is_empty a.names ≡ false → IsValid joined
  joined-IsValid same named = record {
    owned = refl;
    valid_names = va.valid_names;
    distinct_names = va.distinct_names;
    rectangular = all-union_entries _ a.values b.values va.rectangular (rw same vb.rectangular);
    stored = all-union_entries _ a.values b.values va.stored vb.stored;
    distinct_rows = distinct-union_entries a.values b.values va.distinct_rows;
    no_hidden_rows = rw named;
  }

  joined-IsUnion :
      a.names ≡ b.names
      → is_empty a.names ≡ false
      → IsUnion a b joined (range_from 0 (length a.values)) (union_entries a.values b.values).1
  joined-IsUnion same named = record {
    valid = joined-IsValid same named;
    names = refl;
    entries = contains-union_entries a.values b.values;
    first_mapping =
        index_of_self a.values va.distinct_rows
        ∙ map_congr _ _ a.values (λ r m.
          let (i, e) = index_of-contains a.values r m in
          e ∙ sym (index_of-union_entries a.values b.values r i e));
    second_mapping = indexes_of-union_entries a.values b.values;
  }

  -- The union of valid labels with the same names, at least one, always returns: it is valid, has
  -- the names, the entries of both inputs and no others, and the two mappings are the positions in
  -- it of the entries of each input.
  pub union_and_mapping-IsUnion :
      a.names ≡ b.names
      → is_empty a.names ≡ false
      → (u : Labels) × (first : List ℕ) × (second : List ℕ) × (union_and_mapping a b
          ≡ ok (u, first, second))
        × IsUnion a b u first second
  unfolding union_and_mapping
  union_and_mapping-IsUnion same named = (
    joined,
    range_from 0 (length a.values),
    (union_entries a.values b.values).1,
    rw
        (
          va.owned,
          vb.owned,
          check_mapping_requested {A = ℕ} 0 a,
          check_mapping_requested {A = ℕ} 0 b,
          (list_beq_iff a.names b.names).1 same,
          named,
          written_all 0 (len a) (range_from 0 (len a)) (length-range_from 0 (len a)),
          written_all 0 (len b) (union_entries a.values b.values).1
              (length-indexes a.values b.values),
        )
        refl,
    joined-IsUnion same named,
  )

  -- For valid labels, `union` is the first component of `union_and_mapping`, errors included.
  union-union_and_mapping : union a b ≡ (union_and_mapping a b >>= λ r. ok r.0)
  unfolding union union_and_mapping
  union-union_and_mapping =
      rw (check_mapping_requested {A = ℕ} 0 a, check_mapping_requested {A = ℕ} 0 b) (ground arith)

  -- The union of valid labels with the same names, at least one, always returns, without the
  -- mappings as well as with them, and both calls give the same labels: these are valid, have the
  -- names, the entries of both inputs and no others.
  pub union-IsUnion :
      a.names ≡ b.names
      → is_empty a.names ≡ false
      → (u : Labels) × (first : List ℕ) × (second : List ℕ) × (union a b ≡ ok u)
        × (union_and_mapping a b ≡ ok (u, first, second))
        × IsUnion a b u first second
  union-IsUnion same named =
      let (u, first, second, made, whole) = union_and_mapping-IsUnion same named in
      (u, first, second, union-union_and_mapping ∙ rw made refl, made, whole)
