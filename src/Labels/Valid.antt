-- ===== src/Labels/Valid.antt =====
-- The invariant of a set of labels, and the constructors of labels.py and labels.rs.
use aml_storage.Prelude.{
  ℕ, ℤ, String, ◌≡◌, refl, Bool, true, false, ◌&&◌, not, List, [], ◌∷◌, map, arith, length,
  is_empty, all, nat_beq, if◌then◌else◌, distinct, string_eq, int_eq, list_eq, is_int32, length-map,
  and_intro, ap, ◌∙◌, nat_beq_iff,
}
use aml_storage.Result.{ok, err, metatensor_error, bind-eq_ok}
use aml_storage.Numpy.{Numpy, Values, array_0d, array_1d, array_2d, array_nd, integral, floating}
use aml_storage.Labels.Names.{is_valid_label_name, NamesArg, normalize_names_type}
use aml_storage.Labels.Rows.{Row, has_identical_neighbours-sort_rows}
use aml_storage.Labels.Core.{Labels, create_new_labels, two_dimensional, init}

-- Each row has `n` values.
abbrev pub is_rectangular : ℕ → List Row → Bool
is_rectangular n rows = all (λ r. nat_beq (length r) n) rows

-- Each value fits 32 bits.
abbrev pub is_stored : List Row → Bool
is_stored rows = all (all is_int32) rows

pub record IsValid (l : Labels) : Type 0 where
  pub owned : l.is_view ≡ false
  pub valid_names : all is_valid_label_name l.names ≡ true
  pub distinct_names : distinct l.names ≡ true
  pub rectangular : is_rectangular (length l.names) l.values ≡ true
  pub stored : is_stored l.values ≡ true
  pub distinct_rows : distinct l.values ≡ true
  pub no_hidden_rows : (is_empty l.names && not (is_empty l.values)) ≡ false

-- The conditions that the library places on names and rows.
abbrev pub acceptable : List String → List Row → Bool
acceptable names rows =
    all is_valid_label_name names
    && distinct names
    && distinct rows
    && not (is_empty names && not (is_empty rows))

-- Labels are created exactly when the names are valid and distinct, the rows are distinct, and
-- there are no rows without names; every other call fails with a MetatensorError.
pub create_new_labels_lem :
    (names : List String) (rows : List Row)
    → create_new_labels names rows ≡ (
        if acceptable names rows
        then ok (record { names = names; values = rows; is_view = false })
        else err metatensor_error)
unfolding create_new_labels distinct
create_new_labels_lem [] [] = refl
create_new_labels_lem [] (row ∷ rows) = ground arith
create_new_labels_lem (name ∷ names) rows = ground (arith, has_identical_neighbours-sort_rows rows)

pub create_new_labels-IsValid :
    (names : List String) (rows : List Row) {l : Labels}
    → is_rectangular (length names) rows ≡ true
    → is_stored rows ≡ true
    → create_new_labels names rows ≡ ok l
    → IsValid l × (l.names ≡ names) × (l.values ≡ rows)
create_new_labels-IsValid names rows h k e = ground (arith, create_new_labels_lem names rows)

-- The array that the constructor reads has as many values in each row as it has columns.
abbrev pub IsRectangular : Values → Type 0
IsRectangular (array_2d kind columns rows) = is_rectangular columns rows ≡ true
IsRectangular values = Unit

is_rectangular_of_columns :
    (n columns : ℕ) (rows rows' : List Row)
    → nat_beq n columns ≡ true
    → rows ≡ rows'
    → is_rectangular columns rows ≡ true
    → is_rectangular n rows' ≡ true
is_rectangular_of_columns n columns rows rows' g q h = rw (← q, (nat_beq_iff n columns).0 g) h

two_dimensional-is_rectangular :
    (n : ℕ) (values : Values) {rows : List Row}
    → IsRectangular values
    → two_dimensional n values ≡ ok rows
    → is_rectangular n rows ≡ true
unfolding two_dimensional
two_dimensional-is_rectangular n (array_0d kind) h e = cc
two_dimensional-is_rectangular n (array_1d kind []) h e = ground arith
two_dimensional-is_rectangular n (array_1d kind (v ∷ vs)) h e = cc
two_dimensional-is_rectangular n (array_2d kind columns []) h e = ground arith
two_dimensional-is_rectangular n (array_2d integral columns (row ∷ rows)) h e =
    is_rectangular_of_columns n columns (row ∷ rows) _ (ground arith) (ground arith) h
two_dimensional-is_rectangular n (array_2d floating columns (row ∷ rows)) h e = ground arith
two_dimensional-is_rectangular n (array_nd kind count) h e = ground arith

module _ ⦃np : Numpy⦄ where
  all_astype : (row : Row) → all is_int32 (map np.astype_int32 row) ≡ true
  all_astype [] = refl
  all_astype (v ∷ row) =
      and_intro (is_int32 (np.astype_int32 v)) _ (np.is_int32-astype_int32 v) (all_astype row)

  is_stored-astype : (rows : List Row) → is_stored (map (map np.astype_int32) rows) ≡ true
  is_stored-astype [] = refl
  is_stored-astype (row ∷ rows) =
      and_intro (all is_int32 (map np.astype_int32 row)) _ (all_astype row) (is_stored-astype rows)

  is_rectangular-map :
      (f : ℤ → ℤ) (n : ℕ) (rows : List Row)
      → is_rectangular n (map (map f) rows) ≡ is_rectangular n rows
  is_rectangular-map f n [] = refl
  is_rectangular-map f n (row ∷ rows) =
      rw (length-map f row) (ap (λ b. nat_beq (length row) n && b) (is_rectangular-map f n rows))

  -- A constructor call on an array with as many values in each row as it has columns, where it
  -- returns, gives labels that satisfy the invariant, with the given names.
  pub init-IsValid :
      (names : NamesArg) (values : Values) {l : Labels}
      → IsRectangular values
      → init names values ≡ ok l
      → IsValid l × (l.names ≡ normalize_names_type names)
  unfolding init
  init-IsValid names values h e =
      let n = length (normalize_names_type names) in
      let (rows, shaped, created) = bind-eq_ok (two_dimensional n values) _ e in
      let (valid, same, _) =
        create_new_labels-IsValid (normalize_names_type names) (map (map np.astype_int32) rows)
          (is_rectangular-map np.astype_int32 n rows
            ∙ two_dimensional-is_rectangular n values h shaped)
          (is_stored-astype rows) created in
      (valid, same)
