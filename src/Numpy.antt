-- ===== src/Numpy.antt =====
-- What labels.py relies on of NumPy, which is not part of the repository: the documented
-- behaviour of `astype(np.int32)`, `np.insert` and `np.delete` on the rows of a 2D array.
use aml_storage.Prelude.{
  ℕ, suc, ◌-◌, ◌≡◌, true, Option, none, some, List, map, length, ltb, leb, if◌then◌else◌, insert_at,
  remove_at, ℤ, pos, negsuc, is_int32,
}

-- Whether the elements of an array are integers; `casting="same_kind"` refuses the others.
pub data Kind : Type 0 where
  integral floating : Kind

-- A numpy array by its number of dimensions. A 2D array has its number of columns and its rows.
pub data Values : Type 0 where
  array_0d : Kind → Values
  array_1d : Kind → List ℤ → Values
  array_2d : Kind → ℕ → List (List ℤ) → Values
  array_nd : Kind → ℕ → Values

-- A position among `n` places, counted from the end where it is negative.
unfoldable pub resolve : ℕ → ℤ → Option ℕ
resolve n (pos i) = if leb i n then some i else none
resolve n (negsuc k) = if ltb k n then some (n - suc k) else none

-- `[row with v inserted before position i]` for each row and its value.
abbrev pub insert_column : ℕ → List ℤ → List (List ℤ) → List (List ℤ)
insert_column i vs List.[] = List.[]
insert_column i List.[] (List.◌∷◌ row rows) = List.◌∷◌ row rows
insert_column i (List.◌∷◌ v vs) (List.◌∷◌ row rows) =
    List.◌∷◌ (insert_at i v row) (insert_column i vs rows)

pub record Numpy : Type 0 where
  -- one element of `values.astype(np.int32)`
  pub astype_int32 : ℤ → ℤ
  pub astype_int32_self : (v : ℤ) → is_int32 v ≡ true → astype_int32 v ≡ v
  pub is_int32-astype_int32 : (v : ℤ) → is_int32 (astype_int32 v) ≡ true
  -- `np.int32(v)` of one Python integer; `none` is an OverflowError
  pub int32 : ℤ → Option ℤ
  pub int32_self : (v : ℤ) → is_int32 v ≡ true → int32 v ≡ some v
  -- `np.insert(rows, index, column, axis=1)` for rows with `n` columns; `none` is an IndexError
  pub insert : ℕ → List (List ℤ) → ℤ → List ℤ → Option (List (List ℤ))
  pub insert_in_bounds :
      (n : ℕ) (rows : List (List ℤ)) (index : ℤ) (column : List ℤ) (i : ℕ)
      → length column ≡ length rows
      → resolve n index ≡ some i
      → insert n rows index column ≡ some (insert_column i (map astype_int32 column) rows)
  pub insert_out_of_bounds :
      (n : ℕ) (rows : List (List ℤ)) (index : ℤ) (column : List ℤ)
      → resolve n index ≡ none
      → insert n rows index column ≡ none
  -- `np.delete(rows, i, axis=1)`
  pub delete : List (List ℤ) → ℕ → List (List ℤ)
  pub delete_lem : (rows : List (List ℤ)) (i : ℕ) → delete rows i ≡ map (remove_at i) rows
