-- ===== src/Labels/Dimensions.antt =====
-- The methods of labels.py that change or read the dimensions of labels: `insert`, `append`,
-- `permute`, `remove`, `rename`, `column`, `entry` and `view`.
use aml_storage.Prelude.{
  ℕ, suc, ◌-◌, ℤ, pos, negsuc, String, true, Option, none, some, List, map, length, get_elem?,
  get_or, set, insert_at, remove_at, ltb, nat_beq, if◌then◌else◌, string_eq, contains, index_of,
}
use aml_storage.Result.{Result, ok, err, guard, map_m, ◌>>=◌, ◌>>◌, value_error, index_error}
use aml_storage.Numpy.{Numpy, Values, array_0d, array_1d, array_2d, array_nd, integral}
use aml_storage.Labels.Names.{NamesArg, sequence, normalize_names_type}
use aml_storage.Labels.Rows.{Row}
use aml_storage.Labels.Core.{Labels, len, size, init}

-- `xs.insert(index, x)`: an index out of range is moved to the nearer end.
unfoldable pub list_insert {ℓ} : {A : Type ℓ} → List A → ℤ → A → List A
list_insert xs (pos i) x = insert_at i x xs
list_insert xs (negsuc k) x = insert_at (length xs - suc k) x xs

-- `xs[i]`: a negative index counts from the end; `none` is an IndexError.
unfoldable pub list_item {ℓ} : {A : Type ℓ} → List A → ℤ → Option A
list_item xs (pos i) = get_elem? xs i
list_item xs (negsuc k) = if ltb k (length xs) then get_elem? xs (length xs - suc k) else none

unfoldable pub item_or_raise {ℓ} : {A : Type ℓ} → Option A → Result A
item_or_raise none = err index_error
item_or_raise (some a) = ok a

-- `values.shape` has one dimension.
unfoldable pub one_dimensional : Values → Result (List ℤ)
one_dimensional (array_0d kind) = err value_error
one_dimensional (array_1d kind vs) = ok vs
one_dimensional (array_2d kind columns rows) = err value_error
one_dimensional (array_nd kind count) = err value_error

-- `names.index(name)`, where a missing name is a ValueError
unfoldable pub name_index : List String → String → Result ℕ
name_index names name = elim (index_of names name) [ none ↦ err value_error | some i ↦ ok i ]

module _ ⦃np : Numpy⦄ where
  -- `labels.insert(index, name, values)`
  unfoldable pub insert : Labels → ℤ → String → Values → Result Labels
  unfolding list_insert item_or_raise one_dimensional init
  insert l index name values = do
    let new_names = list_insert l.names index name
    column ← one_dimensional values
    guard (nat_beq (length column) (len l)) value_error
    new_values ← item_or_raise (np.insert (size l) l.values index column)
    init (sequence new_names) (array_2d integral (suc (size l)) new_values)

  -- `labels.append(name, values)`: the index is `len(self)`, the number of entries.
  unfoldable pub append : Labels → String → Values → Result Labels
  unfolding insert
  append l name values = insert l (pos (len l)) name values

  -- `labels.permute(dimensions_indexes)`
  unfoldable pub permute : Labels → List ℤ → Result Labels
  unfolding list_item item_or_raise init
  permute l dimensions_indexes = do
    guard (nat_beq (length dimensions_indexes) (size l)) value_error
    names ← map_m (λ d. item_or_raise (list_item l.names d)) dimensions_indexes
    rows ← map_m (λ row. map_m (λ d. item_or_raise (list_item row d)) dimensions_indexes) l.values
    init (sequence names) (array_2d integral (length dimensions_indexes) rows)

  -- `labels.remove(name)`
  unfoldable pub remove : Labels → String → Result Labels
  unfolding name_index init
  remove l name = do
    guard (contains l.names name) value_error
    index ← name_index l.names name
    init (sequence (remove_at index l.names))
        (array_2d integral (size l - 1) (np.delete l.values index))

  -- `labels.rename(old, new)`
  unfoldable pub rename : Labels → String → String → Result Labels
  unfolding name_index init
  rename l old new = do
    guard (contains l.names old) value_error
    index ← name_index l.names old
    init (sequence (set l.names index new)) (array_2d integral (size l) l.values)

-- A single row with its names.
pub record LabelsEntry : Type 0 where
  pub names : List String
  pub values : Row

-- `labels.entry(index)`
unfoldable pub entry : Labels → ℤ → Result LabelsEntry
unfolding list_item item_or_raise
entry l index = do
  row ← item_or_raise (list_item l.values index)
  ok (record { names = l.names; values = row })

-- `entry[dimension]`, by a number or by a name
unfoldable pub entry_item : LabelsEntry → ℤ → Result ℤ
unfolding list_item item_or_raise
entry_item e dimension = item_or_raise (list_item e.values dimension)

unfoldable pub entry_named : LabelsEntry → String → Result ℤ
unfolding name_index
entry_named e dimension = do i ← name_index e.names dimension; ok (get_or e.values i (pos 0))

-- `labels.column(dimension)`
unfoldable pub column : Labels → String → Result (List ℤ)
unfolding name_index
column l dimension = do
  index ← name_index l.names dimension
  ok (map (λ row. get_or row index (pos 0)) l.values)

-- `labels.view(dimensions)`
unfoldable pub view : Labels → NamesArg → Result Labels
unfolding name_index normalize_names_type
view l dimensions = do
  let names = normalize_names_type dimensions
  indices ← map_m (name_index l.names) names
  ok (record {
    names = names;
    values = map (λ row. map (λ i. get_or row i (pos 0)) indices) l.values;
    is_view = true;
  })
