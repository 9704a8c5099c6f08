-- ===== src/Labels/Core.antt =====
-- The class `Labels`: its state, its constructors (labels.py over `mts_labels_create` of
-- c_api/labels.rs and `Labels::new_impl` of labels.rs), and the reads of names and positions.
use aml_storage.Prelude.{
  ℕ, ℤ, pos, String, Bool, true, false, ◌&&◌, not, Option, none, some, List, [], ◌∷◌, map, length,
  is_empty, all, range_from, nat_beq, if◌then◌else◌, ◌==◌, int_eq, list_eq, string_eq, distinct,
  index_of, c_int32,
}
use aml_storage.Result.{
  Result, ok, err, guard, ◌>>=◌, ◌>>◌, value_error, type_error, metatensor_error,
}
use aml_storage.Numpy.{Numpy, Values, array_0d, array_1d, array_2d, array_nd, integral, floating}
use aml_storage.Labels.Names.{
  codes, is_valid_label_name, NamesArg, text, sequence, normalize_names_type,
}
use aml_storage.Labels.Rows.{Row, sort_rows, has_identical_neighbours}

-- `is_view` holds where `_labels` is `None`: no native object stands behind a view.
pub record Labels : Type 0 where
  pub names : List String
  pub values : List Row
  pub is_view : Bool

-- `Labels::new_impl` with `check_unique`, for rows that have one value for each name.
unfoldable pub new_impl : List String → List Row → Result Labels
unfolding is_valid_label_name sort_rows has_identical_neighbours
new_impl names rows = do
  guard (all is_valid_label_name names) metatensor_error
  guard (distinct names) metatensor_error
  guard (not (has_identical_neighbours (sort_rows rows))) metatensor_error
  ok (record { names = names; values = rows; is_view = false })

-- `create_rust_labels`, which `_create_new_labels` and `to_owned` call.
unfoldable pub create_new_labels : List String → List Row → Result Labels
unfolding new_impl
create_new_labels [] [] = ok (record { names = []; values = []; is_view = false })
create_new_labels [] (row ∷ rows) = err metatensor_error
create_new_labels (name ∷ names) rows = new_impl (name ∷ names) rows

-- `len(labels)`
abbrev pub len : Labels → ℕ
len l = length l.values

-- `self.values.shape[1]`, which is the number of names
abbrev pub size : Labels → ℕ
size l = length l.names

-- `values` as a 2D array of integers with a column for each name: the empty array of the right
-- shape where there are no entries.
unfoldable pub two_dimensional : ℕ → Values → Result (List Row)
two_dimensional n (array_0d kind) = err type_error
two_dimensional n (array_1d kind []) = ok []
two_dimensional n (array_1d kind (v ∷ vs)) = err value_error
two_dimensional n (array_2d kind columns []) = ok []
two_dimensional n (array_2d integral columns (row ∷ rows)) = do
  guard (nat_beq n columns) value_error
  ok (row ∷ rows)
two_dimensional n (array_2d floating columns (row ∷ rows)) = do
  guard (nat_beq n columns) value_error
  err type_error
two_dimensional n (array_nd kind count) = if nat_beq count 0 then ok [] else err value_error

-- `len(names)` of an argument: the number of characters of a text.
abbrev len_names : NamesArg → ℕ
len_names (text s) = length (codes s)
len_names (sequence names) = length names

module _ ⦃np : Numpy⦄ where
  -- `Labels(names, values)`
  unfoldable pub init : NamesArg → Values → Result Labels
  unfolding normalize_names_type two_dimensional create_new_labels
  init names values = do
    let names' = normalize_names_type names
    rows ← two_dimensional (length names') values
    create_new_labels names' (map (map np.astype_int32) rows)

  -- `Labels.single()`
  unfoldable pub single : Result Labels
  unfolding init
  single = init (sequence ("_" ∷ [])) (array_2d integral 1 ((pos 0 ∷ []) ∷ []))

  -- `Labels.empty(names)`
  unfoldable pub empty : NamesArg → Result Labels
  unfolding init
  empty names = init names (array_2d floating (len_names names) [])

  -- `Labels.range(name, end)`
  unfoldable pub range : String → ℕ → Result Labels
  unfolding init
  range name end =
      init (sequence (name ∷ [])) (array_2d integral 1 (map (λ i. pos i ∷ []) (range_from 0 end)))

-- `self == other`
unfoldable pub equal : Labels → Labels → Bool
equal a b = (a.names == b.names) && (a.values == b.values)

-- `Labels::position` behind `mts_labels_position`: the position of the entry in the map from
-- entries to rows.
unfoldable pub rust_position : Labels → Row → Result (Option ℕ)
rust_position l entry = do
  guard (nat_beq (length entry) (size l)) metatensor_error
  guard (not (is_empty entry)) metatensor_error
  ok (index_of l.values entry)

-- `labels.position(entry)`
unfoldable pub position : Labels → List ℤ → Result (Option ℕ)
unfolding rust_position
position l entry = do guard (not l.is_view) value_error; rust_position l (map c_int32 entry)

is_some : Option ℕ → Bool
is_some none = false
is_some (some i) = true

-- `entry in labels`
unfoldable pub contains_entry : Labels → List ℤ → Result Bool
unfolding position is_some
contains_entry l entry = do guard (not l.is_view) value_error; p ← position l entry; ok (is_some p)

-- `labels._as_mts_labels_t()`
unfoldable pub as_mts_labels : Labels → Result Labels
as_mts_labels l = do guard (not l.is_view) value_error; ok l

-- `labels.to_owned()`
unfoldable pub to_owned : Labels → Result Labels
unfolding create_new_labels
to_owned l = create_new_labels l.names l.values
