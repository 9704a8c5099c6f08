-- ===== src/Labels/Sets.antt =====
-- Union, intersection and selection of labels: labels.py over `Labels::union`,
-- `Labels::intersection` and `Labels::select` of metatensor-core/src/labels.rs. Where the native
-- code builds the map from entries to rows, or iterates over rows, of labels with no dimensions,
-- it panics, which Python sees as a MetatensorError.
use aml_storage.Prelude.{
  ℕ, suc, ℤ, pos, negsuc, String, false, ◌||◌, not, none, some, List, [], ◌∷◌, ◌++◌, map, length,
  is_empty, get_or, set, replicate, range_from, leb, nat_beq, if◌then◌else◌, ◌==◌, int_eq, list_eq,
  string_eq, contains, index_of,
}
use aml_storage.Result.{Result, ok, err, guard, ◌>>=◌, ◌>>◌, value_error, metatensor_error}
use aml_storage.Labels.Rows.{Row}
use aml_storage.Labels.Core.{Labels, len, as_mts_labels}

-- The loop over the entries of `other` in `Labels::union`: the rows of the union so far, and the
-- position there of each entry.
unfoldable pub union_entries : List Row → List Row → List Row × List ℕ
union_entries values [] = (values, [])
union_entries values (entry ∷ rest) = elim (index_of values entry) [
  | some index ↦ let (out, mapping) = union_entries values rest in (out, index ∷ mapping)
  | none ↦
      let (out, mapping) = union_entries (values ++ entry ∷ []) rest in
      (out, length values ∷ mapping)
]

-- What a mapping holds after the positions were written to it: nothing is written to a mapping that
-- is not requested, which is empty.
unfoldable pub written : {A : Type 0} → List A → List A → List A
written [] positions = []
written (old ∷ mapping) [] = old ∷ mapping
written (old ∷ mapping) (position ∷ positions) = position ∷ written mapping positions

-- A requested mapping has a place for each entry of the labels (`labels_set_common`).
unfoldable pub check_mapping : {A : Type 0} → List A → Labels → Result (Unit {0})
check_mapping mapping l =
    guard (is_empty mapping || nat_beq (length mapping) (len l)) metatensor_error

-- `Labels::union`, with what the two mappings hold before the call and after it.
unfoldable pub rust_union : Labels → Labels → List ℕ → List ℕ → Result (Labels × List ℕ × List ℕ)
unfolding union_entries written check_mapping
rust_union a b first_mapping second_mapping = do
  check_mapping first_mapping a
  check_mapping second_mapping b
  guard (a.names == b.names) metatensor_error
  guard (not (is_empty a.names)) metatensor_error
  let (values, indexes) = union_entries a.values b.values
  ok (
    record { names = a.names; values = values; is_view = false },
    written first_mapping (range_from 0 (len a)),
    written second_mapping indexes,
  )

-- `self.union_and_mapping(other)`
unfoldable pub union_and_mapping : Labels → Labels → Result (Labels × List ℕ × List ℕ)
unfolding rust_union
union_and_mapping a b = do
  guard (not (a.is_view || b.is_view)) value_error
  rust_union a b (replicate (len a) 0) (replicate (len b) 0)

-- `self.union(other)`, which requests no mapping
unfoldable pub union : Labels → Labels → Result Labels
unfolding rust_union
union a b = do
  guard (not (a.is_view || b.is_view)) value_error
  (output, first_mapping, second_mapping) ← rust_union a b [] []
  ok output

-- The loop over the entries of `first` in `Labels::intersection`, with `new_position` and
-- `second_indexes`: the rows of the output, the indexes of `first`, and those of `second`.
unfoldable pub intersection_entries : List Row → List Row → ℕ → List ℤ → List Row × List ℤ × List ℤ
intersection_entries second [] new_position second_indexes = ([], [], second_indexes)
intersection_entries second (entry ∷ rest) new_position second_indexes =
    elim (index_of second entry) [
      | some position ↦
          let (values, first_indexes, indexes) =
            intersection_entries second rest (suc new_position)
              (set second_indexes position (pos new_position)) in
          (entry ∷ values, pos new_position ∷ first_indexes, indexes)
      | none ↦
          let (values, first_indexes, indexes) =
            intersection_entries second rest new_position second_indexes in
          (values, negsuc 0 ∷ first_indexes, indexes)
    ]

-- The body of `Labels::intersection` where `self` has fewer entries, or as many. The indexes of
-- `second` start as -1.
unfoldable pub smaller_first : List String → List Row → List Row → Labels × List ℤ × List ℤ
unfolding intersection_entries
smaller_first names a b =
    let (values, first, second) = intersection_entries b a 0 (replicate (length b) (negsuc 0)) in
    (record { names = names; values = values; is_view = false }, first, second)

-- The same where `other` has fewer entries: the roles of the two are swapped.
unfoldable pub larger_first : List String → List Row → List Row → Labels × List ℤ × List ℤ
unfolding intersection_entries
larger_first names a b =
    let (values, first, second) = intersection_entries a b 0 (replicate (length a) (negsuc 0)) in
    (record { names = names; values = values; is_view = false }, second, first)

-- `Labels::intersection`, with what the two mappings hold before the call and after it.
unfoldable pub rust_intersection :
    Labels → Labels → List ℤ → List ℤ → Result (Labels × List ℤ × List ℤ)
unfolding smaller_first larger_first written check_mapping
rust_intersection a b first_mapping second_mapping = do
  check_mapping first_mapping a
  check_mapping second_mapping b
  guard (a.names == b.names) metatensor_error
  guard (not (is_empty a.names)) metatensor_error
  let (output, first_indexes, second_indexes) =
      if leb (len a) (len b)
      then smaller_first a.names a.values b.values
      else larger_first a.names a.values b.values
  ok (output, written first_mapping first_indexes, written second_mapping second_indexes)

-- `self.intersection_and_mapping(other)`
unfoldable pub intersection_and_mapping : Labels → Labels → Result (Labels × List ℤ × List ℤ)
unfolding rust_intersection
intersection_and_mapping a b = do
  guard (not (a.is_view || b.is_view)) value_error
  rust_intersection a b (replicate (len a) (pos 0)) (replicate (len b) (pos 0))

-- `self.intersection(other)`, which requests no mapping
unfoldable pub intersection : Labels → Labels → Result Labels
unfolding rust_intersection
intersection a b = do
  guard (not (a.is_view || b.is_view)) value_error
  (output, first_mapping, second_mapping) ← rust_intersection a b [] []
  ok output

-- The values of a row in the given columns; the columns are positions of names, so in range.
unfoldable pub project : List ℕ → Row → Row
project dimensions row = map (λ d. get_or row d (pos 0)) dimensions

-- The positions in `names` of the dimensions to match.
unfoldable pub dimensions_of : List String → List String → Result (List ℕ)
dimensions_of names [] = ok []
dimensions_of names (name ∷ rest) = elim (index_of names name) [
  | none ↦ err metatensor_error
  | some i ↦ do dimensions ← dimensions_of names rest; ok (i ∷ dimensions)
]

-- The rows, from position `i` on, whose projection is an entry of the selection.
unfoldable pub select_candidates : List Row → List ℕ → ℕ → List Row → List ℕ
unfolding project
select_candidates selection dimensions i [] = []
select_candidates selection dimensions i (row ∷ rows) =
    let rest = select_candidates selection dimensions (suc i) rows in
    if contains selection (project dimensions row) then i ∷ rest else rest

-- The positions of the entries of the selection that are rows.
unfoldable pub select_entries : List Row → List Row → List ℕ
select_entries rows [] = []
select_entries rows (entry ∷ rest) = elim (index_of rows entry) [
  | none ↦ select_entries rows rest
  | some i ↦ i ∷ select_entries rows rest
]

-- `Labels::select`
unfoldable pub rust_select : Labels → Labels → Result (List ℕ)
unfolding dimensions_of select_candidates select_entries
rust_select l selection =
    if selection.names == l.names
    then (do
      guard (not (is_empty l.names)) metatensor_error
      ok (select_entries l.values selection.values))
    else do
      dimensions ← dimensions_of l.names selection.names
      guard (not (is_empty selection.names) || is_empty l.values) metatensor_error
      ok (select_candidates selection.values dimensions 0 l.values)

-- `self.select(selection)`
unfoldable pub select : Labels → Labels → Result (List ℕ)
unfolding as_mts_labels rust_select
select l selection = do l' ← as_mts_labels l; s ← as_mts_labels selection; rust_select l' s
