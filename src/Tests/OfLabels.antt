-- ===== src/Tests/OfLabels.antt =====
-- Labels: examples of the documentation, and witnesses.
use aml_storage.Prelude.{
  ℕ, ℤ, pos, negsuc, ◌≡◌, refl, ◌↔◌, false, some, List, [], ◌∷◌, get_elem?, ◌≤◌, contains, distinct,
  list_beq, int_beq, index_of, arith, c_int32, not, int_eq, nat_eq, list_eq, string_eq,
  if◌then◌else◌, suc,
}
use aml_storage.Result.{ok, err, metatensor_error}
use aml_storage.Numpy.{integral, array_1d, array_2d, resolve}
use aml_storage.Labels.Names.{text, normalize_names_type, is_valid_label_name}
use aml_storage.Labels.Rows.{Row, sort_rows, has_identical_neighbours}
use aml_storage.Labels.Rows.{has_identical_neighbours-sort_rows}
use aml_storage.Labels.Core.{Labels, create_new_labels, init, position, contains_entry, len, size}
use aml_storage.Labels.Valid.{IsValid, acceptable, create_new_labels_lem, init-IsValid}
use aml_storage.Labels.Sets.{union, union_and_mapping, intersection_and_mapping, select}
use aml_storage.Labels.Union.{IsUnion, union_and_mapping-IsUnion, union-IsUnion}
use aml_storage.Labels.Intersection.{IsIntersection, intersection_and_mapping-IsIntersection}
use aml_storage.Labels.Selection.{is_selected, select-is_selected}
use aml_storage.Labels.Positions.{position_iff, contains_entry-contains}
use aml_storage.Labels.Dimensions.{insert, append, remove, rename}
use aml_storage.Labels.Editing.{rename-rename}
use aml_storage.Labels.Insertion.{remove-insert, append_position}
use aml_storage.Tests.Inputs.{
  numpy, row, st, first, second, first-IsValid, second-IsValid, numpy_insert,
}

-- The example of `union_and_mapping`.
union_of_two :
    union_and_mapping first second
    ≡ ok (st (row 0 1 ∷ row 1 1 ∷ row 2 3 ∷ row 5 3 ∷ []), 0 ∷ 1 ∷ [], 1 ∷ 2 ∷ 3 ∷ [])
unfolding union_and_mapping contains list_beq int_beq index_of
union_of_two = refl

union_and_mapping-IsUnion_example :
    (u : Labels) × (first_mapping : List ℕ) × (second_mapping : List ℕ) × (union_and_mapping first
        second
      ≡ ok (u, first_mapping, second_mapping))
    × IsUnion first second u first_mapping second_mapping
union_and_mapping-IsUnion_example =
    union_and_mapping-IsUnion first second first-IsValid second-IsValid refl refl

union-IsUnion_example :
    (u : Labels) × (first_mapping : List ℕ) × (second_mapping : List ℕ) × (union first second
      ≡ ok u)
    × (union_and_mapping first second ≡ ok (u, first_mapping, second_mapping))
    × IsUnion first second u first_mapping second_mapping
union-IsUnion_example = union-IsUnion first second first-IsValid second-IsValid refl refl

intersection_of_two :
    intersection_and_mapping first second
    ≡ ok (st (row 1 1 ∷ []), negsuc 0 ∷ pos 0 ∷ [], pos 0 ∷ negsuc 0 ∷ negsuc 0 ∷ [])
unfolding intersection_and_mapping contains list_beq int_beq index_of
intersection_of_two = refl

intersection_and_mapping-IsIntersection_example :
    (u : Labels) × (first_mapping : List ℤ) × (second_mapping : List ℤ) × (intersection_and_mapping
        first second
      ≡ ok (u, first_mapping, second_mapping))
    × IsIntersection first second u first_mapping second_mapping
intersection_and_mapping-IsIntersection_example =
    intersection_and_mapping-IsIntersection first second first-IsValid second-IsValid refl refl

abbrev chosen_t : Labels
chosen_t = record { names = "t" ∷ []; values = (pos 3 ∷ []) ∷ []; is_view = false }

chosen_t-IsValid : IsValid chosen_t
unfolding is_valid_label_name distinct contains list_beq int_beq
chosen_t-IsValid = record {
  owned = refl;
  valid_names = refl;
  distinct_names = refl;
  rectangular = refl;
  stored = refl;
  distinct_rows = refl;
  no_hidden_rows = refl;
}

select_some : select second chosen_t ≡ ok (1 ∷ 2 ∷ [])
unfolding select contains list_beq int_beq index_of
select_some = refl

select-is_selected_example :
    (chosen : List ℕ) × (select second chosen_t ≡ ok chosen)
    × ((i : ℕ) → contains chosen i ≡ is_selected second chosen_t i)
unfolding contains
select-is_selected_example =
    select-is_selected second chosen_t second-IsValid chosen_t-IsValid refl refl

position_iff_example :
    (position second (row 2 3) ≡ ok (some 1)) ↔ (get_elem? second.values 1 ≡ some (row 2 3))
position_iff_example = position_iff second second-IsValid (row 2 3) refl refl refl 1

contains_entry-contains_example :
    contains_entry second (row 4 4) ≡ ok (contains second.values (row 4 4))
contains_entry-contains_example =
    contains_entry-contains second second-IsValid (row 4 4) refl refl refl

create_new_labels_lem_example : create_new_labels ("s" ∷ "s" ∷ []) first.values ≡ (
    if acceptable ("s" ∷ "s" ∷ []) first.values
    then ok (record { names = "s" ∷ "s" ∷ []; values = first.values; is_view = false })
    else err metatensor_error)
create_new_labels_lem_example = create_new_labels_lem ("s" ∷ "s" ∷ []) first.values

-- A value of 33 bits is stored with 32.
abbrev wrapped : Labels
wrapped = record { names = "s" ∷ []; values = (pos 7 ∷ []) ∷ []; is_view = false }

wrapped_made : init (text "s") (array_2d integral 1 ((pos 4294967303 ∷ []) ∷ [])) ≡ ok wrapped
unfolding init numpy c_int32 aml_storage.Labels.Rows.row_leb is_valid_label_name distinct contains
    list_beq
wrapped_made = refl

init-IsValid_example : IsValid wrapped × (wrapped.names ≡ "s" ∷ [])
unfolding normalize_names_type
init-IsValid_example =
    init-IsValid (text "s") (array_2d integral 1 ((pos 4294967303 ∷ []) ∷ [])) refl wrapped_made

has_identical_neighbours-sort_rows_example :
    has_identical_neighbours (sort_rows second.values) ≡ not (distinct second.values)
has_identical_neighbours-sort_rows_example = has_identical_neighbours-sort_rows second.values

abbrev third : List ℤ
third = pos 8 ∷ pos 9 ∷ []

abbrev with_third : Labels
with_third = record {
  names = "s" ∷ "u" ∷ "t" ∷ [];
  values = (pos 0 ∷ pos 8 ∷ pos 1 ∷ []) ∷ (pos 1 ∷ pos 9 ∷ pos 1 ∷ []) ∷ [];
  is_view = false;
}

third_inserted : insert first (pos 1) "u" (array_1d integral third) ≡ ok with_third
unfolding insert numpy numpy_insert c_int32 aml_storage.Labels.Rows.row_leb resolve
    is_valid_label_name distinct contains list_beq int_beq
third_inserted = refl

remove-insert_example : remove with_third "u" ≡ ok first
remove-insert_example =
    remove-insert first first-IsValid "u" integral third refl 1 (omega arith) third_inserted

abbrev appended : Labels
appended = record {
  names = "s" ∷ "t" ∷ "u" ∷ [];
  values = (pos 0 ∷ pos 1 ∷ pos 8 ∷ []) ∷ (pos 1 ∷ pos 1 ∷ pos 9 ∷ []) ∷ [];
  is_view = false;
}

third_at_end : append first "u" (array_1d integral third) ≡ ok appended
unfolding append numpy numpy_insert c_int32 aml_storage.Labels.Rows.row_leb resolve
    is_valid_label_name distinct contains list_beq int_beq
third_at_end = refl

append_position_example :
    (len first ≤ size first)
    × (get_elem? appended.names (len first) ≡ some "u")
    × (size appended ≡ suc (size first))
append_position_example = append_position first first-IsValid "u" integral third refl third_at_end

abbrev renamed : Labels
renamed = record { names = "s" ∷ "u" ∷ []; values = first.values; is_view = false }

renamed_made : rename first "t" "u" ≡ ok renamed
unfolding rename numpy c_int32 aml_storage.Labels.Rows.row_leb is_valid_label_name distinct contains
    list_beq int_beq index_of
renamed_made = refl

rename-rename_example : rename renamed "u" "t" ≡ ok first
rename-rename_example = rename-rename first first-IsValid "t" "u" renamed_made
