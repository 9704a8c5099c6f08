-- ===== src/Labels/Editing.antt =====
-- `Labels.rename` of labels.py, and the creation of labels from the names and rows of others.
use aml_storage.Prelude.{
  ℕ, pos, String, ◌≡◌, refl, sym, ap, ap₂, ◌∙◌, true, some, List, [], ◌∷◌, map, length, all,
  get_elem?, get_elem?-lt, get_or, set, set-set, set_self, length-set, get_elem?-set_self,
  nat_beq_iff, string_eq, int_eq, list_eq, contains, get_elem?-contains, get_elem?-index_of,
  index_of-get_elem?, index_of-contains, is_int32, and_true,
}
use aml_storage.Result.{ok, guard, bind-eq_ok, guard-eq_ok, value_error}
use aml_storage.Numpy.{Numpy, array_2d, integral}
use aml_storage.Labels.Names.{sequence}
use aml_storage.Labels.Rows.{Row}
use aml_storage.Labels.Core.{Labels, size, create_new_labels, init}
use aml_storage.Labels.Valid.{IsValid, is_stored, create_new_labels_lem, create_new_labels-IsValid}
use aml_storage.Labels.Dimensions.{rename, column, name_index}

-- Valid labels are created again from their names and values.
pub create_valid : (l : Labels) → IsValid l → create_new_labels l.names l.values ≡ ok l
create_valid l v =
    create_new_labels_lem l.names l.values
    ∙ rw (v.valid_names, v.distinct_names, v.distinct_rows, v.no_hidden_rows)
        (ap (λ b. ok (record { names = l.names; values = l.values; is_view = b })) (sym v.owned))

module _ ⦃np : Numpy⦄ where
  pub map_astype_self : (row : Row) → all is_int32 row ≡ true → map np.astype_int32 row ≡ row
  map_astype_self [] h = refl
  map_astype_self (v ∷ row) h =
      let (a, b) = and_true (is_int32 v) _ h in
      ap₂ (λ x xs. x ∷ xs) (np.astype_int32_self v a) (map_astype_self row b)

  pub rows_astype_self :
      (rows : List Row) → is_stored rows ≡ true → map (map np.astype_int32) rows ≡ rows
  rows_astype_self [] h = refl
  rows_astype_self (row ∷ rows) h =
      let (a, b) = and_true (all is_int32 row) _ h in
      ap₂ (λ x xs. x ∷ xs) (map_astype_self row a) (rows_astype_self rows b)

  -- With as many columns as names and 32-bit values, the constructor hands the rows on unchanged.
  pub init_stored :
      (names : List String) (n : ℕ) (rows : List Row)
      → n ≡ length names
      → is_stored rows ≡ true
      → init (sequence names) (array_2d integral n rows) ≡ create_new_labels names rows
  unfolding init
  init_stored names n [] h k = refl
  init_stored names n (row ∷ rows) h k =
      rw ((nat_beq_iff _ _).1 (sym h), rows_astype_self (row ∷ rows) k)

  module _ (l : Labels) (valid : IsValid l) where
    -- The only position of a name is where the name stands.
    pub name_at :
        (i : ℕ) (name : String) → get_elem? l.names i ≡ some name → name_index l.names name ≡ ok i
    unfolding name_index
    name_at i name h = rw (get_elem?-index_of l.names name i valid.distinct_names h, name_index)

    pub init_valid :
        (n : ℕ) → n ≡ length l.names → init (sequence l.names) (array_2d integral n l.values) ≡ ok l
    init_valid n h = init_stored l.names n l.values h valid.stored ∙ create_valid l valid

    -- What a call of `rename` that returns has done.
    pub rename_result :
        (old new : String) {m : Labels}
        → rename l old new ≡ ok m
        → (i : ℕ) × (get_elem? l.names i ≡ some old)
          × IsValid m
          × (m.names ≡ set l.names i new)
          × (m.values ≡ l.values)
    unfolding rename
    rename_result old new h =
        let (_, present, h₁) = bind-eq_ok (guard (contains l.names old) value_error) _ h in
        let (i, at) =
          index_of-contains l.names old (guard-eq_ok (contains l.names old) value_error present) in
        let found = index_of-get_elem? l.names old i at in
        let created =
          sym (
            init_stored (set l.names i new) (size l) l.values (sym (length-set l.names i new))
              valid.stored)
          ∙ (rw (at, name_index) at h₁) in
        let (m_valid, names, values) =
          create_new_labels-IsValid (set l.names i new) l.values (rw length-set valid.rectangular)
            valid.stored created in
        (i, found, m_valid, names, values)

-- A rename of the dimension at a known position of valid labels.
rename_at :
    ⦃np : Numpy⦄ (m : Labels) (valid : IsValid m) (i : ℕ) (old new : String)
    → get_elem? m.names i ≡ some old
    → rename m old new ≡ create_new_labels (set m.names i new) m.values
unfolding rename
rename_at m valid i old new at =
    rw (get_elem?-contains m.names old i at, name_at m valid i old at)
      (init_stored (set m.names i new) (size m) m.values (sym (length-set m.names i new))
        valid.stored)

pub column_at :
    (l : Labels) (i : ℕ) (name : String)
    → name_index l.names name ≡ ok i
    → column l name ≡ ok (map (λ row. get_or row i (pos 0)) l.values)
unfolding column
column_at l i name h = rw h

module _ ⦃np : Numpy⦄ (l : Labels) (valid : IsValid l) (old new : String) {m : Labels}
    (renamed : rename l old new ≡ ok m) where
  -- Where the renaming of a dimension of valid labels returns, renaming it back returns the labels
  -- that there were.
  pub rename-rename : rename m new old ≡ ok l
  rename-rename =
      let (i, at, m_valid, names, values) = rename_result l valid old new renamed in
      rename_at m m_valid i new old (
        ap (λ ns. get_elem? ns i) names
        ∙ get_elem?-set_self l.names i new (get_elem?-lt l.names i old at))
      ∙ ap₂ create_new_labels
          (ap (λ ns. set ns i old) names ∙ set-set l.names i new old ∙ set_self l.names i old at)
          values
      ∙ create_valid l valid

  -- Where the renaming of a dimension of valid labels returns, the column with the new name has
  -- the values of the column with the old one.
  pub column-rename : column m new ≡ column l old
  column-rename =
      let (i, at, m_valid, names, values) = rename_result l valid old new renamed in
      let at_new =
        ap (λ ns. get_elem? ns i) names
        ∙ get_elem?-set_self l.names i new (get_elem?-lt l.names i old at) in
      column_at m i new (name_at m m_valid i new at_new)
      ∙ ap (λ rows. ok (map (λ row. get_or row i (pos 0)) rows)) values
      ∙ sym (column_at l i old (name_at l valid i old at))
