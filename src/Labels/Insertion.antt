-- ===== src/Labels/Insertion.antt =====
-- `Labels.insert`, `Labels.append` and `Labels.remove` of labels.py, on labels that satisfy the
-- invariant.
use aml_storage.Prelude.{
  ℕ, suc, ◌-◌, ◌≤◌, ◌<◌, ℤ, pos, String, ◌≡◌, refl, sym, ap, ap₂, ◌∙◌, subst, true, none, some,
  List, [], ◌∷◌, map, arith, length, all, get_elem?, get_elem?-insert_at, insert_at, remove_at,
  remove_at-insert_at, length-insert_at, nat_beq, nat_beq_iff, string_eq, int_eq, list_eq,
  get_elem?-contains, is_int32, and_true, and_intro, all-insert_at,
}
use native.Mathlib.Decide.{dec_le}
use aml_storage.Result.{ok, err, index_error}
use aml_storage.Numpy.{Numpy, array_1d, array_2d, Kind, integral, resolve, insert_column}
use aml_storage.Labels.Names.{sequence}
use aml_storage.Labels.Rows.{Row}
use aml_storage.Labels.Core.{Labels, len, size, create_new_labels, init}
use aml_storage.Labels.Valid.{IsValid, is_rectangular, is_stored, create_new_labels-IsValid}
use aml_storage.Labels.Dimensions.{insert, append, remove, item_or_raise}
use aml_storage.Labels.Editing.{init_stored, init_valid, name_at, map_astype_self}

-- Rows with one more value each.
is_rectangular-insert_column :
    (n i : ℕ) (vs : List ℤ) (rows : List Row)
    → length vs ≡ length rows
    → is_rectangular n rows ≡ true
    → is_rectangular (suc n) (insert_column i vs rows) ≡ true
is_rectangular-insert_column n i [] [] e h = refl
is_rectangular-insert_column n i [] (row ∷ rows) e h = absurd (omega arith)
is_rectangular-insert_column n i (v ∷ vs) [] e h = refl
is_rectangular-insert_column n i (v ∷ vs) (row ∷ rows) e h =
    let (sized, more) = and_true (nat_beq (length row) n) _ h in
    and_intro (nat_beq (length (insert_at i v row)) (suc n)) _
      (ground (arith, length-insert_at i v row))
      (is_rectangular-insert_column n i vs rows (omega arith) more)

is_stored-insert_column :
    (i : ℕ) (vs : List ℤ) (rows : List Row)
    → length vs ≡ length rows
    → all is_int32 vs ≡ true
    → is_stored rows ≡ true
    → is_stored (insert_column i vs rows) ≡ true
is_stored-insert_column i [] [] e f h = refl
is_stored-insert_column i [] (row ∷ rows) e f h = absurd (omega arith)
is_stored-insert_column i (v ∷ vs) [] e f h = refl
is_stored-insert_column i (v ∷ vs) (row ∷ rows) e f h =
    let (stored, more) = and_true (all is_int32 row) _ h in
    let (fits, others) = and_true (is_int32 v) _ f in
    and_intro (all is_int32 (insert_at i v row)) _
      (all-insert_at is_int32 i v row ∙ and_intro (is_int32 v) _ fits stored)
      (is_stored-insert_column i vs rows (omega arith) others more)

-- Removing the inserted column gives the rows back.
remove-insert_column :
    (n i : ℕ) (vs : List ℤ) (rows : List Row)
    → length vs ≡ length rows
    → i ≤ n
    → is_rectangular n rows ≡ true
    → map (remove_at i) (insert_column i vs rows) ≡ rows
remove-insert_column n i [] [] e lt h = refl
remove-insert_column n i [] (row ∷ rows) e lt h = absurd (omega arith)
remove-insert_column n i (v ∷ vs) [] e lt h = absurd (omega arith)
remove-insert_column n i (v ∷ vs) (row ∷ rows) e lt h =
    let (sized, more) = and_true (nat_beq (length row) n) _ h in
    ap₂ (λ x xs. x ∷ xs) (remove_at-insert_at i v row (ground (arith, nat_beq_iff (length row) n)))
      (remove-insert_column n i vs rows (omega arith) lt more)

remove_named :
    ⦃np : Numpy⦄ (m : Labels) (valid : IsValid m) (i : ℕ) (name : String)
    → get_elem? m.names i ≡ some name
    → remove m name
      ≡ init
          (sequence (remove_at i m.names))
          (array_2d integral (size m - 1) (np.delete m.values i))
unfolding remove
remove_named m valid i name at =
    rw (get_elem?-contains m.names name i at, name_at m valid i name at)

resolve_in_range : (n i : ℕ) → i ≤ n → resolve n (pos i) ≡ some i
unfolding resolve
resolve_in_range n i h = ground arith

resolve_past_end : (n i : ℕ) → n < i → resolve n (pos i) ≡ none
unfolding resolve
resolve_past_end n i h = ground arith

module _ ⦃np : Numpy⦄ (l : Labels) (valid : IsValid l) (name : String) (kind : Kind) (vs : List ℤ)
    (fits : all is_int32 vs ≡ true) where
  -- A call that returns was given one value for each entry.
  insert_sized :
      (index : ℤ) {m : Labels}
      → insert l index name (array_1d kind vs) ≡ ok m
      → length vs ≡ length l.values
  unfolding insert
  insert_sized index h = ground (arith, nat_beq_iff (length vs) (length l.values))

  -- An insertion in range creates labels from the names and the rows with the new one inserted.
  insert_in_range :
      (i : ℕ)
      → length vs ≡ length l.values
      → i ≤ length l.names
      → insert l (pos i) name (array_1d kind vs)
        ≡ create_new_labels (insert_at i name l.names) (insert_column i vs l.values)
  unfolding insert resolve
  insert_in_range i sized lt =
      rw
        (
          (nat_beq_iff _ _).1 sized,
          np.insert_in_bounds (size l) l.values (pos i) vs i sized (resolve_in_range _ i lt),
          item_or_raise,
          map_astype_self vs fits,
        )
        (init_stored (insert_at i name l.names) (suc (size l)) (insert_column i vs l.values)
          (sym (length-insert_at i name l.names))
          (is_stored-insert_column i vs l.values sized fits valid.stored))

  -- What an insertion in range that returns has made.
  insert_result :
      (i : ℕ) {m : Labels}
      → i ≤ length l.names
      → insert l (pos i) name (array_1d kind vs) ≡ ok m
      → IsValid m × (m.names ≡ insert_at i name l.names) × (m.values ≡ insert_column i vs l.values)
  insert_result i lt h =
      let sized = insert_sized (pos i) h in
      create_new_labels-IsValid (insert_at i name l.names) (insert_column i vs l.values)
        (subst (λ n. is_rectangular n (insert_column i vs l.values) ≡ true)
          (sym (length-insert_at i name l.names))
          (is_rectangular-insert_column (size l) i vs l.values sized valid.rectangular))
        (is_stored-insert_column i vs l.values sized fits valid.stored)
        (sym (insert_in_range i sized lt) ∙ h)

  -- Where the insertion in valid labels of a dimension of 32-bit values, at a position in range,
  -- returns, removing the dimension from the result returns the labels that there were.
  pub remove-insert :
      (i : ℕ) {m : Labels}
      → i ≤ length l.names
      → insert l (pos i) name (array_1d kind vs) ≡ ok m
      → remove m name ≡ ok l
  remove-insert i {m} lt h =
      let (m_valid, names, values) = insert_result i lt h in
      let at : get_elem? m.names i ≡ some name =
        ap (λ ns. get_elem? ns i) names ∙ get_elem?-insert_at i name l.names lt in
      let kept : remove_at i m.names ≡ l.names =
        ap (remove_at i) names ∙ remove_at-insert_at i name l.names lt in
      let rows : np.delete m.values i ≡ l.values =
        np.delete_lem m.values i
        ∙ ap (map (remove_at i)) values
        ∙ remove-insert_column (size l) i vs l.values (insert_sized (pos i) h) lt
            valid.rectangular in
      remove_named m m_valid i name at
      ∙ ap₂ (λ ns rs. init (sequence ns) (array_2d integral (size m - 1) rs)) kept rows
      ∙ init_valid l valid (size m - 1)
          (omega (arith, ap length names, length-insert_at {0} i name l.names))

  insert_past_end :
      (i : ℕ)
      → length vs ≡ length l.values
      → length l.names < i
      → insert l (pos i) name (array_1d kind vs) ≡ err index_error
  unfolding insert
  insert_past_end i sized lt = rw (
    (nat_beq_iff _ _).1 sized,
    np.insert_out_of_bounds (size l) l.values (pos i) vs (resolve_past_end _ i lt),
    item_or_raise,
  )

  -- For valid labels with more entries than dimensions, `append` with one 32-bit value for each
  -- entry fails with an IndexError.
  pub append_past_end :
      (len l ≤ size l → ⊥) → length vs ≡ len l → append l name (array_1d kind vs) ≡ err index_error
  unfolding append
  append_past_end more sized = insert_past_end (len l) sized (omega arith)

  -- Where `append` of 32-bit values to valid labels returns, there are no more entries than there
  -- were dimensions, and the new name stands at the position given by the number of entries, which
  -- is the last one only where the two numbers agree.
  pub append_position :
      {m : Labels}
      → append l name (array_1d kind vs) ≡ ok m
      → (len l ≤ size l) × (get_elem? m.names (len l) ≡ some name) × (size m ≡ suc (size l))
  unfolding append
  append_position h = elim (dec_le (len l) (size l)) [
    | yes lt ↦
        let (m_valid, names, values) = insert_result (len l) lt h in
        (
          lt,
          ap (λ ns. get_elem? ns (len l)) names ∙ get_elem?-insert_at (len l) name l.names lt,
          ap length names ∙ length-insert_at (len l) name l.names,
        )
    | no past ↦ absurd (ground (arith, insert_past_end (len l) (insert_sized (pos (len l)) h)))
  ]
