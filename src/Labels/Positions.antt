-- ===== src/Labels/Positions.antt =====
-- `Labels.position` and `in`: what they return for labels that satisfy the invariant.
use aml_storage.Prelude.{
  ℕ, ◌≡◌, refl, sym, ap, ap₂, ◌∙◌, ◌↔◌, true, false, some, [], ◌∷◌, map, arith, length, is_empty,
  all, get_elem?, nat_beq_iff, int_eq, list_eq, contains, contains-index_of, index_of,
  index_of_unique, is_int32, c_int32, c_int32_self, and_true,
}
use aml_storage.Result.{ok, ok_injective}
use aml_storage.Labels.Rows.{Row}
use aml_storage.Labels.Core.{Labels, position, contains_entry}
use aml_storage.Labels.Valid.{IsValid}

pub map-c_int32 : (entry : Row) → all is_int32 entry ≡ true → map c_int32 entry ≡ entry
map-c_int32 [] h = refl
map-c_int32 (v ∷ entry) h =
    let (a, b) = and_true (is_int32 v) _ h in
    ap₂ (λ x xs. x ∷ xs) (c_int32_self v a) (map-c_int32 entry b)

module _ (l : Labels) (valid : IsValid l) (entry : Row) (fits : all is_int32 entry ≡ true)
    (sized : length entry ≡ length l.names) (some_value : is_empty entry ≡ false) where
  position-index_of : position l entry ≡ ok (index_of l.values entry)
  unfolding position
  position-index_of =
      rw (valid.owned, map-c_int32 entry fits, (nat_beq_iff _ _).1 sized, some_value)

  -- For valid labels and a non-empty entry of 32-bit values with one value for each name,
  -- `position` returns a position exactly where the row of the labels at that position is the
  -- entry.
  pub position_iff :
      (i : ℕ) → (position l entry ≡ ok (some i)) ↔ (get_elem? l.values i ≡ some entry)
  position_iff i =
      let (to, from) = index_of_unique l.values entry i valid.distinct_rows in
      (λ h. to (ok_injective (sym position-index_of ∙ h)), λ h. position-index_of ∙ ap ok (from h))

  -- For valid labels and a non-empty entry of 32-bit values with one value for each name, `in`
  -- returns, and tells whether the entry is among the rows.
  pub contains_entry-contains : contains_entry l entry ≡ ok (contains l.values entry)
  unfolding contains_entry
  contains_entry-contains =
      rw (valid.owned, map-c_int32 entry fits, (nat_beq_iff _ _).1 sized, some_value)
        (ap ok (ground (arith, contains-index_of l.values entry)))
