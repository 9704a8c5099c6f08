-- ===== src/Tests/Sorting.antt =====
-- A sort without repetitions that behaves as `np.unique` is documented to.
use aml_storage.Prelude.{
  ◌≡◌, refl, true, false, ◌||◌, List, [], ◌∷◌, arith, int_eq, list_eq, ◌==◌, beq_eq, contains,
  distinct, if◌then◌else◌,
}
use aml_storage.Labels.Rows.{Row, row_leb, row_leb_total}
use aml_storage.Operations.UniqueMetadata.{is_sorted, Unique}

abbrev insert_sorted : Row → List Row → List Row
insert_sorted r [] = r ∷ []
insert_sorted r (s ∷ rows) =
    let rest = insert_sorted r rows in if row_leb r s then r ∷ s ∷ rows else s ∷ rest

abbrev pub sorted_once : List Row → List Row
sorted_once [] = []
sorted_once (r ∷ rows) =
    let rest = sorted_once rows in if contains rest r then rest else insert_sorted r rest

contains-insert_sorted :
    (r : Row) (rows : List Row) (x : Row)
    → contains (insert_sorted r rows) x ≡ ((x == r) || contains rows x)
unfolding contains
contains-insert_sorted r [] x = refl
contains-insert_sorted r (s ∷ rows) x = ground (arith, contains-insert_sorted r rows x)

distinct-insert_sorted :
    (r : Row) (rows : List Row)
    → distinct rows ≡ true
    → contains rows r ≡ false
    → distinct (insert_sorted r rows) ≡ true
unfolding distinct contains
distinct-insert_sorted r [] d new = refl
distinct-insert_sorted r (s ∷ rows) d new = ground (
  arith,
  distinct-insert_sorted r rows,
  contains-insert_sorted r rows s,
  beq_eq s r,
  list_eq.beq_iff r s,
)

is_sorted-insert_sorted :
    (r : Row) (rows : List Row) → is_sorted rows ≡ true → is_sorted (insert_sorted r rows) ≡ true
is_sorted-insert_sorted r [] h = refl
is_sorted-insert_sorted r (s ∷ []) h = ground (arith, row_leb_total r s)
is_sorted-insert_sorted r (s ∷ t ∷ rows) h =
    ground (arith, row_leb_total r s, is_sorted-insert_sorted r (t ∷ rows))

pub contains-sorted_once :
    (rows : List Row) (x : Row) → contains (sorted_once rows) x ≡ contains rows x
unfolding contains
contains-sorted_once [] x = refl
contains-sorted_once (r ∷ rows) x =
    ground (
      arith,
      contains-sorted_once rows x,
      contains-insert_sorted r (sorted_once rows) x,
      beq_eq x r,
    )

pub distinct-sorted_once : (rows : List Row) → distinct (sorted_once rows) ≡ true
unfolding distinct
distinct-sorted_once [] = refl
distinct-sorted_once (r ∷ rows) =
    ground (arith, distinct-sorted_once rows, distinct-insert_sorted r (sorted_once rows))

pub is_sorted-sorted_once : (rows : List Row) → is_sorted (sorted_once rows) ≡ true
is_sorted-sorted_once [] = refl
is_sorted-sorted_once (r ∷ rows) =
    ground (arith, is_sorted-sorted_once rows, is_sorted-insert_sorted r (sorted_once rows))

instance abbrev pub unique : Unique
unique = record {
  unique = sorted_once;
  contains-unique = contains-sorted_once;
  distinct-unique = distinct-sorted_once;
  is_sorted-unique = is_sorted-sorted_once;
}
