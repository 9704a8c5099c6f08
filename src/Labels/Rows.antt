-- ===== src/Labels/Rows.antt =====
-- The check of labels.rs that the entries of a set of labels are unique: sort the rows, then
-- compare each with the next.
use aml_storage.Prelude.{
  ℤ, pos, negsuc, ◌≡◌, refl, Bool, true, false, ◌&&◌, ◌||◌, not, List, [], ◌∷◌, arith, int_ltb,
  if◌then◌else◌, all, ◌==◌, int_eq, list_eq, contains, distinct, list_beq_iff, ap, ◌∙◌,
  contains-all,
}

abbrev pub Row : Type 0
Row = List ℤ

-- `<=` of two slices: lexicographic, a proper prefix first.
unfoldable pub row_leb : Row → Row → Bool
row_leb [] ys = true
row_leb (x ∷ xs) [] = false
row_leb (x ∷ xs) (y ∷ ys) =
    if int_ltb x y then true else if int_ltb y x then false else row_leb xs ys

insert_row : Row → List Row → List Row
insert_row r [] = r ∷ []
insert_row r (s ∷ rows) = if row_leb r s then r ∷ s ∷ rows else s ∷ insert_row r rows

-- `vec_ref.sort_unstable()`: equal rows cannot be told apart, so any sort gives this list.
unfoldable pub sort_rows : List Row → List Row
unfolding insert_row
sort_rows [] = []
sort_rows (r ∷ rows) = insert_row r (sort_rows rows)

-- `vec_ref.windows(2).position(|w| w[0] == w[1])` finds something.
unfoldable pub has_identical_neighbours : List Row → Bool
has_identical_neighbours [] = false
has_identical_neighbours (r ∷ []) = false
has_identical_neighbours (r ∷ s ∷ rows) = (r == s) || has_identical_neighbours (s ∷ rows)

int_antisym : (x y : ℤ) → int_ltb x y ≡ false → int_ltb y x ≡ false → x ≡ y
int_antisym (pos a) (pos b) h k = ground arith
int_antisym (negsuc a) (negsuc b) h k = ground arith
int_antisym (pos a) (negsuc b) h k = ground arith
int_antisym (negsuc a) (pos b) h k = ground arith

int_ltb_asym : (x y : ℤ) → int_ltb x y ≡ true → int_ltb y x ≡ false
int_ltb_asym (pos a) (pos b) h = ground arith
int_ltb_asym (negsuc a) (negsuc b) h = ground arith
int_ltb_asym (pos a) (negsuc b) h = ground arith
int_ltb_asym (negsuc a) (pos b) h = ground arith

int_ltb_of_lt_le : (x y z : ℤ) → int_ltb x y ≡ true → int_ltb z y ≡ false → int_ltb x z ≡ true
int_ltb_of_lt_le (pos a) (pos b) (pos c) h k = ground arith
int_ltb_of_lt_le _ _ _ h k = ground arith

int_ltb_of_le_lt : (x y z : ℤ) → int_ltb y x ≡ false → int_ltb y z ≡ true → int_ltb x z ≡ true
int_ltb_of_le_lt (pos a) (pos b) (pos c) h k = ground arith
int_ltb_of_le_lt _ _ _ h k = ground arith

pub row_leb_total : (r s : Row) → row_leb r s ≡ false → row_leb s r ≡ true
unfolding row_leb
row_leb_total [] s h = absurd (ground arith)
row_leb_total (x ∷ xs) [] h = refl
row_leb_total (x ∷ xs) (y ∷ ys) h = ground (arith, row_leb_total xs ys)

row_leb_antisym : (r s : Row) → row_leb r s ≡ true → row_leb s r ≡ true → r ≡ s
unfolding row_leb
row_leb_antisym [] [] h k = refl
row_leb_antisym [] (y ∷ ys) h k = absurd (ground arith)
row_leb_antisym (x ∷ xs) [] h k = absurd (ground arith)
row_leb_antisym (x ∷ xs) (y ∷ ys) h k = ground (arith, row_leb_antisym xs ys, int_antisym x y)

row_leb_trans : (r s t : Row) → row_leb r s ≡ true → row_leb s t ≡ true → row_leb r t ≡ true
unfolding row_leb
row_leb_trans [] s t h k = refl
row_leb_trans (x ∷ xs) [] t h k = absurd (ground arith)
row_leb_trans (x ∷ xs) (y ∷ ys) [] h k = absurd (ground arith)
row_leb_trans (x ∷ xs) (y ∷ ys) (z ∷ zs) h k = ground (
  arith,
  row_leb_trans xs ys zs,
  int_antisym x y,
  int_antisym y z,
  int_ltb_asym x y,
  int_ltb_asym y z,
  int_ltb_of_lt_le x y z,
  int_ltb_of_le_lt x y z,
)

-- Each row is at most all that follow it.
is_sorted : List Row → Bool
is_sorted [] = true
is_sorted (r ∷ rows) = all (row_leb r) rows && is_sorted rows

all-insert_row :
    (p : Row → Bool) (r : Row) (rows : List Row) → all p (insert_row r rows) ≡ (p r && all p rows)
unfolding insert_row
all-insert_row p r [] = refl
all-insert_row p r (s ∷ rows) = ground (arith, all-insert_row p r rows)

all-row_leb_trans :
    (r s : Row) (rows : List Row)
    → row_leb r s ≡ true
    → all (row_leb s) rows ≡ true
    → all (row_leb r) rows ≡ true
all-row_leb_trans r s [] h k = refl
all-row_leb_trans r s (t ∷ rows) h k =
    ground (arith, row_leb_trans r s t, all-row_leb_trans r s rows)

insert_row-is_sorted :
    (r : Row) (rows : List Row) → is_sorted rows ≡ true → is_sorted (insert_row r rows) ≡ true
unfolding insert_row is_sorted
insert_row-is_sorted r [] h = refl
insert_row-is_sorted r (s ∷ rows) h = ground (
  arith,
  insert_row-is_sorted r rows,
  all-insert_row (row_leb s) r rows,
  row_leb_total r s,
  all-row_leb_trans r s rows,
)

sort_rows-is_sorted : (rows : List Row) → is_sorted (sort_rows rows) ≡ true
unfolding sort_rows is_sorted
sort_rows-is_sorted [] = refl
sort_rows-is_sorted (r ∷ rows) = insert_row-is_sorted r (sort_rows rows) (sort_rows-is_sorted rows)

contains-insert_row :
    (r : Row) (rows : List Row) (s : Row)
    → contains (insert_row r rows) s ≡ (s == r || contains rows s)
unfolding insert_row contains
contains-insert_row r [] s = refl
contains-insert_row r (t ∷ rows) s = ground (arith, contains-insert_row r rows s)

distinct-insert_row :
    (r : Row) (rows : List Row)
    → distinct (insert_row r rows) ≡ (not (contains rows r) && distinct rows)
unfolding insert_row contains distinct
distinct-insert_row r [] = refl
distinct-insert_row r (t ∷ rows) = ground (
  arith,
  distinct-insert_row r rows,
  contains-insert_row r rows t,
  list_beq_iff r t,
  list_beq_iff t r,
)

contains-sort_rows : (rows : List Row) (s : Row) → contains (sort_rows rows) s ≡ contains rows s
unfolding sort_rows contains
contains-sort_rows [] s = refl
contains-sort_rows (r ∷ rows) s =
    ground (arith, contains-insert_row r (sort_rows rows) s, contains-sort_rows rows s)

distinct-sort_rows : (rows : List Row) → distinct (sort_rows rows) ≡ distinct rows
unfolding sort_rows distinct
distinct-sort_rows [] = refl
distinct-sort_rows (r ∷ rows) = ground (
  arith,
  distinct-insert_row r (sort_rows rows),
  contains-sort_rows rows r,
  distinct-sort_rows rows,
)

-- In a sorted list the copies of a row are neighbours.
neighbours_of_sorted :
    (rows : List Row) → is_sorted rows ≡ true → has_identical_neighbours rows ≡ not (distinct rows)
unfolding has_identical_neighbours is_sorted distinct contains
neighbours_of_sorted [] h = refl
neighbours_of_sorted (r ∷ []) h = refl
neighbours_of_sorted (r ∷ s ∷ rows) h = ground (
  arith,
  neighbours_of_sorted (s ∷ rows),
  contains-all (row_leb s) rows r,
  row_leb_antisym r s,
  list_beq_iff r s,
)

-- The check for duplicates of the native library, which sorts the rows and compares neighbours,
-- finds one exactly where the rows are not distinct.
pub has_identical_neighbours-sort_rows :
    (rows : List Row) → has_identical_neighbours (sort_rows rows) ≡ not (distinct rows)
has_identical_neighbours-sort_rows rows =
    neighbours_of_sorted (sort_rows rows) (sort_rows-is_sorted rows)
    ∙ ap not (distinct-sort_rows rows)
