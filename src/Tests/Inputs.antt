-- ===== src/Tests/Inputs.antt =====
-- A NumPy that behaves as documented, an array type, and labels that the tests share.
use aml_storage.Prelude.{
  ℕ, ℤ, pos, ◌≡◌, refl, true, false, Option, none, some, List, [], ◌∷◌, map, is_int32, c_int32,
  c_int32_self, is_int32-c_int32, if◌then◌else◌, remove_at, contains, distinct, list_beq, int_beq,
}
use aml_storage.Numpy.{Numpy, resolve, insert_column}
use aml_storage.Labels.Names.{is_valid_label_name}
use aml_storage.Labels.Core.{Labels}
use aml_storage.Labels.Valid.{IsValid}
use aml_storage.Block.Core.{Arrays}

unfoldable pub numpy_int32 : ℤ → Option ℤ
numpy_int32 v = if is_int32 v then some v else none

pub int32_self : (v : ℤ) → is_int32 v ≡ true → numpy_int32 v ≡ some v
unfolding numpy_int32
int32_self v h = rw h

unfoldable pub numpy_insert : ℕ → List (List ℤ) → ℤ → List ℤ → Option (List (List ℤ))
unfolding resolve c_int32
numpy_insert n rows index column = elim (resolve n index) [
  | none ↦ none
  | some i ↦ some (insert_column i (map c_int32 column) rows)
]

pub insert_found :
    (n : ℕ) (rows : List (List ℤ)) (index : ℤ) (column : List ℤ) (i : ℕ)
    → resolve n index ≡ some i
    → numpy_insert n rows index column ≡ some (insert_column i (map c_int32 column) rows)
unfolding numpy_insert
insert_found n rows index column i h = rw (h, numpy_insert)

pub insert_outside :
    (n : ℕ) (rows : List (List ℤ)) (index : ℤ) (column : List ℤ)
    → resolve n index ≡ none
    → numpy_insert n rows index column ≡ none
unfolding numpy_insert
insert_outside n rows index column h = rw (h, numpy_insert)

instance unfoldable pub numpy : Numpy
unfolding c_int32 numpy_int32 numpy_insert
numpy = record {
  astype_int32 = c_int32;
  astype_int32_self = c_int32_self;
  is_int32-astype_int32 = is_int32-c_int32;
  int32 = numpy_int32;
  int32_self = int32_self;
  insert = numpy_insert;
  insert_in_bounds = λ n rows index column i sized h. insert_found n rows index column i h;
  insert_out_of_bounds = insert_outside;
  delete = λ rows i. map (remove_at i) rows;
  delete_lem = λ rows i. refl;
}

-- An array of which only the shape and the element type are kept.
pub record Shaped : Type 0 where
  pub shape : List ℕ
  pub dtype : ℕ

instance abbrev pub shaped : Arrays Shaped
shaped = record {
  shape = λ a. a.shape;
  origin = λ a. 0;
  dtype = λ a. a.dtype;
  device = λ a. 0;
  copy = λ a. a;
}

abbrev pub row : ℕ → ℕ → List ℤ
row a b = pos a ∷ pos b ∷ []

abbrev pub st : List (List ℤ) → Labels
st rows = record { names = "s" ∷ "t" ∷ []; values = rows; is_view = false }

abbrev pub first : Labels
first = st (row 0 1 ∷ row 1 1 ∷ [])

abbrev pub second : Labels
second = st (row 1 1 ∷ row 2 3 ∷ row 5 3 ∷ [])

pub first-IsValid : IsValid first
unfolding is_valid_label_name distinct contains list_beq int_beq
first-IsValid = record {
  owned = refl;
  valid_names = refl;
  distinct_names = refl;
  rectangular = refl;
  stored = refl;
  distinct_rows = refl;
  no_hidden_rows = refl;
}

pub second-IsValid : IsValid second
unfolding is_valid_label_name distinct contains list_beq int_beq
second-IsValid = record {
  owned = refl;
  valid_names = refl;
  distinct_names = refl;
  rectangular = refl;
  stored = refl;
  distinct_rows = refl;
  no_hidden_rows = refl;
}
