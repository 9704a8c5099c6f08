-- ===== src/Operations/SameBlocks.antt =====
-- _utils.py and equal_metadata.py: equal labels, and the checks on a block and itself.
use aml_storage.Prelude.{
  String, ◌≡◌, refl, ap, ap₂, ◌∙◌, Bool, true, false, ◌&&◌, not, Bool-cases, none, some, inl, inr,
  List, [], ◌∷◌, arith, length, is_empty, all, nat_beq, nat_beq_iff, ◌==◌, nat_eq, int_eq,
  string_eq, list_eq, contains, all-contains, contains-all, is_int32, and_true,
}
use aml_storage.Result.{ok, map_m}
use aml_storage.Labels.Rows.{Row}
use aml_storage.Labels.Core.{Labels, equal, contains_entry}
use aml_storage.Labels.Equality.{equal_refl, equal_eq}
use aml_storage.Labels.Valid.{IsValid}
use aml_storage.Labels.Positions.{contains_entry-contains}
use aml_storage.Block.Core.{
  TensorBlock, Gradients, no_gradient, gradient, gradients, parameters, samples, components,
  properties, gradients_list, find_gradient, or_metatensor_error,
}
use aml_storage.Operations.Metadata.{
  word, zip_equal, check_parts, check_gradients, equal_metadata_block_impl,
}

pub zip_equal_refl : (cs : List Labels) → zip_equal cs cs ≡ true
unfolding zip_equal
zip_equal_refl [] = refl
zip_equal_refl (c ∷ cs) = ground (arith, equal_refl c, zip_equal_refl cs)

pub zip_equal_eq :
    (cs ds : List Labels)
    → length cs ≡ length ds
    → all (λ c. not c.is_view) cs ≡ true
    → all (λ d. not d.is_view) ds ≡ true
    → zip_equal cs ds ≡ true
    → cs ≡ ds
unfolding zip_equal
zip_equal_eq [] [] n a b h = refl
zip_equal_eq [] (d ∷ ds) n a b h = absurd (omega arith)
zip_equal_eq (c ∷ cs) [] n a b h = absurd (omega arith)
zip_equal_eq (c ∷ cs) (d ∷ ds) n a b h =
    ap₂ (λ x xs. x ∷ xs) (equal_eq c d (ground arith) (ground arith) (ground arith))
      (zip_equal_eq cs ds (omega arith) (ground arith) (ground arith) (ground arith))

-- All the labels of two blocks are the same.
abbrev pub all_equal : {A : Type 0} → TensorBlock A → TensorBlock A → Bool
all_equal a b =
    equal (samples a) (samples b)
    && (nat_beq (length (components a)) (length (components b))
        && zip_equal (components a) (components b))
    && equal (properties a) (properties b)

filled :
    (row : Row) (names : List String)
    → length row ≡ length names
    → is_empty names ≡ false
    → is_empty row ≡ false
filled [] [] n h = h
filled [] (name ∷ names) n h = absurd (omega arith)
filled (v ∷ row) names n h = refl

-- Each parameter of a block has its gradient.
pub find_gradient_known :
    {A : Type 0} (p : String) (g : Gradients A)
    → contains (parameters g) p ≡ true
    → (b : TensorBlock A) × (find_gradient p g ≡ some b)
unfolding find_gradient contains
find_gradient_known p no_gradient h = absurd (ground arith)
find_gradient_known p (gradient q b rest) h = elim (Bool-cases (q == p)) [
  | inl here ↦ (b, rw here refl)
  | inr later ↦
      let (c, found) =
        find_gradient_known p rest (ground (arith, string_eq.beq_iff p q, string_eq.beq_iff q p)) in
      (c, rw later found)
]

module _ {A : Type 0} (b : TensorBlock A) where
  check_all_parts : check_parts ("samples" ∷ "components" ∷ "properties" ∷ []) b b ≡ ok none
  unfolding check_parts
  check_all_parts = ground (
    arith,
    equal_refl (samples b),
    equal_refl (properties b),
    zip_equal_refl (components b),
    nat_beq_iff (length (components b)) (length (components b)),
  )

module _ {A : Type 0} (b : TensorBlock A) where
  check_all_gradients :
      (rest : List String)
      → all (contains (gradients_list b)) rest ≡ true
      → check_gradients ("samples" ∷ "components" ∷ "properties" ∷ []) rest b b ≡ ok none
  unfolding check_gradients
  check_all_gradients [] h = refl
  check_all_gradients (p ∷ rest) h =
      let (known, others) = and_true (contains (gradients_list b) p) _ h in
      let (g, found) = find_gradient_known p (gradients b) known in
      rw (found, or_metatensor_error, check_all_parts g) (check_all_gradients rest others)

  pub check_block_itself : equal_metadata_block_impl b b (word "all") ≡ ok none
  unfolding equal_metadata_block_impl
  check_block_itself =
      let known = all-contains (gradients_list b) (gradients_list b) (λ p m. m) in
      rw
        (
          check_all_parts b,
          known,
          (nat_beq_iff (length (gradients_list b)) (length (gradients_list b))).1 refl,
        )
        (check_all_gradients (gradients_list b) known)

module _ (l : Labels) (valid : IsValid l) (named : is_empty l.names ≡ false) where
  row_found : (row : Row) → contains l.values row ≡ true → contains_entry l row ≡ ok true
  row_found row m =
      let fits = contains-all (all is_int32) l.values row valid.stored m in
      let sized = (nat_beq_iff (length row) (length l.names)).0 (
        contains-all (λ r. nat_beq (length r) (length l.names)) l.values row valid.rectangular m) in
      contains_entry-contains l valid row fits sized (filled row l.names sized named) ∙ ap ok m

  pub rows_found :
      (rows : List Row)
      → all (contains l.values) rows ≡ true
      → (present : List Bool) × (map_m (contains_entry l) rows ≡ ok present)
        × (all (λ p. p) present ≡ true)
  unfolding map_m
  rows_found [] h = ([], refl, refl)
  rows_found (row ∷ rows) h =
      let (known, others) = and_true (contains l.values row) _ h in
      let (present, found, every) = rows_found rows others in
      (true ∷ present, ground (arith, row_found row known), every)
