-- ===== src/Operations/UniqueRows.antt =====
-- What unique_metadata.py finds: valid labels with the entries of the dimensions in all the blocks.
use aml_storage.Prelude.{
  ℕ, zero, suc, fun_ext, Bool-cases, inl, inr, String, ◌≡◌, refl, sym, ap, ap₂, ◌∙◌, Bool, true,
  false, Option, none, some, List, [], ◌∷◌, ◌++◌, map, arith, length, is_empty, all, nat_beq,
  nat_beq_iff, pos, get_or, string_eq, int_eq, list_eq, contains, distinct, index_of,
  index_of-contains, beq_refl, contains-all, all-append, length-map, is_int32, ◌==◌, if◌then◌else◌,
  and_true, and_intro,
}
use mathlib.Core.List.{append-nil}
use aml_storage.Result.{ok, map_m, map_m_cons}
use aml_storage.Numpy.{Numpy}
use aml_storage.Labels.Names.{sequence, is_valid_label_name}
use aml_storage.Labels.Rows.{Row}
use aml_storage.Labels.Core.{Labels}
use aml_storage.Labels.Dimensions.{view, name_index}
use aml_storage.Labels.Valid.{IsValid, is_rectangular, is_stored, create_new_labels_lem}
use aml_storage.Labels.Editing.{init_stored}
use aml_storage.Labels.Selection.{value_of}
use aml_storage.Block.Core.{TensorBlock, samples, properties}
use aml_storage.Operations.Dispatch.{concatenate}
use aml_storage.Operations.UniqueMetadata.{is_sorted, Unique, viewed, unique_from_blocks}

-- The values of an entry in the dimensions.
abbrev pub values_in : List String → Labels → Row → Row
values_in names l row = map (value_of l.names row) names

module _ (l : Labels) where
  indices_lem :
      (names : List String)
      → all (contains l.names) names ≡ true
      → (indices : List ℕ) × (map_m (name_index l.names) names ≡ ok indices)
        × ((row : Row) → map (λ i. get_or row i (pos 0)) indices ≡ values_in names l row)
  unfolding map_m name_index
  indices_lem [] known = ([], refl, λ row. refl)
  indices_lem (name ∷ names) known =
      let (here, others) = and_true (contains l.names name) _ known in
      let (i, at) = index_of-contains l.names name here in
      let (indices, found, same) = indices_lem names others in
      (
        i ∷ indices,
        map_m_cons (name_index l.names) name names (rw (at, name_index) refl) found,
        λ row. ap₂ (λ v vs. v ∷ vs) (rw (at, value_of) refl) (same row),
      )

  view_lem :
      (names : List String)
      → all (contains l.names) names ≡ true
      → view l (sequence names)
        ≡ ok (record { names = names; values = map (values_in names l) l.values; is_view = true })
  unfolding view
  view_lem names known =
      let (indices, found, same) = indices_lem names known in
      rw found (
        ap (λ f. ok (record { names = names; values = map f l.values; is_view = true }))
          (fun_ext same))

-- The labels of a block along the axis.
abbrev pub along : {A : Type 0} → String → TensorBlock A → Labels
along axis b = if axis == "samples" then samples b else properties b

-- The lists one after the other.
abbrev pub joined : List (List Row) → List Row
joined [] = []
joined (rows ∷ others) = rows ++ joined others

concatenate-joined :
    (rows : List Row) (others : List (List Row))
    → concatenate (rows ∷ others) ≡ ok (joined (rows ∷ others))
unfolding concatenate
concatenate-joined rows [] = ap ok (sym (append-nil rows))
concatenate-joined rows (next ∷ others) = rw (concatenate-joined next others) refl

-- A property of all values that a row may take from labels.
int32_get_or :
    (row : Row) (i : ℕ) → all is_int32 row ≡ true → is_int32 (get_or row i (pos 0)) ≡ true
int32_get_or [] i h = refl
int32_get_or (v ∷ row) zero h = (and_true (is_int32 v) _ h).0
int32_get_or (v ∷ row) (suc i) h = int32_get_or row i (and_true (is_int32 v) _ h).1

stored_value :
    (row : Row) (found : Option ℕ)
    → all is_int32 row ≡ true
    → is_int32 (elim found [ none ↦ pos 0 | some i ↦ get_or row i (pos 0) ]) ≡ true
stored_value row none h = refl
stored_value row (some i) h = int32_get_or row i h

stored-values_in :
    (names : List String) (l : Labels) (row : Row)
    → all is_int32 row ≡ true
    → all is_int32 (values_in names l row) ≡ true
stored-values_in [] l row h = refl
stored-values_in (name ∷ names) l row h =
    and_intro (is_int32 (value_of l.names row name)) _ (stored_value row (index_of l.names name) h)
      (stored-values_in names l row h)

-- Rows that are all among rows with a property have the property.
all-contained :
    (p : Row → Bool) (rows others : List Row)
    → all p others ≡ true
    → ((row : Row) → contains rows row ≡ true → contains others row ≡ true)
    → all p rows ≡ true
unfolding contains
all-contained p [] others h among = refl
all-contained p (row ∷ rows) others h among =
    and_intro (p row) _ (contains-all p others row h (among row (ground (arith, beq_refl row))))
      (all-contained p rows others h (λ r known. among r (ground arith)))

entries_facts :
    (names : List String) (l : Labels) (rows : List Row)
    → is_stored rows ≡ true
    → (is_stored (map (values_in names l) rows) ≡ true)
      × (is_rectangular (length names) (map (values_in names l) rows) ≡ true)
entries_facts names l [] h = (refl, refl)
entries_facts names l (row ∷ rows) h =
    let (here, others) = and_true (all is_int32 row) _ h in
    let (stored, sized) = entries_facts names l rows others in
    (
      and_intro (all is_int32 (values_in names l row)) _ (stored-values_in names l row here) stored,
      and_intro (nat_beq (length (values_in names l row)) (length names)) _
          ((nat_beq_iff _ _).1 (length-map (value_of l.names row) names)) sized,
    )

module _ {A : Type 0} (axis : String) (names : List String) where
  -- The entries of the dimensions in a block.
  abbrev pub entries : TensorBlock A → List Row
  entries b = map (values_in names (along axis b)) (along axis b).values

  viewed_lem :
      (b : TensorBlock A)
      → all (contains (along axis b).names) names ≡ true
      → viewed axis names b ≡ ok (map (values_in names (along axis b)) (along axis b).values)
  unfolding viewed
  viewed_lem b known = elim (Bool-cases (axis == "samples")) [
    | inl yes' ↦ rw yes' (rw (view_lem (samples b) names (rw yes' at known)) refl)
    | inr no' ↦ rw no' (rw (view_lem (properties b) names (rw no' at known)) refl)
  ]

  -- Each name is one of each block's labels.
  abbrev pub are_known : List (TensorBlock A) → Bool
  are_known blocks = all (λ b. all (contains (along axis b).names) names) blocks

  viewed_blocks :
      (blocks : List (TensorBlock A))
      → are_known blocks ≡ true
      → map_m (viewed axis names) blocks ≡ ok (map entries blocks)
  unfolding map_m
  viewed_blocks [] known = refl
  viewed_blocks (b ∷ blocks) known =
      let (here, others) = and_true (all (contains (along axis b).names) names) _ known in
      map_m_cons (viewed axis names) b blocks (viewed_lem b here) (viewed_blocks blocks others)

  gathered :
      (blocks : List (TensorBlock A))
      → is_empty blocks ≡ false
      → concatenate (map entries blocks) ≡ ok (joined (map entries blocks))
  gathered [] h = absurd (ground arith)
  gathered (b ∷ blocks) h = concatenate-joined (entries b) (map entries blocks)

  joined_facts :
      (blocks : List (TensorBlock A))
      → all (λ b. is_stored (along axis b).values) blocks ≡ true
      → (is_stored (joined (map entries blocks)) ≡ true)
        × (is_rectangular (length names) (joined (map entries blocks)) ≡ true)
  joined_facts [] h = (refl, refl)
  joined_facts (b ∷ blocks) h =
      let (here, others) = and_true (is_stored (along axis b).values) _ h in
      let (stored, sized) = entries_facts names (along axis b) (along axis b).values here in
      let (stored', sized') = joined_facts blocks others in
      (
        rw (all-append (all is_int32) (entries b) (joined (map entries blocks)), stored) stored',
        rw
            (
              all-append (λ r. nat_beq (length r) (length names)) (entries b)
                  (joined (map entries blocks)),
              sized,
            )
            sized',
      )

  -- For at least one block, whose labels along the axis hold 32-bit values, and valid different names, at least one, that
  -- are all names of the labels of each block, the call always returns labels with these names that
  -- satisfy the invariant; their entries are sorted, and exactly the entries of the blocks in
  -- these dimensions.
  pub unique_from_blocks-entries :
      ⦃np : Numpy⦄ ⦃unique : Unique⦄ (blocks : List (TensorBlock A))
      → is_empty blocks ≡ false
      → all (λ b. is_stored (along axis b).values) blocks ≡ true
      → are_known blocks ≡ true
      → all is_valid_label_name names ≡ true
      → distinct names ≡ true
      → is_empty names ≡ false
      → (l : Labels) × (unique_from_blocks blocks axis names ≡ ok l)
        × IsValid l
        × (l.names ≡ names)
        × (is_sorted l.values ≡ true)
        × ((row : Row) → contains l.values row ≡ contains (joined (map entries blocks)) row)
  unfolding unique_from_blocks
  unique_from_blocks-entries ⦃np⦄ ⦃unique⦄ blocks some_block stored known valid apart some_name =
      let rows = joined (map entries blocks) in
      let found = unique.unique rows in
      let (rows_stored, rows_sized) = joined_facts blocks stored in
      let among : (row : Row) → contains found row ≡ true → contains rows row ≡ true =
        λ row h. sym (unique.contains-unique rows row) ∙ h in
      let found_stored = all-contained (all is_int32) found rows rows_stored among in
      let found_sized =
        all-contained (λ r. nat_beq (length r) (length names)) found rows rows_sized among in
      let l : Labels = record { names = names; values = found; is_view = false } in
      (
        l,
        rw (viewed_blocks blocks known, gathered blocks some_block)
            (init_stored names (length names) found refl found_stored
              ∙ create_new_labels_lem names found
              ∙ rw (valid, apart, unique.distinct-unique rows, some_name) refl),
        record {
          owned = refl;
          valid_names = valid;
          distinct_names = apart;
          rectangular = found_sized;
          stored = found_stored;
          distinct_rows = unique.distinct-unique rows;
          no_hidden_rows = ground arith;
        },
        refl,
        unique.is_sorted-unique rows,
        unique.contains-unique rows,
      )
