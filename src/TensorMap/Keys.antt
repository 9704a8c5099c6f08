-- ===== src/TensorMap/Keys.antt =====
-- `TensorMap.block` of tensor.py, for a selection that is one of the keys.
use aml_storage.Prelude.{
  ℕ, zero, suc, ◌+◌, pos, String, ◌≡◌, refl, ap, ◌∙◌, subst, true, false, ◌&&◌, some, List, [], ◌∷◌,
  map, arith, length, is_empty, all, get_elem?, get_elem?-lt, nat_beq, nat_beq_iff, ◌==◌, int_eq,
  string_eq, list_eq, list_beq, contains, all-contains, contains-all, distinct, distinct_cons,
  list_beq_iff, get_elem?-contains, beq_refl, and_intro, is_int32,
}
use aml_storage.Result.{ok}
use aml_storage.Numpy.{Numpy, array_2d, integral}
use aml_storage.Labels.Names.{sequence}
use aml_storage.Labels.Rows.{Row}
use aml_storage.Labels.Core.{Labels, init}
use aml_storage.Labels.Valid.{IsValid, create_new_labels_lem}
use aml_storage.Labels.Editing.{init_stored}
use aml_storage.Labels.Selection.{value_of_names}
use aml_storage.Block.Core.{TensorBlock}
use aml_storage.TensorMap.Core.{TensorMap, block_by_id}
use aml_storage.TensorMap.Selection.{
  matches, matching_from, blocks_matching, block_of_labels, get_block, by_entry,
}
use aml_storage.TensorMap.Lookup.{agrees, key_value, requested_known}

agrees-list_beq :
    (names rest : List String) (wanted key : Row)
    → length wanted ≡ length rest
    → agrees names rest wanted key ≡ (map (key_value names key) rest == wanted)
unfolding list_beq
agrees-list_beq names [] [] key h = refl
agrees-list_beq names [] (w ∷ wanted) key h = absurd (omega arith)
agrees-list_beq names (name ∷ rest) [] key h = absurd (omega arith)
agrees-list_beq names (name ∷ rest) (w ∷ wanted) key h =
    ap (λ b. (key_value names key name == w) && b)
      (agrees-list_beq names rest wanted key (omega arith))

module _ (ds : List ℕ) (wanted : Row) where
  -- Where only the wanted row matches, and it is not there, nothing matches.
  matching_absent :
      (k : ℕ) (keys : List Row)
      → ((key : Row) → contains keys key ≡ true → matches ds wanted key ≡ (key == wanted))
      → contains keys wanted ≡ false
      → matching_from ds wanted k keys ≡ []
  unfolding matching_from contains
  matching_absent k [] h absent = refl
  matching_absent k (key ∷ keys) h absent =
      let later = matching_absent (suc k) keys (λ key' m. h key' (ground arith)) (ground arith) in
      ground (arith, h key, beq_refl key, later, list_beq_iff key wanted, beq_refl wanted)

  -- Where it is there, in a list with no row twice, its position is the only match.
  matching_unique :
      (k j : ℕ) (keys : List Row)
      → ((key : Row) → contains keys key ≡ true → matches ds wanted key ≡ (key == wanted))
      → distinct keys ≡ true
      → get_elem? keys j ≡ some wanted
      → matching_from ds wanted k keys ≡ (k + j) ∷ []
  unfolding matching_from contains
  matching_unique k j [] h d at = absurd (ground arith)
  matching_unique k zero (key ∷ keys) h d at =
      let e : key ≡ wanted = ground arith in
      let (new, rest) = distinct_cons key keys d in
      let later =
        matching_absent (suc k) keys (λ key' m. h key' (ground arith))
          (subst (λ r. contains keys r ≡ false) e new) in
      ground (arith, h key, beq_refl key, later, list_beq_iff key wanted)
  matching_unique k (suc j) (key ∷ keys) h d at =
      let (new, rest) = distinct_cons key keys d in
      let later = matching_unique (suc k) j keys (λ key' m. h key' (ground arith)) rest at in
      ground (
        arith,
        h key,
        beq_refl key,
        later,
        get_elem?-contains keys wanted j at,
        list_beq_iff key wanted,
      )

module _ ⦃np : Numpy⦄ {A : Type 0} (t : TensorMap A) (valid : IsValid t.keys)
    (named : is_empty t.keys.names ≡ false) (i : ℕ) (key : Row) (b : TensorBlock A)
    (at : get_elem? t.keys.values i ≡ some key) (block_at : get_elem? t.blocks i ≡ some b) where
  key_sized : (row : Row) → contains t.keys.values row ≡ true → length row ≡ length t.keys.names
  key_sized row m = (nat_beq_iff _ _).0 (
      contains-all (λ r. nat_beq (length r) (length t.keys.names)) t.keys.values row
        valid.rectangular m)

  key_contained : contains t.keys.values key ≡ true
  key_contained = get_elem?-contains t.keys.values key i at

  -- Asking for all the dimensions of a key asks for the key.
  agrees_key :
      (row : Row)
      → contains t.keys.values row ≡ true
      → agrees t.keys.names t.keys.names key row ≡ (row == key)
  agrees_key row m =
      agrees-list_beq t.keys.names t.keys.names key row (key_sized key key_contained)
      ∙ ap (λ r. r == key) (value_of_names t.keys.names row valid.distinct_names (key_sized row m))

  abbrev key_labels : Labels
  key_labels = record { names = t.keys.names; values = key ∷ []; is_view = false }

  key_labels_made :
      init (sequence t.keys.names) (array_2d integral (length key) (key ∷ [])) ≡ ok key_labels
  unfolding distinct contains
  key_labels_made =
      init_stored t.keys.names (length key) (key ∷ []) (key_sized key key_contained) (
        and_intro (all is_int32 key) true
          (contains-all (all is_int32) t.keys.values key valid.stored key_contained) refl)
      ∙ create_new_labels_lem t.keys.names (key ∷ [])
      ∙ rw (valid.valid_names, valid.distinct_names, named)

  matching_key : blocks_matching t key_labels ≡ ok (i ∷ [])
  unfolding blocks_matching
  matching_key =
      let (ds, found, same) =
        requested_known t.keys.names t.keys.names
          (all-contains t.keys.names t.keys.names (λ a m. m)) in
      rw (named, found)
        (ap ok (
          matching_unique ds key 0 i t.keys.values (λ row m. same key row ∙ agrees_key row m)
            valid.distinct_rows at
          ∙ ap (λ n. n ∷ []) (omega arith)))

  block_of_key : block_of_labels t key_labels ≡ block_by_id t (pos i)
  unfolding block_of_labels
  block_of_key = rw matching_key

  block_by_key_id : block_by_id t (pos i) ≡ ok b
  unfolding block_by_id
  block_by_key_id = ground (arith, get_elem?-lt t.keys.values i key at, block_at)

  entry_of_key :
      get_block t (by_entry (record { names = t.keys.names; values = key }))
      ≡ block_of_labels t key_labels
  unfolding get_block
  entry_of_key = rw key_labels_made

  -- In a map whose keys are valid and have at least one name, looking a key up with `block` gives
  -- the block that stands at the position of the key.
  pub get_block-entry :
      get_block t (by_entry (record { names = t.keys.names; values = key })) ≡ ok b
  get_block-entry = entry_of_key ∙ block_of_key ∙ block_by_key_id
