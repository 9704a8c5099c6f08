-- ===== src/Operations/SplitSlices.antt =====
-- The maps that `split` of split.py returns are the slices that `slice` of slice.py returns.
use aml_storage.Prelude.{
  suc, pos, true, String, ◌≡◌, refl, sym, ap, ap₂, ◌∙◌, List, [], ◌∷◌, ◌++◌, map, length, string_eq,
  contains, arith,
}
use mathlib.Core.List.{append_assoc, append-nil}
use aml_storage.Result.{
  Result, ok, guard, ◌>>=◌, map_m, value_error, bind-eq_ok, map_m_cons, map_m-eq_ok, ok_injective,
  guard-eq_ok,
}
use aml_storage.Numpy.{Numpy}
use aml_storage.Labels.Rows.{Row}
use aml_storage.Block.Core.{Arrays, TensorBlock}
use aml_storage.TensorMap.Core.{TensorMap}
use aml_storage.TensorMap.Core as Map
use aml_storage.TensorMap.Selection.{by_index, by_entry, get_block}
use aml_storage.Operations.Indexing.{Indexing}
use aml_storage.Operations.Slice.{
  SliceSelection, indices, by_labels, check_slice_args, sliced_block, slice,
}
use aml_storage.Operations.Split.{
  check_selections, check_split_args, append_each, split_blocks, split_keys, split,
}

module _ {A : Type 0} where
  -- The heads on the lists, one by one.
  abbrev pub put_on : List A → List (List A) → List (List A)
  put_on [] columns = []
  put_on (x ∷ xs) [] = []
  put_on (x ∷ xs) (column ∷ columns) = (x ∷ column) ∷ put_on xs columns

  -- The lists after the groups, one by one.
  abbrev pub extend : List (List A) → List (List A) → List (List A)
  extend [] columns = []
  extend (group ∷ groups) [] = group ∷ groups
  extend (group ∷ groups) (column ∷ columns) = (group ++ column) ∷ extend groups columns

  extend-append_each :
      (groups : List (List A)) (xs : List A) (columns : List (List A))
      → length xs ≡ length columns
      → extend (append_each groups xs) columns ≡ extend groups (put_on xs columns)
  unfolding append_each
  extend-append_each [] xs columns h = refl
  extend-append_each (group ∷ groups) [] [] h = refl
  extend-append_each (group ∷ groups) [] (column ∷ columns) h = absurd (omega arith)
  extend-append_each (group ∷ groups) (x ∷ xs) [] h = absurd (omega arith)
  extend-append_each (group ∷ groups) (x ∷ xs) (column ∷ columns) h =
      ap₂ (λ g gs. g ∷ gs) (append_assoc group (x ∷ []) column)
        (extend-append_each groups xs columns (omega arith))

module _ {S : Type 0} {A : Type 0} where
  length-map_m :
      (f : S → Result A) (xs : List S) {ys : List A} → map_m f xs ≡ ok ys → length ys ≡ length xs
  unfolding map_m
  length-map_m f [] h = ap length (sym (ok_injective h))
  length-map_m f (x ∷ xs) h =
      let (y, rest, _, others, same) = map_m-eq_ok f x xs h in
      ap length (sym same) ∙ ap suc (length-map_m f xs others)

  -- Groups that are all empty.
  extend_empty :
      (xs : List S) (columns : List (List A))
      → length columns ≡ length xs
      → extend (map (λ x. []) xs) columns ≡ columns
  extend_empty [] [] h = refl
  extend_empty [] (column ∷ columns) h = absurd (omega arith)
  extend_empty (x ∷ xs) [] h = absurd (omega arith)
  extend_empty (x ∷ xs) (column ∷ columns) h =
      ap (λ cs. column ∷ cs) (extend_empty xs columns (omega arith))

  -- Without rows nothing is added to the groups.
  extend_nothing :
      {R : Type 0} (f : S → R → Result A) (xs : List S) (groups : List (List A))
      {columns : List (List A)}
      → map_m (λ x. map_m (f x) []) xs ≡ ok columns
      → extend groups columns ≡ groups
  unfolding map_m
  extend_nothing f xs [] h = refl
  extend_nothing f [] (group ∷ groups) h = ap (extend (group ∷ groups)) (sym (ok_injective h))
  extend_nothing f (x ∷ xs) (group ∷ groups) h =
      let (column, later, here, there, same) = map_m-eq_ok (λ x. map_m (f x) []) x xs h in
      ap (extend (group ∷ groups)) (sym same)
      ∙ ap₂ (λ g gs. g ∷ gs) (ap (λ c. group ++ c) (sym (ok_injective here)) ∙ append-nil group)
          (extend_nothing f xs groups there)

  -- Calls for each row, made selection by selection, are calls for each selection, made row by row.
  heads :
      {R : Type 0} (f : S → R → Result A) (r : R) (rows : List R) (xs : List S)
      {columns : List (List A)}
      → map_m (λ x. map_m (f x) (r ∷ rows)) xs ≡ ok columns
      → (firsts : List A) × (others : List (List A)) × (map_m (λ x. f x r) xs ≡ ok firsts)
        × (map_m (λ x. map_m (f x) rows) xs ≡ ok others)
        × (put_on firsts others ≡ columns)
  unfolding map_m
  heads f r rows [] h = ([], [], refl, refl, ok_injective h)
  heads f r rows (x ∷ xs) h =
      let (column, later, here, there, same) = map_m-eq_ok (λ x. map_m (f x) (r ∷ rows)) x xs h in
      let (first, rest, here₁, here₂, same₂) = map_m-eq_ok (f x) r rows here in
      let (firsts, others, there₁, there₂, same₃) = heads f r rows xs there in
      (
        first ∷ firsts,
        rest ∷ others,
        map_m_cons (λ x. f x r) x xs here₁ there₁,
        map_m_cons (λ x. map_m (f x) rows) x xs here₂ there₂,
        ap₂ (λ c cs. c ∷ cs) same₂ same₃ ∙ same,
      )

module _ ⦃np : Numpy⦄ {A : Type 0} ⦃arrays : Arrays A⦄ ⦃indexing : Indexing A⦄ (t : TensorMap A)
    (axis : String) where
  -- The block of a row of the keys.
  block_of : Row → Result (TensorBlock A)
  block_of row = get_block t (by_entry (record { names = t.keys.names; values = row }))

  -- The slice of the block of a row of the keys.
  slice_of : SliceSelection → Row → Result (TensorBlock A)
  slice_of selection row = block_of row >>= λ b. sliced_block b axis selection

  split_row :
      (selection : SliceSelection) (selections : List SliceSelection) (row : Row)
      {firsts : List (TensorBlock A)}
      → map_m (λ x. slice_of x row) (selection ∷ selections) ≡ ok firsts
      → (block_of row >>= λ b. split_blocks b axis (selection ∷ selections)) ≡ ok firsts
  unfolding slice_of split_blocks
  split_row selection selections row h =
      let (first, _, here, _, _) = map_m-eq_ok (λ x. slice_of x row) selection selections h in
      let (b, found, _) = bind-eq_ok (block_of row) _ here in rw found (rw found at h)

  split_keys-slice_of :
      (selection : SliceSelection) (selections : List SliceSelection) (rows : List Row)
      (groups columns : List (List (TensorBlock A)))
      → map_m (λ x. map_m (slice_of x) rows) (selection ∷ selections) ≡ ok columns
      → split_keys t axis (selection ∷ selections) rows groups ≡ ok (extend groups columns)
  unfolding split_keys block_of
  split_keys-slice_of selection selections [] groups columns h =
      ap ok (sym (extend_nothing slice_of (selection ∷ selections) groups h))
  split_keys-slice_of selection selections (row ∷ rows) groups columns h =
      let (firsts, others, here, there, same) =
        heads slice_of row rows (selection ∷ selections) h in
      let (b, found, split_here) =
        bind-eq_ok (block_of row) _ (split_row selection selections row here) in
      rw (found, split_here)
        (split_keys-slice_of selection selections rows (append_each groups firsts) others there
          ∙ ap ok (
              extend-append_each groups firsts others (
                length-map_m (λ x. slice_of x row) (selection ∷ selections) here
                ∙ sym (length-map_m (λ x. map_m (slice_of x) rows) (selection ∷ selections) there)))
          ∙ ap (λ cs. ok (extend groups cs)) same)

  -- What a call of `slice` that returns has done.
  slice_result :
      (first : TensorBlock A) (selection : SliceSelection) {m : TensorMap A}
      → get_block t (by_index (pos 0)) ≡ ok first
      → slice t axis selection ≡ ok m
      → (column : List (TensorBlock A)) × (check_slice_args first axis selection ≡ ok tt)
        × (map_m (slice_of selection) t.keys.values ≡ ok column)
        × (Map.new t.keys column ≡ ok m)
  unfolding slice slice_of block_of
  slice_result first selection found h =
      let (done, checked, later) =
        bind-eq_ok (check_slice_args first axis selection) _ (rw found at h) in
      let (column, sliced, made) = bind-eq_ok (map_m (slice_of selection) t.keys.values) _ later in
      (column, checked, sliced, made)

  slice_results :
      (first : TensorBlock A) (selections : List SliceSelection) {maps : List (TensorMap A)}
      → get_block t (by_index (pos 0)) ≡ ok first
      → map_m (slice t axis) selections ≡ ok maps
      → (columns : List (List (TensorBlock A))) × (check_selections first axis selections ≡ ok tt)
        × (map_m (λ x. map_m (slice_of x) t.keys.values) selections ≡ ok columns)
        × (map_m (Map.new t.keys) columns ≡ ok maps)
  unfolding map_m check_selections
  slice_results first [] found h = ([], refl, refl, h)
  slice_results first (selection ∷ selections) found h =
      let (m, rest, here, there, same) = map_m-eq_ok (slice t axis) selection selections h in
      let (column, checked, sliced, made) = slice_result first selection found here in
      let (columns, checked', sliced', made') = slice_results first selections found there in
      (
        column ∷ columns,
        rw checked checked',
        map_m_cons (λ x. map_m (slice_of x) t.keys.values) selection selections sliced sliced',
        map_m_cons (Map.new t.keys) column columns made made' ∙ ap ok same,
      )

  axis_of :
      (first : TensorBlock A) (selection : SliceSelection)
      → check_slice_args first axis selection ≡ ok tt
      → contains ("samples" ∷ "properties" ∷ []) axis ≡ true
  unfolding check_slice_args
  axis_of first (indices is) h = guard-eq_ok _ value_error h
  axis_of first (by_labels l) h =
      let (done, known, _) =
        bind-eq_ok (guard (contains ("samples" ∷ "properties" ∷ []) axis) value_error) _ h in
      guard-eq_ok _ value_error known

  -- Where `slice` returns for each of at least one selection, `split` returns the maps that it
  -- returns, in the order of the selections.
  pub split-slice :
      (selection : SliceSelection) (selections : List SliceSelection) (maps : List (TensorMap A))
      → map_m (slice t axis) (selection ∷ selections) ≡ ok maps
      → split t axis (selection ∷ selections) ≡ ok maps
  unfolding split check_split_args slice
  split-slice selection selections maps h =
      let (m, rest, here, there, same) = map_m-eq_ok (slice t axis) selection selections h in
      let (first, found, _) = bind-eq_ok (get_block t (by_index (pos 0))) _ here in
      let (_, checked, _, _) = slice_result first selection found here in
      let (columns, all_checked, sliced, made) =
        slice_results first (selection ∷ selections) found h in
      rw
        (
          found,
          axis_of first selection checked,
          all_checked,
          split_keys-slice_of selection selections t.keys.values
              (map (λ x. []) (selection ∷ selections)) columns sliced,
          extend_empty (selection ∷ selections) columns (
              length-map_m (λ x. map_m (slice_of x) t.keys.values) (selection ∷ selections) sliced),
        )
        made
