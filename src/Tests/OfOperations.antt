-- ===== src/Tests/OfOperations.antt =====
-- Slices, gradients, sums and new entries of blocks: witnesses.
use aml_storage.Prelude.{
  ℕ, get_or, all, pos, negsuc, ◌≡◌, refl, arith, true, false, some, List, [], ◌∷◌, map, contains,
  distinct, list_beq, int_beq, index_of, int_eq, nat_eq, list_eq, string_eq, c_int32,
}
use aml_storage.Result.{ok, err, map_m}
use aml_storage.Labels.Names.{is_valid_label_name}
use aml_storage.Labels.Core.{Labels, equal}
use aml_storage.Labels.Rows.{Row, row_leb}
use aml_storage.Labels.Valid.{IsValid}
use aml_storage.Labels.Selection.{is_selected}
use aml_storage.Block.Core.{
  TensorBlock, block, no_gradient, gradient, values, gradients, same_labels, starts_with_sample,
  refers_below, add_gradient,
}
use aml_storage.Block.Valid.{is_valid}
use aml_storage.TensorMap.Core.{TensorMap}
use aml_storage.Operations.Indexing.{position_along}
use aml_storage.Operations.Slice.{SliceSelection, indices, by_labels, slice_block, slice}
use aml_storage.Operations.SlicedProperties.{with_properties}
use aml_storage.Operations.SliceProperties.{slice_block-properties}
use aml_storage.Operations.FollowedSamples.{with_samples}
use aml_storage.Operations.SliceSamples.{slice_block-samples}
use aml_storage.Operations.Split.{split}
use aml_storage.Operations.SplitSlices.{split-slice}
use aml_storage.Operations.RemoveGradients.{
  remove_gradients_block, without_gradients, remove_gradients_block-without,
}
use aml_storage.Operations.Derived.{derived_block}
use aml_storage.Operations.Storage.{contiguous, make_contiguous_block, is_contiguous_block}
use aml_storage.Operations.Contiguous.{make_contiguous_block-is_contiguous_block}
use aml_storage.Operations.Filled.{names, as_list, filled_block}
use aml_storage.Operations.FilledGradients.{filled_with, filled_block-chosen}
use aml_storage.Operations.Arithmetic.{add_block_block}
use aml_storage.Operations.Sums.{sum, sum_with}
use aml_storage.Operations.CheckedSums.{add_block_block-checks}
use aml_storage.Operations.Metadata.{word, check_blocks_raise, check_same_gradients_raise}
use aml_storage.Operations.UniqueMetadata.{is_sorted, unique_from_blocks}
use aml_storage.Operations.UniqueRows.{joined, entries, unique_from_blocks-entries}
use aml_storage.Operations.InsertDimension.{one_value, insert_dimension}
use aml_storage.Operations.InsertedSamples.{
  has_samples, inserted_samples, insert_dimension-inserted_samples,
}
use aml_storage.TensorMap.Selection.{by_dict, get_blocks}
use aml_storage.Tests.Sorting.{unique}
use aml_storage.Operations.Equal.{equal_block}
use aml_storage.Operations.EqualBlocks.{equal_block-equal_metadata_block}
use aml_storage.Operations.Metadata.{equal_metadata_block}
use aml_storage.Operations.Allclose.{allclose_block}
use aml_storage.Operations.EqualAllclose.{equal_block-allclose_block}
use aml_storage.Block.Core.{samples}
use aml_storage.Tests.Grids.{forces, bytes, close_bytes, close_bytes_lem}
use aml_storage.Tests.Inputs.{numpy}
use aml_storage.Tests.Grids.{
  Grid, grids, indexing, storage, filling, arithmetic, rows_1, energies, energies_valid, channels,
  atoms-IsValid, channels-IsValid, moved_atoms-IsValid, atoms, products,
}

abbrev wanted : Labels
wanted = record { names = "n" ∷ []; values = rows_1 (0 ∷ 3 ∷ []); is_view = false }

wanted-IsValid : IsValid wanted
unfolding is_valid_label_name distinct contains list_beq int_beq
wanted-IsValid = record {
  owned = refl;
  valid_names = refl;
  distinct_names = refl;
  rectangular = refl;
  stored = refl;
  distinct_rows = refl;
  no_hidden_rows = refl;
}

slice_block-properties_example :
    (slice_block energies "properties" (by_labels wanted)
      ≡ ok (with_properties (is_selected channels wanted) energies))
    × (is_valid (with_properties (is_selected channels wanted) energies) ≡ true)
unfolding contains
slice_block-properties_example =
    slice_block-properties energies energies_valid refl channels-IsValid wanted wanted-IsValid refl
      refl

last_and_first : map_m (position_along 3) (negsuc 0 ∷ pos 0 ∷ []) ≡ ok (2 ∷ 0 ∷ [])
unfolding map_m position_along
last_and_first = refl

slice_block-samples_example :
    (slice_block energies "samples" (indices (negsuc 0 ∷ pos 0 ∷ []))
      ≡ ok (with_samples (2 ∷ 0 ∷ []) energies))
    × (is_valid (with_samples (2 ∷ 0 ∷ []) energies) ≡ true)
unfolding distinct contains
slice_block-samples_example =
    slice_block-samples energies energies_valid refl atoms-IsValid (moved_atoms-IsValid, tt)
      (negsuc 0 ∷ pos 0 ∷ []) (2 ∷ 0 ∷ []) last_and_first refl (omega arith)

abbrev system : Labels
system = record { names = "system" ∷ []; values = rows_1 (0 ∷ 1 ∷ []); is_view = false }

abbrev per_system : TensorMap Grid
per_system = record { keys = system; blocks = energies ∷ energies ∷ [] }

abbrev sliced : List SliceSelection → List (TensorMap Grid)
sliced [] = []
sliced (selection ∷ selections) =
    let rest = sliced selections in
    elim (slice per_system "properties" selection) [ err raised ↦ rest | ok t ↦ t ∷ rest ]

abbrev first_and_others : List SliceSelection
first_and_others = by_labels wanted ∷ indices (pos 1 ∷ []) ∷ []

slices_made : map_m (slice per_system "properties") first_and_others ≡ ok (sliced first_and_others)
unfolding slice numpy c_int32 row_leb is_valid_label_name distinct contains list_beq int_beq
    index_of map_m equal same_labels starts_with_sample refers_below add_gradient
slices_made = refl

split-slice_example : split per_system "properties" first_and_others ≡ ok (sliced first_and_others)
split-slice_example =
    split-slice per_system "properties" (by_labels wanted) (indices (pos 1 ∷ []) ∷ [])
      (sliced first_and_others) slices_made

remove_gradients_block-without_example :
    (remove_gradients_block energies (some ("positions" ∷ []))
      ≡ ok (without_gradients ("positions" ∷ []) energies))
    × (is_valid (without_gradients ("positions" ∷ []) energies) ≡ true)
unfolding contains
remove_gradients_block-without_example =
    remove_gradients_block-without ("positions" ∷ []) energies energies_valid refl

make_contiguous_block-is_contiguous_block_example :
    (c : TensorBlock Grid) × (make_contiguous_block energies ≡ ok c)
    × (is_valid c ≡ true)
    × (is_contiguous_block c ≡ ok true)
    × (c ≡ derived_block (contiguous (values energies)) (λ name g. contiguous (values g)) energies)
    × (is_contiguous_block energies ≡ ok true → c ≡ energies)
make_contiguous_block-is_contiguous_block_example =
    make_contiguous_block-is_contiguous_block energies energies_valid refl

filled_block-chosen_example :
    (filled_block filling.zeros energies (some (names ("positions" ∷ []))) false
      ≡ ok (filled_with filling.zeros false ("positions" ∷ []) energies))
    × (is_valid (filled_with filling.zeros false ("positions" ∷ []) energies) ≡ true)
unfolding contains distinct as_list
filled_block-chosen_example =
    filled_block-chosen filling.zeros energies (names ("positions" ∷ [])) false filling.Keeps-zeros
      energies_valid refl refl refl

energies_checked :
    (check_blocks_raise energies energies (word "all") ≡ ok tt)
    × (check_same_gradients_raise energies energies (word "all") ≡ ok tt)
unfolding check_blocks_raise check_same_gradients_raise list_beq contains int_beq
energies_checked = (refl, refl)

add_block_block-checks_example :
    (add_block_block energies energies
      ≡ ok (
          derived_block
            (sum (values energies) (values energies))
            (sum_with (gradients energies))
            energies))
    × (is_valid (
          derived_block
            (sum (values energies) (values energies))
            (sum_with (gradients energies))
            energies)
        ≡ true)
add_block_block-checks_example =
    add_block_block-checks energies energies energies_valid energies_valid refl refl refl refl
      energies_checked.0 energies_checked.1

unique_from_blocks-entries_example :
    (l : Labels) × (unique_from_blocks (energies ∷ energies ∷ []) "samples" ("type" ∷ []) ≡ ok l)
    × IsValid l
    × (l.names ≡ "type" ∷ [])
    × (is_sorted l.values ≡ true)
    × ((row : Row)
        → contains l.values row
          ≡ contains
              (joined (map (entries "samples" ("type" ∷ [])) (energies ∷ energies ∷ [])))
              row)
unfolding contains distinct is_valid_label_name
unique_from_blocks-entries_example =
    unique_from_blocks-entries "samples" ("type" ∷ []) (energies ∷ energies ∷ []) refl refl refl
      refl refl refl

-- The energies with another dimension of their samples.
abbrev weighted : TensorBlock Grid
weighted =
    block (values energies)
      (record {
        names = "atom" ∷ "weight" ∷ "type" ∷ [];
        values = map (λ row. get_or row 0 (pos 0) ∷ pos 6 ∷ get_or row 1 (pos 0) ∷ []) atoms.values;
        is_view = false;
      })
      [] channels (gradient "positions" forces no_gradient)

abbrev weighted_per_system : TensorMap Grid
weighted_per_system = record { keys = system; blocks = weighted ∷ weighted ∷ [] }

weight_inserted :
    insert_dimension per_system "samples" (pos 1) "weight" (one_value (pos 6))
    ≡ ok weighted_per_system
unfolding get_blocks numpy c_int32 list_beq distinct contains index_of int_beq map_m
    insert_dimension row_leb equal same_labels is_valid_label_name aml_storage.Block.Core.new
weight_inserted = refl

insert_dimension-inserted_samples_example :
    (blocks : List (TensorBlock Grid)) × (get_blocks per_system (by_dict []) ≡ ok blocks)
    × (all (has_samples (pos 1) "weight" (pos 6)) blocks ≡ true)
    × (map_m (inserted_samples (pos 1) "weight" (pos 6)) blocks
        ≡ ok (map samples weighted_per_system.blocks))
    × (weighted_per_system.keys ≡ per_system.keys)
insert_dimension-inserted_samples_example =
    insert_dimension-inserted_samples (pos 1) "weight" (pos 6) per_system weighted_per_system
      weight_inserted

energies_equal : equal_block energies energies ≡ ok true
unfolding equal_block list_beq contains int_beq
energies_equal = refl

equal_block-equal_metadata_block_example :
    equal_metadata_block energies energies (word "all") ≡ ok true
equal_block-equal_metadata_block_example =
    equal_block-equal_metadata_block energies energies energies_equal

equal_block-allclose_block_example : allclose_block {R = ℕ} 0 1 false energies energies ≡ ok true
equal_block-allclose_block_example =
    equal_block-allclose_block 0 1 false (λ v w _. close_bytes_lem v w) close_bytes_lem energies
      energies energies_valid energies_valid refl refl refl energies_equal
