-- ===== src/Tests/OfMaps.antt =====
-- Maps of blocks: witnesses.
use mathlib.Core.List.{Perm}
use aml_storage.Prelude.{
  ℕ, pos, ◌≡◌, refl, true, false, none, some, List, [], ◌∷◌, ◌++◌, all, get_elem?, contains,
  distinct, list_beq, int_beq, index_of, int_eq, nat_eq, list_eq, string_eq, c_int32,
}
use aml_storage.Result.{ok}
use aml_storage.Labels.Names.{is_valid_label_name}
use aml_storage.Labels.Core.{Labels}
use aml_storage.Labels.Rows.{row_leb}
use aml_storage.Labels.Valid.{IsValid}
use aml_storage.Labels.Selection.{is_selected}
use aml_storage.Block.Core.{TensorBlock}
use aml_storage.Block.Valid.{is_valid}
use aml_storage.TensorMap.Core.{TensorMap, new}
use aml_storage.TensorMap.Selection.{blocks_matching, get_block, by_entry}
use aml_storage.TensorMap.Lookup.{agrees, blocks_matching_lem}
use aml_storage.TensorMap.Keys.{get_block-entry}
use aml_storage.Operations.Blocks.{filter_blocks, drop_blocks}
use aml_storage.Operations.KeptRows.{keep_where, kept_labels}
use aml_storage.Operations.Kept.{
  IsMap, filter_blocks-keep_where, drop_blocks-keep_where, filter_blocks-drop_blocks,
}
use aml_storage.Prelude.{◌↔◌, Bool, not}
use aml_storage.Result.{guard, ◌>>=◌, not_equal_error}
use aml_storage.Block.Core.{samples, components, properties}
use aml_storage.Operations.Metadata.{word, check_blocks}
use aml_storage.Operations.MapMetadata.{equal_metadata}
use aml_storage.Operations.SameMetadata.{check_blocks_lem, equal_metadata-itself}
use aml_storage.Labels.Dimensions.{rename}
use aml_storage.TensorMap.Selection.{by_dict, get_blocks}
use aml_storage.TensorMap.All.{get_blocks-all}
use aml_storage.Operations.Manipulate.{rename_dimension}
use aml_storage.Operations.KeyDimensions.{rename_dimension-keys, rename_dimension-rename_dimension}
use aml_storage.Tests.Inputs.{Shaped, shaped, numpy, row, st, first, first-IsValid}
use aml_storage.Tests.OfBlocks.{plain}

abbrev two_blocks : TensorMap Shaped
two_blocks = record { keys = first; blocks = plain ∷ plain ∷ [] }

both_valid : all is_valid two_blocks.blocks ≡ true
unfolding is_valid list_beq distinct contains
both_valid = refl

whole : IsMap two_blocks
whole = record {
  valid_keys = first-IsValid;
  as_many = refl;
  valid_blocks = both_valid;
  flat_blocks = refl;
}

abbrev s_is_1 : Labels
s_is_1 = record { names = "s" ∷ []; values = (pos 1 ∷ []) ∷ []; is_view = false }

s_is_1-IsValid : IsValid s_is_1
unfolding is_valid_label_name distinct contains list_beq int_beq
s_is_1-IsValid = record {
  owned = refl;
  valid_names = refl;
  distinct_names = refl;
  rectangular = refl;
  stored = refl;
  distinct_rows = refl;
  no_hidden_rows = refl;
}

blocks_matching_lem_example :
    (found : List ℕ) × (blocks_matching two_blocks s_is_1 ≡ ok found)
    × ((i : ℕ)
        → contains found i ≡ elim (get_elem? two_blocks.keys.values i) [
          | none ↦ false
          | some key ↦ agrees two_blocks.keys.names s_is_1.names (pos 1 ∷ []) key
        ])
unfolding contains
blocks_matching_lem_example = blocks_matching_lem two_blocks s_is_1 (pos 1 ∷ []) refl refl refl refl

get_block-entry_example :
    get_block two_blocks (by_entry (record { names = "s" ∷ "t" ∷ []; values = row 1 1 })) ≡ ok plain
get_block-entry_example = get_block-entry two_blocks first-IsValid refl 1 (row 1 1) plain refl refl

filter_blocks-keep_where_example :
    filter_blocks two_blocks s_is_1 false
    ≡ new
        (kept_labels (is_selected two_blocks.keys s_is_1) two_blocks.keys)
        (keep_where (is_selected two_blocks.keys s_is_1) 0 two_blocks.blocks)
unfolding contains
filter_blocks-keep_where_example =
    filter_blocks-keep_where two_blocks whole s_is_1 s_is_1-IsValid refl refl

drop_blocks-keep_where_example :
    drop_blocks two_blocks s_is_1 false
    ≡ new
        (kept_labels (λ i. not (is_selected two_blocks.keys s_is_1 i)) two_blocks.keys)
        (keep_where (λ i. not (is_selected two_blocks.keys s_is_1 i)) 0 two_blocks.blocks)
unfolding contains
drop_blocks-keep_where_example =
    drop_blocks-keep_where two_blocks whole s_is_1 s_is_1-IsValid refl refl

abbrev kept : TensorMap Shaped
kept = record { keys = st (row 1 1 ∷ []); blocks = plain ∷ [] }

abbrev dropped : TensorMap Shaped
dropped = record { keys = st (row 0 1 ∷ []); blocks = plain ∷ [] }

filter_made : filter_blocks two_blocks s_is_1 false ≡ ok kept
unfolding filter_blocks numpy c_int32 row_leb is_valid_label_name distinct contains list_beq int_beq
    index_of aml_storage.Block.Core.new
filter_made = refl

drop_made : drop_blocks two_blocks s_is_1 false ≡ ok dropped
unfolding drop_blocks numpy c_int32 row_leb is_valid_label_name distinct contains list_beq int_beq
    index_of aml_storage.Block.Core.new
drop_made = refl

filter_blocks-drop_blocks_example :
    Perm (kept.blocks ++ dropped.blocks) two_blocks.blocks
    × Perm (kept.keys.values ++ dropped.keys.values) two_blocks.keys.values
unfolding contains
filter_blocks-drop_blocks_example =
    filter_blocks-drop_blocks two_blocks whole s_is_1 s_is_1-IsValid refl refl filter_made drop_made

check_blocks_lem_example :
    (same : Bool) × (check_blocks plain plain (word "all") ≡ ok same)
    × ((same ≡ true)
        ↔ (samples plain ≡ samples plain)
          × (components plain ≡ components plain)
          × (properties plain ≡ properties plain))
check_blocks_lem_example = check_blocks_lem plain plain refl refl

equal_metadata-itself_example : equal_metadata two_blocks two_blocks (word "all") ≡ ok true
equal_metadata-itself_example = equal_metadata-itself two_blocks first-IsValid refl refl

get_blocks-all_example : get_blocks two_blocks (by_dict []) ≡ ok two_blocks.blocks
get_blocks-all_example = get_blocks-all two_blocks refl

abbrev renamed_keys : Labels
renamed_keys = record { names = "s" ∷ "u" ∷ []; values = first.values; is_view = false }

abbrev renamed_map : TensorMap Shaped
renamed_map = record { keys = renamed_keys; blocks = two_blocks.blocks }

t_renamed : rename_dimension two_blocks "keys" "t" "u" ≡ ok renamed_map
unfolding rename_dimension numpy c_int32 row_leb is_valid_label_name distinct contains list_beq
    int_beq index_of aml_storage.Block.Core.new aml_storage.Result.map_m
t_renamed = refl

rename_dimension-keys_example :
    rename_dimension two_blocks "keys" "t" "u"
    ≡ (rename first "t" "u" >>= λ keys. new keys two_blocks.blocks)
rename_dimension-keys_example = rename_dimension-keys "t" "u" two_blocks whole

rename_dimension-rename_dimension_example :
    rename_dimension renamed_map "keys" "u" "t" ≡ ok two_blocks
rename_dimension-rename_dimension_example =
    rename_dimension-rename_dimension two_blocks whole "t" "u" t_renamed
