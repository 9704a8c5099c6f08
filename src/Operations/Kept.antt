-- ===== src/Operations/Kept.antt =====
-- filter_blocks.py and drop_blocks.py, without copies, by the positions of the keys that are
-- kept.
use mathlib.Core.List.{Perm}
use aml_storage.Prelude.{
  ℕ, suc, ◌+◌, String, ◌≡◌, refl, sym, ap, ◌∙◌, Bool, true, false, not, Bool-cases, inl, inr, List,
  [], ◌∷◌, ◌++◌, arith, length, is_empty, all, get_elem?, nat_eq, string_eq, int_eq, list_eq,
  contains, and_true, fun_ext,
}
use aml_storage.Result.{ok}
use aml_storage.Numpy.{Numpy}
use aml_storage.Labels.Rows.{Row}
use aml_storage.Labels.Core.{Labels, len, create_new_labels}
use aml_storage.Labels.Valid.{IsValid, is_rectangular, is_stored, create_new_labels_lem}
use aml_storage.Labels.Editing.{init_stored}
use aml_storage.Labels.Selection.{is_selected, select-is_selected}
use aml_storage.Block.Core.{Arrays, TensorBlock, gradients}
use aml_storage.Block.Valid.{is_valid}
use aml_storage.TensorMap.Core.{TensorMap, new, rust_new}
use aml_storage.TensorMap.All.{block_at}
use aml_storage.Operations.Share.{share_block_lem, is_flat}
use aml_storage.Operations.Blocks.{kept_blocks, taken, new_keys, width, filter_blocks, drop_blocks}
use aml_storage.Operations.KeptRows.{
  keep_where, all-keep_where, keep_where-perm, distinct-keep_where, kept_labels,
  no_rows_without_names,
}

-- A map with valid keys, a valid block for each of them, and no gradients of gradients.
pub record IsMap {A : Type 0} ⦃arrays : Arrays A⦄ (t : TensorMap A) : Type 0 where
  pub valid_keys : IsValid t.keys
  pub as_many : length t.blocks ≡ len t.keys
  pub valid_blocks : all is_valid t.blocks ≡ true
  pub flat_blocks : all (λ b. is_flat (gradients b)) t.blocks ≡ true

module _ {A : Type 0} ⦃arrays : Arrays A⦄ (t : TensorMap A) where
  taken_lem :
      (b : TensorBlock A) → is_valid b ≡ true → is_flat (gradients b) ≡ true → taken false b ≡ ok b
  unfolding taken
  taken_lem b valid flat = share_block_lem b valid flat

  kept_blocks_lem :
      (keep : ℕ → Bool) (i : ℕ) (rows : List Row) (blocks : List (TensorBlock A))
      → length blocks ≡ length rows
      → i + length rows ≡ len t.keys
      → ((j : ℕ) → get_elem? t.blocks (i + j) ≡ get_elem? blocks j)
      → all is_valid blocks ≡ true
      → all (λ b. is_flat (gradients b)) blocks ≡ true
      → kept_blocks keep false t i rows ≡ ok (keep_where keep i rows, keep_where keep i blocks)
  unfolding kept_blocks
  kept_blocks_lem keep i [] [] n m at v f = refl
  kept_blocks_lem keep i [] (b ∷ blocks) n m at v f = absurd (omega arith)
  kept_blocks_lem keep i (row ∷ rows) [] n m at v f = absurd (omega arith)
  kept_blocks_lem keep i (row ∷ rows) (b ∷ blocks) n m at v f =
      let (valid, valids) = and_true (is_valid b) _ v in
      let (flat, flats) = and_true (is_flat (gradients b)) _ f in
      let later =
        kept_blocks_lem keep (suc i) rows blocks (omega arith) (omega arith)
          (λ j. ap (get_elem? t.blocks) (omega arith) ∙ at (suc j)) valids flats in
      let here = block_at t i b (omega arith) (ap (get_elem? t.blocks) (omega arith) ∙ at 0) in
      elim (Bool-cases (keep i)) [
        | inl yes' ↦ rw (yes', kept_blocks, here, taken_lem b valid flat, later) refl
        | inr no' ↦ rw (no', kept_blocks) later
      ]

module _ ⦃np : Numpy⦄ where
  -- The constructor takes rows of the right width as they are.
  new_keys-create_new_labels :
      (names : List String) (rows : List Row)
      → is_rectangular (length names) rows ≡ true
      → is_stored rows ≡ true
      → new_keys names rows ≡ create_new_labels names rows
  unfolding new_keys width
  new_keys-create_new_labels names [] h k = init_stored names (length names) [] refl refl
  new_keys-create_new_labels names (row ∷ rows) h k =
      init_stored names (length row) (row ∷ rows) (ground arith) k

  new_keys_lem :
      (l : Labels) (keep : ℕ → Bool)
      → IsValid l
      → new_keys l.names (kept_labels keep l).values ≡ ok (kept_labels keep l)
  new_keys_lem l keep v =
      new_keys-create_new_labels l.names _ (all-keep_where _ keep 0 l.values v.rectangular)
        (all-keep_where _ keep 0 l.values v.stored)
      ∙ create_new_labels_lem l.names _
      ∙ rw
          (
            v.valid_names,
            v.distinct_names,
            distinct-keep_where keep 0 l.values v.distinct_rows,
            no_rows_without_names l keep v,
          )
          refl

  module _ {A : Type 0} ⦃arrays : Arrays A⦄ (t : TensorMap A) (whole : IsMap t) (keys : Labels)
      (valid : IsValid keys) (known : all (contains t.keys.names) keys.names ≡ true)
      (named : is_empty keys.names ≡ false) where
    kept_all :
        (keep : ℕ → Bool)
        → kept_blocks keep false t 0 t.keys.values
          ≡ ok (keep_where keep 0 t.keys.values, keep_where keep 0 t.blocks)
    kept_all keep =
        kept_blocks_lem t keep 0 t.keys.values t.blocks whole.as_many (omega arith)
          (λ j. ap (get_elem? t.blocks) (omega arith)) whole.valid_blocks whole.flat_blocks

    -- For a map with valid keys and valid blocks, none of which has gradients of gradients, and a
    -- valid selection with at least one name, all of them names of the keys, `filter_blocks`
    -- without copies has the outcome of the constructor of a map on the keys that agree with an
    -- entry of the selection, in their order, and on their blocks as they are.
    pub filter_blocks-keep_where :
        filter_blocks t keys false
        ≡ new
            (kept_labels (is_selected t.keys keys) t.keys)
            (keep_where (is_selected t.keys keys) 0 t.blocks)
    unfolding filter_blocks
    filter_blocks-keep_where =
        let (chosen, selected, same) =
          select-is_selected t.keys keys whole.valid_keys valid known named in
        rw
          (
            selected,
            kept_all (contains chosen),
            fun_ext same,
            new_keys_lem t.keys (is_selected t.keys keys) whole.valid_keys,
          )
          refl

    -- For a map with valid keys and valid blocks, none of which has gradients of gradients, and a
    -- valid selection with at least one name, all of them names of the keys, `drop_blocks` without
    -- copies has the outcome of the constructor of a map on the keys that agree with no entry of
    -- the selection, in their order, and on their blocks as they are.
    pub drop_blocks-keep_where :
        drop_blocks t keys false
        ≡ new
            (kept_labels (λ i. not (is_selected t.keys keys i)) t.keys)
            (keep_where (λ i. not (is_selected t.keys keys i)) 0 t.blocks)
    unfolding drop_blocks
    drop_blocks-keep_where =
        let (chosen, selected, same) =
          select-is_selected t.keys keys whole.valid_keys valid known named in
        rw
          (
            selected,
            kept_all (λ i. not (contains chosen i)),
            fun_ext same,
            new_keys_lem t.keys (λ i. not (is_selected t.keys keys i)) whole.valid_keys,
          )
          refl

module _ ⦃np : Numpy⦄ {A : Type 0} ⦃arrays : Arrays A⦄ where
  pub new_parts :
      (keys : Labels) (blocks : List (TensorBlock A)) {t : TensorMap A}
      → new keys blocks ≡ ok t
      → t ≡ record { keys = keys; blocks = blocks }
  unfolding new rust_new
  new_parts keys blocks h = ground arith

  module _ (t : TensorMap A) (whole : IsMap t) (keys : Labels) (valid : IsValid keys)
      (known : all (contains t.keys.names) keys.names ≡ true) (named : is_empty keys.names ≡ false)
      {kept dropped : TensorMap A} (filtered : filter_blocks t keys false ≡ ok kept)
      (others : drop_blocks t keys false ≡ ok dropped) where
    -- For a map with valid keys and valid blocks, none of which has gradients of gradients, and a
    -- valid selection with at least one name, all of them names of the keys: where `filter_blocks`
    -- and `drop_blocks` both return, without copies, the blocks of their results are together, in
    -- another order, the blocks of the map, and so are their keys.
    pub filter_blocks-drop_blocks :
        Perm (kept.blocks ++ dropped.blocks) t.blocks
        × Perm (kept.keys.values ++ dropped.keys.values) t.keys.values
    filter_blocks-drop_blocks =
        let a =
          new_parts _ _
            (sym (filter_blocks-keep_where t whole keys valid known named) ∙ filtered) in
        let b =
          new_parts _ _ (sym (drop_blocks-keep_where t whole keys valid known named) ∙ others) in
        rw (a, b)
          (
            keep_where-perm (is_selected t.keys keys) 0 t.blocks,
            keep_where-perm (is_selected t.keys keys) 0 t.keys.values,
          )
