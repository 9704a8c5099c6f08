-- ===== src/Operations/KeyDimensions.antt =====
-- `rename_dimension` of manipulate_dimension.py for the dimensions of the keys.
use aml_storage.Prelude.{
  String, ◌≡◌, refl, sym, ap, ◌∙◌, true, false, List, [], ◌∷◌, arith, length, is_empty, all,
  and_true, contains, nat_beq_iff,
}
use aml_storage.Result.{Result, ok, err, ◌>>=◌, map_m, bind-eq_ok}
use aml_storage.Numpy.{Numpy}
use aml_storage.Labels.Core.{Labels, len}
use aml_storage.Labels.Dimensions.{rename}
use aml_storage.Labels.Editing.{rename-rename, rename_result}
use aml_storage.Block.Core.{
  Arrays, TensorBlock, block, Gradients, no_gradient, gradient, values, samples, components,
  properties, gradients, gradients_list, add_gradient,
}
use aml_storage.Block.Core as Block
use aml_storage.Block.Valid.{is_valid, new_lem}
use aml_storage.Block.Gradients.{add_gradient_lem}
use aml_storage.TensorMap.Core.{TensorMap, rust_new}
use aml_storage.TensorMap.Core as Map
use aml_storage.TensorMap.All.{get_blocks-all}
use aml_storage.Operations.Share.{share_gradients, share_block, share_block_lem, is_flat}
use aml_storage.Operations.Kept.{IsMap}
use aml_storage.Operations.Manipulate.{add_gradients, renamed_block, rename_dimension}

bind_congr :
    {A B : Type 0} (m : Result A) (f g : A → Result B)
    → ((a : A) → m ≡ ok a → f a ≡ g a)
    → (m >>= f) ≡ (m >>= g)
bind_congr (err e) f g h = refl
bind_congr (ok a) f g h = h a refl

module _ {A : Type 0} ⦃arrays : Arrays A⦄ where
  properties-add_gradient :
      (b : TensorBlock A) (name : String) (g c : TensorBlock A)
      → add_gradient b name g ≡ ok c
      → properties c ≡ properties b
  properties-add_gradient (block v s cs p gs) name g c h =
      ground (arith, add_gradient_lem v s cs p gs name g)

  properties-new :
      (v : A) (s : Labels) (cs : List Labels) (p : Labels) (b : TensorBlock A)
      → Block.new v s cs p ≡ ok b
      → properties b ≡ p
  properties-new v s cs p b h = ground (arith, new_lem v s cs p)

  -- Without a change of labels the loop is the one of `filter_blocks`.
  add_gradients-share_gradients :
      (new_block : TensorBlock A) (g : Gradients A)
      → is_flat g ≡ true
      → (p : Labels) → properties new_block ≡ p
      → add_gradients ok ok new_block p g ≡ share_gradients new_block g
  unfolding add_gradients share_gradients
  add_gradients-share_gradients new_block no_gradient flat p e = refl
  add_gradients-share_gradients new_block (gradient name g rest) flat p e =
      let (g_flat, rest_flat) = and_true (is_empty (gradients_list g)) _ flat in
      rw (g_flat, e)
        (bind_congr (Block.new (values g) (samples g) (components g) p) _ _ λ g' made.
          bind_congr (add_gradient new_block name g') _ _ λ b' added.
            add_gradients-share_gradients b' rest rest_flat p
              (properties-add_gradient new_block name g' b' added ∙ e))

module _ ⦃np : Numpy⦄ {A : Type 0} ⦃arrays : Arrays A⦄ (old new : String) where
  renamed_block-keys :
      (b : TensorBlock A)
      → is_valid b ≡ true
      → is_flat (gradients b) ≡ true
      → renamed_block "keys" old new b ≡ ok b
  unfolding renamed_block share_block
  renamed_block-keys b valid flat =
      bind_congr (Block.new (values b) (samples b) (components b) (properties b)) _ _
        (λ new_block made.
          add_gradients-share_gradients new_block (gradients b) flat (properties b)
            (properties-new (values b) (samples b) (components b) (properties b) new_block made))
      ∙ share_block_lem b valid flat

  renamed_blocks-keys :
      (blocks : List (TensorBlock A))
      → all is_valid blocks ≡ true
      → all (λ b. is_flat (gradients b)) blocks ≡ true
      → map_m (renamed_block "keys" old new) blocks ≡ ok blocks
  unfolding map_m
  renamed_blocks-keys [] v f = refl
  renamed_blocks-keys (b ∷ blocks) v f =
      let (valid, valids) = and_true (is_valid b) _ v in
      let (flat, flats) = and_true (is_flat (gradients b)) _ f in
      ground (arith, renamed_block-keys b valid flat, renamed_blocks-keys blocks valids flats)

  -- For a map with valid keys and valid blocks, none of which has gradients of gradients,
  -- `rename_dimension` of the keys has the outcome of renaming the dimension in the keys and
  -- making a map of the new keys and the same blocks, errors included.
  pub rename_dimension-keys :
      (t : TensorMap A)
      → IsMap t
      → rename_dimension t "keys" old new
        ≡ (rename t.keys old new >>= λ keys. Map.new keys t.blocks)
  unfolding rename_dimension contains
  rename_dimension-keys t whole =
      rw
        (
          get_blocks-all t whole.as_many,
          renamed_blocks-keys t.blocks whole.valid_blocks whole.flat_blocks,
        )
        refl

module _ {A : Type 0} ⦃arrays : Arrays A⦄ where
  -- What a map made of these blocks was made of, and that other keys can take the place of its own.
  new_again :
      (keys keys' : Labels) (blocks : List (TensorBlock A)) {t : TensorMap A}
      → Map.new keys blocks ≡ ok t
      → len keys' ≡ len keys
      → keys'.is_view ≡ false
      → (t ≡ record { keys = keys; blocks = blocks })
        × (Map.new keys' blocks ≡ ok (record { keys = keys'; blocks = blocks }))
  unfolding rust_new Map.new
  new_again keys keys' blocks h n owned =
      ground
        (arith, nat_beq_iff (length blocks) (len keys), nat_beq_iff (length blocks) (len keys'))

module _ ⦃np : Numpy⦄ {A : Type 0} ⦃arrays : Arrays A⦄ (t : TensorMap A) (whole : IsMap t)
    (old new : String) {t' : TensorMap A}
    (renamed : rename_dimension t "keys" old new ≡ ok t') where
  -- For a map with valid keys and valid blocks, none of which has gradients of gradients: where
  -- `rename_dimension` of the keys returns, renaming the dimension back returns the map that there
  -- was.
  pub rename_dimension-rename_dimension : rename_dimension t' "keys" new old ≡ ok t
  rename_dimension-rename_dimension =
      let (keys, called, made) =
        bind-eq_ok (rename t.keys old new) _
          (sym (rename_dimension-keys old new t whole) ∙ renamed) in
      let (i, at, valid, names, rows) = rename_result t.keys whole.valid_keys old new called in
      let (same, again) =
        new_again keys t.keys t.blocks made (sym (ap length rows)) whole.valid_keys.owned in
      let whole' : IsMap (record { keys = keys; blocks = t.blocks }) = record {
        valid_keys = valid;
        as_many = whole.as_many ∙ sym (ap length rows);
        valid_blocks = whole.valid_blocks;
        flat_blocks = whole.flat_blocks;
      } in
      rw
        (
          same,
          rename_dimension-keys new old (record { keys = keys; blocks = t.blocks }) whole',
          rename-rename t.keys whole.valid_keys old new called,
        )
        again
