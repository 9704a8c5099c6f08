-- ===== src/Operations/InsertedSamples.antt =====
-- `insert_dimension` of manipulate_dimension.py along the samples, with one value for all of them.
use aml_storage.Prelude.{
  ℕ, zero, suc, ℤ, String, ◌≡◌, refl, sym, ap, ◌∙◌, Bool, true, false, not, List, [], ◌∷◌, map,
  arith, all, replicate, nat_beq, contains, string_eq,
}
use aml_storage.Result.{Result, ok, map_m, map_m_cons, map_m-eq_ok, bind-eq_ok, ok_injective}
use aml_storage.Numpy.{Numpy, Values, array_1d, integral}
use aml_storage.Labels.Core.{Labels, len}
use aml_storage.Labels.Dimensions.{insert}
use aml_storage.Block.Core.{
  Arrays, TensorBlock, block, Gradients, no_gradient, gradient, values, samples, components,
  properties, gradients, add_gradient,
}
use aml_storage.Block.Core as Block
use aml_storage.Block.Valid.{new_lem}
use aml_storage.Block.Gradients.{add_gradient_lem}
use aml_storage.TensorMap.Core.{TensorMap}
use aml_storage.TensorMap.Selection.{by_dict, get_blocks}
use aml_storage.Operations.Dispatch.{concatenate}
use aml_storage.Operations.Kept.{new_parts}
use aml_storage.Operations.Manipulate.{add_gradients, changed, changed_block, check_axis, on_axis}
use aml_storage.Operations.InsertDimension.{
  one_value, label_values, insert_values, insert_dimension,
}

-- One value, joined with itself, is the array that repeats it.
concatenate_repeated :
    (n : ℕ) (v : ℤ) → concatenate (replicate (suc n) (v ∷ [])) ≡ ok (replicate (suc n) v)
unfolding concatenate
concatenate_repeated zero v = refl
concatenate_repeated (suc n) v = rw (concatenate_repeated n v) refl

label_values-one_value :
    (n : ℕ) (v : ℤ) {column : Values}
    → label_values n (one_value v) ≡ ok column
    → (nat_beq n 0 ≡ false) × (array_1d integral (replicate n v) ≡ column)
unfolding label_values concatenate
label_values-one_value zero v h = absurd (ground arith)
label_values-one_value (suc n) v h =
    (ground arith, ok_injective (sym (rw (concatenate_repeated n v) refl) ∙ h))

module _ {A : Type 0} ⦃arrays : Arrays A⦄ where
  samples-new :
      (v : A) (s : Labels) (cs : List Labels) (p : Labels) {b : TensorBlock A}
      → Block.new v s cs p ≡ ok b
      → samples b ≡ s
  samples-new v s cs p h = ground (arith, new_lem v s cs p)

  samples-add_gradient :
      (b : TensorBlock A) (name : String) (g : TensorBlock A) {c : TensorBlock A}
      → add_gradient b name g ≡ ok c
      → samples c ≡ samples b
  samples-add_gradient (block v s cs p gs) name g h =
      ground (arith, add_gradient_lem v s cs p gs name g)

  samples-add_gradients :
      (b : TensorBlock A) (p : Labels) (g : Gradients A) {c : TensorBlock A}
      → add_gradients ok ok b p g ≡ ok c
      → samples c ≡ samples b
  unfolding add_gradients
  samples-add_gradients b p no_gradient h = ap samples (sym (ok_injective h))
  samples-add_gradients b p (gradient name g rest) h =
      let (g', made, later) = bind-eq_ok (Block.new (values g) (samples g) (components g) p) _ h in
      let (b', added, others) = bind-eq_ok (add_gradient b name g') _ later in
      samples-add_gradients b' p rest others ∙ samples-add_gradient b name g' added

module _ ⦃np : Numpy⦄ {A : Type 0} ⦃arrays : Arrays A⦄ (index : ℤ) (name : String) (v : ℤ) where
  -- The samples of a block with a new dimension that has the value for each of them.
  abbrev pub inserted_samples : TensorBlock A → Result Labels
  inserted_samples b =
      insert (samples b) index name (array_1d integral (replicate (len (samples b)) v))

  abbrev pub has_samples : TensorBlock A → Bool
  has_samples b = not (nat_beq (len (samples b)) 0)

  changed_block-inserted_samples :
      (b : TensorBlock A) {c : TensorBlock A}
      → changed_block "samples" (insert_values index name (one_value v)) b ≡ ok c
      → (has_samples b ≡ true) × (inserted_samples b ≡ ok (samples c))
  unfolding changed_block on_axis insert_values
  changed_block-inserted_samples b h =
      let (s, inserted, h') = bind-eq_ok (insert_values index name (one_value v) (samples b)) _ h in
      let (new_block, made, later) =
        bind-eq_ok (Block.new (values b) s (components b) (properties b)) _ h' in
      let same = samples-add_gradients new_block (properties b) (gradients b) later in
      let (column, repeated, put) =
        bind-eq_ok (label_values (len (samples b)) (one_value v)) _ inserted in
      let (some_samples, is_column) = label_values-one_value (len (samples b)) v repeated in
      (
        rw some_samples refl,
        ap (insert (samples b) index name) is_column
            ∙ put
            ∙ ap ok (sym (same ∙ samples-new (values b) s (components b) (properties b) made)),
      )

  changed_blocks-inserted_samples :
      (blocks new_blocks : List (TensorBlock A))
      → map_m (changed_block "samples" (insert_values index name (one_value v))) blocks
        ≡ ok new_blocks
      → (all has_samples blocks ≡ true)
        × (map_m inserted_samples blocks ≡ ok (map samples new_blocks))
  unfolding map_m
  changed_blocks-inserted_samples [] new_blocks h =
      (refl, ap (λ bs. ok (map samples bs)) (ok_injective h))
  changed_blocks-inserted_samples (b ∷ blocks) new_blocks h =
      let change = changed_block "samples" (insert_values index name (one_value v)) in
      let (c, others, here, later, same) = map_m-eq_ok change b blocks h in
      let (some_samples, inserted) = changed_block-inserted_samples b here in
      let (all_samples, all_inserted) = changed_blocks-inserted_samples blocks others later in
      (
        rw (some_samples, all_samples) refl,
        map_m_cons inserted_samples b blocks inserted all_inserted
            ∙ ap (λ bs. ok (map samples bs)) same,
      )

  -- A dimension of the samples with one value for all samples: where `insert_dimension` returns,
  -- each block of the map has at least one sample, the keys are the same, and the samples of each
  -- new block are those of the block of the map with a dimension inserted at the index that has
  -- the value for each sample. So for a map with a block without samples the call never returns.
  pub insert_dimension-inserted_samples :
      (t t' : TensorMap A)
      → insert_dimension t "samples" index name (one_value v) ≡ ok t'
      → (blocks : List (TensorBlock A)) × (get_blocks t (by_dict []) ≡ ok blocks)
        × (all has_samples blocks ≡ true)
        × (map_m inserted_samples blocks ≡ ok (map samples t'.blocks))
        × (t'.keys ≡ t.keys)
  unfolding insert_dimension changed check_axis on_axis contains
  insert_dimension-inserted_samples t t' h =
      let (blocks, found, h') = bind-eq_ok (get_blocks t (by_dict [])) _ h in
      let change : TensorBlock A → Result (TensorBlock A) =
        changed_block "samples" (insert_values index name (one_value v)) in
      let (new_blocks, made, whole) = bind-eq_ok (map_m change blocks) _ h' in
      let (some_samples, inserted) = changed_blocks-inserted_samples blocks new_blocks made in
      let parts = new_parts t.keys new_blocks whole in
      (
        blocks,
        found,
        some_samples,
        inserted ∙ ap (λ m. ok (map samples m.blocks)) (sym parts),
        ap (λ m. m.keys) parts,
      )
