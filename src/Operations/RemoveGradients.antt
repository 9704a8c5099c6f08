-- ===== src/Operations/RemoveGradients.antt =====
-- remove_gradients.py: blocks and maps without some of their gradients.
use aml_storage.Prelude.{
  pos, fun_ext, String, ◌≡◌, refl, ap, true, false, Option, none, some, List, [], arith, is_empty,
  nat_beq, contains, string_eq, if◌then◌else◌, and_true, Bool-cases, inl, inr,
}
use aml_storage.Result.{Result, ok, guard, ◌>>=◌, ◌>>◌, map_m, not_implemented_error}
use aml_storage.Numpy.{Numpy}
use aml_storage.Labels.Core.{Labels}
use aml_storage.Block.Core.{
  Arrays, TensorBlock, block, Gradients, no_gradient, gradient, values, samples, components,
  properties, gradients, parameters, gradients_list, new, add_gradient,
}
use aml_storage.Block.Valid.{is_valid, are_valid}
use aml_storage.TensorMap.Core.{TensorMap, count, block_by_id}
use aml_storage.TensorMap.Core as Map
use aml_storage.TensorMap.Selection.{by_dict, get_blocks}
use aml_storage.Operations.Share.{is_flat, valid_facts, gradient_again}
use aml_storage.Operations.Rebuild.{add_each, Makes, rebuild_lem}
use aml_storage.Block.Valid.{own_facts, is_valid_intro}

-- `remove`, or the names where it is `None`.
unfoldable pub names_or : Option (List String) → List String → List String
names_or none names = names
names_or (some remove) names = remove

module _ {A : Type 0} ⦃arrays : Arrays A⦄ where
  -- The loop over `block.gradients()`.
  unfoldable pub keep_gradients : List String → TensorBlock A → Gradients A → Result (TensorBlock A)
  keep_gradients remove nb no_gradient = ok nb
  keep_gradients remove nb (gradient parameter g rest) =
      if contains remove parameter then keep_gradients remove nb rest else do
        guard (is_empty (gradients_list g)) not_implemented_error
        g' ← new (values g) (samples g) (components g) (properties g)
        nb' ← add_gradient nb parameter g'
        keep_gradients remove nb' rest

  -- `remove_gradients_block(block, remove)`
  unfoldable pub remove_gradients_block :
      TensorBlock A → Option (List String) → Result (TensorBlock A)
  unfolding keep_gradients names_or
  remove_gradients_block b remove = do
    let names = names_or remove (gradients_list b)
    nb ← new (values b) (samples b) (components b) (properties b)
    keep_gradients names nb (gradients b)

  -- `tensor.block(0).gradients_list()` where nothing is named and there is a block.
  unfoldable pub removed_names : TensorMap A → Option (List String) → Result (Option (List String))
  unfolding block_by_id
  removed_names t (some names) = ok (some names)
  removed_names t none =
      if nat_beq (count t) 0
      then ok none
      else do b ← block_by_id t (pos 0); ok (some (gradients_list b))

  -- `remove_gradients(tensor, remove)`
  unfoldable pub remove_gradients :
      ⦃np : Numpy⦄ → TensorMap A → Option (List String) → Result (TensorMap A)
  unfolding removed_names get_blocks remove_gradients_block Map.new
  remove_gradients t remove = do
    names ← removed_names t remove
    blocks ← get_blocks t (by_dict [])
    new_blocks ← map_m (λ b. remove_gradients_block b names) blocks
    Map.new t.keys new_blocks

module _ {A : Type 0} (remove : List String) where
  -- The gradients whose parameter is not one of those to remove.
  abbrev pub without : Gradients A → Gradients A
  without no_gradient = no_gradient
  without (gradient parameter g rest) =
      if contains remove parameter then without rest else gradient parameter g (without rest)

  abbrev pub without_gradients : TensorBlock A → TensorBlock A
  without_gradients (block v s cs p g) = block v s cs p (without g)

  -- A parameter that is not there is not among those that stay.
  contains-without :
      (g : Gradients A) (name : String)
      → contains (parameters g) name ≡ false
      → contains (parameters (without g)) name ≡ false
  unfolding contains
  contains-without no_gradient name h = refl
  contains-without (gradient other g rest) name h = ground (arith, contains-without rest name)

module _ {A : Type 0} ⦃arrays : Arrays A⦄ (remove : List String) where
  keep_gradients-add_each :
      (nb : TensorBlock A) (g : Gradients A)
      → keep_gradients remove nb g
        ≡ add_each
            (λ n c. new (values c) (samples c) (components c) (properties c))
            nb
            (without remove g)
  unfolding keep_gradients add_each
  keep_gradients-add_each nb no_gradient = refl
  keep_gradients-add_each nb (gradient parameter g rest) =
      elim (Bool-cases (contains remove parameter)) [
        | inl yes' ↦ rw yes' (keep_gradients-add_each nb rest)
        | inr no' ↦ rw no' (
            ap
              (λ k. do
                guard (is_empty (gradients_list g)) not_implemented_error
                g' ← new (values g) (samples g) (components g) (properties g)
                nb' ← add_gradient nb parameter g'
                k nb')
              (fun_ext (λ nb'. keep_gradients-add_each nb' rest)))
      ]

  are_valid-without :
      (v : A) (s : Labels) (cs : List Labels) (p : Labels) (g : Gradients A)
      → are_valid v s cs p g ≡ true
      → are_valid v s cs p (without remove g) ≡ true
  unfolding are_valid
  are_valid-without v s cs p no_gradient h = refl
  are_valid-without v s cs p (gradient name g rest) h =
      let (fits, like, later, valid, others) = valid_facts v s cs p name g rest h in
      let rest' = are_valid-without v s cs p rest others in
      elim (Bool-cases (contains remove name)) [
        | inl yes' ↦ rw yes' rest'
        | inr no' ↦ rw (no', fits, like, contains-without remove rest name later, valid) rest'
      ]

  Makes-without :
      (v : A) (s : Labels) (cs : List Labels) (p : Labels) (g : Gradients A)
      → are_valid v s cs p g ≡ true
      → is_flat g ≡ true
      → Makes (λ n c. new (values c) (samples c) (components c) (properties c)) g g
  Makes-without v s cs p no_gradient valid flat = tt
  Makes-without v s cs p (gradient name g rest) valid flat =
      let (_, _, _, g_valid, others) = valid_facts v s cs p name g rest valid in
      let (g_flat, rest_flat) = and_true (is_empty (gradients_list g)) _ flat in
      (
        refl,
        g_flat,
        gradient_again (properties g) g g_valid g_flat refl,
        Makes-without v s cs p rest others rest_flat,
      )

  -- For a valid block, `remove_gradients_block` with a list of parameters always returns, where the
  -- gradients with other parameters have no gradients: the block with these gradients as they are,
  -- in their order, and without those that the list names; and this block is valid.
  pub remove_gradients_block-without :
      (b : TensorBlock A)
      → is_valid b ≡ true
      → is_flat (without remove (gradients b)) ≡ true
      → (remove_gradients_block b (some remove) ≡ ok (without_gradients remove b))
        × (is_valid (without_gradients remove b) ≡ true)
  unfolding remove_gradients_block
  remove_gradients_block-without (block v s cs p g) h flat =
      let (described, owned, valid) = own_facts v s cs p g h in
      let kept = are_valid-without v s cs p g valid in
      let whole = is_valid_intro v s cs p (without remove g) described owned kept in
      (
        rw (fun_ext (λ nb. keep_gradients-add_each nb g)) (
            rebuild_lem (λ n c. new (values c) (samples c) (components c) (properties c)) v s cs p
              (without remove g) (without remove g)
              (Makes-without v s cs p (without remove g) kept flat) whole),
        whole,
      )
