-- ===== src/Operations/Rebuild.antt =====
-- The loop over `block.gradients()` with which operations fill a new block: each gradient is refused
-- if it has gradients, else made anew and added.
use aml_storage.Prelude.{
  String, ◌≡◌, sym, ap, ◌∙◌, true, not, List, arith, is_empty, string_eq, contains, and_true,
}
use aml_storage.Result.{Result, ok, guard, ◌>>=◌, ◌>>◌, not_implemented_error}
use aml_storage.Labels.Core.{Labels}
use aml_storage.Block.Core.{
  Arrays, TensorBlock, block, Gradients, no_gradient, gradient, parameters, gradients_list,
  push_gradient, new, add_gradient,
}
use aml_storage.Block.Valid.{is_valid, are_valid}
use aml_storage.Block.Gradients.{parameters-push_gradient}
use aml_storage.Operations.Share.{
  append, append-push_gradient, append-no_gradient, apart, apart_snoc, apart_nil, gradient_facts,
  add_again, valid_facts, new_block, valid_gradients,
}

module _ {A : Type 0} ⦃arrays : Arrays A⦄ where
  unfoldable pub add_each :
      (String → TensorBlock A → Result (TensorBlock A))
      → TensorBlock A
      → Gradients A
      → Result (TensorBlock A)
  add_each make new_block no_gradient = ok new_block
  add_each make new_block (gradient parameter g rest) = do
    guard (is_empty (gradients_list g)) not_implemented_error
    g' ← make parameter g
    new_block' ← add_gradient new_block parameter g'
    add_each make new_block' rest

module _ {A : Type 0} (make : String → TensorBlock A → Result (TensorBlock A)) where
  -- `out` has the gradients that `make` makes of those of the first list, under their parameters.
  abbrev pub Makes : Gradients A → Gradients A → Type 0
  Makes no_gradient no_gradient = Unit
  Makes no_gradient (gradient m c out) = ⊥
  Makes (gradient n b rest) no_gradient = ⊥
  Makes (gradient n b rest) (gradient m c out) =
      (n ≡ m) × (is_empty (gradients_list b) ≡ true) × (make n b ≡ ok c) × Makes rest out

  module _ ⦃arrays : Arrays A⦄ (v : A) (s : Labels) (cs : List Labels) (p : Labels) where
    add_each_lem :
        (done g out : Gradients A)
        → Makes g out
        → are_valid v s cs p out ≡ true
        → apart (parameters done) (parameters out) ≡ true
        → add_each make (block v s cs p done) g ≡ ok (block v s cs p (append done out))
    unfolding add_each are_valid
    add_each_lem done no_gradient no_gradient made valid fresh =
        ap (λ h. ok (block v s cs p h)) (sym (append-no_gradient done))
    add_each_lem done no_gradient (gradient m c out) made valid fresh = absurd made
    add_each_lem done (gradient n b rest) no_gradient made valid fresh = absurd made
    add_each_lem done (gradient n b rest) (gradient m c out) (same, flat, made, others) valid
          fresh =
        let (fits, like, later, c_valid, out_valid) = valid_facts v s cs p m c out valid in
        let (comps, c_owned) = gradient_facts p c c_valid in
        let (unseen, out_new) = and_true (not (contains (parameters done) m)) _ fresh in
        rw (flat, made, same, add_again v s cs p done m c like (ground arith) fits comps)
          (add_each_lem (push_gradient m c done) rest out others out_valid (
              rw parameters-push_gradient
                (apart_snoc (parameters done) m (parameters out) out_new later))
            ∙ ap (λ h. ok (block v s cs p h)) (append-push_gradient m c done out))

    -- Where the gradients that `make` makes belong to the new block, the block is made with them.
    pub rebuild_lem :
        (g out : Gradients A)
        → Makes g out
        → is_valid (block v s cs p out) ≡ true
        → (new v s cs p >>= λ b. add_each make b g) ≡ ok (block v s cs p out)
    rebuild_lem g out made valid = rw (new_block v s cs p out valid) (
        add_each_lem no_gradient g out made (valid_gradients v s cs p out valid)
          (apart_nil (parameters out)))
