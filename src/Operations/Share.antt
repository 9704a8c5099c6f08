-- ===== src/Operations/Share.antt =====
-- The rebuilding of a block from the parts of another one, "just increase the reference count on
-- everything", that filter_blocks.py and drop_blocks.py spell out alike.
use aml_storage.Prelude.{
  ℕ, String, ◌≡◌, refl, sym, ap, ◌∙◌, Bool, true, false, ◌&&◌, not, List, [], ◌∷◌, ◌++◌, arith,
  is_empty, all, int_eq, list_eq, string_eq, list_beq_iff, contains, contains-append, and_true,
}
use aml_storage.Result.{Result, ok, guard, ◌>>=◌, ◌>>◌, not_implemented_error}
use aml_storage.Labels.Core.{Labels, equal}
use aml_storage.Block.Core.{
  Arrays, TensorBlock, block, Gradients, no_gradient, gradient, values, samples, components,
  properties, gradients, parameters, gradients_list, push_gradient, new, add_gradient,
}
use aml_storage.Block.Valid.{is_valid, are_valid, belongs, is_component, alike, new_lem}
use aml_storage.Block.Gradients.{add_gradient_lem, parameters-push_gradient}

module _ {A : Type 0} ⦃arrays : Arrays A⦄ where
  -- The loop over `block.gradients()`.
  unfoldable pub share_gradients : TensorBlock A → Gradients A → Result (TensorBlock A)
  share_gradients new_block no_gradient = ok new_block
  share_gradients new_block (gradient parameter g rest) = do
    guard (is_empty (gradients_list g)) not_implemented_error
    g' ← new (values g) (samples g) (components g) (properties new_block)
    new_block' ← add_gradient new_block parameter g'
    share_gradients new_block' rest

  unfoldable pub share_block : TensorBlock A → Result (TensorBlock A)
  unfolding share_gradients
  share_block b = do
    new_block ← new (values b) (samples b) (components b) (properties b)
    share_gradients new_block (gradients b)

module _ {A : Type 0} where
  -- No gradient has gradients.
  abbrev pub is_flat : Gradients A → Bool
  is_flat no_gradient = true
  is_flat (gradient parameter g rest) = is_empty (gradients_list g) && is_flat rest

  -- Gradients one after the other.
  abbrev pub append : Gradients A → Gradients A → Gradients A
  append no_gradient h = h
  append (gradient parameter g rest) h = gradient parameter g (append rest h)

  pub append-push_gradient :
      (parameter : String) (g : TensorBlock A) (h rest : Gradients A)
      → append (push_gradient parameter g h) rest ≡ append h (gradient parameter g rest)
  unfolding push_gradient
  append-push_gradient parameter g no_gradient rest = refl
  append-push_gradient parameter g (gradient other c h) rest =
      ap (gradient other c) (append-push_gradient parameter g h rest)

  pub append-no_gradient : (h : Gradients A) → append h no_gradient ≡ h
  append-no_gradient no_gradient = refl
  append-no_gradient (gradient other c h) = ap (gradient other c) (append-no_gradient h)

-- No parameter of `rest` is one of `done`.
abbrev pub apart : List String → List String → Bool
apart done rest = all (λ n. not (contains done n)) rest

pub apart_snoc :
    (done : List String) (name : String) (rest : List String)
    → apart done rest ≡ true
    → contains rest name ≡ false
    → apart (done ++ name ∷ []) rest ≡ true
unfolding contains
apart_snoc done name [] h fresh = refl
apart_snoc done name (n ∷ rest) h fresh = ground (
  arith,
  apart_snoc done name rest,
  contains-append done (name ∷ []) n,
  string_eq.beq_iff n name,
  string_eq.beq_iff name n,
)

-- Labels that are equal for the library, and no views, are the same.
pub equal-eq : (a b : Labels) → equal a b ≡ true → a.is_view ≡ false → b.is_view ≡ false → a ≡ b
unfolding equal
equal-eq a b h va vb = ground (arith, list_beq_iff a.names b.names, list_beq_iff a.values b.values)

same_properties :
    (o o' : ℕ) (s : Labels) (cs : List Labels) (p s' : Labels) (cs' : List Labels) (p' : Labels)
    → belongs o o' s cs p s' cs' p' ≡ true
    → p.is_view ≡ false
    → p'.is_view ≡ false
    → p ≡ p'
same_properties o o' s cs p s' cs' p' h vp vp' = sym (equal-eq p' p (ground arith) vp' vp)

pub apart_nil : (rest : List String) → apart [] rest ≡ true
unfolding contains
apart_nil [] = refl
apart_nil (n ∷ rest) = apart_nil rest

module _ {A : Type 0} ⦃arrays : Arrays A⦄ where
  -- A gradient without gradients is made again from its parts.
  pub gradient_again :
      (p : Labels) (g : TensorBlock A)
      → is_valid g ≡ true
      → is_empty (gradients_list g) ≡ true
      → p ≡ properties g
      → new (values g) (samples g) (components g) p ≡ ok g
  unfolding is_valid
  gradient_again p (block v s cs q no_gradient) valid flat same =
      rw same (new_lem v s cs q ∙ ground arith)
  gradient_again p (block v s cs q (gradient n c h)) valid flat same = cc

  -- What the loop needs of a valid gradient.
  pub gradient_facts :
      (p : Labels) (g : TensorBlock A)
      → is_valid g ≡ true
      → (all is_component (components g) ≡ true) × ((properties g).is_view ≡ false)
  unfolding is_valid
  gradient_facts p (block v s cs q h) valid = ground arith

  pub add_again :
      (v : A) (s : Labels) (cs : List Labels) (p : Labels) (done : Gradients A) (name : String)
      (g : TensorBlock A)
      → alike v (values g) ≡ true
      → contains (parameters done) name ≡ false
      → belongs
          (arrays.origin v)
          (arrays.origin (values g))
          s
          cs
          p
          (samples g)
          (components g)
          (properties g)
        ≡ true
      → all is_component (components g) ≡ true
      → add_gradient (block v s cs p done) name g ≡ ok (block v s cs p (push_gradient name g done))
  add_again v s cs p done name g same new fits comps =
      add_gradient_lem v s cs p done name g ∙ ground arith

  pub valid_facts :
      (v : A) (s : Labels) (cs : List Labels) (p : Labels) (name : String) (g : TensorBlock A)
      (rest : Gradients A)
      → are_valid v s cs p (gradient name g rest) ≡ true
      → (belongs
            (arrays.origin v)
            (arrays.origin (values g))
            s
            cs
            p
            (samples g)
            (components g)
            (properties g)
          ≡ true)
        × (alike v (values g) ≡ true)
        × (contains (parameters rest) name ≡ false)
        × (is_valid g ≡ true)
        × (are_valid v s cs p rest ≡ true)
  unfolding are_valid
  valid_facts v s cs p name g rest h = ground arith

  share_gradients_lem :
      (v : A) (s : Labels) (cs : List Labels) (p : Labels) (done rest : Gradients A)
      → p.is_view ≡ false
      → are_valid v s cs p rest ≡ true
      → is_flat rest ≡ true
      → apart (parameters done) (parameters rest) ≡ true
      → share_gradients (block v s cs p done) rest ≡ ok (block v s cs p (append done rest))
  unfolding share_gradients are_valid
  share_gradients_lem v s cs p done no_gradient owned valid flat fresh =
      ap (λ h. ok (block v s cs p h)) (sym (append-no_gradient done))
  share_gradients_lem v s cs p done (gradient name g rest) owned valid flat fresh =
      let (fits, same, later, g_valid, rest_valid) = valid_facts v s cs p name g rest valid in
      let (comps, p_owned) = gradient_facts p g g_valid in
      let (g_flat, rest_flat) = and_true (is_empty (gradients_list g)) _ flat in
      let (unseen, rest_new) = and_true (not (contains (parameters done) name)) _ fresh in
      rw
        (
          g_flat,
          gradient_again p g g_valid g_flat (
              same_properties _ _ s cs p (samples g) (components g) (properties g) fits owned
                p_owned),
          add_again v s cs p done name g same (ground arith) fits comps,
        )
        (share_gradients_lem v s cs p (push_gradient name g done) rest owned rest_valid rest_flat (
            rw parameters-push_gradient
              (apart_snoc (parameters done) name (parameters rest) rest_new later))
          ∙ ap (λ h. ok (block v s cs p h)) (append-push_gradient name g done rest))

  pub new_block :
      (v : A) (s : Labels) (cs : List Labels) (p : Labels) (g : Gradients A)
      → is_valid (block v s cs p g) ≡ true
      → new v s cs p ≡ ok (block v s cs p no_gradient)
  unfolding is_valid
  new_block v s cs p g valid = new_lem v s cs p ∙ ground arith

  pub owned_properties :
      (v : A) (s : Labels) (cs : List Labels) (p : Labels) (g : Gradients A)
      → is_valid (block v s cs p g) ≡ true
      → p.is_view ≡ false
  unfolding is_valid
  owned_properties v s cs p g valid = ground arith

  pub valid_gradients :
      (v : A) (s : Labels) (cs : List Labels) (p : Labels) (g : Gradients A)
      → is_valid (block v s cs p g) ≡ true
      → are_valid v s cs p g ≡ true
  unfolding is_valid
  valid_gradients v s cs p g valid = ground arith

  -- Rebuilding a valid block whose gradients have no gradients, as `filter_blocks` and
  -- `drop_blocks` do, returns the block, with all its gradients in order.
  pub share_block_lem :
      (b : TensorBlock A) → is_valid b ≡ true → is_flat (gradients b) ≡ true → share_block b ≡ ok b
  unfolding share_block is_valid
  share_block_lem (block v s cs p g) valid flat = rw (new_block v s cs p g valid) (
      share_gradients_lem v s cs p no_gradient g (owned_properties v s cs p g valid)
        (valid_gradients v s cs p g valid) flat (apart_nil (parameters g)))
