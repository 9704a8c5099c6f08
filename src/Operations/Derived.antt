-- ===== src/Operations/Derived.antt =====
-- Blocks made from a block by an operation on its arrays, with its labels: what the operations of
-- detach.py, add.py and zeros_like.py make.
use aml_storage.Prelude.{String, ◌≡◌, refl, ap, true, List, ◌∷◌, is_empty, string_eq, nat_eq}
use aml_storage.Result.{Result, ok, ◌>>=◌}
use aml_storage.Labels.Core.{Labels}
use aml_storage.Block.Core.{
  Arrays, TensorBlock, block, Gradients, no_gradient, gradient, values, samples, components,
  properties, gradients, parameters, gradients_list, new,
}
use aml_storage.Block.Valid.{is_valid, are_valid, belongs, alike}
use aml_storage.Operations.Share.{valid_facts, new_block}
use aml_storage.Operations.Rebuild.{add_each, Makes, rebuild_lem}
use aml_storage.Block.Valid.{own_facts, is_valid_intro}

module _ {A : Type 0} where
  -- The gradients with other arrays, and their labels and parameters.
  abbrev pub derived : (String → TensorBlock A → A) → Gradients A → Gradients A
  derived h no_gradient = no_gradient
  derived h (gradient name g rest) =
      gradient name (block (h name g) (samples g) (components g) (properties g) no_gradient)
        (derived h rest)

  -- The block with other arrays, and its labels and parameters.
  abbrev pub derived_block : A → (String → TensorBlock A → A) → TensorBlock A → TensorBlock A
  derived_block v h (block w s cs p g) = block v s cs p (derived h g)

  parameters-derived :
      (h : String → TensorBlock A → A) (g : Gradients A) → parameters (derived h g) ≡ parameters g
  parameters-derived h no_gradient = refl
  parameters-derived h (gradient name g rest) =
      ap (λ names. name ∷ names) (parameters-derived h rest)

module _ {A : Type 0} ⦃arrays : Arrays A⦄ where
  -- A new block with `f` of the values, and with `h` of the values of each gradient.
  unfoldable pub with_arrays : (A → A) → (A → A) → TensorBlock A → Result (TensorBlock A)
  unfolding add_each
  with_arrays f h b = do
    new_block ← new (f (values b)) (samples b) (components b) (properties b)
    add_each (λ parameter g. new (h (values g)) (samples g) (components g) (properties g)) new_block
        (gradients b)

  -- An array of the same shape, from the same library.
  abbrev pub SameForm : A → A → Type 0
  SameForm a b = (arrays.shape a ≡ arrays.shape b) × (arrays.origin a ≡ arrays.origin b)

  -- Each gradient has no gradients, and its new array has the form of the one it has, and the
  -- element type and the device of `v`.
  abbrev pub Fitting : A → (String → TensorBlock A → A) → Gradients A → Type 0
  Fitting v h no_gradient = Unit
  Fitting v h (gradient name g rest) =
      SameForm (h name g) (values g)
      × (alike v (h name g) ≡ true)
      × (is_empty (gradients_list g) ≡ true)
      × Fitting v h rest

  -- `make` makes each gradient of its new array.
  abbrev pub Making :
      (String → TensorBlock A → Result (TensorBlock A))
      → (String → TensorBlock A → A)
      → Gradients A
      → Type 0
  Making make h no_gradient = Unit
  Making make h (gradient name g rest) =
      (make name g ≡ new (h name g) (samples g) (components g) (properties g)) × Making make h rest

  pub Making-itself :
      (g : Gradients A) (h : String → TensorBlock A → A)
      → Making (λ name c. new (h name c) (samples c) (components c) (properties c)) h g
  Making-itself no_gradient h = tt
  Making-itself (gradient name g rest) h = (refl, Making-itself rest h)

  derived_gradient :
      (v w : A) (s : Labels) (cs : List Labels) (p : Labels) (g : TensorBlock A) (u : A)
      → SameForm w v
      → SameForm u (values g)
      → belongs
          (arrays.origin v)
          (arrays.origin (values g))
          s
          cs
          p
          (samples g)
          (components g)
          (properties g)
        ≡ true
      → is_valid g ≡ true
      → (belongs
            (arrays.origin w)
            (arrays.origin u)
            s
            cs
            p
            (samples g)
            (components g)
            (properties g)
          ≡ true)
        × (is_valid (block u (samples g) (components g) (properties g) no_gradient) ≡ true)
  unfolding are_valid
  derived_gradient v w s cs p (block v' s' cs' p' h) u (shape, origin) (shape', origin') fits
        valid =
      let (described, owned, _) = own_facts v' s' cs' p' h valid in
      (
        rw (origin, origin') fits,
        is_valid_intro u s' cs' p' no_gradient (rw shape' described) owned refl,
      )

  are_valid-derived :
      (v w : A) (s : Labels) (cs : List Labels) (p : Labels) (h : String → TensorBlock A → A)
      (g : Gradients A)
      → SameForm w v
      → Fitting w h g
      → are_valid v s cs p g ≡ true
      → are_valid w s cs p (derived h g) ≡ true
  unfolding are_valid
  are_valid-derived v w s cs p h no_gradient same fitting valid = refl
  are_valid-derived v w s cs p h (gradient name g rest) same (form, like, flat, others) valid =
      let (fits, _, later, g_valid, rest_valid) = valid_facts v s cs p name g rest valid in
      let (fits', g_valid') = derived_gradient v w s cs p g (h name g) same form fits g_valid in
      let rest' = are_valid-derived v w s cs p h rest same others rest_valid in
      rw (fits', like, parameters-derived h rest, later, g_valid') rest'

  Makes-derived :
      (make : String → TensorBlock A → Result (TensorBlock A)) (v w : A) (s : Labels)
      (cs : List Labels) (p : Labels) (h : String → TensorBlock A → A) (g : Gradients A)
      → SameForm w v
      → Fitting w h g
      → Making make h g
      → are_valid v s cs p g ≡ true
      → Makes make g (derived h g)
  Makes-derived make v w s cs p h no_gradient same fitting making valid = tt
  Makes-derived make v w s cs p h (gradient name g rest) same (form, like, flat, others)
        (made, makes) valid =
      let (fits, _, _, g_valid, rest_valid) = valid_facts v s cs p name g rest valid in
      let (_, g_valid') = derived_gradient v w s cs p g (h name g) same form fits g_valid in
      (
        refl,
        flat,
        rw made
            (new_block (h name g) (samples g) (components g) (properties g) no_gradient g_valid'),
        Makes-derived make v w s cs p h rest same others makes rest_valid,
      )

  pub is_valid-derived_block :
      (w : A) (h : String → TensorBlock A → A) (b : TensorBlock A)
      → is_valid b ≡ true
      → SameForm w (values b)
      → Fitting w h (gradients b)
      → is_valid (derived_block w h b) ≡ true
  is_valid-derived_block w h (block v s cs p g) valid (shape, origin) fitting =
      let (described, owned, g_valid) = own_facts v s cs p g valid in
      is_valid_intro w s cs p (derived h g) (rw shape described) owned
        (are_valid-derived v w s cs p h g (shape, origin) fitting g_valid)

  -- A block is derived from a valid one by making its gradients from theirs.
  pub derived_block_lem :
      (make : String → TensorBlock A → Result (TensorBlock A)) (w : A)
      (h : String → TensorBlock A → A) (b : TensorBlock A)
      → is_valid b ≡ true
      → SameForm w (values b)
      → Fitting w h (gradients b)
      → Making make h (gradients b)
      → ((new w (samples b) (components b) (properties b) >>= λ nb. add_each make nb (gradients b))
          ≡ ok (derived_block w h b))
        × (is_valid (derived_block w h b) ≡ true)
  derived_block_lem make w h (block v s cs p g) valid same fitting making =
      let (_, _, g_valid) = own_facts v s cs p g valid in
      let whole = is_valid-derived_block w h (block v s cs p g) valid same fitting in
      (
        rebuild_lem make w s cs p g (derived h g)
            (Makes-derived make v w s cs p h g same fitting making g_valid) whole,
        whole,
      )
