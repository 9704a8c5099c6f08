-- ===== src/Block/Gradients.antt =====
-- `add_gradient` of block.py and blocks.rs: its outcome by cases, and the block that it makes.
use aml_storage.Prelude.{
  String, ◌≡◌, refl, ap, true, false, ◌&&◌, not, some, List, [], ◌∷◌, ◌++◌, arith, all, nat_beq,
  if◌then◌else◌, ◌==◌, int_eq, list_eq, string_eq, contains, contains-append, and_true, and_intro,
  subst,
}
use aml_storage.Result.{ok, err, value_error, metatensor_error}
use aml_storage.Labels.Core.{Labels}
use aml_storage.Block.Core.{
  Arrays, TensorBlock, block, Gradients, no_gradient, gradient, values, samples, components,
  properties, gradients, parameters, gradients_list, find_gradient, push_gradient,
  rust_add_gradient, add_gradient,
}
use aml_storage.Block.Valid.{
  is_valid, are_valid, belongs, describes, alike, are_owned, is_component,
}

module _ {A : Type 0} where
  pub parameters-push_gradient :
      (name : String) (b : TensorBlock A) (g : Gradients A)
      → parameters (push_gradient name b g) ≡ parameters g ++ name ∷ []
  unfolding push_gradient
  parameters-push_gradient name b no_gradient = refl
  parameters-push_gradient name b (gradient other c rest) =
      ap (λ ns. other ∷ ns) (parameters-push_gradient name b rest)

  -- A new parameter stands after the others, so the first one found stays the first.
  find_gradient-push_gradient :
      (name : String) (b : TensorBlock A) (g : Gradients A) (q : String)
      → contains (parameters g) name ≡ false
      → find_gradient q (push_gradient name b g) ≡ (if name == q then some b else find_gradient q g)
  unfolding push_gradient find_gradient contains
  find_gradient-push_gradient name b no_gradient q h = ground arith
  find_gradient-push_gradient name b (gradient other c rest) q h = ground (
    arith,
    find_gradient-push_gradient name b rest q,
    string_eq.beq_iff name other,
    string_eq.beq_iff other q,
    string_eq.beq_iff name q,
  )

module _ {A : Type 0} ⦃arrays : Arrays A⦄ where
  push_gradient-are_valid :
      (v : A) (s : Labels) (cs : List Labels) (p : Labels) (name : String) (b : TensorBlock A)
      (g : Gradients A)
      → contains (parameters g) name ≡ false
      → belongs
          (arrays.origin v)
          (arrays.origin (values b))
          s
          cs
          p
          (samples b)
          (components b)
          (properties b)
        ≡ true
      → alike v (values b) ≡ true
      → is_valid b ≡ true
      → are_valid v s cs p g ≡ true
      → are_valid v s cs p (push_gradient name b g) ≡ true
  unfolding push_gradient are_valid contains
  push_gradient-are_valid v s cs p name b no_gradient new fits same valid rest = ground arith
  push_gradient-are_valid v s cs p name b (gradient other c g) new fits same valid rest = ground (
    arith,
    push_gradient-are_valid v s cs p name b g,
    parameters-push_gradient name b g,
    contains-append (parameters g) (name ∷ []) other,
    string_eq.beq_iff name other,
    string_eq.beq_iff other name,
  )

  pub rust_add_gradient_lem :
      (v : A) (s : Labels) (cs : List Labels) (p : Labels) (g : Gradients A) (parameter : String)
      (b : TensorBlock A)
      → rust_add_gradient (block v s cs p g) parameter b ≡ (
          if not (contains (parameters g) parameter)
            && belongs
                (arrays.origin v)
                (arrays.origin (values b))
                s
                cs
                p
                (samples b)
                (components b)
                (properties b)
            && all is_component (components b)
          then ok (block v s cs p (push_gradient parameter b g))
          else err metatensor_error)
  unfolding rust_add_gradient
  rust_add_gradient_lem v s cs p g parameter b = ground arith

  -- The outcome of every call on a block: a ValueError where the element types or the devices
  -- differ, else a MetatensorError where the parameter is there already, the gradient does not
  -- belong to the block, or one of its components is no component; else the new gradient stands
  -- after the others, and nothing else changes.
  pub add_gradient_lem :
      (v : A) (s : Labels) (cs : List Labels) (p : Labels) (g : Gradients A) (parameter : String)
      (b : TensorBlock A)
      → add_gradient (block v s cs p g) parameter b ≡ (
          if nat_beq (arrays.dtype v) (arrays.dtype (values b))
            && nat_beq (arrays.device v) (arrays.device (values b))
          then if not (contains (parameters g) parameter)
              && belongs
                  (arrays.origin v)
                  (arrays.origin (values b))
                  s
                  cs
                  p
                  (samples b)
                  (components b)
                  (properties b)
              && all is_component (components b)
            then ok (block v s cs p (push_gradient parameter b g))
            else err metatensor_error
          else err value_error)
  unfolding add_gradient
  add_gradient_lem v s cs p g parameter b = ground arith

  pub added_facts :
      (v : A) (s : Labels) (cs : List Labels) (p : Labels) (g : Gradients A) (parameter : String)
      (b c : TensorBlock A)
      → add_gradient (block v s cs p g) parameter b ≡ ok c
      → (contains (parameters g) parameter ≡ false)
        × (belongs
              (arrays.origin v)
              (arrays.origin (values b))
              s
              cs
              p
              (samples b)
              (components b)
              (properties b)
            ≡ true)
        × (alike v (values b) ≡ true)
        × (block v s cs p (push_gradient parameter b g) ≡ c)
  added_facts v s cs p g parameter b c h = ground (arith, add_gradient_lem v s cs p g parameter b)

  -- A block with one more gradient: it satisfies the invariant, its values and labels are those
  -- of `b`, the parameter stands behind those of `b`, and a look-up finds the new gradient under
  -- its parameter and what it found before under any other.
  pub record IsExtended (b : TensorBlock A) (parameter : String) (g c : TensorBlock A)
      : Type 0 where
    pub valid : is_valid c ≡ true
    pub order : gradients_list c ≡ gradients_list b ++ parameter ∷ []
    pub look_up :
        (q : String)
        → find_gradient q (gradients c)
          ≡ (if parameter == q then some g else find_gradient q (gradients b))
    pub same_values : values c ≡ values b
    pub same_samples : samples c ≡ samples b
    pub same_components : components c ≡ components b
    pub same_properties : properties c ≡ properties b

  -- Adding a valid gradient to a valid block, when it succeeds, gives a block that is extended by
  -- this gradient, as `IsExtended` says.
  pub add_gradient-IsExtended :
      (b : TensorBlock A) (parameter : String) (g : TensorBlock A) {c : TensorBlock A}
      → is_valid b ≡ true
      → is_valid g ≡ true
      → add_gradient b parameter g ≡ ok c
      → IsExtended b parameter g c
  unfolding is_valid
  add_gradient-IsExtended (block v s cs p gs) parameter g {c} vb vg h =
      let (new, fits, same, e) = added_facts v s cs p gs parameter g c h in
      let labelled = describes (arrays.shape v) s cs p && are_owned s cs p in
      let (as_labelled, gradients_valid) = and_true labelled _ vb in
      subst (IsExtended (block v s cs p gs) parameter g) e (record {
        valid =
            and_intro labelled _ as_labelled
              (push_gradient-are_valid v s cs p parameter g gs new fits same vg gradients_valid);
        order = parameters-push_gradient parameter g gs;
        look_up = λ q. find_gradient-push_gradient parameter g gs q new;
        same_values = refl;
        same_samples = refl;
        same_components = refl;
        same_properties = refl;
      })
