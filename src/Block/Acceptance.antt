-- ===== src/Block/Acceptance.antt =====
-- `add_gradient` of block.py and blocks.rs: which blocks are accepted as gradients of a block.
use aml_storage.Prelude.{
  ℕ, zero, suc, ◌-◌, ◌<◌, pos, negsuc, String, ◌≡◌, ◌↔◌, refl, ap, ap₂, ◌∙◌, Bool, true, false, not,
  List, [], ◌∷◌, ◌++◌, arith, length, length-append, all, drop, nat_beq_iff, leb, nat_eq, int_eq,
  string_eq, list_eq, contains, contains-all, and_true, beq_refl,
}
use aml_storage.Result.{ok}
use aml_storage.Labels.Rows.{Row}
use aml_storage.Labels.Core.{Labels, len}
use aml_storage.Labels.Equality.{equal_refl, equal_eq}
use aml_storage.Block.Core.{
  Arrays, TensorBlock, block, values, samples, components, properties, gradients_list,
  starts_with_sample, refers_below, same_labels, push_gradient, add_gradient,
}
use aml_storage.Block.Valid.{is_valid, belongs, are_owned, own_facts, is_component}
use aml_storage.Block.Gradients.{add_gradient_lem, added_facts, IsExtended, add_gradient-IsExtended}

module _ {A : Type 0} ⦃arrays : Arrays A⦄ where
  -- What a block `g` has to be for it to be a gradient of `b` for a new parameter: its array has
  -- the element type, the device and the library of those of `b`; the first dimension of its
  -- samples is "sample", and each of its samples starts with the position of a sample of `b`;
  -- its properties are those of `b`, and its last components are those of `b`.
  pub record CanBeGradient (b : TensorBlock A) (parameter : String) (g : TensorBlock A)
      : Type 0 where
    pub is_new : contains (gradients_list b) parameter ≡ false
    pub same_dtype : arrays.dtype (values b) ≡ arrays.dtype (values g)
    pub same_device : arrays.device (values b) ≡ arrays.device (values g)
    pub same_origin : arrays.origin (values g) ≡ arrays.origin (values b)
    pub sample_first : (others : List String) × ((samples g).names ≡ "sample" ∷ others)
    pub refers :
        (row : Row)
        → contains (samples g).values row ≡ true
        → (i : ℕ) × (others : Row) × (row ≡ pos i ∷ others) × (i < len (samples b))
    pub same_properties : properties g ≡ properties b
    pub last_components : (first : List Labels) × (components g ≡ first ++ components b)

starts_with_sample_to :
    (names : List String)
    → starts_with_sample names ≡ true
    → (others : List String) × (names ≡ "sample" ∷ others)
unfolding starts_with_sample
starts_with_sample_to [] h = absurd (ground arith)
starts_with_sample_to (name ∷ names) h =
    (names, ap (λ n. n ∷ names) ((string_eq.beq_iff name "sample").0 h))

starts_with_sample_from :
    (names others : List String) → names ≡ "sample" ∷ others → starts_with_sample names ≡ true
unfolding starts_with_sample
starts_with_sample_from names others e = rw e refl

refers_below_to :
    (n : ℕ) (row : Row)
    → refers_below n row ≡ true
    → (i : ℕ) × (others : Row) × (row ≡ pos i ∷ others) × (i < n)
unfolding refers_below
refers_below_to n [] h = absurd (ground arith)
refers_below_to n (pos i ∷ row) h = (i, row, refl, ground arith)
refers_below_to n (negsuc k ∷ row) h = absurd (ground arith)

refers_below_from :
    (n : ℕ) (row : Row) (i : ℕ) (others : Row)
    → row ≡ pos i ∷ others
    → i < n
    → refers_below n row ≡ true
unfolding refers_below
refers_below_from n row i others e h = rw e (ground arith)

all_from :
    (p : Row → Bool) (rows : List Row)
    → ((row : Row) → contains rows row ≡ true → p row ≡ true)
    → all p rows ≡ true
unfolding contains
all_from p [] h = refl
all_from p (row ∷ rows) h =
    rw (h row (ground (arith, beq_refl row))) (all_from p rows (λ r m. h r (ground arith)))

same_labels_refl : (cs : List Labels) → same_labels cs cs ≡ true
unfolding same_labels
same_labels_refl [] = refl
same_labels_refl (c ∷ cs) = ground (arith, equal_refl c, same_labels_refl cs)

same_labels_eq :
    (cs ds : List Labels)
    → all (λ c. not c.is_view) cs ≡ true
    → all (λ d. not d.is_view) ds ≡ true
    → same_labels cs ds ≡ true
    → cs ≡ ds
unfolding same_labels
same_labels_eq [] [] a b h = refl
same_labels_eq [] (d ∷ ds) a b h = absurd (ground arith)
same_labels_eq (c ∷ cs) [] a b h = absurd (ground arith)
same_labels_eq (c ∷ cs) (d ∷ ds) a b h =
    ap₂ (λ x xs. x ∷ xs) (equal_eq c d (ground arith) (ground arith) (ground arith))
      (same_labels_eq cs ds (ground arith) (ground arith) (ground arith))

drop_rest : (n : ℕ) (cs : List Labels) → (first : List Labels) × (cs ≡ first ++ drop n cs)
drop_rest zero cs = ([], refl)
drop_rest (suc n) [] = ([], refl)
drop_rest (suc n) (c ∷ cs) = let (first, e) = drop_rest n cs in (c ∷ first, ap (λ ds. c ∷ ds) e)

all-drop :
    (p : Labels → Bool) (n : ℕ) (cs : List Labels) → all p cs ≡ true → all p (drop n cs) ≡ true
all-drop p zero cs h = h
all-drop p (suc n) [] h = refl
all-drop p (suc n) (c ∷ cs) h = all-drop p n cs (and_true (p c) _ h).1

drop-append : (first cs : List Labels) → drop (length first) (first ++ cs) ≡ cs
drop-append [] cs = refl
drop-append (c ∷ first) cs = drop-append first cs

drop_first : (first cs ds : List Labels) → ds ≡ first ++ cs → drop (length ds - length cs) ds ≡ cs
drop_first first cs ds e =
    ap₂ drop (omega (arith, ap length e, length-append first cs)) e ∙ drop-append first cs

module _ {A : Type 0} ⦃arrays : Arrays A⦄ where
  belongs_to :
      (v w : A) (s : Labels) (cs : List Labels) (p : Labels) (s' : Labels) (cs' : List Labels)
      (p' : Labels)
      → are_owned s cs p ≡ true
      → are_owned s' cs' p' ≡ true
      → belongs (arrays.origin v) (arrays.origin w) s cs p s' cs' p' ≡ true
      → (p' ≡ p) × ((first : List Labels) × (cs' ≡ first ++ cs))
  belongs_to v w s cs p s' cs' p' own own' h =
      let (first, whole) = drop_rest (length cs' - length cs) cs' in
      let owned : all (λ c. not c.is_view) (drop (length cs' - length cs) cs') ≡ true =
        all-drop (λ c. not c.is_view) (length cs' - length cs) cs' (ground arith) in
      let last =
        same_labels_eq (drop (length cs' - length cs) cs') cs owned (ground arith) (ground arith) in
      (
        equal_eq p' p (ground arith) (ground arith) (ground arith),
        (first, whole ∙ ap (λ ds. first ++ ds) last),
      )

  belongs_from :
      (v w : A) (s : Labels) (cs : List Labels) (p : Labels) (s' : Labels) (cs' : List Labels)
      (p' : Labels) (others : List String) (first : List Labels)
      → arrays.origin w ≡ arrays.origin v
      → s'.names ≡ "sample" ∷ others
      → all (refers_below (len s)) s'.values ≡ true
      → p' ≡ p
      → cs' ≡ first ++ cs
      → belongs (arrays.origin v) (arrays.origin w) s cs p s' cs' p' ≡ true
  belongs_from v w s cs p s' cs' p' others first from named refer same last =
      let longer : leb (length cs) (length cs') ≡ true =
        ground (arith, ap length last, length-append first cs) in
      rw
        (
          (nat_beq_iff (arrays.origin w) (arrays.origin v)).1 from,
          starts_with_sample_from s'.names others named,
          refer,
          longer,
          same,
          equal_refl p,
          drop_first first cs cs' last,
        )
        (same_labels_refl cs)

  can_be_gradient :
      (b : TensorBlock A) (parameter : String) (g c : TensorBlock A)
      → is_valid b ≡ true
      → is_valid g ≡ true
      → add_gradient b parameter g ≡ ok c
      → CanBeGradient b parameter g
  can_be_gradient (block v s cs p gs) parameter (block w s' cs' p' gs') c vb vg h =
      let (new, fits, like, _) = added_facts v s cs p gs parameter (block w s' cs' p' gs') c h in
      let (_, own, _) = own_facts v s cs p gs vb in
      let (_, own', _) = own_facts w s' cs' p' gs' vg in
      let (same, last) = belongs_to v w s cs p s' cs' p' own own' fits in
      record {
        is_new = new;
        same_dtype = ground arith;
        same_device = ground arith;
        same_origin = ground arith;
        sample_first = starts_with_sample_to s'.names (ground arith);
        refers = λ row m.
            refers_below_to (len s) row
              (contains-all (refers_below (len s)) s'.values row (ground arith) m);
        same_properties = same;
        last_components = last;
      }

  accepted :
      (b : TensorBlock A) (parameter : String) (g : TensorBlock A)
      → is_valid g ≡ true
      → CanBeGradient b parameter g
      → (c : TensorBlock A) × (add_gradient b parameter g ≡ ok c)
  accepted (block v s cs p gs) parameter (block w s' cs' p' gs') vg can =
      let (described, _, _) = own_facts w s' cs' p' gs' vg in
      let (others, named) = can.sample_first in
      let (first, last) = can.last_components in
      let refer = all_from (refers_below (len s)) s'.values λ row m.
        let (i, rest, is_row, below) = can.refers row m in
        refers_below_from (len s) row i rest is_row below in
      let fits =
        belongs_from v w s cs p s' cs' p' others first can.same_origin named refer
          can.same_properties last in
      let comps : all is_component cs' ≡ true = ground arith in
      (
        block v s cs p (push_gradient parameter (block w s' cs' p' gs') gs),
        add_gradient_lem v s cs p gs parameter (block w s' cs' p' gs')
            ∙ rw
                (
                  (nat_beq_iff (arrays.dtype v) (arrays.dtype w)).1 can.same_dtype,
                  (nat_beq_iff (arrays.device v) (arrays.device w)).1 can.same_device,
                  can.is_new,
                  fits,
                  comps,
                )
                refl,
      )

  -- For a valid block and a valid gradient, `add_gradient` returns, and its result is the block
  -- with the gradient behind the others, as `IsExtended` says, exactly where the gradient can be
  -- one of the block for the parameter, as `CanBeGradient` says.
  pub add_gradient-CanBeGradient :
      (b : TensorBlock A) (parameter : String) (g : TensorBlock A)
      → is_valid b ≡ true
      → is_valid g ≡ true
      → ((c : TensorBlock A) × (add_gradient b parameter g ≡ ok c) × IsExtended b parameter g c)
        ↔ CanBeGradient b parameter g
  add_gradient-CanBeGradient b parameter g vb vg = (
    λ made. can_be_gradient b parameter g made.0 vb vg made.1,
    λ can.
        let (c, made) = accepted b parameter g vg can in
        (c, made, add_gradient-IsExtended b parameter g vb vg made),
  )
