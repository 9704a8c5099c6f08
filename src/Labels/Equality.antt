-- ===== src/Labels/Equality.antt =====
-- `Labels.__eq__` of labels.py, on labels that own their data.
use aml_storage.Prelude.{
  ◌≡◌, sym, ◌∙◌, true, false, arith, ◌==◌, int_eq, string_eq, list_eq, beq_refl, beq_eq, and_true,
}
use aml_storage.Labels.Core.{Labels, equal}

pub equal_refl : (l : Labels) → equal l l ≡ true
unfolding equal
equal_refl l = ground (arith, beq_refl l.names, beq_refl l.values)

pub equal_eq : (l m : Labels) → l.is_view ≡ false → m.is_view ≡ false → equal l m ≡ true → l ≡ m
unfolding equal
equal_eq l m a b h =
    let (n, v) = and_true (l.names == m.names) _ h in
    let names = beq_eq l.names m.names n in
    let values = beq_eq l.values m.values v in
    let views = a ∙ sym b in λ i. record { names = names i; values = values i; is_view = views i }
