-- ===== src/Labels/Mappings.antt =====
-- The mappings that `Labels::union` and `Labels::intersection` (labels.rs) fill where they are
-- requested.
use aml_storage.Prelude.{
  ℕ, suc, zero, ◌≡◌, refl, ap, List, [], ◌∷◌, arith, length, replicate, nat_beq_iff,
  length-replicate,
}
use aml_storage.Result.{ok}
use aml_storage.Labels.Core.{Labels, len}
use aml_storage.Labels.Sets.{written, check_mapping}

module _ {A : Type 0} (start : A) where
  -- A mapping with a place for each position holds the positions.
  pub written_all :
      (n : ℕ) (positions : List A)
      → length positions ≡ n
      → written (replicate n start) positions ≡ positions
  unfolding written
  written_all zero [] h = refl
  written_all zero (i ∷ positions) h = absurd (omega arith)
  written_all (suc n) [] h = absurd (omega arith)
  written_all (suc n) (i ∷ positions) h = ap (λ is. i ∷ is) (written_all n positions (omega arith))

  pub check_mapping_requested : (l : Labels) → check_mapping (replicate (len l) start) l ≡ ok tt
  unfolding check_mapping
  check_mapping_requested l = ground (
    arith,
    nat_beq_iff (length (replicate (len l) start)) (len l),
    length-replicate (len l) start,
  )
