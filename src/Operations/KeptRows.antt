-- ===== src/Operations/KeptRows.antt =====
-- The rows of labels that filter_blocks.py, drop_blocks.py and slice.py keep, by their positions.
use mathlib.Core.List.{Perm, perm_middle}
use mathlib.Core.List.Perm
use aml_storage.Prelude.{
  ℕ, suc, ◌≡◌, refl, Bool, true, false, ◌&&◌, not, Bool-cases, inl, inr, List, [], ◌∷◌, ◌++◌, arith,
  is_empty, all, nat_eq, string_eq, int_eq, list_eq, contains, distinct, if◌then◌else◌,
}
use aml_storage.Labels.Rows.{Row}
use aml_storage.Labels.Core.{Labels}
use aml_storage.Labels.Valid.{IsValid}

module _ {ℓ} {A : Type ℓ} where
  -- The elements whose position, counted from `i`, is to be kept.
  abbrev pub keep_where : (ℕ → Bool) → ℕ → List A → List A
  keep_where keep i [] = []
  keep_where keep i (x ∷ xs) =
      let rest = keep_where keep (suc i) xs in if keep i then x ∷ rest else rest

  pub all-keep_where :
      (p : A → Bool) (keep : ℕ → Bool) (i : ℕ) (xs : List A)
      → all p xs ≡ true
      → all p (keep_where keep i xs) ≡ true
  all-keep_where p keep i [] h = refl
  all-keep_where p keep i (x ∷ xs) h = ground (arith, all-keep_where p keep (suc i) xs)

  -- What is kept and what is left out are together the list.
  pub keep_where-perm :
      (keep : ℕ → Bool) (i : ℕ) (xs : List A)
      → Perm (keep_where keep i xs ++ keep_where (λ j. not (keep j)) i xs) xs
  keep_where-perm keep i [] = Perm.refl []
  keep_where-perm keep i (x ∷ xs) = elim (Bool-cases (keep i)) [
    | inl yes' ↦ rw yes' (Perm.cons x (keep_where-perm keep (suc i) xs))
    | inr no' ↦ rw no' (
        Perm.trans (perm_middle (keep_where keep (suc i) xs) _)
          (Perm.cons x (keep_where-perm keep (suc i) xs)))
  ]

contains-keep_where :
    (keep : ℕ → Bool) (i : ℕ) (rows : List Row) (row : Row)
    → contains rows row ≡ false
    → contains (keep_where keep i rows) row ≡ false
unfolding contains
contains-keep_where keep i [] row h = refl
contains-keep_where keep i (x ∷ rows) row h =
    ground (arith, contains-keep_where keep (suc i) rows row)

pub distinct-keep_where :
    (keep : ℕ → Bool) (i : ℕ) (rows : List Row)
    → distinct rows ≡ true
    → distinct (keep_where keep i rows) ≡ true
unfolding distinct
distinct-keep_where keep i [] h = refl
distinct-keep_where keep i (x ∷ rows) h =
    ground (arith, distinct-keep_where keep (suc i) rows, contains-keep_where keep (suc i) rows x)

is_empty-keep_where :
    (keep : ℕ → Bool) (i : ℕ) (rows : List Row)
    → is_empty rows ≡ true
    → is_empty (keep_where keep i rows) ≡ true
is_empty-keep_where keep i [] h = refl
is_empty-keep_where keep i (row ∷ rows) h = ground arith

-- The labels with the rows of `l` that are to be kept.
abbrev pub kept_labels : (ℕ → Bool) → Labels → Labels
kept_labels keep l = record {
  names = l.names;
  values = keep_where keep 0 l.values;
  is_view = false;
}

pub no_rows_without_names :
    (l : Labels) (keep : ℕ → Bool)
    → IsValid l
    → (is_empty l.names && not (is_empty (keep_where keep 0 l.values))) ≡ false
no_rows_without_names l keep v =
    let hidden = v.no_hidden_rows in ground (arith, is_empty-keep_where keep 0 l.values)
