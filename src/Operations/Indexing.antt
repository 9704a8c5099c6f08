-- ===== src/Operations/Indexing.antt =====
-- What slice.py relies on of arrays that are not part of the repository: the selection of entries
-- along the first or the last axis, and of rows of labels. `_dispatch.mask` of _dispatch.py.
use aml_storage.Prelude.{
  ℕ, suc, ◌-◌, ℤ, pos, negsuc, ◌≡◌, Bool, true, false, none, some, List, [], ◌∷◌, ◌++◌, length, all,
  ltb, get_elem?, set, replicate, if◌then◌else◌,
}
use aml_storage.Result.{Result, ok, err, index_error}
use aml_storage.Block.Core.{Arrays}

-- `array[indices]` and `np.take(array, indices, axis=-1)`, for positions in range.
pub record Indexing (A : Type 0) ⦃arrays : Arrays A⦄ : Type 0 where
  pub rows : A → List ℕ → A
  pub columns : A → List ℕ → A
  pub shape-rows :
      (a : A) (indices : List ℕ) (n : ℕ) (inner : List ℕ)
      → arrays.shape a ≡ n ∷ inner
      → all (λ i. ltb i n) indices ≡ true
      → arrays.shape (rows a indices) ≡ length indices ∷ inner
  pub shape-columns :
      (a : A) (indices : List ℕ) (outer : List ℕ) (n : ℕ)
      → arrays.shape a ≡ outer ++ n ∷ []
      → all (λ i. ltb i n) indices ≡ true
      → arrays.shape (columns a indices) ≡ outer ++ length indices ∷ []
  pub rows_alike :
      (a : A) (indices : List ℕ)
      → (arrays.origin (rows a indices) ≡ arrays.origin a)
        × (arrays.dtype (rows a indices) ≡ arrays.dtype a)
        × (arrays.device (rows a indices) ≡ arrays.device a)
  pub columns_alike :
      (a : A) (indices : List ℕ)
      → (arrays.origin (columns a indices) ≡ arrays.origin a)
        × (arrays.dtype (columns a indices) ≡ arrays.dtype a)
        × (arrays.device (columns a indices) ≡ arrays.device a)

-- The position that an index stands for along an axis with `n` entries: a negative one counts from
-- the end.
unfoldable pub position_along : ℕ → ℤ → Result ℕ
position_along n (pos i) = if ltb i n then ok i else err index_error
position_along n (negsuc k) = if ltb k n then ok (n - suc k) else err index_error

module _ {ℓ} {A : Type ℓ} where
  -- `values[:] = value` at all the positions.
  unfoldable pub set_all : List A → List ℕ → A → List A
  set_all xs [] value = xs
  set_all xs (i ∷ positions) value = set_all (set xs i value) positions value

  -- The elements at which the mask is true.
  unfoldable pub masked : List Bool → List A → List A
  masked [] xs = []
  masked (b ∷ mask) [] = []
  masked (b ∷ mask) (x ∷ xs) = let rest = masked mask xs in if b then x ∷ rest else rest

  -- The elements at the positions.
  unfoldable pub picked : List A → List ℕ → List A
  picked xs [] = []
  picked xs (i ∷ positions) =
      let rest = picked xs positions in elim (get_elem? xs i) [ none ↦ rest | some x ↦ x ∷ rest ]

-- `where(mask)[0]`, counted from `i`.
unfoldable pub where_true : ℕ → List Bool → List ℕ
where_true i [] = []
where_true i (b ∷ mask) = let rest = where_true (suc i) mask in if b then i ∷ rest else rest

-- `mask[selected] = True` on a mask with `n` entries.
unfoldable pub mask_of : ℕ → List ℕ → List Bool
unfolding set_all
mask_of n selected = set_all (replicate n false) selected true
