-- ===== src/Operations/Dispatch.antt =====
-- _dispatch.py: the functions that look at the kind of their arrays, and `concatenate`.
use aml_storage.Prelude.{ℕ, List, [], ◌∷◌, ◌++◌, Bool, true, false}
use aml_storage.Result.{Result, ok, err, guard, ◌>>=◌, ◌>>◌, index_error, type_error}
use aml_storage.Block.Core.{Arrays}

-- `_dispatch.concatenate(arrays, axis=0)` for arrays of one kind, which reads `arrays[0]`.
unfoldable pub concatenate : {A : Type 0} → List (List A) → Result (List A)
concatenate [] = err index_error
concatenate (array ∷ []) = ok array
concatenate (array ∷ next ∷ others) = do rest ← concatenate (next ∷ others); ok (array ++ rest)

-- What `isinstance` tells of an array: a PyTorch tensor, a NumPy array, or neither.
pub data Library : Type 0 where
  torch_tensor numpy_array unknown_array : Library

abbrev pub is_torch_tensor : Library → Bool
is_torch_tensor torch_tensor = true
is_torch_tensor numpy_array = false
is_torch_tensor unknown_array = false

abbrev pub is_numpy_array : Library → Bool
is_numpy_array torch_tensor = false
is_numpy_array numpy_array = true
is_numpy_array unknown_array = false

-- `_check_all_torch_tensor([b])` and `_check_all_np_ndarray([b])`
unfoldable pub check_torch_tensor : Library → Result (Unit {0})
check_torch_tensor library = guard (is_torch_tensor library) type_error

unfoldable pub check_numpy_array : Library → Result (Unit {0})
check_numpy_array library = guard (is_numpy_array library) type_error

-- What `_dispatch.allclose` asks of arrays with the origins of blocks: the library that an origin
-- stands for, and `torch.allclose` and `np.allclose`, with the numbers `R` for the tolerances, both
-- of which raise where they can not compare the arrays.
pub record Closeness (A : Type 0) (R : Type 0) : Type 0 where
  pub library_of : ℕ → Library
  pub torch_allclose : A → A → R → R → Bool → Result Bool
  pub numpy_allclose : A → A → R → R → Bool → Result Bool

module _ {A R : Type 0} ⦃arrays : Arrays A⦄ ⦃closeness : Closeness A R⦄ where
  -- `_dispatch.allclose(a, b, rtol, atol, equal_nan)`
  unfoldable pub dispatch_allclose : A → A → R → R → Bool → Result Bool
  unfolding check_torch_tensor check_numpy_array
  dispatch_allclose a b rtol atol equal_nan = elim (closeness.library_of (arrays.origin a)) [
    | torch_tensor ↦ do
      check_torch_tensor (closeness.library_of (arrays.origin b))
      closeness.torch_allclose a b rtol atol equal_nan
    | numpy_array ↦ do
      check_numpy_array (closeness.library_of (arrays.origin b))
      closeness.numpy_allclose a b rtol atol equal_nan
    | unknown_array ↦ err type_error
  ]
