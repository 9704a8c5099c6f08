-- ===== src/Tests/Grids.antt =====
-- Arrays of bytes that are all alike, with which the operations can be run: their shape, their
-- byte, and whether they are stored in order; and blocks of them.
use aml_storage.Prelude.{
  ℕ, ◌+◌, ◌-◌, ◌*◌, ℤ, pos, ◌≡◌, refl, ap, ◌∙◌, Bool, true, false, List, [], ◌∷◌, ◌++◌, map, length,
  nat_eq, list_eq, ◌==◌, beq_refl, if◌then◌else◌, contains, distinct, list_beq, int_beq,
}
use Prim.Native.Nat.{◌%◌, ◌/◌, ◌^◌}
use aml_storage.Result.{ok_injective, Result, ok, err, value_error}
use aml_storage.Labels.Names.{is_valid_label_name}
use aml_storage.Labels.Core.{Labels, equal}
use aml_storage.Labels.Valid.{IsValid}
use aml_storage.Block.Core.{
  Arrays, TensorBlock, block, no_gradient, gradient, same_labels, starts_with_sample, refers_below,
}
use aml_storage.Block.Valid.{is_valid}
use aml_storage.Operations.Indexing.{Indexing}
use aml_storage.Operations.Storage.{Storage}
use aml_storage.Operations.Filled.{Filling}
use aml_storage.Operations.Arithmetic.{Arithmetic}
use aml_storage.Operations.Equal.{Entries}
use aml_storage.Operations.Dispatch.{Closeness, numpy_array}
use aml_storage.Prelude.{arith, ◌&&◌}
use aml_storage.Prelude.{leb, nat_beq_iff}
use aml_storage.Operations.Products.{Products}
use aml_storage.Prelude.{negsuc, nat_beq}

pub record Grid : Type 0 where
  pub shape : List ℕ
  pub byte : ℕ
  pub in_order : Bool

instance abbrev pub grids : Arrays Grid
grids = record {
  shape = λ a. a.shape;
  origin = λ a. 0;
  dtype = λ a. 0;
  device = λ a. 0;
  copy = λ a. a;
}

abbrev set_first : ℕ → List ℕ → List ℕ
set_first n [] = []
set_first n (m ∷ inner) = n ∷ inner

abbrev set_last : ℕ → List ℕ → List ℕ
set_last n [] = []
set_last n (m ∷ []) = n ∷ []
set_last n (m ∷ k ∷ inner) = m ∷ set_last n (k ∷ inner)

pub set_last-append : (n m : ℕ) (outer : List ℕ) → set_last n (outer ++ m ∷ []) ≡ outer ++ n ∷ []
set_last-append n m [] = refl
set_last-append n m (k ∷ []) = refl
set_last-append n m (k ∷ l ∷ outer) = ap (λ s. k ∷ s) (set_last-append n m (l ∷ outer))

instance abbrev pub indexing : Indexing Grid
indexing = record {
  rows = λ a is. record a { shape = set_first (length is) a.shape };
  columns = λ a is. record a { shape = set_last (length is) a.shape };
  shape-rows = λ a is n inner h k. ap (set_first (length is)) h;
  shape-columns =
      λ a is outer n h k. ap (set_last (length is)) h ∙ set_last-append (length is) n outer;
  rows_alike = λ a is. (refl, refl, refl);
  columns_alike = λ a is. (refl, refl, refl);
}

instance abbrev pub storage : Storage Grid
storage = record {
  is_torch = λ a. false;
  is_contiguous_array = λ a. a.in_order;
  as_contiguous = λ a. record a { in_order = true };
  torch_detach = λ a. a;
  torch_requires_grad = λ a value. a;
  Keeps-as_contiguous = λ a. (refl, refl, refl, refl);
  Keeps-torch_detach = λ a. (refl, refl, refl, refl);
  Keeps-torch_requires_grad = λ value a. (refl, refl, refl, refl);
  is_contiguous_array-as_contiguous = λ a. refl;
}

instance abbrev pub filling : Filling Grid
filling = record {
  zeros = λ a value. record a { byte = 0 };
  ones = λ a value. record a { byte = 1 };
  empty = λ a value. a;
  Keeps-zeros = λ value a. (refl, refl, refl, refl);
  Keeps-ones = λ value a. (refl, refl, refl, refl);
  Keeps-empty = λ value a. (refl, refl, refl, refl);
}

abbrev plus_grid : Grid → Grid → Result Grid
plus_grid a b =
    if a.shape == b.shape then ok (record a { byte = (a.byte + b.byte) % 256 }) else err value_error

pub plus_grid_lem :
    (a b : Grid)
    → a.shape ≡ b.shape
    → plus_grid a b ≡ ok (record a { byte = (a.byte + b.byte) % 256 })
plus_grid_lem a b h = rw (← h, beq_refl a.shape) refl

instance abbrev pub arithmetic : Arithmetic Grid
arithmetic = record {
  Constant = ℕ;
  minus_one = 255;
  negate = λ k. (256 - k % 256) % 256;
  plus_constant = λ k a. record a { byte = (k + a.byte) % 256 };
  times_constant = λ k a. record a { byte = (k * a.byte) % 256 };
  over_constant = λ a k. record a { byte = a.byte / k };
  plus = plus_grid;
  is_floating = λ a. true;
  plus_constant_lem = λ k a float. (refl, refl, refl, refl);
  plus_lem = λ a b shapes origins like. (
    record a { byte = (a.byte + b.byte) % 256 },
    plus_grid_lem a b shapes,
    refl,
    refl,
    refl,
    refl,
  );
}

-- The numbers of a shape, where -1 stands for none.
abbrev naturals : List ℤ → List ℕ
naturals [] = []
naturals (pos n ∷ zs) = n ∷ naturals zs
naturals (negsuc k ∷ zs) = 0 ∷ naturals zs

abbrev entries_of : List ℕ → ℕ
entries_of [] = 1
entries_of (n ∷ shape) = n * entries_of shape

-- The first number of the new shape is worked out from the others.
abbrev reshape_grid : Grid → List ℤ → Result Grid
reshape_grid a [] = err value_error
reshape_grid a (z ∷ zs) =
    let known = entries_of (naturals zs) in
    if nat_beq known 0
    then err value_error
    else ok (record a { shape = entries_of a.shape / known ∷ naturals zs })

instance abbrev pub products : Products Grid
products = record {
  two = 2;
  minus_1 = λ k. k - 1;
  times = λ a b. ok (record a { byte = (a.byte * b.byte) % 256 });
  over = λ a b. ok (record a { byte = a.byte / b.byte });
  power = λ a k. record a { byte = a.byte ^ k % 256 };
  negative = λ a. record a { byte = (256 - a.byte) % 256 };
  absolute = λ a. a;
  sign = λ a. record a { byte = 1 };
  reshape = reshape_grid;
}

instance abbrev pub bytes : Entries Grid
bytes = record { same_entries = λ a b. ok (nat_beq a.byte b.byte) }

-- Whether the difference of the bytes is at most the absolute tolerance.
abbrev close_grids : Grid → Grid → ℕ → ℕ → Bool → Result Bool
close_grids a b rtol atol equal_nan = ok (leb a.byte (b.byte + atol) && leb b.byte (a.byte + atol))

instance abbrev pub close_bytes : Closeness Grid ℕ
close_bytes = record {
  library_of = λ origin. numpy_array;
  torch_allclose = close_grids;
  numpy_allclose = close_grids;
}

pub close_bytes_lem :
    (v w : Grid) → bytes.same_entries v w ≡ ok true → close_grids v w 0 1 false ≡ ok true
close_bytes_lem v w h = ground (arith, nat_beq_iff v.byte w.byte, ok_injective h)

abbrev pub grid : List ℕ → Grid
grid shape = record { shape = shape; byte = 7; in_order = false }

abbrev pub rows_1 : List ℕ → List (List ℤ)
rows_1 ns = map (λ n. pos n ∷ []) ns

abbrev pub rows_2 : List (ℕ × ℕ) → List (List ℤ)
rows_2 ns = map (λ n. pos n.0 ∷ pos n.1 ∷ []) ns

abbrev pub atoms : Labels
atoms = record {
  names = "atom" ∷ "type" ∷ [];
  values = rows_2 ((4, 1) ∷ (7, 8) ∷ (2, 1) ∷ []);
  is_view = false;
}

abbrev pub channels : Labels
channels = record { names = "n" ∷ []; values = rows_1 (3 ∷ 5 ∷ 0 ∷ []); is_view = false }

abbrev pub directions : Labels
directions = record { names = "xyz" ∷ []; values = rows_1 (0 ∷ 1 ∷ []); is_view = false }

abbrev pub moved_atoms : Labels
moved_atoms = record {
  names = "sample" ∷ "moved" ∷ [];
  values = rows_2 ((0, 5) ∷ (2, 4) ∷ (1, 0) ∷ (2, 1) ∷ []);
  is_view = false;
}

abbrev pub forces : TensorBlock Grid
forces = block (grid (4 ∷ 2 ∷ 3 ∷ [])) moved_atoms (directions ∷ []) channels no_gradient

abbrev pub energies : TensorBlock Grid
energies = block (grid (3 ∷ 3 ∷ [])) atoms [] channels (gradient "positions" forces no_gradient)

pub energies_valid : is_valid energies ≡ true
unfolding is_valid list_beq distinct contains equal same_labels starts_with_sample refers_below
    int_beq
energies_valid = refl

pub atoms-IsValid : IsValid atoms
unfolding is_valid_label_name distinct contains list_beq int_beq
atoms-IsValid = record {
  owned = refl;
  valid_names = refl;
  distinct_names = refl;
  rectangular = refl;
  stored = refl;
  distinct_rows = refl;
  no_hidden_rows = refl;
}

pub channels-IsValid : IsValid channels
unfolding is_valid_label_name distinct contains list_beq int_beq
channels-IsValid = record {
  owned = refl;
  valid_names = refl;
  distinct_names = refl;
  rectangular = refl;
  stored = refl;
  distinct_rows = refl;
  no_hidden_rows = refl;
}

pub moved_atoms-IsValid : IsValid moved_atoms
unfolding is_valid_label_name distinct contains list_beq int_beq
moved_atoms-IsValid = record {
  owned = refl;
  valid_names = refl;
  distinct_names = refl;
  rectangular = refl;
  stored = refl;
  distinct_rows = refl;
  no_hidden_rows = refl;
}
