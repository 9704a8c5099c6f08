-- ===== src/TensorMap/Lookup.antt =====
-- `TensorMap.blocks_matching` of tensor.py and tensor/mod.rs, by the values of the keys.
use aml_storage.Prelude.{
  ℕ, zero, suc, ◌+◌, ◌<◌, ℤ, pos, String, ◌≡◌, refl, ap, ◌∙◌, Bool, true, false, ◌&&◌, Option, none,
  some, List, [], ◌∷◌, arith, is_empty, all, get_elem?, get_or, nat_eq, ◌==◌, int_eq, string_eq,
  list_eq, contains, index_of, index_of-contains, and_true,
}
use aml_storage.Result.{ok}
use aml_storage.Labels.Rows.{Row}
use aml_storage.Labels.Core.{Labels}
use aml_storage.TensorMap.Core.{TensorMap}
use aml_storage.TensorMap.Selection.{requested_dimensions, matches, matching_from, blocks_matching}

-- The value of a key in the dimension with this name.
abbrev pub key_value : List String → Row → String → ℤ
key_value names key name = elim (index_of names name) [
  | none ↦ pos 0
  | some i ↦ get_or key i (pos 0)
]

-- The key has the values that are asked for, name by name.
abbrev pub agrees : List String → List String → Row → Row → Bool
agrees names [] wanted key = true
agrees names (name ∷ rest) [] key = true
agrees names (name ∷ rest) (w ∷ wanted) key =
    (key_value names key name == w) && agrees names rest wanted key

matches_cons :
    (names rest : List String) (name : String) (i : ℕ) (ds : List ℕ)
    → index_of names name ≡ some i
    → ((wanted key : Row) → matches ds wanted key ≡ agrees names rest wanted key)
    → (wanted key : Row) → matches (i ∷ ds) wanted key ≡ agrees names (name ∷ rest) wanted key
unfolding matches
matches_cons names rest name i ds at same [] key = refl
matches_cons names rest name i ds at same (w ∷ wanted) key = ground (arith, same wanted key)

pub requested_known :
    (names rest : List String)
    → all (contains names) rest ≡ true
    → (ds : List ℕ) × (requested_dimensions names rest ≡ ok ds)
      × ((wanted key : Row) → matches ds wanted key ≡ agrees names rest wanted key)
unfolding requested_dimensions matches
requested_known names [] h = ([], refl, λ wanted key. refl)
requested_known names (name ∷ rest) h =
    let (known, more) = and_true (contains names name) _ h in
    let (i, at) = index_of-contains names name known in
    let (ds, found, same) = requested_known names rest more in
    (i ∷ ds, rw (at, requested_dimensions, found), matches_cons names rest name i ds at same)

module _ (ds : List ℕ) (wanted : Row) where
  matching_above :
      (k m : ℕ) (keys : List Row) → m < k → contains (matching_from ds wanted k keys) m ≡ false
  unfolding matching_from contains
  matching_above k m [] h = refl
  matching_above k m (key ∷ keys) h = ground (arith, matching_above (suc k) m keys)

  contains-matching_from :
      (k j : ℕ) (keys : List Row)
      → contains (matching_from ds wanted k keys) (k + j)
        ≡ elim (get_elem? keys j) [ none ↦ false | some key ↦ matches ds wanted key ]
  unfolding matching_from contains
  contains-matching_from k j [] = refl
  contains-matching_from k zero (key ∷ keys) = ground (arith, matching_above (suc k) k keys)
  contains-matching_from k (suc j) (key ∷ keys) =
      ground (arith, contains-matching_from (suc k) j keys)

key_congr :
    (o : Option Row) (f g : Row → Bool)
    → ((key : Row) → f key ≡ g key)
    → elim o as (λ _. Bool) [ none ↦ false | some key ↦ f key ]
      ≡ elim o [ none ↦ false | some key ↦ g key ]
key_congr none f g h = refl
key_congr (some key) f g h = h key

module _ {A : Type 0} (t : TensorMap A) (selection : Labels) (wanted : Row) where
  -- For a selection that is no view, with one entry and at least one name, all of them names of
  -- the keys, `blocks_matching` returns, and the blocks in its result are exactly those whose key
  -- has the wanted value in each dimension of the selection.
  pub blocks_matching_lem :
      selection.is_view ≡ false
      → is_empty selection.names ≡ false
      → selection.values ≡ wanted ∷ []
      → all (contains t.keys.names) selection.names ≡ true
      → (found : List ℕ) × (blocks_matching t selection ≡ ok found)
        × ((i : ℕ)
            → contains found i ≡ elim (get_elem? t.keys.values i) [
              | none ↦ false
              | some key ↦ agrees t.keys.names selection.names wanted key
            ])
  unfolding blocks_matching
  blocks_matching_lem owned named one known =
      let (ds, dimensions, same) = requested_known t.keys.names selection.names known in
      (
        matching_from ds wanted 0 t.keys.values,
        rw (owned, named, one, dimensions),
        λ i.
            ap (contains (matching_from ds wanted 0 t.keys.values)) (omega arith)
            ∙ contains-matching_from ds wanted 0 i t.keys.values
            ∙ key_congr (get_elem? t.keys.values i) _ _ (same wanted),
      )
