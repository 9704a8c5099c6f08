-- ===== src/Labels/Intersection.antt =====
-- What `Labels.intersection` and `Labels.intersection_and_mapping` return for labels that satisfy
-- the invariant.
mod Loop
use aml_storage.Prelude.{
  ℕ, ◌<◌, ℤ, pos, negsuc, ◌≡◌, refl, sym, ap, ◌∙◌, Bool, true, false, ◌&&◌, not, Option, none, some,
  Bool-cases, inl, inr, List, [], ◌∷◌, map, arith, length, is_empty, all, replicate, get_elem?,
  get_elem?_ext, get_elem?-some, get_elem?-map-some, length-set, length-map, length-replicate, leb,
  ◌==◌, int_eq, list_eq, string_eq, contains, distinct, index_of, index_of_absent, list_beq_iff,
  and_comm, Option-cases, set, suc, get_elem?-lt, get_elem?-replicate, map_congr, subst,
  if◌then◌else◌,
}
use aml_storage.Result.{Result, ok, err, ◌>>=◌, metatensor_error}
use aml_storage.Labels.Rows.{Row}
use aml_storage.Labels.Core.{Labels, len}
use aml_storage.Labels.Valid.{IsValid}
use aml_storage.Labels.Sets.{
  intersection_entries, smaller_first, larger_first, intersection_and_mapping,
}
use aml_storage.Labels.Mappings.{written_all, check_mapping_requested}
use Loop.{
  place_from, IsPlaced, contains-intersection_entries, all-intersection_entries,
  distinct-intersection_entries, first_indexes, second_indexes,
}

-- The position of a row in the rows of the output, or -1 where it is not there.
abbrev pub place : List Row → Row → ℤ
place out r = elim (index_of out r) [ none ↦ negsuc 0 | some i ↦ pos i ]

-- The outcome of an intersection: the same names, the entries that both inputs have, and for each
-- input the positions of its entries in the intersection, -1 for those that it does not have.
pub record IsIntersection (a b u : Labels) (first second : List ℤ) : Type 0 where
  pub valid : IsValid u
  pub names : u.names ≡ a.names
  pub entries : (r : Row) → contains u.values r ≡ (contains a.values r && contains b.values r)
  pub first_mapping : first ≡ map (place u.values) a.values
  pub second_mapping : second ≡ map (place u.values) b.values

length-second_indexes :
    (second rest : List Row) (n : ℕ) (indexes : List ℤ)
    → length (intersection_entries second rest n indexes).2 ≡ length indexes
unfolding intersection_entries
length-second_indexes second [] n indexes = refl
length-second_indexes second (entry ∷ rest) n indexes =
    elim (Option-cases (index_of second entry)) [
      | inl e ↦ rw (e, intersection_entries) (length-second_indexes second rest n indexes)
      | inr (q, e) ↦
          rw (e, intersection_entries)
            (length-second_indexes second rest (suc n) (set indexes q (pos n))
              ∙ length-set indexes q (pos n))
    ]

module _ (first second : List Row) where
  abbrev start : List ℤ
  start = replicate (length second) (negsuc 0)

  abbrev out : List Row × List ℤ × List ℤ
  out = intersection_entries second first 0 start

  length-out : length out.2 ≡ length second
  length-out =
      length-second_indexes second first 0 start ∙ length-replicate (length second) (negsuc 0)

  place_from-zero : (rows : List Row) (r : Row) → place_from 0 rows r ≡ place rows r
  place_from-zero rows r = ground arith

  first_places : distinct first ≡ true → out.1 ≡ map (place out.0) first
  first_places df =
      first_indexes second first 0 start df ∙ map_congr _ _ first (λ r _. place_from-zero out.0 r)

  second-place :
      (k : ℕ) (v : Row)
      → distinct first ≡ true
      → distinct second ≡ true
      → get_elem? second k ≡ some v
      → get_elem? out.2 k ≡ some (place out.0 v)
  second-place k v df ds at = ground (
    arith,
    second_indexes second first 0 start k v ds df at,
    length-replicate (length second) (negsuc 0),
    get_elem?-lt second k v at,
    get_elem?-replicate (length second) (negsuc 0) k,
    contains-intersection_entries second first 0 start v,
    index_of_absent out.0 v,
    place_from-zero out.0 v,
  )

  second_places : distinct first ≡ true → distinct second ≡ true → out.2 ≡ map (place out.0) second
  second_places df ds =
      get_elem?_ext _ _ (length-out ∙ sym (length-map (place out.0) second)) λ k lt.
        let (v, at) = get_elem?-some second k (omega (arith, length-out)) in
        second-place k v df ds at ∙ sym (get_elem?-map-some (place out.0) second k v at)

module _ (a b : Labels) (va : IsValid a) (vb : IsValid b) where
  common-IsValid :
      (first second : Labels)
      → IsValid first
      → is_empty first.names ≡ false
      → IsValid (record {
        names = first.names;
        values = (out first.values second.values).0;
        is_view = false;
      })
  common-IsValid first second v named = record {
    owned = refl;
    valid_names = v.valid_names;
    distinct_names = v.distinct_names;
    rectangular = all-intersection_entries second.values _ first.values 0 _ v.rectangular;
    stored = all-intersection_entries second.values _ first.values 0 _ v.stored;
    distinct_rows = distinct-intersection_entries second.values first.values 0 _ v.distinct_rows;
    no_hidden_rows = rw named;
  }

  smaller-IsIntersection :
      is_empty a.names ≡ false
      → (let (u, first, second) = smaller_first a.names a.values b.values in
          IsIntersection a b u first second)
  unfolding smaller_first
  smaller-IsIntersection named = record {
    valid = common-IsValid a b va named;
    names = refl;
    entries = contains-intersection_entries b.values a.values 0 _;
    first_mapping = first_places a.values b.values va.distinct_rows;
    second_mapping = second_places a.values b.values va.distinct_rows vb.distinct_rows;
  }

  larger-IsIntersection :
      a.names ≡ b.names
      → is_empty a.names ≡ false
      → (let (u, first, second) = larger_first a.names a.values b.values in
          IsIntersection a b u first second)
  unfolding larger_first
  larger-IsIntersection same named = record {
    valid =
        subst
          (λ names.
            IsValid (record { names = names; values = (out b.values a.values).0; is_view = false }))
          (sym same) (common-IsValid b a vb (rw (← same) named));
    names = refl;
    entries = λ r.
        contains-intersection_entries a.values b.values 0 _ r
        ∙ and_comm (contains b.values r) (contains a.values r);
    first_mapping = second_places b.values a.values vb.distinct_rows va.distinct_rows;
    second_mapping = first_places b.values a.values vb.distinct_rows;
  }

  -- The call where the output and the positions are known.
  intersected :
      a.names ≡ b.names
      → is_empty a.names ≡ false
      → (r : Labels × List ℤ × List ℤ)
      → (if leb (len a) (len b)
          then smaller_first a.names a.values b.values
          else larger_first a.names a.values b.values)
        ≡ r
      → IsIntersection a b r.0 r.1 r.2
      → intersection_and_mapping a b ≡ ok r
  unfolding intersection_and_mapping
  intersected same named r found whole =
      rw
        (
          va.owned,
          vb.owned,
          check_mapping_requested (pos 0) a,
          check_mapping_requested (pos 0) b,
          (list_beq_iff a.names b.names).1 same,
          named,
          found,
          written_all (pos 0) (len a) r.1
              (ap length whole.first_mapping ∙ length-map (place r.0.values) a.values),
          written_all (pos 0) (len b) r.2
              (ap length whole.second_mapping ∙ length-map (place r.0.values) b.values),
        )
        refl

  -- The intersection of valid labels with the same names, at least one, always returns: it is
  -- valid, has the names and exactly the entries that both inputs have, and the two mappings give
  -- for each entry of each input its position in the intersection, or -1.
  pub intersection_and_mapping-IsIntersection :
      a.names ≡ b.names
      → is_empty a.names ≡ false
      → (u : Labels) × (first : List ℤ) × (second : List ℤ) × (intersection_and_mapping a b
          ≡ ok (u, first, second))
        × IsIntersection a b u first second
  unfolding intersection_and_mapping
  intersection_and_mapping-IsIntersection same named = elim (Bool-cases (leb (len a) (len b))) [
    | inl smaller ↦ (
      (smaller_first a.names a.values b.values).0,
      (smaller_first a.names a.values b.values).1,
      (smaller_first a.names a.values b.values).2,
      intersected same named (smaller_first a.names a.values b.values) (rw smaller refl)
          (smaller-IsIntersection named),
      smaller-IsIntersection named,
    )
    | inr larger ↦ (
      (larger_first a.names a.values b.values).0,
      (larger_first a.names a.values b.values).1,
      (larger_first a.names a.values b.values).2,
      intersected same named (larger_first a.names a.values b.values) (rw larger refl)
          (larger-IsIntersection same named),
      larger-IsIntersection same named,
    )
  ]
