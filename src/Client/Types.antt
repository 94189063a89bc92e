-- ===== src/Client/Types.antt =====
-- The type under which a recorder stores a name, and the name that a reader gives for it.
use hang_analyzer.Prelude.{
  ℕ, zero, suc, ◌+◌, ◌<◌, ◌≤◌, ◌^◌, ◌≡◌, refl, sym, ap, ◌∙◌, ◌⊎◌, inl, inr, ⊎_elim, Bool-cases,
  Option-cases, none, some, List, [], ◌∷◌, Memᴰ, get_elem?, length, Text, text_eq, text_eq_iff,
  arith,
}
use mathlib.Core.List.Memᴰ
use hang_analyzer.Format.{names, type_name, type_code, index_from}
use hang_analyzer.Client.{FlightLibrary, replied, raised_key, c_uint, record_named}

-- The index from `i` on, if it is found.
record IsIndex (i : ℕ) (name : Text) (xs : List Text) (k : ℕ) : Type 0 where
  low : i ≤ k
  high : k < i + length xs
  at : (j : ℕ) → k ≡ i + j → get_elem? xs j ≡ some name

index_from-IsIndex :
    (i : ℕ) (name : Text) (xs : List Text) {k : ℕ}
    → index_from i name xs ≡ some k
    → IsIndex i name xs k
unfolding index_from
index_from-IsIndex i name [] e = cc e
index_from-IsIndex i name (x ∷ xs) {k} e = elim (Bool-cases (text_eq x name)) [
  | inl same ↦
      let here : i ≡ k = ground (arith, same, e) in
      record {
        low = omega (arith, here);
        high = omega (arith, here);
        at = λ j q.
            let start : j ≡ zero = omega (arith, here, q) in
            ap (get_elem? (x ∷ xs)) start ∙ ap some ((text_eq_iff x name).0 same);
      }
  | inr other ↦
      let later = index_from-IsIndex (i + 1) name xs {k = k} (ground (arith, other, e)) in
      record { low = omega (arith, later.low); high = omega (arith, later.high); at = behind later }
]
  where
    behind : IsIndex (i + 1) name xs k → (j : ℕ) → k ≡ i + j → get_elem? (x ∷ xs) j ≡ some name
    behind later zero q = absurd (omega (arith, later.low, q))
    behind later (suc j) q = later.at j (omega (arith, q))

index_from-absent :
    (i : ℕ) (name : Text) (xs : List Text) → index_from i name xs ≡ none → ¬ Memᴰ name xs
unfolding index_from
index_from-absent i name [] e m = Memᴰ.not-nil m
index_from-absent i name (x ∷ xs) e m = elim (Bool-cases (text_eq x name)) [
  | inl same ↦ ground (arith, same, e)
  | inr other ↦
      ⊎_elim (λ q. cc (other, (text_eq_iff x name).1 (sym q)))
        (λ t. index_from-absent (i + 1) name xs (ground (arith, other, e)) t) (Memᴰ.cases_cons m)
]

-- A name that has a type is one of the names, its type fits into 16 bits, and a reader gives the name back
-- for it; the other names have none.
type_code_lem :
    (name : Text)
    → ((k : ℕ) × (type_code name ≡ some k) × (k < 2 ^ 16) × (type_name k ≡ name))
      ⊎ ((type_code name ≡ none) × ¬ Memᴰ name names)
unfolding type_code type_name
type_code_lem name = elim (Option-cases (index_from 0 name names)) [
  | inl absent ↦ inr (absent, index_from-absent 0 name names absent)
  | inr (k, found) ↦
      let i = index_from-IsIndex 0 name names found in
      inl (k, found, omega (arith, i.high), rw (i.at k (omega arith)) refl)
]

c_uint-16 : (n : ℕ) → n < 2 ^ 16 → c_uint 16 n ≡ n
c_uint-16 n h = omega (arith, h)

c_uint-32 : (n : ℕ) → n < 2 ^ 32 → c_uint 32 n ≡ n
c_uint-32 n h = omega (arith, h)

c_uint-64 : (n : ℕ) → n < 2 ^ 64 → c_uint 64 n ≡ n
c_uint-64 n h = omega (arith, h)

-- `record` of a name that is not one of the names raises `KeyError` and calls nothing. Otherwise it makes
-- one call with a type for which a reader of the flight file gives the name back, and returns its result;
-- the other arguments reach the library as they are, if they fit into their types.
pub record_named_lem :
    {W : Type 0} (lib : FlightLibrary W) (name : Text) (stream correlation arg0 arg1 flags : ℕ)
    (w : W)
    → stream < 2 ^ 32
    → correlation < 2 ^ 64
    → arg0 < 2 ^ 64
    → arg1 < 2 ^ 64
    → flags < 2 ^ 16
    → ((type : ℕ) × (type_name type ≡ name)
        × (record_named lib name stream correlation arg0 arg1 flags w ≡ (
          replied (lib.record_event type stream correlation arg0 arg1 flags w).0,
          (lib.record_event type stream correlation arg0 arg1 flags w).1,
        )))
      ⊎ ((¬ Memᴰ name names)
          × (record_named lib name stream correlation arg0 arg1 flags w ≡ (raised_key name, w)))
unfolding record_named
record_named_lem lib name stream correlation arg0 arg1 flags w s c a b f =
    elim (type_code_lem name) [
      | inl (k, found, low, named) ↦ inl (
        k,
        named,
        rw
            (
              record_named,
              found,
              c_uint-16 k low,
              c_uint-32 stream s,
              c_uint-64 correlation c,
              c_uint-64 arg0 a,
              c_uint-64 arg1 b,
              c_uint-16 flags f,
            )
            refl,
      )
      | inr (absent, unknown) ↦ inr (unknown, rw (record_named, absent) refl)
    ]
