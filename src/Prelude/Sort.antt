-- ===== src/Prelude/Sort.antt =====
-- `sorted(items, key=...)` over numeric keys: the stable sort, by insertion.
use Prim.Native.Nat.{ℕ, ◌<◌}
use mathlib.Core.Path.{◌≡◌}
use mathlib.Core.Logic.{◌≢◌, ◌↔◌, ◌⊎◌, inl, inr}
use mathlib.Core.Bool.{Bool}
use mathlib.Core.List.{List, [], ◌∷◌, Memᴰ}
use native.Mathlib.Omega.{arith}
use hang_analyzer.Prelude.Tests.{leb, leb→le, if◌then◌else◌, Bool-cases}
use hang_analyzer.Prelude.Lists.{All, All-mono, Memᴰ-cons}

module _ {ℓ} {A : Type ℓ} (key : A → ℕ) where
  pub insert_by : A → List A → List A
  insert_by x [] = x ∷ []
  insert_by x (y ∷ ys) = if leb (key x) (key y) then x ∷ y ∷ ys else y ∷ insert_by x ys

  unfoldable pub sort_by : List A → List A
  unfolding insert_by
  sort_by [] = []
  sort_by (x ∷ xs) = insert_by x (sort_by xs)

  -- Every key is below the keys that follow.
  abbrev pub IsStrict : List A → Type 0
  IsStrict [] = Unit
  IsStrict (x ∷ xs) = All (λ y. key x < key y) xs × IsStrict xs

  -- No two items have one key.
  abbrev pub HasDistinctKeys : List A → Type 0
  HasDistinctKeys [] = Unit
  HasDistinctKeys (x ∷ xs) = All (λ y. key x ≢ key y) xs × HasDistinctKeys xs

  module _ {κ} (P : A → Type κ) where
    All-insert_by : (x : A) (ys : List A) → P x → All P ys → All P (insert_by x ys)
    unfolding insert_by
    All-insert_by x [] p h = (p, tt)
    All-insert_by x (y ∷ ys) p h = elim (Bool-cases (leb (key x) (key y))) [
      | inl e ↦ rw e (p, h)
      | inr e ↦ rw e (h.0, All-insert_by x ys p h.1)
    ]

    pub All-sort_by : (xs : List A) → All P xs → All P (sort_by xs)
    unfolding sort_by
    All-sort_by [] h = tt
    All-sort_by (x ∷ xs) h = All-insert_by x (sort_by xs) h.0 (All-sort_by xs h.1)

  insert_by-IsStrict :
      (x : A) (ys : List A) → All (λ y. key x ≢ key y) ys → IsStrict ys → IsStrict (insert_by x ys)
  unfolding insert_by
  insert_by-IsStrict x [] n h = (tt, tt)
  insert_by-IsStrict x (y ∷ ys) n h = elim (Bool-cases (leb (key x) (key y))) [
    | inl e ↦
        let low : key x < key y = omega (arith, leb→le (key x) (key y) e, n.0) in
        rw e
          ((low, All-mono (λ z. key y < key z) (λ z. key x < key z) ys (λ z q. omega arith) h.0), h)
    | inr e ↦ rw e (
      All-insert_by (λ z. key y < key z) x ys (ground arith) h.0,
      insert_by-IsStrict x ys n.1 h.1,
    )
  ]

  -- Items with distinct keys come out in strictly ascending order.
  pub sort_by-IsStrict : (xs : List A) → HasDistinctKeys xs → IsStrict (sort_by xs)
  unfolding sort_by
  sort_by-IsStrict [] h = tt
  sort_by-IsStrict (x ∷ xs) h =
      insert_by-IsStrict x (sort_by xs) (All-sort_by (λ y. key x ≢ key y) xs h.0)
        (sort_by-IsStrict xs h.1)

  mem-insert_by : (a x : A) (ys : List A) → Memᴰ a (insert_by x ys) ↔ ((a ≡ x) ⊎ Memᴰ a ys)
  unfolding insert_by
  mem-insert_by a x [] = Memᴰ-cons a x []
  mem-insert_by a x (y ∷ ys) = elim (Bool-cases (leb (key x) (key y))) [
    | inl e ↦ rw e (Memᴰ-cons a x (y ∷ ys))
    | inr e ↦
        rw e
          (ground (arith, mem-insert_by a x ys, Memᴰ-cons a y ys, Memᴰ-cons a y (insert_by x ys)))
  ]

  pub mem-sort_by : (a : A) (xs : List A) → Memᴰ a (sort_by xs) ↔ Memᴰ a xs
  unfolding sort_by
  mem-sort_by a [] = (λ m. m, λ m. m)
  mem-sort_by a (x ∷ xs) =
      ground (arith, mem-insert_by a x (sort_by xs), Memᴰ-cons a x xs, mem-sort_by a xs)

-- The stable sort by a test, by insertion.
module _ {ℓ} {A : Type ℓ} (le : A → A → Bool) where
  insert_with : A → List A → List A
  insert_with x [] = x ∷ []
  insert_with x (y ∷ ys) = if le x y then x ∷ y ∷ ys else y ∷ insert_with x ys

  unfoldable pub sort_with : List A → List A
  unfolding insert_with
  sort_with [] = []
  sort_with (x ∷ xs) = insert_with x (sort_with xs)

  mem-insert_with : (a x : A) (ys : List A) → Memᴰ a (insert_with x ys) ↔ ((a ≡ x) ⊎ Memᴰ a ys)
  unfolding insert_with
  mem-insert_with a x [] = Memᴰ-cons a x []
  mem-insert_with a x (y ∷ ys) = elim (Bool-cases (le x y)) [
    | inl e ↦ rw e (Memᴰ-cons a x (y ∷ ys))
    | inr e ↦
        rw e (
          ground
            (arith, mem-insert_with a x ys, Memᴰ-cons a y ys, Memᴰ-cons a y (insert_with x ys)))
  ]

  pub mem-sort_with : (a : A) (xs : List A) → Memᴰ a (sort_with xs) ↔ Memᴰ a xs
  unfolding sort_with
  mem-sort_with a [] = (λ m. m, λ m. m)
  mem-sort_with a (x ∷ xs) =
      ground (arith, mem-insert_with a x (sort_with xs), Memᴰ-cons a x xs, mem-sort_with a xs)
