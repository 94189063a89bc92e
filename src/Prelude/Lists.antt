-- ===== src/Prelude/Lists.antt =====
-- Lists measured and indexed by native numbers, and membership in them.
use Prim.Native.Nat.{ℕ, zero, suc, ◌+◌, ◌-◌, min}
use mathlib.Core.Path.{◌≡◌, refl, sym, ap, subst, ◌∙◌}
use mathlib.Core.Logic.{◌⊎◌, inl, inr, ◌↔◌, ⊎_elim}
use mathlib.Core.Bool.{Bool, true, false}
use mathlib.Core.Option.{Option, none, some}
use mathlib.Core.List.{List, [], ◌∷◌, ◌++◌, Memᴰ}
use mathlib.Core.List.Memᴰ
use native.Mathlib.Omega.{arith}
use hang_analyzer.Prelude.Tests.{Bool-cases, if◌then◌else◌}

module _ {ℓ} {A : Type ℓ} where
  abbrev pub length : List A → ℕ
  length [] = 0
  length (x ∷ xs) = suc (length xs)

  abbrev pub get_elem? : List A → ℕ → Option A
  get_elem? [] i = none
  get_elem? (x ∷ xs) zero = some x
  get_elem? (x ∷ xs) (suc i) = get_elem? xs i

  abbrev pub take : ℕ → List A → List A
  take zero xs = []
  take (suc n) [] = []
  take (suc n) (x ∷ xs) = x ∷ take n xs

  abbrev pub drop : ℕ → List A → List A
  drop zero xs = xs
  drop (suc n) [] = []
  drop (suc n) (x ∷ xs) = drop n xs

  pub length-append : (xs ys : List A) → length (xs ++ ys) ≡ length xs + length ys
  length-append [] ys = omega arith
  length-append (x ∷ xs) ys = omega (arith, length-append xs ys)

  pub Memᴰ-cons : (a x : A) (xs : List A) → Memᴰ a (x ∷ xs) ↔ ((a ≡ x) ⊎ Memᴰ a xs)
  Memᴰ-cons a x xs = (Memᴰ.cases_cons, ⊎_elim Memᴰ.head Memᴰ.tail)

  pub Memᴰ-append : (a : A) (xs ys : List A) → Memᴰ a (xs ++ ys) ↔ (Memᴰ a xs ⊎ Memᴰ a ys)
  Memᴰ-append a xs ys = (Memᴰ.append_cases xs, ⊎_elim (Memᴰ.append_left ys) (Memᴰ.append_right xs))

  pub List-cases : (xs : List A) → (xs ≡ []) ⊎ ((x : A) × (rest : List A) × (xs ≡ x ∷ rest))
  List-cases [] = inl refl
  List-cases (x ∷ xs) = inr (x, xs, refl)

-- A property of every item, as a tuple that the tactics read.
abbrev pub All {ℓ κ} : {A : Type ℓ} → (A → Type κ) → List A → Type κ
All P [] = Unit
All P (x ∷ xs) = P x × All P xs

module _ {ℓ κ} {A : Type ℓ} (P : A → Type κ) where
  pub All-append : (xs ys : List A) → All P xs → All P ys → All P (xs ++ ys)
  All-append [] ys hx hy = hy
  All-append (x ∷ xs) ys hx hy = (hx.0, All-append xs ys hx.1 hy)

-- Membership as a test, `x in xs`.
module _ {ℓ} {A : Type ℓ} (dec : Discrete A) where
  unfoldable pub contains : A → List A → Bool
  contains a [] = false
  contains a (x ∷ xs) = elim (dec a x) [ yes _ ↦ true | no _ ↦ contains a xs ]

  pub contains_iff : (a : A) (xs : List A) → (contains a xs ≡ true) ↔ Memᴰ a xs
  unfolding contains
  contains_iff a [] = (λ h. cc, λ m. absurd (Memᴰ.not-nil m))
  contains_iff a (x ∷ xs) = ground (arith, contains_iff a xs, Memᴰ-cons a x xs)

module _ {ℓ κ κ'} {A : Type ℓ} (P : A → Type κ) (Q : A → Type κ') where
  pub All-mono : (xs : List A) → ((a : A) → P a → Q a) → All P xs → All Q xs
  All-mono [] f h = tt
  All-mono (x ∷ xs) f h = (f x h.0, All-mono xs f h.1)

module _ {ℓ κ} {A : Type ℓ} (P : A → Type κ) where
  pub All-mem : (xs : List A) → All P xs → (a : A) → Memᴰ a xs → P a
  All-mem [] h a m = absurd (Memᴰ.not-nil m)
  All-mem (x ∷ xs) h a m = ⊎_elim (λ e. subst P (sym e) h.0) (All-mem xs h.1 a) (Memᴰ.cases_cons m)

module _ {ℓ κ} {A : Type ℓ} (P : A → Type κ) where
  pub mem-All : (xs : List A) → ((a : A) → Memᴰ a xs → P a) → All P xs
  mem-All [] f = tt
  mem-All (x ∷ xs) f = (f x (Memᴰ.head refl), mem-All xs (λ a m. f a (Memᴰ.tail m)))

module _ {ℓ} {A : Type ℓ} where
  pub length-drop : (n : ℕ) (xs : List A) → length (drop n xs) ≡ length xs - n
  length-drop zero xs = omega arith
  length-drop (suc n) [] = omega arith
  length-drop (suc n) (x ∷ xs) = omega (arith, length-drop n xs)

  pub length-take : (n : ℕ) (xs : List A) → length (take n xs) ≡ min n (length xs)
  length-take zero xs = omega arith
  length-take (suc n) [] = omega arith
  length-take (suc n) (x ∷ xs) = omega (arith, length-take n xs)

module _ {ℓ} {A : Type ℓ} where
  -- The items that pass the test.
  unfoldable pub passing : (A → Bool) → List A → List A
  passing p [] = []
  passing p (x ∷ xs) = let rest = passing p xs in if p x then x ∷ rest else rest

  pub mem-passing :
      (p : A → Bool) (a : A) (xs : List A) → Memᴰ a (passing p xs) ↔ (Memᴰ a xs × (p a ≡ true))
  unfolding passing
  mem-passing p a [] = (λ m. absurd (Memᴰ.not-nil m), λ m. m.0)
  mem-passing p a (x ∷ xs) = elim (Bool-cases (p x)) [
    | inl h ↦ rw h (
      λ m.
          ⊎_elim (λ e. (Memᴰ.head e, ap p e ∙ h))
            (λ t. (Memᴰ.tail ((mem-passing p a xs).0 t).0, ((mem-passing p a xs).0 t).1))
            (Memᴰ.cases_cons m),
      λ m.
          ⊎_elim Memᴰ.head (λ t. Memᴰ.tail ((mem-passing p a xs).1 (t, m.1))) (Memᴰ.cases_cons m.0),
    )
    | inr h ↦ rw h (
      λ m. (Memᴰ.tail ((mem-passing p a xs).0 m).0, ((mem-passing p a xs).0 m).1),
      λ m. ⊎_elim (λ e. cc (ap p e)) (λ t. (mem-passing p a xs).1 (t, m.1)) (Memᴰ.cases_cons m.0),
    )
  ]
