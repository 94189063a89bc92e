-- ===== src/Cycles/Sets.antt =====
-- The sets `visiting` and `visited` as lists, and the count of nodes not yet entered.
use mathlib.Core.List.Memᴰ
use hang_analyzer.Prelude.{
  ℕ, ◌+◌, ◌≤◌, ◌<◌, length, ◌≡◌, false, ◌↔◌, ◌⊎◌, inl, inr, ⊎_elim, List, [], ◌∷◌, subst, Memᴰ,
  Memᴰ-cons, contains, contains_iff, if◌then◌else◌, arith, Bool-cases,
}
use hang_analyzer.Cycles.{Edges, targets, add, remove, destinations, nodes}

module _ {N : Type 0} (dec : Discrete N) where
  pub mem-add : (n a : N) (xs : List N) → Memᴰ a (add dec n xs) ↔ ((a ≡ n) ⊎ Memᴰ a xs)
  unfolding add
  mem-add n a xs = elim (Bool-cases (contains dec n xs)) [
    | inl old ↦ rw old (inr, ⊎_elim (λ e. Memᴰ.cast e ((contains_iff dec n xs).0 old)) (λ m. m))
    | inr new ↦ rw new (Memᴰ-cons a n xs)
  ]

  pub add_fresh : (n : N) (xs : List N) → contains dec n xs ≡ false → add dec n xs ≡ n ∷ xs
  unfolding add
  add_fresh n xs new = rw new

  -- What `visit` adds to `visiting` it removes again.
  pub remove-add :
      (n : N) (xs : List N) → contains dec n xs ≡ false → remove dec n (add dec n xs) ≡ xs
  unfolding add remove
  remove-add n xs new = rw new (ground arith)

  -- The entries of `us` that are not in `vs`.
  pub unseen : List N → List N → ℕ
  unseen [] vs = 0
  unseen (u ∷ us) vs = (if contains dec u vs then 0 else 1) + unseen us vs

  pub unseen-le-length : (us vs : List N) → unseen us vs ≤ length us
  unfolding unseen
  unseen-le-length [] vs = omega arith
  unseen-le-length (u ∷ us) vs = ground (arith, unseen-le-length us vs)

  unseen-cons-le : (n : N) (us vs : List N) → unseen us (n ∷ vs) ≤ unseen us vs
  unfolding unseen contains
  unseen-cons-le n [] vs = omega arith
  unseen-cons-le n (u ∷ us) vs = ground (arith, unseen-cons-le n us vs)

  pub unseen-cons-lt :
      (n : N) (us vs : List N)
      → Memᴰ n us
      → contains dec n vs ≡ false
      → unseen us (n ∷ vs) < unseen us vs
  unfolding unseen contains
  unseen-cons-lt n [] vs m h = absurd (Memᴰ.not-nil m)
  unseen-cons-lt n (u ∷ us) vs m h = elim (Memᴰ.cases_cons m) [
    | inl e ↦ ground (arith, unseen-cons-le n us vs)
    | inr t ↦ ground (arith, unseen-cons-lt n us vs t)
  ]

  targets-destinations :
      (es : Edges N) (n d : N) → Memᴰ d (targets dec es n) → Memᴰ d (destinations es)
  unfolding targets destinations
  targets-destinations [] n d h = h
  targets-destinations ((m, ds) ∷ es) n d h = elim (dec m n) [
    | yes p ↦
        let here : targets dec ((m, ds) ∷ es) n ≡ ds = ground arith in
        Memᴰ.append_left _ (subst (Memᴰ d) here h)
    | no p ↦ Memᴰ.append_right ds (targets-destinations es n d (subst (Memᴰ d) (ground arith) h))
  ]

  -- Every target is one of the nodes.
  pub targets-nodes : (es : Edges N) (n d : N) → Memᴰ d (targets dec es n) → Memᴰ d (nodes dec es)
  unfolding nodes
  targets-nodes es n d m = Memᴰ.append_right _ (targets-destinations es n d m)
