-- ===== src/Cycles/Walks.antt =====
-- Walks along the edges, and the slice of the stack that `find_cycles` reports.
use mathlib.Core.List.Memᴰ
use hang_analyzer.Prelude.{
  ℕ, zero, suc, ◌≡◌, refl, sym, ap, some, List, [], ◌∷◌, ◌++◌, drop, Memᴰ, arith, ⊎_elim,
}
use hang_analyzer.Cycles.{Edges, targets, index?, init}

module _ {N : Type 0} (dec : Discrete N) (edges : Edges N) where
  -- `d` is in the set of `n`.
  abbrev pub Edge : N → N → Type 0
  Edge n d = Memᴰ d (targets dec edges n)

  -- Each node of the list has an edge to the next one.
  abbrev pub Walk : List N → Type 0
  Walk [] = Unit
  Walk (x ∷ []) = Unit
  Walk (x ∷ y ∷ r) = Edge x y × Walk (y ∷ r)

  -- A closed walk along at least one edge.
  abbrev pub IsCycle : List N → Type 0
  IsCycle c = (x : N) × (p : List N) × (c ≡ x ∷ p ++ x ∷ []) × Walk (x ∷ p ++ x ∷ [])

  pub Walk-snoc :
      (p : List N) (n d : N) → Walk (p ++ n ∷ []) → Edge n d → Walk ((p ++ n ∷ []) ++ d ∷ [])
  Walk-snoc [] n d w e = (e, tt)
  Walk-snoc (x ∷ []) n d w e = (w.0, (e, tt))
  Walk-snoc (x ∷ y ∷ p) n d w e = (w.0, Walk-snoc (y ∷ p) n d w.1 e)

  Walk-tail : (x : N) (l : List N) → Walk (x ∷ l) → Walk l
  Walk-tail x [] w = tt
  Walk-tail x (y ∷ l) w = w.1

  pub Walk-drop : (i : ℕ) (l m : List N) → Walk (l ++ m) → Walk (drop i l ++ m)
  Walk-drop zero l m w = w
  Walk-drop (suc i) [] m w = w
  Walk-drop (suc i) (x ∷ l) m w = Walk-drop i l m (Walk-tail x (l ++ m) w)

module _ {N : Type 0} (dec : Discrete N) where
  -- The index of a node that is there is found, and the slice from it begins with the node.
  pub index?_slice :
      (d : N) (l : List N)
      → Memᴰ d l
      → (i : ℕ) × (r : List N) × (index? dec d l ≡ some i) × (drop i l ≡ d ∷ r)
  unfolding index?
  index?_slice d [] m = absurd (Memᴰ.not-nil m)
  index?_slice d (x ∷ l) m = elim (dec x d) [
    | yes p ↦ (0, l, ground arith, ap (λ y. y ∷ l) p)
    | no p ↦
        let (i, r, e, s) =
          index?_slice d l (⊎_elim (λ q. absurd (p (sym q))) (λ t. t) (Memᴰ.cases_cons m)) in
        (suc i, r, ground arith, s)
  ]

pub init-snoc {ℓ} : {A : Type ℓ} (l : List A) (x : A) → init (l ++ x ∷ []) ≡ l
unfolding init
init-snoc [] x = refl
init-snoc (y ∷ []) x = refl
init-snoc (y ∷ z ∷ l) x = ap (◌∷◌ y) (init-snoc (z ∷ l) x)
