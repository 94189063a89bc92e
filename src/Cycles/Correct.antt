-- ===== src/Cycles/Correct.antt =====
-- `find_cycles` returns, and the edges have a closed walk exactly if it reports one.
use mathlib.Core.List.Memᴰ
use hang_analyzer.Prelude.{
  ℕ, suc, ◌≤◌, ◌≡◌, refl, sym, subst, ◌∙◌, inl, inr, ◌↔◌, ⊎_elim, some, List, [], ◌∷◌, ◌++◌, map,
  length, All, Memᴰ, contains, contains_iff, arith, Bool-cases,
}
use hang_analyzer.Cycles.{Edges, Search, targets, nodes, visit_new, visit_all, find_cycles}
use hang_analyzer.Cycles.Walks.{Edge, Walk, IsCycle}
use hang_analyzer.Cycles.Sets.{unseen-le-length}
use hang_analyzer.Cycles.Step.{IsValid, Scanned, Scanned-cons, Returns, IsTopological}
use hang_analyzer.Cycles.Visit.{visit-Visited}

module _ {N : Type 0} (dec : Discrete N) (edges : Edges N) where
  abbrev keys : List N
  keys = map (λ e. e.0) edges

  visit_new-Visited :
      (f : ℕ) (n : N) (s : Search N)
      → IsValid dec edges s
      → s.stack ≡ []
      → s.visiting ≡ []
      → Memᴰ n (nodes dec edges)
      → length (nodes dec edges) ≤ f
      → Returns dec edges (visit_new dec edges f) n s
  unfolding visit_new
  visit_new-Visited f n s v top vis m room = elim (Bool-cases (contains dec n s.visited)) [
    | inl old ↦ rw old (
      s,
      refl,
      record {
        valid = v;
        stack_kept = refl;
        visiting_kept = refl;
        cycles_grow = λ h. h;
        visited_grow = λ _ m. m;
        visits = inr ((contains_iff dec n s.visited).0 old);
      },
    )
    | inr new ↦ rw new (
        visit-Visited dec edges f n s v (rw top tt) m (rw vis (unfold contains in refl))
          (omega (arith, unseen-le-length dec (nodes dec edges) s.visiting)))
  ]

  visit_all-Scanned :
      (f : ℕ) (ns : List N) (s : Search N)
      → IsValid dec edges s
      → s.stack ≡ []
      → s.visiting ≡ []
      → ((n : N) → Memᴰ n ns → Memᴰ n (nodes dec edges))
      → length (nodes dec edges) ≤ f
      → (t : Search N) × (visit_all dec edges f ns s ≡ some t) × Scanned dec edges ns s t
  unfolding visit_all
  visit_all-Scanned f [] s v top vis known room = (
    s,
    refl,
    record {
      valid = v;
      stack_kept = refl;
      visiting_kept = refl;
      cycles_grow = λ h. h;
      visited_grow = λ _ m. m;
      visits = inr (λ d m. absurd (Memᴰ.not-nil m));
    },
  )
  visit_all-Scanned f (n ∷ ns) s v top vis known room =
      let (t, runs, a) = visit_new-Visited f n s v top vis (known n (Memᴰ.head refl)) room in
      let (u, rest, b) =
        visit_all-Scanned f ns t a.valid (a.stack_kept ∙ top) (a.visiting_kept ∙ vis)
          (λ x m. known x (Memᴰ.tail m)) room in
      (u, rw runs rest, Scanned-cons dec edges n ns s t u a b)

  -- No closed walk passes through a list in which targets stand further on.
  below :
      (a b : N) (l : List N) → IsTopological dec edges l → Memᴰ a l → Edge dec edges a b → Memᴰ b l
  below a b [] h m e = absurd (Memᴰ.not-nil m)
  below a b (x ∷ r) h m e = Memᴰ.tail (
      ⊎_elim (λ p. h.0 b (subst (λ y. Edge dec edges y b) p e)) (λ q. below a b r h.1 q e)
        (Memᴰ.cases_cons m))

  walk_below :
      (p : List N) (a b : N) (l : List N)
      → IsTopological dec edges l
      → Memᴰ a l
      → Walk dec edges (a ∷ p ++ b ∷ [])
      → Memᴰ b l
  walk_below [] a b l h m w = below a b l h m w.0
  walk_below (c ∷ p) a b l h m w = walk_below p c b l h (below a c l h m w.0) w.1

  IsTopological-acyclic :
      (x : N) (p l : List N)
      → IsTopological dec edges l
      → Memᴰ x l
      → ¬ Walk dec edges (x ∷ p ++ x ∷ [])
  IsTopological-acyclic x p [] h m w = Memᴰ.not-nil m
  IsTopological-acyclic x p (z ∷ r) h m w =
      ⊎_elim (λ e. IsTopological-acyclic x p r h.1 (first p e w) w)
        (λ q. IsTopological-acyclic x p r h.1 q w) (Memᴰ.cases_cons m)
    where
      first : (p : List N) → x ≡ z → Walk dec edges (x ∷ p ++ x ∷ []) → Memᴰ x r
      first [] e w = h.0 x (subst (λ y. Edge dec edges y x) e w.0)
      first (c ∷ p) e w = walk_below p c x r h.1 (h.0 c (subst (λ y. Edge dec edges y c) e w.0)) w.1

  -- A node with a target is a key of the dict.
  source-keys : (es : Edges N) (x d : N) → Memᴰ d (targets dec es x) → Memᴰ x (map (λ e. e.0) es)
  unfolding targets
  source-keys [] x d m = absurd (Memᴰ.not-nil m)
  source-keys ((k, ds) ∷ es) x d m = elim (dec k x) [
    | yes p ↦ Memᴰ.head (sym p)
    | no p ↦ Memᴰ.tail (source-keys es x d (subst (Memᴰ d) (ground arith) m))
  ]

  cycle-keys : (x : N) (p : List N) → Walk dec edges (x ∷ p ++ x ∷ []) → Memᴰ x keys
  cycle-keys x [] w = source-keys edges x x w.0
  cycle-keys x (c ∷ p) w = source-keys edges x c w.0

  abbrev pub Acyclic : Type 0
  Acyclic = (c : List N) → ¬ IsCycle dec edges c

  abbrev blank : Search N
  blank = record { cycles = []; visiting = []; visited = []; stack = [] }

  blank-IsValid : IsValid dec edges blank
  blank-IsValid = record { walk = tt; on_stack = λ d m. m; real = tt; topological = inr tt }

  keys-nodes : (es : Edges N) (n : N) → Memᴰ n (map (λ e. e.0) es) → Memᴰ n (nodes dec es)
  unfolding nodes
  keys-nodes es n m = Memᴰ.append_left _ m

  acyclic :
      (t : Search N)
      → IsValid dec edges t
      → t.cycles ≡ []
      → ((n : N) → Memᴰ n keys → Memᴰ n t.visited)
      → Acyclic
  acyclic t v e all c (x, p, q, w) =
      ⊎_elim (λ h. h e)
        (λ topo. IsTopological-acyclic x p t.visited topo (all x (cycle-keys x p w)) w)
        v.topological

  none_found_of_acyclic : (cs : List (List N)) → All (IsCycle dec edges) cs → Acyclic → cs ≡ []
  none_found_of_acyclic [] real h = refl
  none_found_of_acyclic (c ∷ cs) real h = absurd (h c real.0)

  -- `find_cycles` returns a list of closed walks, which is empty exactly if there is no closed walk
  -- along the edges, whatever the order of the dict and of its sets.
  pub find_cycles_decides :
      (cs : List (List N)) × (find_cycles dec edges ≡ some cs)
      × All (IsCycle dec edges) cs
      × ((cs ≡ []) ↔ Acyclic)
  unfolding find_cycles
  find_cycles_decides =
      let (t, runs, b) =
        visit_all-Scanned (suc (length (nodes dec edges))) keys blank blank-IsValid refl refl
          (keys-nodes edges) (omega arith) in
      (
        t.cycles,
        rw runs,
        b.valid.real,
        (
          λ none_found. ⊎_elim (λ h. absurd (h none_found)) (acyclic t b.valid none_found) b.visits,
          none_found_of_acyclic t.cycles b.valid.real,
        ),
      )
