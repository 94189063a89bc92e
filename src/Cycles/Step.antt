-- ===== src/Cycles/Step.antt =====
-- One round of the `for dest` loop of `visit`, given that the recursive call does its work.
use mathlib.Core.List.Memᴰ
use hang_analyzer.Prelude.{
  ◌≡◌, ◌≢◌, refl, ap, subst, ◌∙◌, false, ◌⊎◌, inl, inr, ⊎_elim, Option, some, List, [], ◌∷◌, ◌++◌,
  drop, All, All-append, Memᴰ, contains, contains_iff, Bool-cases,
}
use hang_analyzer.Cycles.{Edges, Search, List-discrete, report, close, step}
use hang_analyzer.Cycles.Walks.{Edge, Walk, IsCycle, Walk-snoc, Walk-drop, index?_slice}

snoc-ne-nil {ℓ} : {A : Type ℓ} (l : List A) (x : A) → l ++ x ∷ [] ≢ []
snoc-ne-nil [] x e = cc
snoc-ne-nil (y ∷ l) x e = cc

module _ {N : Type 0} (dec : Discrete N) (edges : Edges N) where
  -- The targets of each entry stand further on in the list.
  abbrev pub IsTopological : List N → Type 0
  IsTopological [] = Unit
  IsTopological (x ∷ r) = ((d : N) → Edge dec edges x d → Memᴰ d r) × IsTopological r

  -- Holds between any two steps of the search.
  pub record IsValid (s : Search N) : Type 0 where
    pub walk : Walk dec edges s.stack
    pub on_stack : (d : N) → Memᴰ d s.visiting → Memᴰ d s.stack
    pub real : All (IsCycle dec edges) s.cycles
    pub topological : (s.cycles ≢ []) ⊎ IsTopological s.visited

  -- What a step that looks at `n` has done when it ends in `t`.
  pub record Visited (n : N) (s t : Search N) : Type 0 where
    pub valid : IsValid t
    pub stack_kept : t.stack ≡ s.stack
    pub visiting_kept : t.visiting ≡ s.visiting
    pub cycles_grow : s.cycles ≢ [] → t.cycles ≢ []
    pub visited_grow : (d : N) → Memᴰ d s.visited → Memᴰ d t.visited
    pub visits : (t.cycles ≢ []) ⊎ Memᴰ n t.visited

  abbrev pub Returns : (N → Search N → Option (Search N)) → N → Search N → Type 0
  Returns rec n s = (t : Search N) × (rec n s ≡ some t) × Visited n s t

  report-Visited :
      (c : List N) (d : N) (s : Search N)
      → IsValid s
      → IsCycle dec edges c
      → Visited d s (report dec c s)
  unfolding report
  report-Visited c d s v real = elim (Bool-cases (contains (List-discrete dec) c s.cycles)) [
    | inl old ↦
        let found : s.cycles ≢ [] = λ e.
          Memᴰ.not-nil (subst (Memᴰ c) e ((contains_iff (List-discrete dec) c s.cycles).0 old)) in
        rw old (record {
          valid = v;
          stack_kept = refl;
          visiting_kept = refl;
          cycles_grow = λ h. h;
          visited_grow = λ _ m. m;
          visits = inl found;
        })
    | inr new ↦
        let grown = snoc-ne-nil s.cycles c in
        rw new (record {
          valid = record {
            walk = v.walk;
            on_stack = v.on_stack;
            real = All-append (IsCycle dec edges) s.cycles (c ∷ []) v.real (real, tt);
            topological = inl grown;
          };
          stack_kept = refl;
          visiting_kept = refl;
          cycles_grow = λ _. grown;
          visited_grow = λ _ m. m;
          visits = inl grown;
        })
  ]

  module _ (n : N) (p : List N) (s : Search N) (v : IsValid s) (top : s.stack ≡ p ++ n ∷ []) where
    close-Returns : (d : N) → Edge dec edges n d → Memᴰ d s.visiting → Returns (close dec) d s
    unfolding close
    close-Returns d edge m =
        let (i, r, found, slice) = index?_slice dec d s.stack (v.on_stack d m) in
        let walk : Walk dec edges (s.stack ++ d ∷ []) =
          rw top (Walk-snoc dec edges p n d (rw top at v.walk) edge) in
        let closed : IsCycle dec edges (drop i s.stack ++ d ∷ []) = (
          d,
          r,
          ap (λ l. l ++ d ∷ []) slice,
          subst (λ l. Walk dec edges (l ++ d ∷ [])) slice
              (Walk-drop dec edges i s.stack (d ∷ []) walk),
        ) in
        (report dec (drop i s.stack ++ d ∷ []) s, rw found, report-Visited _ d s v closed)

    -- One round of the loop, given that the recursive call does its work.
    pub step-Returns :
        (rec : N → Search N → Option (Search N)) (d : N)
        → Edge dec edges n d
        → (contains dec d s.visiting ≡ false → Returns rec d s)
        → Returns (step dec rec) d s
    unfolding step
    step-Returns rec d edge call = elim (Bool-cases (contains dec d s.visiting)) [
      | inl open_ ↦ rw open_ (close-Returns d edge ((contains_iff dec d s.visiting).0 open_))
      | inr fresh ↦ elim (Bool-cases (contains dec d s.visited)) [
        | inl old ↦
            rw (fresh, old)
              (
                s,
                refl,
                record {
                  valid = v;
                  stack_kept = refl;
                  visiting_kept = refl;
                  cycles_grow = λ h. h;
                  visited_grow = λ _ m. m;
                  visits = inr ((contains_iff dec d s.visited).0 old);
                },
              )
        | inr new ↦ rw (fresh, new) (call fresh)
      ]
    ]

  pub record Scanned (ds : List N) (s t : Search N) : Type 0 where
    pub valid : IsValid t
    pub stack_kept : t.stack ≡ s.stack
    pub visiting_kept : t.visiting ≡ s.visiting
    pub cycles_grow : s.cycles ≢ [] → t.cycles ≢ []
    pub visited_grow : (d : N) → Memᴰ d s.visited → Memᴰ d t.visited
    pub visits : (t.cycles ≢ []) ⊎ ((d : N) → Memᴰ d ds → Memᴰ d t.visited)

  pub Scanned-cons :
      (d : N) (ds : List N) (s t u : Search N)
      → Visited d s t
      → Scanned ds t u
      → Scanned (d ∷ ds) s u
  Scanned-cons d ds s t u a b = record {
    valid = b.valid;
    stack_kept = b.stack_kept ∙ a.stack_kept;
    visiting_kept = b.visiting_kept ∙ a.visiting_kept;
    cycles_grow = λ h. b.cycles_grow (a.cycles_grow h);
    visited_grow = λ x m. b.visited_grow x (a.visited_grow x m);
    visits =
        ⊎_elim inl
          (λ rest.
            ⊎_elim (λ h. inl (b.cycles_grow h))
              (λ m. inr (λ x q.
                ⊎_elim (λ e. b.visited_grow x (Memᴰ.cast e m)) (rest x) (Memᴰ.cases_cons q)))
              a.visits)
          b.visits;
  }
