-- ===== src/Cycles/Visit.antt =====
-- One call of `visit`: it returns, leaves `stack` and `visiting` as they were, records only closed
-- walks, and visits its node together with all targets unless a cycle was recorded.
use mathlib.Core.List.Memᴰ
use hang_analyzer.Prelude.{
  ℕ, zero, suc, ◌≤◌, ◌≡◌, refl, ap, subst, ◌∙◌, false, inl, inr, ⊎_elim, Option, some, List, [],
  ◌∷◌, ◌++◌, Memᴰ, contains, arith, Bool-cases,
}
use hang_analyzer.Cycles.{
  Edges, Search, targets, add, remove, nodes, scan, enter, leave, visit, init,
}
use hang_analyzer.Cycles.Walks.{Edge, Walk, Walk-snoc, init-snoc}
use hang_analyzer.Cycles.Sets.{
  add_fresh, mem-add, remove-add, unseen, unseen-cons-lt, targets-nodes,
}
use hang_analyzer.Cycles.Step.{
  IsValid, Visited, Scanned, Scanned-cons, Returns, step-Returns, IsTopological,
}

module _ {N : Type 0} (dec : Discrete N) (edges : Edges N) where
  module _ (n : N) (p : List N) (rec : N → Search N → Option (Search N)) where
    -- The loop over the targets `ds` that are left; `vs` is what `visiting` holds throughout.
    scan-Scanned :
        (vs ds : List N) (s : Search N)
        → IsValid dec edges s
        → s.stack ≡ p ++ n ∷ []
        → s.visiting ≡ vs
        → ((d : N) → Memᴰ d ds → Edge dec edges n d)
        → ((d : N) (t : Search N)
            → Edge dec edges n d
            → IsValid dec edges t
            → t.stack ≡ p ++ n ∷ []
            → t.visiting ≡ vs
            → contains dec d vs ≡ false
            → Returns dec edges rec d t)
        → (t : Search N) × (scan dec rec ds s ≡ some t) × Scanned dec edges ds s t
    unfolding scan
    scan-Scanned vs [] s v top vis edge call = (
      s,
      refl,
      record {
        valid = v;
        stack_kept = refl;
        visiting_kept = refl;
        cycles_grow = λ h. h;
        visited_grow = λ _ m. m;
        visits = inr (λ d m. absurd (Memᴰ.not-nil m));
      },
    )
    scan-Scanned vs (d ∷ ds) s v top vis edge call =
        let e = edge d (Memᴰ.head refl) in
        let (t, runs, a) =
          step-Returns dec edges n p s v top rec d e
            (λ fresh. call d s e v top vis (subst (λ w. contains dec d w ≡ false) vis fresh)) in
        let (u, rest, b) =
          scan-Scanned vs ds t a.valid (a.stack_kept ∙ top) (a.visiting_kept ∙ vis)
            (λ x m. edge x (Memᴰ.tail m)) call in
        (u, rw runs rest, Scanned-cons dec edges d ds s t u a b)

  enter-IsValid :
      (n : N) (s : Search N)
      → IsValid dec edges s
      → Walk dec edges (s.stack ++ n ∷ [])
      → IsValid dec edges (enter dec n s)
  unfolding enter
  enter-IsValid n s v w = record {
    walk = w;
    on_stack = λ d m.
        ⊎_elim (λ e. Memᴰ.append_right s.stack (Memᴰ.head e))
          (λ q. Memᴰ.append_left _ (v.on_stack d q)) ((mem-add dec n d s.visiting).0 m);
    real = v.real;
    topological = v.topological;
  }

  -- A node joins `visited` behind all its targets.
  add-IsTopological :
      (n : N) (l : List N)
      → ((d : N) → Edge dec edges n d → Memᴰ d l)
      → IsTopological dec edges l
      → IsTopological dec edges (add dec n l)
  unfolding add
  add-IsTopological n l below h = elim (Bool-cases (contains dec n l)) [
    | inl old ↦ rw old h
    | inr new ↦ rw new (below, h)
  ]

  -- What `visit` returns once the loop over the targets of `n` has ended in `t`.
  leave-Visited :
      (n : N) (s t : Search N)
      → IsValid dec edges s
      → contains dec n s.visiting ≡ false
      → Scanned dec edges (targets dec edges n) (enter dec n s) t
      → Visited dec edges n s (leave dec n t)
  unfolding enter leave
  leave-Visited n s t v fresh b =
      let stack : init t.stack ≡ s.stack = ap init b.stack_kept ∙ init-snoc s.stack n in
      let visiting : remove dec n t.visiting ≡ s.visiting =
        ap (remove dec n) b.visiting_kept ∙ remove-add dec n s.visiting fresh in
      record {
        valid = record {
          walk = rw stack v.walk;
          on_stack = rw (stack, visiting) v.on_stack;
          real = b.valid.real;
          topological =
              ⊎_elim inl
                (λ below.
                  ⊎_elim inl (λ h. inr (add-IsTopological n t.visited below h)) b.valid.topological)
                b.visits;
        };
        stack_kept = stack;
        visiting_kept = visiting;
        cycles_grow = b.cycles_grow;
        visited_grow = λ d m. (mem-add dec n d t.visited).1 (inr (b.visited_grow d m));
        visits = inr ((mem-add dec n n t.visited).1 (inl refl));
      }

  pub visit-Visited :
      (f : ℕ) (n : N) (s : Search N)
      → IsValid dec edges s
      → Walk dec edges (s.stack ++ n ∷ [])
      → Memᴰ n (nodes dec edges)
      → contains dec n s.visiting ≡ false
      → unseen dec (nodes dec edges) s.visiting ≤ f
      → Returns dec edges (visit dec edges f) n s
  unfolding visit enter
  visit-Visited zero n s v w m fresh room =
      absurd (omega (arith, unseen-cons-lt dec n (nodes dec edges) s.visiting m fresh))
  visit-Visited (suc f) n s v w m fresh room =
      let (t, runs, b) =
        scan-Scanned n s.stack (visit dec edges f) (n ∷ s.visiting) (targets dec edges n)
          (enter dec n s) (enter-IsValid n s v w) refl (add_fresh dec n s.visiting fresh) (λ d q. q)
          (λ d u e valid top vis new.
            visit-Visited f d u valid
              (rw top (Walk-snoc dec edges s.stack n d (rw top at valid.walk) e))
              (targets-nodes dec edges n d e) (rw vis new)
              (rw vis
                (omega (arith, unseen-cons-lt dec n (nodes dec edges) s.visiting m fresh)))) in
      (leave dec n t, rw runs, leave-Visited n s t v fresh b)
