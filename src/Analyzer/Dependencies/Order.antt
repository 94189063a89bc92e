-- ===== src/Analyzer/Dependencies/Order.antt =====
-- The edges from a record to the earlier waits of its stream.
use mathlib.Core.List.Memᴰ
use hang_analyzer.Prelude.{
  ℕ, ◌≡◌, ◌↔◌, ◌⊎◌, ⊎_elim, refl, sym, ap, subst, ◌∙◌, inl, inr, Bool, Bool-cases, true, Option,
  none, some, List, [], ◌∷◌, ◌++◌, if◌then◌else◌, codes, Dict, lookup-insert_self, lookup-insert_ne,
  insert, ℕ_discrete, Memᴰ, arith,
}
use hang_analyzer.Format.{Event}
use hang_analyzer.Cycles.{Edges}
use hang_analyzer.Analyzer.Scan.{is_type}
use hang_analyzer.Analyzer.Dependencies.{Node, record_node, wait_node, add_edge, after_waits, prior}
use hang_analyzer.Analyzer.Dependencies.Exact.{HasEdge, add_edge_iff}

abbrev pub is_wait : Event → Bool
is_wait e = is_type (codes "EVENT_WAIT") e

abbrev pub is_record : Event → Bool
is_record e = is_type (codes "EVENT_RECORD") e

-- One event stands before another one in a list.
pub data Before (w r : Event) : List Event → Type 0 where
  first : {es : List Event} → Memᴰ r es → Before w r (w ∷ es)
  later : (e : Event) {es : List Event} → Before w r es → Before w r (e ∷ es)

-- An edge from a record to a wait before it on the same stream.
pub record IsOrderEdge (rank : ℕ) (es : List Event) (a b : Node) : Type 0 where
  pub earlier : Event
  pub after : Event
  pub before : Before earlier after es
  pub waits : is_wait earlier ≡ true
  pub records : is_record after ≡ true
  pub same : earlier.stream ≡ after.stream
  pub source : a ≡ record_node rank after.stream after.seq
  pub target : b ≡ wait_node rank earlier.stream earlier.seq

-- An edge to a wait that was seen before the list.
pub record IsPendingEdge (rank : ℕ) (pw : Dict ℕ (List Event)) (es : List Event) (a b : Node)
    : Type 0 where
  pub earlier : Event
  pub after : Event
  pub pending : Memᴰ earlier (prior after.stream pw)
  pub comes : Memᴰ after es
  pub records : is_record after ≡ true
  pub source : a ≡ record_node rank after.stream after.seq
  pub target : b ≡ wait_node rank earlier.stream earlier.seq

-- An edge to this event from a record in the list.
pub record IsEdgeTo (rank : ℕ) (e : Event) (es : List Event) (a b : Node) : Type 0 where
  pub after : Event
  pub comes : Memᴰ after es
  pub waits : is_wait e ≡ true
  pub records : is_record after ≡ true
  pub same : e.stream ≡ after.stream
  pub source : a ≡ record_node rank after.stream after.seq
  pub target : b ≡ wait_node rank e.stream e.seq

-- An edge from this event to one of some waits.
pub record IsEdgeFrom (rank : ℕ) (e : Event) (ps : List Event) (a b : Node) : Type 0 where
  pub earlier : Event
  pub pending : Memᴰ earlier ps
  pub source : a ≡ record_node rank e.stream e.seq
  pub target : b ≡ wait_node rank earlier.stream earlier.seq

after_waits_iff :
    (rank : ℕ) (e : Event) (ps : List Event) (edges : Edges Node) (a b : Node)
    → HasEdge (after_waits rank e ps edges) a b ↔ (IsEdgeFrom rank e ps a b ⊎ HasEdge edges a b)
unfolding after_waits
after_waits_iff rank e [] edges a b = (inr, ⊎_elim (λ i. absurd (Memᴰ.not-nil i.pending)) (λ h. h))
after_waits_iff rank e (p ∷ ps) edges a b =
    let rest =
      after_waits_iff rank e ps
        (add_edge (record_node rank e.stream e.seq) (wait_node rank p.stream p.seq) edges) a b in
    let one =
      add_edge_iff (record_node rank e.stream e.seq) (wait_node rank p.stream p.seq) edges a b in
    ground (arith, rest, one, split)
  where
    split : IsEdgeFrom rank e (p ∷ ps) a b ↔ (
        ((a ≡ record_node rank e.stream e.seq) × (b ≡ wait_node rank p.stream p.seq))
        ⊎ IsEdgeFrom rank e ps a b)
    split = (
      λ i.
          ⊎_elim
            (λ q. inl (i.source, i.target ∙ ap (λ (x : Event). wait_node rank x.stream x.seq) q))
            (λ t.
              inr
                (record { earlier = i.earlier; pending = t; source = i.source; target = i.target }))
            (Memᴰ.cases_cons i.pending),
      ⊎_elim (λ q. record { earlier = p; pending = Memᴰ.head refl; source = q.0; target = q.1 })
          (λ i. record {
            earlier = i.earlier;
            pending = Memᴰ.tail i.pending;
            source = i.source;
            target = i.target;
          }),
    )

-- What one event adds to the edges.
unfoldable pub edges_with : ℕ → Event → Dict ℕ (List Event) → Edges Node → Edges Node
edges_with rank e pw edges =
    if is_record e then after_waits rank e (prior e.stream pw) edges else edges

pub edges_with_iff :
    (rank : ℕ) (e : Event) (pw : Dict ℕ (List Event)) (edges : Edges Node) (a b : Node)
    → HasEdge (edges_with rank e pw edges) a b
      ↔ (((is_record e ≡ true) × IsEdgeFrom rank e (prior e.stream pw) a b) ⊎ HasEdge edges a b)
unfolding edges_with
edges_with_iff rank e pw edges a b = elim (Bool-cases (is_record e)) [
  | inl y ↦
      let i = after_waits_iff rank e (prior e.stream pw) edges a b in
      rw y (λ h. ⊎_elim (λ f. inl (refl, f)) inr (i.0 h), λ h. i.1 (⊎_elim (λ f. inl f.1) inr h))
  | inr n ↦ rw n (inr, ⊎_elim (λ f. cc f.0) (λ h. h))
]

-- What one event adds to the waits.
unfoldable pub waits_with : Event → Dict ℕ (List Event) → Dict ℕ (List Event)
waits_with e pw =
    if is_wait e then insert ℕ_discrete e.stream (prior e.stream pw ++ e ∷ []) pw else pw

abbrev prior_of : Option (List Event) → List Event
prior_of o = elim o [ none ↦ [] | some l ↦ l ]

prior-insert_self :
    (s : ℕ) (l : List Event) (pw : Dict ℕ (List Event)) → prior s (insert ℕ_discrete s l pw) ≡ l
unfolding prior
prior-insert_self s l pw = ap prior_of (lookup-insert_self ℕ_discrete s l pw)

prior-insert_ne :
    (s r : ℕ) (l : List Event) (pw : Dict ℕ (List Event))
    → ¬ (s ≡ r)
    → prior r (insert ℕ_discrete s l pw) ≡ prior r pw
unfolding prior
prior-insert_ne s r l pw n = ap prior_of (lookup-insert_ne ℕ_discrete s r l pw n)

pub mem-prior :
    (w e : Event) (s : ℕ) (pw : Dict ℕ (List Event))
    → Memᴰ w (prior s (waits_with e pw))
      ↔ (Memᴰ w (prior s pw) ⊎ ((is_wait e ≡ true) × (e.stream ≡ s) × (w ≡ e)))
unfolding waits_with
mem-prior w e s pw = elim (Bool-cases (is_wait e)) [
  | inr n ↦ rw n (inl, ⊎_elim (λ m. m) (λ q. cc q.0))
  | inl y ↦ rw y (elim (ℕ_discrete e.stream s) [
    | yes p ↦
        let old = prior e.stream pw in
        let here : prior s (insert ℕ_discrete e.stream (old ++ e ∷ []) pw) ≡ old ++ e ∷ [] =
          ap (λ k. prior k (insert ℕ_discrete e.stream (old ++ e ∷ []) pw)) (sym p)
          ∙ prior-insert_self e.stream (old ++ e ∷ []) pw in
        (
          λ m.
              ⊎_elim (λ t. inl (subst (λ k. Memᴰ w (prior k pw)) p t))
                (λ t.
                  inr (refl, p, ⊎_elim (λ q. q) (λ u. absurd (Memᴰ.not-nil u)) (Memᴰ.cases_cons t)))
                (Memᴰ.append_cases old (subst (Memᴰ w) here m)),
          λ h. subst (Memᴰ w) (sym here) (
              ⊎_elim (λ t. Memᴰ.append_left (e ∷ []) (subst (λ k. Memᴰ w (prior k pw)) (sym p) t))
                (λ q. Memᴰ.append_right old (Memᴰ.head q.2)) h),
        )
    | no n ↦
        let other = prior-insert_ne e.stream s (prior e.stream pw ++ e ∷ []) pw n in
        (
          λ m. inl (subst (Memᴰ w) other m),
          λ h. subst (Memᴰ w) (sym other) (⊎_elim (λ t. t) (λ q. absurd (n q.1)) h),
        )
  ])
]
