-- ===== src/Analyzer/Dependencies/Exact.antt =====
-- Which edges the dependencies of the selected files give.
use mathlib.Core.List.Memᴰ
use hang_analyzer.Prelude.{
  ◌≡◌, ◌↔◌, ◌⊎◌, ⊎_elim, refl, sym, ap, subst, ◌∙◌, inl, inr, Option-cases, some, List, [], ◌∷◌,
  Dict, insert, Memᴰ, arith,
}
use hang_analyzer.Format.{Event}
use hang_analyzer.Cycles.{Edges, targets, add}
use hang_analyzer.Cycles.Sets.{mem-add}
use hang_analyzer.Analyzer.Scan.{PairKey}
use hang_analyzer.Analyzer.Dependencies.{
  Node, record_node, wait_node, Node-discrete, add_edge, producer_of, wait_edge, wait_edges,
}

abbrev pub HasEdge : Edges Node → Node → Node → Type 0
HasEdge edges a b = Memᴰ b (targets Node-discrete edges a)

targets-insert_self :
    (x : Node) (l : List Node) (edges : Edges Node)
    → targets Node-discrete (insert Node-discrete x l edges) x ≡ l
unfolding targets insert
targets-insert_self x l [] = ground arith
targets-insert_self x l ((y, k) ∷ edges) = ground (arith, targets-insert_self x l edges)

targets-insert_ne :
    (x a : Node) (l : List Node) (edges : Edges Node)
    → ¬ (x ≡ a)
    → targets Node-discrete (insert Node-discrete x l edges) a ≡ targets Node-discrete edges a
unfolding targets insert
targets-insert_ne x a l [] n = ground arith
targets-insert_ne x a l ((y, k) ∷ edges) n = ground (arith, targets-insert_ne x a l edges n)

pub add_edge_iff :
    (x y : Node) (edges : Edges Node) (a b : Node)
    → HasEdge (add_edge x y edges) a b ↔ (((a ≡ x) × (b ≡ y)) ⊎ HasEdge edges a b)
unfolding add_edge
add_edge_iff x y edges a b = elim (Node-discrete x a) [
  | yes p ↦
      let l = add Node-discrete y (targets Node-discrete edges x) in
      let same : targets Node-discrete (insert Node-discrete x l edges) a ≡ l =
        subst (λ k. targets Node-discrete (insert Node-discrete x l edges) k ≡ l) p
          (targets-insert_self x l edges) in
      let there : targets Node-discrete edges x ≡ targets Node-discrete edges a =
        ap (targets Node-discrete edges) p in
      let m = mem-add Node-discrete y b (targets Node-discrete edges x) in
      (
        λ h.
            ⊎_elim (λ q. inl (sym p, q)) (λ t. inr (subst (Memᴰ b) there t))
              (m.0 (subst (Memᴰ b) same h)),
        λ h.
            subst (Memᴰ b) (sym same)
              (m.1 (⊎_elim (λ q. inl q.1) (λ t. inr (subst (Memᴰ b) (sym there) t)) h)),
      )
  | no n ↦
      let l = add Node-discrete y (targets Node-discrete edges x) in
      let other = targets-insert_ne x a l edges n in
      (
        λ h. inr (subst (Memᴰ b) other h),
        λ h. ⊎_elim (λ q. absurd (n (sym q.0))) (λ t. subst (Memᴰ b) (sym other) t) h,
      )
]

-- From a wait to the record that its event has last.
pub record IsWaitEdge (producers : Dict PairKey Event) (waits : List Event) (a b : Node)
    : Type 0 where
  pub wait : Event
  pub waits_for : Memᴰ wait waits
  pub producer : Event
  pub found : producer_of producers wait ≡ some producer
  pub source : a ≡ wait_node wait.rank wait.stream wait.seq
  pub target : b ≡ record_node wait.rank producer.stream producer.seq

wait_edge_iff :
    (producers : Dict PairKey Event) (w : Event) (edges : Edges Node) (a b : Node)
    → HasEdge (wait_edge (producer_of producers w) w edges) a b
      ↔ (IsWaitEdge producers (w ∷ []) a b ⊎ HasEdge edges a b)
unfolding wait_edge
wait_edge_iff producers w edges a b = elim (Option-cases (producer_of producers w)) [
  | inl absent ↦ rw absent (
    inr,
    ⊎_elim
        (λ i.
          let same : i.wait ≡ w =
            ⊎_elim (λ q. q) (λ t. absurd (Memᴰ.not-nil t)) (Memᴰ.cases_cons i.waits_for) in
          cc (sym absent ∙ ap (producer_of producers) (sym same) ∙ i.found))
        (λ h. h),
  )
  | inr (p, q) ↦
      let edge =
        add_edge_iff (wait_node w.rank w.stream w.seq) (record_node w.rank p.stream p.seq) edges a
          b in
      rw q (
        λ h.
            ⊎_elim
              (λ e. inl (record {
                wait = w;
                waits_for = Memᴰ.head refl;
                producer = p;
                found = q;
                source = e.0;
                target = e.1;
              }))
              inr (edge.0 h),
        λ h. edge.1 (⊎_elim (λ i. inl (ends i p q)) inr h),
      )
]
  where
    ends :
        (i : IsWaitEdge producers (w ∷ []) a b) (p : Event)
        → producer_of producers w ≡ some p
        → (a ≡ wait_node w.rank w.stream w.seq) × (b ≡ record_node w.rank p.stream p.seq)
    ends i p q =
        let same : i.wait ≡ w =
          ⊎_elim (λ q. q) (λ t. absurd (Memᴰ.not-nil t)) (Memᴰ.cases_cons i.waits_for) in
        let one : i.producer ≡ p = cc (sym i.found ∙ ap (producer_of producers) same ∙ q) in
        (
          i.source ∙ ap (λ (e : Event). wait_node e.rank e.stream e.seq) same,
          i.target
              ∙ ap (λ (e : Event). record_node e.rank i.producer.stream i.producer.seq) same
              ∙ ap (λ (e : Event). record_node w.rank e.stream e.seq) one,
        )

-- One more wait.
IsWaitEdge-cons :
    (producers : Dict PairKey Event) (w : Event) (ws : List Event) (a b : Node)
    → IsWaitEdge producers (w ∷ ws) a b
      ↔ (IsWaitEdge producers (w ∷ []) a b ⊎ IsWaitEdge producers ws a b)
IsWaitEdge-cons producers w ws a b = (
  λ i. ⊎_elim (λ q. inl (move i (Memᴰ.head q))) (λ t. inr (move i t)) (Memᴰ.cases_cons i.waits_for),
  ⊎_elim
      (λ i. move i (⊎_elim Memᴰ.head (λ t. absurd (Memᴰ.not-nil t)) (Memᴰ.cases_cons i.waits_for)))
      (λ i. move i (Memᴰ.tail i.waits_for)),
)
  where
    move :
        {xs ys : List Event} (i : IsWaitEdge producers xs a b)
        → Memᴰ i.wait ys
        → IsWaitEdge producers ys a b
    move i m = record {
      wait = i.wait;
      waits_for = m;
      producer = i.producer;
      found = i.found;
      source = i.source;
      target = i.target;
    }

-- The loop over the waits adds an edge from each wait to the last record of its event, if there is one,
-- and no other edge.
pub wait_edges_iff :
    (producers : Dict PairKey Event) (waits : List Event) (edges : Edges Node) (a b : Node)
    → HasEdge (wait_edges producers waits edges) a b
      ↔ (IsWaitEdge producers waits a b ⊎ HasEdge edges a b)
unfolding wait_edges
wait_edges_iff producers [] edges a b =
    (inr, ⊎_elim (λ i. absurd (Memᴰ.not-nil i.waits_for)) (λ h. h))
wait_edges_iff producers (w ∷ ws) edges a b = ground (
  arith,
  wait_edges_iff producers ws (wait_edge (producer_of producers w) w edges) a b,
  wait_edge_iff producers w edges a b,
  IsWaitEdge-cons producers w ws a b,
)
