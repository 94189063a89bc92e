-- ===== src/Analyzer/Dependencies/Loop.antt =====
-- The loop over the events of a rank, and that over the ranks.
use mathlib.Core.List.Memᴰ
use hang_analyzer.Prelude.{
  ℕ, ◌≡◌, ◌↔◌, ◌⊎◌, ⊎_elim, refl, sym, ap, subst, ◌∙◌, inl, inr, true, List, [], ◌∷◌, Dict, lookup,
  Memᴰ, arith,
}
use hang_analyzer.Format.{Event}
use hang_analyzer.Cycles.{Edges}
use hang_analyzer.Analyzer.Select.{RankData}
use hang_analyzer.Analyzer.Dependencies.{
  Node, record_node, wait_node, prior, order_edges, order_all,
}
use hang_analyzer.Analyzer.Dependencies.Exact.{HasEdge}
use hang_analyzer.Analyzer.Dependencies.Order.{
  is_wait, is_record, Before, first, later, IsOrderEdge, IsPendingEdge, IsEdgeTo, IsEdgeFrom,
  edges_with, edges_with_iff, waits_with, mem-prior,
}

-- The cases of an event at the head of the list.
IsPendingEdge-cons :
    (rank : ℕ) (pw : Dict ℕ (List Event)) (e : Event) (es : List Event) (a b : Node)
    → IsPendingEdge rank pw (e ∷ es) a b ↔ (
        ((is_record e ≡ true) × IsEdgeFrom rank e (prior e.stream pw) a b)
        ⊎ IsPendingEdge rank pw es a b)
IsPendingEdge-cons rank pw e es a b = (
  λ i.
      ⊎_elim
        (λ q. inl (
          ap is_record (sym q) ∙ i.records,
          record {
            earlier = i.earlier;
            pending = subst (λ (x : Event). Memᴰ i.earlier (prior x.stream pw)) q i.pending;
            source = i.source ∙ ap (λ (x : Event). record_node rank x.stream x.seq) q;
            target = i.target;
          },
        ))
        (λ t. inr (record {
          earlier = i.earlier;
          after = i.after;
          pending = i.pending;
          comes = t;
          records = i.records;
          source = i.source;
          target = i.target;
        }))
        (Memᴰ.cases_cons i.comes),
  ⊎_elim
      (λ f. record {
        earlier = f.1.earlier;
        after = e;
        pending = f.1.pending;
        comes = Memᴰ.head refl;
        records = f.0;
        source = f.1.source;
        target = f.1.target;
      })
      (λ i. record {
        earlier = i.earlier;
        after = i.after;
        pending = i.pending;
        comes = Memᴰ.tail i.comes;
        records = i.records;
        source = i.source;
        target = i.target;
      }),
)

IsPendingEdge-waits_with :
    (rank : ℕ) (pw : Dict ℕ (List Event)) (e : Event) (es : List Event) (a b : Node)
    → IsPendingEdge rank (waits_with e pw) es a b
      ↔ (IsPendingEdge rank pw es a b ⊎ IsEdgeTo rank e es a b)
IsPendingEdge-waits_with rank pw e es a b = (
  λ i.
      ⊎_elim
        (λ m. inl (record {
          earlier = i.earlier;
          after = i.after;
          pending = m;
          comes = i.comes;
          records = i.records;
          source = i.source;
          target = i.target;
        }))
        (λ q. inr (record {
          after = i.after;
          comes = i.comes;
          waits = q.0;
          records = i.records;
          same = q.1;
          source = i.source;
          target = i.target ∙ ap (λ (x : Event). wait_node rank x.stream x.seq) q.2;
        }))
        ((mem-prior i.earlier e i.after.stream pw).0 i.pending),
  ⊎_elim
      (λ i. record {
        earlier = i.earlier;
        after = i.after;
        pending = (mem-prior i.earlier e i.after.stream pw).1 (inl i.pending);
        comes = i.comes;
        records = i.records;
        source = i.source;
        target = i.target;
      })
      (λ i. record {
        earlier = e;
        after = i.after;
        pending = (mem-prior e e i.after.stream pw).1 (inr (i.waits, i.same, refl));
        comes = i.comes;
        records = i.records;
        source = i.source;
        target = i.target;
      }),
)

Before-cases :
    {w r e : Event} {es : List Event} → Before w r (e ∷ es) → ((w ≡ e) × Memᴰ r es) ⊎ Before w r es
Before-cases (first m) = inl (refl, m)
Before-cases (later _ b) = inr b

IsOrderEdge-cons :
    (rank : ℕ) (e : Event) (es : List Event) (a b : Node)
    → IsOrderEdge rank (e ∷ es) a b ↔ (IsOrderEdge rank es a b ⊎ IsEdgeTo rank e es a b)
IsOrderEdge-cons rank e es a b = (
  λ i.
      ⊎_elim
        (λ q. inr (record {
          after = i.after;
          comes = q.1;
          waits = ap is_wait (sym q.0) ∙ i.waits;
          records = i.records;
          same = ap (λ (x : Event). x.stream) (sym q.0) ∙ i.same;
          source = i.source;
          target = i.target ∙ ap (λ (x : Event). wait_node rank x.stream x.seq) q.0;
        }))
        (λ t. inl (record {
          earlier = i.earlier;
          after = i.after;
          before = t;
          waits = i.waits;
          records = i.records;
          same = i.same;
          source = i.source;
          target = i.target;
        }))
        (Before-cases i.before),
  ⊎_elim
      (λ i. record {
        earlier = i.earlier;
        after = i.after;
        before = later e i.before;
        waits = i.waits;
        records = i.records;
        same = i.same;
        source = i.source;
        target = i.target;
      })
      (λ i. record {
        earlier = e;
        after = i.after;
        before = first i.comes;
        waits = i.waits;
        records = i.records;
        same = i.same;
        source = i.source;
        target = i.target;
      }),
)

Before-nil : {w r : Event} {A : Type 0} → Before w r [] → A
Before-nil b = elim b [ ]

order_edges_iff :
    (rank : ℕ) (es : List Event) (pw : Dict ℕ (List Event)) (edges : Edges Node) (a b : Node)
    → HasEdge (order_edges rank es pw edges) a b
      ↔ ((IsOrderEdge rank es a b ⊎ IsPendingEdge rank pw es a b) ⊎ HasEdge edges a b)
unfolding order_edges edges_with waits_with
order_edges_iff rank [] pw edges a b =
    (inr, ⊎_elim (⊎_elim (λ i. Before-nil i.before) (λ i. absurd (Memᴰ.not-nil i.comes))) (λ h. h))
order_edges_iff rank (e ∷ es) pw edges a b = ground (
  arith,
  order_edges_iff rank es (waits_with e pw) (edges_with rank e pw edges) a b,
  edges_with_iff rank e pw edges a b,
  IsPendingEdge-cons rank pw e es a b,
  IsPendingEdge-waits_with rank pw e es a b,
  IsOrderEdge-cons rank e es a b,
)

-- The loop over the events of a rank gives an edge from each record to each wait that stands before it on
-- its stream, and no other edge.
pub order_edges-fresh :
    (rank : ℕ) (es : List Event) (edges : Edges Node) (a b : Node)
    → HasEdge (order_edges rank es [] edges) a b ↔ (IsOrderEdge rank es a b ⊎ HasEdge edges a b)
unfolding prior lookup
order_edges-fresh rank es edges a b =
    let i = order_edges_iff rank es [] edges a b in
    (
      λ h. ⊎_elim (⊎_elim inl (λ p. absurd (Memᴰ.not-nil p.pending))) inr (i.0 h),
      λ h. i.1 (⊎_elim (λ o. inl (inl o)) inr h),
    )

-- Such an edge for one of the ranks.
pub record IsRankEdge (ranks : Dict ℕ RankData) (a b : Node) : Type 0 where
  pub rank : ℕ
  pub data_of : RankData
  pub selected : Memᴰ (rank, data_of) ranks
  pub edge : IsOrderEdge rank data_of.events a b

IsRankEdge-cons :
    (rank : ℕ) (d : RankData) (ranks : Dict ℕ RankData) (a b : Node)
    → IsRankEdge ((rank, d) ∷ ranks) a b ↔ (IsOrderEdge rank d.events a b ⊎ IsRankEdge ranks a b)
IsRankEdge-cons rank d ranks a b = (
  λ i.
      ⊎_elim (λ q. inl (subst (λ (x : ℕ × RankData). IsOrderEdge x.0 x.1.events a b) q i.edge))
        (λ t. inr (record { rank = i.rank; data_of = i.data_of; selected = t; edge = i.edge }))
        (Memᴰ.cases_cons i.selected),
  ⊎_elim (λ o. record { rank = rank; data_of = d; selected = Memᴰ.head refl; edge = o })
      (λ i. record {
        rank = i.rank;
        data_of = i.data_of;
        selected = Memᴰ.tail i.selected;
        edge = i.edge;
      }),
)

pub order_all_iff :
    (ranks : Dict ℕ RankData) (edges : Edges Node) (a b : Node)
    → HasEdge (order_all ranks edges) a b ↔ (IsRankEdge ranks a b ⊎ HasEdge edges a b)
unfolding order_all
order_all_iff [] edges a b = (inr, ⊎_elim (λ i. absurd (Memᴰ.not-nil i.selected)) (λ h. h))
order_all_iff ((rank, d) ∷ ranks) edges a b = ground (
  arith,
  order_all_iff ranks (order_edges rank d.events [] edges) a b,
  order_edges-fresh rank d.events edges a b,
  IsRankEdge-cons rank d ranks a b,
)
