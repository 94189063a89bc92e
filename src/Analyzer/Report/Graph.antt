-- ===== src/Analyzer/Report/Graph.antt =====
-- The graph in which `analyze` looks for cycles.
use mathlib.Core.List.Memᴰ
use hang_analyzer.Prelude.{◌≡◌, ◌↔◌, ◌⊎◌, ⊎_elim, inl, inr, ℕ, [], Dict, HasDistinctKeys}
use hang_analyzer.Format.{Event}
use hang_analyzer.Cycles.{targets}
use hang_analyzer.Analyzer.Select.{RankData}
use hang_analyzer.Analyzer.Ranks.{shared_of}
use hang_analyzer.Analyzer.Dependencies.{Node, record_node, wait_node, producer_of, order_all}
use hang_analyzer.Analyzer.Dependencies.Exact.{HasEdge, IsWaitEdge, wait_edges_iff}
use hang_analyzer.Analyzer.Dependencies.Loop.{IsRankEdge, order_all_iff}
use hang_analyzer.Analyzer.Dependencies.Shared.{IsWaitOf, waits_iff}
use hang_analyzer.Analyzer.Dependencies.Producers.{IsProducer, producers_iff}
use hang_analyzer.Analyzer.Report.{dependency_edges}

-- From a wait of one of the ranks to the record that its event has last on that rank.
pub record IsLink (ranks : Dict ℕ RankData) (a b : Node) : Type 0 where
  pub wait : Event
  pub waits : IsWaitOf ranks wait
  pub producer : Event
  pub last : IsProducer ranks wait.rank wait.correlation_id producer
  pub source : a ≡ wait_node wait.rank wait.stream wait.seq
  pub target : b ≡ record_node wait.rank producer.stream producer.seq

module _ (ranks : Dict ℕ RankData) (distinct : HasDistinctKeys (λ (e : ℕ × RankData). e.0) ranks)
    (a b : Node) where
  IsWaitEdge-IsLink :
      IsWaitEdge (shared_of ranks).event_producers (shared_of ranks).waits a b ↔ IsLink ranks a b
  unfolding producer_of
  IsWaitEdge-IsLink = (
    λ i. record {
      wait = i.wait;
      waits = (waits_iff ranks i.wait).0 i.waits_for;
      producer = i.producer;
      last = (producers_iff i.wait.rank i.wait.correlation_id ranks i.producer distinct).0 i.found;
      source = i.source;
      target = i.target;
    },
    λ i. record {
      wait = i.wait;
      waits_for = (waits_iff ranks i.wait).1 i.waits;
      producer = i.producer;
      found = (producers_iff i.wait.rank i.wait.correlation_id ranks i.producer distinct).1 i.last;
      source = i.source;
      target = i.target;
    },
  )

-- If no two files are of one rank, the graph has exactly these edges: from each wait among the events of
-- the ranks to the last record of its event on its rank, if there is one, wherever that record
-- stands; and on each rank from each record to each wait before it on the same stream.
pub dependency_edges_iff :
    (ranks : Dict ℕ RankData)
    → HasDistinctKeys (λ (e : ℕ × RankData). e.0) ranks
    → (a b : Node)
    → HasEdge (dependency_edges ranks) a b ↔ (IsLink ranks a b ⊎ IsRankEdge ranks a b)
unfolding targets
dependency_edges_iff ranks distinct a b =
    let shared = shared_of ranks in
    let w = wait_edges_iff shared.event_producers shared.waits (order_all ranks []) a b in
    let o = order_all_iff ranks [] a b in
    let link = IsWaitEdge-IsLink ranks distinct a b in
    (
      λ h.
          ⊎_elim (λ i. inl (link.0 i))
            (λ e. inr (⊎_elim (λ i. i) (λ m. absurd (Memᴰ.not-nil m)) (o.0 e))) (w.0 h),
      λ h. w.1 (⊎_elim (λ i. inl (link.1 i)) (λ i. inr (o.1 (inl i))) h),
    )
