-- ===== src/Tests/Graph.antt =====
-- The edges of a handoff between two streams.
use hang_analyzer.Prelude.{
  sort_by, contains, ℕ, ◌≡◌, ◌↔◌, ◌⊎◌, refl, [], ◌∷◌, codes, Dict, text_eq, insert, lookup,
  ℕ_discrete,
}
use hang_analyzer.Cycles.{targets, add}
use hang_analyzer.Analyzer.Select.{RankData}
use hang_analyzer.Analyzer.Scan.{PairKey-discrete, scan_shared, is_type}
use hang_analyzer.Analyzer.Ranks.{scan_ranks}
use hang_analyzer.Analyzer.Dependencies.{
  record_node, wait_node, Node-discrete, order_all, order_edges, after_waits, add_edge, prior,
  wait_edges, wait_edge, producer_of,
}
use hang_analyzer.Analyzer.Dependencies.Exact.{HasEdge}
use hang_analyzer.Analyzer.Dependencies.Loop.{IsRankEdge}
use hang_analyzer.Analyzer.Report.{dependency_edges}
use hang_analyzer.Analyzer.Report.Graph.{IsLink, dependency_edges_iff}
use hang_analyzer.Tests.Analyzer.{header, event}

abbrev ranks : Dict ℕ RankData
ranks =
    (
      0,
      record {
        header = header 0 3;
        events =
            event (codes "EVENT_RECORD") 1 1 0 7 0 0
            ∷ event (codes "EVENT_WAIT") 2 2 0 7 0 0
            ∷ event (codes "EVENT_RECORD") 3 2 0 8 0 0
            ∷ [];
      },
    )
    ∷ []

dependency_edges_iff_example :
    HasEdge (dependency_edges ranks) (wait_node 0 2 2) (record_node 0 1 1) ↔ (
      IsLink ranks (wait_node 0 2 2) (record_node 0 1 1)
      ⊎ IsRankEdge ranks (wait_node 0 2 2) (record_node 0 1 1))
dependency_edges_iff_example =
    dependency_edges_iff ranks (tt, tt) (wait_node 0 2 2) (record_node 0 1 1)

targets-wait :
    targets Node-discrete (dependency_edges ranks) (wait_node 0 2 2) ≡ record_node 0 1 1 ∷ []
unfolding targets order_all order_edges after_waits add_edge prior wait_edges wait_edge producer_of
    scan_ranks scan_shared is_type text_eq insert lookup add PairKey-discrete Node-discrete
    ℕ_discrete sort_by contains
targets-wait = refl
