-- ===== src/Analyzer/Dependencies.antt =====
-- The dependencies between streams: which wait waits for which record, and the edges between single
-- operations that `find_cycles` is given. A node stands for the text that names the operation,
-- `r{rank}:s{stream}:record:{seq}` or `r{rank}:s{stream}:wait:{seq}`.
pub mod Exact
pub mod Order
pub mod Loop
pub mod Shared
pub mod Producers
use hang_analyzer.Prelude.{
  ℕ, Bool, true, false, Option, none, some, List, [], ◌∷◌, ◌++◌, if◌then◌else◌, codes, Dict, lookup,
  insert, ℕ_discrete,
}
use hang_analyzer.Format.{Event}
use hang_analyzer.Cycles.{Edges, targets, add}
use hang_analyzer.Analyzer.Select.{RankData}
use hang_analyzer.Analyzer.Scan.{PairKey, PairKey-discrete, is_type}

pub data Node : Type 0 where
  record_node : ℕ → ℕ → ℕ → Node
  wait_node : ℕ → ℕ → ℕ → Node

unfoldable pub Node-discrete : Discrete Node
Node-discrete = hlevel ℕ_discrete

-- `edges[a].add(b)` of a `defaultdict(set)`
unfoldable pub add_edge : Node → Node → Edges Node → Edges Node
unfolding targets add insert
add_edge a b edges =
    insert Node-discrete a (add Node-discrete b (targets Node-discrete edges a)) edges

-- The loop over the earlier waits of the record's stream.
unfoldable pub after_waits : ℕ → Event → List Event → Edges Node → Edges Node
unfolding add_edge
after_waits rank e [] edges = edges
after_waits rank e (previous ∷ rest) edges =
    after_waits rank e rest (
      add_edge (record_node rank e.stream e.seq) (wait_node rank previous.stream previous.seq)
        edges)

-- `prior_waits[stream]` of a `defaultdict(list)`
unfoldable pub prior : ℕ → Dict ℕ (List Event) → List Event
unfolding lookup
prior stream waits = elim (lookup ℕ_discrete stream waits) [ none ↦ [] | some l ↦ l ]

-- The loop over the events of a rank.
unfoldable pub order_edges : ℕ → List Event → Dict ℕ (List Event) → Edges Node → Edges Node
unfolding is_type prior insert after_waits
order_edges rank [] prior_waits edges = edges
order_edges rank (e ∷ es) prior_waits edges =
    order_edges rank es
      (if is_type (codes "EVENT_WAIT") e
        then insert ℕ_discrete e.stream (prior e.stream prior_waits ++ e ∷ []) prior_waits
        else prior_waits)
      (if is_type (codes "EVENT_RECORD") e
        then after_waits rank e (prior e.stream prior_waits) edges
        else edges)

unfoldable pub order_all : Dict ℕ RankData → Edges Node → Edges Node
unfolding order_edges
order_all [] edges = edges
order_all ((rank, d) ∷ rest) edges = order_all rest (order_edges rank d.events [] edges)

pub record Dependency : Type 0 where
  pub rank : ℕ
  pub event_id : ℕ
  pub waiting_stream : ℕ
  pub producer_stream : Option ℕ
  pub producer_observed : Bool

-- `event_producers.get((rank, event_id))`
unfoldable pub producer_of : Dict PairKey Event → Event → Option Event
unfolding lookup
producer_of producers wait = lookup PairKey-discrete (wait.rank, wait.correlation_id) producers

unfoldable pub dependency : Dict PairKey Event → Event → Dependency
unfolding producer_of
dependency producers wait = record {
  rank = wait.rank;
  event_id = wait.correlation_id;
  waiting_stream = wait.stream;
  producer_stream = elim (producer_of producers wait) [ none ↦ none | some p ↦ some p.stream ];
  producer_observed = elim (producer_of producers wait) [ none ↦ false | some _ ↦ true ];
}

-- `if producer: edges[a].add(b)`
unfoldable pub wait_edge : Option Event → Event → Edges Node → Edges Node
wait_edge none wait edges = edges
wait_edge (some p) wait edges =
    add_edge (wait_node wait.rank wait.stream wait.seq) (record_node wait.rank p.stream p.seq) edges

-- The loop over `waits`.
unfoldable pub wait_edges : Dict PairKey Event → List Event → Edges Node → Edges Node
unfolding wait_edge producer_of
wait_edges producers [] edges = edges
wait_edges producers (wait ∷ waits) edges =
    wait_edges producers waits (wait_edge (producer_of producers wait) wait edges)
