-- ===== src/Analyzer/Report.antt =====
-- `analyze`: the report on each rank, the collectives, the dependencies and the candidate cycles.
-- `none` stands for an exception that leaves `analyze`. The list of limitations, which is a constant
-- text, stands in Outputs/Lines.
pub mod Total
pub mod Graph
pub mod Coverage
use mathlib.Core.List.{get_last?}
use mathlib.Core.Option
use hang_analyzer.Prelude.{
  ℕ, ◌-◌, ◌==◌, ltb, Bool, true, false, not, ◌&&◌, ◌||◌, Option, none, some, List, [], ◌∷◌, ◌++◌,
  map, length, drop, passing, if◌then◌else◌, sort_by, Text, codes, Dict, values, ◌>>=◌,
}
use hang_analyzer.Prelude.Result.{Result, ok, err}
use hang_analyzer.Format.{Header, Event}
use hang_analyzer.Cycles.{Edges, find_cycles}
use hang_analyzer.Analyzer.Select.{Read, RankData, Selection, select}
use hang_analyzer.Analyzer.Scan.{
  RankScan, Shared, fresh, scan_events, scan_events_shared, is_type, has_flag, checkpoint_submitted,
}
use hang_analyzer.Analyzer.Ranks.{scan_ranks, sorted_ranks, shared_of}
use hang_analyzer.Analyzer.Progress.{Progress, device_progress, stale_confirmations}
use hang_analyzer.Analyzer.Dependencies.{
  Node, Node-discrete, Dependency, dependency, order_all, wait_edges,
}
use hang_analyzer.Analyzer.Collectives.{Collective, collectives, sorted_groups}

pub record RankReport : Type 0 where
  pub pid : ℕ
  pub last_sequence : ℕ
  pub last_event : Option Event
  pub last_host_event : Option Event
  pub last_device_confirmation : Option Event
  pub outstanding_host_scopes : List Event
  pub last_events : List Event
  pub ring_wrap_or_loss : Bool
  pub device_checkpoint_progress : Dict ℕ Progress
  pub checkpoint_warnings : List Event
  pub stale_or_unmatched_confirmations : List Event
  pub checkpoint_coverage_warning : Bool

-- An event that the recorder's own polling emits is no host event.
unfoldable pub is_host_event : Event → Bool
unfolding is_type has_flag
is_host_event e = not (
    is_type (codes "DEVICE_CONFIRMED") e
    || (is_type (codes "CHECKPOINT") e && not (has_flag checkpoint_submitted e)))

unfoldable pub any_device_sync : List Event → Bool
unfolding is_type
any_device_sync [] = false
any_device_sync (e ∷ es) = is_type (codes "DEVICE_SYNC_BEGIN") e || any_device_sync es

unfoldable pub all_confirmed : List Progress → Bool
all_confirmed [] = true
all_confirmed (p ∷ ps) = p.unconfirmed_count == 0 && all_confirmed ps

-- `bool(open_device_sync and progress and all(...))`
unfoldable pub coverage_warning : List Event → List Progress → Bool
unfolding any_device_sync all_confirmed
coverage_warning scopes [] = false
coverage_warning scopes (p ∷ ps) = any_device_sync scopes && all_confirmed (p ∷ ps)

-- `ev[-20:]`; the difference stops at 0, as the slice does.
abbrev pub last_twenty : List Event → List Event
last_twenty ev = drop (length ev - 20) ev

-- The dict for one rank.
unfoldable pub report_of : RankData → RankScan → Dict ℕ Progress → RankReport
unfolding stale_confirmations is_host_event coverage_warning passing
report_of d s progress =
    let scopes = values s.pending in
    record {
      pid = d.header.pid;
      last_sequence = elim (get_last? d.events) [ none ↦ 0 | some e ↦ e.seq ];
      last_event = get_last? d.events;
      last_host_event = get_last? (passing is_host_event d.events);
      last_device_confirmation = get_last? s.confirmed;
      outstanding_host_scopes = scopes;
      last_events = last_twenty d.events;
      ring_wrap_or_loss = ltb (length d.events) d.header.write_seq;
      device_checkpoint_progress = progress;
      checkpoint_warnings = s.checkpoint_warnings;
      stale_or_unmatched_confirmations = stale_confirmations s.confirmed s.checkpoint_submitted;
      checkpoint_coverage_warning = coverage_warning scopes (values progress);
    }

unfoldable pub rank_report : RankData → Option RankReport
unfolding scan_events device_progress report_of
rank_report d = do
  let s = scan_events d.events fresh
  progress ← device_progress s.confirmed s.checkpoint_submitted s.not_ready_observations
  some (report_of d s progress)

-- The loop over `sorted(ranks.items())`.
unfoldable pub rank_reports : Dict ℕ RankData → Option (Dict ℕ RankReport)
rank_reports [] = some []
rank_reports ((rank, d) ∷ rest) = do
  r ← rank_report d
  rs ← rank_reports rest
  some ((rank, r) ∷ rs)

pub record Report : Type 0 where
  pub ranks : Dict ℕ RankReport
  pub collectives : List Collective
  pub dependencies : List Dependency
  pub stream_cycles_candidate : List (List Node)
  pub errors : List Text

-- `edges`, as `find_cycles` is given it.
abbrev pub dependency_edges : Dict ℕ RankData → Edges Node
dependency_edges ranks =
    let shared = shared_of ranks in
    wait_edges shared.event_producers shared.waits (order_all ranks [])

-- The dict that `analyze` returns.
unfoldable pub report_with :
    Option (List ℕ) → Option ℕ → Selection → Dict ℕ RankReport → List (List Node) → Report
unfolding scan_ranks dependency collectives sorted_groups
report_with expected communicator s reports cycles =
    let shared = shared_of s.ranks in
    record {
      ranks = reports;
      collectives = collectives expected communicator s.ranks (sorted_groups shared.groups);
      dependencies = map (dependency shared.event_producers) shared.waits;
      stream_cycles_candidate = cycles;
      errors = s.errors;
    }

-- What follows once the files have been read.
unfoldable pub analyze_selection : Option (List ℕ) → Option ℕ → Selection → Option Report
unfolding rank_reports order_all wait_edges find_cycles report_with
analyze_selection expected communicator s = do
  reports ← rank_reports (sorted_ranks s.ranks)
  cycles ← find_cycles Node-discrete (dependency_edges s.ranks)
  some (report_with expected communicator s reports cycles)

unfoldable pub analyze : List Read → Option (List ℕ) → Option ℕ → Option Report
unfolding select analyze_selection
analyze reads expected communicator = elim (select reads) [
  | ok s ↦ analyze_selection expected communicator s
  | err _ ↦ none
]
