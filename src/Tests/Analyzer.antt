-- ===== src/Tests/Analyzer.antt =====
-- The report on two ranks: one of them opens a collective that the other has not entered, and its
-- stream has two checkpoints, the first of which is confirmed.
use mathlib.Core.Option
use hang_analyzer.Prelude.{
  ℕ, ◌≡◌, ◌≢◌, ◌↔◌, refl, true, Option, none, some, List, [], ◌∷◌, ◌++◌, All, Memᴰ, lookup, insert,
  sort_by, text_eq, ℕ_discrete, Text, codes, ◌*◌,
}
use hang_analyzer.Prelude.Result.{ok, err, os_error}
use hang_analyzer.Format.{Header, Event}
use hang_analyzer.Cycles.Walks.{IsCycle}
use hang_analyzer.Cycles.Correct.{Acyclic}
use hang_analyzer.Analyzer.Select.{Read, RankData, Selection, select}
use hang_analyzer.Analyzer.Select.Latest.{HasAtLeast, IsLatest, select-IsLatest}
use hang_analyzer.Analyzer.Scan.{
  ScopeKey-discrete, opened_key, group_of, scan_events, fresh, scan_rank, append_if, scan_shared,
  enter_group, is_type, PairKey-discrete,
}
use hang_analyzer.Analyzer.Scan.Scopes.{Opens, Closes, pairs_close, IsLastOpen, pending_iff}
use hang_analyzer.Analyzer.Progress.{
  Progress, progress_upto, CheckpointKey-discrete, checkpoint_key, exact_confirmations,
  is_confirmed, stream_progress, stale_confirmations,
}
use hang_analyzer.Analyzer.Progress.Streams.{Describes, stream_progress-Describes}
use hang_analyzer.Analyzer.Progress.Exact.{IsConfirmedBy, is_confirmed_iff, stale_confirmations_iff}
use hang_analyzer.Analyzer.Dependencies.{Node, record_node, wait_node, Node-discrete}
use hang_analyzer.Analyzer.Ranks.{shared_of, scan_ranks}
use hang_analyzer.Analyzer.Collectives.{missing}
use hang_analyzer.Analyzer.Collectives.Missing.{HasEntered, missing_iff}
use hang_analyzer.Analyzer.Report.{Report, dependency_edges, analyze, rank_report}
use hang_analyzer.Analyzer.Report.Total.{analyze_returns}

abbrev pub header : ℕ → ℕ → Header
header rank writes = record {
  path = codes "f";
  capacity = 16;
  pid = 77;
  rank = rank;
  device = 0;
  write_seq = writes;
  last_ns = 900;
  started_wall_ns = 5;
  started_mono_ns = 6;
}

-- An event of rank 0 on stream `stream`.
abbrev pub event : Text → ℕ → ℕ → ℕ → ℕ → ℕ → ℕ → Event
event type seq stream flags corr a0 a1 = record {
  timestamp_ns = 100 * seq;
  seq = seq;
  pid = 77;
  tid = 78;
  device = 0;
  rank = 0;
  stream = stream;
  type = type;
  flags = flags;
  correlation_id = corr;
  arg0 = a0;
  arg1 = a1;
}

abbrev pub begin : Event
begin = event (codes "HCCL_BEGIN") 1 9 0 30 5 2

abbrev end : Event
end = event (codes "HCCL_END") 2 9 0 30 5 2

abbrev first : Event
first = event (codes "CHECKPOINT") 3 9 1 40 1 8

abbrev second : Event
second = event (codes "CHECKPOINT") 4 9 1 41 2 8

abbrev confirmation : Event
confirmation = event (codes "DEVICE_CONFIRMED") 5 9 0 40 1 8

abbrev pub events : List Event
events = begin ∷ first ∷ second ∷ confirmation ∷ []

abbrev pub reads : List Read
reads =
    ok (header 0 3, begin ∷ [])
    ∷ err (os_error (codes "gone"))
    ∷ ok (header 0 5, events)
    ∷ ok (header 1 0, [])
    ∷ []

abbrev ranks : List (ℕ × RankData)
ranks =
    (0, record { header = header 0 5; events = events })
    ∷ (1, record { header = header 1 0; events = [] })
    ∷ []

select-reads : select reads ≡ ok (record { ranks = ranks; errors = codes "gone" ∷ [] })
unfolding select ℕ_discrete insert lookup
select-reads = refl

select-IsLatest_example :
    (t : Selection) × (select reads ≡ ok t)
    × ((r : ℕ) (d : RankData) → lookup ℕ_discrete r t.ranks ≡ some d → IsLatest reads r d)
    × ((h : Header) (ev : List Event) → Memᴰ (ok (h, ev)) reads → HasAtLeast t h.rank h.write_seq)
select-IsLatest_example = select-IsLatest reads (tt, (tt, (tt, (tt, tt))))

pending_iff_example :
    (lookup ScopeKey-discrete (opened_key begin) (scan_events events fresh).pending ≡ some begin)
    ↔ IsLastOpen (opened_key begin) begin events
pending_iff_example = pending_iff events (opened_key begin) begin

pairs_close_example :
    Opens
      (opened_key (event (codes "KV_BEGIN") 1 9 0 30 5 2))
      (event (codes "KV_BEGIN") 1 9 0 30 5 2)
    × Closes
        (opened_key (event (codes "KV_BEGIN") 1 9 0 30 5 2))
        (event (codes "KV_END") 2 9 0 30 5 2)
pairs_close_example =
    pairs_close (codes "KV_BEGIN") (codes "KV_END") (event (codes "KV_BEGIN") 1 9 0 30 5 2)
      (event (codes "KV_END") 2 9 0 30 5 2)
      (Memᴰ.tail (Memᴰ.tail (Memᴰ.tail (Memᴰ.tail (Memᴰ.head refl))))) refl refl refl refl

stream_progress-Describes_example :
    (r : Progress) × (stream_progress
        (exact_confirmations (confirmation ∷ []))
        []
        (first ∷ second ∷ [])
      ≡ some r)
    × Describes (exact_confirmations (confirmation ∷ [])) [] (first ∷ second ∷ []) r
stream_progress-Describes_example =
    stream_progress-Describes (exact_confirmations (confirmation ∷ [])) [] (first ∷ second ∷ [])
      (λ q. cc)

completed-events :
    Option.map
      (λ (r : Progress). r.completed_seq)
      (stream_progress (exact_confirmations (confirmation ∷ [])) [] (first ∷ second ∷ []))
    ≡ some 1
unfolding exact_confirmations stream_progress progress_upto CheckpointKey-discrete ℕ_discrete
completed-events = refl

is_confirmed_iff_example :
    (is_confirmed (exact_confirmations (confirmation ∷ [])) first ≡ true)
    ↔ IsConfirmedBy (confirmation ∷ []) (checkpoint_key first)
is_confirmed_iff_example = is_confirmed_iff (confirmation ∷ []) first

stale_confirmations_iff_example :
    Memᴰ confirmation (stale_confirmations (confirmation ∷ []) (second ∷ [])) ↔ (
      Memᴰ confirmation (confirmation ∷ [])
      × (confirmation.arg1 ≢ 0)
      × ((s : Event) → Memᴰ s (second ∷ []) → checkpoint_key s ≢ checkpoint_key confirmation))
stale_confirmations_iff_example =
    stale_confirmations_iff (confirmation ∷ []) (second ∷ []) confirmation

missing_iff_example :
    Memᴰ {A = ℕ} 1 (missing (some (0 ∷ 1 ∷ [])) (group_of (5, 30) (shared_of ranks).groups))
    ↔ (Memᴰ {A = ℕ} 1 (0 ∷ 1 ∷ []) × ¬ HasEntered (5, 30) ranks 1)
missing_iff_example = missing_iff (5, 30) 1 (0 ∷ 1 ∷ []) ranks

missing-ranks : missing (some (0 ∷ 1 ∷ [])) (group_of (5, 30) (shared_of ranks).groups) ≡ 1 ∷ []
unfolding missing group_of scan_ranks scan_shared is_type enter_group text_eq sort_by lookup insert
    PairKey-discrete ℕ_discrete
missing-ranks = refl

analyze_returns_example :
    (s : Selection) × (r : Report) × (select reads ≡ ok s)
    × (analyze reads (some (0 ∷ 1 ∷ [])) (some 5) ≡ some r)
    × (r.errors ≡ s.errors)
    × All (IsCycle Node-discrete (dependency_edges s.ranks)) r.stream_cycles_candidate
    × ((r.stream_cycles_candidate ≡ []) ↔ Acyclic Node-discrete (dependency_edges s.ranks))
analyze_returns_example =
    analyze_returns reads (some (0 ∷ 1 ∷ [])) (some 5) (tt, (tt, (tt, (tt, tt))))

-- Stream 1 records event 7, stream 2 waits for it and records event 8, stream 1 waits for that.
abbrev handoff : List Event
handoff =
    event (codes "EVENT_RECORD") 1 1 0 7 0 0
    ∷ event (codes "EVENT_WAIT") 2 2 0 7 0 0
    ∷ event (codes "EVENT_RECORD") 3 2 0 8 0 0
    ∷ event (codes "EVENT_WAIT") 4 1 0 8 0 0
    ∷ []

abbrev cycles_of : List Event → Option (List (List Node))
cycles_of es =
    Option.map (λ (r : Report). r.stream_cycles_candidate)
      (analyze (ok (header 0 5, es) ∷ []) none none)

cycles_of-handoff : cycles_of handoff ≡ some []
unfolding analyze rank_report scan_rank append_if scan_shared text_eq PairKey-discrete Node-discrete
    ℕ_discrete
cycles_of-handoff = refl

-- The same handoff, after which stream 1 records event 7 again.
cycles_of-handoff_reused :
    cycles_of (handoff ++ event (codes "EVENT_RECORD") 5 1 0 7 0 0 ∷ [])
    ≡ some (
        (record_node 0 2 3
          ∷ wait_node 0 2 2
          ∷ record_node 0 1 5
          ∷ wait_node 0 1 4
          ∷ record_node 0 2 3
          ∷ [])
        ∷ [])
unfolding analyze rank_report scan_rank append_if scan_shared text_eq PairKey-discrete Node-discrete
    ℕ_discrete
cycles_of-handoff_reused = refl
