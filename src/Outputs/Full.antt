-- ===== src/Outputs/Full.antt =====
-- The events of the files, rank by rank: `full`, and the rows and lines that trace.json and events.txt
-- have of them.
pub mod Keyed
pub mod Listing
pub mod Merged
use mathlib.Core.Option
use hang_analyzer.Prelude.{
  ℕ, zero, suc, ◌-◌, ◌==◌, Bool, true, false, Option, none, some, List, [], ◌∷◌, ◌++◌, length,
  if◌then◌else◌, sort_by, Text, codes, decimal, Dict, values, lookup, insert, ℕ_discrete,
}
use hang_analyzer.Prelude.Result.{Result, ok, err, os_error, value_error, struct_error, ◌>>=◌}
use hang_analyzer.Format.{Header, Event}
use hang_analyzer.Analyzer.Select.{Read}
use hang_analyzer.Analyzer.Report.{RankReport}
use hang_analyzer.Outputs.Shown.{f_string, padded_left, padded_right}

-- `{e["seq"]: e for e in events}`, or the update with it.
unfoldable pub by_seq : List Event → Dict ℕ Event → Dict ℕ Event
unfolding insert
by_seq [] d = d
by_seq (e ∷ es) d = by_seq es (insert ℕ_discrete e.seq e d)

-- `full.get(rank, [])`
unfoldable pub events_at : ℕ → Dict ℕ (List Event) → List Event
unfolding lookup
events_at rank full = elim (lookup ℕ_discrete rank full) [ none ↦ [] | some es ↦ es ]

-- The events of a rank, and those of one more file.
unfoldable pub merge_events : List Event → List Event → List Event
unfolding by_seq sort_by
merge_events old events = sort_by (λ (e : Event). e.seq) (values (by_seq events (by_seq old [])))

-- `h["rank"] in report["ranks"] and h["pid"] == report["ranks"][h["rank"]]["pid"]`
unfoldable pub accepts : Dict ℕ RankReport → Header → Bool
unfolding lookup
accepts ranks h = elim (lookup ℕ_discrete h.rank ranks) [ none ↦ false | some d ↦ h.pid == d.pid ]

-- The body of the loop over the paths.
unfoldable pub merge_path :
    Dict ℕ RankReport → Read → Dict ℕ (List Event) → Result (Dict ℕ (List Event))
unfolding accepts merge_events events_at
merge_path ranks (ok (h, events)) full = ok (
    if accepts ranks h
    then insert ℕ_discrete h.rank (merge_events (events_at h.rank full) events) full
    else full)
merge_path ranks (err (os_error m)) full = ok full
merge_path ranks (err (value_error m)) full = ok full
merge_path ranks (err struct_error) full = err struct_error

unfoldable pub merge_paths :
    Dict ℕ RankReport → List Read → Dict ℕ (List Event) → Result (Dict ℕ (List Event))
unfolding merge_path
merge_paths ranks [] full = ok full
merge_paths ranks (r ∷ rs) full = do full' ← merge_path ranks r full; merge_paths ranks rs full'

-- `full.get(rank, d["last_events"])`
unfoldable pub shown_events : Dict ℕ (List Event) → ℕ → RankReport → List Event
unfolding lookup
shown_events full rank d = elim (lookup ℕ_discrete rank full) [
  | none ↦ d.last_events
  | some es ↦ es
]

-- A row of trace.json. Its time is kept in nanoseconds, of which the file has the thousandth part.
pub record TraceEvent : Type 0 where
  pub name : Text
  pub ts_ns : ℕ
  pub pid : ℕ
  pub tid : ℕ
  pub stream : ℕ
  pub correlation_id : ℕ
  pub seq : ℕ

unfoldable pub trace_events : ℕ → List Event → List TraceEvent
trace_events rank [] = []
trace_events rank (e ∷ es) =
    record {
      name = e.type;
      ts_ns = e.timestamp_ns;
      pid = rank;
      tid = e.tid;
      stream = e.stream;
      correlation_id = e.correlation_id;
      seq = e.seq;
    }
    ∷ trace_events rank es

unfoldable pub trace : Dict ℕ (List Event) → Dict ℕ RankReport → List TraceEvent
unfolding shown_events trace_events
trace full [] = []
trace full ((rank, d) ∷ rest) = trace_events rank (shown_events full rank d) ++ trace full rest

-- The time of the first event, from which the lines count.
unfoldable pub first_time : List Event → ℕ
first_time [] = 0
first_time (e ∷ es) = e.timestamp_ns

-- `shown_ms time first` is `{(time-first)/1e6:>10.3f}`, which the formatting of floats gives.
module _ (shown_ms : ℕ → ℕ → Text) where
  unfoldable pub event_line : ℕ → Event → Text
  unfolding padded_right padded_left decimal
  event_line first e = f_string (
      padded_right 9 (decimal e.seq)
      ∷ codes " "
      ∷ shown_ms e.timestamp_ns first
      ∷ codes " "
      ∷ padded_left 12 (decimal e.stream)
      ∷ codes " "
      ∷ padded_right 21 e.type
      ∷ codes " "
      ∷ padded_left 12 (decimal e.correlation_id)
      ∷ codes " "
      ∷ padded_left 12 (decimal e.arg0)
      ∷ codes " "
      ∷ padded_left 12 (decimal e.arg1)
      ∷ [])

  unfoldable pub event_rows : ℕ → List Event → List Text
  unfolding event_line
  event_rows first [] = []
  event_rows first (e ∷ es) = event_line first e ∷ event_rows first es

  unfoldable pub rank_rows : Dict ℕ (List Event) → Dict ℕ RankReport → List Text
  unfolding event_rows shown_events first_time decimal
  rank_rows full [] = []
  rank_rows full ((rank, d) ∷ rest) =
      let events = shown_events full rank d in
      []
      ∷ f_string (
          codes "RANK "
          ∷ decimal rank
          ∷ codes " pid="
          ∷ decimal d.pid
          ∷ codes " events="
          ∷ decimal (length events)
          ∷ [])
      ∷ (event_rows (first_time events) events ++ rank_rows full rest)

  -- The lines of events.txt.
  unfoldable pub event_lines : Dict ℕ (List Event) → Dict ℕ RankReport → List Text
  unfolding rank_rows sort_by
  event_lines full ranks =
      codes "Flight events by rank (time is milliseconds since that rank's first retained event)"
      ∷ codes
          "seq       +ms         stream       type                  corr          arg0          arg1"
      ∷ rank_rows full (sort_by (λ (e : ℕ × RankReport). e.0) ranks)
