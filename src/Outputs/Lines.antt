-- ===== src/Outputs/Lines.antt =====
-- The lines of report.txt. `none` stands for the `TypeError` of a subscript of `None`.
pub mod Total
pub mod Checkpoints
pub mod Evidence
use mathlib.Core.Option
use hang_analyzer.Prelude.{
  ℕ, Bool, true, false, Option, none, some, List, [], ◌∷◌, ◌++◌, length, if◌then◌else◌, sort_by,
  Text, codes, decimal, Dict, lookup, ℕ_discrete, ◌>>=◌,
}
use hang_analyzer.Format.{Event}
use hang_analyzer.Analyzer.Progress.{Progress}
use hang_analyzer.Analyzer.Dependencies.{Node, Dependency}
use hang_analyzer.Analyzer.Collectives.{Collective}
use hang_analyzer.Analyzer.Report.{RankReport, Report}
use hang_analyzer.Outputs.Shown.{f_string, show_bool, show_option, show_list, join, show_nodes}
use hang_analyzer.Outputs.Lines.Checkpoints.{progress_lines}
use hang_analyzer.Outputs.Lines.Evidence.{evidence_lines}

unfoldable pub scope_lines : List Event → List Text
unfolding decimal
scope_lines [] = []
scope_lines (e ∷ es) =
    f_string (
      codes "  open "
      ∷ e.type
      ∷ codes " corr="
      ∷ decimal e.correlation_id
      ∷ codes " stream="
      ∷ decimal e.stream
      ∷ codes " seq="
      ∷ decimal e.seq
      ∷ [])
    ∷ scope_lines es

unfoldable pub confirmation_line : Option Event → Text
unfolding decimal
confirmation_line none = codes "  last device confirmation: none observed"
confirmation_line (some e) = f_string (
    codes "  last device confirmation: seq="
    ∷ decimal e.seq
    ∷ codes " corr="
    ∷ decimal e.correlation_id
    ∷ [])

-- `last['type'] if last else 'none'` and `last['correlation_id'] if last else '-'`
unfoldable pub last_type : Option Event → Text
last_type none = codes "none"
last_type (some e) = e.type

unfoldable pub last_corr : Option Event → Text
unfolding decimal
last_corr none = codes "-"
last_corr (some e) = decimal e.correlation_id

-- HOST PROGRESS
unfoldable pub host_lines : Dict ℕ RankReport → List Text
unfolding decimal scope_lines confirmation_line last_type last_corr
host_lines [] = []
host_lines ((rank, d) ∷ rest) =
    f_string (
      codes "rank "
      ∷ decimal rank
      ∷ codes ": seq="
      ∷ decimal d.last_sequence
      ∷ codes " pid="
      ∷ decimal d.pid
      ∷ codes " last_host="
      ∷ last_type d.last_host_event
      ∷ codes " corr="
      ∷ last_corr d.last_host_event
      ∷ [])
    ∷ (scope_lines d.outstanding_host_scopes
        ++ confirmation_line d.last_device_confirmation ∷ host_lines rest)

-- COLLECTIVES
unfoldable pub collective_lines : List Collective → List Text
unfolding decimal show_list show_bool
collective_lines [] = []
collective_lines (c ∷ cs) =
    f_string (
      codes "comm="
      ∷ decimal c.communicator_id
      ∷ codes " op="
      ∷ decimal c.operation_id
      ∷ codes " entered="
      ∷ show_list c.entered
      ∷ codes " end="
      ∷ show_list c.end_observed
      ∷ codes " missing_expected="
      ∷ show_list c.missing_expected
      ∷ codes " types="
      ∷ show_list c.types
      ∷ codes " type_mismatch="
      ∷ show_bool c.type_mismatch
      ∷ [])
    ∷ collective_lines cs

-- EVENT DEPENDENCIES
unfoldable pub dependency_lines : List Dependency → List Text
unfolding decimal show_option
dependency_lines [] = []
dependency_lines (d ∷ ds) =
    f_string (
      codes "rank "
      ∷ decimal d.rank
      ∷ codes " stream "
      ∷ decimal d.waiting_stream
      ∷ codes " waits event "
      ∷ decimal d.event_id
      ∷ codes " producer_stream="
      ∷ show_option d.producer_stream
      ∷ [])
    ∷ dependency_lines ds

unfoldable pub cycle_lines : List (List Node) → List Text
unfolding join show_nodes
cycle_lines [] = []
cycle_lines (c ∷ cs) =
    (codes "candidate cycle: " ++ join (codes " -> ") (show_nodes c)) ∷ cycle_lines cs

-- The list of limitations of a report.
abbrev pub limitations : List Text
limitations =
    codes
      "All events are host observations unless DEVICE_CONFIRMED is explicitly emitted after a verified device completion."
    ∷ codes
        "A stream dependency cycle is a candidate only; EventRecord placement and device completion require validation."
    ∷ codes
        "A missing collective requires explicit expected ranks and a shared communicator/operation id."
    ∷ []

-- `lines`, which report.txt has.
unfoldable pub report_lines : Report → Option (List Text)
unfolding host_lines collective_lines progress_lines dependency_lines cycle_lines evidence_lines
    sort_by
report_lines r = do
  let ranks = sort_by (λ (e : ℕ × RankReport). e.0) r.ranks
  progress ← progress_lines ranks
  some (
      codes "Ascend Hang Flight Report"
      ∷ []
      ∷ codes "HOST PROGRESS"
      ∷ (host_lines ranks
          ++ []
            ∷ codes "COLLECTIVES (end means Host API returned, not NPU completion)"
            ∷ (collective_lines r.collectives
                ++ []
                  ∷ codes "DEVICE CHECKPOINT PROGRESS"
                  ∷ (progress
                      ++ []
                        ∷ codes "EVENT DEPENDENCIES"
                        ∷ (dependency_lines r.dependencies
                            ++ (cycle_lines r.stream_cycles_candidate
                                ++ []
                                  ∷ codes "BLOCKING EVIDENCE"
                                  ∷ (evidence_lines r.ranks r.collectives
                                      ++ [] ∷ codes "LIMITATIONS" ∷ limitations)))))))
