-- ===== src/Tests/Outputs.antt =====
-- The report files of the two ranks, and the merge of two files of one rank.
use hang_analyzer.Prelude.{
  ℕ, contains, ◌-◌, ◌≡◌, ◌⊎◌, ◌↔◌, refl, true, false, not, map, text_eq, Option, none, some, List,
  [], ◌∷◌, Memᴰ, IsStrict, Text, codes, Dict, ℕ_discrete, lookup, insert, sort_by, decimal,
}
use hang_analyzer.Prelude.Result.{ok, err, os_error}
use hang_analyzer.Format.{Event}
use hang_analyzer.Analyzer.Select.{Read}
use hang_analyzer.Analyzer.Report.{RankReport, Report, analyze}
use hang_analyzer.Analyzer.Report.Total.{analyze_returns}
use hang_analyzer.Outputs.Lines.{report_lines}
use hang_analyzer.Outputs.Lines.Total.{report_lines_returns}
use hang_analyzer.Outputs.Full.{by_seq, merge_events, accepts, merge_path, merge_paths, events_at}
use hang_analyzer.Outputs.Full.Keyed.{number}
use hang_analyzer.Outputs.Full.Merged.{last_written, merge_paths-lists}
use hang_analyzer.Outputs.Written.{
  MetadataRead, item, not_object, Disk, Ending, os_failed, attribute_failed, name_of, write_outputs,
}
use hang_analyzer.Outputs.Command.{
  split_commas, all_ints, set_of, expected_of, main, IsRefused, IsReported, main_returns,
}
use hang_analyzer.Tests.Analyzer.{header, event, reads}

abbrev expected : Option (List ℕ)
expected = some (0 ∷ 1 ∷ [])

abbrev report : Report
report = (analyze_returns reads expected (some 5) (tt, (tt, (tt, (tt, tt))))).1

analyzed : analyze reads expected (some 5) ≡ some report
analyzed = (analyze_returns reads expected (some 5) (tt, (tt, (tt, (tt, tt))))).3

report_lines_returns_example : (ls : List Text) × (report_lines report ≡ some ls)
report_lines_returns_example = report_lines_returns reads expected (some 5) analyzed

-- The text of a time, here only its nanoseconds.
abbrev shown_ms : ℕ → ℕ → Text
shown_ms time first = decimal time

abbrev parents : List (Text × MetadataRead)
parents = (codes "/s", item (some (codes "now")) none) ∷ []

-- `int` of the two digits that are used.
unfoldable int : Text → Option ℕ
int [] = none
int (c ∷ s) = some (c - 48)

-- A disk that refuses one name.
abbrev refusing : Text → Disk
refusing name = record { makes = true; takes = λ n. not (text_eq n name) }

main_returns_example :
    (let c =
        main int shown_ms
          (refusing (codes "trace.json"))
          (some (codes "0,1"))
          (some 5)
          reads
          reads
          parents in
      IsRefused reads expected (some 5) c
      ⊎ IsReported shown_ms (refusing (codes "trace.json")) expected (some 5) reads reads parents c)
unfolding expected_of all_ints split_commas set_of int contains ℕ_discrete
main_returns_example =
    main_returns int shown_ms (refusing (codes "trace.json")) (some (codes "0,1")) (some 5) reads
      reads parents refl refl (tt, (tt, (tt, (tt, tt)))) (tt, (tt, (tt, (tt, tt))))

abbrev no_ranks : Report
no_ranks = record {
  ranks = [];
  collectives = [];
  dependencies = [];
  stream_cycles_candidate = [];
  errors = [];
}

-- The names of what is written, and the end.
unfoldable outcome : Text → List (Text × MetadataRead) → List Text × Ending
unfolding write_outputs name_of
outcome name ps =
    let w =
      write_outputs shown_ms (refusing name) no_ranks (err (os_error (codes "gone")) ∷ []) ps in
    (map name_of w.0, w.1)

outcome-trace :
    outcome (codes "trace.json") parents
    ≡ (codes "report.json" ∷ codes "report.txt" ∷ [], os_failed)
unfolding outcome write_outputs report_lines merge_paths text_eq
outcome-trace = refl

outcome-no_object : outcome (codes "none") ((codes "/s", not_object) ∷ parents) ≡ (
  codes "report.json" ∷ codes "report.txt" ∷ codes "trace.json" ∷ codes "events.txt" ∷ [],
  attribute_failed,
)
unfolding outcome write_outputs report_lines merge_paths text_eq
outcome-no_object = refl

abbrev quiet : RankReport
quiet = record {
  pid = 77;
  last_sequence = 0;
  last_event = none;
  last_host_event = none;
  last_device_confirmation = none;
  outstanding_host_scopes = [];
  last_events = [];
  ring_wrap_or_loss = false;
  device_checkpoint_progress = [];
  checkpoint_warnings = [];
  stale_or_unmatched_confirmations = [];
  checkpoint_coverage_warning = false;
}

abbrev early : Event
early = event (codes "ALIVE") 1 9 0 1 0 0

abbrev late : Event
late = event (codes "ALIVE") 3 9 0 1 0 0

-- The same number with other contents.
abbrev late_again : Event
late_again = event (codes "ALIVE") 3 8 0 1 0 0

abbrev two_files : List Read
two_files =
    ok (header 0 3, early ∷ late ∷ [])
    ∷ err (os_error (codes "gone"))
    ∷ ok (header 0 5, late_again ∷ event (codes "ALIVE") 2 8 0 1 0 0 ∷ [])
    ∷ ok (header 1 5, late ∷ [])
    ∷ []

merge_paths-two_files :
    merge_paths ((0, quiet) ∷ []) two_files []
    ≡ ok ((0, early ∷ event (codes "ALIVE") 2 8 0 1 0 0 ∷ late_again ∷ []) ∷ [])
unfolding merge_paths merge_path accepts merge_events by_seq events_at sort_by lookup insert
    ℕ_discrete
merge_paths-two_files = refl

merge_paths-lists_example :
    (full : Dict ℕ (List Event)) × (merge_paths ((0, quiet) ∷ []) two_files [] ≡ ok full)
    × ((rank : ℕ)
        → IsStrict number (events_at rank full)
          × ((e : Event)
              → Memᴰ e (events_at rank full)
                ↔ (last_written ((0, quiet) ∷ []) rank e.seq two_files none ≡ some e)))
merge_paths-lists_example = merge_paths-lists ((0, quiet) ∷ []) two_files (tt, (tt, (tt, (tt, tt))))
