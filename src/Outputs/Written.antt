-- ===== src/Outputs/Written.antt =====
-- `write_outputs` as a whole: which files it writes, and how it ends. A file whose writing fails counts as
-- not written, whatever part of it is on the disk.
pub mod Kept
use hang_analyzer.Prelude.{
  ℕ, Bool, true, false, Option, none, some, List, [], ◌∷◌, if◌then◌else◌, Text, codes, Dict,
}
use hang_analyzer.Prelude.Result.{ok, err}
use hang_analyzer.Format.{Event}
use hang_analyzer.Analyzer.Select.{Read}
use hang_analyzer.Analyzer.Report.{Report}
use hang_analyzer.Outputs.Shown.{f_string}
use hang_analyzer.Outputs.Lines.{report_lines}
use hang_analyzer.Outputs.Full.{TraceEvent, trace, event_lines, merge_paths}

-- What `metadata.json` of a directory gives: it is not there, an error that is caught, a value that is not
-- an object, or an object with two of its values as texts, if it has them.
pub data MetadataRead : Type 0 where
  absent unreadable not_object : MetadataRead
  item : (captured_utc reason : Option Text) → MetadataRead

-- `item.get(..., '?')`
unfoldable pub or_unknown : Option Text → Text
or_unknown none = codes "?"
or_unknown (some t) = t

-- The lines of snapshots.txt, from the directories of the files in their order; `none` stands for the
-- `AttributeError` of a value without `get`.
unfoldable pub snapshot_lines : List (Text × MetadataRead) → Option (List Text)
unfolding or_unknown
snapshot_lines [] = some []
snapshot_lines ((parent, absent) ∷ rest) = snapshot_lines rest
snapshot_lines ((parent, unreadable) ∷ rest) = snapshot_lines rest
snapshot_lines ((parent, not_object) ∷ rest) = none
snapshot_lines ((parent, item captured reason) ∷ rest) = elim (snapshot_lines rest) [
  | none ↦ none
  | some lines ↦ some (
      f_string (or_unknown captured ∷ codes " " ∷ or_unknown reason ∷ codes " " ∷ parent ∷ [])
      ∷ lines)
]

-- The files with what they hold; report.json is the report itself.
pub data File : Type 0 where
  report_json : Report → File
  report_txt : List Text → File
  trace_json : List TraceEvent → File
  events_txt : List Text → File
  snapshots_txt : List Text → File

unfoldable pub name_of : File → Text
name_of (report_json r) = codes "report.json"
name_of (report_txt lines) = codes "report.txt"
name_of (trace_json events) = codes "trace.json"
name_of (events_txt lines) = codes "events.txt"
name_of (snapshots_txt lines) = codes "snapshots.txt"

-- Whether `mkdir` and the `write_text` of a name succeed; otherwise they raise an `OSError`.
pub record Disk : Type 0 where
  pub makes : Bool
  pub takes : Text → Bool

-- Without an exception, or with an `OSError`, a `TypeError`, an exception of `read_events` that is not caught,
-- or an `AttributeError`.
pub data Ending : Type 0 where
  completed os_failed type_failed read_failed attribute_failed : Ending

-- The files that were written, in their order, and the end.
abbrev pub Written : Type 0
Written = List File × Ending

-- `write_text`, and what follows
unfoldable pub store : Disk → File → Written → Written
unfolding name_of
store disk f rest = if disk.takes (name_of f) then (f ∷ rest.0, rest.1) else ([], os_failed)

-- The second `if paths:`
unfoldable pub store_snapshots : Disk → List Read → List (Text × MetadataRead) → Written
unfolding snapshot_lines store
store_snapshots disk [] parents = ([], completed)
store_snapshots disk (r ∷ rs) parents = elim (snapshot_lines parents) [
  | none ↦ ([], attribute_failed)
  | some lines ↦ store disk (snapshots_txt lines) ([], completed)
]

module _ (shown_ms : ℕ → ℕ → Text) (disk : Disk) where
  -- From trace.json on.
  unfoldable pub store_merged :
      Report → List Read → List (Text × MetadataRead) → Dict ℕ (List Event) → Written
  unfolding trace event_lines store store_snapshots
  store_merged r reads parents full = store disk (trace_json (trace full r.ranks)) (
      store disk (events_txt (event_lines shown_ms full r.ranks))
        (store_snapshots disk reads parents))

  -- From report.txt on.
  unfoldable pub store_report :
      Report → List Read → List (Text × MetadataRead) → List Text → Written
  unfolding merge_paths store_merged store
  store_report r reads parents lines =
      store disk (report_txt lines) (elim (merge_paths r.ranks reads []) [
        | err e ↦ ([], read_failed)
        | ok full ↦ store_merged r reads parents full
      ])

  unfoldable pub write_outputs : Report → List Read → List (Text × MetadataRead) → Written
  unfolding report_lines store_report store
  write_outputs r reads parents =
      if disk.makes
      then store disk (report_json r) (elim (report_lines r) [
        | none ↦ ([], type_failed)
        | some lines ↦ store_report r reads parents lines
      ])
      else ([], os_failed)
