-- ===== src/Tests/Client.antt =====
-- A recorder over a library that logs the types it is given, and the progress of one stream.
use hang_analyzer.Prelude.{
  ℕ, ◌≡◌, ◌⊎◌, refl, List, [], ◌∷◌, Memᴰ, codes, arith, lookup, sort_by, ℕ_discrete, text_eq,
}
use hang_analyzer.Format.{Event, names, type_name, type_code, index_from}
use hang_analyzer.Client.{FlightLibrary, replied, raised_key, record_named}
use hang_analyzer.Client.Types.{record_named_lem}
use hang_analyzer.Analyzer.Progress.{exact_confirmations, stream_progress}
use hang_analyzer.Analyzer.Progress.Grouped.{submissions_of, device_progress-stream}
use hang_analyzer.Analyzer.Report.Total.{device_progress_returns}
use hang_analyzer.Tests.Analyzer.{event}

abbrev library : FlightLibrary (List ℕ)
library = record {
  init = λ path rank device capacity w. (0, w);
  record_event = λ type stream correlation arg0 arg1 flags w. (type, type ∷ w);
  close_file = λ w. w;
}

record_named-hccl : record_named library (codes "HCCL_BEGIN") 3 1 0 0 0 [] ≡ (replied 15, 15 ∷ [])
unfolding record_named type_code index_from text_eq
record_named-hccl = refl

record_named_lem_example :
    ((type : ℕ) × (type_name type ≡ codes "HCCL_BEGIN")
      × (record_named library (codes "HCCL_BEGIN") 3 1 0 0 0 [] ≡ (
        replied (library.record_event type 3 1 0 0 0 []).0,
        (library.record_event type 3 1 0 0 0 []).1,
      )))
    ⊎ ((¬ Memᴰ (codes "HCCL_BEGIN") names)
        × (record_named library (codes "HCCL_BEGIN") 3 1 0 0 0 []
            ≡ (raised_key (codes "HCCL_BEGIN"), [])))
record_named_lem_example =
    record_named_lem library (codes "HCCL_BEGIN") 3 1 0 0 0 [] (omega arith) (omega arith)
      (omega arith) (omega arith) (omega arith)

abbrev submitted : List Event
submitted =
    event (codes "CHECKPOINT") 3 9 1 40 1 8
    ∷ event (codes "CHECKPOINT") 4 5 1 41 2 8
    ∷ event (codes "CHECKPOINT") 6 9 1 42 3 8
    ∷ []

device_progress-stream_example :
    lookup ℕ_discrete 9 (device_progress_returns [] submitted []).0
    ≡ stream_progress
        (exact_confirmations [])
        []
        (sort_by (λ (e : Event). e.seq) (submissions_of 9 submitted))
device_progress-stream_example =
    device_progress-stream [] submitted [] 9 (device_progress_returns [] submitted []).1
