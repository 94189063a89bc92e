-- ===== src/Tests/Coverage.antt =====
-- A rank that waits in a synchronisation behind its only checkpoint, which is confirmed.
use mathlib.Core.Option
use hang_analyzer.Prelude.{
  ℕ, ◌≡◌, ◌≢◌, ◌↔◌, refl, true, some, List, [], ◌∷◌, passing, codes, text_eq, ℕ_discrete,
}
use hang_analyzer.Format.{Event}
use hang_analyzer.Analyzer.Select.{RankData}
use hang_analyzer.Analyzer.Scan.{scan_rank, append_if, track_scope, opens, closes}
use hang_analyzer.Analyzer.Scan.Collected.{is_confirmation, is_submission}
use hang_analyzer.Analyzer.Progress.{exact_confirmations, CheckpointKey-discrete}
use hang_analyzer.Analyzer.Progress.Settled.{LastConfirmed}
use hang_analyzer.Analyzer.Report.{RankReport, rank_report}
use hang_analyzer.Analyzer.Report.Coverage.{SomeSync, checkpoints_of, rank_report-coverage_warning}
use hang_analyzer.Tests.Analyzer.{header, event}

abbrev waiting_events : List Event
waiting_events =
    event (codes "CHECKPOINT") 3 9 1 40 1 8
    ∷ event (codes "DEVICE_SYNC_BEGIN") 4 0 0 2 0 0
    ∷ event (codes "DEVICE_CONFIRMED") 5 9 0 40 1 8
    ∷ []

abbrev waiting_rank : RankData
waiting_rank = record { header = header 0 5; events = waiting_events }

rank_report-coverage_warning_example :
    (r : RankReport) × (rank_report waiting_rank ≡ some r)
    × ((r.checkpoint_coverage_warning ≡ true) ↔ (
        SomeSync r.outstanding_host_scopes
        × (passing is_submission waiting_events ≢ [])
        × ((stream : ℕ)
            → LastConfirmed
                (exact_confirmations (passing is_confirmation waiting_events))
                (checkpoints_of stream (passing is_submission waiting_events)))))
rank_report-coverage_warning_example = rank_report-coverage_warning waiting_rank

coverage_warning-waiting_rank :
    Option.map (λ (r : RankReport). r.checkpoint_coverage_warning) (rank_report waiting_rank)
    ≡ some true
unfolding rank_report scan_rank append_if text_eq track_scope opens closes ℕ_discrete
    CheckpointKey-discrete
coverage_warning-waiting_rank = refl
