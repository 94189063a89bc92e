-- ===== src/Outputs/Lines/Checkpoints.antt =====
-- The section DEVICE CHECKPOINT PROGRESS of report.txt.
use hang_analyzer.Prelude.{
  ℕ, Bool, true, false, Option, none, some, List, [], ◌∷◌, ◌++◌, length, sort_by, Text, codes,
  decimal, Dict, ◌>>=◌,
}
use hang_analyzer.Format.{Event}
use hang_analyzer.Analyzer.Progress.{Progress}
use hang_analyzer.Analyzer.Report.{RankReport}
use hang_analyzer.Outputs.Shown.{f_string}

-- The three fields of a checkpoint that its lines end with.
unfoldable pub checkpoint_text : Event → Text
unfolding decimal
checkpoint_text e = f_string (
    decimal e.arg0
    ∷ codes " checkpoint="
    ∷ decimal e.correlation_id
    ∷ codes " generation="
    ∷ decimal e.arg1
    ∷ [])

unfoldable pub through_line : Option Event → Text
unfolding checkpoint_text
through_line none = codes "  confirmed through: none observed"
through_line (some done) = codes "  confirmed through submitted_seq=" ++ checkpoint_text done

-- The lines of `if first`.
unfoldable pub unconfirmed_lines : Option Event → Option Event → ℕ → Option (List Text)
unfolding checkpoint_text decimal
unconfirmed_lines none last not_ready = some []
unconfirmed_lines (some first) none not_ready = none
unconfirmed_lines (some first) (some last) not_ready = some (
    (codes "  first unconfirmed submitted_seq=" ++ checkpoint_text first)
    ∷ f_string (
        codes "  unconfirmed submitted_seq interval="
        ∷ decimal first.arg0
        ∷ codes ".."
        ∷ decimal last.arg0
        ∷ [])
    ∷ (codes "  explicit NOT_READY observations=" ++ decimal not_ready)
    ∷ [])

unfoldable pub stream_lines : ℕ → ℕ → Progress → Option (List Text)
unfolding decimal through_line unconfirmed_lines
stream_lines rank stream p = do
  unconfirmed ← unconfirmed_lines p.first_unconfirmed p.last_unconfirmed p.not_ready_observed
  some (
      f_string (
        codes "rank "
        ∷ decimal rank
        ∷ codes " stream "
        ∷ decimal stream
        ∷ codes ": submitted="
        ∷ decimal p.submitted_count
        ∷ codes " explicit_confirmations="
        ∷ decimal p.explicitly_confirmed_count
        ∷ codes " unconfirmed="
        ∷ decimal p.unconfirmed_count
        ∷ [])
      ∷ f_string (
          codes "  submitted_seq="
          ∷ decimal p.submitted_seq
          ∷ codes " completed_seq="
          ∷ decimal p.completed_seq
          ∷ [])
      ∷ through_line p.confirmed_through
      ∷ unconfirmed)

unfoldable pub streams_lines : ℕ → Dict ℕ Progress → Option (List Text)
unfolding stream_lines
streams_lines rank [] = some []
streams_lines rank ((stream, p) ∷ rest) = do
  ls ← stream_lines rank stream p
  more ← streams_lines rank rest
  some (ls ++ more)

-- `if not d["device_checkpoint_progress"]`
unfoldable pub no_checkpoint_lines : ℕ → Dict ℕ Progress → List Text
unfolding decimal
no_checkpoint_lines rank [] =
    f_string (codes "rank " ∷ decimal rank ∷ codes ": no per-stream device checkpoints" ∷ []) ∷ []
no_checkpoint_lines rank (_ ∷ _) = []

-- A line with the number of some events, if there are any.
unfoldable pub count_lines : ℕ → Text → List Event → List Text
unfolding decimal
count_lines rank label [] = []
count_lines rank label (e ∷ es) =
    f_string (codes "rank " ∷ decimal rank ∷ label ∷ decimal (length (e ∷ es)) ∷ []) ∷ []

unfoldable pub coverage_lines : ℕ → Bool → List Text
unfolding decimal
coverage_lines rank false = []
coverage_lines rank true =
    f_string (
      codes "rank "
      ∷ decimal rank
      ∷ codes ": COVERAGE WARNING: DEVICE_SYNC remains open although all "
      ∷ codes "observed Stream checkpoints are confirmed; blocked work is after the last "
      ∷ codes "checkpoint or on an uninstrumented/internal Stream"
      ∷ [])
    ∷ []

-- DEVICE CHECKPOINT PROGRESS
unfoldable pub progress_lines : Dict ℕ RankReport → Option (List Text)
unfolding streams_lines no_checkpoint_lines count_lines coverage_lines sort_by
progress_lines [] = some []
progress_lines ((rank, d) ∷ rest) = do
  streams ← streams_lines rank (sort_by (λ e. e.0) d.device_checkpoint_progress)
  more ← progress_lines rest
  some (
      no_checkpoint_lines rank d.device_checkpoint_progress
      ++ (streams
          ++ (count_lines rank (codes ": checkpoint warnings=") d.checkpoint_warnings
              ++ (count_lines rank (codes ": ignored stale/unmatched confirmations=")
                    d.stale_or_unmatched_confirmations
                  ++ (coverage_lines rank d.checkpoint_coverage_warning ++ more)))))
