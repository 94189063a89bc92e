-- ===== src/Outputs/Lines/Total.antt =====
-- report.txt can be written for each report that `analyze` returns.
use mathlib.Core.Option
use mathlib.Core.List.{head?, get_last?}
use hang_analyzer.Prelude.{
  bind_returns, Given, Given-bind, Given-any, ℕ, ◌≡◌, refl, subst, ◌⊎◌, inl, inr, Option, none,
  some, List, [], ◌∷◌, All, sort_by, All-sort_by, Text, Dict, ◌>>=◌,
}
use hang_analyzer.Prelude.Result.{Result, ok, err}
use hang_analyzer.Format.{Event}
use hang_analyzer.Cycles.{find_cycles}
use hang_analyzer.Analyzer.Select.{Read, RankData, Selection, select}
use hang_analyzer.Analyzer.Scan.{scan_events, fresh}
use hang_analyzer.Analyzer.Ranks.{sorted_ranks}
use hang_analyzer.Analyzer.Dependencies.{Node-discrete}
use hang_analyzer.Analyzer.Progress.{
  Progress, CheckpointKey, progress_upto, stream_progress, progress_of, device_progress, by_stream,
  exact_confirmations,
}
use hang_analyzer.Analyzer.Report.{
  RankReport, Report, dependency_edges, report_of, rank_report, rank_reports, report_with,
  analyze_selection, analyze,
}
use hang_analyzer.Outputs.Lines.{report_lines}
use hang_analyzer.Outputs.Lines.Checkpoints.{
  unconfirmed_lines, stream_lines, streams_lines, progress_lines,
}

-- If there is a first unconfirmed checkpoint, there is a last one.
IsWhole : Progress → Type 0
IsWhole p = (p.first_unconfirmed ≡ none) ⊎ ((l : Event) × (p.last_unconfirmed ≡ some l))

last_found : (es : List Event) → (head? es ≡ none) ⊎ ((l : Event) × (get_last? es ≡ some l))
last_found [] = inl refl
last_found (e ∷ es) = inr (_, refl)

progress_upto-IsWhole :
    (exact : Dict CheckpointKey Event) (not_ready checkpoints : List Event) (last : Event)
    → IsWhole (progress_upto exact not_ready checkpoints last)
unfolding IsWhole progress_upto
progress_upto-IsWhole exact not_ready checkpoints last = last_found _

unconfirmed_lines_returns :
    (first last : Option Event) (n : ℕ)
    → (first ≡ none) ⊎ ((l : Event) × (last ≡ some l))
    → (ls : List Text) × (unconfirmed_lines first last n ≡ some ls)
unfolding unconfirmed_lines
unconfirmed_lines_returns none last n w = (_, refl)
unconfirmed_lines_returns (some f) (some l) n w = (_, refl)
unconfirmed_lines_returns (some f) none n (inl q) = cc q
unconfirmed_lines_returns (some f) none n (inr (l, q)) = cc q

stream_lines_returns :
    (rank stream : ℕ) (p : Progress)
    → IsWhole p
    → (ls : List Text) × (stream_lines rank stream p ≡ some ls)
unfolding IsWhole stream_lines
stream_lines_returns rank stream p w =
    let (u, e) =
      unconfirmed_lines_returns p.first_unconfirmed p.last_unconfirmed p.not_ready_observed w in
    (_, bind_returns _ e refl)

AllWhole : Dict ℕ Progress → Type 0
AllWhole d = All (λ e. IsWhole e.1) d

streams_lines_returns :
    (rank : ℕ) (d : Dict ℕ Progress)
    → AllWhole d
    → (ls : List Text) × (streams_lines rank d ≡ some ls)
unfolding streams_lines AllWhole
streams_lines_returns rank [] w = (_, refl)
streams_lines_returns rank ((stream, p) ∷ d) w =
    let (ls, e) = stream_lines_returns rank stream p w.0 in
    let (more, q) = streams_lines_returns rank d w.1 in
    (_, bind_returns _ e (bind_returns _ q refl))

stream_progress-IsWhole :
    (exact : Dict CheckpointKey Event) (not_ready checkpoints : List Event)
    → Given IsWhole (stream_progress exact not_ready checkpoints)
unfolding Given stream_progress
stream_progress-IsWhole exact not_ready checkpoints = go (get_last? checkpoints)
  where
    go :
        (o : Option Event)
        → Given IsWhole (Option.map (progress_upto exact not_ready checkpoints) o)
    go none = tt
    go (some e) = progress_upto-IsWhole exact not_ready checkpoints e

progress_of-AllWhole :
    (exact : Dict CheckpointKey Event) (not_ready : List Event) (d : Dict ℕ (List Event))
    → Given AllWhole (progress_of exact not_ready d)
unfolding progress_of AllWhole Given
progress_of-AllWhole exact not_ready [] = tt
progress_of-AllWhole exact not_ready ((stream, checkpoints) ∷ d) =
    Given-bind IsWhole AllWhole (stream_progress exact not_ready (sort_by (λ e. e.seq) checkpoints))
      _ (stream_progress-IsWhole exact not_ready (sort_by (λ e. e.seq) checkpoints))
      (λ p w.
        Given-bind AllWhole AllWhole (progress_of exact not_ready d) _
          (progress_of-AllWhole exact not_ready d) (λ ps v. (w, v)))

ReportWhole : RankReport → Type 0
ReportWhole r = AllWhole r.device_checkpoint_progress

rank_report-Whole : (d : RankData) → Given ReportWhole (rank_report d)
unfolding rank_report report_of ReportWhole device_progress Given
rank_report-Whole d =
    let s = scan_events d.events fresh in
    Given-bind AllWhole ReportWhole
      (device_progress s.confirmed s.checkpoint_submitted s.not_ready_observations)
      (λ ps. some (report_of d s ps))
      (progress_of-AllWhole (exact_confirmations s.confirmed) s.not_ready_observations
        (by_stream s.checkpoint_submitted []))
      (λ ps w. w)

ReportsWhole : Dict ℕ RankReport → Type 0
ReportsWhole d = All (λ e. ReportWhole e.1) d

rank_reports-Whole : (ranks : Dict ℕ RankData) → Given ReportsWhole (rank_reports ranks)
unfolding rank_reports ReportsWhole Given
rank_reports-Whole [] = tt
rank_reports-Whole ((rank, d) ∷ rest) =
    Given-bind ReportWhole ReportsWhole (rank_report d) _ (rank_report-Whole d) (λ r w.
      Given-bind ReportsWhole ReportsWhole (rank_reports rest) _ (rank_reports-Whole rest)
        (λ rs v. (w, v)))

rank_progress_lines :
    (d : Dict ℕ RankReport) → ReportsWhole d → (ls : List Text) × (progress_lines d ≡ some ls)
unfolding progress_lines AllWhole ReportsWhole ReportWhole
rank_progress_lines [] w = (_, refl)
rank_progress_lines ((rank, d) ∷ rest) w =
    let (ls, e) =
      streams_lines_returns rank (sort_by (λ e. e.0) d.device_checkpoint_progress)
        (All-sort_by (λ e. e.0) (λ e. IsWhole e.1) d.device_checkpoint_progress w.0) in
    let (more, q) = rank_progress_lines rest w.1 in (_, bind_returns _ e (bind_returns _ q refl))

analyze_selection-Whole :
    (expected : Option (List ℕ)) (communicator : Option ℕ) (s : Selection)
    → Given (λ r. ReportsWhole r.ranks) (analyze_selection expected communicator s)
unfolding analyze_selection report_with Given
analyze_selection-Whole expected communicator s =
    let cycles = find_cycles Node-discrete (dependency_edges s.ranks) in
    Given-bind ReportsWhole (λ r. ReportsWhole r.ranks) (rank_reports (sorted_ranks s.ranks))
      (λ rs. do cs ← cycles; some (report_with expected communicator s rs cs))
      (rank_reports-Whole (sorted_ranks s.ranks))
      (λ rs w.
        Given-bind (λ _. Unit) (λ r. ReportsWhole r.ranks) cycles
          (λ cs. some (report_with expected communicator s rs cs)) (Given-any cycles) (λ cs _. w))

analyze-Whole :
    (reads : List Read) (expected : Option (List ℕ)) (communicator : Option ℕ)
    → Given (λ r. ReportsWhole r.ranks) (analyze reads expected communicator)
unfolding analyze Given
analyze-Whole reads expected communicator = go (select reads)
  where
    go :
        (x : Result Selection)
        → Given
            (λ r. ReportsWhole r.ranks)
            (elim x [ ok s ↦ analyze_selection expected communicator s | err _ ↦ none ])
    go (ok s) = analyze_selection-Whole expected communicator s
    go (err e) = tt

-- Each report that `analyze` returns can be written: the lines of report.txt are defined.
pub report_lines_returns :
    (reads : List Read) (expected : Option (List ℕ)) (communicator : Option ℕ) {r : Report}
    → analyze reads expected communicator ≡ some r
    → (ls : List Text) × (report_lines r ≡ some ls)
unfolding report_lines ReportsWhole Given
report_lines_returns reads expected communicator {r} e =
    let w : ReportsWhole r.ranks =
      subst (Given (λ r. ReportsWhole r.ranks)) e (analyze-Whole reads expected communicator) in
    let (ls, q) =
      rank_progress_lines (sort_by (λ e. e.0) r.ranks)
        (All-sort_by (λ e. e.0) (λ e. ReportWhole e.1) r.ranks w) in
    (_, bind_returns _ q refl)
