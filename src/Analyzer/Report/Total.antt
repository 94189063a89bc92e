-- ===== src/Analyzer/Report/Total.antt =====
-- `analyze` raises nothing, whatever the files hold.
use mathlib.Core.List.{get_last?}
use mathlib.Core.List.Memᴰ
use hang_analyzer.Prelude.{
  ◌∙◌, ℕ, ◌≡◌, ◌≢◌, ◌↔◌, refl, subst, sym, Option, some, List, [], ◌∷◌, ◌++◌, All, Memᴰ,
  mem-sort_by, sort_by, Dict, insert, ℕ_discrete, arith, passing,
}
use hang_analyzer.Prelude.Result.{ok}
use hang_analyzer.Format.{Event}
use hang_analyzer.Format.Errors.{IsCaught}
use hang_analyzer.Cycles.{find_cycles}
use hang_analyzer.Cycles.Walks.{IsCycle}
use hang_analyzer.Cycles.Correct.{Acyclic, find_cycles_decides}
use hang_analyzer.Analyzer.Select.{Read, RankData, Selection, select}
use hang_analyzer.Analyzer.Select.Latest.{select-IsLatest}
use hang_analyzer.Analyzer.Scan.{fresh, scan_events}
use hang_analyzer.Analyzer.Progress.{
  CheckpointKey, Progress, by_stream, exact_confirmations, progress_of, device_progress,
}
use hang_analyzer.Analyzer.Progress.Streams.{stream_progress-Describes}
use hang_analyzer.Analyzer.Dependencies.{Node, Node-discrete}
use hang_analyzer.Analyzer.Ranks.{sorted_ranks}
use hang_analyzer.Analyzer.Report.{
  is_host_event, RankReport, Report, rank_report, report_of, report_with, rank_reports,
  dependency_edges, analyze_selection, analyze,
}

abbrev IsFilled : ℕ × List Event → Type 0
IsFilled e = e.1 ≢ []

All-insert :
    (k : ℕ) (v : List Event) (d : Dict ℕ (List Event))
    → v ≢ []
    → All IsFilled d
    → All IsFilled (insert ℕ_discrete k v d)
unfolding insert
All-insert k v [] h a = (h, tt)
All-insert k v ((j, w) ∷ d) h a = elim (ℕ_discrete j k) [
  | yes p ↦
      let e : insert ℕ_discrete k v ((j, w) ∷ d) ≡ (j, v) ∷ d = ground arith in
      subst (All IsFilled) (sym e) (h, a.1)
  | no p ↦
      let e : insert ℕ_discrete k v ((j, w) ∷ d) ≡ (j, w) ∷ insert ℕ_discrete k v d =
        ground arith in
      subst (All IsFilled) (sym e) (a.0, All-insert k v d h a.1)
]

snoc-ne-nil : (l : List Event) (x : Event) → l ++ x ∷ [] ≢ []
snoc-ne-nil [] x e = cc
snoc-ne-nil (y ∷ l) x e = cc

by_stream-IsFilled :
    (es : List Event) (d : Dict ℕ (List Event)) → All IsFilled d → All IsFilled (by_stream es d)
unfolding by_stream
by_stream-IsFilled [] d a = a
by_stream-IsFilled (e ∷ es) d a =
    by_stream-IsFilled es _ (All-insert e.stream _ d (snoc-ne-nil _ e) a)

sort_by-ne-nil : (es : List Event) → es ≢ [] → sort_by (λ (e : Event). e.seq) es ≢ []
sort_by-ne-nil [] h q = absurd (h refl)
sort_by-ne-nil (e ∷ es) h q =
    Memᴰ.not-nil
      (subst (Memᴰ e) q ((mem-sort_by (λ (x : Event). x.seq) e (e ∷ es)).1 (Memᴰ.head refl)))

progress_of_returns :
    (exact : Dict CheckpointKey Event) (not_ready : List Event) (d : Dict ℕ (List Event))
    → All IsFilled d
    → (p : Dict ℕ Progress) × (progress_of exact not_ready d ≡ some p)
unfolding progress_of
progress_of_returns exact not_ready [] a = ([], refl)
progress_of_returns exact not_ready ((stream, checkpoints) ∷ rest) a =
    let sorted = sort_by (λ (e : Event). e.seq) checkpoints in
    let (p, q, _) =
      stream_progress-Describes exact not_ready sorted (sort_by-ne-nil checkpoints a.0) in
    let (ps, qs) = progress_of_returns exact not_ready rest a.1 in ((stream, p) ∷ ps, rw (q, qs))

pub device_progress_returns :
    (confirmed submitted not_ready : List Event)
    → (p : Dict ℕ Progress) × (device_progress confirmed submitted not_ready ≡ some p)
unfolding device_progress
device_progress_returns confirmed submitted not_ready =
    progress_of_returns (exact_confirmations confirmed) not_ready (by_stream submitted [])
      (by_stream-IsFilled submitted [] tt)

pub rank_report_returns :
    (d : RankData)
    → (r : RankReport) × (rank_report d ≡ some r)
      × (r.last_host_event ≡ get_last? (passing is_host_event d.events))
unfolding rank_report device_progress report_of
rank_report_returns d =
    let s = scan_events d.events fresh in
    let (p, q) =
      device_progress_returns s.confirmed s.checkpoint_submitted s.not_ready_observations in
    (report_of d s p, rw (rank_report, q) refl, refl)

pub rank_reports_returns :
    (d : Dict ℕ RankData) → (r : Dict ℕ RankReport) × (rank_reports d ≡ some r)
unfolding rank_reports
rank_reports_returns [] = ([], refl)
rank_reports_returns ((rank, d) ∷ rest) =
    let (r, q, _) = rank_report_returns d in
    let (rs, qs) = rank_reports_returns rest in ((rank, r) ∷ rs, rw (q, qs))

pub analyze_selection_returns :
    (expected : Option (List ℕ)) (communicator : Option ℕ) (s : Selection) {rs : Dict ℕ RankReport}
    {cs : List (List Node)}
    → rank_reports (sorted_ranks s.ranks) ≡ some rs
    → find_cycles Node-discrete (dependency_edges s.ranks) ≡ some cs
    → analyze_selection expected communicator s ≡ some (report_with expected communicator s rs cs)
unfolding analyze_selection
analyze_selection_returns expected communicator s reported found =
    rw (reported, analyze_selection) (rw (found, analyze_selection) refl)

pub analyze-ok :
    (reads : List Read) (expected : Option (List ℕ)) (communicator : Option ℕ) {s : Selection}
    → select reads ≡ ok s
    → analyze reads expected communicator ≡ analyze_selection expected communicator s
unfolding analyze
analyze-ok reads expected communicator selected = rw (selected, analyze) refl

-- If the files raise only what is caught, `analyze` returns a report; its candidate cycles are closed
-- walks along the dependency edges of the selected files, and there are none exactly if there is no
-- closed walk.
pub analyze_returns :
    (reads : List Read) (expected : Option (List ℕ)) (communicator : Option ℕ)
    → All IsCaught reads
    → (s : Selection) × (r : Report) × (select reads ≡ ok s)
      × (analyze reads expected communicator ≡ some r)
      × (r.errors ≡ s.errors)
      × All (IsCycle Node-discrete (dependency_edges s.ranks)) r.stream_cycles_candidate
      × ((r.stream_cycles_candidate ≡ []) ↔ Acyclic Node-discrete (dependency_edges s.ranks))
unfolding report_with
analyze_returns reads expected communicator caught =
    let (s, selected, _, _) = select-IsLatest reads caught in
    let (rs, reported) = rank_reports_returns (sorted_ranks s.ranks) in
    let (cs, found, real, exact) = find_cycles_decides Node-discrete (dependency_edges s.ranks) in
    let returned =
      analyze-ok reads expected communicator selected
      ∙ analyze_selection_returns expected communicator s reported found in
    (s, report_with expected communicator s rs cs, selected, returned, refl, real, exact)
