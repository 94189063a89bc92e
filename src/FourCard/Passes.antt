-- ===== src/FourCard/Passes.antt =====
-- The example passes: whatever the options and the missing rank, and whatever the checkpoint library
-- records in between, `analyze` finds the rank that stays away.
use mathlib.Core.List.{get_last?}
use hang_analyzer.Prelude.{
  ℕ, ◌≡◌, refl, ap, subst, ◌∙◌, Bool, true, false, ◌==◌, ==_iff, Bool-cases, inl, inr, none, some,
  List, [], ◌∷◌, map, passing, All, All-mem, All-mono, Memᴰ, if◌then◌else◌, Text, codes, text_eq,
  text_eq_iff, Dict, lookup, ℕ_discrete, sort_by,
}
use hang_analyzer.Prelude.Result.{ok}
use hang_analyzer.Format.{Event}
use hang_analyzer.Cycles.Correct.{find_cycles_decides}
use hang_analyzer.Analyzer.Select.{Read, RankData, Selection, select}
use hang_analyzer.Analyzer.Ranks.{sorted_ranks}
use hang_analyzer.Analyzer.Dependencies.{Node, Node-discrete}
use hang_analyzer.Analyzer.Collectives.{Collective}
use hang_analyzer.Analyzer.Report.{
  RankReport, Report, rank_reports, is_host_event, analyze, report_with, dependency_edges,
}
use hang_analyzer.Analyzer.Report.Total.{rank_report_returns, analyze-ok, analyze_selection_returns}
use hang_analyzer.FourCard.{Settings, Setting, devices, reached_hang, rank_reached}
use hang_analyzer.FourCard.Hang.Records.{Trace-shown, Trace-has_name}
use hang_analyzer.FourCard.Calls.{hung-HasCalled}
use hang_analyzer.FourCard.Chosen.{Snapshot, IsComplete, Holds, reads_of, select-devices}
use hang_analyzer.FourCard.Found.{IsHung, AllHung, four, four-keys, targets-four}
use hang_analyzer.FourCard.Verdict.{
  Check, passed, others, check_target, check_type, check_last, check_ranks, check_report,
}

-- The type of the last item.
get_last?-map {ℓ κ} :
    {A : Type ℓ} {B : Type κ} (f : A → B) (xs : List A) {b : B}
    → get_last? (map f xs) ≡ some b
    → (a : A) × (get_last? xs ≡ some a) × (f a ≡ b)
get_last?-map f [] h = cc
get_last?-map f (x ∷ []) h = (x, refl, cc)
get_last?-map f (x ∷ y ∷ xs) h = get_last?-map f (y ∷ xs) h

text_eq_same : (n : Text) → text_eq n n ≡ true
text_eq_same n = (text_eq_iff n n).1 refl

-- The type of the last host event in the report of a rank.
abbrev LastIs : Dict ℕ RankReport → Text → ℕ → Type 0
LastIs ranks name rank =
    (r : RankReport) × (e : Event) × (lookup ℕ_discrete rank ranks ≡ some r)
    × (r.last_host_event ≡ some e)
    × (e.type ≡ name)

check_last-passes :
    (ranks : Dict ℕ RankReport) (name : Text) (rank : ℕ) {rest : Check}
    → LastIs ranks name rank
    → check_last ranks rank name rest ≡ rest
unfolding check_last check_type
check_last-passes ranks name rank (r, e, found, last, type) =
    rw (found, check_last) (rw (last, check_type) (rw type (rw (text_eq_same name) refl)))

-- What the missing rank and the others do last.
abbrev last_name : ℕ → ℕ → Text
last_name m r = if r == m then codes "KV_BEGIN" else codes "DEVICE_SYNC_BEGIN"

check_ranks-passes :
    (m : ℕ) (ranks : Dict ℕ RankReport) (rs : List ℕ) {rest : Check}
    → All (λ r. LastIs ranks (last_name m r) r) rs
    → check_ranks m ranks rs rest ≡ rest
unfolding check_ranks
check_ranks-passes m ranks [] h = refl
check_ranks-passes m ranks (r ∷ rs) h = elim (Bool-cases (r == m)) [
  | inl q ↦ rw q (check_ranks-passes m ranks rs h.1)
  | inr q ↦
      let name = λ (b : Bool). if b then codes "KV_BEGIN" else codes "DEVICE_SYNC_BEGIN" in
      let own : LastIs ranks (name false) r = subst (λ b. LastIs ranks (name b) r) q h.0 in
      rw q (check_last-passes ranks _ r own ∙ check_ranks-passes m ranks rs h.1)
]

check_target-passes :
    (m : ℕ) (g : Collective) {rest : Check}
    → g.missing_expected ≡ m ∷ []
    → g.entered ≡ others m
    → g.end_observed ≡ others m
    → check_target m (g ∷ []) rest ≡ rest
unfolding check_target
check_target-passes m g absent entered left =
    rw (absent, entered, left, text_eq_same (m ∷ []), text_eq_same (others m)) refl

module _ (s : Settings) (t : ℕ → Setting) where
  -- The last host event of a hung worker.
  IsHung-last :
      (r : ℕ) (es : List Event)
      → IsHung s t r es
      → (e : Event) × (get_last? (passing is_host_event es) ≡ some e)
        × (e.type ≡ last_name s.missing_rank r)
  IsHung-last r es trace =
      get_last?-map (λ e. e.type) (passing is_host_event es)
        (ap get_last? (Trace-shown trace) ∙ (hung-HasCalled s (t r) r).2)

  IsHung-LastIs :
      (r : ℕ) (d : RankData) (ranks : Dict ℕ RankReport)
      → IsHung s t r d.events
      → lookup ℕ_discrete r ranks ≡ some (rank_report_returns d).0
      → LastIs ranks (last_name s.missing_rank r) r
  IsHung-LastIs r d ranks trace found =
      let (e, last, type) = IsHung-last r d.events trace in
      let (report, _, copied) = rank_report_returns d in (report, e, found, copied ∙ last, type)

  IsHung-rank_reached :
      (r : ℕ) (es : List Event) → IsHung s t r es → rank_reached s.missing_rank r (some es) ≡ true
  unfolding rank_reached
  IsHung-rank_reached r es trace = Trace-has_name _ trace ((hung-HasCalled s (t r) r).3)

  module _ (a b c d : RankData) (traces : AllHung s t a b c d) where
    -- The reports of the four ranks.
    abbrev reports : Dict ℕ RankReport
    reports =
        (4, (rank_report_returns a).0)
        ∷ (5, (rank_report_returns b).0)
        ∷ (6, (rank_report_returns c).0)
        ∷ (7, (rank_report_returns d).0)
        ∷ []

    reported : rank_reports (sorted_ranks (four a b c d)) ≡ some reports
    unfolding rank_reports sort_by
    reported =
        rw
          (
            (rank_report_returns a).1,
            (rank_report_returns b).1,
            (rank_report_returns c).1,
            (rank_report_returns d).1,
          )
          refl

    reports-LastIs : All (λ r. LastIs reports (last_name s.missing_rank r) r) devices
    unfolding lookup ℕ_discrete
    reports-LastIs =
        let (u, v, w, x) = traces in
        (
          IsHung-LastIs 4 a reports u refl,
          (
            IsHung-LastIs 5 b reports v refl,
            (IsHung-LastIs 6 c reports w refl, (IsHung-LastIs 7 d reports x refl, tt)),
          ),
        )

    missing-LastIs : Memᴰ s.missing_rank devices → LastIs reports (codes "KV_BEGIN") s.missing_rank
    missing-LastIs at =
        subst
          (λ b.
            LastIs reports (if b then codes "KV_BEGIN" else codes "DEVICE_SYNC_BEGIN")
              s.missing_rank)
          ((==_iff s.missing_rank s.missing_rank).1 refl)
          (All-mem (λ r. LastIs reports (last_name s.missing_rank r) r) devices reports-LastIs
            s.missing_rank at)

    report-passes :
        Memᴰ s.missing_rank devices
        → (errors : List Text) (cs : List (List Node))
        → let u : Selection = record { ranks = four a b c d; errors = errors } in
          check_report s.missing_rank (report_with (some devices) none u reports cs) ≡ passed
    unfolding check_report report_with
    report-passes at errors cs =
        let (g, targets, absent, entered, left) = targets-four s t a b c d traces at in
        let hosts =
          check_ranks s.missing_rank reports devices
            (check_last reports s.missing_rank (codes "KV_BEGIN") passed) in
        ap (λ gs. check_target s.missing_rank gs hosts) targets
        ∙ (check_target-passes s.missing_rank g absent entered left
            ∙ (check_ranks-passes s.missing_rank reports devices reports-LastIs
                ∙ check_last-passes reports _ s.missing_rank (missing-LastIs at)))

    -- The report on the four ranks, and that it passes.
    analyze-passes :
        Memᴰ s.missing_rank devices
        → (reads : List Read) (u : Selection) → select reads ≡ ok u
        → u.ranks ≡ four a b c d
        → (r : Report) × (analyze reads (some devices) none ≡ some r)
          × (check_report s.missing_rank r ≡ passed)
    analyze-passes at reads u selected eq =
        let v : Selection = record { ranks = four a b c d; errors = u.errors } in
        let same : u ≡ v = ap (λ ranks. record u { ranks = ranks }) eq in
        let (cs, found, _, _) = find_cycles_decides Node-discrete (dependency_edges v.ranks) in
        (
          report_with (some devices) none v reports cs,
          analyze-ok reads (some devices) none (selected ∙ ap (λ w. ok w) same)
              ∙ analyze_selection_returns (some devices) none v reported found,
          report-passes at u.errors cs,
        )

  IsHung-reached_hang :
      (f : Snapshot)
      → IsComplete (IsHung s t) f
      → reached_hang s.missing_rank (λ rank. some (f rank).1) ≡ true
  unfolding reached_hang
  IsHung-reached_hang f h =
      let (a, (b, (c, (d, _)))) = h in
      rw
        (
          IsHung-rank_reached 4 (f 4).1 a.1,
          IsHung-rank_reached 5 (f 5).1 b.1,
          IsHung-rank_reached 6 (f 6).1 c.1,
          IsHung-rank_reached 7 (f 7).1 d.1,
        )
        refl

-- If one of the four ranks is to stay away, and each of the watchdog's snapshots has the files of all
-- four workers as they hang, whatever the options are and whatever the checkpoint library records in
-- between: `reached_hang` holds of each snapshot, `analyze` returns a report, and the report passes the
-- assertions of `run` on the collective and on the last host events.
pub analyze-finds_missing :
    (s : Settings) (t : ℕ → Setting) (f : Snapshot) (fs : List Snapshot)
    → Memᴰ s.missing_rank devices
    → All (IsComplete (IsHung s t)) (f ∷ fs)
    → (r : Report) × (analyze (reads_of (f ∷ fs)) (some devices) none ≡ some r)
      × (check_report s.missing_rank r ≡ passed)
      × All (λ g. reached_hang s.missing_rank (λ rank. some (g rank).1) ≡ true) (f ∷ fs)
analyze-finds_missing s t f fs at complete =
    let (u, selected, ks, held) = select-devices (IsHung s t) f fs complete in
    let (a, b, c, d, eq) = four-keys u.ranks ks in
    let (w, (x, (y, (z, _)))) = subst (Holds (IsHung s t)) eq held in
    let (r, returned, checked) =
      analyze-passes s t a b c d (w, x, y, z) at (reads_of (f ∷ fs)) u selected eq in
    (
      r,
      returned,
      checked,
      All-mono (IsComplete (IsHung s t)) _ (f ∷ fs) (IsHung-reached_hang s t) complete,
    )
