-- ===== src/Analyzer/Ranks.antt =====
-- The scan of all ranks, in ascending order, into what they share.
use hang_analyzer.Prelude.{ℕ, [], ◌∷◌, sort_by, Dict}
use hang_analyzer.Analyzer.Select.{RankData}
use hang_analyzer.Analyzer.Scan.{Shared, scan_events_shared}

unfoldable pub scan_ranks : Dict ℕ RankData → Shared → Shared
unfolding scan_events_shared
scan_ranks [] s = s
scan_ranks ((rank, d) ∷ rest) s = scan_ranks rest (scan_events_shared rank d.events s)

abbrev pub sorted_ranks : Dict ℕ RankData → Dict ℕ RankData
sorted_ranks ranks = sort_by (λ e. e.0) ranks

abbrev pub shared_of : Dict ℕ RankData → Shared
shared_of ranks =
    scan_ranks (sorted_ranks ranks) (record { groups = []; event_producers = []; waits = [] })
