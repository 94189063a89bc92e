-- ===== src/Outputs/Lines/Evidence.antt =====
-- The section BLOCKING EVIDENCE of report.txt.
use hang_analyzer.Prelude.{
  ℕ, Option, none, some, List, [], ◌∷◌, ◌++◌, Text, codes, decimal, Dict, lookup, ℕ_discrete,
}
use hang_analyzer.Format.{Event}
use hang_analyzer.Analyzer.Collectives.{Collective}
use hang_analyzer.Analyzer.Report.{RankReport}
use hang_analyzer.Outputs.Shown.{f_string, show_list}

-- The line on the last host event of a rank, if the report has one.
unfoldable pub last_host_line : ℕ → Option Event → List Text
unfolding decimal
last_host_line rank none = []
last_host_line rank (some e) =
    f_string (
      codes "  rank "
      ∷ decimal rank
      ∷ codes " last host event: "
      ∷ e.type
      ∷ codes " corr="
      ∷ decimal e.correlation_id
      ∷ codes " stream="
      ∷ decimal e.stream
      ∷ codes " seq="
      ∷ decimal e.seq
      ∷ [])
    ∷ []

-- `d["last_host_event"] if d else None`
unfoldable pub last_host_of : Option RankReport → Option Event
last_host_of none = none
last_host_of (some d) = d.last_host_event

unfoldable pub last_host_lines : Dict ℕ RankReport → List ℕ → List Text
unfolding last_host_line last_host_of lookup
last_host_lines ranks [] = []
last_host_lines ranks (rank ∷ rest) =
    last_host_line rank (last_host_of (lookup ℕ_discrete rank ranks)) ++ last_host_lines ranks rest

-- The lines on a collective; `continue` gives none.
unfoldable pub evidence_of : Dict ℕ RankReport → Collective → List Text
unfolding decimal show_list last_host_lines
evidence_of ranks c = elim c.missing_expected [
  | [] ↦ []
  | _ ∷ _ ↦
      f_string (
        codes "comm="
        ∷ decimal c.communicator_id
        ∷ codes " op="
        ∷ decimal c.operation_id
        ∷ codes ": no HCCL_BEGIN observed for ranks "
        ∷ show_list c.missing_expected
        ∷ [])
      ∷ (last_host_lines ranks c.missing_expected
          ++ (last_host_lines ranks c.entered
              ++ codes
                  "  HCCL_END, if present, only proves Host API return; check DEVICE_SYNC_END/DEVICE_CONFIRMED."
                ∷ []))
]

-- BLOCKING EVIDENCE
unfoldable pub evidence_lines : Dict ℕ RankReport → List Collective → List Text
unfolding evidence_of
evidence_lines ranks [] = []
evidence_lines ranks (c ∷ cs) = evidence_of ranks c ++ evidence_lines ranks cs
