-- ===== src/Analyzer/Scan/Collected.antt =====
-- The lists that the scan of a rank collects are the events that pass a test, in their order.
use mathlib.Core.List.{append-nil, append_assoc}
use Prim.Native.Nat.{bit_or}
use hang_analyzer.Prelude.{
  ◌≡◌, sym, ◌∙◌, Bool, ◌&&◌, inl, inr, List, passing, [], ◌∷◌, ◌++◌, codes, Bool-cases,
}
use hang_analyzer.Format.{Event}
use hang_analyzer.Analyzer.Scan.{
  RankScan, scan_rank, scan_events, fresh, append_if, is_type, has_flag, checkpoint_submitted,
  checkpoint_pool_full, checkpoint_query_error, checkpoint_not_ready,
}

abbrev pub is_confirmation : Event → Bool
is_confirmation = is_type (codes "DEVICE_CONFIRMED")

abbrev pub is_submission : Event → Bool
is_submission e = is_type (codes "CHECKPOINT") e && has_flag checkpoint_submitted e

abbrev pub is_warning : Event → Bool
is_warning e =
    is_type (codes "CHECKPOINT") e
    && has_flag (bit_or checkpoint_pool_full checkpoint_query_error) e

abbrev pub is_not_ready : Event → Bool
is_not_ready e = is_type (codes "CHECKPOINT") e && has_flag checkpoint_not_ready e

append_if-passing :
    (p : Event → Bool) (e : Event) (l r : List Event)
    → append_if (p e) e l ++ passing p r ≡ l ++ passing p (e ∷ r)
unfolding append_if passing
append_if-passing p e l r = elim (Bool-cases (p e)) [
  | inl h ↦ rw h (append_assoc l (e ∷ []) (passing p r))
  | inr h ↦ rw h
]

record Collects (es : List Event) (s t : RankScan) : Type 0 where
  confirmed : t.confirmed ≡ s.confirmed ++ passing is_confirmation es
  submitted : t.checkpoint_submitted ≡ s.checkpoint_submitted ++ passing is_submission es
  warnings : t.checkpoint_warnings ≡ s.checkpoint_warnings ++ passing is_warning es
  not_ready : t.not_ready_observations ≡ s.not_ready_observations ++ passing is_not_ready es

scan_events-Collects : (es : List Event) (s : RankScan) → Collects es s (scan_events es s)
unfolding scan_events passing scan_rank
scan_events-Collects [] s = record {
  confirmed = sym (append-nil _);
  submitted = sym (append-nil _);
  warnings = sym (append-nil _);
  not_ready = sym (append-nil _);
}
scan_events-Collects (e ∷ es) s =
    let r = scan_events-Collects es (scan_rank e s) in
    record {
      confirmed = r.confirmed ∙ append_if-passing is_confirmation e s.confirmed es;
      submitted = r.submitted ∙ append_if-passing is_submission e s.checkpoint_submitted es;
      warnings = r.warnings ∙ append_if-passing is_warning e s.checkpoint_warnings es;
      not_ready = r.not_ready ∙ append_if-passing is_not_ready e s.not_ready_observations es;
    }

-- The scan of a rank keeps, in their order, the confirmations, the submitted checkpoints, the
-- checkpoints with a full pool or a failed query, and those that were not ready.
pub scan_events-collects :
    (es : List Event)
    → ((scan_events es fresh).confirmed ≡ passing is_confirmation es)
      × ((scan_events es fresh).checkpoint_submitted ≡ passing is_submission es)
      × ((scan_events es fresh).checkpoint_warnings ≡ passing is_warning es)
      × ((scan_events es fresh).not_ready_observations ≡ passing is_not_ready es)
scan_events-collects es =
    let r = scan_events-Collects es fresh in (r.confirmed, r.submitted, r.warnings, r.not_ready)
