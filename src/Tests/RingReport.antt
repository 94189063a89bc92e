-- ===== src/Tests/RingReport.antt =====
-- A ring with a kernel that an activity of the Runtime API has started, one that none has, and a
-- collective on the stream of the second.
use hang_analyzer.Prelude.{
  ℕ, ◌≡◌, refl, ◌↔◌, true, List, [], ◌∷◌, Memᴰ, Text, codes, text_eq, decimal, lookup, insert,
  passing, contains, ℕ_discrete, Text-discrete, sort_with, ◌*◌,
}
use hang_analyzer.MsptiRing.{RingEvent}
use hang_analyzer.Outputs.Shown.{join, padded_left, padded_right}
use hang_analyzer.MsptiRing.Report.{wrap_lines, device_text, recent_line}
use hang_analyzer.MsptiRing.Report.Activities.{
  has_kind, is_api, api_by_correlation, kernels_of, joined_of, kind_of_kernel, count_types, text_le,
  type_texts, kernel_lines, StreamKey, StreamKey-discrete, is_done, last_by_stream, stream_le,
  stream_rows, stream_line, rows_or_none, last_lines,
}
use hang_analyzer.MsptiRing.Report.Rows.{HasApi, IsLastDone, report-selects}

abbrev record_of : Text → (seq corr device stream : ℕ) → Text → RingEvent
record_of kind seq corr device stream detail = record {
  seq = seq;
  observed_ns = 100 * seq;
  start_ns = 0;
  end_ns = 0;
  correlation_id = corr;
  pid = 7;
  tid = 8;
  device = device;
  stream = stream;
  kind = kind;
  flags = 0;
  code = 3;
  name = codes "op";
  detail = detail;
}

abbrev ring_events : List RingEvent
ring_events =
    record_of (codes "runtime_api_done") 2 40 4294967295 0 []
    ∷ record_of (codes "kernel_done") 3 40 4 1 (codes "MIX")
    ∷ record_of (codes "kernel_done") 4 41 4 0 []
    ∷ record_of (codes "hccl_done") 5 0 4 0 []
    ∷ []

report-selects_example :
    ((e : RingEvent)
      → Memᴰ e (joined_of ring_events)
        ↔ (Memᴰ e ring_events × (has_kind (codes "kernel_done") e ≡ true) × HasApi e ring_events))
    × ((k : StreamKey) (e : RingEvent)
        → Memᴰ (k, e) (stream_rows ring_events) ↔ IsLastDone k e ring_events)
report-selects_example = report-selects ring_events

kernel_lines-ring_events :
    kernel_lines ring_events
    ≡ codes "completed kernels with matching Runtime API Activity correlation: 1/2"
      ∷ codes "completed Kernel Activity types: MIX=1, unknown=1"
      ∷ []
unfolding kernel_lines joined_of kernels_of api_by_correlation count_types type_texts text_le
    kind_of_kernel has_kind is_api text_eq passing contains insert lookup join decimal sort_with
    ℕ_discrete Text-discrete
kernel_lines-ring_events = refl

last_lines-ring_events :
    last_lines ring_events
    ≡ codes "last delivered completed activity per stream:"
      ∷ codes "  device=4 stream=0 #5 hccl_done corr=0 op []"
      ∷ codes "  device=4 stream=1 #3 kernel_done corr=40 op [MIX]"
      ∷ []
unfolding last_lines rows_or_none stream_rows stream_line stream_le last_by_stream is_done has_kind
    text_eq insert decimal sort_with StreamKey-discrete ℕ_discrete
last_lines-ring_events = refl

wrap_lines-ring_events :
    wrap_lines ring_events
    ≡ codes "WARNING: ring wrapped; unmatched entries can be older than retained data" ∷ []
unfolding wrap_lines
wrap_lines-ring_events = refl

recent_line-kernel :
    recent_line
      (λ a b. codes "     0.000")
      0
      (record_of (codes "kernel_done") 3 40 4 1 (codes "MIX"))
    ≡ codes "  +     0.000ms #       3 kernel_done      corr=40 device=4 stream=1 code=3 op [MIX]"
unfolding recent_line padded_left padded_right device_text decimal
recent_line-kernel = refl
