-- ===== src/MsptiRing/Report.antt =====
-- The lines of `report`, behind those of `read_ring`. The two f-strings that show a float, the time of an
-- observation in milliseconds, are a parameter.
pub mod Activities
pub mod Rows
use mathlib.Core.Option
use mathlib.Core.List.{◌++◌}
use hang_analyzer.Prelude.{
  ℕ, zero, suc, ◌+◌, ◌-◌, ◌==◌, ltb, leb, Bool, true, false, not, ◌&&◌, ◌||◌, Option, none, some,
  List, [], ◌∷◌, map, length, drop, passing, contains, if◌then◌else◌, sort_with, Text, codes,
  text_eq, decimal, Text-discrete, Dict, keys, values, lookup, insert, ℕ_discrete,
}
use hang_analyzer.Prelude.Result.{Result, ◌>>=◌, ok}
use hang_analyzer.Format.{Bytes}
use hang_analyzer.Outputs.Shown.{f_string, join, padded_left, padded_right}
use hang_analyzer.MsptiRing.{labels, RingHeader, RingEvent, Views, read_ring}
use hang_analyzer.MsptiRing.Calls.{open_calls}
use hang_analyzer.MsptiRing.Report.Activities.{has_kind, count_text, kernel_lines, last_lines}

-- `count[key]`
unfoldable pub count_of_kind : List RingEvent → Text → ℕ
unfolding has_kind passing
count_of_kind events key = length (passing (has_kind key) events)

unfoldable pub head_lines : Text → RingHeader → ℕ → List RingEvent → List Text
unfolding decimal count_of_kind join
head_lines path h overwritten events =
    f_string (codes "file: " ∷ path ∷ [])
    ∷ f_string (
        codes "pid: "
        ∷ decimal h.pid
        ∷ codes "  records: "
        ∷ decimal (length events)
        ∷ codes "  overwritten: "
        ∷ decimal overwritten
        ∷ codes "  dropped_buffers: "
        ∷ decimal h.dropped
        ∷ [])
    ∷ f_string (
        codes "counts: "
        ∷ join (codes ", ") (map (λ key. count_text key (count_of_kind events key)) (values labels))
        ∷ [])
    ∷ []

unfoldable pub open_line : RingEvent → Text
unfolding decimal
open_line e = f_string (
    codes "  seq="
    ∷ decimal e.seq
    ∷ codes " "
    ∷ e.kind
    ∷ codes " tid="
    ∷ decimal e.tid
    ∷ codes " corr="
    ∷ decimal e.correlation_id
    ∷ codes " "
    ∷ e.name
    ∷ [])

-- `items[-n:]` for a number `n`; `-0` is 0.
abbrev pub last_items {ℓ} : {A : Type ℓ} → ℕ → List A → List A
last_items n items = if n == 0 then items else drop (length items - n) items

unfoldable pub open_lines : List RingEvent → List Text
unfolding open_calls open_line decimal
open_lines events =
    let calls = open_calls events in
    f_string
      (codes "callback entries without exits in retained window: " ∷ decimal (length calls) ∷ [])
    ∷ map open_line (last_items 20 calls)

-- `if events and events[0]["seq"] > 1`
unfoldable pub wrap_lines : List RingEvent → List Text
wrap_lines [] = []
wrap_lines (e ∷ es) =
    if ltb 1 e.seq
    then codes "WARNING: ring wrapped; unmatched entries can be older than retained data" ∷ []
    else []

-- `dev`; 0xFFFFFFFF stands for no device.
unfoldable pub device_text : RingEvent → Text
unfolding decimal
device_text e =
    if e.device == 4294967295
    then []
    else f_string (codes " device=" ∷ decimal e.device ∷ codes " stream=" ∷ decimal e.stream ∷ [])

-- The last line.
abbrev pub interpretation : Text
interpretation = f_string (
    codes "Interpretation: *_done means a completed activity record was delivered to host; "
    ∷ codes
        "an absent record cannot prove that a kernel never ran. Callback exit means API returned, "
    ∷ codes "not device completion. Callback correlation IDs are not assumed reliable; "
    ∷ codes "match enter/exit by thread and callback ID."
    ∷ [])

-- `millis observed start` is `f"{(observed - start) / 1e6:10.3f}"`.
module _ (millis : ℕ → ℕ → Text) where
  unfoldable pub recent_line : ℕ → RingEvent → Text
  unfolding padded_left padded_right device_text decimal
  recent_line mono e = f_string (
      codes "  +"
      ∷ millis e.observed_ns mono
      ∷ codes "ms #"
      ∷ padded_left 8 (decimal e.seq)
      ∷ codes " "
      ∷ padded_right 16 e.kind
      ∷ codes " corr="
      ∷ decimal e.correlation_id
      ∷ device_text e
      ∷ codes " code="
      ∷ decimal e.code
      ∷ codes " "
      ∷ e.name
      ∷ codes " ["
      ∷ e.detail
      ∷ codes "]"
      ∷ [])

  unfoldable pub recent_lines : ℕ → ℕ → List RingEvent → List Text
  unfolding recent_line
  recent_lines tail mono events =
      codes "recent observations (device start/end use msPTI clock, not host monotonic clock):"
      ∷ map (recent_line mono) (last_items tail events)

  unfoldable pub ring_lines : Text → ℕ → RingHeader × ℕ × List RingEvent → List Text
  unfolding head_lines open_lines kernel_lines last_lines wrap_lines recent_lines
  ring_lines path tail (h, overwritten, events) =
      head_lines path h overwritten events
      ++ (open_lines events
          ++ (kernel_lines events
              ++ (last_lines events
                  ++ (wrap_lines events
                      ++ (recent_lines tail h.mono_ns events ++ interpretation ∷ [])))))

  -- `report`, with a `tail` that is not negative.
  unfoldable pub report_ring : (Bytes → Text) → Text → ℕ → Bytes → (ℕ → Views) → Result Text
  unfolding read_ring ring_lines join
  report_ring decode_utf8 path tail mapped views = do
    r ← read_ring decode_utf8 mapped views
    ok (join (codes "\n") (ring_lines path tail r))
