-- ===== src/MsptiRing/Report/Activities.antt =====
-- The completed activities of a ring in `report`: the kernels that an activity of the Runtime API has
-- started, their types, and the last activity of each stream.
use hang_analyzer.Prelude.{
  ℕ, ◌+◌, ◌==◌, ltb, leb, Bool, true, false, not, ◌&&◌, ◌||◌, none, some, List, [], ◌∷◌, map,
  length, passing, contains, if◌then◌else◌, sort_with, Text, codes, text_eq, decimal, Text-discrete,
  Dict, keys, lookup, insert, ℕ_discrete,
}
use hang_analyzer.Outputs.Shown.{f_string, join}
use hang_analyzer.MsptiRing.{RingEvent}

-- `e["kind"] == name`
unfoldable pub has_kind : Text → RingEvent → Bool
unfolding text_eq
has_kind name e = text_eq e.kind name

-- `f"{key}={count}"`
abbrev pub count_text : Text → ℕ → Text
count_text key count = f_string (key ∷ codes "=" ∷ decimal count ∷ [])

-- `e["kind"] == "runtime_api_done" and e["correlation_id"]`
unfoldable pub is_api : RingEvent → Bool
unfolding has_kind
is_api e = has_kind (codes "runtime_api_done") e && not (e.correlation_id == 0)

-- `api_by_correlation`
unfoldable pub api_by_correlation : List RingEvent → Dict ℕ RingEvent → Dict ℕ RingEvent
unfolding is_api insert
api_by_correlation [] apis = apis
api_by_correlation (e ∷ es) apis =
    api_by_correlation es (if is_api e then insert ℕ_discrete e.correlation_id e apis else apis)

unfoldable pub kernels_of : List RingEvent → List RingEvent
unfolding has_kind passing
kernels_of events = passing (has_kind (codes "kernel_done")) events

-- `joined`
unfoldable pub joined_of : List RingEvent → List RingEvent
unfolding kernels_of api_by_correlation passing contains
joined_of events =
    passing (λ e. contains ℕ_discrete e.correlation_id (keys (api_by_correlation events [])))
      (kernels_of events)

-- `e["detail"] or "unknown"`
unfoldable pub kind_of_kernel : RingEvent → Text
kind_of_kernel e = elim e.detail [ [] ↦ codes "unknown" | c ∷ cs ↦ c ∷ cs ]

-- `Counter(...)`
unfoldable pub count_types : List RingEvent → Dict Text ℕ → Dict Text ℕ
unfolding kind_of_kernel insert lookup
count_types [] types = types
count_types (e ∷ es) types =
    let seen : ℕ = elim (lookup Text-discrete (kind_of_kernel e) types) [ none ↦ 0 | some n ↦ n ] in
    count_types es (insert Text-discrete (kind_of_kernel e) (seen + 1) types)

-- `s <= t` of texts
unfoldable pub text_le : Text → Text → Bool
text_le [] t = true
text_le (a ∷ s) [] = false
text_le (a ∷ s) (b ∷ t) = let rest = text_le s t in if a == b then rest else ltb a b

unfoldable pub type_texts : Dict Text ℕ → Text
unfolding sort_with text_le join decimal
type_texts [] = codes "none"
type_texts (p ∷ ps) =
    join (codes ", ")
      (map (λ (q : Text × ℕ). count_text q.0 q.1) (sort_with (λ q r. text_le q.0 r.0) (p ∷ ps)))

unfoldable pub kernel_lines : List RingEvent → List Text
unfolding joined_of count_types type_texts
kernel_lines events =
    let kernels = kernels_of events in
    f_string (
      codes "completed kernels with matching Runtime API Activity correlation: "
      ∷ decimal (length (joined_of events))
      ∷ codes "/"
      ∷ decimal (length kernels)
      ∷ [])
    ∷ f_string
        (codes "completed Kernel Activity types: " ∷ type_texts (count_types kernels []) ∷ [])
    ∷ []

-- `(e["device"], e["stream"])`
abbrev pub StreamKey : Type 0
StreamKey = ℕ × ℕ

unfoldable pub StreamKey-discrete : Discrete StreamKey
StreamKey-discrete = hlevel ℕ_discrete

abbrev pub stream_key : RingEvent → StreamKey
stream_key e = (e.device, e.stream)

-- `e["kind"] in ("kernel_done", "hccl_done")`
unfoldable pub is_done : RingEvent → Bool
unfolding has_kind
is_done e = has_kind (codes "kernel_done") e || has_kind (codes "hccl_done") e

-- `last_by_stream`
unfoldable pub last_by_stream : List RingEvent → Dict StreamKey RingEvent → Dict StreamKey RingEvent
unfolding is_done insert
last_by_stream [] last = last
last_by_stream (e ∷ es) last =
    last_by_stream es (if is_done e then insert StreamKey-discrete (stream_key e) e last else last)

unfoldable pub stream_le : StreamKey → StreamKey → Bool
stream_le (a, b) (c, d) = ltb a c || (a == c && leb b d)

-- `sorted(last_by_stream.items())`: no two keys are the same.
unfoldable pub stream_rows : List RingEvent → List (StreamKey × RingEvent)
unfolding last_by_stream sort_with stream_le
stream_rows events = sort_with (λ p q. stream_le p.0 q.0) (last_by_stream events [])

unfoldable pub stream_line : StreamKey × RingEvent → Text
unfolding decimal
stream_line ((device, stream), e) = f_string (
    codes "  device="
    ∷ decimal device
    ∷ codes " stream="
    ∷ decimal stream
    ∷ codes " #"
    ∷ decimal e.seq
    ∷ codes " "
    ∷ e.kind
    ∷ codes " corr="
    ∷ decimal e.correlation_id
    ∷ codes " "
    ∷ e.name
    ∷ codes " ["
    ∷ e.detail
    ∷ codes "]"
    ∷ [])

-- The lines of the streams, or `none`.
unfoldable pub rows_or_none : List (StreamKey × RingEvent) → List Text
unfolding stream_line
rows_or_none [] = codes "  none" ∷ []
rows_or_none (r ∷ rs) = map stream_line (r ∷ rs)

unfoldable pub last_lines : List RingEvent → List Text
unfolding stream_rows rows_or_none
last_lines events =
    codes "last delivered completed activity per stream:" ∷ rows_or_none (stream_rows events)
