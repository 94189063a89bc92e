-- ===== src/FourCard/Hang.antt =====
-- What the flight file of a worker holds when it hangs: the worker's own records in their order, a
-- record for each submission, and, anywhere between them, those of the checkpoint library's poller.
pub mod Records
use hang_analyzer.Prelude.{
  ℕ, ◌≡◌, refl, sym, ap, ◌⊎◌, inl, inr, Bool, true, false, Bool-cases, ◌||◌, ◌&&◌, ◌==◌, not, ap₂,
  List, [], ◌∷◌, map, passing, if◌then◌else◌, Text, codes, text_eq, arith, ◌∙◌,
}
use hang_analyzer.Format.{Event}
use hang_analyzer.Analyzer.Scan.{PairKey, is_type, has_flag, checkpoint_submitted}
use hang_analyzer.Analyzer.Report.{is_host_event}
use hang_analyzer.Analyzer.Collectives.{ends_operation, any_ends}
use hang_analyzer.FourCard.{RecordCall, Action, record_call, submit_call, second_step, has_name}

-- What the recorder adds to a call.
pub record Stamp : Type 0 where
  pub timestamp_ns : ℕ
  pub seq : ℕ
  pub pid : ℕ
  pub tid : ℕ
  pub device : ℕ
  pub rank : ℕ

-- The event of a call.
abbrev pub event_of : Stamp → RecordCall → Event
event_of m c = record {
  timestamp_ns = m.timestamp_ns;
  seq = m.seq;
  pid = m.pid;
  tid = m.tid;
  device = m.device;
  rank = m.rank;
  stream = c.stream;
  type = c.name;
  flags = 0;
  correlation_id = c.correlation;
  arg0 = c.arg0;
  arg1 = c.arg1;
}

-- An event of the poller: a confirmation, or an observation on a checkpoint that is no submission.
abbrev pub IsPolled : Event → Type 0
IsPolled e =
    (e.type ≡ codes "DEVICE_CONFIRMED")
    ⊎ (e.type ≡ codes "CHECKPOINT") × (has_flag checkpoint_submitted e ≡ false)

-- An action that leaves no event itself.
unfoldable pub is_silent : Action → Bool
is_silent (record_call c) = false
is_silent (submit_call stream id) = false
is_silent _ = true

pub data Trace : List Action → List Event → Type 0 where
  ended : Trace [] []
  recorded :
      {actions : List Action} {es : List Event} (m : Stamp) (c : RecordCall)
      → Trace actions es
      → Trace (record_call c ∷ actions) (event_of m c ∷ es)
  submitted :
      {actions : List Action} {es : List Event} (stream id : ℕ) (e : Event)
      → e.type ≡ codes "CHECKPOINT"
      → has_flag checkpoint_submitted e ≡ true
      → Trace actions es
      → Trace (submit_call stream id ∷ actions) (e ∷ es)
  silent :
      {actions : List Action} {es : List Event} (a : Action)
      → is_silent a ≡ true
      → Trace actions es
      → Trace (a ∷ actions) es
  polled :
      {actions : List Action} {es : List Event} (e : Event)
      → IsPolled e
      → Trace actions es
      → Trace actions (e ∷ es)

-- The keys of the collectives that the calls begin.
unfoldable pub begun : List Action → List PairKey
unfolding text_eq
begun [] = []
begun (record_call c ∷ actions) =
    let rest = begun actions in
    if text_eq c.name (codes "HCCL_BEGIN") then (c.arg0, c.correlation) ∷ rest else rest
begun (_ ∷ actions) = begun actions

-- The types of the host events.
unfoldable pub shown : List Action → List Text
unfolding text_eq
shown [] = []
shown (record_call c ∷ actions) =
    let rest = shown actions in
    if text_eq c.name (codes "DEVICE_CONFIRMED") || text_eq c.name (codes "CHECKPOINT")
    then rest
    else c.name ∷ rest
shown (submit_call stream id ∷ actions) = codes "CHECKPOINT" ∷ shown actions
shown (_ ∷ actions) = shown actions

-- Whether a call of the second step has the name.
unfoldable pub calls_name : Text → List Action → Bool
unfolding text_eq
calls_name name [] = false
calls_name name (record_call c ∷ actions) =
    let rest = calls_name name actions in
    if text_eq c.name name && c.correlation == 2 then true else rest
calls_name name (_ ∷ actions) = calls_name name actions

-- Whether a call ends the collective.
unfoldable pub ends : PairKey → List Action → Bool
unfolding text_eq
ends key [] = false
ends key (record_call c ∷ actions) =
    let rest = ends key actions in
    if ends_operation key
      (event_of (record { timestamp_ns = 0; seq = 0; pid = 0; tid = 0; device = 0; rank = 0 }) c)
    then true
    else rest
ends key (_ ∷ actions) = ends key actions

-- The key of the collective of an event.
abbrev pub group_key : Event → PairKey
group_key e = (e.arg0, e.correlation_id)

abbrev pub begins : Event → Bool
begins = is_type (codes "HCCL_BEGIN")
