-- ===== src/FourCard/Hang/Records.antt =====
-- What of a worker's calls is found in its flight file.
use hang_analyzer.Prelude.{
  ◌≡◌, refl, sym, ap, ◌⊎◌, inl, inr, true, false, Bool-cases, ◌||◌, ◌&&◌, ◌==◌, not, ap₂, List, ◌∷◌,
  map, passing, Text, codes, text_eq, arith, ◌∙◌,
}
use hang_analyzer.Format.{Event}
use hang_analyzer.Analyzer.Scan.{PairKey, is_type, has_flag, checkpoint_submitted}
use hang_analyzer.Analyzer.Report.{is_host_event}
use hang_analyzer.Analyzer.Collectives.{ends_operation, any_ends}
use hang_analyzer.FourCard.{RecordCall, Action, record_call, submit_call, second_step, has_name}
use hang_analyzer.FourCard.Hang.{
  Stamp, event_of, IsPolled, is_silent, Trace, recorded, submitted, silent, polled, ended, begun,
  shown, calls_name, ends, group_key, begins,
}

silent-begun :
    (a : Action) (actions : List Action) → is_silent a ≡ true → begun (a ∷ actions) ≡ begun actions
unfolding is_silent begun
silent-begun (record_call c) actions h = cc
silent-begun (submit_call stream id) actions h = cc
silent-begun _ actions h = refl

silent-shown :
    (a : Action) (actions : List Action) → is_silent a ≡ true → shown (a ∷ actions) ≡ shown actions
unfolding is_silent shown
silent-shown (record_call c) actions h = cc
silent-shown (submit_call stream id) actions h = cc
silent-shown _ actions h = refl

silent-ends :
    (key : PairKey) (a : Action) (actions : List Action)
    → is_silent a ≡ true
    → ends key (a ∷ actions) ≡ ends key actions
unfolding is_silent ends
silent-ends key (record_call c) actions h = cc
silent-ends key (submit_call stream id) actions h = cc
silent-ends key _ actions h = refl

-- An event of the library is none of the collectives'.
library-begins :
    (e : Event)
    → (e.type ≡ codes "DEVICE_CONFIRMED") ⊎ (e.type ≡ codes "CHECKPOINT")
    → begins e ≡ false
unfolding is_type text_eq
library-begins e (inl h) = rw h refl
library-begins e (inr h) = rw h refl

-- The collectives that the events begin are those of the calls.
pub Trace-begun :
    {actions : List Action} {es : List Event}
    → Trace actions es
    → map group_key (passing begins es) ≡ begun actions
unfolding begun passing is_type
Trace-begun ended = refl
Trace-begun (recorded m c t) = elim (Bool-cases (text_eq c.name (codes "HCCL_BEGIN"))) [
  | inl h ↦ rw h (ap (λ ks. (c.arg0, c.correlation) ∷ ks) (Trace-begun t))
  | inr h ↦ rw h (Trace-begun t)
]
Trace-begun (submitted stream id e h f t) = rw (library-begins e (inr h)) (Trace-begun t)
Trace-begun (silent a h t) = Trace-begun t ∙ sym (silent-begun a _ h)
Trace-begun (polled e (inl h) t) = rw (library-begins e (inl h)) (Trace-begun t)
Trace-begun (polled e (inr h) t) = rw (library-begins e (inr h.0)) (Trace-begun t)

library-ends :
    (key : PairKey) (e : Event)
    → (e.type ≡ codes "DEVICE_CONFIRMED") ⊎ (e.type ≡ codes "CHECKPOINT")
    → ends_operation key e ≡ false
unfolding ends_operation is_type text_eq
library-ends key e (inl h) = rw h refl
library-ends key e (inr h) = rw h refl

-- The events end the collectives that the calls end.
pub Trace-ends :
    (key : PairKey) {actions : List Action} {es : List Event}
    → Trace actions es
    → any_ends key es ≡ ends key actions
unfolding ends any_ends ends_operation is_type
Trace-ends key ended = refl
Trace-ends key (recorded m c t) = ground (arith, Trace-ends key t)
Trace-ends key (submitted stream id e h f t) = rw (library-ends key e (inr h)) (Trace-ends key t)
Trace-ends key (silent a h t) = Trace-ends key t ∙ sym (silent-ends key a _ h)
Trace-ends key (polled e (inl h) t) = rw (library-ends key e (inl h)) (Trace-ends key t)
Trace-ends key (polled e (inr h) t) = rw (library-ends key e (inr h.0)) (Trace-ends key t)

submitted-is_host_event :
    (e : Event)
    → e.type ≡ codes "CHECKPOINT"
    → has_flag checkpoint_submitted e ≡ true
    → is_host_event e ≡ true
unfolding is_host_event is_type text_eq
submitted-is_host_event e h f = rw (h, f) refl

polled-is_host_event : (e : Event) → IsPolled e → is_host_event e ≡ false
unfolding is_host_event is_type text_eq
polled-is_host_event e (inl h) = rw h refl
polled-is_host_event e (inr (h, f)) = rw (h, f) refl

called-is_host_event :
    (m : Stamp) (c : RecordCall)
    → is_host_event (event_of m c)
      ≡ not (text_eq c.name (codes "DEVICE_CONFIRMED") || text_eq c.name (codes "CHECKPOINT"))
unfolding is_host_event is_type has_flag
called-is_host_event m c = ground arith

-- The types of the host events are those of the worker's records and submissions.
pub Trace-shown :
    {actions : List Action} {es : List Event}
    → Trace actions es
    → map (λ (e : Event). e.type) (passing is_host_event es) ≡ shown actions
unfolding shown passing
Trace-shown ended = refl
Trace-shown (recorded m c t) =
    rw (called-is_host_event m c)
      (elim (Bool-cases
        (text_eq c.name (codes "DEVICE_CONFIRMED") || text_eq c.name (codes "CHECKPOINT"))) [
          | inl h ↦ rw h (Trace-shown t)
          | inr h ↦ rw h (ap (λ ts. c.name ∷ ts) (Trace-shown t))
        ])
Trace-shown (submitted stream id e h f t) =
    rw (submitted-is_host_event e h f) (ap₂ (λ n ts. n ∷ ts) h (Trace-shown t))
Trace-shown (silent a h t) = Trace-shown t ∙ sym (silent-shown a _ h)
Trace-shown (polled e p t) = rw (polled-is_host_event e p) (Trace-shown t)

silent-calls_name :
    (name : Text) (a : Action) (actions : List Action)
    → is_silent a ≡ true
    → calls_name name (a ∷ actions) ≡ calls_name name actions
unfolding is_silent calls_name
silent-calls_name name (record_call c) actions h = cc
silent-calls_name name (submit_call stream id) actions h = cc
silent-calls_name name _ actions h = refl

more_names :
    (name : Text) (e : Event) (es : List Event)
    → has_name name (second_step es) ≡ true
    → has_name name (second_step (e ∷ es)) ≡ true
unfolding has_name second_step passing
more_names name e es h = ground arith

-- A name that the second step calls is found in the file.
pub Trace-has_name :
    (name : Text) {actions : List Action} {es : List Event}
    → Trace actions es
    → calls_name name actions ≡ true
    → has_name name (second_step es) ≡ true
unfolding calls_name
Trace-has_name name ended q = cc
Trace-has_name name (recorded m c t) q =
    elim (Bool-cases (text_eq c.name name && c.correlation == 2)) [
      | inl h ↦ unfold has_name second_step passing in ground arith
      | inr h ↦ more_names name _ _ (Trace-has_name name t (ground arith))
    ]
Trace-has_name name (submitted stream id e h f t) q = more_names name e _ (Trace-has_name name t q)
Trace-has_name name (silent a h t) q =
    Trace-has_name name t (sym (silent-calls_name name a _ h) ∙ q)
Trace-has_name name (polled e p t) q = more_names name e _ (Trace-has_name name t q)
