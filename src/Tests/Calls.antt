-- ===== src/Tests/Calls.antt =====
-- The open calls of an msPTI ring: one call inside another, on one thread.
use hang_analyzer.Prelude.{ℕ_discrete, ℕ, ◌≡◌, refl, [], ◌∷◌, Text, codes}
use hang_analyzer.MsptiRing.{RingEvent}
use hang_analyzer.MsptiRing.Calls.{
  CallKey, CallKey-discrete, call_key, enters_call, leaves_call, stack_of, track_call, track_calls,
  open_calls,
}
use hang_analyzer.MsptiRing.Calls.Balanced.{Leaves, IsBalanced, empty, call, track_calls-open}

abbrev event : ℕ → Text → RingEvent
event seq kind = record {
  seq = seq;
  observed_ns = 10;
  start_ns = 0;
  end_ns = 0;
  correlation_id = 1;
  pid = 7;
  tid = 8;
  device = 0;
  stream = 0;
  kind = kind;
  flags = 0;
  code = 3;
  name = codes "f";
  detail = [];
}

abbrev outer : RingEvent
outer = event 1 (codes "runtime_enter")

abbrev inner : RingEvent
inner = event 2 (codes "runtime_enter")

abbrev inner_exit : RingEvent
inner_exit = event 3 (codes "runtime_exit")

open_calls-outer : open_calls (outer ∷ inner ∷ inner_exit ∷ []) ≡ outer ∷ []
unfolding open_calls CallKey-discrete ℕ_discrete
open_calls-outer = refl

abbrev key : CallKey
key = (codes "runtime", 8, 3)

inner-IsBalanced : IsBalanced key (inner ∷ inner_exit ∷ [])
unfolding enters_call leaves_call call_key
inner-IsBalanced = call inner [] inner_exit [] (refl, refl) empty (refl, refl, refl) empty

track_calls-open_example :
    (stack_of key (track_calls (outer ∷ inner ∷ inner_exit ∷ []) [])
      ≡ outer ∷ stack_of key (track_calls [] []))
    × ((e : RingEvent)
        → Leaves key e
        → stack_of key (track_call e (track_calls (outer ∷ inner ∷ inner_exit ∷ []) []))
          ≡ stack_of key (track_calls [] []))
unfolding enters_call call_key
track_calls-open_example =
    track_calls-open key [] outer (inner ∷ inner_exit ∷ []) (refl, refl) inner-IsBalanced
