-- ===== src/MsptiRing/Calls.antt =====
-- The calls that `report` lists as entered and not left.
pub mod Balanced
use mathlib.Core.List.{reverse}
use hang_analyzer.Prelude.{
  ℕ, ◌==◌, Bool, ◌||◌, none, some, List, [], ◌∷◌, ◌++◌, if◌then◌else◌, sort_by, Text, codes,
  text_eq, Dict, values, lookup, insert, ℕ_discrete,
}
use hang_analyzer.MsptiRing.{RingEvent}

-- The part of the kind before the first `_`, the thread and the callback.
abbrev pub CallKey : Type 0
CallKey = Text × ℕ × ℕ

unfoldable pub CallKey-discrete : Discrete CallKey
CallKey-discrete = hlevel ℕ_discrete

-- `kind.split("_")[0]`
unfoldable pub before_underscore : Text → Text
before_underscore [] = []
before_underscore (c ∷ cs) = let rest = before_underscore cs in if c == 95 then [] else c ∷ rest

unfoldable pub call_key : RingEvent → CallKey
unfolding before_underscore
call_key e = (before_underscore e.kind, e.tid, e.code)

unfoldable pub enters_call : RingEvent → Bool
unfolding text_eq
enters_call e = text_eq e.kind (codes "runtime_enter") || text_eq e.kind (codes "hccl_enter")

unfoldable pub leaves_call : RingEvent → Bool
unfolding text_eq
leaves_call e = text_eq e.kind (codes "runtime_exit") || text_eq e.kind (codes "hccl_exit")

-- `pending[key]` of a `defaultdict(list)`; the last entry of a stack stands first here.
unfoldable pub stack_of : CallKey → Dict CallKey (List RingEvent) → List RingEvent
unfolding lookup
stack_of key pending = elim (lookup CallKey-discrete key pending) [ none ↦ [] | some l ↦ l ]

-- `pop` on a stack that is not empty
unfoldable pub pop : List RingEvent → List RingEvent
pop [] = []
pop (e ∷ es) = es

unfoldable pub track_call :
    RingEvent → Dict CallKey (List RingEvent) → Dict CallKey (List RingEvent)
unfolding stack_of insert enters_call leaves_call call_key pop
track_call e pending =
    let stack = stack_of (call_key e) pending in
    if enters_call e
    then insert CallKey-discrete (call_key e) (e ∷ stack) pending
    else if leaves_call e
    then insert CallKey-discrete (call_key e) (pop stack) pending
    else pending

unfoldable pub track_calls :
    List RingEvent → Dict CallKey (List RingEvent) → Dict CallKey (List RingEvent)
unfolding track_call
track_calls [] pending = pending
track_calls (e ∷ es) pending = track_calls es (track_call e pending)

-- The stacks one behind the other, each from its first entry on.
unfoldable pub concat : List (List RingEvent) → List RingEvent
concat [] = []
concat (l ∷ ls) = reverse l ++ concat ls

-- `open_calls`
unfoldable pub open_calls : List RingEvent → List RingEvent
unfolding track_calls concat sort_by
open_calls es = sort_by (λ (e : RingEvent). e.seq) (concat (values (track_calls es [])))
