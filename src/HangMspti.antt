-- ===== src/HangMspti.antt =====
-- python/hang_mspti.py: `start`, its `worker`, `_enabled` and `stop`. The native library enters by its
-- results, which are error numbers; the calls of it are logged with their results.
pub mod Protocol
pub mod Rounds
pub mod Follows
pub mod Once
pub mod Site
use hang_analyzer.Prelude.{
  ℕ, ◌==◌, Bool, true, false, not, ◌&&◌, ◌||◌, Option, none, some, List, [], ◌∷◌, ◌++◌,
  if◌then◌else◌, Text, codes, text_eq, strip, decimal,
}
use hang_analyzer.MsptiCapture.{Answer, returned, raised}
use hang_analyzer.MsptiCapture.Monitors.{FileRead, contents, not_found, os_failure, other_error}

-- A call of the library, with its result.
pub data Call : Type 0 where
  start_call : (result : ℕ) → Call
  set_enabled_call : (enabled : Bool) (result : ℕ) → Call
  flush_call stop_call : Call

-- `_enabled`, from what `read_text` did.
unfoldable pub file_enabled : FileRead → Answer Bool
unfolding text_eq strip
file_enabled (contents text) = returned (text_eq (strip text) (codes "1"))
file_enabled not_found = returned false
file_enabled (os_failure m) = raised m
file_enabled (other_error m) = raised m

-- `not control_file or _enabled(control_file)`; an empty name counts as none.
unfoldable pub enabled_now : Option Text → FileRead → Answer Bool
unfolding file_enabled
enabled_now none read = returned true
enabled_now (some []) read = returned true
enabled_now (some (c ∷ name)) read = file_enabled read

-- The variables of `worker`.
pub record Worker : Type 0 where
  pub active : Bool
  pub collecting : Bool

-- What a round of `worker` finds.
pub record Round : Type 0 where
  pub control : FileRead
  pub start_result : ℕ
  pub set_result : ℕ

-- Where a round leads: on, to a return with the text of the error file, or to an exception.
pub data Outcome : Type 0 where
  goes_on : Worker → Outcome
  start_failed set_failed : (error_file : Text) → Outcome
  died : Text → Outcome

-- `if collecting: lib.hang_mspti_flush()`
abbrev pub flush_if : Worker → List Call
flush_if w = if w.collecting then flush_call ∷ [] else []

-- The texts of the error file.
unfoldable pub start_error : ℕ → Text
unfolding decimal
start_error result = codes "hang_mspti_start failed: " ++ decimal result ++ codes "\n"

unfoldable pub switch_error : ℕ → Text
unfolding decimal
switch_error result = codes "hang_mspti_set_enabled failed: " ++ decimal result ++ codes "\n"

-- The branch that starts the library.
unfoldable pub activate : ℕ → List Call × Outcome
unfolding start_error
activate result =
    if result == 0
    then (
      start_call result ∷ flush_call ∷ [],
      goes_on (record { active = true; collecting = true }),
    )
    else (start_call result ∷ [], start_failed (start_error result))

-- The branch that switches it.
unfoldable pub set_collecting : Bool → ℕ → Worker → List Call × Outcome
unfolding switch_error
set_collecting enabled result w =
    let w' : Worker = record { active = w.active; collecting = enabled } in
    if result == 0
    then (set_enabled_call enabled result ∷ flush_if w', goes_on w')
    else (set_enabled_call enabled result ∷ [], set_failed (switch_error result))

-- `enabled != collecting`
abbrev pub differs : Bool → Bool → Bool
differs true b = not b
differs false b = b

-- The body of the loop of `worker`, once the control file has been read.
unfoldable pub act : Bool → Round → Worker → List Call × Outcome
unfolding activate set_collecting
act enabled r w =
    if enabled && not w.active
    then activate r.start_result
    else if w.active && differs enabled w.collecting
    then set_collecting enabled r.set_result w
    else (flush_if w, goes_on w)

unfoldable pub worker_round : Option Text → Round → Worker → List Call × Outcome
unfolding enabled_now act
worker_round control_file r w = elim (enabled_now control_file r.control) [
  | raised m ↦ ([], died m)
  | returned enabled ↦ act enabled r w
]

-- The loop of `worker`, over rounds in which no stop is requested.
unfoldable pub worker_rounds : Option Text → List Round → Worker → List Call × Outcome
unfolding worker_round
worker_rounds control_file [] w = ([], goes_on w)
worker_rounds control_file (r ∷ rs) w =
    let (calls, outcome) = worker_round control_file r w in
    elim outcome [
      | goes_on w' ↦ let rest = worker_rounds control_file rs w' in (calls ++ rest.0, rest.1)
      | start_failed m ↦ (calls, start_failed m)
      | set_failed m ↦ (calls, set_failed m)
      | died m ↦ (calls, died m)
    ]

-- What follows the loop, if it is left by a requested stop.
abbrev pub final_calls : Outcome → List Call
final_calls (goes_on w) = if w.active then stop_call ∷ [] else []
final_calls (start_failed m) = []
final_calls (set_failed m) = []
final_calls (died m) = []

-- `worker`, with the rounds before the stop.
unfoldable pub worker : Option Text → List Round → Worker → List Call × Outcome
unfolding worker_rounds
worker control_file rs w =
    let (calls, outcome) = worker_rounds control_file rs w in
    (calls ++ final_calls outcome, outcome)

-- The variables of the module; `thread` has the variables with which `worker` starts.
pub record Bootstrap : Type 0 where
  pub loaded : Bool
  pub stopping : Bool
  pub thread : Option Worker
  pub owner_pid : Option ℕ

-- What `start` finds.
pub record Setup : Type 0 where
  pub pid : ℕ
  pub made : Answer Unit
  pub opened : Answer Unit
  pub control : FileRead
  pub start_result : ℕ

-- The name of the ring file, in the directory.
unfoldable pub ring_name : ℕ → Text
unfolding decimal
ring_name pid = codes "mspti-" ++ decimal pid ++ codes ".msflight"

-- The end of `start`: the thread runs.
unfoldable pub launched : Bool → Setup → Bootstrap → Answer Text × Bootstrap
unfolding ring_name
launched active s b = (
  returned (ring_name s.pid),
  record b { thread = some (record { active = active; collecting = active }) },
)

-- `start` from `active_at_start` on.
unfoldable pub launch : Bool → Setup → Bootstrap → (Answer Text × Bootstrap) × List Call
unfolding decimal launched
launch false s b = (launched false s b, [])
launch true s b =
    if s.start_result == 0 then (launched true s b, start_call s.start_result ∷ []) else (
      (
        raised (
            codes "RuntimeError: hang_mspti_start failed: "
            ++ decimal s.start_result
            ++ codes "; check LD_PRELOAD=libmspti.so"),
        record b { loaded = false },
      ),
      start_call s.start_result ∷ [],
    )

-- `start` once the library is loaded.
abbrev pub launch_if : Answer Bool → Setup → Bootstrap → (Answer Text × Bootstrap) × List Call
launch_if (returned active) s b = launch active s b
launch_if (raised m) s b = ((raised m, b), [])

unfoldable pub start_bootstrap :
    Option Text → Setup → Bootstrap → (Answer Text × Bootstrap) × List Call
unfolding enabled_now launch
start_bootstrap control_file s b =
    if b.loaded then ((raised (codes "RuntimeError: already started"), b), []) else elim s.made [
      | raised m ↦ ((raised m, b), [])
      | returned _ ↦ (elim s.opened [
        | raised m ↦ ((raised m, b), [])
        | returned _ ↦
            launch_if (enabled_now control_file s.control) s
              (record b { loaded = true; owner_pid = some s.pid })
      ])
    ]

-- `stop`, called in the process `pid`.
unfoldable pub stop_bootstrap : ℕ → Bootstrap → Bootstrap
stop_bootstrap pid b = elim b.owner_pid [
  | none ↦ b
  | some owner ↦ if owner == pid then record b { stopping = true } else b
]
