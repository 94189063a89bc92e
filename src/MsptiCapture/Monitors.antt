-- ===== src/MsptiCapture/Monitors.antt =====
-- The flush thread of `MsptiCapture`: `_enabled_by_file`, `_set_monitor_active` and the body of
-- `_flush_loop`. `_set_monitor_active` is the calls of the library, `switch`, and what follows them.
use hang_analyzer.Prelude.{
  ℕ, ◌+◌, ◌==◌, Bool, true, false, not, ◌||◌, Option, none, some, ◌++◌, if◌then◌else◌, Text, codes,
  text_eq, strip,
}
use hang_analyzer.MsptiCapture.{
  Answer, returned, raised, state_item, tick_item, MsptiCapture, put_control,
}

-- A result of the library: the value of its enumeration, and its text.
pub record Code : Type 0 where
  pub value : ℕ
  pub shown : Text

-- `_success`
unfoldable pub success : Code → Bool
success r = r.value == 0

-- What `read_text` did; `other_error` is an exception that is no `OSError`.
pub data FileRead : Type 0 where
  contents : Text → FileRead
  not_found : FileRead
  os_failure other_error : Text → FileRead

-- `_enabled_by_file` for a file; without one it is `True`.
unfoldable pub enabled_by_file : Option Text → FileRead → MsptiCapture → Answer Bool × MsptiCapture
unfolding strip text_eq
enabled_by_file none r c = (returned true, c)
enabled_by_file (some path) (contents text) c =
    let value = strip text in
    if not (text_eq value (codes "0") || text_eq value (codes "1"))
    then (
      returned false,
      record c { last_error = some (codes "enable file must contain 0 or 1: " ++ path) },
    )
    else (returned (text_eq value (codes "1")), c)
enabled_by_file (some path) not_found c = (returned false, c)
enabled_by_file (some path) (os_failure m) c =
    (returned false, record c { last_error = some (codes "enable file " ++ m) })
enabled_by_file (some path) (other_error m) c = (raised m, c)

-- What the calls of the library return or raise, if they are made.
pub record Replies : Type 0 where
  pub kernel_start : Answer Code
  pub comm_start : Answer Code
  pub kernel_stop : Answer Code
  pub comm_stop : Answer Code
  pub flush_all : Answer Code

-- A monitor that has been started delivers activities until it is stopped.
abbrev pub set_kernel : Bool → MsptiCapture → MsptiCapture
set_kernel b c = record c { library = record { kernel_on = b; comm_on = c.library.comm_on } }

abbrev pub set_comm : Bool → MsptiCapture → MsptiCapture
set_comm b c = record c { library = record { kernel_on = c.library.kernel_on; comm_on = b } }

-- A stop that succeeds removes the callback.
unfoldable pub kernel_stopped : Code → MsptiCapture → MsptiCapture
unfolding success
kernel_stopped code c = if success code then set_kernel false c else c

unfoldable pub comm_stopped : Code → MsptiCapture → MsptiCapture
unfolding success
comm_stopped code c = if success code then set_comm false c else c

-- `monitor_active = enabled` and `transitions += 1`
abbrev pub switched : Bool → MsptiCapture → Answer Bool × MsptiCapture
switched enabled c =
    (returned true, record c { monitor_active = enabled; transitions = c.transitions + 1 })

-- `self.kernel_monitor.stop()` behind a failed start of the other one, and the exception.
unfoldable pub undo_start : Answer Code → Text → MsptiCapture → Answer Bool × MsptiCapture
unfolding kernel_stopped
undo_start (returned code) shown c = (
  raised (codes "RuntimeError: CommunicationMonitor.start failed: " ++ shown),
  kernel_stopped code c,
)
undo_start (raised m) shown c = (raised m, c)

-- `self.comm_monitor.start(...)` and what follows it
unfoldable pub start_comm : Replies → MsptiCapture → Answer Bool × MsptiCapture
unfolding success undo_start
start_comm r c = elim r.comm_start [
  | raised m ↦ (raised m, c)
  | returned code ↦
      if success code
      then switched true (set_comm true c)
      else undo_start r.kernel_stop code.shown c
]

unfoldable pub start_monitors : Replies → MsptiCapture → Answer Bool × MsptiCapture
unfolding success start_comm
start_monitors r c = elim r.kernel_start [
  | raised m ↦ (raised m, c)
  | returned code ↦
      if success code
      then start_comm r (set_kernel true c)
      else (raised (codes "RuntimeError: KernelMonitor.start failed: " ++ code.shown), c)
]

-- `if not self._success(result): self.last_error = ...`
unfoldable pub note_stop : Text → Code → MsptiCapture → MsptiCapture
unfolding success
note_stop label code c =
    if success code
    then c
    else record c { last_error = some (label ++ codes " stop returned " ++ code.shown) }

-- The loop over the two monitors.
unfoldable pub stop_monitors : Replies → MsptiCapture → Answer Bool × MsptiCapture
unfolding note_stop kernel_stopped comm_stopped
stop_monitors r c = elim r.kernel_stop [
  | raised m ↦ (raised m, c)
  | returned k ↦
      let c' = note_stop (codes "kernel") k (kernel_stopped k c) in
      (elim r.comm_stop [
        | raised m ↦ (raised m, c')
        | returned k' ↦ switched false (note_stop (codes "communication") k' (comm_stopped k' c'))
      ])
]

-- `_set_monitor_active` up to the control item; the result says whether anything was switched.
unfoldable pub switch : Bool → Replies → MsptiCapture → Answer Bool × MsptiCapture
unfolding start_monitors stop_monitors
switch true r c = if c.monitor_active then (returned false, c) else start_monitors r c
switch false r c = if c.monitor_active then stop_monitors r c else (returned false, c)

-- The control item of `_set_monitor_active`.
unfoldable pub announce : ℕ → Bool → MsptiCapture → MsptiCapture
unfolding put_control
announce time enabled c = put_control (state_item time enabled) c

-- What `_set_monitor_active` does behind `switch`.
abbrev pub announced : Bool → ℕ → Answer Bool × MsptiCapture → Answer Unit × MsptiCapture
announced enabled time (returned true, c) = (returned tt, announce time enabled c)
announced enabled time (returned false, c) = (returned tt, c)
announced enabled time (raised m, c) = (raised m, c)

unfoldable pub set_monitor_active : Bool → Replies → ℕ → MsptiCapture → Answer Unit × MsptiCapture
unfolding switch announce
set_monitor_active enabled r time c = announced enabled time (switch enabled r c)

-- `flush_all` if the monitors are active; the result is `flush_ok`.
unfoldable pub flush : Replies → MsptiCapture → Answer (Option Bool) × MsptiCapture
unfolding success
flush r c =
    if c.monitor_active
    then (elim r.flush_all [
      | raised m ↦ (raised m, c)
      | returned code ↦ if success code then (returned (some true), c) else (
        returned (some false),
        record c {
          flush_errors = c.flush_errors + 1;
          last_error = some (codes "flush_all returned " ++ code.shown);
        },
      )
    ])
    else (returned none, c)

-- The control item of a round.
unfoldable pub tick : ℕ → Option Bool → MsptiCapture → MsptiCapture
unfolding put_control
tick time flush_ok c = put_control (tick_item time c.monitor_active flush_ok c.dropped) c

-- `except Exception as exc` of a round
unfoldable pub round_error : Text → MsptiCapture → MsptiCapture
round_error m c = record c {
  flush_errors = c.flush_errors + 1;
  last_error = some (codes "monitor loop " ++ m);
}

-- The part of a round behind `flush_all`.
abbrev pub ticked : ℕ → Answer (Option Bool) × MsptiCapture → MsptiCapture
ticked time (returned flush_ok, c) = tick time flush_ok c
ticked time (raised m, c) = round_error m c

-- The part of a round behind `_set_monitor_active`.
abbrev pub flushed : Replies → ℕ → Answer Unit × MsptiCapture → MsptiCapture
flushed r time (returned _, c) = ticked time (flush r c)
flushed r time (raised m, c) = round_error m c

-- The part of a round behind `_enabled_by_file`; the clock is read twice.
abbrev pub monitored :
    Replies → (state_time tick_time : ℕ) → Answer Bool × MsptiCapture → MsptiCapture
monitored r state_time tick_time (returned enabled, c) =
    flushed r tick_time (set_monitor_active enabled r state_time c)
monitored r state_time tick_time (raised m, c) = round_error m c

-- A round of the loop of `_flush_loop`, without other threads.
unfoldable pub flush_round :
    Option Text → FileRead → Replies → (state_time tick_time : ℕ) → MsptiCapture → MsptiCapture
unfolding enabled_by_file set_monitor_active flush tick round_error
flush_round enable_file read r state_time tick_time c =
    monitored r state_time tick_time (enabled_by_file enable_file read c)

-- The handler of the stop behind the loop.
abbrev pub noted : Answer Unit × MsptiCapture → MsptiCapture
noted (returned _, c) = c
noted (raised m, c) = record c { last_error = some (codes "final stop " ++ m) }

-- What follows the loop.
unfoldable pub final_stop : Replies → ℕ → MsptiCapture → MsptiCapture
unfolding set_monitor_active
final_stop r time c = if c.monitor_active then noted (set_monitor_active false r time c) else c
