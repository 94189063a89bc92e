-- ===== src/MsptiCapture/Start.antt =====
-- `__init__`, `start` and `summary` of `MsptiCapture`. The interval is a number of some unit below the
-- second; the numbers that the constructor takes are not negative.
use hang_analyzer.Prelude.{
  arith, ◌≡◌, ℕ, ◌==◌, Bool, true, false, ◌||◌, Option, none, [], if◌then◌else◌, Text, codes, Dict,
}
use hang_analyzer.MsptiCapture.{Answer, returned, raised, Kind, MsptiCapture}
use hang_analyzer.MsptiCapture.Monitors.{Code, success}

-- The state that `__init__` leaves, in which the file is not open.
abbrev pub idle_capture : ℕ → MsptiCapture
idle_capture queue_size = record {
  queue_size = queue_size;
  items = [];
  stop_requested = false;
  writer_done = false;
  started = false;
  monitor_active = false;
  transitions = 0;
  dropped = 0;
  callback_errors = 0;
  flush_errors = 0;
  written = [];
  last_error = none;
  file = [];
  synced = 0;
  library = record { kernel_on = false; comm_on = false };
}

unfoldable pub new_capture : ℕ → ℕ → ℕ → Answer MsptiCapture
new_capture interval buffer_mb queue_size =
    if interval == 0 || (buffer_mb == 0 || queue_size == 0)
    then raised (codes "ValueError: interval_s, buffer_mb and queue_size must be positive")
    else returned (idle_capture queue_size)

-- `start`, from what making the directory and the monitors and setting the size of the buffers
-- returned or raised; the threads start where it returns.
unfoldable pub start_capture : Answer Code → MsptiCapture → Answer Unit × MsptiCapture
unfolding success
start_capture buffer c =
    if c.started
    then (raised (codes "RuntimeError: capture already started"), c)
    else if c.writer_done
    then (raised (codes "RuntimeError: capture has stopped; create a new instance"), c)
    else elim buffer [
      | raised m ↦ (raised m, c)
      | returned code ↦
          if success code
          then (returned tt, record c { started = true })
          else (raised (codes "RuntimeError: msPTI set_buffer_size failed"), c)
    ]

-- What `summary` says of the state; the rest of it is constant or given to the constructor.
pub record Summary : Type 0 where
  pub counts : Dict Kind ℕ
  pub monitor_active : Bool
  pub transitions : ℕ
  pub dropped : ℕ
  pub callback_errors : ℕ
  pub flush_errors : ℕ
  pub last_error : Option Text

unfoldable pub summary : MsptiCapture → Summary
summary c = record {
  counts = c.written;
  monitor_active = c.monitor_active;
  transitions = c.transitions;
  dropped = c.dropped;
  callback_errors = c.callback_errors;
  flush_errors = c.flush_errors;
  last_error = c.last_error;
}

-- What the threads start from.
pub record IsFresh (c : MsptiCapture) : Type 0 where
  pub items : c.items ≡ []
  pub file : c.file ≡ []
  pub dropped : c.dropped ≡ 0
  pub written : c.written ≡ []
  pub inactive : c.monitor_active ≡ false
  pub undone : c.writer_done ≡ false
  pub kernel_off : c.library.kernel_on ≡ false
  pub comm_off : c.library.comm_on ≡ false

new_capture-IsFresh :
    (interval buffer_mb queue_size : ℕ) {c : MsptiCapture}
    → new_capture interval buffer_mb queue_size ≡ returned c
    → IsFresh c
unfolding new_capture
new_capture-IsFresh interval buffer_mb queue_size e = record {
  items = ground (arith, e);
  file = ground (arith, e);
  dropped = ground (arith, e);
  written = ground (arith, e);
  inactive = ground (arith, e);
  undone = ground (arith, e);
  kernel_off = ground (arith, e);
  comm_off = ground (arith, e);
}

pub start_capture-IsFresh :
    (interval buffer_mb queue_size : ℕ) (buffer : Answer Code) {c d : MsptiCapture}
    → new_capture interval buffer_mb queue_size ≡ returned c
    → start_capture buffer c ≡ (returned tt, d)
    → IsFresh d
unfolding start_capture
start_capture-IsFresh interval buffer_mb queue_size buffer new start =
    let f = new_capture-IsFresh interval buffer_mb queue_size new in
    record {
      items = ground (arith, start, f.items);
      file = ground (arith, start, f.file);
      dropped = ground (arith, start, f.dropped);
      written = ground (arith, start, f.written);
      inactive = ground (arith, start, f.inactive);
      undone = ground (arith, start, f.undone);
      kernel_off = ground (arith, start, f.kernel_off);
      comm_off = ground (arith, start, f.comm_off);
    }
