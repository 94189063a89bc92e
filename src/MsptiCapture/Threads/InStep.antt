-- ===== src/MsptiCapture/Threads/InStep.antt =====
-- The monitors of the library against what `MsptiCapture` believes of them, and the end of the writer.
use hang_analyzer.Prelude.{◌≡◌, refl, sym, ap, ◌∙◌, Bool, true, false, Option, List, arith, Text}
use hang_analyzer.MsptiCapture.{Answer, returned, raised, Item, MsptiCapture}
use hang_analyzer.MsptiCapture.Monitors.{
  Code, success, FileRead, Replies, enabled_by_file, switch, flush, round_error,
}
use hang_analyzer.MsptiCapture.Threads.{
  FlushPc, polling, announcing, flushing, ticking, closing, ended, WriterPc, opening, waiting,
  getting, holding, wrote, closed, failed, after_switch, after_read, after_flush, after_closing,
}

-- The call came back.
unfoldable pub returns : Answer Code → Bool
returns (returned code) = true
returns (raised m) = false

-- The call came back with success.
unfoldable pub succeeds : Answer Code → Bool
unfolding success
succeeds (returned code) = success code
succeeds (raised m) = false

-- Starting the communication monitor may fail with a code, and stopping a monitor succeeds; the other
-- calls may return any code or raise.
pub record IsObedient (r : Replies) : Type 0 where
  pub comm_start : returns r.comm_start ≡ true
  pub kernel_stop : succeeds r.kernel_stop ≡ true
  pub comm_stop : succeeds r.comm_stop ≡ true

-- The last stop is done.
unfoldable pub is_over : FlushPc → Bool
is_over ended = true
is_over (announcing enabled final) = final
is_over polling = false
is_over flushing = false
is_over (ticking ok) = false
is_over closing = false

unfoldable pub is_closed : WriterPc → Bool
is_closed closed = true
is_closed opening = false
is_closed waiting = false
is_closed getting = false
is_closed (holding i) = false
is_closed wrote = false
is_closed (failed lost) = false

-- Both monitors of the library are on exactly if the capture believes so.
pub record Agrees (c : MsptiCapture) : Type 0 where
  pub kernel : c.library.kernel_on ≡ c.monitor_active
  pub comm : c.library.comm_on ≡ c.monitor_active

switch-Agrees :
    (b : Bool) {r : Replies} {c : MsptiCapture} → IsObedient r → Agrees c → Agrees (switch b r c).1
unfolding switch returns succeeds
switch-Agrees true {r} {c} o a = record {
  kernel = ground (arith, o.comm_start, o.kernel_stop, a.kernel, a.comm);
  comm = ground (arith, o.comm_start, o.kernel_stop, a.kernel, a.comm);
}
switch-Agrees false {r} {c} o a = record {
  kernel = ground (arith, o.kernel_stop, o.comm_stop, a.kernel, a.comm);
  comm = ground (arith, o.kernel_stop, o.comm_stop, a.kernel, a.comm);
}

-- What `Agrees` looks at.
abbrev pub monitor_part : MsptiCapture → Bool × Bool × Bool
monitor_part c = (c.library.kernel_on, c.library.comm_on, c.monitor_active)

pub monitor_part-Agrees :
    {c c' : MsptiCapture} → monitor_part c' ≡ monitor_part c → Agrees c → Agrees c'
monitor_part-Agrees e a = record {
  kernel = ap (λ p. p.0) e ∙ a.kernel ∙ sym (ap (λ p. p.2) e);
  comm = ap (λ p. p.1) e ∙ a.comm ∙ sym (ap (λ p. p.2) e);
}

-- What the flush thread does not decide.
abbrev pub end_part : MsptiCapture → Bool × List Item
end_part c = (c.writer_done, c.items)

switch-end_part :
    (b : Bool) (r : Replies) (c : MsptiCapture) → end_part (switch b r c).1 ≡ end_part c
unfolding switch
switch-end_part true r c = ground arith
switch-end_part false r c = ground arith

pub enabled_by_file-parts :
    (path : Option Text) (read : FileRead) (c : MsptiCapture)
    → (monitor_part (enabled_by_file path read c).1 ≡ monitor_part c)
      × (end_part (enabled_by_file path read c).1 ≡ end_part c)
unfolding enabled_by_file
enabled_by_file-parts path read c = (ground arith, ground arith)

-- The outcome of a move of the flush thread that does not put an item into the queue.
pub record Moves (over : Bool) (c : MsptiCapture) (p : FlushPc × MsptiCapture) : Type 0 where
  pub agrees : Agrees p.1
  pub kept : end_part p.1 ≡ end_part c
  pub place : is_over p.0 ≡ over

after_switch-Moves :
    (b : Bool) (p : Answer Bool × MsptiCapture) {c : MsptiCapture}
    → Agrees p.1
    → end_part p.1 ≡ end_part c
    → Moves false c (after_switch b p)
unfolding round_error is_over
after_switch-Moves b (returned true, c) a k = record { agrees = a; kept = k; place = refl }
after_switch-Moves b (returned false, c) a k = record { agrees = a; kept = k; place = refl }
after_switch-Moves b (raised m, c) a k = record {
  agrees = monitor_part-Agrees refl a;
  kept = k;
  place = refl;
}

pub after_read-Moves :
    (p : Answer Bool × MsptiCapture) {r : Replies} {c : MsptiCapture}
    → IsObedient r
    → Agrees p.1
    → end_part p.1 ≡ end_part c
    → Moves false c (after_read r p)
unfolding round_error is_over
after_read-Moves (returned b, c) {r} o a k =
    after_switch-Moves b (switch b r c) (switch-Agrees b o a) (switch-end_part b r c ∙ k)
after_read-Moves (raised m, c) o a k = record {
  agrees = monitor_part-Agrees refl a;
  kept = k;
  place = refl;
}

pub after_flush-Moves :
    (r : Replies) {c : MsptiCapture} → Agrees c → Moves false c (after_flush (flush r c))
unfolding flush round_error is_over
after_flush-Moves r {c} a = record {
  agrees = monitor_part-Agrees (ground arith) a;
  kept = ground arith;
  place = ground arith;
}

-- The stop behind the loop turns the monitors off.
pub after_closing-off :
    {r : Replies} {c : MsptiCapture}
    → IsObedient r
    → Agrees c
    → ((after_closing (switch false r c)).1.monitor_active ≡ false)
      × Moves true c (after_closing (switch false r c))
unfolding switch succeeds is_over
after_closing-off {r} {c} o a = (
  ground (arith, o.kernel_stop, o.comm_stop),
  record {
    agrees = record {
      kernel = ground (arith, o.kernel_stop, o.comm_stop, a.kernel, a.comm);
      comm = ground (arith, o.kernel_stop, o.comm_stop, a.kernel, a.comm);
    };
    kept = ground arith;
    place = ground (arith, o.kernel_stop, o.comm_stop);
  },
)
