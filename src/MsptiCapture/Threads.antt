-- ===== src/MsptiCapture/Threads.antt =====
-- The threads of `MsptiCapture` after `start`: callbacks of the library, the flush thread, the writer,
-- and the thread that calls `stop`. Each step is one use of what the threads share.
pub mod Fifo
pub mod InStep
pub mod Ending
pub mod Draining
pub mod Nearer
pub mod Rounds
pub mod Round
use mathlib.Core.Option
use hang_analyzer.Prelude.{
  ℕ, ◌≡◌, ◌≢◌, ◌⊎◌, Bool, true, false, Option, none, some, List, [], ◌∷◌, if◌then◌else◌, Text,
  codes, ◌++◌,
}
use hang_analyzer.MsptiCapture.{
  Answer, returned, raised, Kind, kernel, communication, capture_state, flush_tick, Activity,
  activity, record_activity, Item, state_item, tick_item, Library, MsptiCapture, is_full,
  put_control, enqueue, write_item, sync_if_due,
}
use hang_analyzer.MsptiCapture.Monitors.{
  FileRead, Replies, enabled_by_file, switch, announce, flush, tick, round_error,
}

-- Where `_flush_loop` stands; `final` tells the stop behind the loop.
pub data FlushPc : Type 0 where
  polling : FlushPc  -- head of the loop
  announcing : (enabled final : Bool) → FlushPc  -- before the control item of `_set_monitor_active`
  flushing : FlushPc  -- behind `_set_monitor_active`
  ticking : (flush_ok : Option Bool) → FlushPc  -- before the control item of the round
  closing : FlushPc  -- behind the loop
  ended : FlushPc

-- Where `_write_loop` stands.
pub data WriterPc : Type 0 where
  opening : WriterPc
  waiting : WriterPc  -- head of the loop
  getting : WriterPc  -- in `get`
  holding : Item → WriterPc  -- behind `get`
  wrote : WriterPc  -- before the second test
  closed : WriterPc  -- behind the loop
  failed : (lost : List Item) → WriterPc  -- after an exception

-- Where the thread stands that calls `stop`.
pub data MainPc : Type 0 where
  running joining_flush joining_writer : MainPc

pub record System : Type 0 where
  pub capture : MsptiCapture
  pub flush : FlushPc
  pub writer : WriterPc
  pub main : MainPc

-- An offer to the queue.
pub data Put : Type 0 where
  accepted refused : Item → Put

abbrev pub offer : Item → MsptiCapture → Put
offer item c = if is_full c then refused item else accepted item

-- The library calls back for a monitor that is on.
unfoldable pub delivers : Kind → Library → Bool
delivers kernel l = l.kernel_on
delivers communication l = l.comm_on
delivers capture_state l = false
delivers flush_tick l = false

abbrev pub callback_offers : Kind → Answer Activity → MsptiCapture → List Put
callback_offers kind (returned a) c = offer (activity (record_activity kind a)) c ∷ []
callback_offers kind (raised m) c = []

-- The round up to the control item of `_set_monitor_active`, from the result of `switch`.
abbrev pub after_switch : Bool → Answer Bool × MsptiCapture → FlushPc × MsptiCapture
after_switch enabled (returned true, c) = (announcing enabled false, c)
after_switch enabled (returned false, c) = (flushing, c)
after_switch enabled (raised m, c) = (polling, round_error m c)

abbrev pub after_read : Replies → Answer Bool × MsptiCapture → FlushPc × MsptiCapture
after_read r (returned enabled, c) = after_switch enabled (switch enabled r c)
after_read r (raised m, c) = (polling, round_error m c)

abbrev pub after_flush : Answer (Option Bool) × MsptiCapture → FlushPc × MsptiCapture
after_flush (returned flush_ok, c) = (ticking flush_ok, c)
after_flush (raised m, c) = (polling, round_error m c)

-- The stop behind the loop.
abbrev pub after_closing : Answer Bool × MsptiCapture → FlushPc × MsptiCapture
after_closing (returned true, c) = (announcing false true, c)
after_closing (returned false, c) = (ended, c)
after_closing (raised m, c) = (ended, record c { last_error = some (codes "final stop " ++ m) })

abbrev pub with_flush : System → FlushPc × MsptiCapture → System
with_flush s p = record s { flush = p.0; capture = p.1 }

abbrev pub behind_announcing : Bool → FlushPc
behind_announcing final = if final then ended else flushing

-- One step, with its offers to the queue. `P` restricts what the library replies.
pub data Step (P : Replies → Type 0) (s : System) : List Put → System → Type 0 where
  call_back :
      (kind : Kind) (a : Answer Activity)
      → delivers kind s.capture.library ≡ true
      → Step P s
          (callback_offers kind a s.capture)
          (record s { capture = enqueue kind a s.capture })
  leave_loop :
      s.flush ≡ polling
      → s.capture.stop_requested ≡ true
      → Step P s [] (record s { flush = closing })
  poll :
      (enable_file : Option Text) (read : FileRead) (r : Replies)
      → P r
      → s.flush ≡ polling
      → s.capture.stop_requested ≡ false
      → Step P s [] (with_flush s (after_read r (enabled_by_file enable_file read s.capture)))
  put_state :
      (time : ℕ) (enabled final : Bool)
      → s.flush ≡ announcing enabled final
      → Step P s
          (offer (state_item time enabled) s.capture ∷ [])
          (with_flush s (behind_announcing final, announce time enabled s.capture))
  flush_monitors :
      (r : Replies)
      → P r
      → s.flush ≡ flushing
      → Step P s [] (with_flush s (after_flush (flush r s.capture)))
  put_tick :
      (time : ℕ) (flush_ok : Option Bool)
      → s.flush ≡ ticking flush_ok
      → Step P s
          (offer (tick_item time s.capture.monitor_active flush_ok s.capture.dropped) s.capture
            ∷ [])
          (with_flush s (polling, tick time flush_ok s.capture))
  close_monitors :
      (r : Replies)
      → P r
      → s.flush ≡ closing
      → Step P s [] (with_flush s (after_closing (switch false r s.capture)))
  open_file : s.writer ≡ opening → Step P s [] (record s { writer = waiting })
  enter_loop :
      s.writer ≡ waiting
      → (s.capture.writer_done ≡ false) ⊎ (s.capture.items ≢ [])
      → Step P s [] (record s { writer = getting })
  take :
      (item : Item) (rest : List Item)
      → s.writer ≡ getting
      → s.capture.items ≡ item ∷ rest
      → Step P s []
          (record s { writer = holding item; capture = record s.capture { items = rest } })
  time_out : s.writer ≡ getting → s.capture.items ≡ [] → Step P s [] (record s { writer = wrote })
  write :
      (item : Item)
      → s.writer ≡ holding item
      → Step P s [] (record s { writer = wrote; capture = write_item item s.capture })
  sync :
      (passed : Bool)
      → s.writer ≡ wrote
      → Step P s [] (record s { writer = waiting; capture = sync_if_due passed s.capture })
  close_file :
      s.writer ≡ waiting
      → s.capture.items ≡ []
      → s.capture.writer_done ≡ true
      → Step P s [] (record s { writer = closed })
  fail_open :
      (m : Text)
      → s.writer ≡ opening
      → Step P s [] (record s {
        writer = failed [];
        capture = record s.capture { last_error = some (codes "writer " ++ m) };
      })
  fail_write :
      (m : Text) (item : Item)
      → s.writer ≡ holding item
      → Step P s [] (record s {
        writer = failed (item ∷ []);
        capture = record s.capture { last_error = some (codes "writer " ++ m) };
      })
  fail_sync :
      (m : Text)
      → s.writer ≡ wrote
      → Step P s [] (record s {
        writer = failed [];
        capture = record s.capture { last_error = some (codes "writer " ++ m) };
      })
  request_stop :
      s.main ≡ running
      → s.capture.started ≡ true
      → Step P s []
          (record s { main = joining_flush; capture = record s.capture { stop_requested = true } })
  give_up_flush :
      s.main ≡ joining_flush → s.flush ≢ ended → Step P s [] (record s { main = running })
  join_flush :
      s.main ≡ joining_flush
      → s.flush ≡ ended
      → Step P s []
          (record s { main = joining_writer; capture = record s.capture { writer_done = true } })
  join_writer :
      s.main ≡ joining_writer
      → Step P s [] (record s { main = running; capture = record s.capture { started = false } })

-- The state that `start` leaves.
abbrev pub initial : MsptiCapture → System
initial c = record { capture = c; flush = polling; writer = opening; main = running }

-- What is reached from `start`, with all offers to the queue so far.
pub data Run (P : Replies → Type 0) (s : System) : List Put → System → Type 0 where
  here : Run P s [] s
  next :
      {log puts : List Put} {t u : System}
      → Run P s log t
      → Step P t puts u
      → Run P s (log ++ puts) u
