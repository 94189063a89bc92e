-- ===== src/Tests/Capture.antt =====
-- A capture that starts, refuses an activity, and stops.
use hang_analyzer.Prelude.{
  suc, ◌≤◌, ◌≡◌, refl, true, false, inl, inr, none, some, List, [], ◌∷◌, codes,
}
use hang_analyzer.MsptiCapture.{
  Answer, returned, kernel, Activity, of_kernel, Item, state_item, tick_item, MsptiCapture,
  put_control, enqueue, write_item, sync_if_due, sync_file,
}
use hang_analyzer.MsptiCapture.Monitors.{
  Code, success, not_found, flush_round, Replies, enabled_by_file, switch, announce, flush, tick,
  start_monitors, start_comm, stop_monitors, note_stop, kernel_stopped, comm_stopped,
}
use hang_analyzer.MsptiCapture.Start.{new_capture, start_capture, idle_capture}
use hang_analyzer.MsptiCapture.Threads.{
  System, waiting, getting, joining_writer, Put, delivers, closed, ended, Step, call_back,
  leave_loop, poll, put_state, flush_monitors, put_tick, close_monitors, open_file, enter_loop,
  take, write, sync, close_file, request_stop, join_flush, Run, here, next, initial,
}
use hang_analyzer.MsptiCapture.Threads.Fifo.{IsFifo, accepted_items}
use hang_analyzer.MsptiCapture.Threads.Fifo.Steps.{Run-IsFifo}
use hang_analyzer.MsptiCapture.Threads.InStep.{IsObedient, returns, succeeds, Agrees}
use hang_analyzer.MsptiCapture.Threads.Ending.{Run-ends}
use hang_analyzer.MsptiCapture.Threads.Draining.{Drained, is_alive, Run-drains}
use hang_analyzer.MsptiCapture.Threads.Nearer.{by_writer, remaining, by_writer-nearer}

abbrev good : Answer Code
good = returned (record { value = 0; shown = codes "OK" })

abbrev replies : Replies
replies = record {
  kernel_start = good;
  comm_start = good;
  kernel_stop = good;
  comm_stop = good;
  flush_all = good;
}

replies-IsObedient : IsObedient replies
unfolding returns succeeds success
replies-IsObedient = record { comm_start = refl; kernel_stop = refl; comm_stop = refl }

abbrev begun : MsptiCapture
begun = record (idle_capture 2) { started = true }

abbrev launch : Activity
launch = record {
  start = 4;
  end = 9;
  device_id = 0;
  stream_id = 3;
  correlation_id = 1;
  name = codes "k";
  detail = of_kernel (codes "vector");
}

record Reached : Type 0 where
  log : List Put
  final : System
  run : Run IsObedient (initial begun) log final

step : (x : Reached) {puts : List Put} {t : System} → Step IsObedient x.final puts t → Reached
step x st = record { log = _; final = _; run = next x.run st }

-- Both monitors are started, and the queue of two is filled.
unfoldable filled : Reached
unfolding step enabled_by_file switch start_monitors start_comm success announce put_control flush
    tick
filled =
    let r0 : Reached = record { log = []; final = initial begun; run = here } in
    let r1 = step r0 (poll none not_found replies replies-IsObedient refl refl) in
    let r2 = step r1 (put_state 1 true false refl) in
    let r3 = step r2 (flush_monitors replies replies-IsObedient refl) in
    step r3 (put_tick 2 (some true) refl)

-- The queue is full, so the activity of a callback is refused.
unfoldable overfull : Reached
unfolding filled step delivers enqueue put_control
overfull = step filled (call_back kernel (returned launch) refl)

abbrev state_on : Item
state_on = state_item 1 true

abbrev tick_on : Item
tick_on = tick_item 2 true (some true) 0

abbrev state_off : Item
state_off = state_item 3 false

-- The writer has emptied the queue; the flush thread has ended; and the writer behind it, without a
-- second test after `writer_done`.
unfoldable finished : Reached
unfolding overfull filled step delivers enqueue put_control write_item sync_if_due sync_file
    announce tick switch stop_monitors note_stop kernel_stopped comm_stopped success flush
finished =
    let r1 = step overfull (open_file refl) in
    let r2 = step r1 (enter_loop refl (inl refl)) in
    let r3 = step r2 (take state_on _ refl refl) in
    let r4 = step r3 (write state_on refl) in
    let r5 = step r4 (sync false refl) in
    let r6 = step r5 (enter_loop refl (inl refl)) in
    let r7 = step r6 (take tick_on _ refl refl) in
    let r8 = step r7 (write tick_on refl) in
    let r9 = step r8 (sync true refl) in
    let s1 = step r9 (request_stop refl refl) in
    let s2 = step s1 (leave_loop refl refl) in
    let s3 = step s2 (close_monitors replies replies-IsObedient refl) in
    let s4 = step s3 (put_state 3 false true refl) in
    let s5 = step s4 (enter_loop refl (inl refl)) in
    let s6 = step s5 (take state_off _ refl refl) in
    let s7 = step s6 (write state_off refl) in
    let s8 = step s7 (sync false refl) in
    let s9 = step s8 (join_flush refl refl) in step s9 (close_file refl refl refl)

finished-file : finished.final.capture.file ≡ state_on ∷ tick_on ∷ state_off ∷ []
unfolding finished
finished-file = refl

finished-unsynced : (finished.final.writer ≡ closed) × (finished.final.capture.synced ≡ 2)
unfolding finished
finished-unsynced = (refl, refl)

Run-IsFifo_example : IsFifo overfull.log overfull.final.writer overfull.final.capture
unfolding new_capture start_capture success
Run-IsFifo_example = Run-IsFifo 5 1 2 good refl refl overfull.run

Run-ends_example :
    Agrees finished.final.capture
    × ((finished.final.flush ≡ ended → finished.final.capture.monitor_active ≡ false)
        × (finished.final.writer ≡ closed
            → accepted_items finished.log ≡ finished.final.capture.file))
unfolding new_capture start_capture success
Run-ends_example = Run-ends 5 1 2 good refl refl finished.run

-- `stop` has joined the flush thread while the queue is full.
abbrev stopping : System
stopping = record {
  capture = record begun { items = state_on ∷ tick_on ∷ []; writer_done = true };
  flush = ended;
  writer = waiting;
  main = joining_writer;
}

Run-drains_example : Drained IsObedient stopping [] (state_on ∷ tick_on ∷ []) stopping.capture
unfolding is_alive
Run-drains_example = Run-drains here refl refl

abbrev enters : Step IsObedient stopping [] (record stopping { writer = getting })
enters = enter_loop refl (inr (λ e. cc e))

by_writer-nearer_example :
    (suc (remaining (record stopping { writer = getting })) ≤ remaining stopping)
    × (remaining stopping ≤ 11)
unfolding by_writer
by_writer-nearer_example = by_writer-nearer enters refl refl

-- A flush that fails is counted, and the tick says so.
abbrev failing : Replies
failing = record replies { flush_all = returned (record { value = 3; shown = codes "BUSY" }) }

flush_round-failing :
    (flush_round none not_found failing 1 2 begun).items
    ≡ state_item 1 true ∷ tick_item 2 true (some false) 0 ∷ []
unfolding flush_round enabled_by_file switch start_monitors start_comm success announce put_control
    flush tick
flush_round-failing = refl
