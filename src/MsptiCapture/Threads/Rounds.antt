-- ===== src/MsptiCapture/Threads/Rounds.antt =====
-- A round of `_flush_loop` as one function and as steps.
use hang_analyzer.Prelude.{arith, ℕ, ◌≡◌, refl, sym, subst, Bool, true, false, Option, List, Text}
use hang_analyzer.MsptiCapture.{Answer, returned, raised, MsptiCapture}
use hang_analyzer.MsptiCapture.Monitors.{
  FileRead, Replies, enabled_by_file, switch, announce, set_monitor_active, flush, announced,
  ticked, flushed, monitored, noted, flush_round, final_stop,
}
use hang_analyzer.MsptiCapture.Threads.{
  FlushPc, polling, closing, ended, System, Put, after_switch, after_read, after_flush,
  after_closing, Step, poll, put_state, flush_monitors, put_tick, close_monitors, Run, here, next,
}

-- The flush thread alone can bring the state there.
pub record Reaches (P : Replies → Type 0) (s : System) (f : FlushPc) (c : MsptiCapture)
    : Type 0 where
  pub log : List Put
  pub run : Run P s log (record s { flush = f; capture = c })

-- A step of the flush thread goes on from there.
goes_on :
    {P : Replies → Type 0} {s : System} {f g : FlushPc} {c d : MsptiCapture} {puts : List Put}
    → Reaches P s f c
    → Step P (record s { flush = f; capture = c }) puts (record s { flush = g; capture = d })
    → Reaches P s g d
goes_on x st = record { log = _; run = next x.run st }

ticked-Reaches :
    {P : Replies → Type 0} (time : ℕ) (p : Answer (Option Bool) × MsptiCapture) {s : System}
    → Reaches P s (after_flush p).0 (after_flush p).1
    → Reaches P s polling (ticked time p)
ticked-Reaches time (returned ok, c) x = goes_on x (put_tick time ok refl)
ticked-Reaches time (raised m, c) x = x

flushed-Reaches :
    {P : Replies → Type 0} (b : Bool) (r : Replies) (state_time tick_time : ℕ)
    (p : Answer Bool × MsptiCapture) {s : System}
    → P r
    → Reaches P s (after_switch b p).0 (after_switch b p).1
    → Reaches P s polling (flushed r tick_time (announced b state_time p))
flushed-Reaches b r state_time tick_time (returned true, c) pr x =
    ticked-Reaches tick_time (flush r (announce state_time b c))
      (goes_on (goes_on x (put_state state_time b false refl)) (flush_monitors r pr refl))
flushed-Reaches b r state_time tick_time (returned false, c) pr x =
    ticked-Reaches tick_time (flush r c) (goes_on x (flush_monitors r pr refl))
flushed-Reaches b r state_time tick_time (raised m, c) pr x = x

monitored-Reaches :
    {P : Replies → Type 0} (r : Replies) (state_time tick_time : ℕ) (p : Answer Bool × MsptiCapture)
    {s : System}
    → P r
    → Reaches P s (after_read r p).0 (after_read r p).1
    → Reaches P s polling (monitored r state_time tick_time p)
unfolding set_monitor_active
monitored-Reaches r state_time tick_time (returned b, c) pr x =
    flushed-Reaches b r state_time tick_time (switch b r c) pr x
monitored-Reaches r state_time tick_time (raised m, c) pr x = x

-- The steps of the flush thread make up `flush_round`: if it stands at the head of its loop and no stop
-- is requested, then without steps of other threads it comes back there with the state that one round
-- of the loop gives, whatever the file and the library reply.
pub flush_round-Reaches :
    {P : Replies → Type 0} (enable_file : Option Text) (read : FileRead) (r : Replies)
    (state_time tick_time : ℕ) {s : System}
    → P r
    → s.flush ≡ polling
    → s.capture.stop_requested ≡ false
    → Reaches P s polling (flush_round enable_file read r state_time tick_time s.capture)
unfolding flush_round
flush_round-Reaches enable_file read r state_time tick_time {s} pr e n =
    monitored-Reaches r state_time tick_time (enabled_by_file enable_file read s.capture) pr
      (record { log = _; run = next here (poll enable_file read r pr e n) })

noted-Reaches :
    {P : Replies → Type 0} (time : ℕ) (p : Answer Bool × MsptiCapture) {s : System}
    → Reaches P s (after_closing p).0 (after_closing p).1
    → Reaches P s ended (noted (announced false time p))
noted-Reaches time (returned true, c) x = goes_on x (put_state time false true refl)
noted-Reaches time (returned false, c) x = x
noted-Reaches time (raised m, c) x = x

final_stop_lem :
    (r : Replies) (time : ℕ) (c : MsptiCapture)
    → final_stop r time c ≡ noted (announced false time (switch false r c))
unfolding final_stop set_monitor_active switch
final_stop_lem r time c = ground arith

-- Behind the loop, without steps of other threads, the flush thread ends with the state that `final_stop`
-- gives, whatever the library replies.
pub final_stop-Reaches :
    {P : Replies → Type 0} (r : Replies) (time : ℕ) {s : System}
    → P r
    → s.flush ≡ closing
    → Reaches P s ended (final_stop r time s.capture)
unfolding final_stop set_monitor_active
final_stop-Reaches {P} r time {s} pr e =
    subst (Reaches P s ended) (sym (final_stop_lem r time s.capture)) (
      noted-Reaches time (switch false r s.capture)
        (record { log = _; run = next here (close_monitors r pr e) }))
