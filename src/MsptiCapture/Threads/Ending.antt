-- ===== src/MsptiCapture/Threads/Ending.antt =====
-- The end of the threads: what `stop` leaves when the library obeys.
use mathlib.Core.List.{append-nil}
use hang_analyzer.Prelude.{
  ℕ, ◌≡◌, ◌≢◌, refl, sym, ap, subst, ◌∙◌, Bool, true, false, Option, List, [], ◌++◌, arith, Text,
}
use hang_analyzer.MsptiCapture.{
  Answer, returned, raised, Kind, kernel, communication, capture_state, flush_tick, MsptiCapture,
  put_control, enqueue, write_item, sync_file, sync_if_due,
}
use hang_analyzer.MsptiCapture.Monitors.{
  Code, Replies, FileRead, enabled_by_file, switch, announce, tick,
}
use hang_analyzer.MsptiCapture.Threads.{
  FlushPc, polling, closing, ended, WriterPc, opening, closed, System, Put, delivers,
  behind_announcing, after_read, after_closing, Step, call_back, leave_loop, poll, put_state,
  flush_monitors, put_tick, close_monitors, open_file, enter_loop, take, time_out, write, sync,
  close_file, fail_open, fail_write, fail_sync, request_stop, give_up_flush, join_flush,
  join_writer, Run, here, next, initial,
}
use hang_analyzer.MsptiCapture.Start.{new_capture, start_capture, IsFresh, start_capture-IsFresh}
use hang_analyzer.MsptiCapture.Threads.Fifo.{held, accepted_items}
use hang_analyzer.MsptiCapture.Threads.Fifo.Steps.{Run-IsFifo}
use hang_analyzer.MsptiCapture.Threads.InStep.{
  IsObedient, is_over, is_closed, Agrees, monitor_part, monitor_part-Agrees, Moves,
  after_read-Moves, after_flush-Moves, after_closing-off, enabled_by_file-parts,
}

-- The monitors are in step; they are off behind the last stop; the writer is told to end behind it;
-- and a writer that has ended has found the queue empty.
pub record IsOrderly (f : FlushPc) (w : WriterPc) (c : MsptiCapture) : Type 0 where
  pub agrees : Agrees c
  pub over : is_over f ≡ true → c.monitor_active ≡ false
  pub told : c.writer_done ≡ true → f ≡ ended
  pub empty : is_closed w ≡ true → (c.items ≡ []) × (c.writer_done ≡ true)

-- An item may enter the queue where the flush thread has not ended.
offer-IsOrderly :
    {f f' : FlushPc} {w : WriterPc} {c c' : MsptiCapture}
    → f ≢ ended
    → monitor_part c' ≡ monitor_part c
    → c'.writer_done ≡ c.writer_done
    → is_over f' ≡ is_over f
    → IsOrderly f w c
    → IsOrderly f' w c'
offer-IsOrderly n m d o i = record {
  agrees = monitor_part-Agrees m i.agrees;
  over = λ e. ap (λ p. p.2) m ∙ i.over (sym o ∙ e);
  told = λ e. absurd (n (i.told (sym d ∙ e)));
  empty = λ e. absurd (n (i.told ((i.empty e).1)));
}

Moves-IsOrderly :
    {over : Bool} {f : FlushPc} {w : WriterPc} {c : MsptiCapture} {p : FlushPc × MsptiCapture}
    → f ≢ ended
    → (over ≡ true → p.1.monitor_active ≡ false)
    → Moves over c p
    → IsOrderly f w c
    → IsOrderly p.0 w p.1
Moves-IsOrderly n off m i = record {
  agrees = m.agrees;
  over = λ e. off (sym m.place ∙ e);
  told = λ e. absurd (n (i.told (sym (ap (λ p. p.0) m.kept) ∙ e)));
  empty = λ e. absurd (n (i.told ((i.empty e).1)));
}

-- A callback finds its monitor on, so the flush thread has not ended.
delivers-not_over :
    {f : FlushPc} {w : WriterPc} {c : MsptiCapture} (k : Kind)
    → delivers k c.library ≡ true
    → IsOrderly f w c
    → f ≢ ended
unfolding delivers is_over
delivers-not_over {c} kernel d i e = cc (d, i.agrees.kernel, i.over (ap is_over e))
delivers-not_over {c} communication d i e = cc (d, i.agrees.comm, i.over (ap is_over e))
delivers-not_over capture_state d i e = cc d
delivers-not_over flush_tick d i e = cc d

-- A step that ends no loop and offers nothing.
quiet-IsOrderly :
    {f : FlushPc} {w w' : WriterPc} {c c' : MsptiCapture}
    → is_closed w' ≡ false
    → monitor_part c' ≡ monitor_part c
    → c'.writer_done ≡ c.writer_done
    → IsOrderly f w c
    → IsOrderly f w' c'
quiet-IsOrderly n m d i = record {
  agrees = monitor_part-Agrees m i.agrees;
  over = λ e. ap (λ p. p.2) m ∙ i.over e;
  told = λ e. i.told (sym d ∙ e);
  empty = λ e. cc (n, e);
}

behind_announcing-over : (final : Bool) → is_over (behind_announcing final) ≡ final
unfolding is_over
behind_announcing-over true = refl
behind_announcing-over false = refl

poll-IsOrderly :
    (path : Option Text) (read : FileRead) {r : Replies} {w : WriterPc} {c : MsptiCapture}
    → IsObedient r
    → IsOrderly polling w c
    → IsOrderly
        (after_read r (enabled_by_file path read c)).0
        w
        (after_read r (enabled_by_file path read c)).1
poll-IsOrderly path read {c} o i =
    let (m, k) = enabled_by_file-parts path read c in
    Moves-IsOrderly (λ e. cc e) (λ e. cc e)
      (after_read-Moves (enabled_by_file path read c) o (monitor_part-Agrees m i.agrees) k) i

close-IsOrderly :
    {r : Replies} {w : WriterPc} {c : MsptiCapture}
    → IsObedient r
    → IsOrderly closing w c
    → IsOrderly (after_closing (switch false r c)).0 w (after_closing (switch false r c)).1
close-IsOrderly o i =
    let (off, m) = after_closing-off o i.agrees in Moves-IsOrderly (λ e. cc e) (λ _. off) m i

at : {f g : FlushPc} {w : WriterPc} {c : MsptiCapture} → f ≡ g → IsOrderly f w c → IsOrderly g w c
at {w} {c} e i = subst (λ f. IsOrderly f w c) e i

Step-IsOrderly :
    {s : System} {puts : List Put} {t : System}
    → Step IsObedient s puts t
    → IsOrderly s.flush s.writer s.capture
    → IsOrderly t.flush t.writer t.capture
unfolding announce tick put_control enqueue is_over write_item sync_if_due sync_file is_closed
Step-IsOrderly (call_back kind (returned a) d) i =
    offer-IsOrderly (delivers-not_over kind d i) (ground arith) (ground arith) refl i
Step-IsOrderly (call_back kind (raised m) d) i =
    offer-IsOrderly (delivers-not_over kind d i) refl refl refl i
Step-IsOrderly (leave_loop e _) i = offer-IsOrderly (λ q. cc q) refl refl refl (at e i)
Step-IsOrderly (poll path read r o e _) i = poll-IsOrderly path read o (at e i)
Step-IsOrderly (put_state time enabled final e) i =
    offer-IsOrderly (λ q. cc q) (ground arith) (ground arith) (behind_announcing-over final)
      (at e i)
Step-IsOrderly (flush_monitors r o e) i =
    Moves-IsOrderly (λ q. cc q) (λ q. cc q) (after_flush-Moves r i.agrees) (at e i)
Step-IsOrderly (put_tick time flush_ok e) i =
    offer-IsOrderly (λ q. cc q) (ground arith) (ground arith) refl (at e i)
Step-IsOrderly (close_monitors r o e) i = close-IsOrderly o (at e i)
Step-IsOrderly (open_file e) i = quiet-IsOrderly refl refl refl i
Step-IsOrderly (enter_loop e _) i = quiet-IsOrderly refl refl refl i
Step-IsOrderly (take x rest e q) i = quiet-IsOrderly refl refl refl i
Step-IsOrderly (time_out e _) i = quiet-IsOrderly refl refl refl i
Step-IsOrderly (write x e) i = quiet-IsOrderly refl refl refl i
Step-IsOrderly (sync passed e) i = quiet-IsOrderly refl (ground arith) (ground arith) i
Step-IsOrderly (close_file e q d) i = record {
  agrees = i.agrees;
  over = i.over;
  told = i.told;
  empty = λ _. (q, d);
}
Step-IsOrderly (fail_open m e) i = quiet-IsOrderly refl refl refl i
Step-IsOrderly (fail_write m x e) i = quiet-IsOrderly refl refl refl i
Step-IsOrderly (fail_sync m e) i = quiet-IsOrderly refl refl refl i
Step-IsOrderly (request_stop _ _) i = record {
  agrees = monitor_part-Agrees refl i.agrees;
  over = i.over;
  told = i.told;
  empty = i.empty;
}
Step-IsOrderly (give_up_flush _ _) i = i
Step-IsOrderly (join_flush _ e) i = record {
  agrees = monitor_part-Agrees refl i.agrees;
  over = i.over;
  told = λ _. e;
  empty = λ q. ((i.empty q).0, refl);
}
Step-IsOrderly (join_writer _) i = record {
  agrees = monitor_part-Agrees refl i.agrees;
  over = i.over;
  told = i.told;
  empty = i.empty;
}

initial-IsOrderly : {c : MsptiCapture} → IsFresh c → IsOrderly polling opening c
unfolding is_over is_closed
initial-IsOrderly f = record {
  agrees = record { kernel = f.kernel_off ∙ sym f.inactive; comm = f.comm_off ∙ sym f.inactive };
  over = λ e. cc e;
  told = λ e. cc f.undone;
  empty = λ e. cc e;
}

pub Run-IsOrderly :
    {c : MsptiCapture} {log : List Put} {t : System}
    → IsFresh c
    → Run IsObedient (initial c) log t
    → IsOrderly t.flush t.writer t.capture
Run-IsOrderly f here = initial-IsOrderly f
Run-IsOrderly f (next r st) = Step-IsOrderly st (Run-IsOrderly f r)

-- In every order of the steps of a capture that has started, where stopping a monitor succeeds and
-- starting the communication monitor returns: the library's two monitors are on exactly if the capture
-- has `monitor_active`; they are off once the flush thread has ended; and once the writer has left its
-- loop, the file has all the items that the queue ever accepted, in their order.
pub Run-ends :
    (interval buffer_mb queue_size : ℕ) (buffer : Answer Code) {c d : MsptiCapture} {log : List Put}
    {t : System}
    → new_capture interval buffer_mb queue_size ≡ returned c
    → start_capture buffer c ≡ (returned tt, d)
    → Run IsObedient (initial d) log t
    → Agrees t.capture
      × ((t.flush ≡ ended → t.capture.monitor_active ≡ false)
          × (t.writer ≡ closed → accepted_items log ≡ t.capture.file))
unfolding is_over is_closed
Run-ends interval buffer_mb queue_size buffer {log} {t} new start run =
    let fresh = start_capture-IsFresh interval buffer_mb queue_size buffer new start in
    let i = Run-IsOrderly fresh run in
    let f = Run-IsFifo interval buffer_mb queue_size buffer new start run in
    (
      i.agrees,
      (
        λ e. i.over (ap is_over e),
        λ e.
            f.order
            ∙ ap (λ w. t.capture.file ++ (held w ++ t.capture.items)) e
            ∙ ap (λ l. t.capture.file ++ l) (i.empty (ap is_closed e)).0
            ∙ append-nil t.capture.file,
      ),
    )
