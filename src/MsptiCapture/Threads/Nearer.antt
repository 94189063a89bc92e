-- ===== src/MsptiCapture/Threads/Nearer.antt =====
-- How many steps the writer takes after `writer_done` is set.
use hang_analyzer.Prelude.{
  ℕ, zero, suc, ◌+◌, ◌*◌, ◌≤◌, ◌≡◌, ◌≢◌, refl, sym, ap, subst, Bool, true, false, inl, inr, List,
  [], ◌∷◌, length, arith,
}
use hang_analyzer.MsptiCapture.{Item, write_item, sync_file, sync_if_due}
use hang_analyzer.MsptiCapture.Monitors.{Replies}
use hang_analyzer.MsptiCapture.Threads.{
  WriterPc, opening, waiting, getting, holding, wrote, closed, failed, System, Put, Step, call_back,
  leave_loop, poll, put_state, flush_monitors, put_tick, close_monitors, open_file, enter_loop,
  take, time_out, write, sync, close_file, fail_open, fail_write, fail_sync, request_stop,
  give_up_flush, join_flush, join_writer,
}

-- How far the writer is from its end, once `writer_done` is set.
unfoldable pub distance : WriterPc → ℕ → ℕ
distance closed n = 0
distance (failed lost) n = 0
distance opening n = 4 * n + 2
distance waiting n = 4 * n + 1
distance getting zero = 3
distance getting (suc n) = 4 * suc n
distance (holding i) n = 4 * n + 3
distance wrote n = 4 * n + 2

-- A step of the writer's thread.
unfoldable pub by_writer :
    {P : Replies → Type 0} {s t : System} {puts : List Put} → Step P s puts t → Bool
by_writer (call_back kind a d) = false
by_writer (leave_loop e q) = false
by_writer (poll path read r o e q) = false
by_writer (put_state time enabled final e) = false
by_writer (flush_monitors r o e) = false
by_writer (put_tick time flush_ok e) = false
by_writer (close_monitors r o e) = false
by_writer (open_file e) = true
by_writer (enter_loop e q) = true
by_writer (take x rest e q) = true
by_writer (time_out e q) = true
by_writer (write x e) = true
by_writer (sync passed e) = true
by_writer (close_file e q d) = true
by_writer (fail_open m e) = true
by_writer (fail_write m x e) = true
by_writer (fail_sync m e) = true
by_writer (request_stop e q) = false
by_writer (give_up_flush e q) = false
by_writer (join_flush e q) = false
by_writer (join_writer e) = false

abbrev pub remaining : System → ℕ
remaining s = distance s.writer (length s.capture.items)

distance-bound : (w : WriterPc) (n : ℕ) → distance w n ≤ 4 * n + 3
unfolding distance
distance-bound closed n = omega arith
distance-bound (failed lost) n = omega arith
distance-bound opening n = omega arith
distance-bound waiting n = omega arith
distance-bound getting zero = omega arith
distance-bound getting (suc n) = omega arith
distance-bound (holding i) n = omega arith
distance-bound wrote n = omega arith

-- A queue that is not empty is entered.
entered :
    (is : List Item) → is ≢ [] → suc (distance getting (length is)) ≤ distance waiting (length is)
unfolding distance
entered [] n = absurd (n refl)
entered (i ∷ is) n = omega arith

taken :
    (i : Item) {is : List Item} (js : List Item)
    → js ≡ i ∷ is
    → suc (distance (holding i) (length is)) ≤ distance getting (length js)
unfolding distance
taken i {is} [] e = cc e
taken i {is} (j ∷ js) e = omega (arith, ap length e)

timed_out :
    (is : List Item) → is ≡ [] → suc (distance wrote (length is)) ≤ distance getting (length is)
unfolding distance
timed_out [] e = omega arith
timed_out (i ∷ is) e = cc e

from_state : {w v : WriterPc} {m : ℕ} (n : ℕ) → w ≡ v → suc m ≤ distance v n → suc m ≤ distance w n
from_state {m} n e le = subst (λ u. suc m ≤ distance u n) (sym e) le

nearer :
    {P : Replies → Type 0} {s : System} {puts : List Put} {t : System} (st : Step P s puts t)
    → by_writer st ≡ true
    → s.capture.writer_done ≡ true
    → suc (remaining t) ≤ remaining s
unfolding distance by_writer write_item sync_if_due sync_file
nearer (open_file e) b d = from_state _ e (omega arith)
nearer (enter_loop e (inl q)) b d = cc (d, q)
nearer {s} (enter_loop e (inr q)) b d = from_state _ e (entered s.capture.items q)
nearer {s} (take i rest e q) b d = from_state _ e (taken i s.capture.items q)
nearer {s} (time_out e q) b d = from_state _ e (timed_out s.capture.items q)
nearer (write i e) b d = from_state _ e (omega arith)
nearer (sync true e) b d = from_state _ e (omega arith)
nearer {s} (sync false e) b d = from_state _ e (rw d (omega arith))
nearer (close_file e q _) b d = from_state _ e (omega arith)
nearer (fail_open m e) b d = from_state _ e (omega arith)
nearer (fail_write m i e) b d = from_state _ e (omega arith)
nearer (fail_sync m e) b d = from_state _ e (omega arith)
nearer (call_back kind a q) b d = cc b
nearer (leave_loop e q) b d = cc b
nearer (poll path read r o e q) b d = cc b
nearer (put_state time enabled final e) b d = cc b
nearer (flush_monitors r o e) b d = cc b
nearer (put_tick time flush_ok e) b d = cc b
nearer (close_monitors r o e) b d = cc b
nearer (request_stop e q) b d = cc b
nearer (give_up_flush e q) b d = cc b
nearer (join_flush e q) b d = cc b
nearer (join_writer e) b d = cc b

-- Once `writer_done` is set, every step of the writer brings it closer to its end, so that it takes at
-- most four steps for each item in the queue and three more.
pub by_writer-nearer :
    {P : Replies → Type 0} {s : System} {puts : List Put} {t : System} (st : Step P s puts t)
    → by_writer st ≡ true
    → s.capture.writer_done ≡ true
    → (suc (remaining t) ≤ remaining s) × (remaining s ≤ 4 * length s.capture.items + 3)
by_writer-nearer {s} st b d = (nearer st b d, distance-bound s.writer (length s.capture.items))
