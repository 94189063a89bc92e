-- ===== src/MsptiCapture/Threads/Fifo/Steps.antt =====
-- Every step keeps the order of the queue and the counts, whatever the library replies.
use mathlib.Core.List.{append-nil, append_assoc}
use hang_analyzer.Prelude.{
  ℕ, ◌+◌, ◌≡◌, refl, sym, ap, subst, ◌∙◌, Bool, false, Option, none, some, List, [], ◌∷◌, ◌++◌,
  length, Dict, lookup, lookup-insert_self, lookup-insert_ne, arith,
}
use hang_analyzer.MsptiCapture.{
  Answer, returned, raised, Kind, Kind-discrete, activity, record_activity, Item, kind_of,
  state_item, tick_item, MsptiCapture, enqueue, count_kind, write_item, sync_if_due,
}
use hang_analyzer.MsptiCapture.Monitors.{Code, Replies, enabled_by_file, switch, announce, tick}
use hang_analyzer.MsptiCapture.Start.{new_capture, start_capture, IsFresh, start_capture-IsFresh}
use hang_analyzer.MsptiCapture.Threads.{
  WriterPc, opening, getting, holding, wrote, System, Put, callback_offers, Step, call_back,
  leave_loop, poll, put_state, flush_monitors, put_tick, close_monitors, open_file, enter_loop,
  take, time_out, write, sync, close_file, fail_open, fail_write, fail_sync, request_stop,
  give_up_flush, join_flush, join_writer, Run, here, next, initial,
}
use hang_analyzer.MsptiCapture.Threads.Fifo.{
  queue_part, switch-queue_part, enabled_by_file-queue_part, after_read-queue_part,
  after_flush-queue_part, after_closing-queue_part, occurrences, tally, held, IsFifo,
  queue_part-IsFifo, put_control-IsFifo, accepted_items, refused_count,
}

occurrences-snoc :
    (k : Kind) (is : List Item) (i : Item)
    → occurrences k (is ++ i ∷ []) ≡ occurrences k is + occurrences k (i ∷ [])
unfolding occurrences
occurrences-snoc k [] i = omega arith
occurrences-snoc k (j ∷ is) i = ground (arith, occurrences-snoc k is i)

tally-count_kind_self : (k : Kind) (d : Dict Kind ℕ) → tally k (count_kind k d) ≡ tally k d + 1
unfolding count_kind
tally-count_kind_self k d = ground (arith, lookup-insert_self Kind-discrete k (tally k d + 1) d)

tally-count_kind :
    (k : Kind) (i : Item) (d : Dict Kind ℕ)
    → tally k (count_kind (kind_of i) d) ≡ tally k d + occurrences k (i ∷ [])
unfolding count_kind occurrences
tally-count_kind k i d = elim (Kind-discrete (kind_of i) k) [
  | yes e ↦
      let one : occurrences k (i ∷ []) ≡ 1 = ground arith in
      omega (arith, one, ap (λ j. tally k (count_kind j d)) e, tally-count_kind_self k d)
  | no n ↦
      let zero_here : occurrences k (i ∷ []) ≡ 0 = ground arith in
      let v : ℕ = elim (lookup Kind-discrete (kind_of i) d) [ none ↦ 1 | some m ↦ m + 1 ] in
      let same : tally k (count_kind (kind_of i) d) ≡ tally k d =
        ap (λ o. tally_of o) (lookup-insert_ne Kind-discrete (kind_of i) k v d n) in
      omega (arith, zero_here, same)
]
  where
    tally_of : Option ℕ → ℕ
    tally_of o = elim o [ none ↦ 0 | some n ↦ n ]

write_item-IsFifo :
    (i : Item) {log : List Put} {c : MsptiCapture}
    → IsFifo log (holding i) c
    → IsFifo (log ++ []) wrote (write_item i c)
unfolding write_item
write_item-IsFifo i {log} {c} f = rw (append-nil log) (record {
  order = f.order ∙ sym (append_assoc c.file (i ∷ []) c.items);
  bounded = f.bounded;
  counted = f.counted;
  tallied =
      λ k. omega (arith, f.tallied k, tally-count_kind k i c.written, occurrences-snoc k c.file i);
})

-- The state of the writer may be rewritten, and the parts that are alike exchanged.
moved :
    {log : List Put} {w w' v : WriterPc} {c c' : MsptiCapture}
    → w ≡ v
    → held w' ≡ held v
    → queue_part c' ≡ queue_part c
    → IsFifo log w c
    → IsFifo (log ++ []) w' c'
moved {w'} e h q f = queue_part-IsFifo q (h ∙ sym (ap held e)) f

callback-IsFifo :
    (kind : Kind) (a : Answer _) {log : List Put} {w : WriterPc} {c : MsptiCapture}
    → IsFifo log w c
    → IsFifo (log ++ callback_offers kind a c) w (enqueue kind a c)
unfolding enqueue
callback-IsFifo kind (returned a) f = put_control-IsFifo (activity (record_activity kind a)) f
callback-IsFifo kind (raised m) f = queue_part-IsFifo refl refl f

take-IsFifo :
    (i : Item) (rest : List Item) {log : List Put} {c : MsptiCapture}
    → c.items ≡ i ∷ rest
    → IsFifo log getting c
    → IsFifo (log ++ []) (holding i) (record c { items = rest })
take-IsFifo i rest {log} {c} e f = rw (append-nil log) (record {
  order = f.order ∙ ap (λ l. c.file ++ l) e;
  bounded = omega (arith, f.bounded, ap length e);
  counted = f.counted;
  tallied = f.tallied;
})

sync_if_due-queue_part :
    (passed : Bool) (c : MsptiCapture) → queue_part (sync_if_due passed c) ≡ queue_part c
unfolding sync_if_due
sync_if_due-queue_part passed c = ground arith

Step-IsFifo :
    {P : Replies → Type 0} {log : List Put} {s : System} {puts : List Put} {t : System}
    → Step P s puts t
    → IsFifo log s.writer s.capture
    → IsFifo (log ++ puts) t.writer t.capture
unfolding announce tick
Step-IsFifo (call_back kind a _) f = callback-IsFifo kind a f
Step-IsFifo (leave_loop _ _) f = queue_part-IsFifo refl refl f
Step-IsFifo {s} (poll path read r _ _ _) f =
    queue_part-IsFifo
      (after_read-queue_part r (enabled_by_file path read s.capture)
        ∙ enabled_by_file-queue_part path read s.capture)
      refl f
Step-IsFifo (put_state time enabled final _) f = put_control-IsFifo (state_item time enabled) f
Step-IsFifo {s} (flush_monitors r _ _) f =
    queue_part-IsFifo (after_flush-queue_part r s.capture) refl f
Step-IsFifo {s} (put_tick time flush_ok _) f =
    put_control-IsFifo (tick_item time s.capture.monitor_active flush_ok s.capture.dropped) f
Step-IsFifo {s} (close_monitors r _ _) f =
    queue_part-IsFifo
      (after_closing-queue_part (switch false r s.capture) ∙ switch-queue_part false r s.capture)
      refl f
Step-IsFifo (open_file e) f = moved e refl refl f
Step-IsFifo (enter_loop e _) f = moved e refl refl f
Step-IsFifo {log} {s} (take i rest e q) f =
    take-IsFifo i rest q (subst (λ w. IsFifo log w s.capture) e f)
Step-IsFifo (time_out e _) f = moved e refl refl f
Step-IsFifo {log} {s} (write i e) f = write_item-IsFifo i (subst (λ w. IsFifo log w s.capture) e f)
Step-IsFifo {s} (sync passed e) f = moved e refl (sync_if_due-queue_part passed s.capture) f
Step-IsFifo (close_file e _ _) f = moved e refl refl f
Step-IsFifo (fail_open m e) f = moved e refl refl f
Step-IsFifo (fail_write m i e) f = moved e refl refl f
Step-IsFifo (fail_sync m e) f = moved e refl refl f
Step-IsFifo (request_stop _ _) f = queue_part-IsFifo refl refl f
Step-IsFifo (give_up_flush _ _) f = queue_part-IsFifo refl refl f
Step-IsFifo (join_flush _ _) f = queue_part-IsFifo refl refl f
Step-IsFifo (join_writer _) f = queue_part-IsFifo refl refl f

initial-IsFifo : {c : MsptiCapture} → IsFresh c → IsFifo [] opening c
unfolding accepted_items refused_count occurrences lookup
initial-IsFifo f = record {
  order = rw (f.file, f.items) refl;
  bounded = rw f.items (omega arith);
  counted = f.dropped;
  tallied = λ k. rw (f.written, f.file) refl;
}

steps-IsFifo :
    {P : Replies → Type 0} {c : MsptiCapture} {log : List Put} {t : System}
    → IsFresh c
    → Run P (initial c) log t
    → IsFifo log t.writer t.capture
steps-IsFifo f here = initial-IsFifo f
steps-IsFifo f (next r st) = Step-IsFifo st (steps-IsFifo f r)

-- In every order of the steps of the callbacks, the flush thread, the writer and `stop` behind a
-- successful start of a new capture, whatever the library replies: the accepted items, in their order,
-- are those in the file, the one that the writer holds or could not write, and those in the queue; the
-- queue keeps its bound; `dropped` is the number of refused offers; and `written` counts the items in
-- the file by their kind.
pub Run-IsFifo :
    {P : Replies → Type 0} (interval buffer_mb queue_size : ℕ) (buffer : Answer Code)
    {c d : MsptiCapture} {log : List Put} {t : System}
    → new_capture interval buffer_mb queue_size ≡ returned c
    → start_capture buffer c ≡ (returned tt, d)
    → Run P (initial d) log t
    → IsFifo log t.writer t.capture
Run-IsFifo interval buffer_mb queue_size buffer new start run =
    steps-IsFifo (start_capture-IsFresh interval buffer_mb queue_size buffer new start) run
