-- ===== src/MsptiCapture/Threads/Fifo.antt =====
-- What becomes of an offer to the queue, in every order of the steps.
pub mod Steps
use mathlib.Core.List.{append-nil, append_assoc}
use hang_analyzer.Prelude.{
  ℕ, zero, suc, ◌+◌, ◌≤◌, ◌≡◌, ◌≢◌, refl, sym, ap, subst, ◌∙◌, Bool, true, false, not, ◌&&◌, ◌||◌,
  inl, inr, Option, none, some, List, [], ◌∷◌, ◌++◌, leb, length, if◌then◌else◌, Bool-cases, Dict,
  lookup, lookup-insert_self, lookup-insert_ne, arith, Text,
}
use hang_analyzer.MsptiCapture.{
  Answer, returned, raised, Kind, Kind-discrete, activity, Item, kind_of, Library, MsptiCapture,
  is_full, put_control, enqueue, count_kind, write_item, sync_file, sync_if_due,
}
use hang_analyzer.MsptiCapture.Monitors.{
  Code, FileRead, Replies, enabled_by_file, switch, start_monitors, start_comm, undo_start,
  stop_monitors, note_stop, kernel_stopped, comm_stopped, announce, flush, tick, round_error,
}
use hang_analyzer.MsptiCapture.Threads.{
  FlushPc, WriterPc, opening, waiting, getting, holding, wrote, closed, failed, System, Put,
  accepted, refused, offer, callback_offers, after_switch, after_read, after_flush, after_closing,
  Step,
}

-- What the methods have in common that leave the queue and the file alone.
abbrev pub queue_part : MsptiCapture → List Item × List Item × ℕ × Dict Kind ℕ × ℕ
queue_part c = (c.items, c.file, c.dropped, c.written, c.queue_size)

pub switch-queue_part :
    (b : Bool) (r : Replies) (c : MsptiCapture) → queue_part (switch b r c).1 ≡ queue_part c
unfolding switch
switch-queue_part true r c = ground arith
switch-queue_part false r c = ground arith

pub after_switch-queue_part :
    (b : Bool) (p : Answer Bool × MsptiCapture) → queue_part (after_switch b p).1 ≡ queue_part p.1
unfolding round_error
after_switch-queue_part b (returned true, c) = refl
after_switch-queue_part b (returned false, c) = refl
after_switch-queue_part b (raised m, c) = refl

pub enabled_by_file-queue_part :
    (path : Option Text) (read : FileRead) (c : MsptiCapture)
    → queue_part (enabled_by_file path read c).1 ≡ queue_part c
unfolding enabled_by_file
enabled_by_file-queue_part path read c = ground arith

pub after_read-queue_part :
    (r : Replies) (p : Answer Bool × MsptiCapture) → queue_part (after_read r p).1 ≡ queue_part p.1
unfolding round_error
after_read-queue_part r (returned b, c) =
    after_switch-queue_part b (switch b r c) ∙ switch-queue_part b r c
after_read-queue_part r (raised m, c) = refl

pub after_flush-queue_part :
    (r : Replies) (c : MsptiCapture) → queue_part (after_flush (flush r c)).1 ≡ queue_part c
unfolding flush round_error
after_flush-queue_part r c = ground arith

pub after_closing-queue_part :
    (p : Answer Bool × MsptiCapture) → queue_part (after_closing p).1 ≡ queue_part p.1
after_closing-queue_part (returned true, c) = refl
after_closing-queue_part (returned false, c) = refl
after_closing-queue_part (raised m, c) = refl

-- The items that the queue has accepted.
unfoldable pub accepted_items : List Put → List Item
accepted_items [] = []
accepted_items (accepted i ∷ ps) = i ∷ accepted_items ps
accepted_items (refused i ∷ ps) = accepted_items ps

unfoldable pub refused_count : List Put → ℕ
refused_count [] = 0
refused_count (accepted i ∷ ps) = refused_count ps
refused_count (refused i ∷ ps) = suc (refused_count ps)

accepted_items-append :
    (xs ys : List Put) → accepted_items (xs ++ ys) ≡ accepted_items xs ++ accepted_items ys
unfolding accepted_items
accepted_items-append [] ys = refl
accepted_items-append (accepted i ∷ xs) ys = λ k. i ∷ accepted_items-append xs ys k
accepted_items-append (refused i ∷ xs) ys = accepted_items-append xs ys

refused_count-append :
    (xs ys : List Put) → refused_count (xs ++ ys) ≡ refused_count xs + refused_count ys
unfolding refused_count
refused_count-append [] ys = omega arith
refused_count-append (accepted i ∷ xs) ys = refused_count-append xs ys
refused_count-append (refused i ∷ xs) ys = omega (arith, refused_count-append xs ys)

-- What the writer has taken from the queue and not written, or could not write.
abbrev pub held : WriterPc → List Item
held (holding i) = i ∷ []
held (failed lost) = lost
held opening = []
held waiting = []
held getting = []
held wrote = []
held closed = []

-- How often the kind occurs among the items.
unfoldable pub occurrences : Kind → List Item → ℕ
occurrences k [] = 0
occurrences k (i ∷ is) =
    let rest = occurrences k is in
    elim (Kind-discrete (kind_of i) k) [ yes _ ↦ suc rest | no _ ↦ rest ]

-- `counter[k]`
abbrev pub tally : Kind → Dict Kind ℕ → ℕ
tally k d = elim (lookup Kind-discrete k d) [ none ↦ 0 | some n ↦ n ]

-- The accepted items, in their order, are those in the file, the one that the writer holds, and those
-- in the queue, which keeps its bound; `dropped` counts the refused ones, and `written` those in the
-- file by their kind.
pub record IsFifo (log : List Put) (w : WriterPc) (c : MsptiCapture) : Type 0 where
  pub order : accepted_items log ≡ c.file ++ (held w ++ c.items)
  pub bounded : length c.items ≤ c.queue_size
  pub counted : c.dropped ≡ refused_count log
  pub tallied : (k : Kind) → tally k c.written ≡ occurrences k c.file

pub queue_part-IsFifo :
    {log : List Put} {w w' : WriterPc} {c c' : MsptiCapture}
    → queue_part c' ≡ queue_part c
    → held w' ≡ held w
    → IsFifo log w c
    → IsFifo (log ++ []) w' c'
queue_part-IsFifo {log} {w} {w'} {c} {c'} q h f = rw (append-nil log) (record {
  order =
      f.order
      ∙ ap (λ p. p.1 ++ (held w ++ p.0)) (sym q)
      ∙ ap (λ l. c'.file ++ (l ++ c'.items)) (sym h);
  bounded = subst (λ p. length p.0 ≤ p.4) (sym q) f.bounded;
  counted = ap (λ p. p.2) q ∙ f.counted;
  tallied = λ k. ap (λ p. tally k p.3) q ∙ f.tallied k ∙ ap (λ p. occurrences k p.1) (sym q);
})

length-snoc : (xs : List Item) (x : Item) → length (xs ++ x ∷ []) ≡ length xs + 1
length-snoc [] x = omega arith
length-snoc (y ∷ xs) x = omega (arith, length-snoc xs x)

-- An offer enters the queue or is counted as dropped.
pub put_control-IsFifo :
    (item : Item) {log : List Put} {w : WriterPc} {c : MsptiCapture}
    → IsFifo log w c
    → IsFifo (log ++ offer item c ∷ []) w (put_control item c)
unfolding put_control accepted_items refused_count
put_control-IsFifo item {log} {w} {c} f = elim (Bool-cases (is_full c)) [
  | inl full ↦ rw full (record {
    order =
        accepted_items-append log (refused item ∷ []) ∙ append-nil (accepted_items log) ∙ f.order;
    bounded = f.bounded;
    counted = omega (arith, f.counted, refused_count-append log (refused item ∷ []));
    tallied = f.tallied;
  })
  | inr room ↦ rw room (record {
    order =
        accepted_items-append log (accepted item ∷ [])
        ∙ ap (λ l. l ++ item ∷ []) f.order
        ∙ append_assoc c.file (held w ++ c.items) (item ∷ [])
        ∙ ap (λ l. c.file ++ l) (append_assoc (held w) c.items (item ∷ []));
    bounded = ground (arith, length-snoc c.items item);
    counted = omega (arith, f.counted, refused_count-append log (accepted item ∷ []));
    tallied = f.tallied;
  })
]
