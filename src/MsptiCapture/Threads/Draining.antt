-- ===== src/MsptiCapture/Threads/Draining.antt =====
-- The writer after `writer_done` is set: it drains the queue, and each of its steps comes closer to the end.
use mathlib.Core.List.{append-nil, append_assoc}
use hang_analyzer.Prelude.{◌≡◌, refl, sym, subst, ◌∙◌, Bool, true, false, inr, List, [], ◌∷◌, ◌++◌}
use hang_analyzer.MsptiCapture.{Item, MsptiCapture, write_item, sync_file, sync_if_due}
use hang_analyzer.MsptiCapture.Monitors.{Replies}
use hang_analyzer.MsptiCapture.Threads.{
  WriterPc, opening, waiting, getting, holding, wrote, closed, failed, System, Put, Step, open_file,
  enter_loop, take, time_out, write, sync, close_file, Run, next,
}
use hang_analyzer.MsptiCapture.Threads.Fifo.{held}

quiet_step :
    {P : Replies → Type 0} {s t u : System} {log : List Put}
    → Run P s log t
    → Step P t [] u
    → Run P s log u
quiet_step {P} {s} {u} {log} r st = subst (λ l. Run P s l u) (append-nil log) (next r st)

-- What the writer reaches on its own.
pub record Drained (P : Replies → Type 0) (s : System) (log : List Put) (is : List Item)
    (c : MsptiCapture) : Type 0 where
  pub final : System
  pub run : Run P s log final
  pub is_closed : final.writer ≡ closed
  pub empty : final.capture.items ≡ []
  pub file : final.capture.file ≡ c.file ++ is

drain :
    (is : List Item) {P : Replies → Type 0} {s u : System} {log : List Put}
    → Run P s log u
    → u.writer ≡ waiting
    → u.capture.writer_done ≡ true
    → u.capture.items ≡ is
    → Drained P s log is u.capture
unfolding write_item sync_if_due sync_file
drain [] {u} r w d e = record {
  final = _;
  run = quiet_step r (close_file w e d);
  is_closed = refl;
  empty = e;
  file = sym (append-nil u.capture.file);
}
drain (i ∷ is) {u} r w d e =
    let r1 = quiet_step r (enter_loop w (inr (λ q. cc (q, e)))) in
    let r2 = quiet_step r1 (take i is refl e) in
    let r3 = quiet_step r2 (write i refl) in
    let r4 = quiet_step r3 (sync true refl) in
    let rest = drain is r4 refl d refl in
    record {
      final = rest.final;
      run = rest.run;
      is_closed = rest.is_closed;
      empty = rest.empty;
      file = rest.file ∙ append_assoc u.capture.file (i ∷ []) is;
    }

-- The writer has neither left its loop nor failed.
unfoldable pub is_alive : WriterPc → Bool
is_alive closed = false
is_alive (failed lost) = false
is_alive opening = true
is_alive waiting = true
is_alive getting = true
is_alive (holding i) = true
is_alive wrote = true

from_wrote :
    {P : Replies → Type 0} {s u : System} {log : List Put}
    → Run P s log u
    → u.writer ≡ wrote
    → u.capture.writer_done ≡ true
    → Drained P s log u.capture.items u.capture
unfolding sync_if_due sync_file
from_wrote {u} r w d =
    let rest = drain u.capture.items (quiet_step r (sync true w)) refl d refl in
    record {
      final = rest.final;
      run = rest.run;
      is_closed = rest.is_closed;
      empty = rest.empty;
      file = rest.file;
    }

from_holding :
    (i : Item) {P : Replies → Type 0} {s u : System} {log : List Put}
    → Run P s log u
    → u.writer ≡ holding i
    → u.capture.writer_done ≡ true
    → Drained P s log (i ∷ u.capture.items) u.capture
unfolding write_item
from_holding i {u} r w d =
    let rest = from_wrote (quiet_step r (write i w)) refl d in
    record {
      final = rest.final;
      run = rest.run;
      is_closed = rest.is_closed;
      empty = rest.empty;
      file = rest.file ∙ append_assoc u.capture.file (i ∷ []) u.capture.items;
    }

from_getting :
    (is : List Item) {P : Replies → Type 0} {s u : System} {log : List Put}
    → Run P s log u
    → u.writer ≡ getting
    → u.capture.writer_done ≡ true
    → u.capture.items ≡ is
    → Drained P s log is u.capture
from_getting [] {P} {s} {u} {log} r w d e =
    let rest = from_wrote (quiet_step r (time_out w e)) refl d in
    subst (λ l. Drained P s log l u.capture) e
      (record {
        final = rest.final;
        run = rest.run;
        is_closed = rest.is_closed;
        empty = rest.empty;
        file = rest.file;
      })
from_getting (i ∷ is) {u} r w d e =
    let rest = from_holding i (quiet_step r (take i is w e)) refl d in
    record {
      final = rest.final;
      run = rest.run;
      is_closed = rest.is_closed;
      empty = rest.empty;
      file = rest.file;
    }

from_any :
    (w : WriterPc) {P : Replies → Type 0} {s u : System} {log : List Put}
    → Run P s log u
    → u.writer ≡ w
    → is_alive w ≡ true
    → u.capture.writer_done ≡ true
    → Drained P s log (held w ++ u.capture.items) u.capture
unfolding is_alive
from_any opening {u} r e a d =
    let rest = drain u.capture.items (quiet_step r (open_file e)) refl d refl in
    record {
      final = rest.final;
      run = rest.run;
      is_closed = rest.is_closed;
      empty = rest.empty;
      file = rest.file;
    }
from_any waiting {u} r e a d = drain u.capture.items r e d refl
from_any getting {u} r e a d = from_getting u.capture.items r e d refl
from_any (holding i) r e a d = from_holding i r e d
from_any wrote r e a d = from_wrote r e d
from_any closed r e a d = cc a
from_any (failed lost) r e a d = cc a

-- Once `writer_done` is set, a writer that has neither ended nor failed can run to its end from any
-- state that was reached, without a further offer to the queue; it then leaves an empty queue, and
-- has appended to the file the item that it held and those of the queue, in their order.
pub Run-drains :
    {P : Replies → Type 0} {s u : System} {log : List Put}
    → Run P s log u
    → is_alive u.writer ≡ true
    → u.capture.writer_done ≡ true
    → Drained P s log (held u.writer ++ u.capture.items) u.capture
Run-drains {u} r a d = from_any u.writer r refl a d
