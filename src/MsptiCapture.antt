-- ===== src/MsptiCapture.antt =====
-- python/mspti_activity_capture.py: the state of `MsptiCapture`, `_record`, and the methods that put
-- items into the queue. The msPTI library, the clock and the files enter as what each call of them
-- returned or raised; an item is what `_record` returns, before it is printed as JSON. An increment of
-- a counter is one step.
pub mod Monitors
pub mod Start
pub mod Threads
use mathlib.Core.Option
use hang_analyzer.Prelude.{
  ℕ, ◌+◌, ◌-◌, ltb, leb, ◌==◌, Bool, true, false, not, ◌&&◌, Option, none, some, List, [], ◌∷◌,
  ◌++◌, length, if◌then◌else◌, Text, codes, Dict, lookup, insert,
}

-- What a call returned, or the type and text of what it raised.
pub data Answer (A : Type 0) : Type 0 where
  returned : A → Answer A
  raised : Text → Answer A

pub data Kind : Type 0 where
  kernel communication capture_state flush_tick : Kind

unfoldable pub Kind-discrete : Discrete Kind
Kind-discrete = hlevel

-- The fields that only one of the two kinds of activity has.
pub data Detail : Type 0 where
  of_kernel : (kernel_type : Text) → Detail
  of_communication : (comm_name alg_type : Text) (count data_type : ℕ) → Detail

-- The fields of a record of msPTI; its times are unsigned.
pub record Activity : Type 0 where
  pub start : ℕ
  pub end : ℕ
  pub device_id : ℕ
  pub stream_id : ℕ
  pub correlation_id : ℕ
  pub name : Text
  pub detail : Detail

pub record ActivityItem : Type 0 where
  pub kind : Kind
  pub device_id : ℕ
  pub stream_id : ℕ
  pub correlation_id : ℕ
  pub name : Text
  pub start_ns : ℕ
  pub end_ns : ℕ
  pub timestamp_valid : Bool
  pub duration_ns : Option ℕ
  pub detail : Detail

-- `start > 0 and end >= start`
abbrev pub valid_times : ℕ → ℕ → Bool
valid_times start end = ltb 0 start && leb start end

-- `_record`
unfoldable pub record_activity : Kind → Activity → ActivityItem
record_activity kind a = record {
  kind = kind;
  device_id = a.device_id;
  stream_id = a.stream_id;
  correlation_id = a.correlation_id;
  name = a.name;
  start_ns = a.start;
  end_ns = a.end;
  timestamp_valid = valid_times a.start a.end;
  duration_ns = if valid_times a.start a.end then some (a.end - a.start) else none;
  detail = a.detail;
}

-- What stands in the queue: an activity, or a control item of the flush thread.
pub data Item : Type 0 where
  activity : ActivityItem → Item
  state_item : (host_time_ns : ℕ) (enabled : Bool) → Item
  tick_item : (host_time_ns : ℕ) (enabled : Bool) (flush_ok : Option Bool) (dropped : ℕ) → Item

-- `item["kind"]`
unfoldable pub kind_of : Item → Kind
kind_of (activity a) = a.kind
kind_of (state_item _ _) = capture_state
kind_of (tick_item _ _ _ _) = flush_tick

-- Whether each monitor delivers activities, which the library knows.
pub record Library : Type 0 where
  pub kernel_on : Bool
  pub comm_on : Bool

-- The attributes that change, the file that the writer appends to, and the library. `queue_size` is
-- the bound of the queue, `synced` the number of items at the last `fsync`.
pub record MsptiCapture : Type 0 where
  pub queue_size : ℕ
  pub items : List Item
  pub stop_requested : Bool
  pub writer_done : Bool
  pub started : Bool
  pub monitor_active : Bool
  pub transitions : ℕ
  pub dropped : ℕ
  pub callback_errors : ℕ
  pub flush_errors : ℕ
  pub written : Dict Kind ℕ
  pub last_error : Option Text
  pub file : List Item
  pub synced : ℕ
  pub library : Library

-- `self.items` has no room; `put_nowait` then raises `queue.Full`.
abbrev pub is_full : MsptiCapture → Bool
is_full c = leb c.queue_size (length c.items)

-- `put_nowait` and the handler of `queue.Full`; this is `_put_control`.
unfoldable pub put_control : Item → MsptiCapture → MsptiCapture
put_control item c =
    if is_full c
    then record c { dropped = c.dropped + 1 }
    else record c { items = c.items ++ item ∷ [] }

-- `_enqueue`, from what reading the fields of the record returned or raised.
unfoldable pub enqueue : Kind → Answer Activity → MsptiCapture → MsptiCapture
unfolding put_control record_activity
enqueue kind (returned a) c = put_control (activity (record_activity kind a)) c
enqueue kind (raised m) c = record c {
  callback_errors = c.callback_errors + 1;
  last_error = some (codes "callback " ++ m);
}

-- `self.written[kind] += 1` of a `Counter`
unfoldable pub count_kind : Kind → Dict Kind ℕ → Dict Kind ℕ
unfolding lookup insert
count_kind k d =
    insert Kind-discrete k (elim (lookup Kind-discrete k d) [ none ↦ 1 | some n ↦ n + 1 ]) d

-- `handle.write(...)` and the count
unfoldable pub write_item : Item → MsptiCapture → MsptiCapture
unfolding count_kind kind_of
write_item item c = record c {
  file = c.file ++ item ∷ [];
  written = count_kind (kind_of item) c.written;
}

-- `handle.flush()` and `os.fsync(...)`
unfoldable pub sync_file : MsptiCapture → MsptiCapture
sync_file c = record c { synced = length c.file }

-- The second test of the loop: `passed` says whether the deadline has.
unfoldable pub sync_if_due : Bool → MsptiCapture → MsptiCapture
unfolding sync_file
sync_if_due true c = sync_file c
sync_if_due false c = if c.writer_done then sync_file c else c
