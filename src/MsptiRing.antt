-- ===== src/MsptiRing.antt =====
-- flightrecorder/mspti_ring.py: `read_ring` and the lists that `report` prints. The file is mapped
-- while a recorder writes to it: its length and header are read once, and for each slot there are
-- three reads of the mapped bytes. Python's UTF-8 decoder is a parameter.
pub mod Published
pub mod Ring
pub mod Calls
pub mod Report
use mathlib.Core.Option
use hang_analyzer.Prelude.{
  ℕ, zero, suc, ◌+◌, ◌-◌, ◌*◌, ◌%◌, max, Bool, true, false, not, ◌&&◌, ◌||◌, ◌==◌, ltb, Option,
  none, some, List, [], ◌∷◌, ◌++◌, length, take, drop, if◌then◌else◌, Text, codes, decimal, Dict,
  lookup, ℕ_discrete,
}
use hang_analyzer.Prelude.Result.{Result, ok, err, value_error, struct_error, ◌>>=◌}
use hang_analyzer.Format.{Bytes, uint}

-- `MAGIC`, 0x315450534D474E48
abbrev pub ring_magic : ℕ
ring_magic = 3554554324611190344

-- `HEADER`, "<QIIQIIQQQQ"
pub record RingHeader : Type 0 where
  pub magic_read : ℕ
  pub version : ℕ
  pub size : ℕ
  pub capacity : ℕ
  pub pid : ℕ
  pub written : ℕ
  pub wall_ns : ℕ
  pub mono_ns : ℕ
  pub dropped : ℕ

unfoldable pub unpack_ring_header : Bytes → Result RingHeader
unpack_ring_header mapped = do
  (magic, mapped) ← uint 8 mapped
  (version, mapped) ← uint 4 mapped
  (size, mapped) ← uint 4 mapped
  (capacity, mapped) ← uint 8 mapped
  (pid, mapped) ← uint 4 mapped
  (_, mapped) ← uint 4 mapped
  (written, mapped) ← uint 8 mapped
  (wall, mapped) ← uint 8 mapped
  (mono, mapped) ← uint 8 mapped
  (dropped, mapped) ← uint 8 mapped
  ok (record {
    magic_read = magic;
    version = version;
    size = size;
    capacity = capacity;
    pid = pid;
    written = written;
    wall_ns = wall;
    mono_ns = mono;
    dropped = dropped;
  })

-- "64s"
unfoldable pub chars : ℕ → Bytes → Result (Bytes × Bytes)
chars n mapped =
    if ltb (length mapped) n then err struct_error else ok (take n mapped, drop n mapped)

-- `EVENT_V1`, "<QQQQQIIIIHHI64s", and `EVENT`, which has 64 more characters.
pub record RawRecord : Type 0 where
  pub seq : ℕ
  pub observed_ns : ℕ
  pub start_ns : ℕ
  pub end_ns : ℕ
  pub correlation_id : ℕ
  pub pid : ℕ
  pub tid : ℕ
  pub device : ℕ
  pub stream : ℕ
  pub kind : ℕ
  pub flags : ℕ
  pub code : ℕ
  pub name : Bytes
  pub detail : Bytes

-- `raw[13]`; version 1 has no such field.
unfoldable pub unpack_detail : ℕ → Bytes → Result (Bytes × Bytes)
unfolding chars
unpack_detail version mapped = if version == 2 then chars 64 mapped else ok ([], mapped)

unfoldable pub unpack_record : ℕ → Bytes → Result RawRecord
unfolding chars unpack_detail
unpack_record version mapped = do
  (seq, mapped) ← uint 8 mapped
  (observed, mapped) ← uint 8 mapped
  (start, mapped) ← uint 8 mapped
  (end, mapped) ← uint 8 mapped
  (corr, mapped) ← uint 8 mapped
  (pid, mapped) ← uint 4 mapped
  (tid, mapped) ← uint 4 mapped
  (device, mapped) ← uint 4 mapped
  (stream, mapped) ← uint 4 mapped
  (kind, mapped) ← uint 2 mapped
  (flags, mapped) ← uint 2 mapped
  (code, mapped) ← uint 4 mapped
  (name, mapped) ← chars 64 mapped
  (detail, _) ← unpack_detail version mapped
  ok (record {
    seq = seq;
    observed_ns = observed;
    start_ns = start;
    end_ns = end;
    correlation_id = corr;
    pid = pid;
    tid = tid;
    device = device;
    stream = stream;
    kind = kind;
    flags = flags;
    code = code;
    name = name;
    detail = detail;
  })

-- `LABELS`
abbrev pub labels : Dict ℕ Text
labels =
    (1, codes "runtime_enter")
    ∷ (2, codes "runtime_exit")
    ∷ (3, codes "hccl_enter")
    ∷ (4, codes "hccl_exit")
    ∷ (5, codes "kernel_done")
    ∷ (6, codes "hccl_done")
    ∷ (7, codes "status")
    ∷ (8, codes "runtime_api_done")
    ∷ []

-- `LABELS.get(k, f"unknown_{k}")`
unfoldable pub label : ℕ → Text
unfolding lookup decimal
label k = elim (lookup ℕ_discrete k labels) [
  | none ↦ codes "unknown_" ++ decimal k
  | some name ↦ name
]

-- `b.split(b"\0", 1)[0]`
unfoldable pub before_zero : Bytes → Bytes
before_zero [] = []
before_zero (zero ∷ bs) = []
before_zero (suc b ∷ bs) = suc b ∷ before_zero bs

pub record RingEvent : Type 0 where
  pub seq : ℕ
  pub observed_ns : ℕ
  pub start_ns : ℕ
  pub end_ns : ℕ
  pub correlation_id : ℕ
  pub pid : ℕ
  pub tid : ℕ
  pub device : ℕ
  pub stream : ℕ
  pub kind : Text
  pub flags : ℕ
  pub code : ℕ
  pub name : Text
  pub detail : Text

-- The mapped bytes at the three reads of a slot.
pub record Views : Type 0 where
  pub before : Bytes
  pub raw : Bytes
  pub after : Bytes

-- `version, size`
unfoldable pub is_supported : RingHeader → Bool
is_supported h = (h.version == 1 && h.size == 128) || (h.version == 2 && h.size == 192)

abbrev pub first_seq : RingHeader → ℕ
first_seq h = max 1 (h.written + 1 - h.capacity)

abbrev pub slot_offset : RingHeader → ℕ → ℕ
slot_offset h seq = 128 + (seq - 1) % h.capacity * h.size

-- `range(first, written + 1)`
unfoldable pub range_length : RingHeader → ℕ
range_length h = h.written + 1 - first_seq h

module _ (decode_utf8 : Bytes → Text) where
  unfoldable pub ring_event : ℕ → RawRecord → RingEvent
  unfolding label before_zero
  ring_event version r = record {
    seq = r.seq;
    observed_ns = r.observed_ns;
    start_ns = r.start_ns;
    end_ns = r.end_ns;
    correlation_id = r.correlation_id;
    pid = r.pid;
    tid = r.tid;
    device = r.device;
    stream = r.stream;
    kind = label r.kind;
    flags = r.flags;
    code = r.code;
    name = decode_utf8 (before_zero r.name);
    detail = if version == 2 then decode_utf8 (before_zero r.detail) else [];
  }

  -- The body of the loop for one sequence number; `none` stands for `continue`.
  unfoldable pub read_slot : RingHeader → ℕ → Views → Result (Option RingEvent)
  unfolding unpack_record ring_event
  read_slot h seq v = do
    (before, _) ← uint 8 (drop (slot_offset h seq) v.before)
    if not (before == seq) then ok none else do
      raw ← unpack_record h.version (drop (slot_offset h seq) v.raw)
      (after, _) ← uint 8 (drop (slot_offset h seq) v.after)
      ok (
          if not (raw.seq == seq) || not (after == seq)
          then none
          else some (ring_event h.version raw))

  unfoldable pub read_range : RingHeader → (ℕ → Views) → ℕ → ℕ → Result (List RingEvent)
  unfolding read_slot
  read_range h views seq zero = ok []
  read_range h views seq (suc n) = do
    e ← read_slot h seq (views seq)
    rest ← read_range h views (seq + 1) n
    ok (elim e [ none ↦ rest | some x ↦ x ∷ rest ])

  -- `mapped` is the content when the header is read; `overwritten` is `written - capacity`, or 0.
  unfoldable pub read_ring : Bytes → (ℕ → Views) → Result (RingHeader × ℕ × List RingEvent)
  unfolding unpack_ring_header read_range is_supported range_length
  read_ring mapped views =
      if ltb (length mapped) 128 then err (value_error (codes "ring header is truncated")) else do
        h ← unpack_ring_header mapped
        if not (h.magic_read == ring_magic) || not (is_supported h)
            then err (value_error (codes "unsupported msPTI ring format"))
            else if ltb (length mapped) (128 + h.capacity * h.size)
            then err (value_error (codes "ring is truncated"))
            else do
              events ← read_range h views (first_seq h) (range_length h)
              ok (h, h.written - h.capacity, events)
