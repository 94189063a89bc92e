-- ===== src/Format.antt =====
-- flightrecorder/format.py: the layout of a flight file, `read_header` and `read_events`.
-- A file is the list of its bytes. `read_events` reads the file twice while the recorder may write
-- to it, so it takes what each of the two reads returned.
pub mod Unpack
pub mod Window
pub mod RoundTrip
pub mod Errors
use hang_analyzer.Prelude.{
  ℕ, zero, suc, ◌+◌, ◌-◌, ◌*◌, ◌/◌, ◌%◌, ◌^◌, min, max, Bool, true, false, ◌&&◌, ◌||◌, not, Option,
  none, some, List, [], ◌∷◌, ◌++◌, length, take, drop, get_elem?, ltb, leb, ◌==◌, if◌then◌else◌,
  sort_by, Text, codes, decimal, text_eq,
}
use hang_analyzer.Prelude.Result.{Result, ok, err, os_error, value_error, struct_error, ◌>>=◌}

abbrev pub Bytes : Type 0
Bytes = List ℕ

abbrev pub magic_number : ℕ
magic_number = 0x31524647534E4341

pub record Header : Type 0 where
  pub path : Text
  pub capacity : ℕ
  pub pid : ℕ
  pub rank : ℕ
  pub device : ℕ
  pub write_seq : ℕ
  pub last_ns : ℕ
  pub started_wall_ns : ℕ
  pub started_mono_ns : ℕ

pub record Event : Type 0 where
  pub timestamp_ns : ℕ
  pub seq : ℕ
  pub pid : ℕ
  pub tid : ℕ
  pub device : ℕ
  pub rank : ℕ
  pub stream : ℕ
  pub type : Text
  pub flags : ℕ
  pub correlation_id : ℕ
  pub arg0 : ℕ
  pub arg1 : ℕ

-- `struct` with "<": an unsigned little-endian integer of `w` bytes, and the bytes that follow.
unfoldable pub uint : ℕ → Bytes → Result (ℕ × Bytes)
uint zero bs = ok (0, bs)
uint (suc w) [] = err struct_error
uint (suc w) (b ∷ bs) = do (n, rest) ← uint w bs; ok (b + 256 * n, rest)

-- `HEADER`, "<QIIQIHHQQQQ": 64 bytes.
pub record RawHeader : Type 0 where
  pub magic : ℕ
  pub version : ℕ
  pub event_size : ℕ
  pub capacity : ℕ
  pub pid : ℕ
  pub rank : ℕ
  pub device : ℕ
  pub write_seq : ℕ
  pub last_ns : ℕ
  pub wall : ℕ
  pub mono : ℕ

unfoldable pub unpack_header : Bytes → Result RawHeader
unpack_header raw = do
  (magic, raw) ← uint 8 raw
  (version, raw) ← uint 4 raw
  (event_size, raw) ← uint 4 raw
  (capacity, raw) ← uint 8 raw
  (pid, raw) ← uint 4 raw
  (rank, raw) ← uint 2 raw
  (device, raw) ← uint 2 raw
  (write_seq, raw) ← uint 8 raw
  (last_ns, raw) ← uint 8 raw
  (wall, raw) ← uint 8 raw
  (mono, raw) ← uint 8 raw
  ok (record {
    magic = magic;
    version = version;
    event_size = event_size;
    capacity = capacity;
    pid = pid;
    rank = rank;
    device = device;
    write_seq = write_seq;
    last_ns = last_ns;
    wall = wall;
    mono = mono;
  })

-- `EVENT`, "<QQIIHHIHH4xQQQ": 64 bytes, four of them padding.
pub record RawEvent : Type 0 where
  pub t : ℕ
  pub seq : ℕ
  pub pid : ℕ
  pub tid : ℕ
  pub device : ℕ
  pub rank : ℕ
  pub stream : ℕ
  pub kind : ℕ
  pub flags : ℕ
  pub corr : ℕ
  pub a0 : ℕ
  pub a1 : ℕ

unfoldable pub unpack_event : Bytes → Result RawEvent
unpack_event raw = do
  (t, raw) ← uint 8 raw
  (seq, raw) ← uint 8 raw
  (pid, raw) ← uint 4 raw
  (tid, raw) ← uint 4 raw
  (device, raw) ← uint 2 raw
  (rank, raw) ← uint 2 raw
  (stream, raw) ← uint 4 raw
  (kind, raw) ← uint 2 raw
  (flags, raw) ← uint 2 raw
  (_, raw) ← uint 4 raw
  (corr, raw) ← uint 8 raw
  (a0, raw) ← uint 8 raw
  (a1, raw) ← uint 8 raw
  ok (record {
    t = t;
    seq = seq;
    pid = pid;
    tid = tid;
    device = device;
    rank = rank;
    stream = stream;
    kind = kind;
    flags = flags;
    corr = corr;
    a0 = a0;
    a1 = a1;
  })

abbrev pub names : List Text
names =
    codes "UNKNOWN"
    ∷ codes "REQUEST_BEGIN"
    ∷ codes "REQUEST_END"
    ∷ codes "SCHEDULER_BEGIN"
    ∷ codes "SCHEDULER_END"
    ∷ codes "MODEL_BEGIN"
    ∷ codes "MODEL_END"
    ∷ codes "GRAPH_BEGIN"
    ∷ codes "GRAPH_END"
    ∷ codes "KV_BEGIN"
    ∷ codes "KV_END"
    ∷ codes "PP_SEND_BEGIN"
    ∷ codes "PP_SEND_END"
    ∷ codes "PP_RECV_BEGIN"
    ∷ codes "PP_RECV_END"
    ∷ codes "HCCL_BEGIN"
    ∷ codes "HCCL_END"
    ∷ codes "EVENT_RECORD"
    ∷ codes "EVENT_WAIT"
    ∷ codes "STREAM_SYNC_BEGIN"
    ∷ codes "STREAM_SYNC_END"
    ∷ codes "DEVICE_SYNC_BEGIN"
    ∷ codes "DEVICE_SYNC_END"
    ∷ codes "CHECKPOINT"
    ∷ codes "DEVICE_CONFIRMED"
    ∷ []

-- `NAMES[kind] if kind < len(NAMES) else f"TYPE_{kind}"`
unfoldable pub type_name : ℕ → Text
unfolding decimal
type_name kind = elim (get_elem? names kind) [
  | some name ↦ name
  | none ↦ codes "TYPE_" ++ decimal kind
]

-- `TYPES[name]`; `none` stands for the `KeyError`.
unfoldable pub index_from : ℕ → Text → List Text → Option ℕ
unfolding text_eq
index_from i name [] = none
index_from i name (x ∷ xs) =
    let rest = index_from (i + 1) name xs in if text_eq x name then some i else rest

unfoldable pub type_code : Text → Option ℕ
unfolding index_from
type_code name = index_from 0 name names

-- The check of the header and the dict that `read_header` returns.
unfoldable pub check_header : Text → RawHeader → Result Header
check_header path h =
    if not (h.magic == magic_number)
      || not (h.version == 1)
      || not (h.event_size == 64)
      || ltb h.capacity 2
    then err (value_error (codes "unsupported flight format: " ++ path))
    else ok (record {
      path = path;
      capacity = h.capacity;
      pid = h.pid;
      rank = h.rank;
      device = h.device;
      write_seq = h.write_seq;
      last_ns = h.last_ns;
      started_wall_ns = h.wall;
      started_mono_ns = h.mono;
    })

-- `f.read(128)` and the checks; the argument is the file's content, or the `OSError`.
unfoldable pub read_header : Text → Result Bytes → Result Header
read_header path file = do
  content ← file
  let raw = take 128 content
  if ltb (length raw) 128
      then err (value_error (codes "short header: " ++ path))
      else do h ← unpack_header raw; check_header path h

-- `lower`; on ℕ the subtraction stops at 0, which `max(1, ...)` makes 1 as it does a negative number.
abbrev pub lower : Header → ℕ
lower h = max 1 (h.write_seq + 1 - h.capacity)

-- The slot's record belongs to the last `capacity` records, and to this slot.
unfoldable pub in_window : Header → ℕ → RawEvent → Bool
in_window h slot e =
    (leb (lower h) e.seq && leb e.seq h.write_seq) && (e.seq - 1) % h.capacity == slot

unfoldable pub decode : RawEvent → Event
unfolding type_name
decode e = record {
  timestamp_ns = e.t;
  seq = e.seq;
  pid = e.pid;
  tid = e.tid;
  device = e.device;
  rank = e.rank;
  stream = e.stream;
  type = type_name e.kind;
  flags = e.flags;
  correlation_id = e.corr;
  arg0 = e.a0;
  arg1 = e.a1;
}

-- The loop over `range(count)`: `n` slots are left, and `slot` is the next.
unfoldable pub read_slots : Header → Bytes → ℕ → ℕ → Result (List Event)
read_slots h raw zero slot = ok []
read_slots h raw (suc n) slot = do
  e ← unpack_event (drop (128 + slot * 64) raw)
  rest ← read_slots h raw n (slot + 1)
  ok (if in_window h slot e then decode e ∷ rest else rest)

-- `(len(raw) - 128) // 64` is negative for a short file, and `max(0, ...)` makes that 0.
abbrev pub slot_count : Header → Bytes → ℕ
slot_count h raw = min h.capacity ((length raw - 128) / 64)

unfoldable pub read_events : Text → Result Bytes → Result Bytes → Result (Header × List Event)
read_events path first second = do
  h ← read_header path first
  raw ← second
  events ← read_slots h raw (slot_count h raw) 0
  ok (h, sort_by (λ (e : Event). e.seq) events)
