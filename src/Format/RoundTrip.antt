-- ===== src/Format/RoundTrip.antt =====
-- What the C structures hold in memory, and that the readers decode it.
use hang_analyzer.Prelude.{
  ℕ, ◌+◌, ◌^◌, ◌≤◌, ◌<◌, ◌≡◌, refl, ◌++◌, length, take, Bool, true, false, ◌&&◌, ltb, leb, ◌==◌,
  length-take, if◌then◌else◌, Text, codes, arith,
}
use hang_analyzer.Prelude.Result.{Error, ok, err, value_error}
use hang_analyzer.Format.{
  Bytes, Header, RawHeader, RawEvent, magic_number, unpack_header, unpack_event, check_header,
  read_header,
}
use hang_analyzer.Format.Unpack.{little_endian, packed_then}

-- The fields of a record fit their C types.
pub record EventFits (e : RawEvent) : Type 0 where
  pub t : e.t < 256 ^ 8
  pub seq : e.seq < 256 ^ 8
  pub pid : e.pid < 256 ^ 4
  pub tid : e.tid < 256 ^ 4
  pub device : e.device < 256 ^ 2
  pub rank : e.rank < 256 ^ 2
  pub stream : e.stream < 256 ^ 4
  pub kind : e.kind < 256 ^ 2
  pub flags : e.flags < 256 ^ 2
  pub corr : e.corr < 256 ^ 8
  pub a0 : e.a0 < 256 ^ 8
  pub a1 : e.a1 < 256 ^ 8

-- The 64 bytes of a record, with `rest` behind them; `pad` is what the padding holds.
unfoldable pub pack_event : RawEvent → ℕ → Bytes → Bytes
unfolding little_endian
pack_event e pad rest =
    little_endian 8 e.t
    ++ (little_endian 8 e.seq
        ++ (little_endian 4 e.pid
            ++ (little_endian 4 e.tid
                ++ (little_endian 2 e.device
                    ++ (little_endian 2 e.rank
                        ++ (little_endian 4 e.stream
                            ++ (little_endian 2 e.kind
                                ++ (little_endian 2 e.flags
                                    ++ (little_endian 4 pad
                                        ++ (little_endian 8 e.corr
                                            ++ (little_endian 8 e.a0
                                                ++ (little_endian 8 e.a1 ++ rest))))))))))))

-- A record whose fields fit their widths, packed in the layout of the recorder with any padding and
-- followed by any bytes, is unpacked to itself.
pub unpack_event-pack_event :
    (e : RawEvent) (pad : ℕ) (rest : Bytes)
    → EventFits e
    → pad < 256 ^ 4
    → unpack_event (pack_event e pad rest) ≡ ok e
unfolding unpack_event pack_event
unpack_event-pack_event e pad rest f p = packed_then 8 e.t _ _ f.t (
    packed_then 8 e.seq _ _ f.seq (
      packed_then 4 e.pid _ _ f.pid (
        packed_then 4 e.tid _ _ f.tid (
          packed_then 2 e.device _ _ f.device (
            packed_then 2 e.rank _ _ f.rank (
              packed_then 4 e.stream _ _ f.stream (
                packed_then 2 e.kind _ _ f.kind (
                  packed_then 2 e.flags _ _ f.flags (
                    packed_then 4 pad _ _ p (
                      packed_then 8 e.corr _ _ f.corr
                        (packed_then 8 e.a0 _ _ f.a0 (packed_then 8 e.a1 _ _ f.a1 refl))))))))))))

pub record HeaderFits (h : RawHeader) : Type 0 where
  pub magic : h.magic < 256 ^ 8
  pub version : h.version < 256 ^ 4
  pub event_size : h.event_size < 256 ^ 4
  pub capacity : h.capacity < 256 ^ 8
  pub pid : h.pid < 256 ^ 4
  pub rank : h.rank < 256 ^ 2
  pub device : h.device < 256 ^ 2
  pub write_seq : h.write_seq < 256 ^ 8
  pub last_ns : h.last_ns < 256 ^ 8
  pub wall : h.wall < 256 ^ 8
  pub mono : h.mono < 256 ^ 8

-- The 64 bytes of the header, with `rest` behind them.
unfoldable pub pack_header : RawHeader → Bytes → Bytes
unfolding little_endian
pack_header h rest =
    little_endian 8 h.magic
    ++ (little_endian 4 h.version
        ++ (little_endian 4 h.event_size
            ++ (little_endian 8 h.capacity
                ++ (little_endian 4 h.pid
                    ++ (little_endian 2 h.rank
                        ++ (little_endian 2 h.device
                            ++ (little_endian 8 h.write_seq
                                ++ (little_endian 8 h.last_ns
                                    ++ (little_endian 8 h.wall
                                        ++ (little_endian 8 h.mono ++ rest))))))))))

pub unpack_header-pack_header :
    (h : RawHeader) (rest : Bytes) → HeaderFits h → unpack_header (pack_header h rest) ≡ ok h
unfolding unpack_header pack_header
unpack_header-pack_header h rest f = packed_then 8 h.magic _ _ f.magic (
    packed_then 4 h.version _ _ f.version (
      packed_then 4 h.event_size _ _ f.event_size (
        packed_then 8 h.capacity _ _ f.capacity (
          packed_then 4 h.pid _ _ f.pid (
            packed_then 2 h.rank _ _ f.rank (
              packed_then 2 h.device _ _ f.device (
                packed_then 8 h.write_seq _ _ f.write_seq (
                  packed_then 8 h.last_ns _ _ f.last_ns
                    (packed_then 8 h.wall _ _ f.wall (packed_then 8 h.mono _ _ f.mono refl))))))))))

abbrev pub accepts : RawHeader → Bool
accepts h = h.magic == magic_number && (h.version == 1 && (h.event_size == 64 && leb 2 h.capacity))

abbrev pub header_of : Text → RawHeader → Header
header_of path h = record {
  path = path;
  capacity = h.capacity;
  pid = h.pid;
  rank = h.rank;
  device = h.device;
  write_seq = h.write_seq;
  last_ns = h.last_ns;
  started_wall_ns = h.wall;
  started_mono_ns = h.mono;
}

take-pack_header :
    (h : RawHeader) (rest : Bytes) → take 128 (pack_header h rest) ≡ pack_header h (take 64 rest)
unfolding pack_header
take-pack_header h rest = refl

length-pack_header : (h : RawHeader) (rest : Bytes) → length (pack_header h rest) ≡ 64 + length rest
unfolding pack_header
length-pack_header h rest = omega arith

check_header-eq :
    (path : Text) (h : RawHeader)
    → check_header path h ≡ (
        if accepts h
        then ok (header_of path h)
        else err (value_error (codes "unsupported flight format: " ++ path)))
unfolding check_header
check_header-eq path h = ground arith

long_enough :
    (h : RawHeader) (r : Bytes) → 64 ≤ length r → ltb (length (pack_header h r)) 128 ≡ false
long_enough h r enough = rw length-pack_header (ground arith)

-- `read_header` on every branch. If the file cannot be read, it raises that `OSError`. A file of less than
-- 128 bytes is refused as short. From a longer file whose first 64 bytes are a packed header of any
-- fields, it returns these fields if the magic number, the version, the event size and a capacity of
-- at least 2 are as expected, and refuses the format otherwise.
pub read_header-pack_header :
    (path : Text) (e : Error) (content : Bytes) (h : RawHeader) (rest : Bytes)
    → length content < 128
    → HeaderFits h
    → 64 ≤ length rest
    → (read_header path (err e) ≡ err e)
      × (read_header path (ok content) ≡ err (value_error (codes "short header: " ++ path)))
      × (read_header path (ok (pack_header h rest)) ≡ (
          if accepts h
          then ok (header_of path h)
          else err (value_error (codes "unsupported flight format: " ++ path))))
unfolding read_header
read_header-pack_header path e content h rest short f room =
    let cut : length (take 128 content) < 128 = omega (arith, short, length-take 128 content) in
    let small : ltb (length (take 128 content)) 128 ≡ true = ground (arith, cut) in
    (
      refl,
      rw small refl,
      rw
          (
            take-pack_header h rest,
            long_enough h (take 64 rest) (omega (arith, length-take 64 rest)),
            unpack_header-pack_header h (take 64 rest) f,
          )
          (check_header-eq path h),
    )
