-- ===== src/Tests/Format.antt =====
-- The readers of flight files on a file with two slots.
use hang_analyzer.Prelude.{
  ℕ, ◌+◌, ◌-◌, ◌%◌, ◌*◌, ◌++◌, ◌≡◌, ◌≤◌, ◌⊎◌, inl, inr, refl, List, [], ◌∷◌, drop, map, Memᴰ,
  IsStrict, ◌↔◌, codes, arith, sort_by,
}
use hang_analyzer.Prelude.Result.{ok, err, os_error, value_error, ◌>>=◌}
use hang_analyzer.Format.{
  Bytes, Header, Event, RawHeader, RawEvent, magic_number, uint, unpack_header, unpack_event,
  check_header, read_header, in_window, decode, read_slots, type_name, lower, slot_count,
  read_events,
}
use hang_analyzer.Format.Unpack.{little_endian}
use hang_analyzer.Format.Window.{InSlots, HoldsRing, read_events_lem, read_events_recovers}
use hang_analyzer.Format.RoundTrip.{
  EventFits, HeaderFits, pack_event, pack_header, unpack_event-pack_event,
  unpack_header-pack_header, read_header-pack_header, header_of,
}
use hang_analyzer.Format.Errors.{IsCaught, read_events-IsCaught}

abbrev raw_header : RawHeader
raw_header = record {
  magic = magic_number;
  version = 1;
  event_size = 64;
  capacity = 2;
  pid = 77;
  rank = 4;
  device = 0;
  write_seq = 3;
  last_ns = 900;
  wall = 5;
  mono = 6;
}

-- The record with number `s`.
abbrev record_at : ℕ → RawEvent
record_at s = record {
  t = 100 * s;
  seq = s;
  pid = 77;
  tid = 78;
  device = 0;
  rank = 4;
  stream = 9;
  kind = 15;
  flags = 0;
  corr = 1;
  a0 = 2;
  a1 = 3;
}

-- Records 3 and 2: record 1 has been overwritten.
abbrev file : Bytes
file =
    pack_header raw_header
      (little_endian 64 0 ++ pack_event (record_at 3) 0 (pack_event (record_at 2) 0 []))

abbrev header : Header
header = header_of (codes "f") raw_header

read_header-file : read_header (codes "f") (ok file) ≡ ok (header_of (codes "f") raw_header)
unfolding read_header check_header unpack_header uint pack_header pack_event
read_header-file = refl

seqs-file :
    (do r ← read_events (codes "f") (ok file) (ok file); ok (map (λ (e : Event). e.seq) r.1))
    ≡ ok (2 ∷ 3 ∷ [])
unfolding read_events read_slots in_window decode type_name unpack_event read_header check_header
    unpack_header uint pack_header pack_event sort_by
seqs-file = refl

fits : HeaderFits raw_header
fits = omega arith

fits_event : EventFits (record_at 3)
fits_event = omega arith

unpack_event-pack_event_example : unpack_event (pack_event (record_at 3) 0 []) ≡ ok (record_at 3)
unpack_event-pack_event_example =
    unpack_event-pack_event (record_at 3) 0 [] fits_event (omega arith)

unpack_header-pack_header_example : unpack_header (pack_header raw_header []) ≡ ok raw_header
unpack_header-pack_header_example = unpack_header-pack_header raw_header [] fits

read_header-pack_header_example :
    (read_header (codes "f") (err (os_error (codes "gone"))) ≡ err (os_error (codes "gone")))
    × (read_header (codes "f") (ok (1 ∷ 2 ∷ [])) ≡ err (value_error (codes "short header: f")))
    × (read_header (codes "f") (ok (pack_header raw_header (little_endian 64 0))) ≡ ok header)
unfolding little_endian
read_header-pack_header_example =
    read_header-pack_header (codes "f") (os_error (codes "gone")) (1 ∷ 2 ∷ []) raw_header
      (little_endian 64 0) (omega arith) fits (omega arith)

read_events_lem_example :
    (es : List Event) × (read_events (codes "f") (ok file) (ok file) ≡ ok (header, es))
    × IsStrict (λ (e : Event). e.seq) es
    × ((x : Event) → Memᴰ x es ↔ InSlots header file 0 (slot_count header file) x)
read_events_lem_example = read_events_lem (codes "f") (ok file) file header read_header-file

stored :
    (s : ℕ)
    → lower header ≤ s
    → s ≤ 3
    → unpack_event (drop (128 + (s - 1) % 2 * 64) file) ≡ ok (record_at s)
unfolding pack_header pack_event unpack_event uint
stored s low high = elim (two_or_three s low high) [ inl e ↦ rw e | inr e ↦ rw e ]
  where
    two_or_three : (s : ℕ) → 2 ≤ s → s ≤ 3 → (s ≡ 2) ⊎ (s ≡ 3)
    two_or_three s low high = omega arith

ring : HoldsRing header file record_at
unfolding pack_header pack_event
ring = record { size = omega arith; has_slots = omega arith; numbered = λ s. refl; stored = stored }

read_events_recovers_example :
    (es : List Event) × (read_events (codes "f") (ok file) (ok file) ≡ ok (header, es))
    × IsStrict (λ (e : Event). e.seq) es
    × ((x : Event) → Memᴰ x es ↔ ((s : ℕ) × (2 ≤ s) × (s ≤ 3) × (x ≡ decode (record_at s))))
read_events_recovers_example =
    read_events_recovers header file record_at ring (codes "f") (ok file) read_header-file

read_events-IsCaught_example :
    IsCaught (read_events (codes "f") (ok file) (err (os_error (codes "gone"))))
read_events-IsCaught_example =
    read_events-IsCaught (codes "f") (ok file) (err (os_error (codes "gone"))) tt tt
