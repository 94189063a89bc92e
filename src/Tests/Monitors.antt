-- ===== src/Tests/Monitors.antt =====
-- The watchdog and the reader of the msPTI ring on small inputs.
use mathlib.Core.Option
use hang_analyzer.Prelude.{
  ◌==◌, if◌then◌else◌, ◌-◌, ℕ, ◌≡◌, ◌↔◌, refl, Bool, true, false, Option, none, some, List, [], ◌∷◌,
  ◌++◌, map, Memᴰ, IsStrict, Text, codes, arith, inl, ℕ_discrete,
}
use hang_analyzer.Prelude.Result.{ok, err, os_error, ◌>>=◌}
use hang_analyzer.Format.{Header, Bytes, uint, unpack_header, check_header, magic_number}
use hang_analyzer.Format.Unpack.{little_endian}
use hang_analyzer.Format.RoundTrip.{pack_header}
use hang_analyzer.Watchdog.{
  Probe, alive, returned, process_lookup_error, Capture, StallKey-discrete, stalled, exited, State,
  start, Poll, watch,
}
use hang_analyzer.Watchdog.Captures.{IsUnique}
use hang_analyzer.Watchdog.Loop.{IsReady, Handles, ObservedInPolls, watch_captures}
use hang_analyzer.MsptiRing.{
  RingHeader, RingEvent, unpack_ring_header, Views, read_ring, read_slot, unpack_record, chars,
  ring_magic,
}
use hang_analyzer.Watchdog.Snapshot.{Source, completed, Metadata, snapshot}
use hang_analyzer.Watchdog.Snapshot.Accounts.{IsEntry, IsAccounted}
use hang_analyzer.Watchdog.Snapshot.Files.{snapshot-IsAccounted}
use hang_analyzer.Checkpoint.{Adapter, Manager, returns, raises_runtime, busy, close_manager}
use hang_analyzer.Checkpoint.Closing.{Closes, close_manager-Closes}
use hang_analyzer.MsptiRing.Ring.{IsRing, PublishedIn, read_ring_lem}

abbrev running : Probe
running = record { kill = returned tt; status = returned none }

abbrev gone : Probe
gone = record { kill = process_lookup_error; status = returned none }

abbrev file : Bytes
file =
    pack_header
      (record {
        magic = magic_number;
        version = 1;
        event_size = 64;
        capacity = 2;
        pid = 77;
        rank = 4;
        device = 0;
        write_seq = 3;
        last_ns = 900;
        wall = 5;
        mono = 6;
      })
      (little_endian 64 0)

abbrev poll_at : ℕ → Probe → Poll
poll_at now p = record {
  files = (codes "f", ok file) ∷ [];
  now = now;
  probes = λ i. (p, p);
  monitored = p ∷ [];
}

-- The process stalls, is seen to stall a second time, and exits; the last round is not reached.
abbrev polls : List Poll
polls =
    poll_at 950 running
    ∷ poll_at 2000 running
    ∷ poll_at 2100 running
    ∷ poll_at 2200 gone
    ∷ poll_at 2300 gone
    ∷ []

abbrev captures_of : Option (State × Bool) → Option (List Capture)
captures_of r = Option.map (λ (k : State × Bool). k.0.captures) r

watch-polls : captures_of (watch 1000 polls start) ≡ some (stalled 77 3 ∷ exited 77 ∷ [])
unfolding watch pack_header little_endian unpack_header uint check_header StallKey-discrete
    ℕ_discrete
watch-polls = refl

running-IsReady : (now : ℕ) → IsReady (poll_at now running)
unfolding alive
running-IsReady now = record {
  files = (tt, tt);
  probes = λ i. ((true, refl), (true, refl));
  monitored = ((true, refl), tt);
}

gone-IsReady : (now : ℕ) → IsReady (poll_at now gone)
unfolding alive
gone-IsReady now = record {
  files = (tt, tt);
  probes = λ i. ((false, refl), (false, refl));
  monitored = ((false, refl), tt);
}

watch_captures_example :
    (st : State) × (stopped : Bool) × (h : Handles 1000 polls start st stopped) × (watch 1000 polls
        start
      ≡ some (st, stopped))
    × IsUnique st.captures
    × ((c : Capture) → Memᴰ c st.captures ↔ ObservedInPolls 1000 h.handled c)
watch_captures_example = watch_captures 1000 polls (
  running-IsReady 950,
  (running-IsReady 2000, (running-IsReady 2100, (gone-IsReady 2200, (gone-IsReady 2300, tt)))),
)

-- One file that is copied, and one that is gone; the log of the job is there.
abbrev sources : List Source
sources =
    record {
      path = codes "f";
      name = codes "f";
      content = ok file;
      copied = ok tt;
      collected = ok tt;
    }
    ∷ record {
      path = codes "g";
      name = codes "g";
      content = err (os_error (codes "gone"));
      copied = ok tt;
      collected = ok tt;
    }
    ∷ []

snapshot-IsAccounted_example :
    (d : Metadata) × (snapshot sources ((codes "log", ok tt) ∷ []) (completed 0 (ok tt)) ≡ some d)
    × ((s : Source) → Memᴰ s sources → IsAccounted s d)
    × ((x : Header × Text) → Memᴰ x d.ranks ↔ ((s : Source) × Memᴰ s sources × IsEntry s x))
    × (d.npu_smi_returncode ≡ some 0)
snapshot-IsAccounted_example =
    snapshot-IsAccounted sources ((codes "log", ok tt) ∷ []) (completed 0 (ok tt))
      (
        record { content = tt; copied = tt; collected = tt },
        (record { content = tt; copied = tt; collected = tt }, tt),
      )
      (tt, tt) tt

-- A library whose state counts the refusals that are left.
abbrev library : Adapter ℕ
library = record {
  create = λ slots w. (9, w);
  register = λ h a b w. (0, w);
  submit = λ h a b c w. (0, 1, w);
  poll = λ h a w. (0, w);
  start = λ h a b w. (0, w);
  stop = λ h w. w;
  destroy = λ h w. if w == 0 then (0, w) else (busy, w - 1);
}

abbrev manager : Manager
manager = record { handle = some 9 }

-- The first close is refused, and the second one succeeds.
close_manager-refused : (close_manager library manager 1).0 ≡ raises_runtime
unfolding close_manager
close_manager-refused = refl

close_manager-closed : (close_manager library manager 0).0 ≡ returns tt
unfolding close_manager
close_manager-closed = refl

close_manager-Closes_example : Closes library manager (close_manager library manager 1)
close_manager-Closes_example = close_manager-Closes library manager 1

-- A ring with two slots of 128 bytes that hold the records 2 and 1.
abbrev ring_header : RingHeader
ring_header = record {
  magic_read = ring_magic;
  version = 1;
  size = 128;
  capacity = 2;
  pid = 7;
  written = 2;
  wall_ns = 5;
  mono_ns = 6;
  dropped = 0;
}

-- The file with these two slots.
abbrev with_slots : ℕ → ℕ → Bytes
with_slots a b =
    little_endian 8 ring_magic
    ++ little_endian 4 1
    ++ little_endian 4 128
    ++ little_endian 8 2
    ++ little_endian 8 7
    ++ little_endian 8 2
    ++ little_endian 8 5
    ++ little_endian 8 6
    ++ little_endian 72 0
    ++ little_endian 128 a
    ++ little_endian 128 b

abbrev mapped : Bytes
mapped = with_slots 1 2

-- Record 2 is overwritten by record 4 between the second and the third read.
abbrev views : ℕ → Views
views s = record { before = mapped; raw = mapped; after = with_slots 1 4 }

abbrev plain : Bytes → Text
plain b = b

mapped-IsRing : IsRing plain mapped ring_header
unfolding little_endian unpack_ring_header uint
mapped-IsRing = record {
  long = omega arith;
  unpacked = refl;
  magic_ok = refl;
  supported = inl (refl, refl);
  slots = omega arith;
}

read_ring_lem_example :
    (es : List RingEvent) × (read_ring plain mapped views ≡ ok (ring_header, 0, es))
    × IsStrict (λ (x : RingEvent). x.seq) es
    × ((x : RingEvent) → Memᴰ x es ↔ PublishedIn plain ring_header views 1 3 x)
unfolding little_endian
read_ring_lem_example =
    read_ring_lem plain mapped views ring_header mapped-IsRing
      (λ s. record { before = refl; raw = refl; after = refl })

seqs-ring :
    (do r ← read_ring plain mapped views; ok (map (λ (x : RingEvent). x.seq) r.2)) ≡ ok (1 ∷ [])
unfolding read_ring read_slot unpack_record unpack_ring_header chars uint little_endian
seqs-ring = refl
