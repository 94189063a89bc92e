-- ===== src/Format/Window.antt =====
-- `read_events` returns the valid slots, each once and in the order of the sequence numbers.
use mathlib.Core.List.Memᴰ
use mathlib.Core.Logic.Iff
use native.Mathlib.Nat.{mod-lt}
use hang_analyzer.Prelude.{
  ℕ, zero, suc, ◌+◌, ◌-◌, ◌*◌, ◌%◌, ◌≤◌, ◌<◌, ◌≡◌, ◌≢◌, refl, ap, subst, ◌∙◌, ◌⊎◌, inl, inr, ◌↔◌,
  ⊎_elim, true, false, List, [], ◌∷◌, length, drop, length-drop, mem-All, HasDistinctKeys, IsStrict,
  sort_by, sort_by-IsStrict, mem-sort_by, Memᴰ, Bool-cases, dec_lt, Text, arith,
}
use hang_analyzer.Prelude.Result.{Result, ok}
use hang_analyzer.Format.{
  Bytes, Header, Event, RawEvent, unpack_event, lower, in_window, decode, read_header, read_slots,
  slot_count, read_events,
}
use hang_analyzer.Format.Unpack.{unpack_event_returns}

-- The record is one of the last `capacity` that were written, and this slot is its place.
abbrev pub InWindow : Header → ℕ → RawEvent → Type 0
InWindow h slot e = (lower h ≤ e.seq) × (e.seq ≤ h.write_seq) × ((e.seq - 1) % h.capacity ≡ slot)

in_window_iff :
    (h : Header) (slot : ℕ) (e : RawEvent) → (in_window h slot e ≡ true) ↔ InWindow h slot e
unfolding in_window
in_window_iff h slot e = ground arith

-- `x` is the record that one of the slots from `first` on, `n` of them, holds for the window of `h`.
abbrev pub InSlots : Header → Bytes → ℕ → ℕ → Event → Type 0
InSlots h raw first n x =
    (slot : ℕ) × (e : RawEvent) × (first ≤ slot)
    × (slot < first + n)
    × (unpack_event (drop (128 + slot * 64) raw) ≡ ok e)
    × InWindow h slot e
    × (x ≡ decode e)

InSlots-residue :
    (h : Header) (raw : Bytes) (first n : ℕ) (x : Event)
    → InSlots h raw first n x
    → first ≤ (x.seq - 1) % h.capacity
unfolding decode
InSlots-residue h raw first n x (slot, e, low, high, u, w, q) =
    let same : x.seq ≡ e.seq = ap (λ (y : Event). y.seq) q in rw same (omega arith)

module _ (h : Header) (raw : Bytes) (first n : ℕ) (e : RawEvent)
    (u : unpack_event (drop (128 + first * 64) raw) ≡ ok e) where
  InSlots-first :
      (x : Event)
      → InSlots h raw first (suc n) x
      → (InWindow h first e × (x ≡ decode e)) ⊎ InSlots h raw (first + 1) n x
  InSlots-first x (slot, e', low, high, u', w, q) = elim (dec_lt first slot) [
    | yes later ↦ inr (slot, e', omega arith, omega arith, u', w, q)
    | no here ↦
        let at : slot ≡ first = omega arith in
        let same : e' ≡ e = cc (ap (λ i. unpack_event (drop (128 + i * 64) raw)) at) in
        inl (subst (InWindow h first) same (subst (λ i. InWindow h i e') at w), q ∙ ap decode same)
  ]

  InSlots-cons :
      (x : Event)
      → InSlots h raw first (suc n) x
        ↔ ((InWindow h first e × (x ≡ decode e)) ⊎ InSlots h raw (first + 1) n x)
  InSlots-cons x = (
    InSlots-first x,
    ⊎_elim (λ (w, q). (first, e, omega arith, omega arith, u, w, q))
        (λ (slot, e', low, high, u', w, q). (slot, e', omega arith, omega arith, u', w, q)),
  )

pub record Reads (h : Header) (raw : Bytes) (first n : ℕ) (es : List Event) : Type 0 where
  pub runs : read_slots h raw n first ≡ ok es
  pub exact : (x : Event) → Memᴰ x es ↔ InSlots h raw first n x
  pub distinct : HasDistinctKeys (λ (e : Event). e.seq) es

-- One slot more, with what it adds to the records of the slots behind it.
module _ (h : Header) (raw : Bytes) (first n : ℕ) (e : RawEvent)
    (u : unpack_event (drop (128 + first * 64) raw) ≡ ok e) (es : List Event)
    (r : Reads h raw (first + 1) n es) where
  apart : (x : Event) → InWindow h first e → InSlots h raw (first + 1) n x → (decode e).seq ≢ x.seq
  unfolding decode
  apart x w s same =
      let low : first + 1 ≤ (e.seq - 1) % h.capacity =
        rw same (InSlots-residue h raw (first + 1) n x s) in
      omega arith

  keep-Reads : in_window h first e ≡ true → Reads h raw first (suc n) (decode e ∷ es)
  unfolding read_slots
  keep-Reads keep =
      let w = (in_window_iff h first e).0 keep in
      record {
        runs = rw (u, r.runs, keep);
        exact = λ x. (
          λ m.
              (InSlots-cons h raw first n e u x).1
                (⊎_elim (λ q. inl (w, q)) (λ t. inr ((r.exact x).0 t)) (Memᴰ.cases_cons m)),
          λ s.
              ⊎_elim (λ q. Memᴰ.head q.1) (λ t. Memᴰ.tail ((r.exact x).1 t))
                ((InSlots-cons h raw first n e u x).0 s),
        );
        distinct = (mem-All _ es (λ x m. apart x w ((r.exact x).0 m)), r.distinct);
      }

  skip-Reads : in_window h first e ≡ false → Reads h raw first (suc n) es
  unfolding read_slots
  skip-Reads skip = record {
    runs = rw (u, r.runs, skip);
    exact = λ x. (
      λ m. (InSlots-cons h raw first n e u x).1 (inr ((r.exact x).0 m)),
      λ s.
          ⊎_elim (λ q. absurd (cc ((in_window_iff h first e).1 q.0))) (r.exact x).1
            ((InSlots-cons h raw first n e u x).0 s),
    );
    distinct = r.distinct;
  }

pub read_slots-Reads :
    (h : Header) (raw : Bytes) (n first : ℕ)
    → (first + n) * 64 ≤ length raw - 128
    → (es : List Event) × Reads h raw first n es
unfolding read_slots
read_slots-Reads h raw zero first room = (
  [],
  record {
    runs = refl;
    exact = λ x. (λ m. absurd (Memᴰ.not-nil m), λ s. absurd (omega (arith, s.2, s.3)));
    distinct = tt;
  },
)
read_slots-Reads h raw (suc n) first room =
    let (e, u) =
      unpack_event_returns (drop (128 + first * 64) raw)
        (omega (arith, length-drop (128 + first * 64) raw)) in
    let (es, r) = read_slots-Reads h raw n (first + 1) (omega arith) in
    elim (Bool-cases (in_window h first e)) [
      | inl keep ↦ (decode e ∷ es, keep-Reads h raw first n e u es r keep)
      | inr skip ↦ (es, skip-Reads h raw first n e u es r skip)
    ]

-- Once the header is accepted, the second read returns the records of the valid slots of the file
-- as it is then, whatever its length: each slot's record exactly if it belongs to the window and to
-- the slot, in strictly ascending order of the sequence numbers.
pub read_events_lem :
    (path : Text) (first : Result Bytes) (raw : Bytes) (h : Header)
    → read_header path first ≡ ok h
    → (es : List Event) × (read_events path first (ok raw) ≡ ok (h, es))
      × IsStrict (λ (e : Event). e.seq) es
      × ((x : Event) → Memᴰ x es ↔ InSlots h raw 0 (slot_count h raw) x)
unfolding read_events
read_events_lem path first raw h accepted =
    let (es, r) = read_slots-Reads h raw (slot_count h raw) 0 (omega arith) in
    let key = λ (e : Event). e.seq in
    (
      sort_by key es,
      rw (accepted, r.runs),
      sort_by-IsStrict key es r.distinct,
      λ x. Iff.trans (mem-sort_by key x es) (r.exact x),
    )

-- A file that holds the last `capacity` of the records `record_at 1`, `record_at 2`, … up to
-- `write_seq`, each in its slot.
pub record HoldsRing (h : Header) (raw : Bytes) (record_at : ℕ → RawEvent) : Type 0 where
  pub size : 128 + h.capacity * 64 ≤ length raw
  pub has_slots : 0 < h.capacity
  pub numbered : (s : ℕ) → (record_at s).seq ≡ s
  pub stored :
      (s : ℕ)
      → lower h ≤ s
      → s ≤ h.write_seq
      → unpack_event (drop (128 + (s - 1) % h.capacity * 64) raw) ≡ ok (record_at s)

module _ (h : Header) (raw : Bytes) (record_at : ℕ → RawEvent)
    (ring : HoldsRing h raw record_at) where
  ring_slot :
      (x : Event)
      → InSlots h raw 0 (slot_count h raw) x
      → (s : ℕ) × (lower h ≤ s) × (s ≤ h.write_seq) × (x ≡ decode (record_at s))
  ring_slot x (slot, e, _, _, u, (low, high, place), q) =
      let held =
        subst (λ i. unpack_event (drop (128 + i * 64) raw) ≡ ok (record_at e.seq)) place
          (ring.stored e.seq low high) in
      let same : e ≡ record_at e.seq = cc in (e.seq, low, high, q ∙ ap decode same)

  slot_ring :
      (x : Event) (s : ℕ)
      → lower h ≤ s
      → s ≤ h.write_seq
      → x ≡ decode (record_at s)
      → InSlots h raw 0 (slot_count h raw) x
  slot_ring x s low high q = (
    (s - 1) % h.capacity,
    record_at s,
    omega arith,
    omega (arith, mod-lt (s - 1) ring.has_slots),
    ring.stored s low high,
    rw ring.numbered (low, high, refl),
    q,
  )

  -- If the slots of a file's ring hold the records with the last `capacity` sequence numbers,
  -- `read_events` recovers exactly these records, oldest first.
  pub read_events_recovers :
      (path : Text) (first : Result Bytes)
      → read_header path first ≡ ok h
      → (es : List Event) × (read_events path first (ok raw) ≡ ok (h, es))
        × IsStrict (λ (e : Event). e.seq) es
        × ((x : Event)
            → Memᴰ x es
              ↔ ((s : ℕ) × (lower h ≤ s) × (s ≤ h.write_seq) × (x ≡ decode (record_at s))))
  read_events_recovers path first accepted =
      let (es, runs, strict, exact) = read_events_lem path first raw h accepted in
      (
        es,
        runs,
        strict,
        λ x. Iff.trans (exact x) (ring_slot x, λ (s, low, high, q). slot_ring x s low high q),
      )
