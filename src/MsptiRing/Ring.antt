-- ===== src/MsptiRing/Ring.antt =====
-- The loop of `read_ring` over the sequence numbers that the ring can still hold.
use mathlib.Core.List.Memᴰ
use native.Mathlib.Nat.{mod-lt}
use hang_analyzer.Prelude.{
  ℕ, zero, suc, ◌+◌, ◌-◌, ◌*◌, ◌%◌, ◌≤◌, ◌<◌, ◌≡◌, refl, sym, ap, subst, ◌∙◌, true, false, ltb, ◌⊎◌,
  inl, inr, ⊎_elim, ◌↔◌, Option, some, List, [], ◌∷◌, length, drop, length-drop, Memᴰ, IsStrict,
  All, All-mono, Option-cases, arith, Text,
}
use hang_analyzer.Prelude.Result.{ok}
use hang_analyzer.Format.{Bytes}
use hang_analyzer.Format.Unpack.{uint_returns}
use hang_analyzer.MsptiRing.{
  ring_magic, RingHeader, unpack_ring_header, RingEvent, Views, is_supported, first_seq,
  slot_offset, range_length, ring_event, read_slot, read_range, read_ring,
}
use hang_analyzer.MsptiRing.Published.{unpack_record_returns, IsPublished, Covers, read_slot-reads}

-- At each of the three reads the file is still of the same length.
pub record HasLength (n : ℕ) (v : Views) : Type 0 where
  pub before : length v.before ≡ n
  pub raw : length v.raw ≡ n
  pub after : length v.after ≡ n

ok_injective : {a b : Option RingEvent} → ok a ≡ ok b → a ≡ b
ok_injective e = cc

-- A slot of a ring with records of 128 or 192 bytes lies in the file.
slot_fits :
    (slot capacity size n : ℕ)
    → slot < capacity
    → (size ≡ 128) ⊎ (size ≡ 192)
    → 128 + capacity * size ≤ n
    → 128 + slot * size + size ≤ n
slot_fits slot capacity size n h (inl e) k =
    subst (λ w. 128 + slot * w + w ≤ n) (sym e) (small (subst (λ w. 128 + capacity * w ≤ n) e k))
  where
    small : 128 + capacity * 128 ≤ n → 128 + slot * 128 + 128 ≤ n
    small k = omega arith
slot_fits slot capacity size n h (inr e) k =
    subst (λ w. 128 + slot * w + w ≤ n) (sym e) (large (subst (λ w. 128 + capacity * w ≤ n) e k))
  where
    large : 128 + capacity * 192 ≤ n → 128 + slot * 192 + 192 ≤ n
    large k = omega arith

room_behind :
    (offset size w n : ℕ) (bs : Bytes)
    → w ≤ size
    → offset + size ≤ n
    → length bs ≡ n
    → w ≤ length (drop offset bs)
room_behind offset size w n bs h k e = omega (arith, length-drop offset bs)

ltb-false : (m n : ℕ) → n ≤ m → ltb m n ≡ false
ltb-false m n h = ground arith

range_end : (h : RingHeader) → first_seq h + range_length h ≡ h.written + 1
unfolding range_length
range_end h = omega arith

module _ (decode_utf8 : Bytes → Text) where
  published-seq :
      (h : RingHeader) (s : ℕ) (v : Views) (x : RingEvent)
      → IsPublished decode_utf8 h s v x
      → x.seq ≡ s
  unfolding ring_event
  published-seq h s v x p = ap (λ k. k.seq) p.event ∙ p.numbered

  Covers-read :
      (h : RingHeader) (s : ℕ) (v : Views)
      → Covers decode_utf8 h s v
      → (o : Option RingEvent) × (read_slot decode_utf8 h s v ≡ ok o)
        × ((x : RingEvent) → (o ≡ some x) ↔ IsPublished decode_utf8 h s v x)
  Covers-read h s v c =
      let (_, _, qb, _) =
        uint_returns 8 0 (drop (slot_offset h s) v.before) (omega (arith, c.before)) in
      let (_, qr) = unpack_record_returns h.version (drop (slot_offset h s) v.raw) c.raw in
      let (_, _, qa, _) =
        uint_returns 8 0 (drop (slot_offset h s) v.after) (omega (arith, c.after)) in
      read_slot-reads decode_utf8 h s v qb qr qa

  -- A number of the range has published this event.
  abbrev pub PublishedIn : RingHeader → (ℕ → Views) → ℕ → ℕ → RingEvent → Type 0
  PublishedIn h views low end x =
      (s : ℕ) × (low ≤ s) × (s < end) × IsPublished decode_utf8 h s (views s) x

  read_range_lem :
      (h : RingHeader) (views : ℕ → Views) (seq n : ℕ)
      → ((s : ℕ) → seq ≤ s → s < seq + n → Covers decode_utf8 h s (views s))
      → (es : List RingEvent) × (read_range decode_utf8 h views seq n ≡ ok es)
        × All (λ x. seq ≤ x.seq) es
        × IsStrict (λ (x : RingEvent). x.seq) es
        × ((x : RingEvent) → Memᴰ x es ↔ PublishedIn h views seq (seq + n) x)
  unfolding read_range
  read_range_lem h views seq zero c = (
    [],
    refl,
    tt,
    tt,
    λ x. (λ m. absurd (Memᴰ.not-nil m), λ (s, low, high, p). absurd (omega arith)),
  )
  read_range_lem h views seq (suc n) c =
      let (o, q, here) = Covers-read h seq (views seq) (c seq (omega arith) (omega arith)) in
      let (es, qs, low, strict, later) =
        read_range_lem h views (seq + 1) n (λ s l k. c s (omega arith) (omega arith)) in
      elim (Option-cases o) [
        | inl e ↦ (
          es,
          rw (q, read_range) (rw (qs, read_range) (rw e refl)),
          All-mono (λ x. seq + 1 ≤ x.seq) (λ x. seq ≤ x.seq) es (λ x k. omega arith) low,
          strict,
          λ x. (
            λ m. widen x ((later x).0 m),
            λ (s, l, k, p). elim (first_or_later s l) [
              | inl same ↦
                  let none_read =
                    (here x).1 (subst (λ t. IsPublished decode_utf8 h t (views t) x) same p) in
                  cc
              | inr behind ↦ (later x).1 (s, behind, omega arith, p)
            ],
          ),
        )
        | inr (y, e) ↦ (
          y ∷ es,
          rw (q, read_range) (rw (qs, read_range) (rw e refl)),
          (
            omega (arith, number y (q ∙ ap ok e)),
            All-mono (λ x. seq + 1 ≤ x.seq) (λ x. seq ≤ x.seq) es (λ x k. omega arith) low,
          ),
          (
            All-mono (λ x. seq + 1 ≤ x.seq) (λ x. y.seq < x.seq) es
                (λ x k. omega (arith, number y (q ∙ ap ok e))) low,
            strict,
          ),
          λ x. (
            λ m.
                ⊎_elim
                  (λ same. (seq, omega arith, omega arith, (here x).0 (e ∙ ap some (sym same))))
                  (λ t. widen x ((later x).0 t)) (Memᴰ.cases_cons m),
            λ (s, l, k, p). elim (first_or_later s l) [
              | inl same ↦
                  let read =
                    (here x).1 (subst (λ t. IsPublished decode_utf8 h t (views t) x) same p) in
                  Memᴰ.head cc
              | inr behind ↦ Memᴰ.tail ((later x).1 (s, behind, omega arith, p))
            ],
          ),
        )
      ]
    where
      first_or_later : (s : ℕ) → seq ≤ s → (s ≡ seq) ⊎ (seq + 1 ≤ s)
      first_or_later s l = omega arith

      number :
          (y : RingEvent) → (read_slot decode_utf8 h seq (views seq) ≡ ok (some y)) → y.seq ≡ seq
      number y e =
          let (o, q, here) = Covers-read h seq (views seq) (c seq (omega arith) (omega arith)) in
          published-seq h seq (views seq) y ((here y).0 (ok_injective (sym q ∙ e)))

      widen :
          (x : RingEvent)
          → PublishedIn h views (seq + 1) (seq + 1 + n) x
          → PublishedIn h views seq (seq + suc n) x
      widen x (s, l, k, p) = (s, omega arith, omega arith, p)

  -- What the checks of the header admit: a known format whose slots lie in the file.
  pub record IsRing (mapped : Bytes) (h : RingHeader) : Type 0 where
    pub long : 128 ≤ length mapped
    pub unpacked : unpack_ring_header mapped ≡ ok h
    pub magic_ok : h.magic_read ≡ ring_magic
    pub supported : ((h.version ≡ 1) × (h.size ≡ 128)) ⊎ ((h.version ≡ 2) × (h.size ≡ 192))
    pub slots : 128 + h.capacity * h.size ≤ length mapped

  IsRing-Covers :
      (mapped : Bytes) (h : RingHeader) (s : ℕ) (v : Views)
      → IsRing mapped h
      → HasLength (length mapped) v
      → 1 ≤ h.capacity
      → Covers decode_utf8 h s v
  IsRing-Covers mapped h s v r n some_slots =
      let sizes = ⊎_elim (λ k. inl k.1) (λ k. inr k.1) r.supported in
      let fits =
        slot_fits ((s - 1) % h.capacity) h.capacity h.size (length mapped)
          (mod-lt (s - 1) some_slots) sizes r.slots in
      let room = room_behind (slot_offset h s) h.size in
      let eight : 8 ≤ h.size = eight_le h.size sizes in
      record {
        before = room 8 (length mapped) v.before eight fits n.before;
        raw =
            ⊎_elim (λ k. inl (k.0, room 128 (length mapped) v.raw (omega (arith, k.1)) fits n.raw))
              (λ k. inr (k.0, room 192 (length mapped) v.raw (omega (arith, k.1)) fits n.raw))
              r.supported;
        after = room 8 (length mapped) v.after eight fits n.after;
      }
    where
      eight_le : (size : ℕ) → (size ≡ 128) ⊎ (size ≡ 192) → 8 ≤ size
      eight_le size (inl e) = omega arith
      eight_le size (inr e) = omega arith

  IsRing-is_supported : (mapped : Bytes) (h : RingHeader) → IsRing mapped h → is_supported h ≡ true
  unfolding is_supported
  IsRing-is_supported mapped h r = elim r.supported [
    | inl (v, z) ↦ rw v (rw z refl)
    | inr (v, z) ↦ rw v (rw z refl)
  ]

  -- If the file keeps its length, `read_ring` on a ring succeeds: it returns, in strictly ascending
  -- order, the records whose number the ring can still hold and that all three reads of their slot
  -- find published.
  pub read_ring_lem :
      (mapped : Bytes) (views : ℕ → Views) (h : RingHeader)
      → IsRing mapped h
      → ((s : ℕ) → HasLength (length mapped) (views s))
      → (es : List RingEvent) × (read_ring decode_utf8 mapped views
          ≡ ok (h, h.written - h.capacity, es))
        × IsStrict (λ (x : RingEvent). x.seq) es
        × ((x : RingEvent) → Memᴰ x es ↔ PublishedIn h views (first_seq h) (h.written + 1) x)
  unfolding read_ring is_supported range_length
  read_ring_lem mapped views h r n =
      let (es, q, low, strict, same) =
        read_range_lem h views (first_seq h) (range_length h)
          (λ s l k. IsRing-Covers mapped h s (views s) r (n s) (omega arith)) in
      let end : first_seq h + range_length h ≡ h.written + 1 = range_end h in
      (
        es,
        rw (ltb-false (length mapped) 128 r.long, read_ring)
            (rw (r.unpacked, read_ring)
              (rw r.magic_ok (
                rw (IsRing-is_supported mapped h r) (
                  rw (ltb-false (length mapped) (128 + h.capacity * h.size) r.slots, read_ring)
                    (rw (q, read_ring) refl))))),
        strict,
        λ x. subst (λ e. Memᴰ x es ↔ PublishedIn h views (first_seq h) e x) end (same x),
      )
