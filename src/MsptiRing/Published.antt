-- ===== src/MsptiRing/Published.antt =====
-- What `read_ring` returns: the records that the writer had published in their slots.
use hang_analyzer.Prelude.{
  ℕ, ◌+◌, ◌≤◌, ◌≡◌, ◌≢◌, refl, sym, ap, ◌∙◌, true, false, ◌==◌, ltb, ◌⊎◌, inl, inr, ◌↔◌, Option,
  none, some, [], length, take, drop, length-drop, arith, Text, ℕ_discrete,
}
use hang_analyzer.Prelude.Result.{Result, ok, err, ◌>>=◌}
use hang_analyzer.Format.{Bytes, uint}
use hang_analyzer.Format.Unpack.{uint_then}
use hang_analyzer.MsptiRing.{
  RingHeader, unpack_ring_header, chars, RawRecord, unpack_detail, unpack_record, RingEvent, Views,
  slot_offset, ring_event, read_slot,
}

pub unpack_ring_header_returns :
    (bs : Bytes) → 64 ≤ length bs → (h : RingHeader) × (unpack_ring_header bs ≡ ok h)
unfolding unpack_ring_header
unpack_ring_header_returns bs h = uint_then 8 56 bs _ h λ _ r h. uint_then 4 52 r _ h λ _ r h.
    uint_then 4 48 r _ h λ _ r h. uint_then 8 40 r _ h λ _ r h. uint_then 4 36 r _ h λ _ r h.
      uint_then 4 32 r _ h λ _ r h. uint_then 8 24 r _ h λ _ r h.
        uint_then 8 16 r _ h
          λ _ r h. uint_then 8 8 r _ h λ _ r h. uint_then 8 0 r _ h λ _ r h. (_, refl)

-- The characters at the end of a record are there.
tail_returns :
    {B : Type 0} (version : ℕ) (bs : Bytes) (f : Bytes → Bytes → B)
    → ((version ≡ 1) × (64 ≤ length bs)) ⊎ ((version ≡ 2) × (128 ≤ length bs))
    → (b : B) × ((do
      (name, rest) ← chars 64 bs
      (detail, _) ← unpack_detail version rest
      ok (f name detail))
        ≡ ok b)
unfolding chars unpack_detail
tail_returns version bs f (inl (v, h)) =
    let long : ltb (length bs) 64 ≡ false = ground arith in (f (take 64 bs) [], rw v (rw long refl))
tail_returns version bs f (inr (v, h)) =
    let long : ltb (length bs) 64 ≡ false = ground arith in
    let left = length-drop 64 bs in
    let detailed : ltb (length (drop 64 bs)) 64 ≡ false = ground arith in
    (f (take 64 bs) (take 64 (drop 64 bs)), rw v (rw long (rw detailed refl)))

-- The mapped bytes of a slot suffice for its record.
abbrev pub HasRoom : ℕ → ℕ → Type 0
HasRoom version n = ((version ≡ 1) × (128 ≤ n)) ⊎ ((version ≡ 2) × (192 ≤ n))

record_returns :
    (version m : ℕ) (bs : Bytes)
    → 64 + m ≤ length bs
    → ((r : Bytes)
        → m ≤ length r
        → ((version ≡ 1) × (64 ≤ length r)) ⊎ ((version ≡ 2) × (128 ≤ length r)))
    → (r : RawRecord) × (unpack_record version bs ≡ ok r)
unfolding unpack_record
record_returns version m bs h room = uint_then 8 (56 + m) bs _ (omega arith) λ _ r h.
    uint_then 8 (48 + m) r _ (omega arith) λ _ r h. uint_then 8 (40 + m) r _ (omega arith) λ _ r h.
      uint_then 8 (32 + m) r _ (omega arith) λ _ r h.
        uint_then 8 (24 + m) r _ (omega arith) λ _ r h.
          uint_then 4 (20 + m) r _ (omega arith) λ _ r h.
            uint_then 4 (16 + m) r _ (omega arith) λ _ r h.
              uint_then 4 (12 + m) r _ (omega arith) λ _ r h.
                uint_then 4 (8 + m) r _ (omega arith) λ _ r h.
                  uint_then 2 (6 + m) r _ (omega arith) λ _ r h.
                    uint_then 2 (4 + m) r _ (omega arith) λ _ r h.
                      uint_then 4 m r _ (omega arith) λ _ r h. tail_returns version r _ (room r h)

pub unpack_record_returns :
    (version : ℕ) (bs : Bytes)
    → HasRoom version (length bs)
    → (r : RawRecord) × (unpack_record version bs ≡ ok r)
unpack_record_returns version bs (inl (v, h)) = record_returns version 64 bs h (λ r k. inl (v, k))
unpack_record_returns version bs (inr (v, h)) = record_returns version 128 bs h (λ r k. inr (v, k))

-- Whether a test of two numbers passes.
eq_cases : (m n : ℕ) → ((m ≡ n) × ((m == n) ≡ true)) ⊎ ((m ≢ n) × ((m == n) ≡ false))
eq_cases m n = elim (ℕ_discrete m n) [
  | yes e ↦ inl (e, eq_test m n e)
  | no d ↦ inr (d, ne_test m n d)
]
  where
    eq_test : (m n : ℕ) → m ≡ n → (m == n) ≡ true
    eq_test m n e = ground arith

    ne_test : (m n : ℕ) → m ≢ n → (m == n) ≡ false
    ne_test m n d = ground arith

-- A read has one result.
same_number :
    {r : Result (ℕ × Bytes)} {m n : ℕ} {bs cs : Bytes} → r ≡ ok (m, bs) → r ≡ ok (n, cs) → m ≡ n
same_number {m = m} p q = ap number (sym p ∙ q)
  where
    number : Result (ℕ × Bytes) → ℕ
    number (ok x) = x.0
    number (err _) = m

same_record : {s : Result RawRecord} {x y : RawRecord} → s ≡ ok x → s ≡ ok y → x ≡ y
same_record {x = x} p q = ap value (sym p ∙ q)
  where
    value : Result RawRecord → RawRecord
    value (ok r) = r
    value (err _) = x

some_injective : {x y : RingEvent} → some x ≡ some y → x ≡ y
some_injective e = cc

module _ (decode_utf8 : Bytes → Text) where
  -- All three reads of the slot find this number, and `x` is what the second of them has.
  pub record IsPublished (h : RingHeader) (seq : ℕ) (v : Views) (x : RingEvent) : Type 0 where
    pub before_rest : Bytes
    pub before : uint 8 (drop (slot_offset h seq) v.before) ≡ ok (seq, before_rest)
    pub raw : RawRecord
    pub unpacked : unpack_record h.version (drop (slot_offset h seq) v.raw) ≡ ok raw
    pub numbered : raw.seq ≡ seq
    pub after_rest : Bytes
    pub after : uint 8 (drop (slot_offset h seq) v.after) ≡ ok (seq, after_rest)
    pub event : x ≡ ring_event decode_utf8 h.version raw

  -- The mapping covers the slot at each of the three reads.
  pub record Covers (h : RingHeader) (seq : ℕ) (v : Views) : Type 0 where
    pub before : 8 ≤ length (drop (slot_offset h seq) v.before)
    pub raw : HasRoom h.version (length (drop (slot_offset h seq) v.raw))
    pub after : 8 ≤ length (drop (slot_offset h seq) v.after)

  -- The slot is skipped.
  skipped :
      (h : RingHeader) (seq : ℕ) (v : Views)
      → read_slot decode_utf8 h seq v ≡ ok none
      → ((x : RingEvent) → ¬ IsPublished h seq v x)
      → (o : Option RingEvent) × (read_slot decode_utf8 h seq v ≡ ok o)
        × ((x : RingEvent) → (o ≡ some x) ↔ IsPublished h seq v x)
  skipped h seq v q n = (none, q, λ x. (λ e. cc, λ p. absurd (n x p)))

  -- A covered slot is read without an exception; it gives an event exactly if that is published.
  pub read_slot-reads :
      (h : RingHeader) (seq : ℕ) (v : Views) {b a : ℕ} {br ar : Bytes} {r : RawRecord}
      → uint 8 (drop (slot_offset h seq) v.before) ≡ ok (b, br)
      → unpack_record h.version (drop (slot_offset h seq) v.raw) ≡ ok r
      → uint 8 (drop (slot_offset h seq) v.after) ≡ ok (a, ar)
      → (o : Option RingEvent) × (read_slot decode_utf8 h seq v ≡ ok o)
        × ((x : RingEvent) → (o ≡ some x) ↔ IsPublished h seq v x)
  unfolding read_slot
  read_slot-reads h seq v {b = b} {a = a} {br = br} {ar = ar} {r = r} qb qr qa =
      elim (eq_cases b seq) [
        | inr (d, t) ↦
            skipped h seq v (rw (qb, read_slot) (rw t refl)) (λ x p. d (same_number qb p.before))
        | inl (eb, tb) ↦ (elim (eq_cases r.seq seq) [
          | inr (d, t) ↦
              skipped h seq v (rw (qb, read_slot) (rw tb (rw qr (rw qa (rw t refl)))))
                (λ x p. d (ap (λ k. k.seq) (same_record qr p.unpacked) ∙ p.numbered))
          | inl (er, tr) ↦ (elim (eq_cases a seq) [
            | inr (d, t) ↦
                skipped h seq v (rw (qb, read_slot) (rw tb (rw qr (rw qa (rw tr (rw t refl))))))
                  (λ x p. d (same_number qa p.after))
            | inl (ea, ta) ↦ (
              some (ring_event decode_utf8 h.version r),
              rw (qb, read_slot) (rw tb (rw qr (rw qa (rw tr (rw ta refl))))),
              λ x. (
                λ e. record {
                  before_rest = br;
                  before = qb ∙ ap (λ k. ok (k, br)) eb;
                  raw = r;
                  unpacked = qr;
                  numbered = er;
                  after_rest = ar;
                  after = qa ∙ ap (λ k. ok (k, ar)) ea;
                  event = some_injective (sym e);
                },
                λ p.
                    ap (λ k. some (ring_event decode_utf8 h.version k)) (same_record qr p.unpacked)
                    ∙ ap some (sym p.event),
              ),
            )
          ])
        ])
      ]
