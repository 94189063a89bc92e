-- ===== src/Format/Unpack.antt =====
-- `struct.unpack_from`: enough bytes are enough, and what is packed is unpacked.
use native.Mathlib.Nat.{div-lt_iff_lt-mul, pow-suc, div-add-mod}
use hang_analyzer.Prelude.{
  ℕ, zero, suc, ◌+◌, ◌*◌, ◌/◌, ◌%◌, ◌^◌, ◌≤◌, ◌<◌, ◌≡◌, refl, [], ◌∷◌, ◌++◌, length, arith,
}
use hang_analyzer.Prelude.Result.{Result, ok, ◌>>=◌}
use hang_analyzer.Format.{Bytes, RawHeader, RawEvent, uint, unpack_header, unpack_event}

-- An integer is read if its bytes are there, and what is left is shorter by them.
pub uint_returns :
    (w k : ℕ) (bs : Bytes)
    → w + k ≤ length bs
    → (n : ℕ) × (rest : Bytes) × (uint w bs ≡ ok (n, rest)) × (k ≤ length rest)
unfolding uint
uint_returns zero k bs h = (0, bs, refl, omega arith)
uint_returns (suc w) k [] h = absurd (omega arith)
uint_returns (suc w) k (b ∷ bs) h =
    let (n, rest, e, room) = uint_returns w k bs (omega arith) in (b + 256 * n, rest, rw e, room)

-- `n` as `w` bytes, the lowest first.
unfoldable pub little_endian : ℕ → ℕ → Bytes
little_endian zero n = []
little_endian (suc w) n = (n % 256) ∷ little_endian w (n / 256)

high : (w n : ℕ) → n < 256 ^ suc w → n / 256 < 256 ^ w
high w n h = (div-lt_iff_lt-mul (omega arith)).1 (rw pow-suc at h)

pub uint-little_endian :
    (w n : ℕ) (rest : Bytes) → n < 256 ^ w → uint w (little_endian w n ++ rest) ≡ ok (n, rest)
unfolding uint little_endian
uint-little_endian zero n rest h = ground arith
uint-little_endian (suc w) n rest h =
    rw (uint-little_endian w (n / 256) rest (high w n h)) (ground (arith, div-add-mod n 256))

-- One field of a format, when `k` more bytes follow it.
module _ {B : Type 0} where
  pub uint_then :
      (w k : ℕ) (bs : Bytes) (f : ℕ × Bytes → Result B)
      → w + k ≤ length bs
      → ((n : ℕ) (rest : Bytes) → k ≤ length rest → (b : B) × (f (n, rest) ≡ ok b))
      → (b : B) × ((uint w bs >>= f) ≡ ok b)
  uint_then w k bs f h next =
      let (n, rest, e, room) = uint_returns w k bs h in let (b, q) = next n rest room in (b, rw e q)

pub unpack_event_returns : (bs : Bytes) → 64 ≤ length bs → (e : RawEvent) × (unpack_event bs ≡ ok e)
unfolding unpack_event
unpack_event_returns bs h = uint_then 8 56 bs _ h λ _ r h. uint_then 8 48 r _ h λ _ r h.
    uint_then 4 44 r _ h λ _ r h. uint_then 4 40 r _ h λ _ r h. uint_then 2 38 r _ h λ _ r h.
      uint_then 2 36 r _ h λ _ r h. uint_then 4 32 r _ h λ _ r h. uint_then 2 30 r _ h λ _ r h.
        uint_then 2 28 r _ h λ _ r h. uint_then 4 24 r _ h λ _ r h.
          uint_then 8 16 r _ h
            λ _ r h. uint_then 8 8 r _ h λ _ r h. uint_then 8 0 r _ h λ _ r h. (_, refl)

pub unpack_header_returns :
    (bs : Bytes) → 64 ≤ length bs → (e : RawHeader) × (unpack_header bs ≡ ok e)
unfolding unpack_header
unpack_header_returns bs h = uint_then 8 56 bs _ h λ _ r h. uint_then 4 52 r _ h λ _ r h.
    uint_then 4 48 r _ h λ _ r h. uint_then 8 40 r _ h λ _ r h. uint_then 4 36 r _ h λ _ r h.
      uint_then 2 34 r _ h λ _ r h. uint_then 2 32 r _ h λ _ r h. uint_then 8 24 r _ h λ _ r h.
        uint_then 8 16 r _ h
          λ _ r h. uint_then 8 8 r _ h λ _ r h. uint_then 8 0 r _ h λ _ r h. (_, refl)

-- The next field of a format is the packed `n`.
pub packed_then :
    {B : Type 0} (w n : ℕ) (rest : Bytes) (f : ℕ × Bytes → Result B) {r : Result B}
    → n < 256 ^ w
    → f (n, rest) ≡ r
    → (uint w (little_endian w n ++ rest) >>= f) ≡ r
packed_then w n rest f h e = rw (uint-little_endian w n rest h) e
