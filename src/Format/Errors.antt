-- ===== src/Format/Errors.antt =====
-- What the readers raise: their callers catch `OSError` and `ValueError` only.
use hang_analyzer.Prelude.{
  ◌≡◌, refl, ◌||◌, not, length, take, ltb, ◌==◌, Text, Bool-cases, inl, inr, arith, subst,
}
use hang_analyzer.Prelude.Result.{Result, ok, err, os_error, value_error, struct_error}
use hang_analyzer.Format.{
  Bytes, Header, RawHeader, magic_number, check_header, read_header, read_events,
}
use hang_analyzer.Format.Unpack.{unpack_header_returns}
use hang_analyzer.Format.Window.{read_events_lem}

-- `except (OSError, ValueError)` takes this outcome, or there is nothing to catch.
abbrev pub IsCaught : {A : Type 0} → Result A → Type 0
IsCaught (ok _) = Unit
IsCaught (err (os_error _)) = Unit
IsCaught (err (value_error _)) = Unit
IsCaught (err struct_error) = ⊥

check_header-IsCaught : (path : Text) (h : RawHeader) → IsCaught (check_header path h)
unfolding check_header
check_header-IsCaught path h =
    elim (Bool-cases (
      not (h.magic == magic_number)
      || not (h.version == 1)
      || not (h.event_size == 64)
      || ltb h.capacity 2)) [ inl bad ↦ rw bad tt | inr good ↦ rw good tt ]

pub read_header-IsCaught :
    (path : Text) (file : Result Bytes) → IsCaught file → IsCaught (read_header path file)
unfolding read_header
read_header-IsCaught path (err (os_error m)) c = tt
read_header-IsCaught path (err (value_error m)) c = tt
read_header-IsCaught path (err struct_error) c = c
read_header-IsCaught path (ok content) c = elim (Bool-cases (ltb (length (take 128 content)) 128)) [
  | inl short ↦ rw short tt
  | inr long ↦
      let (h, u) = unpack_header_returns (take 128 content) (ground arith) in
      rw (long, u) (check_header-IsCaught path h)
]

-- If reading the file raises only what the callers catch, `read_events` raises nothing else: no read
-- past the end of either content reaches `struct`.
pub read_events-IsCaught :
    (path : Text) (first second : Result Bytes)
    → IsCaught first
    → IsCaught second
    → IsCaught (read_events path first second)
read_events-IsCaught path first second a b = go (read_header path first) second refl b
  where
    go :
        (r : Result Header) (f : Result Bytes)
        → read_header path first ≡ r
        → IsCaught f
        → IsCaught (read_events path first f)
    go (err e) f q c =
        unfold read_events in rw q (subst IsCaught q (read_header-IsCaught path first a))
    go (ok h) (err e) q c = unfold read_events in rw q c
    go (ok h) (ok raw) q c = let (es, runs, _, _) = read_events_lem path first raw h q in rw runs tt
