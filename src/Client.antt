-- ===== src/Client.antt =====
-- flightrecorder/client.py: `Recorder`. The native library is a parameter; `ctypes` keeps of each argument
-- what its declared type holds.
pub mod Types
use hang_analyzer.Prelude.{
  ℕ, ◌==◌, ◌%◌, ◌^◌, Bool, Option, none, some, List, [], ◌∷◌, ◌++◌, if◌then◌else◌, Text, codes,
  decimal,
}
use hang_analyzer.Format.{type_code}

-- The functions of the library, over its own state `W`.
pub record FlightLibrary (W : Type 0) : Type 0 where
  pub init : Text → (rank device capacity : ℕ) → W → ℕ × W
  pub record_event : (type stream correlation arg0 arg1 flags : ℕ) → W → ℕ × W
  pub close_file : W → W

-- What a method does: it returns, or raises `OSError` with an error number, or `KeyError`.
pub data Reply (A : Type 0) : Type 0 where
  replied : A → Reply A
  raised_os : ℕ → Text → Reply A
  raised_key : Text → Reply A

-- The object, of which only the path is kept.
pub record Recorder : Type 0 where
  pub path : Text

-- `self.path`; `root` ends with a slash.
unfoldable pub flight_path : Text → (rank pid : ℕ) → Text
unfolding decimal
flight_path root rank pid =
    root ++ (codes "rank" ++ (decimal rank ++ (codes "-pid" ++ (decimal pid ++ codes ".flight"))))

-- The argument of a type of `w` bits.
abbrev pub c_uint : ℕ → ℕ → ℕ
c_uint w n = n % 2 ^ w

module _ {W : Type 0} (lib : FlightLibrary W) where
  -- `__init__`, in the process `pid`
  unfoldable pub open_recorder : Text → (pid rank device capacity : ℕ) → W → Reply Recorder × W
  unfolding flight_path
  open_recorder root pid rank device capacity w =
      let path = flight_path root rank pid in
      let (error, w') = lib.init path (c_uint 16 rank) (c_uint 16 device) (c_uint 64 capacity) w in
      if error == 0 then (replied (record { path = path }), w') else (raised_os error path, w')

  -- `record`
  unfoldable pub record_named : Text → (stream correlation arg0 arg1 flags : ℕ) → W → Reply ℕ × W
  unfolding type_code
  record_named name stream correlation arg0 arg1 flags w = elim (type_code name) [
    | none ↦ (raised_key name, w)
    | some type ↦
        let (seq, w') =
          lib.record_event (c_uint 16 type) (c_uint 32 stream) (c_uint 64 correlation)
            (c_uint 64 arg0) (c_uint 64 arg1) (c_uint 16 flags) w in
        (replied seq, w')
  ]

  -- `close`
  unfoldable pub close_recorder : W → W
  close_recorder w = lib.close_file w
