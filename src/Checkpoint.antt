-- ===== src/Checkpoint.antt =====
-- flightrecorder/checkpoint.py: `CannCheckpointManager`. The C library is a parameter, with a state of
-- its own. A null handle is the number 0 that it returns, and `None` in the manager.
pub mod Closing
use hang_analyzer.Prelude.{ℕ, ◌==◌, Bool, true, false, not, Option, none, some, if◌then◌else◌}

-- The functions of the library, in a state `W`; the first result is the return code.
pub record Adapter (W : Type 0) : Type 0 where
  pub create : ℕ → W → ℕ × W
  pub register : Option ℕ → ℕ → ℕ → W → ℕ × W
  pub submit : Option ℕ → ℕ → ℕ → ℕ → W → ℕ × ℕ × W
  pub poll : Option ℕ → ℕ → W → ℕ × W
  pub start : Option ℕ → ℕ → ℕ → W → ℕ × W
  pub stop : Option ℕ → W → W
  pub destroy : Option ℕ → W → ℕ × W

pub data CallResult (A : Type 0) : Type 0 where
  returns : A → CallResult A
  raises_os : ℕ → CallResult A
  raises_runtime : CallResult A

pub record Manager : Type 0 where
  pub handle : Option ℕ

-- `errno.EBUSY`
abbrev pub busy : ℕ
busy = 16

-- `if rc: raise OSError(rc, ...)`, and the value behind it.
unfoldable pub checked : {A : Type 0} → ℕ → A → CallResult A
checked rc a = if rc == 0 then returns a else raises_os rc

module _ {W : Type 0} (lib : Adapter W) where
  -- `__init__`
  unfoldable pub open_manager : ℕ → W → CallResult Manager × W
  open_manager slots w =
      let (handle, w') = lib.create slots w in
      if handle == 0 then (raises_runtime, w') else (returns (record { handle = some handle }), w')

  unfoldable pub register_stream : Manager → ℕ → ℕ → W → CallResult Unit × W
  unfolding checked
  register_stream m stream_id stream_handle w =
      let (rc, w') = lib.register m.handle stream_id stream_handle w in (checked rc tt, w')

  -- It returns the generation.
  unfoldable pub submit_checkpoint : Manager → ℕ → ℕ → ℕ → W → CallResult ℕ × W
  unfolding checked
  submit_checkpoint m stream_id submitted_seq checkpoint_id w =
      let (rc, generation, w') = lib.submit m.handle stream_id submitted_seq checkpoint_id w in
      (checked rc generation, w')

  unfoldable pub poll_manager : Manager → ℕ → W → ℕ × W
  poll_manager m budget w = lib.poll m.handle budget w

  unfoldable pub start_poller : Manager → ℕ → ℕ → W → CallResult Unit × W
  unfolding checked
  start_poller m interval_us budget w =
      let (rc, w') = lib.start m.handle interval_us budget w in (checked rc tt, w')

  unfoldable pub stop_poller : Manager → W → W
  stop_poller m w = elim m.handle [ none ↦ w | some h ↦ lib.stop (some h) w ]

  -- What follows `destroy`.
  unfoldable pub closed_with : Manager → ℕ → W → CallResult Unit × Manager × W
  closed_with m rc w =
      if rc == busy
      then (raises_runtime, m, w)
      else if rc == 0
      then (returns tt, record { handle = none }, w)
      else (raises_os rc, m, w)

  unfoldable pub close_manager : Manager → W → CallResult Unit × Manager × W
  unfolding stop_poller closed_with
  close_manager m w = elim m.handle [
    | none ↦ (returns tt, m, w)
    | some _ ↦ let (rc, w') = lib.destroy m.handle (stop_poller m w) in closed_with m rc w'
  ]
