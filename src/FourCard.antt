-- ===== src/FourCard.antt =====
-- examples/four_card_hccl_hang.py: what `worker` does on its rank, up to where it hangs, and the checks
-- that `run` makes. Tensors, streams and the profiler are torch's: a stream enters by its handle and a
-- tensor by its number of elements.
pub mod Hang
pub mod Groups
pub mod Calls
pub mod Chosen
pub mod Found
pub mod Passes
pub mod Launch
pub mod Verdict
use hang_analyzer.Prelude.{
  ℕ, ◌+◌, ◌==◌, ltb, leb, Bool, true, false, not, ◌&&◌, ◌||◌, Option, none, some, List, [], ◌∷◌,
  ◌++◌, map, passing, contains, if◌then◌else◌, Text, codes, text_eq, ℕ_discrete,
}
use hang_analyzer.Format.{Event}
use hang_analyzer.Client.{c_uint}

-- `DEVICES`
abbrev pub devices : List ℕ
devices = 4 ∷ 5 ∷ 6 ∷ 7 ∷ []

-- `COMM`
abbrev pub comm : ℕ
comm = 700

-- `COLLECTIVE_TYPE_ALLREDUCE`
abbrev pub allreduce : ℕ
allreduce = 1

-- The options of the command line that `worker` reads.
pub record Settings : Type 0 where
  pub missing_rank : ℕ
  pub has_profile : Bool
  pub has_checkpoints : Bool

-- What torch gives to the worker of a rank: the handles of its streams, and sizes.
pub record Setting : Type 0 where
  pub compute : ℕ
  pub transfer : ℕ
  pub default : ℕ
  pub z_numel : ℕ
  pub kv_numel : ℕ
  pub result_numel : ℕ

-- The arguments of `recorder.record`; `flags` is 0 in each call.
pub record RecordCall : Type 0 where
  pub name : Text
  pub stream : ℕ
  pub correlation : ℕ
  pub arg0 : ℕ
  pub arg1 : ℕ

-- What the worker does, one call behind the other. `submit_call` submits the record before it.
pub data Action : Type 0 where
  record_call : RecordCall → Action
  submit_call : (stream_id checkpoint_id : ℕ) → Action
  register_call : (stream_id stream_handle : ℕ) → Action
  start_poller_call : (interval_us budget : ℕ) → Action
  open_recorder_call : (rank device capacity : ℕ) → Action
  open_manager_call : (slots : ℕ) → Action
  write_ready await_start start_profiler stop_profiler all_reduce await_confirmed gate : Action
  synchronize : (step : ℕ) → Action

-- `int(stream.npu_stream) & 0xFFFFFFFF`
abbrev pub stream_id : ℕ → ℕ
stream_id handle = c_uint 32 handle

-- `recorder.record(name, stream=..., correlation=..., arg0=..., arg1=...)`
abbrev pub recorded_call : Text → (stream correlation arg0 arg1 : ℕ) → Action
recorded_call name stream correlation arg0 arg1 =
    record_call
      (record { name = name; stream = stream; correlation = correlation; arg0 = arg0; arg1 = arg1 })

-- `if test:` before the actions
abbrev pub only_if : Bool → List Action → List Action
only_if true actions = actions
only_if false actions = []

module _ (s : Settings) (t : Setting) (rank : ℕ) where
  abbrev compute_id : ℕ
  compute_id = stream_id t.compute

  abbrev transfer_id : ℕ
  transfer_id = stream_id t.transfer

  abbrev default_id : ℕ
  default_id = stream_id t.default

  -- `worker` up to the start.
  unfoldable pub set_up : List Action
  set_up =
      open_recorder_call rank rank 4096
        ∷ only_if s.has_checkpoints (
            open_manager_call 4
            ∷ register_call compute_id t.compute
            ∷ register_call transfer_id t.transfer
            ∷ register_call default_id t.default
            ∷ start_poller_call 1000 32
            ∷ [])
      ++ write_ready ∷ await_start ∷ only_if s.has_profile (start_profiler ∷ [])

  -- The first step, up to its synchronisation.
  unfoldable pub compute_step : List Action
  compute_step =
      recorded_call (codes "REQUEST_BEGIN") 0 101 131072 0
        ∷ recorded_call (codes "SCHEDULER_BEGIN") 0 1 0 0
        ∷ recorded_call (codes "MODEL_BEGIN") compute_id 1 0 0
        ∷ recorded_call (codes "EVENT_RECORD") compute_id (1000 + rank) 0 0
        ∷ recorded_call (codes "KV_BEGIN") transfer_id (2000 + rank) rank t.z_numel
        ∷ recorded_call (codes "EVENT_WAIT") transfer_id (1000 + rank) 0 0
        ∷ recorded_call (codes "EVENT_RECORD") transfer_id (2000 + rank) 0 0
        ∷ recorded_call (codes "KV_END") transfer_id (2000 + rank) rank t.kv_numel
        ∷ only_if s.has_checkpoints (submit_call transfer_id 6001 ∷ [])
      ++ recorded_call (codes "EVENT_WAIT") compute_id (2000 + rank) 0 0
        ∷ recorded_call (codes "MODEL_END") compute_id 1 0 0
        ∷ only_if s.has_checkpoints (submit_call compute_id 5001 ∷ [])
      ++ recorded_call (codes "DEVICE_SYNC_BEGIN") 0 1 0 0
        ∷ synchronize 1
        ∷ recorded_call (codes "DEVICE_SYNC_END") 0 1 0 0
        ∷ recorded_call (codes "DEVICE_CONFIRMED") 0 1 t.result_numel 0
        ∷ []

  -- The collective that succeeds, up to the end of the first step.
  unfoldable pub first_collective : List Action
  first_collective =
      recorded_call (codes "HCCL_BEGIN") default_id 1 comm allreduce
        ∷ all_reduce
        ∷ recorded_call (codes "HCCL_END") default_id 1 comm allreduce
        ∷ only_if s.has_checkpoints (submit_call default_id 7101 ∷ [])
      ++ synchronize 1
        ∷ recorded_call (codes "DEVICE_CONFIRMED") 0 1 10 0
        ∷ only_if s.has_checkpoints (await_confirmed ∷ [])
      ++ recorded_call (codes "SCHEDULER_END") 0 1 0 0
        ∷ only_if s.has_profile (stop_profiler ∷ recorded_call (codes "CHECKPOINT") 0 1 1 0 ∷ [])
      ++ recorded_call (codes "SCHEDULER_BEGIN") 0 2 0 0 ∷ []

  -- `if rank == args.missing_rank:`; nothing follows the gate.
  unfoldable pub missing_gate : List Action
  missing_gate = recorded_call (codes "KV_BEGIN") transfer_id (3000 + rank) rank 4096 ∷ gate ∷ []

  unfoldable pub second_collective : List Action
  second_collective =
      recorded_call (codes "HCCL_BEGIN") default_id 2 comm allreduce
        ∷ all_reduce
        ∷ recorded_call (codes "HCCL_END") default_id 2 comm allreduce
        ∷ only_if s.has_checkpoints (submit_call default_id 7102 ∷ [])
      ++ recorded_call (codes "DEVICE_SYNC_BEGIN") 0 2 0 0
        ∷ synchronize 2
        ∷ recorded_call (codes "DEVICE_SYNC_END") 0 2 0 0
        ∷ recorded_call (codes "DEVICE_CONFIRMED") 0 2 0 0
        ∷ []

  -- `worker`; `missing` is the test `rank == args.missing_rank`.
  unfoldable pub worker_actions_as : (missing : Bool) → List Action
  unfolding set_up compute_step first_collective missing_gate second_collective
  worker_actions_as missing =
      set_up
      ++ (compute_step ++ (first_collective ++ (only_if missing missing_gate ++ second_collective)))

  abbrev pub worker_actions : List Action
  worker_actions = worker_actions_as (rank == s.missing_rank)

-- The calls that do not return while a rank is missing: the gate, and the synchronisation behind the
-- second collective.
unfoldable pub blocks : Action → Bool
blocks gate = true
blocks (synchronize step) = step == 2
blocks _ = false

-- What the worker does before it hangs.
unfoldable pub until_blocked : List Action → List Action
unfolding blocks
until_blocked [] = []
until_blocked (a ∷ actions) = let rest = until_blocked actions in if blocks a then [] else a ∷ rest

-- `{5001, 6001, 7101}.issubset(confirmed_ids)`
unfoldable pub all_observed : List Event → Bool
unfolding text_eq contains passing
all_observed current =
    let confirmed_ids =
      map (λ (e : Event). e.correlation_id)
        (passing (λ e. text_eq e.type (codes "DEVICE_CONFIRMED")) current) in
    contains ℕ_discrete 5001 confirmed_ids
    && (contains ℕ_discrete 6001 confirmed_ids && contains ℕ_discrete 7101 confirmed_ids)

-- How a wait ends: it returns, raises `TimeoutError`, or goes on when the observations end.
pub data Wait : Type 0 where
  arrived timed_out waiting : Wait

-- The loop on the checkpoints, over what each round reads and whether the deadline has passed then.
unfoldable pub await_checkpoints : List (List Event × Bool) → Wait
unfolding all_observed
await_checkpoints [] = waiting
await_checkpoints ((current, late) ∷ rounds) =
    let rest = await_checkpoints rounds in
    if all_observed current then arrived else if late then timed_out else rest

-- `wait_until`, over the clock and the answer of the predicate in each round.
unfoldable pub wait_until : ℕ → List (ℕ × Bool) → Wait
wait_until deadline [] = waiting
wait_until deadline ((now, holds) ∷ rounds) =
    let rest = wait_until deadline rounds in
    if ltb now deadline then (if holds then arrived else rest) else timed_out

-- `names`, the types of the events of the second step.
unfoldable pub second_step : List Event → List Text
unfolding passing
second_step events = map (λ (e : Event). e.type) (passing (λ e. e.correlation_id == 2) events)

unfoldable pub has_name : Text → List Text → Bool
unfolding text_eq
has_name name [] = false
has_name name (n ∷ names) = text_eq n name || has_name name names

-- The body of the loop of `reached_hang`; `none` stands for a rank without a flight file.
unfoldable pub rank_reached : ℕ → ℕ → Option (List Event) → Bool
unfolding second_step has_name
rank_reached missing rank none = false
rank_reached missing rank (some events) =
    has_name (if rank == missing then codes "SCHEDULER_BEGIN" else codes "HCCL_BEGIN")
      (second_step events)

unfoldable pub reached_from : ℕ → List ℕ → (ℕ → Option (List Event)) → Bool
unfolding rank_reached
reached_from missing [] flight = true
reached_from missing (rank ∷ ranks) flight =
    rank_reached missing rank (flight rank) && reached_from missing ranks flight

-- `reached_hang`, over the first flight file of each rank.
unfoldable pub reached_hang : ℕ → (ℕ → Option (List Event)) → Bool
unfolding reached_from
reached_hang missing flight = reached_from missing devices flight
