-- ===== src/FourCard/Launch.antt =====
-- How `run` starts and ends its processes, and what it asks of the rings of msPTI. Paths are texts; what
-- the system answers is data.
pub mod Site
use hang_analyzer.Prelude.{
  ℕ, ◌==◌, Bool, true, false, not, ◌&&◌, ◌||◌, Option, none, some, List, [], ◌∷◌, ◌++◌, map,
  if◌then◌else◌, Text, codes, text_eq, Text-discrete, decimal, Dict, lookup, insert, ℕ_discrete,
}
use hang_analyzer.Outputs.Shown.{join}
use hang_analyzer.MsptiRing.{RingEvent}
use hang_analyzer.FourCard.{devices}

-- The options of `run`; an option that is not given is an empty text.
pub record RunOptions : Type 0 where
  pub executable : Text
  pub script : Text
  pub root : Text
  pub missing_rank : ℕ
  pub library : Text
  pub output : Text
  pub port : ℕ
  pub hang_timeout : Text
  pub device_profile : Bool
  pub checkpoint_library : Text
  pub mspti_library : Text
  pub mspti_preload : Text

-- `bool(text)`
abbrev pub is_given : Text → Bool
is_given [] = false
is_given (c ∷ cs) = true

-- `bool(args.mspti_library) != bool(args.mspti_preload)`, which `main` refuses.
unfoldable pub is_usage_error : RunOptions → Bool
is_usage_error o =
    if is_given o.mspti_library then not (is_given o.mspti_preload) else is_given o.mspti_preload

-- `str(output / name)`
abbrev pub within : Text → Text → Text
within directory name = directory ++ (codes "/" ++ name)

abbrev pub given_option : Bool → List Text → List Text
given_option true words = words
given_option false words = []

module _ (o : RunOptions) where
  -- The command of the sampler.
  unfoldable pub sampler_command : List Text
  unfolding decimal join
  sampler_command =
      o.executable
      ∷ codes "-m"
      ∷ codes "flightrecorder.aicpu_sampler"
      ∷ codes "capture"
      ∷ codes "--devices"
      ∷ join (codes ",") (map decimal devices)
      ∷ codes "--interval"
      ∷ codes "0.5"
      ∷ codes "--output"
      ∷ within o.output (codes "aicpu_usage.jsonl")
      ∷ []

  -- The command of the worker of a rank.
  unfoldable pub worker_command : ℕ → List Text
  unfolding decimal
  worker_command rank =
      o.executable
        ∷ o.script
        ∷ codes "--worker"
        ∷ codes "--device"
        ∷ decimal rank
        ∷ codes "--missing-rank"
        ∷ decimal o.missing_rank
        ∷ codes "--library"
        ∷ o.library
        ∷ codes "--output"
        ∷ o.output
        ∷ codes "--port"
        ∷ decimal o.port
        ∷ given_option o.device_profile (codes "--device-profile" ∷ [])
      ++ given_option (is_given o.checkpoint_library)
          (codes "--checkpoint-library" ∷ o.checkpoint_library ∷ [])

  -- `env.get(name)`, an empty text if it is not there
  unfoldable pub variable : Text → Dict Text Text → Text
  unfolding lookup
  variable name env = elim (lookup Text-discrete name env) [ none ↦ [] | some value ↦ value ]

  -- `args.mspti_preload + (" " + env["LD_PRELOAD"] if env.get("LD_PRELOAD") else "")`
  unfoldable pub preload : Text → Text
  preload old = o.mspti_preload ++ (if is_given old then codes " " ++ old else [])

  -- `env`, from a copy of `os.environ`
  unfoldable pub worker_env : Dict Text Text → Dict Text Text
  unfolding variable preload insert join
  worker_env environ =
      let set = insert Text-discrete in
      let with_preload =
        set (codes "LD_PRELOAD") (preload (variable (codes "LD_PRELOAD") environ)) environ in
      let paths =
        within (within o.root (codes "python")) (codes "bootstrap")
        ∷ o.root
        ∷ variable (codes "PYTHONPATH") environ
        ∷ [] in
      if is_given o.mspti_library
      then set (codes "HANG_MSPTI_ENABLE_FILE") (within o.output (codes "enable_prof")) (
          set (codes "HANG_MSPTI_DIR") (within o.output (codes "mspti")) (
            set (codes "HANG_MSPTI_LIBRARY") o.mspti_library
              (set (codes "PYTHONPATH") (join (codes ":") paths) with_preload)))
      else environ

  -- The `--pid` options of the watchdog.
  unfoldable pub pid_options : List ℕ → List Text
  unfolding decimal
  pid_options [] = []
  pid_options (pid ∷ pids) = codes "--pid" ∷ decimal pid ∷ pid_options pids

  -- The command of the watchdog, over the children's processes.
  unfoldable pub watchdog_command : List ℕ → List Text
  unfolding pid_options
  watchdog_command pids =
      o.executable
      ∷ codes "-m"
      ∷ codes "flightrecorder.watchdog"
      ∷ codes "--directory"
      ∷ within o.output (codes "flight")
      ∷ codes "--output"
      ∷ within o.output (codes "dumps")
      ∷ codes "--timeout"
      ∷ o.hang_timeout
      ∷ codes "--interval"
      ∷ codes "0.2"
      ∷ codes "--npu-smi"
      ∷ pid_options pids

-- A process, whether it still runs when it is polled, and whether a wait for it ends in time.
pub record Process : Type 0 where
  pub pid : ℕ
  pub is_running : Bool
  pub ends_in_time : Bool

-- What `finally` does with a process; the timeouts are numbers of seconds, and `join_process` waits without.
pub data ProcessCall : Type 0 where
  kill terminate join_process : (pid : ℕ) → ProcessCall
  wait_process : (pid timeout : ℕ) → ProcessCall

unfoldable pub kill_running : List Process → List ProcessCall
kill_running [] = []
kill_running (p ∷ ps) =
    let rest = kill_running ps in if p.is_running then kill p.pid ∷ rest else rest

unfoldable pub wait_each : List Process → List ProcessCall
wait_each [] = []
wait_each (p ∷ ps) = wait_process p.pid 10 ∷ wait_each ps

-- `wait(timeout=...)`, and `kill(); wait()` if it does not end.
unfoldable pub wait_or_kill : ℕ → Process → List ProcessCall
wait_or_kill timeout p =
    wait_process p.pid timeout
    ∷ (if p.ends_in_time then [] else kill p.pid ∷ join_process p.pid ∷ [])

unfoldable pub end_watchdog : Option Process → List ProcessCall
unfolding wait_or_kill
end_watchdog none = []
end_watchdog (some p) = wait_or_kill 15 p

unfoldable pub end_sampler : Option Process → List ProcessCall
unfolding wait_or_kill
end_sampler none = []
end_sampler (some p) = terminate p.pid ∷ wait_or_kill 5 p

-- The calls of `finally`; the log files are closed behind them.
unfoldable pub end_processes : List Process → (watchdog sampler : Option Process) → List ProcessCall
unfolding kill_running wait_each end_watchdog end_sampler
end_processes children watchdog sampler =
    kill_running children ++ (wait_each children ++ (end_watchdog watchdog ++ end_sampler sampler))

-- What `run` finds of the ring of a rank: no file, or what `read_ring` returned of it.
unfoldable pub has_enter : List RingEvent → Bool
unfolding text_eq
has_enter [] = false
has_enter (e ∷ es) = text_eq e.kind (codes "runtime_enter") || has_enter es

-- The checks of the rings; the rank of the first that fails, and whether its file is missing.
unfoldable pub check_rings : List (ℕ × Option (List RingEvent)) → Option (ℕ × Bool)
unfolding has_enter
check_rings [] = none
check_rings ((rank, none) ∷ rings) = some (rank, true)
check_rings ((rank, some events) ∷ rings) =
    let rest = check_rings rings in if has_enter events then rest else some (rank, false)

-- `any(counts.get(rank, 0) == 0 for rank in DEVICES)`
unfoldable pub lacks_kernels : List ℕ → Dict ℕ ℕ → Bool
unfolding lookup
lacks_kernels [] counts = false
lacks_kernels (rank ∷ ranks) counts =
    let found : Bool = elim (lookup ℕ_discrete rank counts) [ none ↦ true | some n ↦ n == 0 ] in
    found || lacks_kernels ranks counts

-- `not counts or any(...)`, where `run` raises a `RuntimeError`.
unfoldable pub profile_fails : Dict ℕ ℕ → Bool
unfolding lacks_kernels
profile_fails [] = true
profile_fails (c ∷ counts) = lacks_kernels devices (c ∷ counts)

-- The lines that are added to report.txt.
unfoldable pub kernel_counts : Dict ℕ ℕ → List ℕ → List Text
unfolding lookup decimal
kernel_counts counts [] = []
kernel_counts counts (rank ∷ ranks) =
    (codes "rank "
      ++ (decimal rank
          ++ (codes ": "
              ++ (decimal (elim (lookup ℕ_discrete rank counts) [ none ↦ 0 | some n ↦ n ])
                  ++ codes " kernels"))))
    ∷ kernel_counts counts ranks
