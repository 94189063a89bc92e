-- ===== src/Tests/Bootstrap.antt =====
-- `start` and its worker with a control file that says 0, 1 and 0.
use hang_analyzer.Prelude.{
  ℕ, ◌≡◌, ◌≢◌, refl, true, false, Option, none, some, List, [], ◌∷◌, ◌++◌, Text, codes,
}
use hang_analyzer.MsptiCapture.{returned, raised}
use hang_analyzer.MsptiCapture.Monitors.{contents, os_failure}
use hang_analyzer.HangMspti.{
  start_call, set_enabled_call, flush_call, stop_call, Worker, Round, goes_on, file_enabled,
  enabled_now, launch, launched, worker_round, worker_rounds, worker, act, activate, set_collecting,
  Bootstrap, Setup, start_bootstrap, stop_bootstrap,
}
use hang_analyzer.HangMspti.Protocol.{Native, off, is_sound, after_calls, IsInOrder}
use hang_analyzer.HangMspti.Rounds.{Ended, start_worker-IsInOrder}
use hang_analyzer.HangMspti.Follows.{no_round, round_with, HasFollowed, worker_rounds-HasFollowed}
use hang_analyzer.HangMspti.Once.{start_bootstrap-once}

abbrev control : Option Text
control = some (codes "/c")

abbrev round : Text → Round
round text = record { control = contents text; start_result = 0; set_result = 0 }

abbrev rounds : List Round
rounds = round (codes "0") ∷ round (codes "1\n") ∷ round (codes "0") ∷ []

abbrev idle : Worker
idle = record { active = false; collecting = false }

worker-rounds : worker control rounds idle ≡ (
  start_call 0 ∷ flush_call ∷ set_enabled_call false 0 ∷ stop_call ∷ [],
  goes_on (record { active = true; collecting = false }),
)
unfolding worker worker_rounds worker_round enabled_now file_enabled act activate set_collecting
worker-rounds = refl

-- A switch that fails is not followed by a stop of the library.
worker-unstopped :
    (worker control
      (record { control = contents (codes "1"); start_result = 0; set_result = 5 } ∷ [])
      (record { active = true; collecting = false })).0
    ≡ set_enabled_call true 5 ∷ []
unfolding worker worker_rounds worker_round enabled_now file_enabled act activate set_collecting
worker-unstopped = refl

abbrev unused : Bootstrap
unused = record { loaded = false; stopping = false; thread = none; owner_pid = none }

abbrev setup : Setup
setup = record {
  pid = 12;
  made = returned tt;
  opened = returned tt;
  control = contents (codes "0");
  start_result = 0;
}

abbrev running : Bootstrap
running = record { loaded = true; stopping = false; thread = some idle; owner_pid = some 12 }

-- If the control file cannot be read, `start` raises, and the library counts as loaded.
start_bootstrap-unreadable :
    start_bootstrap control (record setup { control = os_failure (codes "PermissionError") }) unused
    ≡ ((raised (codes "PermissionError"), record running { thread = none }), [])
unfolding start_bootstrap enabled_now file_enabled
start_bootstrap-unreadable = refl

start_worker-IsInOrder_example :
    IsInOrder off
      ([] ++ (worker_rounds control rounds idle).0, (worker_rounds control rounds idle).1)
    × ((n : Native) × ((after_calls ([] ++ (worker control rounds idle).0) off ≡ some n)
          × Ended (worker control rounds idle).1 n))
unfolding start_bootstrap enabled_now file_enabled launch launched
start_worker-IsInOrder_example = start_worker-IsInOrder control setup unused rounds refl refl

worker_rounds-HasFollowed_example :
    HasFollowed (false ∷ true ∷ false ∷ []) idle (worker_rounds control rounds idle)
unfolding is_sound enabled_now file_enabled
worker_rounds-HasFollowed_example =
    worker_rounds-HasFollowed control rounds (false ∷ true ∷ false ∷ []) idle refl (
      round_with (round (codes "0")) false refl refl refl (
        round_with (round (codes "1\n")) true refl refl refl
          (round_with (round (codes "0")) false refl refl refl no_round)))

abbrev other_pid : ℕ
other_pid = 13

start_bootstrap-once_example :
    (start_bootstrap none setup running
      ≡ ((raised (codes "RuntimeError: already started"), running), []))
    × (((stop_bootstrap 12 running).stopping ≡ true)
        × (other_pid ≢ 12 → stop_bootstrap other_pid running ≡ running))
unfolding start_bootstrap enabled_now file_enabled launch launched
start_bootstrap-once_example = start_bootstrap-once control none setup setup unused other_pid refl
