-- ===== src/Tests/Launch.antt =====
-- A run of the example with msPTI, the end of its processes, and the rounds of the AICPU sampler.
use hang_analyzer.Prelude.{
  ℕ, ◌+◌, ◌≡◌, refl, true, false, Option, some, [], ◌∷◌, Text, Text-discrete, codes, text_eq,
  decimal, Dict, lookup, ℕ_discrete, length, if◌then◌else◌,
}
use hang_analyzer.Prelude.Result.{ok, err, os_error}
use hang_analyzer.HangMspti.Site.{starts, untouched, key_error, customize, setting_of}
use hang_analyzer.FourCard.Launch.{
  RunOptions, worker_command, worker_env, Process, kill, terminate, wait_process, join_process,
  end_processes, profile_fails,
}
use hang_analyzer.FourCard.Launch.Site.{bootstrap_call, customize-worker_env}
use hang_analyzer.AicpuSampler.{failed, sample}
use hang_analyzer.AicpuSampler.Capture.{SampleRound, over, capture}
use hang_analyzer.Watchdog.Proc
use hang_analyzer.Watchdog.Proc.{copied, collect_proc}

abbrev run_options : RunOptions
run_options = record {
  executable = codes "python";
  script = codes "four.py";
  root = codes "/r";
  missing_rank = 6;
  library = codes "libflight.so";
  output = codes "/o";
  port = 4000;
  hang_timeout = codes "5";
  device_profile = true;
  checkpoint_library = [];
  mspti_library = codes "libhangmspti.so";
  mspti_preload = codes "libmspti.so";
}

abbrev environ : Dict Text Text
environ = (codes "LD_PRELOAD", codes "a.so") ∷ (codes "HANG_MSPTI_CAPACITY", codes "16") ∷ []

-- The length of a text, as its number.
abbrev measure : Text → Option ℕ
measure t = some (length t)

customize-worker_env_example :
    (lookup Text-discrete (codes "PYTHONPATH") (worker_env run_options environ)
      ≡ some (codes "/r/python/bootstrap:/r:"))
    × (lookup Text-discrete (codes "LD_PRELOAD") (worker_env run_options environ)
        ≡ some (codes "libmspti.so a.so"))
    × (customize measure measure (worker_env run_options environ)
        ≡ starts (bootstrap_call run_options 3 2))
unfolding setting_of lookup Text-discrete ℕ_discrete
customize-worker_env_example =
    customize-worker_env run_options environ measure measure refl refl refl

worker_command-rank :
    worker_command run_options 5
    ≡ codes "python"
      ∷ codes "four.py"
      ∷ codes "--worker"
      ∷ codes "--device"
      ∷ codes "5"
      ∷ codes "--missing-rank"
      ∷ codes "6"
      ∷ codes "--library"
      ∷ codes "libflight.so"
      ∷ codes "--output"
      ∷ codes "/o"
      ∷ codes "--port"
      ∷ codes "4000"
      ∷ codes "--device-profile"
      ∷ []
unfolding worker_command decimal
worker_command-rank = refl

customize-no_directory : customize measure measure environ ≡ untouched
unfolding customize lookup Text-discrete ℕ_discrete
customize-no_directory = refl

customize-no_library :
    customize measure measure ((codes "HANG_MSPTI_DIR", codes "/o") ∷ [])
    ≡ key_error (codes "HANG_MSPTI_LIBRARY")
unfolding customize lookup Text-discrete ℕ_discrete
customize-no_library = refl

-- A search that finds one number for every label.
abbrev found : Text → Text → Option ℕ
found label output = some 7

abbrev process : ℕ → Process
process pid = record { pid = pid; is_running = true; ends_in_time = false }

end_processes-stuck :
    end_processes (process 1 ∷ process 2 ∷ []) (some (process 3)) (some (process 4))
    ≡ kill 1
      ∷ kill 2
      ∷ wait_process 1 10
      ∷ wait_process 2 10
      ∷ wait_process 3 15
      ∷ kill 3
      ∷ join_process 3
      ∷ terminate 4
      ∷ wait_process 4 5
      ∷ kill 4
      ∷ join_process 4
      ∷ []
unfolding end_processes
end_processes-stuck = refl

profile_fails-rank : profile_fails ((4, 9) ∷ (5, 9) ∷ (6, 0) ∷ (7, 9) ∷ []) ≡ true
unfolding profile_fails lookup ℕ_discrete
profile_fails-rank = refl

abbrev sample_round : ℕ → SampleRound
sample_round t = record {
  tested = t;
  started = t;
  ended = t + 30;
  runs = λ d. (t, t, failed (codes "e"));
}

-- Two rounds before the deadline; the third is not begun.
capture-deadline :
    capture found
      (4 ∷ 5 ∷ [])
      100
      0
      (some 200)
      (sample_round 0 ∷ sample_round 100 ∷ sample_round 200 ∷ [])
    ≡ over (record {
      rows =
          sample found 4 0 0 (failed (codes "e"))
          ∷ sample found 5 0 0 (failed (codes "e"))
          ∷ sample found 4 100 100 (failed (codes "e"))
          ∷ sample found 5 100 100 (failed (codes "e"))
          ∷ [];
      waits = 70 ∷ 70 ∷ [];
    })
unfolding capture sample
capture-deadline = refl

-- The command line has a zero byte between its words; the process has no threads left.
collect_proc-gone :
    collect_proc
      (λ name.
        if text_eq name (codes "cmdline")
        then ok (112 ∷ 0 ∷ 120 ∷ [])
        else err (os_error (codes "gone")))
      (err (os_error (codes "gone")))
    ≡ some (
        Proc.refused (codes "status.error") (codes "gone")
        ∷ copied (codes "cmdline") (112 ∷ 32 ∷ 120 ∷ [])
        ∷ Proc.refused (codes "limits.error") (codes "gone")
        ∷ Proc.refused (codes "maps.error") (codes "gone")
        ∷ Proc.refused (codes "wchan.error") (codes "gone")
        ∷ [])
unfolding collect_proc text_eq
collect_proc-gone = refl
