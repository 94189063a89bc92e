-- ===== src/Tests/FourCard.antt =====
-- Four workers of the example of which rank 6 stays away, with checkpoints and without the profiler.
use hang_analyzer.Prelude.{
  ℕ, ◌≡◌, refl, inl, true, false, none, some, List, [], ◌∷◌, All, Memᴰ, codes, contains, ℕ_discrete,
  passing, text_eq,
}
use hang_analyzer.Format.{Event}
use hang_analyzer.Analyzer.Scan.{has_flag}
use hang_analyzer.Analyzer.Report.{Report, analyze}
use hang_analyzer.FourCard.{
  Settings, Setting, Action, record_call, submit_call, devices, worker_actions_as, until_blocked,
  reached_hang, await_checkpoints, all_observed, wait_until, arrived, timed_out, waiting,
}
use hang_analyzer.FourCard.Hang.{
  Stamp, event_of, Trace, ended, recorded, submitted, silent, polled, is_silent,
}
use hang_analyzer.FourCard.Calls.{hung}
use hang_analyzer.FourCard.Chosen.{Snapshot, reads_of}
use hang_analyzer.FourCard.Passes.{analyze-finds_missing}
use hang_analyzer.FourCard.Verdict.{check_report, passed}

abbrev stamp : Stamp
stamp = record { timestamp_ns = 5; seq = 9; pid = 77; tid = 78; device = 4; rank = 4 }

-- An event of the checkpoint library.
abbrev library_event : ℕ → ℕ → Event
library_event stream id =
    record (event_of stamp (record {
      name = codes "CHECKPOINT";
      stream = stream;
      correlation = id;
      arg0 = 9;
      arg1 = 1;
    })) { flags = 1 }

abbrev confirmation_event : ℕ → ℕ → Event
confirmation_event stream id = record (library_event stream id) {
  type = codes "DEVICE_CONFIRMED";
  flags = 0;
}

-- A file of these actions, in which each checkpoint is confirmed at once.
replay : List Action → List Event
replay [] = []
replay (record_call c ∷ actions) = event_of stamp c ∷ replay actions
replay (submit_call stream id ∷ actions) =
    library_event stream id ∷ confirmation_event stream id ∷ replay actions
replay (_ ∷ actions) = replay actions

replay-Trace : (actions : List Action) → Trace actions (replay actions)
unfolding replay has_flag is_silent
replay-Trace [] = ended
replay-Trace (record_call c ∷ actions) = recorded stamp c (replay-Trace actions)
replay-Trace (submit_call stream id ∷ actions) =
    submitted stream id (library_event stream id) refl refl
      (polled (confirmation_event stream id) (inl refl) (replay-Trace actions))
replay-Trace (a ∷ actions) = silent a refl (replay-Trace actions)

abbrev settings : Settings
settings = record { missing_rank = 6; has_profile = false; has_checkpoints = true }

abbrev streams : ℕ → Setting
streams rank = record {
  compute = 11;
  transfer = 12;
  default = 13;
  z_numel = 16384;
  kv_numel = 16384;
  result_numel = 16384;
}

abbrev snap : Snapshot
snap rank = (
  record {
    path = codes "f";
    capacity = 4096;
    pid = 77;
    rank = rank;
    device = rank;
    write_seq = 30;
    last_ns = 900;
    started_wall_ns = 5;
    started_mono_ns = 6;
  },
  replay (hung settings (streams rank) rank),
)

analyze-finds_missing_example :
    (r : Report) × (analyze (reads_of (snap ∷ [])) (some devices) none ≡ some r)
    × (check_report 6 r ≡ passed)
    × All (λ g. reached_hang 6 (λ rank. some (g rank).1) ≡ true) (snap ∷ [])
analyze-finds_missing_example =
    analyze-finds_missing settings streams snap [] (Memᴰ.tail (Memᴰ.tail (Memᴰ.head refl))) (
      (
        (refl, replay-Trace (hung settings (streams 4) 4)),
        (
          (refl, replay-Trace (hung settings (streams 5) 5)),
          (
            (refl, replay-Trace (hung settings (streams 6) 6)),
            ((refl, replay-Trace (hung settings (streams 7) 7)), tt),
          ),
        ),
      ),
      tt,
    )

-- The first step is over once its three checkpoints are confirmed.
await_checkpoints-first_step :
    await_checkpoints (([], false) ∷ (replay (hung settings (streams 4) 4), false) ∷ []) ≡ arrived
unfolding await_checkpoints all_observed contains passing text_eq replay until_blocked
    worker_actions_as ℕ_discrete
await_checkpoints-first_step = refl

await_checkpoints-late : await_checkpoints (([], false) ∷ ([], true) ∷ []) ≡ timed_out
unfolding await_checkpoints all_observed contains passing ℕ_discrete
await_checkpoints-late = refl

wait_until-late : wait_until 100 ((98, false) ∷ (99, false) ∷ (100, true) ∷ []) ≡ timed_out
unfolding wait_until
wait_until-late = refl

wait_until-going_on : wait_until 100 ((98, false) ∷ []) ≡ waiting
unfolding wait_until
wait_until-going_on = refl
