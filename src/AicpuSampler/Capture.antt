-- ===== src/AicpuSampler/Capture.antt =====
-- `capture` of flightrecorder/aicpu_sampler.py: the rows that it writes, over the rounds of its loop. Times
-- are numbers of nanoseconds; the pool gives the result of each device's `sample` in the devices' order.
use hang_analyzer.Prelude.{
  ℕ, ◌+◌, ◌-◌, ◌*◌, max, ◌==◌, ltb, Bool, true, Option, none, some, List, [], ◌∷◌, ◌++◌, map,
  if◌then◌else◌, Text,
}
use hang_analyzer.AicpuSampler.{Run, Sample, sample}

-- What a round finds: the clock at the test of the loop, at the start and the end of the round; and for
-- each device when its `sample` starts and ends and what the command does.
pub record SampleRound : Type 0 where
  pub tested : ℕ
  pub started : ℕ
  pub ended : ℕ
  pub runs : ℕ → ℕ × ℕ × Run

-- What has been written and synced, and the waits between the rounds.
pub record Captured : Type 0 where
  pub rows : List Sample
  pub waits : List ℕ

-- How `capture` goes: it raises a `ValueError` at once, ends at its deadline, or goes on.
pub data CaptureEnd : Type 0 where
  refused : CaptureEnd
  over running : Captured → CaptureEnd

-- `deadline is None or time.monotonic() < deadline`
unfoldable pub before_deadline : Option ℕ → ℕ → Bool
before_deadline none now = true
before_deadline (some deadline) now = ltb now deadline

-- `max(2.0, interval_s * 4)`
abbrev pub sample_timeout : ℕ → ℕ
sample_timeout interval = max 2000000000 (interval * 4)

module _ (search : Text → Text → Option ℕ) (devices : List ℕ) (interval : ℕ) where
  unfoldable pub round_rows : SampleRound → List Sample
  unfolding sample
  round_rows r =
      map (λ d. let (started, ended, run) = r.runs d in sample search d started ended run) devices

  -- `if remaining > 0: time.sleep(remaining)`
  unfoldable pub round_wait : SampleRound → List ℕ
  round_wait r =
      let elapsed = r.ended - r.started in
      if ltb elapsed interval then (interval - elapsed) ∷ [] else []

  unfoldable pub sample_rounds : Option ℕ → List SampleRound → Captured → CaptureEnd
  unfolding round_rows round_wait before_deadline
  sample_rounds deadline [] c = running c
  sample_rounds deadline (r ∷ rs) c =
      let rest =
        sample_rounds deadline rs
          (record { rows = c.rows ++ round_rows r; waits = c.waits ++ round_wait r }) in
      if before_deadline deadline r.tested then rest else over c

  -- `started` is the clock when the deadline is set.
  unfoldable pub capture : (started : ℕ) → Option ℕ → List SampleRound → CaptureEnd
  unfolding sample_rounds
  capture started duration rounds =
      let rest =
        sample_rounds (elim duration [ none ↦ none | some d ↦ some (started + d) ]) rounds
          (record { rows = []; waits = [] }) in
      elim devices [ [] ↦ refused | d ∷ ds ↦ if interval == 0 then refused else rest ]
