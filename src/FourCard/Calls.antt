-- ===== src/FourCard/Calls.antt =====
-- What a worker has called when it hangs, for each choice of the options.
use mathlib.Core.List.{get_last?}
use hang_analyzer.Prelude.{
  ℕ, ◌≡◌, refl, Bool, true, false, not, ◌==◌, some, List, [], ◌∷◌, if◌then◌else◌, codes,
}
use hang_analyzer.Analyzer.Scan.{PairKey}
use hang_analyzer.Analyzer.Collectives.{ends_operation}
use hang_analyzer.FourCard.{
  Settings, Setting, Action, worker_actions_as, worker_actions, until_blocked,
}
use hang_analyzer.FourCard.Hang.{begun, shown, ends, calls_name}

-- What the worker of a rank does before it hangs.
abbrev pub hung : Settings → Setting → ℕ → List Action
hung s t rank = until_blocked (worker_actions s t rank)

abbrev pub first_key : PairKey
first_key = (700, 1)

abbrev pub second_key : PairKey
second_key = (700, 2)

-- The facts on what a worker has called, `missing` if it is the rank that stays away.
abbrev pub HasCalled : Bool → List Action → Type 0
HasCalled missing actions =
    (begun actions ≡ (if missing then first_key ∷ [] else first_key ∷ second_key ∷ []))
    × (ends second_key actions ≡ not missing)
    × (get_last? (shown actions)
        ≡ some (if missing then codes "KV_BEGIN" else codes "DEVICE_SYNC_BEGIN"))
    × (calls_name (if missing then codes "SCHEDULER_BEGIN" else codes "HCCL_BEGIN") actions ≡ true)

module _ (m : ℕ) (t : Setting) (rank : ℕ) where
  abbrev options : (has_profile has_checkpoints : Bool) → Settings
  options p c = record { missing_rank = m; has_profile = p; has_checkpoints = c }

  options-HasCalled :
      (p c missing : Bool)
      → HasCalled missing (until_blocked (worker_actions_as (options p c) t rank missing))
  unfolding begun shown ends ends_operation calls_name until_blocked worker_actions_as
  options-HasCalled true true true = (refl, refl, refl, refl)
  options-HasCalled true true false = (refl, refl, refl, refl)
  options-HasCalled true false true = (refl, refl, refl, refl)
  options-HasCalled true false false = (refl, refl, refl, refl)
  options-HasCalled false true true = (refl, refl, refl, refl)
  options-HasCalled false true false = (refl, refl, refl, refl)
  options-HasCalled false false true = (refl, refl, refl, refl)
  options-HasCalled false false false = (refl, refl, refl, refl)

-- Whatever the options, a worker hangs behind these calls.
pub hung-HasCalled :
    (s : Settings) (t : Setting) (rank : ℕ) → HasCalled (rank == s.missing_rank) (hung s t rank)
hung-HasCalled s t rank =
    options-HasCalled s.missing_rank t rank s.has_profile s.has_checkpoints (rank == s.missing_rank)
