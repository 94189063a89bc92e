-- ===== src/FourCard/Verdict.antt =====
-- The assertions that `run` makes on the report.
use hang_analyzer.Prelude.{
  ℕ, ◌==◌, Bool, true, false, not, ◌&&◌, Option, none, some, List, [], ◌∷◌, passing, if◌then◌else◌,
  Text, codes, text_eq, Dict, values, lookup, ℕ_discrete,
}
use hang_analyzer.Format.{Event}
use hang_analyzer.Analyzer.Progress.{Progress}
use hang_analyzer.Analyzer.Collectives.{Collective}
use hang_analyzer.Analyzer.Report.{RankReport, Report}
use hang_analyzer.FourCard.{devices, comm}

-- How a run of assertions ends.
pub data Check : Type 0 where
  passed assertion_error key_error type_error : Check

-- `assert test`, and what follows
abbrev pub assert : Bool → Check → Check
assert true rest = rest
assert false rest = assertion_error

abbrev pub numbers_eq : List ℕ → List ℕ → Bool
numbers_eq = text_eq

-- `[r for r in DEVICES if r != args.missing_rank]`
unfoldable pub others : ℕ → List ℕ
unfolding passing
others missing = passing (λ r. not (r == missing)) devices

-- `target`
unfoldable pub targets_of : List Collective → List Collective
unfolding passing
targets_of collectives = passing (λ c. c.operation_id == 2 && c.communicator_id == comm) collectives

-- The assertions on `target`.
unfoldable pub check_target : ℕ → List Collective → Check → Check
unfolding text_eq others
check_target missing [] rest = assertion_error
check_target missing (c ∷ cs) rest = assert (numbers_eq c.missing_expected (missing ∷ [])) (
    assert (numbers_eq c.entered (others missing))
      (assert (numbers_eq c.end_observed (others missing)) rest))

-- `assert last["type"] == name`; `last` may be `None`.
unfoldable pub check_type : Text → Option Event → Check → Check
unfolding text_eq
check_type name none rest = type_error
check_type name (some e) rest = assert (text_eq e.type name) rest

-- The same for `report["ranks"][rank]["last_host_event"]`.
unfoldable pub check_last : Dict ℕ RankReport → ℕ → Text → Check → Check
unfolding check_type
check_last ranks rank name rest = elim (lookup ℕ_discrete rank ranks) [
  | none ↦ key_error
  | some r ↦ check_type name r.last_host_event rest
]

-- The loop over `DEVICES`.
unfoldable pub check_ranks : ℕ → Dict ℕ RankReport → List ℕ → Check → Check
unfolding check_last
check_ranks missing ranks [] rest = rest
check_ranks missing ranks (rank ∷ more) rest =
    let rest' = check_ranks missing ranks more rest in
    if rank == missing then rest' else check_last ranks rank (codes "DEVICE_SYNC_BEGIN") rest'

-- From `target` up to the checkpoints.
unfoldable pub check_report : ℕ → Report → Check
unfolding check_target check_ranks check_last targets_of
check_report missing r =
    check_target missing (targets_of r.collectives)
      (check_ranks missing r.ranks devices (check_last r.ranks missing (codes "KV_BEGIN") passed))

-- `e and e["correlation_id"] == 7102`
unfoldable pub is_second_hccl : Option Event → Bool
is_second_hccl none = false
is_second_hccl (some e) = e.correlation_id == 7102

-- `hccl_progress`
unfoldable pub hccl_progress : List Progress → List Progress
unfolding is_second_hccl passing
hccl_progress streams =
    passing
      (λ p. if is_second_hccl p.first_unconfirmed then true else is_second_hccl p.confirmed_through)
      streams

-- The assertions on the progress of a rank.
unfoldable pub check_progress : RankReport → Check → Check
unfolding hccl_progress
check_progress r rest = elim (hccl_progress (values r.device_checkpoint_progress)) [
  | [] ↦ assertion_error
  | p ∷ ps ↦ (elim p.first_unconfirmed [
    | none ↦ assert r.checkpoint_coverage_warning rest
    | some e ↦ rest
  ])
]

-- `if args.checkpoint_library:`
unfoldable pub check_checkpoints : ℕ → Dict ℕ RankReport → List ℕ → Check
unfolding check_progress
check_checkpoints missing ranks [] = passed
check_checkpoints missing ranks (rank ∷ more) =
    let rest = check_checkpoints missing ranks more in
    if rank == missing
    then rest
    else elim (lookup ℕ_discrete rank ranks) [ none ↦ key_error | some r ↦ check_progress r rest ]
