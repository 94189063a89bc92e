-- ===== src/Watchdog/Snapshot.antt =====
-- `snapshot` of flightrecorder/watchdog.py: what its metadata say of the recorder files, the logs and
-- `npu-smi`. The copy of a file, `collect_proc`, the tail of a log and the run of `npu-smi` are what they
-- returned or raised; that the directory or the metadata cannot be written is left out.
pub mod Accounts
pub mod Files
use hang_analyzer.Prelude.{
  ℕ, ◌≡◌, refl, sym, ap, subst, ◌∙◌, ◌⊎◌, inl, inr, ⊎_elim, Option, none, some, List, [], ◌∷◌, ◌++◌,
  All, Memᴰ, Text, codes, decimal, ◌>>=◌,
}
use hang_analyzer.Prelude.Result.{Result, ok, err, Error, os_error, value_error, struct_error}
use hang_analyzer.Format.{Bytes, Header, read_header}
use hang_analyzer.Format.Errors.{IsCaught, read_header-IsCaught}

-- A call without a result.
abbrev pub Done : Type 0
Done = Unit

-- A file, and what reading its header, copying it and collecting its process did.
pub record Source : Type 0 where
  pub path : Text
  pub name : Text
  pub content : Result Bytes
  pub copied : Result Done
  pub collected : Result Done

pub record Metadata : Type 0 where
  pub ranks : List (Header × Text)
  pub errors : List (Text × Text)
  pub npu_smi_returncode : Option ℕ

-- What `npu-smi info` did, if it was asked for: it ended, and its output was written or not; or it raised
-- an `OSError` or a `TimeoutExpired`.
pub data NpuSmi : Type 0 where
  not_asked : NpuSmi
  completed : (returncode : ℕ) (written : Result Done) → NpuSmi
  raised : (message : Text) → NpuSmi

-- `except (OSError, ValueError) as e`; the path and the message stand for `f"{file}: {e}"`.
unfoldable pub caught : Text → Error → Metadata → Option Metadata
caught path (os_error m) d = some (record d { errors = d.errors ++ (path, m) ∷ [] })
caught path (value_error m) d = some (record d { errors = d.errors ++ (path, m) ∷ [] })
caught path struct_error d = none

-- `collect_proc`, behind which nothing of the `try` is left.
unfoldable pub after_collect : Text → Result Done → Metadata → Option Metadata
unfolding caught
after_collect path (ok _) d = some d
after_collect path (err e) d = caught path e d

unfoldable pub after_copy : Source → Header → Result Done → Metadata → Option Metadata
unfolding after_collect caught
after_copy s h (ok _) d =
    after_collect s.path s.collected (record d { ranks = d.ranks ++ (h, s.name) ∷ [] })
after_copy s h (err e) d = caught s.path e d

-- The `try` for one file.
unfoldable pub snapshot_file : Source → Metadata → Option Metadata
unfolding after_copy caught
snapshot_file s d = elim (read_header s.path s.content) [
  | ok h ↦ after_copy s h s.copied d
  | err e ↦ caught s.path e d
]

-- The loop over the files.
unfoldable pub snapshot_files : List Source → Metadata → Option Metadata
unfolding snapshot_file
snapshot_files [] d = some d
snapshot_files (s ∷ ss) d = do d' ← snapshot_file s d; snapshot_files ss d'

-- The loop over the logs, where only an `OSError` is caught.
unfoldable pub snapshot_logs : List (Text × Result Done) → Metadata → Option Metadata
snapshot_logs [] d = some d
snapshot_logs ((log, ok _) ∷ logs) d = snapshot_logs logs d
snapshot_logs ((log, err (os_error m)) ∷ logs) d =
    snapshot_logs logs (record d { errors = d.errors ++ (log, m) ∷ [] })
snapshot_logs ((log, err _) ∷ logs) d = none

-- `errors.append(f"npu-smi: {e}")`
abbrev pub npu_error : Text → Metadata → Metadata
npu_error m d = record d { errors = d.errors ++ (codes "npu-smi", m) ∷ [] }

-- `if npu_smi:`
unfoldable pub snapshot_npu : NpuSmi → Metadata → Option Metadata
snapshot_npu not_asked d = some d
snapshot_npu (completed code (ok _)) d = some (record d { npu_smi_returncode = some code })
snapshot_npu (completed code (err (os_error m))) d = some (npu_error m d)
snapshot_npu (completed code (err _)) d = none
snapshot_npu (raised m) d = some (npu_error m d)

unfoldable pub snapshot : List Source → List (Text × Result Done) → NpuSmi → Option Metadata
unfolding snapshot_files snapshot_logs snapshot_npu
snapshot files logs npu = do
  d ← snapshot_files files (record { ranks = []; errors = []; npu_smi_returncode = none })
  d' ← snapshot_logs logs d
  snapshot_npu npu d'

-- The names of a snapshot's directory, before and behind the last line.
unfoldable pub snapshot_dirs : (stamp reason : Text) (pid : ℕ) → Text × Text
unfolding decimal
snapshot_dirs stamp reason pid = (
  codes "." ++ (stamp ++ (codes "-" ++ (reason ++ (codes ".partial-" ++ decimal pid)))),
  stamp ++ (codes "-" ++ reason),
)
