-- ===== src/Watchdog/Proc.antt =====
-- `collect_proc` of flightrecorder/watchdog.py: the files that it writes into the directory of a process,
-- by what reading those of /proc did. That it cannot write them is left out.
use hang_analyzer.Prelude.{
  ◌==◌, Option, none, some, List, [], ◌∷◌, ◌++◌, map, take, if◌then◌else◌, Text, codes, ◌>>=◌,
}
use hang_analyzer.Prelude.Result.{Result, ok, err, os_error}
use hang_analyzer.Format.{Bytes}

-- A file of the directory, with its bytes, or the text of an `OSError`.
pub data ProcFile : Type 0 where
  copied : (name : Text) → Bytes → ProcFile
  refused : (name message : Text) → ProcFile

-- A read with `except OSError` around it; `none` stands for another exception.
unfoldable pub collect_file : Text → (Bytes → Bytes) → Result Bytes → Option ProcFile
collect_file name cut (ok bytes) = some (copied name (cut bytes))
collect_file name cut (err (os_error m)) = some (refused (name ++ codes ".error") m)
collect_file name cut (err _) = none

-- `.replace(b"\0", b" ")`
abbrev pub spaced : Bytes → Bytes
spaced bytes = map (λ b. if b == 0 then 32 else b) bytes

unfoldable pub collect_all :
    List Text → (Text → Text) → (Bytes → Bytes) → (Text → Result Bytes) → Option (List ProcFile)
unfolding collect_file
collect_all [] named cut read = some []
collect_all (name ∷ names) named cut read = do
  file ← collect_file (named name) cut (read name)
  files ← collect_all names named cut read
  some (file ∷ files)

abbrev pub proc_names : List Text
proc_names = codes "status" ∷ codes "cmdline" ∷ codes "limits" ∷ codes "maps" ∷ codes "wchan" ∷ []

abbrev pub task_names : List Text
task_names = codes "stack" ∷ codes "wchan" ∷ codes "status" ∷ []

-- A thread of the process, with what its files hold.
pub record Task : Type 0 where
  pub name : Text
  pub read : Text → Result Bytes

-- `f"tid{task.name}.{name}"`
abbrev pub task_file : Task → Text → Text
task_file t name = codes "tid" ++ (t.name ++ (codes "." ++ name))

-- The loop over the threads.
unfoldable pub collect_tasks : List Task → Option (List ProcFile)
unfolding collect_all
collect_tasks [] = some []
collect_tasks (t ∷ ts) = do
  files ← collect_all task_names (task_file t) (take 100000) t.read
  rest ← collect_tasks ts
  some (files ++ rest)

-- `tids`, where the directory may be gone
unfoldable pub tasks_of : Result (List Task) → Option (List Task)
tasks_of (ok tasks) = some tasks
tasks_of (err (os_error m)) = some []
tasks_of (err _) = none

unfoldable pub collect_proc : (Text → Result Bytes) → Result (List Task) → Option (List ProcFile)
unfolding collect_all tasks_of collect_tasks
collect_proc read tasks = do
  files ← collect_all proc_names (λ name. name) (λ bytes. spaced (take 4000000 bytes)) read
  ts ← tasks_of tasks
  rest ← collect_tasks ts
  some (files ++ rest)
