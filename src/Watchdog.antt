-- ===== src/Watchdog.antt =====
-- flightrecorder/watchdog.py: `alive` and the loop of `main`. What the operating system
-- answers is data: each call of `alive` has its own answer, since a process may exit between two
-- calls. `--timeout` is a number of nanoseconds, and the division by 1e9 is taken as exact. An
-- exception that leaves `main` is `none`; that `snapshot` itself cannot write its directory is left out.
-- A `Capture` stands for the call of `snapshot` in the loop; Snapshot has what that call does.
pub mod Snapshot
pub mod Proc
pub mod Captures
pub mod Run
pub mod Loop
use mathlib.Core.Option
use hang_analyzer.Prelude.{
  ℕ, suc, ◌+◌, leb, Bool, true, false, not, ◌&&◌, ◌||◌, Option, none, some, List, [], ◌∷◌, ◌++◌,
  contains, if◌then◌else◌, Text, codes, starts_with, ℕ_discrete, ◌>>=◌,
}
use hang_analyzer.Prelude.Result.{Result, ok, err, os_error, value_error, struct_error}
use hang_analyzer.Format.{Bytes, Header, read_header}

-- What a call of the operating system returned or raised.
pub data Outcome (A : Type 0) : Type 0 where
  returned : A → Outcome A
  process_lookup_error permission_error other_error : Outcome A

-- What `os.kill(pid, 0)` did, and then the text of the status file; `none` if there is no such file.
pub record Probe : Type 0 where
  pub kill : Outcome Unit
  pub status : Outcome (Option Text)

-- `t in s`
unfoldable pub occurs : Text → Text → Bool
unfolding starts_with
occurs t [] = starts_with [] t
occurs t (c ∷ s) = starts_with (c ∷ s) t || occurs t s

-- `"State:\tZ"`
abbrev pub zombie : Text
zombie = codes "State:" ++ 9 ∷ codes "Z"

unfoldable pub alive : Probe → Option Bool
unfolding occurs
alive p = elim p.kill [
  | returned _ ↦ (elim p.status [
    | returned none ↦ some true
    | returned (some text) ↦ some (not (occurs zombie text))
    | process_lookup_error ↦ some false
    | permission_error ↦ some true
    | other_error ↦ none
  ])
  | process_lookup_error ↦ some false
  | permission_error ↦ some true
  | other_error ↦ none
]

-- A snapshot that was taken, by the reason for it; a stall has the number of writes as well.
pub data Capture : Type 0 where
  stalled : ℕ → ℕ → Capture
  exited : ℕ → Capture

pub record State : Type 0 where
  pub seen_stalls : List (ℕ × ℕ)
  pub seen_exit : List ℕ
  pub captures : List Capture

unfoldable pub StallKey-discrete : Discrete (ℕ × ℕ)
StallKey-discrete = hlevel ℕ_discrete

-- A header and the answers to the two calls of `alive`; the second is only used by the `elif`.
pub record Sighting : Type 0 where
  pub header : Header
  pub first : Probe
  pub second : Probe

-- `(now - h["last_ns"]) / 1e9 >= args.timeout`
unfoldable pub is_overdue : ℕ → ℕ → Header → Bool
is_overdue timeout now h = leb (h.last_ns + timeout) now

unfoldable pub capture_stall : Header → State → State
unfolding contains
capture_stall h st =
    let key : ℕ × ℕ = (h.pid, h.write_seq) in
    if contains StallKey-discrete key st.seen_stalls then st else record st {
      seen_stalls = key ∷ st.seen_stalls;
      captures = st.captures ++ stalled h.pid h.write_seq ∷ [];
    }

unfoldable pub capture_exit : Header → State → State
unfolding contains
capture_exit h st =
    if contains ℕ_discrete h.pid st.seen_exit
    then st
    else record st { seen_exit = h.pid ∷ st.seen_exit; captures = st.captures ++ exited h.pid ∷ [] }

-- The body of `for h in headers`.
unfoldable pub handle_header : ℕ → ℕ → Sighting → State → Option State
unfolding alive is_overdue capture_stall capture_exit
handle_header timeout now s st = do
  a ← alive s.first
  if a && is_overdue timeout now s.header
      then some (capture_stall s.header st)
      else do b ← alive s.second; some (if not b then capture_exit s.header st else st)

unfoldable pub handle_headers : ℕ → ℕ → List Sighting → State → Option State
unfolding handle_header
handle_headers timeout now [] st = some st
handle_headers timeout now (s ∷ ss) st = do
  st' ← handle_header timeout now s st
  handle_headers timeout now ss st'

-- The headers of the files that can be read; `struct.error` is not caught.
unfoldable pub read_headers : List (Text × Result Bytes) → Option (List Header)
unfolding read_header
read_headers [] = some []
read_headers ((path, file) ∷ files) = do
  hs ← read_headers files
  elim (read_header path file) [
    | ok h ↦ some (h ∷ hs)
    | err (os_error _) ↦ some hs
    | err (value_error _) ↦ some hs
    | err struct_error ↦ none
  ]

-- One round of `while True`: what the files hold, the clock, the answers of `alive` for the header at
-- each position, and for each process of `--pid`.
pub record Poll : Type 0 where
  pub files : List (Text × Result Bytes)
  pub now : ℕ
  pub probes : ℕ → Probe × Probe
  pub monitored : List Probe

unfoldable pub sightings : (ℕ → Probe × Probe) → ℕ → List Header → List Sighting
sightings probes i [] = []
sightings probes i (h ∷ hs) =
    record { header = h; first = (probes i).0; second = (probes i).1 } ∷ sightings probes (i + 1) hs

unfoldable pub all_gone : List Probe → Option Bool
unfolding alive
all_gone [] = some true
all_gone (p ∷ ps) = do a ← alive p; elim a [ true ↦ some false | false ↦ all_gone ps ]

-- `args.pid and all(not alive(pid) for pid in args.pid)`
unfoldable pub is_finished : List Probe → Option Bool
unfolding all_gone
is_finished [] = some false
is_finished (p ∷ ps) = all_gone (p ∷ ps)

unfoldable pub handle_poll : ℕ → Poll → State → Option State
unfolding read_headers handle_headers sightings
handle_poll timeout p st = do
  headers ← read_headers p.files
  handle_headers timeout p.now (sightings p.probes 0 headers) st

-- The loop, over the rounds up to an interrupt; with it, whether it has ended by itself.
unfoldable pub watch : ℕ → List Poll → State → Option (State × Bool)
unfolding handle_poll is_finished
watch timeout [] st = some (st, false)
watch timeout (p ∷ ps) st = do
  st' ← handle_poll timeout p st
  done ← is_finished p.monitored
  elim done [ true ↦ some (st', true) | false ↦ watch timeout ps st' ]

abbrev pub start : State
start = record { seen_stalls = []; seen_exit = []; captures = [] }
