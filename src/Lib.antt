-- ===== src/Lib.antt =====
-- A model of the Python part of HangAnalyzer, which records what a distributed job does on its
-- accelerators and tells, after a hang, which rank, stream or collective it waits for.
--
-- The recorder of each process writes a flight file, a header and a ring of event slots. The
-- watchdog looks at the headers while the job runs, and takes a snapshot when a process stalls or
-- exits. Later the analyzer reads the files of a snapshot and reports on each rank. A second ring
-- holds the records of the msPTI library.
--
-- Files and code:
-- - Prelude: lists, texts as lists of code points, dicts as association lists in insertion order,
--   and computations that may raise (Prelude/Result).
-- - Format: flightrecorder/format.py. `read_header` and `read_events` have their names; the
--   formats of `struct` are `unpack_header` and `unpack_event` over `uint`. `read_events` opens
--   the file twice, so it takes two contents.
-- - Cycles: `find_cycles` of flightrecorder/analyzer.py. `visit` is the inner function; the
--   variables that it changes are the record `Search`. A set is a list.
-- - Analyzer: `analyze` of flightrecorder/analyzer.py, one module for each of its parts: Select
--   (the loop over the paths), Scan (the loop over the events of a rank), Progress (the
--   checkpoints of the streams), Ranks (the loop over the ranks), Dependencies (the edges between
--   records and waits), Collectives, and Report (the dicts that it returns).
-- - Outputs: `write_outputs` and `main` of the same file. Lines has report.txt, line by line; Full
--   the merge of the files' events (`full`), trace.json and events.txt; Written the whole, with
--   what the disk answers; Command is `main`, with what the files give when they are read again.
-- - Watchdog: `alive` and the loop of `main` of flightrecorder/watchdog.py. A round of the loop is
--   a `Poll`, with what the files, the clock and the operating system answer in that round;
--   `watch` runs over the rounds up to an interrupt.
-- - Watchdog/Snapshot: `snapshot` of flightrecorder/watchdog.py, its metadata on the files, the
--   logs and `npu-smi`; Watchdog/Proc: `collect_proc`, the files that it writes.
-- - MsptiRing: `read_ring` of flightrecorder/mspti_ring.py, and its `report` in MsptiRing/Report,
--   with the open calls in MsptiRing/Calls. The file is mapped while it is written, so each slot
--   has three reads of its own.
-- - MsptiCapture: python/mspti_activity_capture.py, class `MsptiCapture`; its state and `_enqueue`
--   stand in the parent, `_set_monitor_active` and the body of `_flush_loop` in Monitors,
--   `__init__`, `start` and `summary` in Start. Threads has the callbacks, `_flush_loop`,
--   `_write_loop` and `stop` as the step relation `Step`, in which each step is one access to what
--   the threads share; `Run` logs what is offered to the queue.
-- - HangMspti: python/hang_mspti.py. The variables of the module are the record `Bootstrap`, those
--   of the inner function `worker` the record `Worker`; a round of its loop is a `Round`, with
--   what the control file and the library answer. HangMspti/Protocol says which calls the library
--   expects, and HangMspti/Site has python/bootstrap/sitecustomize.py.
-- - Checkpoint: flightrecorder/checkpoint.py, `CannCheckpointManager`. The C library is a record
--   of functions over a state of its own, a parameter of every method.
-- - Client: flightrecorder/client.py, `Recorder`, over a native library that is a parameter.
-- - AicpuSampler: `parse_usages`, `sample`, `capture` and `summarize` of
--   flightrecorder/aicpu_sampler.py, with the search of the regular expression as a parameter.
-- - DeviceOps: `summarize` of flightrecorder/device_ops.py, over the rows of the csv files.
-- - FourCard: examples/four_card_hccl_hang.py. `worker_actions` is the sequence of calls that
--   `worker` makes, with torch's values as parameters; FourCard/Hang says which events the flight
--   file of a hung worker has; FourCard/Verdict has the assertions of `run`, and FourCard/Launch
--   its processes.
-- - Tests: runs on small inputs.
--
-- Bounds and fuel: `find_cycles` gives `visit` one unit of fuel more than there are nodes; each
-- call enters a node that has not been entered, so this is enough. All other loops are structural.
-- The fields of the files are unsigned integers of the width that their format has, read byte by
-- byte; sums and products of them are unbounded, as in Python.
--
-- Not modelled: the encoding as JSON and the formatting of floats, which is a parameter; the
-- declarations of command lines; the copies that a snapshot makes; the profiler, the directories
-- and the csv files of the four-card example; the native recorder, which is C++; that two threads
-- may lose an increment of `dropped`, and the time limits of `join` and `get`, which may pass at
-- any time; Python's limit on recursion; the order in which a set of texts is run through, for
-- which the list's order stands; and that the watchdog's division of nanoseconds by 1e9 is
-- rounded. In Cycles a node is a value of its own type in place of its text, which Outputs/Shown
-- gives.
pub mod Prelude
pub mod Format
pub mod Cycles
pub mod Analyzer
pub mod Outputs
pub mod Watchdog
pub mod MsptiRing
pub mod MsptiCapture
pub mod HangMspti
pub mod Checkpoint
pub mod Client
pub mod AicpuSampler
pub mod DeviceOps
pub mod FourCard
mod Tests
