-- ===== src/Recorder/Process/WellFormed.antt =====
-- The invariant of a recorder and its threads, and the parts of the steps that keep it.
use test_runner.Prelude.{
  ℕ, ◌≡◌, subst, Bool, true, false, ◌&&◌, not, some, List, [], ◌∷◌, arith, Bytes,
}
use mathlib.Core.Option.{some-injective}
use test_runner.Linux.{InputEvent}
use test_runner.Recorder.{Device}
use test_runner.Recorder.Buffer.{trim_buffer, finish_buffer}
use test_runner.Recorder.Process.{
  Env, Reading, Worker, absent, spawned, testing, selecting, reading, draining, ended, BufferWorker,
  no_buffer, looping, waiting, finishing, finished, Process, is_done, request_stop, scaled, store,
  handle_event, handle_reading, begin_record, on_begins, on_tests, on_select, on_select_error,
  on_handles, on_joins_buffer, on_buffer_tests, on_buffer_trims, on_buffer_finishes,
}

abbrev pub is_absent : Worker → Bool
is_absent absent = true
is_absent _ = false

-- No buffer thread runs.
abbrev pub quiet : BufferWorker → Bool
quiet no_buffer = true
quiet finished = true
quiet _ = false

-- A buffer thread was started with this recording.
abbrev pub going : BufferWorker → Bool
going no_buffer = false
going _ = true

-- The buffer thread has seen the stop flag.
abbrev pub past_loop : BufferWorker → Bool
past_loop finishing = true
past_loop finished = true
past_loop _ = false

-- Which buffer threads go with a recorder thread, by m_continuous and m_stop.
abbrev pub Fits : Worker → BufferWorker → Bool → Bool → Type 0
Fits absent b continuous stopped = quiet b ≡ true
Fits spawned b continuous stopped = (quiet b ≡ true) × (stopped ≡ true)
Fits draining b continuous stopped = (continuous ≡ true) × (going b ≡ true)
Fits ended b continuous stopped = (quiet b ≡ true) × (going b ≡ continuous)
Fits testing b continuous stopped = going b ≡ continuous
Fits selecting b continuous stopped = going b ≡ continuous
Fits (reading rds) b continuous stopped = going b ≡ continuous

pub record IsWf (p : Process) : Type 0 where
  pub thread : p.recorder.joinable ≡ not (is_absent p.worker)
  pub fits : Fits p.worker p.buffer_worker p.recorder.continuous p.recorder.stop
  pub seen : (past_loop p.buffer_worker && not p.recorder.stop) ≡ false

pub on_begins-IsWf :
    (w : Worker) (p : Process) (now : ℕ) {q : Process}
    → p.worker ≡ w
    → IsWf p
    → on_begins now w p ≡ some q
    → IsWf q
unfolding on_begins begin_record
on_begins-IsWf spawned p now e v h = ground arith
on_begins-IsWf _ p now e v h = cc

pub on_tests-IsWf :
    (w : Worker) (p : Process) (now : ℕ) {q : Process}
    → p.worker ≡ w
    → IsWf p
    → on_tests now w p ≡ some q
    → IsWf q
unfolding on_tests is_done
on_tests-IsWf testing p now e v h = ground arith
on_tests-IsWf _ p now e v h = cc

pub on_select_ready-IsWf :
    (w : Worker) (rds : List Reading) (p : Process) {q : Process}
    → p.worker ≡ w
    → IsWf p
    → on_select (reading rds) w p ≡ some q
    → IsWf q
unfolding on_select
on_select_ready-IsWf selecting rds p e v h = ground arith
on_select_ready-IsWf _ rds p e v h = cc

pub on_select_empty-IsWf :
    (w : Worker) (p : Process) {q : Process}
    → p.worker ≡ w
    → IsWf p
    → on_select testing w p ≡ some q
    → IsWf q
unfolding on_select
on_select_empty-IsWf selecting p e v h = ground arith
on_select_empty-IsWf _ p e v h = cc

pub on_select_error-IsWf :
    (w : Worker) (b : BufferWorker) (p : Process) {q : Process}
    → p.worker ≡ w
    → p.buffer_worker ≡ b
    → IsWf p
    → on_select_error w p ≡ some q
    → IsWf q
unfolding on_select_error
on_select_error-IsWf selecting no_buffer p e f v h = ground arith
on_select_error-IsWf selecting _ p e f v h = ground arith
on_select_error-IsWf _ _ p e f v h = cc

-- What an event changes: the xkb state, the buffer, the file, and m_stop, which it only sets.
handle_event-IsWf :
    (env : Env) (d : Device) (ev : InputEvent) (ts later : ℕ) {p : Process}
    → IsWf p
    → IsWf (handle_event env d ev ts later p)
unfolding handle_event store request_stop
handle_event-IsWf env d ev ts later {p} v = ground arith

handle_reading-IsWf :
    (env : Env) (rd : Reading) (ts later : ℕ) {p : Process}
    → IsWf p
    → IsWf (handle_reading env rd ts later p)
unfolding handle_reading
handle_reading-IsWf env rd ts later {p} v = ground (
  arith,
  handle_event-IsWf env rd.device (scaled env.floats rd.device rd.event) ts later {p = p} v,
)

next_reading-IsWf :
    (rd : Reading) (rest : List Reading) (p : Process)
    → p.worker ≡ reading (rd ∷ rest)
    → IsWf p
    → IsWf (record p { worker = reading rest })
next_reading-IsWf rd rest p e v = ground arith

pub on_handles-IsWf :
    (w : Worker) (env : Env) (ts later : ℕ) (p : Process) {q : Process}
    → p.worker ≡ w
    → IsWf p
    → on_handles env ts later w p ≡ some q
    → IsWf q
unfolding on_handles
on_handles-IsWf (reading []) env ts later p e v h = ground arith
on_handles-IsWf (reading (rd ∷ rest)) env ts later p e v h =
    subst IsWf (some-injective _ _ h)
      (handle_reading-IsWf env rd ts later (next_reading-IsWf rd rest p e v))
on_handles-IsWf _ env ts later p e v h = cc

pub on_joins_buffer-IsWf :
    (w : Worker) (b : BufferWorker) (p : Process) {q : Process}
    → p.worker ≡ w
    → p.buffer_worker ≡ b
    → IsWf p
    → on_joins_buffer w b p ≡ some q
    → IsWf q
unfolding on_joins_buffer
on_joins_buffer-IsWf draining finished p e f v h = ground arith
on_joins_buffer-IsWf _ _ p e f v h = cc

-- A move of the buffer thread keeps the fit, if it stays a thread of this recording.
pub on_buffer_tests-IsWf :
    (w : Worker) (b : BufferWorker) (p : Process) {q : Process}
    → p.worker ≡ w
    → p.buffer_worker ≡ b
    → IsWf p
    → on_buffer_tests b p ≡ some q
    → IsWf q
unfolding on_buffer_tests
on_buffer_tests-IsWf absent looping p e f v h = ground arith
on_buffer_tests-IsWf _ looping p e f v h = ground arith
on_buffer_tests-IsWf _ _ p e f v h = cc

pub on_buffer_trims-IsWf :
    (w : Worker) (b : BufferWorker) (now : ℕ) (p : Process) {q : Process}
    → p.worker ≡ w
    → p.buffer_worker ≡ b
    → IsWf p
    → on_buffer_trims now b p ≡ some q
    → IsWf q
unfolding on_buffer_trims trim_buffer
on_buffer_trims-IsWf absent waiting now p e f v h = ground arith
on_buffer_trims-IsWf _ waiting now p e f v h = ground arith
on_buffer_trims-IsWf _ _ now p e f v h = cc

pub on_buffer_finishes-IsWf :
    (w : Worker) (b : BufferWorker) (file_ts : Bytes) (p : Process) {q : Process}
    → p.worker ≡ w
    → p.buffer_worker ≡ b
    → IsWf p
    → on_buffer_finishes file_ts b p ≡ some q
    → IsWf q
unfolding on_buffer_finishes finish_buffer
on_buffer_finishes-IsWf absent finishing file_ts p e f v h = ground arith
on_buffer_finishes-IsWf _ finishing file_ts p e f v h = ground arith
on_buffer_finishes-IsWf _ _ file_ts p e f v h = cc
