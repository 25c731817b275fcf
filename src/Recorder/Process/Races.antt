-- ===== src/Recorder/Process/Races.antt =====
-- Calls of Start() and Stop() that meet the recorder thread at a bad moment.
use test_runner.Prelude.{
  ℕ, ◌+◌, ◌≤◌, ◌≡◌, refl, sym, ap, ◌∙◌, subst, not, true, false, none, some, [], Bytes, arith,
}
use test_runner.Prelude.Int.{◌-ℤ◌}
use test_runner.Recorder.{returned, terminated}
use test_runner.Recorder.Process.{
  Env, testing, selecting, ended, BufferWorker, no_buffer, looping, waiting, finishing, finished,
  absent, Process, is_active, is_done, start, tests, select_error, leave_loop, on_begins, on_tests,
  on_select, on_select_error, on_handles, on_joins_buffer, on_buffer_tests, on_buffer_trims,
  on_buffer_finishes, Action, begins, select_ready, select_empty, handles, joins_buffer,
  buffer_tests, buffer_trims, buffer_finishes, step, run, request_stop, stop,
}
use mathlib.Core.Option.{some-injective}
use test_runner.Recorder.Process.WellFormed.{quiet, going, is_absent, Fits, IsWf}

-- A fixed-length recording whose time is up ends by itself, without Stop(); the next Start() then
-- ends the process, because the thread has not been joined.
pub start-expired :
    (env : Env) (now : ℕ) (p : Process)
    → IsWf p
    → p.worker ≡ testing
    → p.recorder.continuous ≡ false
    → p.recorder.stop ≡ false
    → p.recorder.start_time + p.recorder.recording_length ≤ now
    → (q : Process) × (step env (tests now) p ≡ some q)
      × (q.worker ≡ ended)
      × (is_active q.recorder ≡ false)
      × (start q ≡ terminated)
unfolding step on_tests is_done start ◌-ℤ◌
start-expired env now p v w c s h = (
  leave_loop (record p { recorder = record p.recorder { stop = true } }),
  ground arith,
  ground arith,
  refl,
  ground arith,
)

-- Start() on an idle recorder, followed by Start() before the new thread has run, ends the process.
start-start :
    (p q : Process) → is_active p.recorder ≡ false → start p ≡ returned q → start q ≡ terminated
unfolding start
start-start p q i h = ground arith

-- What can happen to a recorder without Stop(): calls of Start() that return, and steps of its threads.
pub data WithoutStop (env : Env) (p : Process) : Process → Type 0 where
  at_once : WithoutStop env p p
  starts : {q r : Process} → WithoutStop env p q → start q ≡ returned r → WithoutStop env p r
  steps :
      {q r : Process}
      → (a : Action) → WithoutStop env p q
      → step env a q ≡ some r
      → WithoutStop env p r

-- The threads of the recorder have ended, and it still counts as active.
record IsOver (p : Process) : Type 0 where
  worker : p.worker ≡ ended
  buffer : quiet p.buffer_worker ≡ true
  active : is_active p.recorder ≡ true

on_buffer_tests-quiet :
    (b : BufferWorker) (p : Process) → quiet b ≡ true → on_buffer_tests b p ≡ none
unfolding on_buffer_tests
on_buffer_tests-quiet looping p h = cc
on_buffer_tests-quiet _ p h = refl

on_buffer_trims-quiet :
    (now : ℕ) (b : BufferWorker) (p : Process) → quiet b ≡ true → on_buffer_trims now b p ≡ none
unfolding on_buffer_trims
on_buffer_trims-quiet now waiting p h = cc
on_buffer_trims-quiet now _ p h = refl

on_buffer_finishes-quiet :
    (file_ts : Bytes) (b : BufferWorker) (p : Process)
    → quiet b ≡ true
    → on_buffer_finishes file_ts b p ≡ none
unfolding on_buffer_finishes
on_buffer_finishes-quiet file_ts finishing p h = cc
on_buffer_finishes-quiet file_ts _ p h = refl

-- No thread can make a step.
step-IsOver : (env : Env) (a : Action) (p : Process) → IsOver p → step env a p ≡ none
unfolding step on_begins on_tests on_select on_select_error on_handles on_joins_buffer
step-IsOver env (begins now) p v = rw v.worker
step-IsOver env (tests now) p v = rw v.worker
step-IsOver env (select_ready rds) p v = rw v.worker
step-IsOver env select_empty p v = rw v.worker
step-IsOver env select_error p v = rw v.worker
step-IsOver env (handles ts later) p v = rw v.worker
step-IsOver env joins_buffer p v = rw v.worker
step-IsOver env buffer_tests p v = on_buffer_tests-quiet p.buffer_worker p v.buffer
step-IsOver env (buffer_trims now) p v = on_buffer_trims-quiet now p.buffer_worker p v.buffer
step-IsOver env (buffer_finishes file_ts) p v =
    on_buffer_finishes-quiet file_ts p.buffer_worker p v.buffer

WithoutStop-IsOver :
    (env : Env) (p : Process) {q : Process} → IsOver p → WithoutStop env p q → q ≡ p
unfolding start
WithoutStop-IsOver env p v at_once = refl
WithoutStop-IsOver env p v (starts {q} {r} w h) =
    let same : q ≡ p = WithoutStop-IsOver env p v w in
    let idle : start p ≡ returned p = ground (arith, v.active) in cc
WithoutStop-IsOver env p v (steps {q} {r} a w h) =
    let same : q ≡ p = WithoutStop-IsOver env p v w in
    let stuck : step env a p ≡ none = step-IsOver env a p v in cc

going-quiet : (b : BufferWorker) → going b ≡ false → quiet b ≡ true
going-quiet no_buffer h = refl
going-quiet looping h = cc
going-quiet waiting h = cc
going-quiet finishing h = cc
going-quiet finished h = cc

leave_loop-IsOver :
    (p : Process)
    → IsWf p
    → p.worker ≡ selecting
    → p.recorder.continuous ≡ false
    → p.recorder.stop ≡ false
    → IsOver (leave_loop p)
leave_loop-IsOver p v w c s = record {
  worker = ground arith;
  buffer =
      going-quiet p.buffer_worker
        (subst (λ x. Fits x p.buffer_worker p.recorder.continuous p.recorder.stop) w v.fits ∙ c);
  active = ground arith;
}

on_select_error-leave_loop :
    (env : Env) (p : Process) → p.worker ≡ selecting → step env select_error p ≡ some (leave_loop p)
unfolding step on_select_error
on_select_error-leave_loop env p w = rw w

on_select_error-IsOver :
    (env : Env) (p q : Process)
    → IsWf p
    → p.worker ≡ selecting
    → p.recorder.continuous ≡ false
    → p.recorder.stop ≡ false
    → step env select_error p ≡ some q
    → (IsOver q) × (q.recorder.joinable ≡ true)
on_select_error-IsOver env p q v w c s h =
    let same : leave_loop p ≡ q =
      some-injective _ _ (sym (on_select_error-leave_loop env p w) ∙ h) in
    subst (λ x. IsOver x × (x.recorder.joinable ≡ true)) same
      (leave_loop-IsOver p v w c s, v.thread ∙ ap (λ x. not (is_absent x)) w)

stop-IsOver :
    (env : Env) (now : ℕ) (p : Process)
    → IsOver p
    → p.recorder.joinable ≡ true
    → (t : Process) × (stop env now [] p ≡ returned (p.recorder.recording_path, t))
      × (is_active t.recorder ≡ false)
      × (t.recorder.joinable ≡ false)
unfolding stop run request_stop
stop-IsOver env now p v j = (
  record p {
    recorder = record p.recorder { stop = true; stop_time = now; joinable = false };
    worker = absent;
  },
  rw (j, v.worker),
  refl,
  refl,
)

-- After an error of select a fixed-length recording is over for good, and yet it counts as active:
-- from a well-formed recorder, whatever calls of Start() and thread steps follow, in any number, nothing
-- changes any more, since Start() does nothing and no thread has a step to make. Stop() does end it:
-- it returns at once, without a step of a thread, and the recorder is idle.
pub start-select_error :
    (env : Env) (now : ℕ) (p q z : Process)
    → IsWf p
    → p.worker ≡ selecting
    → p.recorder.continuous ≡ false
    → p.recorder.stop ≡ false
    → step env select_error p ≡ some q
    → WithoutStop env q z
    → (z ≡ q)
      × (is_active z.recorder ≡ true)
      × (t : Process) × (stop env now [] z ≡ returned (z.recorder.recording_path, t))
      × (is_active t.recorder ≡ false)
      × (t.recorder.joinable ≡ false)
start-select_error env now p q z v w c s h r =
    let over = on_select_error-IsOver env p q v w c s h in
    let same : z ≡ q = WithoutStop-IsOver env q over.0 r in
    let (t, ended_by, idle, joined) =
      subst
        (λ x.
          (t : Process) × (stop env now [] x ≡ returned (x.recorder.recording_path, t))
          × (is_active t.recorder ≡ false)
          × (t.recorder.joinable ≡ false))
        (sym same) (stop-IsOver env now q over.0 over.1) in
    (same, ap (λ x. is_active x.recorder) same ∙ over.0.active, t, ended_by, idle, joined)
