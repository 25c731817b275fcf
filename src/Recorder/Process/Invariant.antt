-- ===== src/Recorder/Process/Invariant.antt =====
-- The invariant that ties a recorder's flags to its threads, kept by every step and call.
use test_runner.Prelude.{
  ℕ, ◌≡◌, refl, subst, inl, inr, Bool, true, false, Option, none, some, List, [], ◌∷◌, arith,
  if◌then◌else◌, Option-cases, Bytes,
}
use mathlib.Core.Option.{some-injective}
use test_runner.Recorder.{Outcome, returned, threw}
use test_runner.Recorder.Process.{
  Env, Worker, absent, ended, no_buffer, Process, start, request_stop, Action, begins, tests,
  select_ready, select_empty, select_error, handles, joins_buffer, buffer_tests, buffer_trims,
  buffer_finishes, step, run, join_worker, stop,
}
use test_runner.Recorder.Process.WellFormed.{
  IsWf, on_begins-IsWf, on_tests-IsWf, on_select_ready-IsWf, on_select_empty-IsWf,
  on_select_error-IsWf, on_handles-IsWf, on_joins_buffer-IsWf, on_buffer_tests-IsWf,
  on_buffer_trims-IsWf, on_buffer_finishes-IsWf,
}

-- Every step of either thread keeps the invariant.
pub step-IsWf :
    (env : Env) (a : Action) (p : Process) {q : Process} → IsWf p → step env a p ≡ some q → IsWf q
unfolding step
step-IsWf env (begins now) p v h = on_begins-IsWf p.worker p now refl v h
step-IsWf env (tests now) p v h = on_tests-IsWf p.worker p now refl v h
step-IsWf env (select_ready rds) p v h = on_select_ready-IsWf p.worker rds p refl v h
step-IsWf env select_empty p v h = on_select_empty-IsWf p.worker p refl v h
step-IsWf env select_error p v h = on_select_error-IsWf p.worker p.buffer_worker p refl refl v h
step-IsWf env (handles ts later) p v h = on_handles-IsWf p.worker env ts later p refl v h
step-IsWf env joins_buffer p v h = on_joins_buffer-IsWf p.worker p.buffer_worker p refl refl v h
step-IsWf env buffer_tests p v h = on_buffer_tests-IsWf p.worker p.buffer_worker p refl refl v h
step-IsWf env (buffer_trims now) p v h =
    on_buffer_trims-IsWf p.worker p.buffer_worker now p refl refl v h
step-IsWf env (buffer_finishes file_ts) p v h =
    on_buffer_finishes-IsWf p.worker p.buffer_worker file_ts p refl refl v h

pub run-IsWf :
    (env : Env) (schedule : List Action) (p : Process) {q : Process}
    → IsWf p
    → run env schedule p ≡ some q
    → IsWf q
unfolding run
run-IsWf env [] p v h = subst IsWf (some-injective _ _ h) v
run-IsWf env (a ∷ rest) p v h = elim (Option-cases (step env a p)) [
  | inl e ↦ cc (rw (e, run) at h)
  | inr (q', e) ↦ run-IsWf env rest q' (step-IsWf env a p v e) (rw (e, run) at h)
]

pub start-IsWf : (p : Process) {q : Process} → IsWf p → start p ≡ returned q → IsWf q
unfolding start
start-IsWf p v h = ground arith

pub request_stop-IsWf : (now : ℕ) (p : Process) → IsWf p → IsWf (request_stop now p)
unfolding request_stop
request_stop-IsWf now p v = ground arith

join-IsWf :
    (o : Option Process) {path : Bytes} {q : Process}
    → ((r : Process) → o ≡ some r → IsWf r)
    → join_worker o ≡ returned (path, q)
    → IsWf q
join-IsWf none v h = cc
join-IsWf (some r) v h = joined r r.worker refl (v r refl) h
  where
    joined :
        (r : Process) (w : Worker) {path : Bytes} {q : Process}
        → r.worker ≡ w
        → IsWf r
        → join_worker (some r) ≡ returned (path, q)
        → IsWf q
    joined r ended e v h = ground arith
    joined r _ e v h = ground arith

pub not_thrown :
    (b : Bool) (o : Outcome (Bytes × Process)) {r : Bytes × Process}
    → (if b then o else threw) ≡ returned r
    → o ≡ returned r
not_thrown true o h = h
not_thrown false o h = cc

pub stop-IsWf :
    (env : Env) (now : ℕ) (schedule : List Action) (p : Process) {path : Bytes} {q : Process}
    → IsWf p
    → stop env now schedule p ≡ returned (path, q)
    → IsWf q
unfolding stop
stop-IsWf env now schedule p v h =
    join-IsWf (run env schedule (request_stop now p))
      (λ r er. run-IsWf env schedule (request_stop now p) (request_stop-IsWf now p v) er)
      (not_thrown _ _ h)

-- The states that a recorder can reach from its construction, by Start(), Stop() and the steps of
-- its threads.
pub data Reachable (env : Env) : Process → Type 0 where
  fresh :
      (p : Process)
      → p.worker ≡ absent
      → p.buffer_worker ≡ no_buffer
      → p.recorder.joinable ≡ false
      → Reachable env p
  starts : {p q : Process} → Reachable env p → start p ≡ returned q → Reachable env q
  steps : {p q : Process} → (a : Action) → Reachable env p → step env a p ≡ some q → Reachable env q
  stops :
      {p q : Process}
      → (now : ℕ) (schedule : List Action) (path : Bytes) → Reachable env p
      → stop env now schedule p ≡ returned (path, q)
      → Reachable env q

-- In every state that a recorder without threads reaches by Start(), Stop() and its threads, m_recorder_thread
-- is joinable exactly while a recorder thread is there, a buffer thread goes with a continuous
-- recording and is done when the recorder thread is, and it leaves its loop only once stopped.
pub Reachable-IsWf : {env : Env} {p : Process} → Reachable env p → IsWf p
Reachable-IsWf (fresh p w b j) = ground arith
Reachable-IsWf (starts {p = p} r h) = start-IsWf p (Reachable-IsWf r) h
Reachable-IsWf {env} (steps {p = p} a r h) = step-IsWf env a p (Reachable-IsWf r) h
Reachable-IsWf {env} (stops {p = p} now schedule path r h) =
    stop-IsWf env now schedule p (Reachable-IsWf r) h
