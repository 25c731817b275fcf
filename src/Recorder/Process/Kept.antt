-- ===== src/Recorder/Process/Kept.antt =====
-- What the steps of a recorder's threads, Start() and Stop() keep: the devices, the file name and the
-- kind of recording, and that the thread has begun.
use test_runner.Prelude.{
  ℕ, ◌≡◌, ◌≢◌, refl, sym, ap, ◌∙◌, subst, inl, inr, Bool, true, false, not, ◌&&◌, some, List, [],
  ◌∷◌, arith, Option-cases, Bytes,
}
use mathlib.Core.Option.{some-injective}
use test_runner.Recorder.{returned}
use test_runner.Recorder.Buffer.{trim_buffer, finish_buffer}
use test_runner.Recorder.Process.{
  Env, Reading, Worker, absent, spawned, testing, selecting, reading, draining, BufferWorker,
  looping, waiting, finishing, finished, Process, is_done, start, request_stop, begin_record, store,
  handle_event, handle_reading, Action, begins, tests, select_ready, select_empty, select_error,
  handles, joins_buffer, buffer_tests, buffer_trims, buffer_finishes, on_begins, on_tests,
  on_select, on_select_error, on_handles, on_joins_buffer, on_buffer_tests, on_buffer_trims,
  on_buffer_finishes, step, run, join_worker, stop,
}
use test_runner.Recorder.Process.Invariant.{not_thrown}

abbrev pub has_begun : Worker → Bool
has_begun absent = false
has_begun spawned = false
has_begun _ = true

-- The devices, the file name and the kind of recording are those from before, and a thread that has
-- begun has.
abbrev pub Kept : Process → Process → Type 0
Kept p q =
    (q.recorder.available_devices ≡ p.recorder.available_devices)
    × (q.recorder.filename ≡ p.recorder.filename)
    × (q.recorder.continuous ≡ p.recorder.continuous)
    × ((has_begun p.worker && not (has_begun q.worker)) ≡ false)

still_begun : (b : Bool) → (b && not b) ≡ false
still_begun true = refl
still_begun false = refl

Kept-trans : (p q r : Process) → Kept p q → Kept q r → Kept p r
Kept-trans p q r h g = (g.0 ∙ h.0, g.1 ∙ h.1, g.2 ∙ h.2, ground (arith, h.3, g.3))

on_begins-Kept :
    (w : Worker) (now : ℕ) (p : Process) {q : Process} → on_begins now w p ≡ some q → Kept p q
unfolding on_begins begin_record
on_begins-Kept spawned now p h = ground arith
on_begins-Kept _ now p h = cc

on_tests-Kept :
    (w : Worker) (now : ℕ) (p : Process) {q : Process} → on_tests now w p ≡ some q → Kept p q
unfolding on_tests is_done
on_tests-Kept testing now p h = ground arith
on_tests-Kept _ now p h = cc

on_select_ready-Kept :
    (w : Worker) (rds : List Reading) (p : Process) {q : Process}
    → on_select (reading rds) w p ≡ some q
    → Kept p q
unfolding on_select
on_select_ready-Kept selecting rds p h = ground arith
on_select_ready-Kept _ rds p h = cc

on_select_empty-Kept :
    (w : Worker) (p : Process) {q : Process} → on_select testing w p ≡ some q → Kept p q
unfolding on_select
on_select_empty-Kept selecting p h = ground arith
on_select_empty-Kept _ p h = cc

on_select_error-Kept :
    (w : Worker) (p : Process) {q : Process} → on_select_error w p ≡ some q → Kept p q
unfolding on_select_error
on_select_error-Kept selecting p h = ground arith
on_select_error-Kept _ p h = cc

handle_reading-Kept :
    (env : Env) (rd : Reading) (ts later : ℕ) (p : Process)
    → let q = handle_reading env rd ts later p in
      (q.recorder.available_devices ≡ p.recorder.available_devices)
      × (q.recorder.filename ≡ p.recorder.filename)
      × (q.recorder.continuous ≡ p.recorder.continuous)
      × (q.worker ≡ p.worker)
unfolding handle_reading handle_event store request_stop
handle_reading-Kept env rd ts later p = ground arith

-- The thread is still there.
here_after :
    (b : Bool) (w : Worker) {rest : List Reading}
    → w ≡ reading rest
    → (b && not (has_begun w)) ≡ false
here_after true w e = ap (λ w. not (has_begun w)) e
here_after false w e = refl

on_handles-Kept :
    (w : Worker) (env : Env) (ts later : ℕ) (p : Process) {q : Process}
    → on_handles env ts later w p ≡ some q
    → Kept p q
unfolding on_handles
on_handles-Kept (reading []) env ts later p h = ground arith
on_handles-Kept (reading (rd ∷ rest)) env ts later p h =
    let kept = handle_reading-Kept env rd ts later (record p { worker = reading rest }) in
    subst (Kept p) (some-injective _ _ h)
      (kept.0, kept.1, kept.2, here_after (has_begun p.worker) _ kept.3)
on_handles-Kept _ env ts later p h = cc

on_joins_buffer-Kept :
    (w : Worker) (b : BufferWorker) (p : Process) {q : Process}
    → on_joins_buffer w b p ≡ some q
    → Kept p q
unfolding on_joins_buffer
on_joins_buffer-Kept draining finished p h = ground arith
on_joins_buffer-Kept _ _ p h = cc

on_buffer_tests-Kept :
    (b : BufferWorker) (p : Process) {q : Process} → on_buffer_tests b p ≡ some q → Kept p q
unfolding on_buffer_tests
on_buffer_tests-Kept looping p h = ground arith
on_buffer_tests-Kept _ p h = cc

on_buffer_trims-Kept :
    (b : BufferWorker) (now : ℕ) (p : Process) {q : Process}
    → on_buffer_trims now b p ≡ some q
    → Kept p q
unfolding on_buffer_trims trim_buffer
on_buffer_trims-Kept waiting now p h = ground arith
on_buffer_trims-Kept _ now p h = cc

on_buffer_finishes-Kept :
    (b : BufferWorker) (ts : Bytes) (p : Process) {q : Process}
    → on_buffer_finishes ts b p ≡ some q
    → Kept p q
unfolding on_buffer_finishes finish_buffer
on_buffer_finishes-Kept finishing ts p h = ground arith
on_buffer_finishes-Kept _ ts p h = cc

pub step-Kept :
    (env : Env) (a : Action) (p : Process) {q : Process} → step env a p ≡ some q → Kept p q
unfolding step
step-Kept env (begins now) p h = on_begins-Kept p.worker now p h
step-Kept env (tests now) p h = on_tests-Kept p.worker now p h
step-Kept env (select_ready rds) p h = on_select_ready-Kept p.worker rds p h
step-Kept env select_empty p h = on_select_empty-Kept p.worker p h
step-Kept env select_error p h = on_select_error-Kept p.worker p h
step-Kept env (handles ts later) p h = on_handles-Kept p.worker env ts later p h
step-Kept env joins_buffer p h = on_joins_buffer-Kept p.worker p.buffer_worker p h
step-Kept env buffer_tests p h = on_buffer_tests-Kept p.buffer_worker p h
step-Kept env (buffer_trims now) p h = on_buffer_trims-Kept p.buffer_worker now p h
step-Kept env (buffer_finishes ts) p h = on_buffer_finishes-Kept p.buffer_worker ts p h

pub run-Kept :
    (env : Env) (as_ : List Action) (p : Process) {q : Process} → run env as_ p ≡ some q → Kept p q
unfolding run
run-Kept env [] p h =
    subst (Kept p) (some-injective _ _ h) (refl, refl, refl, still_begun (has_begun p.worker))
run-Kept env (a ∷ as_) p {q} h = elim (Option-cases (step env a p)) [
  | inl e ↦ cc (rw (e, run) at h)
  | inr (r, e) ↦ Kept-trans p r q (step-Kept env a p e) (run-Kept env as_ r (rw (e, run) at h))
]

on_begins-has_begun :
    (w : Worker) (now : ℕ) (p : Process) {q : Process}
    → on_begins now w p ≡ some q
    → has_begun q.worker ≡ true
unfolding on_begins begin_record
on_begins-has_begun spawned now p h = ground arith
on_begins-has_begun _ now p h = cc

begun_stays : (a b : Bool) → a ≡ true → (a && not b) ≡ false → b ≡ true
begun_stays a b e h = ground arith

pub run_begins-Kept :
    (env : Env) (now : ℕ) (as_ : List Action) (p : Process) {q : Process}
    → run env (begins now ∷ as_) p ≡ some q
    → Kept p q × (has_begun q.worker ≡ true)
unfolding run
run_begins-Kept env now as_ p {q} h = elim (Option-cases (step env (begins now) p)) [
  | inl e ↦ cc (rw (e, run) at h)
  | inr (r, e) ↦
      let begun : on_begins now p.worker p ≡ some r = unfold step in e in
      let rest = run-Kept env as_ r (rw (e, run) at h) in
      (
        Kept-trans p r q (on_begins-Kept p.worker now p begun) rest,
        begun_stays _ _ (on_begins-has_begun p.worker now p begun) rest.3,
      )
]

pub start-Kept :
    (p : Process) {q : Process}
    → start p ≡ returned q
    → (q.recorder.available_devices ≡ p.recorder.available_devices)
      × (q.recorder.filename ≡ p.recorder.filename)
      × (q.recorder.continuous ≡ p.recorder.continuous)
unfolding start
start-Kept p h = ground arith

pub has_begun_sound : (w : Worker) → has_begun w ≡ true → (w ≢ absent) × (w ≢ spawned)
has_begun_sound absent h = cc
has_begun_sound spawned h = cc
has_begun_sound _ h = (λ e. cc, λ e. cc)

join-Kept :
    (z : Process) (path : Bytes) (q : Process)
    → join_worker (some z) ≡ returned (path, q)
    → (q.recorder.available_devices ≡ z.recorder.available_devices)
      × (q.recorder.filename ≡ z.recorder.filename)
      × (q.recorder.continuous ≡ z.recorder.continuous)
      × (q.recorder.joinable ≡ false)
join-Kept z path q h = ground arith

pub stop-Kept :
    (env : Env) (now : ℕ) (schedule : List Action) (r : Process) {path : Bytes} {q : Process}
    → stop env now schedule r ≡ returned (path, q)
    → (q.recorder.available_devices ≡ r.recorder.available_devices)
      × (q.recorder.filename ≡ r.recorder.filename)
      × (q.recorder.continuous ≡ r.recorder.continuous)
      × (q.recorder.joinable ≡ false)
unfolding stop request_stop
stop-Kept env now schedule r {path} {q} h =
    let asked = request_stop now r in
    let joined = not_thrown r.recorder.joinable (join_worker (run env schedule asked)) h in
    elim (Option-cases (run env schedule asked)) [
      | inl e ↦ cc (sym (ap join_worker e) ∙ joined)
      | inr (z, e) ↦
          let kept : Kept asked z = run-Kept env schedule asked e in
          let ended = join-Kept z path q (sym (ap join_worker e) ∙ joined) in
          (ended.0 ∙ kept.0, ended.1 ∙ kept.1, ended.2 ∙ kept.2, ended.3)
    ]
