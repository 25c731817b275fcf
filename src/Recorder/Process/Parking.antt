-- ===== src/Recorder/Process/Parking.antt =====
-- How the recorder thread, once m_stop is set, gets to its end or to its wait for the buffer thread.
use test_runner.Prelude.{
  ℕ, ◌≡◌, refl, ap, ◌∙◌, ◌≢◌, inl, inr, true, false, some, List, [], ◌∷◌, ◌++◌, arith,
  if◌then◌else◌, Option-cases,
}
use mathlib.Core.Option.{some-injective}
use test_runner.Recorder.Process.{
  Env, Reading, Worker, absent, spawned, testing, selecting, reading, draining, ended, BufferWorker,
  no_buffer, looping, waiting, finishing, finished, Process, is_done, request_stop, store,
  handle_event, handle_reading, Action, tests, select_empty, handles, joins_buffer, buffer_tests,
  buffer_trims, buffer_finishes, leave_loop, on_tests, on_select, on_handles, step, run,
}
use test_runner.Recorder.Process.WellFormed.{IsWf, is_absent}

-- The steps left to the recorder thread, and those left to the buffer thread, once m_stop is set.
pub drain : List Reading → List Action
drain [] = handles 0 0 ∷ tests 0 ∷ []
drain (rd ∷ rest) = handles 0 0 ∷ drain rest

pub worker_steps : Worker → List Action
worker_steps testing = tests 0 ∷ []
worker_steps selecting = select_empty ∷ tests 0 ∷ []
worker_steps (reading rds) = drain rds
worker_steps _ = []

unfoldable pub buffer_steps : BufferWorker → List Action
buffer_steps looping = buffer_tests ∷ buffer_finishes [] ∷ joins_buffer ∷ []
buffer_steps waiting = buffer_trims 0 ∷ buffer_tests ∷ buffer_finishes [] ∷ joins_buffer ∷ []
buffer_steps finishing = buffer_finishes [] ∷ joins_buffer ∷ []
buffer_steps finished = joins_buffer ∷ []
buffer_steps no_buffer = []

pub run-append :
    (env : Env) (xs ys : List Action) (p q : Process)
    → run env xs p ≡ some q
    → run env (xs ++ ys) p ≡ run env ys q
unfolding run
run-append env [] ys p q h = ap (run env ys) (some-injective _ _ h)
run-append env (a ∷ xs) ys p q h = elim (Option-cases (step env a p)) [
  | inl e ↦ cc (rw (e, run) at h)
  | inr (r, e) ↦ rw (e, run) (run-append env xs ys r q (rw (e, run) at h))
]

tests_park :
    (env : Env) (p : Process)
    → p.worker ≡ testing
    → p.recorder.stop ≡ true
    → run env (tests 0 ∷ []) p ≡ some (leave_loop p)
unfolding run step on_tests is_done
tests_park env p w s = rw (w, on_tests, s)

-- Reading what select reported neither clears m_stop nor moves a thread.
handle_reading_keeps :
    (env : Env) (rd : Reading) (ts later : ℕ) (p : Process)
    → p.recorder.stop ≡ true
    → let q = handle_reading env rd ts later p in
      (q.recorder.stop ≡ true)
      × (q.recorder.continuous ≡ p.recorder.continuous)
      × (q.recorder.joinable ≡ p.recorder.joinable)
      × (q.worker ≡ p.worker)
      × (q.buffer_worker ≡ p.buffer_worker)
unfolding handle_reading handle_event store request_stop
handle_reading_keeps env rd ts later p s = ground arith

-- The recorder thread gets to its end, or to its wait for the buffer thread.
abbrev pub Parks : Env → Process → List Action → Type 0
Parks env p schedule =
    (q : Process) × (run env schedule p ≡ some q)
    × (q.worker ≡ (if p.recorder.continuous then draining else ended))
    × (q.recorder.stop ≡ true)
    × (q.recorder.continuous ≡ p.recorder.continuous)
    × (q.recorder.joinable ≡ p.recorder.joinable)
    × (q.buffer_worker ≡ p.buffer_worker)

testing-Parks :
    (env : Env) (p : Process)
    → p.worker ≡ testing
    → p.recorder.stop ≡ true
    → Parks env p (tests 0 ∷ [])
testing-Parks env p w s = (leave_loop p, tests_park env p w s, refl, s, refl, refl, refl)

drain-Parks :
    (env : Env) (rds : List Reading) (p : Process)
    → p.worker ≡ reading rds
    → p.recorder.stop ≡ true
    → Parks env p (drain rds)
unfolding run step drain
drain-Parks env [] p w s =
    rw (w, on_handles) (testing-Parks env (record p { worker = testing }) refl s)
drain-Parks env (rd ∷ rest) p w s =
    let p1 = record p { worker = reading rest } in
    let kept = handle_reading_keeps env rd 0 0 p1 s in
    let (q, r, a, b, c, d, e) = drain-Parks env rest (handle_reading env rd 0 0 p1) kept.3 kept.0 in
    (
      q,
      rw (w, on_handles) r,
      a ∙ ap (λ c. if c then draining else ended) kept.1,
      b,
      c ∙ kept.1,
      d ∙ kept.2,
      e ∙ kept.4,
    )

-- A thread that is in its loop parks; one that is past it has parked.
pub worker_steps-Parks :
    (env : Env) (w : Worker) (p : Process)
    → p.worker ≡ w
    → is_absent w ≡ false
    → w ≢ spawned
    → w ≢ ended
    → IsWf p
    → p.recorder.stop ≡ true
    → Parks env p (worker_steps w)
unfolding worker_steps run
worker_steps-Parks env absent p e a n m v s = cc
worker_steps-Parks env spawned p e a n m v s = absurd (n refl)
worker_steps-Parks env testing p e a n m v s = testing-Parks env p e s
worker_steps-Parks env selecting p e a n m v s =
    unfold step in rw (e, on_select) (testing-Parks env (record p { worker = testing }) refl s)
worker_steps-Parks env (reading rds) p e a n m v s = drain-Parks env rds p e s
worker_steps-Parks env draining p e a n m v s = (p, refl, ground arith, s, refl, refl, refl)
worker_steps-Parks env ended p e a n m v s = absurd (m refl)
