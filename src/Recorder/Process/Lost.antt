-- ===== src/Recorder/Process/Lost.antt =====
-- A stop request that the recorder thread undoes: Record() clears m_stop when it begins.
use test_runner.Prelude.{
  ℕ, ◌≡◌, refl, ap, ◌∙◌, subst, inl, inr, Bool, true, false, not, some, List, [], ◌∷◌, arith,
  Option-cases, Bytes, All,
}
use mathlib.Core.Option.{some-injective}
use test_runner.Recorder.{blocked}
use test_runner.Recorder.Buffer.{trim_buffer}
use test_runner.Recorder.Process.{
  Env, Reading, Worker, absent, spawned, testing, selecting, reading, draining, ended, BufferWorker,
  looping, waiting, finishing, finished, Process, is_done, request_stop, handle_reading,
  begin_record, Action, begins, tests, select_ready, select_empty, select_error, handles,
  joins_buffer, buffer_tests, buffer_trims, buffer_finishes, on_begins, on_tests, on_select,
  on_select_error, on_handles, on_joins_buffer, on_buffer_tests, on_buffer_trims,
  on_buffer_finishes, step, run, has_ended, join_worker, stop,
}
use test_runner.Recorder.Process.WellFormed.{IsWf, is_absent, past_loop}
use test_runner.Recorder.Process.Stopping.{stop_joins}
use test_runner.Recorder.Process.Stuck.{
  NoEsc, EscFree, StuckAt, IsStuck, handle_reading_keeps, reading-IsStuck,
}

module _ (env : Env) (p : Process) where
  on_begins-IsStuck :
      (w : Worker) (now : ℕ) {q : Process}
      → p.worker ≡ w
      → IsStuck p
      → on_begins now w p ≡ some q
      → IsStuck q
  unfolding on_begins begin_record
  on_begins-IsStuck spawned now e v h = ground arith
  on_begins-IsStuck _ now e v h = cc

  on_tests-IsStuck :
      (w : Worker) (now : ℕ) {q : Process}
      → p.worker ≡ w
      → IsStuck p
      → on_tests now w p ≡ some q
      → IsStuck q
  unfolding on_tests is_done
  on_tests-IsStuck testing now e v h = ground arith
  on_tests-IsStuck _ now e v h = cc

  on_select_ready-IsStuck :
      (w : Worker) (rds : List Reading) {q : Process}
      → p.worker ≡ w
      → All NoEsc rds
      → IsStuck p
      → on_select (reading rds) w p ≡ some q
      → IsStuck q
  unfolding on_select
  on_select_ready-IsStuck selecting rds e a v h = ground arith
  on_select_ready-IsStuck _ rds e a v h = cc

  on_select_empty-IsStuck :
      (w : Worker) {q : Process}
      → p.worker ≡ w
      → IsStuck p
      → on_select testing w p ≡ some q
      → IsStuck q
  unfolding on_select
  on_select_empty-IsStuck selecting e v h = ground arith
  on_select_empty-IsStuck _ e v h = cc

  on_select_error-IsStuck :
      (w : Worker) {q : Process}
      → p.worker ≡ w
      → IsStuck p
      → on_select_error w p ≡ some q
      → IsStuck q
  unfolding on_select_error
  on_select_error-IsStuck selecting e v h = ground arith
  on_select_error-IsStuck _ e v h = cc

  on_handles-IsStuck :
      (w : Worker) (ts later : ℕ) {q : Process}
      → p.worker ≡ w
      → IsStuck p
      → on_handles env ts later w p ≡ some q
      → IsStuck q
  unfolding on_handles
  on_handles-IsStuck (reading []) ts later e v h = ground arith
  on_handles-IsStuck (reading (rd ∷ rest)) ts later e v h =
      let p1 = record p { worker = reading rest } in
      let was = subst (λ w. StuckAt w p.buffer_worker p.recorder.stop) e v.at in
      let kept = handle_reading_keeps env rd ts later p1 was.2.0 in
      subst IsStuck (some-injective _ _ h) (
        reading-IsStuck (handle_reading env rd ts later p1) rest kept.2 (kept.1 ∙ v.continues)
          (kept.0 ∙ was.0) (ap past_loop kept.3 ∙ was.1) was.2.1)
  on_handles-IsStuck _ ts later e v h = cc

  on_joins_buffer-IsStuck :
      (w : Worker) (b : BufferWorker) {q : Process}
      → p.worker ≡ w
      → p.buffer_worker ≡ b
      → IsStuck p
      → on_joins_buffer w b p ≡ some q
      → IsStuck q
  unfolding on_joins_buffer
  on_joins_buffer-IsStuck draining finished e f v h = ground arith
  on_joins_buffer-IsStuck _ _ e f v h = cc

  on_buffer_tests-IsStuck :
      (w : Worker) (b : BufferWorker) {q : Process}
      → p.worker ≡ w
      → p.buffer_worker ≡ b
      → IsStuck p
      → on_buffer_tests b p ≡ some q
      → IsStuck q
  unfolding on_buffer_tests
  on_buffer_tests-IsStuck absent looping e f v h = ground arith
  on_buffer_tests-IsStuck _ looping e f v h = ground arith
  on_buffer_tests-IsStuck _ _ e f v h = cc

  on_buffer_trims-IsStuck :
      (w : Worker) (b : BufferWorker) (now : ℕ) {q : Process}
      → p.worker ≡ w
      → p.buffer_worker ≡ b
      → IsStuck p
      → on_buffer_trims now b p ≡ some q
      → IsStuck q
  unfolding on_buffer_trims trim_buffer
  on_buffer_trims-IsStuck absent waiting now e f v h = ground arith
  on_buffer_trims-IsStuck _ waiting now e f v h = ground arith
  on_buffer_trims-IsStuck _ _ now e f v h = cc

  on_buffer_finishes-IsStuck :
      (w : Worker) (b : BufferWorker) (file_ts : Bytes) {q : Process}
      → p.worker ≡ w
      → p.buffer_worker ≡ b
      → IsStuck p
      → on_buffer_finishes file_ts b p ≡ some q
      → IsStuck q
  unfolding on_buffer_finishes
  on_buffer_finishes-IsStuck absent finishing file_ts e f v h = ground arith
  on_buffer_finishes-IsStuck _ finishing file_ts e f v h = ground arith
  on_buffer_finishes-IsStuck _ _ file_ts e f v h = cc

  step-IsStuck :
      (a : Action) {q : Process} → EscFree a → IsStuck p → step env a p ≡ some q → IsStuck q
  unfolding step
  step-IsStuck (begins now) f v h = on_begins-IsStuck p.worker now refl v h
  step-IsStuck (tests now) f v h = on_tests-IsStuck p.worker now refl v h
  step-IsStuck (select_ready rds) f v h = on_select_ready-IsStuck p.worker rds refl f v h
  step-IsStuck select_empty f v h = on_select_empty-IsStuck p.worker refl v h
  step-IsStuck select_error f v h = on_select_error-IsStuck p.worker refl v h
  step-IsStuck (handles ts later) f v h = on_handles-IsStuck p.worker ts later refl v h
  step-IsStuck joins_buffer f v h = on_joins_buffer-IsStuck p.worker p.buffer_worker refl refl v h
  step-IsStuck buffer_tests f v h = on_buffer_tests-IsStuck p.worker p.buffer_worker refl refl v h
  step-IsStuck (buffer_trims now) f v h =
      on_buffer_trims-IsStuck p.worker p.buffer_worker now refl refl v h
  step-IsStuck (buffer_finishes file_ts) f v h =
      on_buffer_finishes-IsStuck p.worker p.buffer_worker file_ts refl refl v h

stuck_not_ended : (w : Worker) (b : BufferWorker) (s : Bool) → StuckAt w b s → has_ended w ≡ false
stuck_not_ended absent b s h = absurd h
stuck_not_ended ended b s h = absurd h
stuck_not_ended _ b s h = refl

run_blocked :
    (env : Env) (schedule : List Action) (p : Process)
    → All EscFree schedule
    → IsStuck p
    → join_worker (run env schedule p) ≡ blocked
unfolding run
run_blocked env [] p f v =
    let going : has_ended p.worker ≡ false = stuck_not_ended p.worker _ _ v.at in simp going
run_blocked env (a ∷ rest) p f v = elim (Option-cases (step env a p)) [
  | inl e ↦ rw (e, run)
  | inr (q, e) ↦ rw (e, run) (run_blocked env rest q f.1 (step-IsStuck env p a f.0 v e))
]

requested-IsStuck :
    (now : ℕ) (p : Process)
    → IsWf p
    → p.worker ≡ spawned
    → p.recorder.continuous ≡ true
    → IsStuck (request_stop now p)
unfolding request_stop
requested-IsStuck now p v w c = ground arith

-- A stop request can be lost: if Stop() is called on a continuous recorder after Start() and before
-- the new thread has run, then on every schedule of the threads, unless a device reports the escape
-- key, the join of Stop() does not return.
pub stop_lost :
    (env : Env) (now : ℕ) (schedule : List Action) (p : Process)
    → IsWf p
    → p.worker ≡ spawned
    → p.recorder.continuous ≡ true
    → All EscFree schedule
    → stop env now schedule p ≡ blocked
stop_lost env now schedule p v w c f =
    stop_joins env now schedule p (v.thread ∙ ap (λ x. not (is_absent x)) w)
    ∙ run_blocked env schedule (request_stop now p) f (requested-IsStuck now p v w c)
