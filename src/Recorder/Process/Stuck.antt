-- ===== src/Recorder/Process/Stuck.antt =====
-- The states from which a continuous recorder does not end by itself.
use test_runner.Prelude.{ℕ, ◌≡◌, sym, ◌∙◌, subst, Bool, true, false, List, arith, All}
use test_runner.Linux.{InputEvent}
use test_runner.Recorder.{Device}
use test_runner.Recorder.Touch.{Floats}
use test_runner.Recorder.Process.{
  Env, Reading, Worker, absent, spawned, testing, selecting, reading, draining, ended, BufferWorker,
  Process, scaled, store, is_esc, handle_event, handle_reading, Action, select_ready,
}
use test_runner.Recorder.Process.WellFormed.{quiet, past_loop}

abbrev pub NoEsc : Reading → Type 0
NoEsc rd = is_esc rd.event ≡ false

-- No device reports the escape key in this step.
abbrev pub EscFree : Action → Type 0
EscFree (select_ready rds) = All NoEsc rds
EscFree _ = Unit {0}

-- A recorder that no stop request will reach.
abbrev pub StuckAt : Worker → BufferWorker → Bool → Type 0
StuckAt spawned b s = quiet b ≡ true
StuckAt testing b s = (s ≡ false) × (past_loop b ≡ false)
StuckAt selecting b s = (s ≡ false) × (past_loop b ≡ false)
StuckAt (reading rds) b s = (s ≡ false) × (past_loop b ≡ false) × All NoEsc rds
StuckAt draining b s = (s ≡ false) × (past_loop b ≡ false)
StuckAt absent b s = ⊥
StuckAt ended b s = ⊥

pub record IsStuck (p : Process) : Type 0 where
  pub continues : p.recorder.continuous ≡ true
  pub at : StuckAt p.worker p.buffer_worker p.recorder.stop

is_esc-scaled : (fl : Floats) (d : Device) (ev : InputEvent) → is_esc (scaled fl d ev) ≡ is_esc ev
unfolding scaled
is_esc-scaled fl d ev = ground arith

handle_event_keeps :
    (env : Env) (d : Device) (ev : InputEvent) (ts later : ℕ) (p : Process)
    → is_esc ev ≡ false
    → let q = handle_event env d ev ts later p in
      (q.recorder.stop ≡ p.recorder.stop)
      × (q.recorder.continuous ≡ p.recorder.continuous)
      × (q.worker ≡ p.worker)
      × (q.buffer_worker ≡ p.buffer_worker)
unfolding handle_event store
handle_event_keeps env d ev ts later p h = ground arith

pub handle_reading_keeps :
    (env : Env) (rd : Reading) (ts later : ℕ) (p : Process)
    → NoEsc rd
    → let q = handle_reading env rd ts later p in
      (q.recorder.stop ≡ p.recorder.stop)
      × (q.recorder.continuous ≡ p.recorder.continuous)
      × (q.worker ≡ p.worker)
      × (q.buffer_worker ≡ p.buffer_worker)
unfolding handle_reading
handle_reading_keeps env rd ts later p h =
    let e =
      handle_event_keeps env rd.device (scaled env.floats rd.device rd.event) ts later p
        (is_esc-scaled env.floats rd.device rd.event ∙ h) in
    ground arith

pub reading-IsStuck :
    (q : Process) (rest : List Reading)
    → q.worker ≡ reading rest
    → q.recorder.continuous ≡ true
    → q.recorder.stop ≡ false
    → past_loop q.buffer_worker ≡ false
    → All NoEsc rest
    → IsStuck q
reading-IsStuck q rest w c s b a = record {
  continues = c;
  at = subst (λ w. StuckAt w q.buffer_worker q.recorder.stop) (sym w) (s, b, a);
}
