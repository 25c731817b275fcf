-- ===== src/Programs/Winding.antt =====
-- The end of recorder/recorder.cpp.
use test_runner.Prelude.{
  ℕ, ◌≡◌, refl, sym, ap, ◌∙◌, Bool, false, Option, none, some, List, [], ◌∷◌, Bytes,
}
use mathlib.Core.Option.{some-injective}
use test_runner.Prelude.Int.{ℤ}
use test_runner.Syscalls.{Log, Kernel, logged}
use test_runner.Xkb.{Xkb}
use test_runner.Recorder.{Device, Outcome, returned}
use test_runner.Recorder.Process.{Env, Action, begins, Process, start, run, stop}
use test_runner.Recorder.Process.Invariant.{Reachable, fresh, Reachable-IsWf, start-IsWf, run-IsWf}
use test_runner.Recorder.Process.WellFormed.{IsWf}
use test_runner.Recorder.Process.Stopping.{stop_returns}
use test_runner.Recorder.Process.Kept.{run_begins-Kept, start-Kept, stop-Kept, has_begun_sound}
use test_runner.Recorder.Lifetime.{new_recorder, shut_down, destroy_recorder}
use test_runner.Recorder.Devices.Found.{closes, close_devices_lem}
use test_runner.Programs.{GivenOption, Ending, exit_success, stuck, parsed}
use test_runner.Programs.Recorder.{
  Args, argument_defaults, parse_args, Run, record_for, recorder_of, recorder_exit,
  recorder_session, recorder_main,
}

-- The destructor of a recorder without a thread.
destroy_recorder-idle :
    (env : Env) (now : ℕ) (q : Process) (k : Kernel) (log : Log)
    → q.recorder.joinable ≡ false
    → ((destroy_recorder env now [] q k log).0 ≡ returned tt)
      × ((destroy_recorder env now [] q k log).1 ≡ logged log (closes q.recorder.available_devices))
unfolding destroy_recorder shut_down
destroy_recorder-idle env now q k log j = (
  rw (j, destroy_recorder, shut_down) refl,
  rw (j, destroy_recorder, shut_down) (close_devices_lem k q.recorder.available_devices log),
)

record_for_lem :
    (env : Env) (w : Run) (p q r s : Process) (path : Bytes)
    → start p ≡ returned q
    → run env w.asleep q ≡ some r
    → stop env w.now w.stopping r ≡ returned (path, s)
    → record_for env w p ≡ some s
unfolding record_for
record_for_lem env w p q r s path a b c = rw (a, record_for, b, c) refl

new_recorder-Reachable :
    (env : Env) (xkb : Xkb) (name : Bytes) (seconds : ℕ) (continuous : Bool) (dir : Bytes)
    (k : Kernel) (log : Log)
    → Reachable env (new_recorder xkb name seconds continuous dir k log).0
unfolding new_recorder
new_recorder-Reachable env xkb name seconds continuous dir k log = fresh _ refl refl refl

pair : {A B : Type 0} {a a' : A} {b b' : B} → a ≡ a' → b ≡ b' → ◌≡◌ {A = A × B} (a, b) (a', b')
pair p q = rw (p, q)

-- The end of main once the recorder has stopped.
recorder_exit-idle :
    (env : Env) (w : Run) (o : Option Process) (s : Process) (k : Kernel) (log : Log)
    (ds : List Device)
    → o ≡ some s
    → s.recorder.joinable ≡ false
    → s.recorder.available_devices ≡ ds
    → recorder_exit env w o k log ≡ (exit_success, logged log (closes ds))
unfolding recorder_exit
recorder_exit-idle env w none s k log ds e j d = cc
recorder_exit-idle env w (some p) s k log ds e j d =
    let same : s ≡ p = sym (some-injective _ _ e) in
    let gone =
      destroy_recorder-idle env w.now p k log
        (ap (λ (x : Process). x.recorder.joinable) (sym same) ∙ j) in
    pair (ap success gone.0) (
      gone.1
      ∙ ap (λ l. logged log (closes l))
          (ap (λ (x : Process). x.recorder.available_devices) (sym same) ∙ d))
  where
    success : Outcome (Unit {0}) → Ending
    success (returned u) = exit_success
    success _ = stuck

module _ (env : Env) (xkb : Xkb) (strtol : Bytes → ℤ) (opts : List GivenOption) where
  -- The recorder program, whatever its options and the kernel: where it has a file name, and the recorder
  -- thread begins while main sleeps, then whatever the threads do in that time there is a
  -- schedule on which Stop() returns; the program then exits with success, and its last calls close
  -- every device that the scan had opened and kept.
  pub recorder_main-returns :
      (args : Args) (name : Bytes) (k : Kernel) (log : Log) (began now : ℕ) (asleep : List Action)
      (q r : Process)
      → parse_args strtol opts argument_defaults ≡ parsed args
      → args.filename ≡ some name
      → start (recorder_of xkb args name k log).0 ≡ returned q
      → run env (begins began ∷ asleep) q ≡ some r
      → (stopping : List Action) × (recorder_main env
            (record { asleep = begins began ∷ asleep; now = now; stopping = stopping })
            xkb
            strtol
            opts
            k
            log
          ≡ (
            exit_success,
            logged
                (recorder_of xkb args name k log).1
                (closes (recorder_of xkb args name k log).0.recorder.available_devices),
          ))
  unfolding recorder_main recorder_session recorder_exit
  recorder_main-returns args name k log began now asleep q r parses named starting sleeping =
      let p = recorder_of xkb args name k log in
      let wf : IsWf r =
        run-IsWf env (begins began ∷ asleep) q
          (start-IsWf p.0 (Reachable-IsWf (new_recorder-Reachable env xkb name _ _ _ k log))
            starting)
          sleeping in
      let kept = run_begins-Kept env began asleep q sleeping in
      let here = has_begun_sound r.worker kept.1 in
      let (schedule, path, s, stopped, _, _) = stop_returns env now r wf here.0 here.1 in
      let ended = stop-Kept env now schedule r stopped in
      let w : Run = record { asleep = begins began ∷ asleep; now = now; stopping = schedule } in
      let exits =
        recorder_exit-idle env w (record_for env w p.0) s k p.1 p.0.recorder.available_devices
          (record_for_lem env w p.0 q r s path starting sleeping stopped) ended.3
          (ended.0 ∙ kept.0.0 ∙ (start-Kept p.0 starting).0) in
      (schedule, rw (parses, recorder_main, named, recorder_session) exits)
