-- ===== src/Programs/Recorder.antt =====
-- recorder/recorder.cpp. strtol, the clock and the schedules of the recorder's threads are parameters.
use test_runner.Prelude.{
  ℕ, ◌^◌, Bool, true, false, Option, none, some, List, [], ◌∷◌, ◌==◌, if◌then◌else◌, Bytes, codes,
}
use test_runner.Prelude.Int.{ℤ, pos, to_unsigned, wrap_signed}
use test_runner.Syscalls.{Sys, ◌>>=◌, return}
use test_runner.Xkb.{Xkb}
use test_runner.Recorder.{returned}
use test_runner.Recorder.Devices.{find_devices}
use test_runner.Recorder.Process.{Env, Action, Process, start, run, stop}
use test_runner.Recorder.Lifetime.{new_recorder, destroy_recorder}
use test_runner.Programs.{
  GivenOption, Ending, exit_success, exit_failure, null_pointer, stuck, Parsed, parsed, ends,
  with_argument,
}

-- `struct args`.
pub record Args : Type 0 where
  pub filename : Option Bytes
  pub record_length : ℤ
  pub continuous : Bool

abbrev pub argument_defaults : Args
argument_defaults = record {
  filename = some (codes "cmd_file_recorder");
  record_length = pos 30;
  continuous = false;
}

-- The switch over one option. The long is narrowed to an int.
unfoldable pub recorder_option : (Bytes → ℤ) → GivenOption → Args → Parsed Args
recorder_option strtol opt args =
    if opt.ch == b'f'
    then parsed (record args { filename = opt.optarg })
    else if opt.ch == b'b'
    then with_argument opt.optarg
        (λ a. record args { record_length = wrap_signed (2 ^ 32) (strtol a) })
    else if opt.ch == b'c'
    then parsed (record args { continuous = true })
    else if opt.ch == b'h'
    then ends exit_success
    else ends exit_failure

unfoldable pub parse_args : (Bytes → ℤ) → List GivenOption → Args → Parsed Args
parse_args strtol [] args = parsed args
parse_args strtol (opt ∷ opts) args = elim (recorder_option strtol opt args) [
  | parsed a ↦ parse_args strtol opts a
  | ends e ↦ ends e
]

-- What the threads do while main sleeps for ten seconds, and from the request of Stop() to the end of
-- its join, at the given time.
pub record Run : Type 0 where
  pub asleep : List Action
  pub now : ℕ
  pub stopping : List Action

-- Start(), the sleep and Stop(), on a recorder; `none` where the program does not get past them.
unfoldable pub record_for : Env → Run → Process → Option Process
record_for env w p = elim (start p) [
  | returned q ↦ elim (run env w.asleep q) [
    | none ↦ none
    | some r ↦ elim (stop env w.now w.stopping r) [ returned s ↦ some s.1 | _ ↦ none ]
  ]
  | _ ↦ none
]

-- The end of main, with the destructor; after Stop() no thread is left to wait for.
unfoldable pub recorder_exit : Env → Run → Option Process → Sys Ending
recorder_exit env w none = return stuck
recorder_exit env w (some p) = do
  gone ← destroy_recorder env w.now [] p
  return (elim gone [ returned u ↦ exit_success | _ ↦ stuck ])

-- The recorder that main makes.
abbrev pub recorder_of : Xkb → Args → Bytes → Sys Process
recorder_of xkb args name =
    new_recorder xkb name (to_unsigned (2 ^ 32) args.record_length) args.continuous
      (codes "/dev/input")

-- main after parse_args. A null file name is used in the constructor, after the scan.
unfoldable pub recorder_session : Env → Run → Xkb → Args → Sys Ending
recorder_session env w xkb args = elim args.filename [
  | none ↦ (do devices ← find_devices (codes "/dev/input"); return null_pointer)
  | some name ↦ (do p ← recorder_of xkb args name; recorder_exit env w (record_for env w p))
]

unfoldable pub recorder_main : Env → Run → Xkb → (Bytes → ℤ) → List GivenOption → Sys Ending
recorder_main env w xkb strtol opts = elim (parse_args strtol opts argument_defaults) [
  | ends e ↦ return e
  | parsed args ↦ recorder_session env w xkb args
]
