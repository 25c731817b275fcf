-- ===== src/Tests/ProgramExamples.antt =====
-- The theorems on server/main.cpp and recorder/recorder.cpp, applied to concrete runs.
use test_runner.Prelude.{
  ℕ, ◌≡◌, refl, ◌⊎◌, true, false, Option, none, some, List, [], ◌∷◌, if◌then◌else◌, Bytes, bytes_eq,
  codes,
}
use test_runner.Prelude.Int.{ℤ, pos, ◌-ℤ◌}
use test_runner.Syscalls.{logged}
use test_runner.Recorder.{returned}
use test_runner.Recorder.Devices.Found.{closes}
use test_runner.Recorder.Lifetime.{new_recorder, destroy_recorder, shut_down}
use test_runner.Recorder.Process.{
  Process, Action, begins, tests, buffer_tests, buffer_finishes, joins_buffer, spawned, selecting,
  start, request_stop, begin_record, is_done, step, run,
}
use test_runner.Recorder.Buffer.{finish_buffer}
use test_runner.Server.Lifetime.{
  setup_devices, snapshot_of, new_server, destroy_server, destroy_recorders, close_after,
}
use test_runner.Programs.{GivenOption, parsed, exit_success}
use test_runner.Programs.Server.{
  default_options, server_option, parse_options, Session, close_signal_pipe, serve_until_signal,
  server_session, after_options, server_main,
}
use test_runner.Programs.Described.{described_result, first_ending, parse_options-described}
use test_runner.Programs.Released.{Releases, server_main-Releases}
use test_runner.Programs.Recorder.{
  Args, argument_defaults, recorder_option, parse_args, recorder_of, recorder_main,
}
use test_runner.Programs.Winding.{recorder_main-returns}
use test_runner.Tests.{kernel, xkb, env}

abbrev given : ℕ → Bytes → GivenOption
given ch arg = record { ch = ch; optarg = some arg }

abbrev layouts : List GivenOption
layouts = given b'L' (codes "de") ∷ given b'l' (codes "host") ∷ given b'L' (codes "us") ∷ []

-- The last -L counts.
layouts-last :
    parse_options layouts default_options
    ≡ parsed (record {
      listen_addr = codes "host";
      xkb_cfg = record { rules = []; model = []; layout = codes "us"; variant = []; options = [] };
    })
unfolding parse_options server_option
layouts-last = refl

parse_options-described_example :
    parse_options layouts default_options
    ≡ described_result layouts default_options (first_ending layouts)
parse_options-described_example = parse_options-described layouts default_options

-- The thread of the snapshot recorder begins while the server serves.
abbrev begun : Option Process → Option Process
begun none = none
begun (some p) = run env (begins 5 ∷ []) p

abbrev session : Session
session = record {
  pipes = true;
  signal_fd = pos 3;
  serve = λ addr s k log. (record s { snapshot_recorder = begun s.snapshot_recorder }, log);
  env = env;
  now = 9;
  schedules = λ i. tests 9 ∷ buffer_tests ∷ buffer_finishes [] ∷ joins_buffer ∷ [];
}

served : (server_main session xkb (λ name. none) layouts kernel []).0 ≡ exit_success
unfolding server_main after_options server_session serve_until_signal parse_options server_option
    new_server snapshot_of new_recorder start run step begin_record destroy_server destroy_recorders
    destroy_recorder shut_down request_stop is_done finish_buffer close_after close_signal_pipe
served = refl

server_main-Releases_example :
    ((first_ending layouts ≡ some exit_success)
      × ((server_main session xkb (λ name. none) layouts kernel []).1 ≡ []))
    ⊎ ((session.pipes ≡ true)
        × Releases session.signal_fd
            (setup_devices kernel []).0
            (server_main session xkb (λ name. none) layouts kernel []).1)
server_main-Releases_example =
    server_main-Releases session (λ addr s k log. refl) xkb (λ name. none) layouts kernel [] served

abbrev record_options : List GivenOption
record_options = given b'f' (codes "run") ∷ given b'b' (codes "5") ∷ []

-- A strtol that knows one number.
abbrev strtol : Bytes → ℤ
strtol s = if bytes_eq s (codes "5") then pos 5 else pos 0

abbrev args : Args
args = record { filename = some (codes "run"); record_length = pos 5; continuous = false }

args_parsed : parse_args strtol record_options argument_defaults ≡ parsed args
unfolding parse_args recorder_option
args_parsed = refl

-- The recorder after Start(), and after its thread has begun.
abbrev fresh : Process
fresh = (recorder_of xkb args (codes "run") kernel []).0

abbrev started : Process
started = record fresh { recorder = record fresh.recorder { joinable = true }; worker = spawned }

fresh-starts : start fresh ≡ returned started
unfolding start new_recorder
fresh-starts = refl

sleeps :
    run env (begins 100 ∷ tests 101 ∷ []) started
    ≡ some (record (begin_record 100 started) { worker = selecting })
unfolding run step begin_record is_done new_recorder ◌-ℤ◌
sleeps = refl

recorder_main-returns_example :
    (stopping : List Action) × (recorder_main env
        (record { asleep = begins 100 ∷ tests 101 ∷ []; now = 10100; stopping = stopping })
        xkb
        strtol
        record_options
        kernel
        []
      ≡ (
        exit_success,
        logged
            (recorder_of xkb args (codes "run") kernel []).1
            (closes (recorder_of xkb args (codes "run") kernel []).0.recorder.available_devices),
      ))
recorder_main-returns_example =
    recorder_main-returns env xkb strtol record_options args (codes "run") kernel [] 100 10100
      (tests 101 ∷ []) started (record (begin_record 100 started) { worker = selecting })
      args_parsed refl fresh-starts sleeps
