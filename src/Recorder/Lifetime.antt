-- ===== src/Recorder/Lifetime.antt =====
-- The constructor and the destructor of TestRunnerRecorder, and its setup_xkb.
pub mod Choice
use test_runner.Prelude.{
  ℕ, ◌*◌, ◌%◌, ◌^◌, Bool, true, false, Option, none, some, List, [], ◌∷◌, ◌++◌, ◌==◌, if◌then◌else◌,
  Bytes, codes, length,
}
use test_runner.Syscalls.{close, Sys, ◌>>=◌, ◌>>◌, return, call}
use test_runner.Xkb.{Xkb, Keymap, RuleNames}
use test_runner.Recorder.{Device, XkbState, Outcome, returned, threw, terminated, blocked}
use test_runner.Recorder.Devices.{find_devices}
use test_runner.Recorder.Mask.{full_mask}
use test_runner.Recorder.Process.{
  Env, Action, Process, absent, no_buffer, request_stop, run, join_worker,
}

abbrev pub no_rules : RuleNames
no_rules = record { rules = none; model = none; layout = none; variant = none; options = none }

pub state_of : Xkb → Option Keymap → Option XkbState
state_of xkb none = none
state_of xkb (some keymap) = if xkb.state_new keymap then some [] else none

-- The xkb state of a new recorder, if libxkbcommon makes all three objects.
unfoldable pub setup_xkb : Xkb → Option XkbState
setup_xkb xkb = if xkb.context_new then state_of xkb (xkb.keymap_new_from_names no_rules) else none

-- The part of a path after its last slash, as std::filesystem::path::filename gives it.
unfoldable pub name_from : Bytes → Bytes → Bytes
name_from acc [] = acc
name_from acc (c ∷ s) = name_from (if c == b'/' then [] else acc ++ c ∷ []) s

unfoldable pub file_name : Bytes → Bytes
file_name path = name_from [] path

-- The names that the constructor sets: m_filename and m_recording_path.
unfoldable pub recording_names : Bytes → Bool → Bytes × Bytes
recording_names filename continuous =
    let path = codes "/tmp/" ++ (file_name filename ++ codes ".rrc") in
    if continuous then (filename, []) else (path, path)

-- The length in seconds becomes milliseconds in a uint32_t.
unfoldable pub new_recorder : Xkb → Bytes → ℕ → Bool → Bytes → Sys Process
new_recorder xkb filename length continuous input_directory = do
  devices ← find_devices input_directory
  return (record {
    recorder = record {
      available_devices = devices;
      input_buf = [];
      xkb_state = setup_xkb xkb;
      filename = (recording_names filename continuous).0;
      recording_path = (recording_names filename continuous).1;
      stop = true;
      recording_length = length * 1000 % 2 ^ 32;
      continuous = continuous;
      start_time = 0;
      stop_time = 0;
      joinable = false;
      device_mask = full_mask;
    };
    worker = absent;
    buffer_worker = no_buffer;
    selected = [];
    files = [];
  })

-- The end of the destructor.
unfoldable pub close_devices : List Device → Sys (Unit {0})
close_devices [] = return tt
close_devices (d ∷ ds) = do result ← call (close d.fd); close_devices ds

-- The middle of the destructor: a thread that is there is stopped and joined.
unfoldable pub shut_down : Env → ℕ → List Action → Process → Outcome (Bytes × Process)
shut_down env now schedule p =
    if p.recorder.joinable
    then join_worker (run env schedule (request_stop now p))
    else returned ([], p)

-- The whole destructor. A schedule on which the threads do not end leaves it blocked.
unfoldable pub destroy_recorder : Env → ℕ → List Action → Process → Sys (Outcome (Unit {0}))
destroy_recorder env now schedule p = elim (shut_down env now schedule p) [
  | returned (path, q) ↦ (do close_devices q.recorder.available_devices; return (returned tt))
  | threw ↦ return threw
  | terminated ↦ return terminated
  | blocked ↦ return blocked
]
