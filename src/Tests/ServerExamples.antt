-- ===== src/Tests/ServerExamples.antt =====
-- The theorems on server/TestRunnerServer.cpp, applied to concrete states.
use test_runner.Prelude.{
  ◌≡◌, refl, ◌⊎◌, true, some, List, [], ◌∷◌, ◌++◌, map, arith, codes, length, get_elem?,
}
use test_runner.Prelude.Int.{pos}
use test_runner.Syscalls.{logged}
use test_runner.Recorder.{Device, keyboard, mouse, returned}
use test_runner.Recorder.Mask.{devices_to_record}
use test_runner.Recorder.Mask.Choice.{requested}
use test_runner.Recorder.Process.{Process, spawned, start}
use test_runner.Server.{Server, get_device_fd, virtual_keyboard}
use test_runner.Syscalls.Trace.{Extends}
use test_runner.Server.Input.Enabled.{IsEnabled, handle-Enabled}
use test_runner.Server.Keysym.{
  resolve_keysym, has_sym, layouts_have, key_types, search_codes, search_levels,
}
use test_runner.Server.Keysym.Search.{Resolved, resolve_keysym-Resolved}
use test_runner.Server.Input.{Request, key_press, key_name, handle}
use test_runner.Server.Input.Events.{written, events_of, handle-writes}
use test_runner.Server.Recorders.{
  encode_device, decode_device, set_devices, start_custom_recording, create_custom_recorder,
}
use test_runner.Server.Recorders.Create.{Accepts, Refuses, create_custom_recorder-Accepts}
use test_runner.Server.Recorders.Table.{decode_device-encode_device, set_devices-chooses}
use test_runner.Server.Recorders.Life.{Serves, waits, creates, starts, IsSound, no_recorder}
use test_runner.Server.Recorders.Life.Course.{Serves-IsSound}
use test_runner.Server.Recorders.Life.Indices.{Named, Serves-Named}
use test_runner.Server.Lifetime.{setup_devices, close_input_devices}
use test_runner.Server.Lifetime.Descriptors.{opens, teardown, setup_devices-close_input_devices}
use test_runner.Recorder.Devices.{until_nul}
use test_runner.Tests.{kernel, keymap, xkb, env, device_at, idle, server}

-- The text "a" with Shift is key 30, found at level 0.
abbrev typing : Request
typing = key_press (record { pressed = true; choice = key_name (codes "a") })

resolve_keysym-level0 : resolve_keysym (some keymap) 97 ≡ 30
unfolding resolve_keysym search_levels search_codes key_types layouts_have has_sym
resolve_keysym-level0 = refl

resolve_keysym-level1 : resolve_keysym (some keymap) 65 ≡ 30
unfolding resolve_keysym search_levels search_codes key_types layouts_have has_sym
resolve_keysym-level1 = refl

resolve_keysym-Resolved_example : Resolved keymap 65 (resolve_keysym (some keymap) 65)
resolve_keysym-Resolved_example = resolve_keysym-Resolved keymap 65

handle-writes_example :
    (handle xkb server typing kernel []).1
    ≡ written (get_device_fd server virtual_keyboard) [] (events_of xkb server typing)
handle-writes_example = handle-writes xkb kernel [] server typing tt

decode_device-encode_device_example :
    decode_device (encode_device (device_at (pos 3) keyboard)) ≡ device_at (pos 3) keyboard
decode_device-encode_device_example =
    decode_device-encode_device (device_at (pos 3) keyboard) (omega arith, omega arith)
      ((ground arith, (ground arith, (ground arith, tt))), omega arith)

abbrev chosen : List Device
chosen = device_at (pos 4) mouse ∷ []

set_devices-chooses_example :
    (q : Process) × (get_elem? (set_devices 0 (map encode_device chosen) server).custom_recorders 0
      ≡ some q)
    × (devices_to_record q.recorder ≡ requested chosen idle.recorder.available_devices)
set_devices-chooses_example =
    set_devices-chooses 0 chosen server idle refl (omega arith) ((omega arith, omega arith), tt)

create_custom_recorder-Accepts_example :
    let r = (create_custom_recorder xkb (codes "run") 5 true server kernel []).0 in
    Refuses (until_nul (codes "run")) server r ⊎ Accepts true (codes "t") server r
create_custom_recorder-Accepts_example =
    create_custom_recorder-Accepts xkb kernel [] (codes "run") 5 true (codes "t") server
      (ground arith, tt)

setup_devices-close_input_devices_example :
    (length (setup_devices kernel []).0 ≡ 4)
    × (opens kernel (setup_devices kernel []).1 ≡ opens kernel [] ++ (setup_devices kernel []).0)
    × ((close_input_devices (setup_devices kernel []).0 kernel []).1
        ≡ logged [] (teardown (setup_devices kernel []).0))
setup_devices-close_input_devices_example = setup_devices-close_input_devices kernel [] []

-- A server with the descriptors of its constructor.
abbrev set_up : Server
set_up = record server { device_fd = (setup_devices kernel []).0 }

handle-Enabled_example :
    Extends
      (IsEnabled (get_device_fd set_up virtual_keyboard) (setup_devices kernel []).1)
      []
      (handle xkb set_up typing kernel []).1
handle-Enabled_example = handle-Enabled xkb kernel kernel [] [] set_up typing refl tt

-- The recorder of index 0 is started, and another one is created.
abbrev started_server : Server
started_server = record server {
  custom_recorders =
      record idle { recorder = record idle.recorder { joinable = true }; worker = spawned } ∷ [];
}

started_first : start_custom_recording 0 server ≡ returned started_server
unfolding start_custom_recording start
started_first = refl

server-IsSound : IsSound server
server-IsSound = record {
  few = omega arith;
  custom = (record { thread = refl; fits = refl; seen = refl }, tt);
  snapshot = no_recorder;
}

abbrev grown : Server
grown = (create_custom_recorder xkb (codes "run") 5 true started_server kernel []).0.1

served_calls : Serves env xkb server grown
served_calls = creates (starts waits 0 started_first) kernel [] (codes "run") 5 true

Serves-IsSound_example : IsSound grown
Serves-IsSound_example =
    Serves-IsSound {env = env} {xkb = xkb} {s = server} server-IsSound served_calls

Serves-Named_example : Named idle 0 grown
Serves-Named_example =
    Serves-Named {env = env} {xkb = xkb} {s = server} 0 idle server-IsSound refl served_calls
