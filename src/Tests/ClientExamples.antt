-- ===== src/Tests/ClientExamples.antt =====
-- The theorems on client/TestRunnerClient.cpp, applied to concrete states.
use test_runner.Prelude.{
  ℕ, zero, suc, ◌≡◌, refl, Bool, true, false, Option, none, some, [], map, arith, ◌==◌, Bytes,
  get_elem?,
}
use test_runner.Prelude.Int.{negsuc}
use test_runner.Syscalls.{Log}
use test_runner.Server.Input.{Request, handle}
use test_runner.Server.Input.Events.{written}
use test_runner.Client.{
  Client, Exchange, answered, disconnected, send, sent, connect, checked, wait_with_timeout,
  new_client, send_mouse_click, Command,
}
use test_runner.Client.Connection.{IsLinked, fresh, connected, called, Reachable-IsLinked}
use test_runner.Client.Delivery.{Delivers, events_for, device_of, send-writes}
use test_runner.Server.{Server}
use test_runner.Server.Recorders.{list_devices, set_devices, encode_device}
use test_runner.Recorder.Process.{Process}
use test_runner.Recorder.Mask.{devices_to_record}
use test_runner.Recorder.Mask.Choice.{requested}
use test_runner.Client.Requests.{request, request_over, finish, results, exception, value}
use test_runner.Client.Recorders.{
  ListedDevice, Channel, ask, ask_list, ask_set_devices, list_message, set_devices_message,
  snapshot_message, create_message, start_message, stop_message, active_message, receive_device,
}
use test_runner.Client.Recorders.Devices.{Serves, pick, ask_set_devices-ask_list}
use test_runner.Tests.{idle, kernel, xkb, server}

-- A runtime whose connections are numbers; connection 0 is broken.
abbrev deliver : ℕ → Request → Log → Exchange × Log
deliver zero r log = (disconnected, log)
deliver (suc n) r log = (answered, (handle xkb server r kernel log).1)

deliver-Delivers : Delivers xkb kernel server deliver
deliver-Delivers zero r log h = ground arith
deliver-Delivers (suc n) r log h = refl

abbrev dial : Bytes → Option ℕ
dial [] = some 0
dial _ = some 1

abbrev client : Client ℕ
client = record { conn = some 1; is_connected = true; last_server_ip = none }

-- -4294901759 is 1 modulo 2^16.
abbrev click : Command
click = send_mouse_click (negsuc 4294901758) true

click-sent : (send deliver client click []).0.0 ≡ sent
unfolding send checked wait_with_timeout
click-sent = refl

send-writes_example :
    (send deliver client click []).1
    ≡ written (device_of server click) [] (events_for xkb server click)
send-writes_example =
    send-writes xkb kernel server deliver client click [] deliver-Delivers click-sent

abbrev serve : Channel ℕ Server
serve conn (list_message index) s = (results (list_devices index s), s)
serve conn (set_devices_message index devices) s = (results tt, set_devices index devices s)
serve conn snapshot_message s = (exception false, s)
serve conn (create_message filename length' continuous) s = (exception false, s)
serve conn (start_message index) s = (exception false, s)
serve conn (stop_message index) s = (exception false, s)
serve conn (active_message index) s = (exception true, s)

serve-Serves : Serves serve
serve-Serves = record {
  list_results = λ conn index s r h. ground arith;
  list_state = λ conn index s r h. refl;
  set_state = λ conn index devices s u h. refl;
}

abbrev is_mouse : ListedDevice → Bool
is_mouse d = d.type == 0

listed :
    (ask serve client (ask_list 0) server).0.0
    ≡ value (map receive_device (map encode_device idle.recorder.available_devices))
unfolding ask request request_over finish list_devices
listed = refl

set-listed :
    (ask serve client
      (ask_set_devices 0
        (pick is_mouse (map receive_device (map encode_device idle.recorder.available_devices))))
      (ask serve client (ask_list 0) server).1).0.0
    ≡ value tt
unfolding ask request request_over finish
set-listed = refl

ask_set_devices-ask_list_example :
    (q : Process) × (get_elem?
        (ask serve client
          (ask_set_devices 0 (
            pick is_mouse (map receive_device (map encode_device idle.recorder.available_devices))))
          (ask serve client (ask_list 0) server).1).1.custom_recorders
        0
      ≡ some q)
    × (devices_to_record q.recorder
        ≡ requested
            (pick
              (λ a. is_mouse (receive_device (encode_device a)))
              idle.recorder.available_devices)
            idle.recorder.available_devices)
ask_set_devices-ask_list_example =
    ask_set_devices-ask_list serve serve-Serves client client 0 server idle
      (map receive_device (map encode_device idle.recorder.available_devices)) is_mouse refl
      (omega arith) ((omega arith, omega arith), ((omega arith, omega arith), tt))
      (
        ((ground arith, (ground arith, (ground arith, tt))), omega arith),
        (((ground arith, (ground arith, (ground arith, tt))), omega arith), tt),
      )
      listed set-listed

Reachable-IsLinked_example : IsLinked (send deliver (connect dial [] new_client) click []).0.1
Reachable-IsLinked_example =
    Reachable-IsLinked dial deliver _ (called click [] _ (connected [] new_client fresh))
