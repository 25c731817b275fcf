-- ===== src/Recorder/Lifetime/Choice.antt =====
-- The choice of devices of a new recorder.
use test_runner.Prelude.{ℕ, ◌≤◌, ◌≡◌, Bool, arith, Bytes, length}
use test_runner.Syscalls.{Log, Kernel}
use test_runner.Xkb.{Xkb}
use test_runner.Recorder.Mask.{devices_to_record}
use test_runner.Recorder.Mask.Choice.{selected_from-ones}
use test_runner.Recorder.Lifetime.{new_recorder}

-- A new recorder records every device that its scan found, as long as there are at most 64.
pub devices_to_record-new_recorder :
    (xkb : Xkb) (filename : Bytes) (seconds : ℕ) (continuous : Bool) (dir : Bytes) (k : Kernel)
    (log : Log)
    → length (new_recorder xkb filename seconds continuous dir k log).0.recorder.available_devices
      ≤ 64
    → devices_to_record (new_recorder xkb filename seconds continuous dir k log).0.recorder
      ≡ (new_recorder xkb filename seconds continuous dir k log).0.recorder.available_devices
unfolding devices_to_record new_recorder
devices_to_record-new_recorder xkb filename seconds continuous dir k log h =
    selected_from-ones 64 _ 0 (omega arith) (omega arith)
