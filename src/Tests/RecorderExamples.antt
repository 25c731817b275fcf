-- ===== src/Tests/RecorderExamples.antt =====
-- The theorems on recorder/TestRunnerRecorder.cpp, applied to concrete states.
use test_runner.Prelude.{
  ℕ, ◌∙◌, ◌<◌, ◌*◌, ◌/◌, ap, ltb, length, ◌≤◌, ◌-◌, ◌≡◌, refl, ◌↔◌, true, false, ◌&&◌, some, List,
  [], ◌∷◌, ◌++◌, map, arith, Bytes, codes, All,
}
use test_runner.Prelude.Int.{◌-ℤ◌, pos, negsuc}
use Prim.Native.Nat.{max}
use native.Mathlib.Nat.{mul-le-mul}
use test_runner.Recorder.Touch.{x_axis, transform_touch_coordinates}
use test_runner.Recorder.Touch.Ieee.{Near, IsIeee}
use test_runner.Recorder.Touch.Bounds.{InRange, transform_touch_coordinates-InRange}
use test_runner.Linux.{ev_abs, ev_syn, ev_key, abs_mt_slot, abs_mt_tracking_id}
use test_runner.Syscalls.{logged}
use test_runner.Syscalls.Trace.{Extends}
use test_runner.Recorder.{Device, InputRecord, mouse, touchscreen, returned, terminated, blocked}
use test_runner.Recorder.Mask.{devices_to_record, set_devices_to_record}
use test_runner.Recorder.Mask.Choice.{requested, devices_to_record-set_devices}
use test_runner.Recorder.Devices.{no_range, classify, capability, find_devices}
use test_runner.Recorder.Devices.Found.{
  classify-touchscreen, NotClose, find_devices-close_devices, closes, IsFound, find_devices-IsFound,
}
use test_runner.Recorder.Lifetime.{close_devices}
use test_runner.Recorder.Text.{record_lines}
use test_runner.Recorder.Text.Reading.{entry_of, read_lines-record_lines}
use test_runner.Recorder.Text.Reader.{read_lines}
use test_runner.Recorder.Buffer.{trim, finish_buffer, rec_start_time, dump_path}
use test_runner.Recorder.Buffer.Window.{last, since, first_lines, trim-since, finish_buffer-window}
use test_runner.Recorder.Process.{
  Process, Action, absent, spawned, testing, selecting, ended, is_active, start, stop, step, tests,
  begins,
}
use test_runner.Recorder.Process.Invariant.{Reachable-IsWf, fresh}
use test_runner.Recorder.Process.WellFormed.{IsWf}
use test_runner.Recorder.Process.Stopping.{stop_returns}
use test_runner.Recorder.Process.Lost.{stop_lost}
use test_runner.Recorder.Process.Races.{
  start-expired, start-select_error, WithoutStop, at_once, starts,
}
use test_runner.Recorder.Lifetime.Choice.{devices_to_record-new_recorder}
use test_runner.Recorder.Lifetime.{new_recorder}
use test_runner.Recorder.Devices.{
  scan_opened, scan_entries, probe_entry, query_device, add_device, read_ranges, c_name, until_nul,
  starts_with_event,
}
use test_runner.Tests.{
  xkb, kernel, floats, env, device_at, event_at, recorder, idle, recording_at, fresh_continuous,
  stopped_continuous,
}

devices_to_record-set_devices_example :
    devices_to_record (set_devices_to_record (device_at (pos 4) mouse ∷ []) recorder)
    ≡ requested (device_at (pos 4) mouse ∷ []) recorder.available_devices
devices_to_record-set_devices_example =
    devices_to_record-set_devices recorder (device_at (pos 4) mouse ∷ []) (omega arith)

classify-touchscreen_example : (classify (11 ∷ []) (3 ∷ []) ≡ some touchscreen) ↔ (
    (capability (11 ∷ []) ev_abs ≡ true)
    × ((capability (3 ∷ []) abs_mt_slot && capability (3 ∷ []) abs_mt_tracking_id) ≡ false)
    × (capability (11 ∷ []) ev_syn ≡ true)
    × (capability (11 ∷ []) ev_key ≡ true))
classify-touchscreen_example = classify-touchscreen (11 ∷ []) (3 ∷ [])

find_devices-close_devices_example :
    Extends NotClose [] (find_devices (codes "/dev/input") kernel []).1
    × ((close_devices (find_devices (codes "/dev/input") kernel []).0 kernel []).1
        ≡ logged [] (closes (find_devices (codes "/dev/input") kernel []).0))
find_devices-close_devices_example = find_devices-close_devices (codes "/dev/input") kernel [] []

find_devices-IsFound_example : All IsFound (find_devices (codes "/dev/input") kernel []).0
find_devices-IsFound_example = find_devices-IsFound (codes "/dev/input") kernel []

abbrev three : List InputRecord
three = event_at 2000 ∷ event_at 4000 ∷ event_at 8000 ∷ []

read_lines-record_lines_example :
    read_lines 3 (record_lines three ++ []) ≡ some (map entry_of three, [])
read_lines-record_lines_example = read_lines-record_lines three []

trim-since_example : trim 2 (pos 3000) three ≡ last 2 (since (pos 3000) three)
trim-since_example =
    trim-since 2 (pos 3000) three ((omega arith, (omega arith, tt)), ((omega arith, tt), (tt, tt)))

finish_buffer-window_example : finish_buffer (codes "t") stopped_continuous ≡ (
  record stopped_continuous {
    input_buf = since (rec_start_time stopped_continuous) three;
    recording_path = dump_path (codes "t") stopped_continuous;
  },
  (
    dump_path (codes "t") stopped_continuous,
    first_lines (max 1000 (9000 - 5000))
        ++ record_lines (since (rec_start_time stopped_continuous) three),
  ),
)
finish_buffer-window_example =
    finish_buffer-window (codes "t") stopped_continuous
      ((omega arith, (omega arith, tt)), ((omega arith, tt), (tt, tt)))

recording_at-IsWf : IsWf (recording_at selecting)
recording_at-IsWf = record { thread = refl; fits = refl; seen = refl }

testing-IsWf : IsWf (recording_at testing)
testing-IsWf = record { thread = refl; fits = refl; seen = refl }

fresh_continuous-IsWf : IsWf fresh_continuous
fresh_continuous-IsWf = record { thread = refl; fits = (refl, refl); seen = refl }

Reachable-IsWf_example : IsWf idle
Reachable-IsWf_example = Reachable-IsWf {env = env} {p = idle} (fresh idle refl refl refl)

stop_returns_example :
    (schedule : List Action) × (path : Bytes) × (q : Process) × (stop env 3000 schedule
        (recording_at selecting)
      ≡ returned (path, q))
    × (q.worker ≡ absent)
    × (is_active q.recorder ≡ false)
stop_returns_example =
    stop_returns env 3000 (recording_at selecting) recording_at-IsWf (ground arith) (ground arith)

stop_lost_example : stop env 3000 (begins 3001 ∷ tests 3002 ∷ []) fresh_continuous ≡ blocked
stop_lost_example =
    stop_lost env 3000 (begins 3001 ∷ tests 3002 ∷ []) fresh_continuous fresh_continuous-IsWf refl
      refl (tt, (tt, tt))

start-expired_example :
    (q : Process) × (step env (tests 6000) (recording_at testing) ≡ some q)
    × (q.worker ≡ ended)
    × (is_active q.recorder ≡ false)
    × (start q ≡ terminated)
start-expired_example =
    start-expired env 6000 (recording_at testing) testing-IsWf refl refl refl (omega arith)

abbrev started : Process
started = record idle { recorder = record recorder { joinable = true }; worker = spawned }

start-idle : start idle ≡ returned started
unfolding start
start-idle = refl

abbrev failed : Process
failed = recording_at ended

failed_twice : WithoutStop env failed failed
unfolding start
failed_twice = starts (starts at_once refl) refl

start-select_error_example :
    (failed ≡ failed)
    × (is_active failed.recorder ≡ true)
    × (t : Process) × (stop env 3000 [] failed ≡ returned (failed.recorder.recording_path, t))
    × (is_active t.recorder ≡ false)
    × (t.recorder.joinable ≡ false)
unfolding step
start-select_error_example =
    start-select_error env 3000 (recording_at selecting) failed failed recording_at-IsWf refl refl
      refl refl failed_twice

two_found :
    length
      (new_recorder xkb
        (codes "a")
        5
        false
        (codes "/dev/input")
        kernel
        []).0.recorder.available_devices
    ≤ 64
unfolding new_recorder find_devices scan_opened scan_entries probe_entry query_device add_device
    read_ranges classify capability c_name until_nul starts_with_event
two_found = omega arith

devices_to_record-new_recorder_example :
    devices_to_record
      (new_recorder xkb (codes "a") 5 false (codes "/dev/input") kernel []).0.recorder
    ≡ (new_recorder xkb
        (codes "a")
        5
        false
        (codes "/dev/input")
        kernel
        []).0.recorder.available_devices
devices_to_record-new_recorder_example =
    devices_to_record-new_recorder xkb (codes "a") 5 false (codes "/dev/input") kernel [] two_found

-- The fractions of the test machine keep the laws of double: they are not rounded at all.
exactly : (n d : ℕ) → 0 < d → Near n d n d
exactly n d h = record { proper = h; above = omega arith; below = omega arith }

positive : (a b : ℕ) → 0 < a → 0 < b → 0 < a * b
positive a b h g = omega (arith, mul-le-mul h g)

-- The fraction n/d, in lowest terms or not.
abbrev IsFraction : ℕ × ℕ → ℕ → ℕ → Type 0
IsFraction x n d = (x ≡ (n, d)) × (0 < d)

product-IsFraction :
    (x y : ℕ × ℕ) (n d m e : ℕ)
    → IsFraction x n d
    → IsFraction y m e
    → (p : ℕ) × (q : ℕ) × IsFraction (x.0 * y.0, x.1 * y.1) p q × Near p q (n * m) (d * e)
product-IsFraction x y n d m e h g =
    let below = positive d e h.1 g.1 in
    (
      n * m,
      d * e,
      (ap (λ z. (z.0 * y.0, z.1 * y.1)) h.0 ∙ ap (λ z. (n * z.0, d * z.1)) g.0, below),
      exactly (n * m) (d * e) below,
    )

floats-IsIeee : IsIeee floats
floats-IsIeee = record {
  Is = IsFraction;
  of_int = λ n h. (refl, omega arith);
  is_positive = λ is. ap (λ x. ltb 0 x.0) is.0;
  div = λ {x} {y} {n} {d} {m} {e} h g p _.
      product-IsFraction x (y.1, y.0) n d e m h (ap (λ z. (z.1, z.0)) g.0, p);
  mul = λ {x} {y} {n} {d} {m} {e} h g _. product-IsFraction x y n d m e h g;
  to_int = λ is h h'. ap (λ x. pos (x.0 / x.1)) is.0;
}

-- A touchscreen from -100 to 900, touched at 400.
abbrev touched : Device
touched = record (device_at (pos 7) touchscreen) {
  abs_range_x = record no_range { minimum = negsuc 99; maximum = pos 900 };
}

transform_touch_coordinates-InRange_example :
    InRange (transform_touch_coordinates floats touched (pos 400) x_axis) 16000
unfolding ◌-ℤ◌
transform_touch_coordinates-InRange_example =
    transform_touch_coordinates-InRange floats floats-IsIeee touched x_axis (pos 400) (omega arith)
      (omega arith) (omega arith)
