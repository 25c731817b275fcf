-- ===== src/Tests.antt =====
-- A concrete machine for the tests: a kernel, a keymap, an arithmetic and some states. The children
-- run the definitions on them and apply the theorems to them.
pub mod ProgramExamples
pub mod JsonValues
pub mod HealthExamples
pub mod ScreenshotExamples
pub mod ServerExamples
pub mod RecorderExamples
pub mod ClientExamples
use test_runner.Prelude.{
  ℕ, zero, suc, ◌+◌, ◌-◌, ◌*◌, ◌/◌, ◌%◌, ◌^◌, ◌≤◌, ◌<◌, ◌≡◌, refl, sym, ap, ◌∙◌, subst, ◌≢◌, ◌↔◌,
  ◌⊎◌, inl, inr, Bool, true, false, ◌&&◌, ◌||◌, not, Option, none, some, List, [], ◌∷◌, ◌++◌, map,
  arith, ltb, leb, ◌==◌, if◌then◌else◌, Bool-cases, Option-cases, Bytes, codes, bytes_eq, length,
  get_elem?, get_or, set, take, drop, All, All-append, length-append, length-set,
  get_elem?-set_self, get_elem?-set_ne,
}
use test_runner.Prelude.Int.{
  ℤ, pos, negsuc, pos_part, neg_part, sub_ℕ, ◌-ℤ◌, ◌≤ℤ◌, ltb_ℤ, eqb_ℤ, to_unsigned, to_signed,
  wrap_signed,
}
use test_runner.Linux.{AbsInfo, InputEvent, Dirent, UiBit, key_esc, ev_key, ev_abs}
use test_runner.Syscalls.{
  Call, open_file, close, opendir, closedir, ui_dev_setup, ui_abs_setup, ui_dev_create,
  ui_dev_destroy, eviocgname, eviocgbit, eviocgabs, ioctl_int, read, write, select, usleep, Reply,
  Log, Kernel,
}
use test_runner.Xkb.{Keymap, Xkb, RuleNames}
use test_runner.Recorder.{
  DeviceType, mouse, keyboard, touchscreen, multitouchscreen, unknown, Device, InputRecord,
  Recorder,
}
use test_runner.Recorder.Devices.{no_range}
use test_runner.Recorder.Mask.{full_mask}
use test_runner.Recorder.Touch.{Floats}
use test_runner.Recorder.Process.{
  Env, Process, Worker, BufferWorker, absent, spawned, testing, selecting, reading, draining, ended,
  no_buffer, looping, waiting, finishing, finished, Action, Reading,
}
use test_runner.Server.{Server}

-- Two event nodes, both keyboards; the n-th call of `open` returns n + 3.
abbrev opened : Log → ℕ
opened [] = 3
opened (open_file p f ∷ log) = suc (opened log)
opened (_ ∷ log) = opened log

abbrev pub kernel : Kernel
kernel log (open_file p f) = pos (opened log)
kernel log (opendir p) = some (
    record { is_chr = true; name = codes "event0" }
    ∷ record { is_chr = false; name = codes "by-id" }
    ∷ record { is_chr = true; name = codes "event1" }
    ∷ [])
kernel log (eviocgname fd n) = (pos 4, codes "kbd" ++ 0 ∷ [])
kernel log (eviocgbit fd e n) = (pos 1, 3 ∷ [])
kernel log (eviocgabs fd a old) = (pos 0, old)
kernel log (read fd) = (pos 24, record { type = ev_key; code = 30; value = pos 1 })
kernel log (select n fds) = (pos 0, [])
kernel log closedir = tt
kernel log (usleep n) = tt
kernel log (close fd) = pos 0
kernel log (ui_dev_setup fd u) = pos 0
kernel log (ui_abs_setup fd a b c) = pos 0
kernel log (ui_dev_create fd) = pos 0
kernel log (ui_dev_destroy fd) = pos 0
kernel log (ioctl_int fd b n) = pos 0
kernel log (write fd e) = pos 24

-- Key 30 types 97 at level 0 and 65 at level 1; no other key types anything.
abbrev keysyms : ℕ → ℕ → ℕ → List ℕ
keysyms code layout level = if code == 38 then if level == 0 then 97 ∷ [] else 65 ∷ [] else []

abbrev pub keymap : Keymap
keymap = record { num_layouts_for_key = λ code. 1; key_get_syms_by_level = keysyms }

abbrev pub xkb : Xkb
xkb = record {
  context_new = true;
  keymap_new_from_names = λ names. some keymap;
  state_new = λ km. true;
  keysym_from_name = λ name. if bytes_eq name (codes "a") then 97 else 0;
}

-- Fractions of natural numbers.
abbrev pub floats : Floats
floats = record {
  Double = ℕ × ℕ;
  of_int = λ z. (pos_part z, 1);
  is_positive = λ d. ltb 0 d.0;
  div = λ c d. (c.0 * d.1, c.1 * d.0);
  mul = λ c d. (c.0 * d.0, c.1 * d.1);
  to_int = λ d. pos (d.0 / d.1);
}

abbrev pub env : Env
env = record { floats = floats; one_sym = λ st code. code }

abbrev pub device_at : ℤ → DeviceType → Device
device_at fd type = record {
  fd = fd;
  name = codes "kbd";
  type = type;
  abs_range_x = no_range;
  abs_range_y = no_range;
}

abbrev pub event_at : ℕ → InputRecord
event_at ts = record {
  ts_abs = ts;
  dev_type = keyboard;
  input_type = ev_key;
  input_code = 30;
  input_val = pos 1;
  keysym = 97;
}

-- A recorder of five seconds with two devices, which has never run.
abbrev pub recorder : Recorder
recorder = record {
  available_devices = device_at (pos 3) keyboard ∷ device_at (pos 4) mouse ∷ [];
  input_buf = [];
  xkb_state = some [];
  filename = codes "/tmp/a.rrc";
  recording_path = codes "/tmp/a.rrc";
  stop = true;
  recording_length = 5000;
  continuous = false;
  start_time = 0;
  stop_time = 0;
  joinable = false;
  device_mask = full_mask;
}

abbrev pub idle : Process
idle = record {
  recorder = recorder;
  worker = absent;
  buffer_worker = no_buffer;
  selected = [];
  files = [];
}

-- The same recorder while it records, at a test of its loop or in select.
abbrev pub recording_at : Worker → Process
recording_at w = record idle {
  recorder = record recorder { stop = false; start_time = 1000; joinable = true };
  worker = w;
}

-- A continuous recorder whose thread has just been started.
abbrev pub fresh_continuous : Process
fresh_continuous = record idle {
  recorder = record recorder { continuous = true; joinable = true; filename = codes "a" };
  worker = spawned;
}

-- A continuous recorder at its end, with records of three times.
abbrev pub stopped_continuous : Recorder
stopped_continuous = record recorder {
  continuous = true;
  filename = codes "a";
  start_time = 1000;
  stop_time = 9000;
  input_buf = event_at 2000 ∷ event_at 4000 ∷ event_at 8000 ∷ [];
}

abbrev pub server : Server
server = record {
  device_fd = pos 5 ∷ pos 6 ∷ negsuc 0 ∷ pos 8 ∷ [];
  keymap = some keymap;
  snapshot_recorder = none;
  custom_recorders = idle ∷ [];
}
