-- ===== src/Recorder.antt =====
-- recorder/TestRunnerRecorder.h: the data of the input recorder. The children model
-- recorder/TestRunnerRecorder.cpp: `Devices` the scan of the input directory, `Mask` the choice of
-- devices, `Touch` the coordinate transform, `Text` the file format, `Buffer` the rolling window,
-- `Process` the threads,
-- `Lifetime` the constructor and the destructor.
pub mod Mask
pub mod Devices
pub mod Touch
pub mod Text
pub mod Buffer
pub mod Process
pub mod Lifetime
use test_runner.Prelude.{
  ℕ, zero, suc, ◌+◌, ◌-◌, ◌*◌, ◌/◌, ◌%◌, ◌^◌, ◌≤◌, ◌<◌, ◌≡◌, refl, sym, ap, ◌∙◌, subst, ◌≢◌, ◌↔◌,
  ◌⊎◌, inl, inr, Bool, true, false, ◌&&◌, ◌||◌, not, Option, none, some, List, [], ◌∷◌, ◌++◌, map,
  arith, ltb, leb, ◌==◌, if◌then◌else◌, Bool-cases, Option-cases, Bytes, codes, bytes_eq, length,
  get_elem?, get_or, set, take, drop, All, All-append, length-append, length-set,
  get_elem?-set_self, get_elem?-set_ne,
}
use test_runner.Prelude.Int.{
  ℤ, pos, negsuc, pos_part, neg_part, sub_ℕ, ◌-ℤ◌, ◌≤ℤ◌, ltb_ℤ, eqb_ℤ, to_unsigned, to_signed,
  wrap_signed,
}
use test_runner.Linux.{AbsInfo}

-- `enum device_type`.
pub data DeviceType : Type 0 where
  mouse keyboard touchscreen multitouchscreen unknown : DeviceType

-- The enumerator's value, which is what the recording and the RPC carry.
abbrev pub device_code : DeviceType → ℕ
device_code mouse = 0
device_code keyboard = 1
device_code touchscreen = 2
device_code multitouchscreen = 3
device_code unknown = 4

-- `struct in_device_s`; the name is the C string that the buffer holds.
pub record Device : Type 0 where
  pub fd : ℤ
  pub name : Bytes
  pub type : DeviceType
  pub abs_range_x : AbsInfo
  pub abs_range_y : AbsInfo

-- `struct input_record_s`; times are milliseconds since the epoch.
pub record InputRecord : Type 0 where
  pub ts_abs : ℕ
  pub dev_type : DeviceType
  pub input_type : ℕ
  pub input_code : ℕ
  pub input_val : ℤ
  pub keysym : ℕ

-- The updates that an xkb_state has been given: keycode, and whether the key went down.
abbrev pub XkbState : Type 0
XkbState = List (ℕ × Bool)

-- `class TestRunnerRecorder`; `joinable` says whether m_recorder_thread holds a thread.
pub record Recorder : Type 0 where
  pub available_devices : List Device
  pub input_buf : List InputRecord
  pub xkb_state : Option XkbState
  pub filename : Bytes
  pub recording_path : Bytes
  pub stop : Bool
  pub recording_length : ℕ
  pub continuous : Bool
  pub start_time : ℕ
  pub stop_time : ℕ
  pub joinable : Bool
  pub device_mask : ℕ

-- What a call of a method does to its caller: it returns, throws, or std::terminate ends the
-- process. `blocked` is a join whose thread is not done under the given schedule.
pub data Outcome (A : Type 0) : Type 0 where
  returned : A → Outcome A
  threw terminated blocked : Outcome A
