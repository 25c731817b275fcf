-- ===== src/Server/Recorders.antt =====
-- The handlers of the Recorder interface. A handler returns its results and the server, or the
-- outcome of the recorder's method that did not return.
pub mod Life
pub mod Table
pub mod Create
use test_runner.Prelude.{
  ℕ, zero, suc, ◌+◌, ◌-◌, ◌*◌, ◌/◌, ◌%◌, ◌^◌, ◌≤◌, ◌<◌, ◌≡◌, refl, sym, ap, ◌∙◌, subst, ◌≢◌, ◌↔◌,
  ◌⊎◌, inl, inr, Bool, true, false, ◌&&◌, ◌||◌, not, Option, none, some, List, [], ◌∷◌, ◌++◌, map,
  arith, ltb, leb, ◌==◌, if◌then◌else◌, Bool-cases, Option-cases, Bytes, codes, bytes_eq, length,
  get_elem?, get_or, set, take, drop, All, All-append, length-append, length-set,
  get_elem?-set_self, get_elem?-set_ne,
}
use test_runner.Prelude.Int.{
  ℤ, pos, negsuc, pos_part, neg_part, sub_ℕ, ◌-ℤ◌, ◌≤ℤ◌, ltb_ℤ, eqb_ℤ, to_unsigned, to_signed,
  wrap_signed,
}
use test_runner.Syscalls.{Sys, ◌>>=◌, ◌>>◌, return, call}
use test_runner.Xkb.{Xkb}
use test_runner.Recorder.{
  DeviceType, mouse, keyboard, touchscreen, multitouchscreen, unknown, device_code, Device,
  Recorder, Outcome, returned, threw, terminated, blocked,
}
use test_runner.Recorder.Mask.{set_devices_to_record}
use test_runner.Recorder.Devices.{until_nul, c_name, no_range}
use test_runner.Recorder.Process.{Env, Action, Process, is_active, start, stop}
use test_runner.Recorder.Lifetime.{new_recorder}
use test_runner.Server.{Server, max_custom_recorders}

-- `struct InputDevice` of the schema: two unsigned words and a name.
pub record InputDevice : Type 0 where
  pub fd : ℕ
  pub name : Bytes
  pub type : ℕ

-- The index that stands for a refused recorder.
abbrev pub no_index : ℕ
no_index = 255

-- The snapshot recorder after Stop() and Start(), with the path that Stop() returned.
pub restart : Outcome (Bytes × Process) → Outcome (Bytes × Process)
restart (returned (path, p)) = elim (start p) [
  | returned q ↦ returned (path, q)
  | threw ↦ threw
  | terminated ↦ terminated
  | blocked ↦ blocked
]
restart threw = threw
restart terminated = terminated
restart blocked = blocked

abbrev pub with_snapshot : Server → Outcome (Bytes × Process) → Outcome (Bytes × Server)
with_snapshot s (returned (path, p)) = returned (path, record s { snapshot_recorder = some p })
with_snapshot s threw = threw
with_snapshot s terminated = terminated
with_snapshot s blocked = blocked

-- Without a snapshot recorder the handler goes through a null pointer, which ends the process.
unfoldable pub get_snapshot : Env → ℕ → List Action → Server → Outcome (Bytes × Server)
get_snapshot env now schedule s = elim s.snapshot_recorder [
  | none ↦ terminated
  | some p ↦ with_snapshot s (restart (stop env now schedule p))
]

-- filename.find('/') != npos
pub has_slash : Bytes → Bool
has_slash [] = false
has_slash (c ∷ s) = if c == b'/' then true else has_slash s

-- filename.find("..") != npos
pub has_dots : Bytes → Bool
has_dots [] = false
has_dots (c ∷ []) = false
has_dots (c ∷ d ∷ s) = if c == b'.' && d == b'.' then true else has_dots (d ∷ s)

pub create_checked : Xkb → Bytes → ℕ → Bool → Server → Sys (ℕ × Server)
create_checked xkb filename length' continuous s =
    if has_slash filename || has_dots filename
    then return (no_index, s)
    else if ltb (length s.custom_recorders) max_custom_recorders
    then (do
      p ← new_recorder xkb filename length' continuous (codes "/dev/input")
      return (
        (length (s.custom_recorders ++ p ∷ []) - 1) % 2 ^ 8,
        record s { custom_recorders = s.custom_recorders ++ p ∷ [] },
      ))
    else return (no_index, s)

-- The file name is cut at its first zero byte by cStr().
unfoldable pub create_custom_recorder : Xkb → Bytes → ℕ → Bool → Server → Sys (ℕ × Server)
create_custom_recorder xkb filename length' continuous s =
    create_checked xkb (until_nul filename) length' continuous s

-- A device on the wire.
unfoldable pub encode_device : Device → InputDevice
encode_device d = record {
  fd = to_unsigned (2 ^ 32) d.fd;
  name = d.name;
  type = device_code d.type;
}

-- `(device_type)n` for a code, and UNKNOWN from there on.
unfoldable pub decode_type : ℕ → DeviceType
decode_type n =
    if n == 0
    then mouse
    else if n == 1
    then keyboard
    else if n == 2
    then touchscreen
    else if n == 3
    then multitouchscreen
    else unknown

unfoldable pub decode_device : InputDevice → Device
decode_device d = record {
  fd = to_signed (2 ^ 32) d.fd;
  name = c_name d.name;
  type = decode_type d.type;
  abs_range_x = no_range;
  abs_range_y = no_range;
}

unfoldable pub list_devices : ℕ → Server → List InputDevice
list_devices index s = elim (get_elem? s.custom_recorders index) [
  | none ↦ []
  | some p ↦ map encode_device p.recorder.available_devices
]

abbrev pub with_recorder : Server → ℕ → Process → Server
with_recorder s index p = record s { custom_recorders = set s.custom_recorders index p }

unfoldable pub set_devices : ℕ → List InputDevice → Server → Server
set_devices index devices s = elim (get_elem? s.custom_recorders index) [
  | none ↦ s
  | some p ↦
      with_recorder s index
        (record p { recorder = set_devices_to_record (map decode_device devices) p.recorder })
]

unfoldable pub start_custom_recording : ℕ → Server → Outcome Server
start_custom_recording index s = elim (get_elem? s.custom_recorders index) [
  | none ↦ returned s
  | some p ↦ elim (start p) [
    | returned q ↦ returned (with_recorder s index q)
    | threw ↦ threw
    | terminated ↦ terminated
    | blocked ↦ blocked
  ]
]

-- An unknown index leaves the path at its default, the empty text.
unfoldable pub stop_custom_recording : Env → ℕ → List Action → ℕ → Server → Outcome (Bytes × Server)
stop_custom_recording env now schedule index s = elim (get_elem? s.custom_recorders index) [
  | none ↦ returned ([], s)
  | some p ↦ elim (stop env now schedule p) [
    | returned (path, q) ↦ returned (path, with_recorder s index q)
    | threw ↦ threw
    | terminated ↦ terminated
    | blocked ↦ blocked
  ]
]

unfoldable pub check_recorder_active : ℕ → Server → Bool
check_recorder_active index s = elim (get_elem? s.custom_recorders index) [
  | none ↦ false
  | some p ↦ is_active p.recorder
]
