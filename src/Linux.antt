-- ===== src/Linux.antt =====
-- The part of the Linux input ABI (linux/input.h, linux/input-event-codes.h, linux/uinput.h) that
-- the server and the recorder name: event types and codes, and the structs passed to the kernel.
use test_runner.Prelude.{ℕ, Bool, Bytes}
use test_runner.Prelude.Int.{ℤ}

-- `struct input_event` without its time, which the kernel fills in: two 16-bit words and an int.
pub record InputEvent : Type 0 where
  pub type : ℕ
  pub code : ℕ
  pub value : ℤ

-- `struct input_absinfo`.
pub record AbsInfo : Type 0 where
  pub value : ℤ
  pub minimum : ℤ
  pub maximum : ℤ
  pub fuzz : ℤ
  pub flat : ℤ
  pub resolution : ℤ

-- `struct uinput_setup`: the name and the id (bus type, vendor, product, version).
pub record UinputSetup : Type 0 where
  pub name : Bytes
  pub bustype : ℕ
  pub vendor : ℕ
  pub product : ℕ
  pub version : ℕ

-- `struct dirent`: whether d_type is DT_CHR, and d_name.
pub record Dirent : Type 0 where
  pub is_chr : Bool
  pub name : Bytes

-- The integer ioctls of uinput.
pub data UiBit : Type 0 where
  ui_set_evbit ui_set_keybit ui_set_relbit ui_set_absbit ui_set_propbit : UiBit

abbrev pub ev_syn : ℕ
ev_syn = 0

abbrev pub ev_key : ℕ
ev_key = 1

abbrev pub ev_rel : ℕ
ev_rel = 2

abbrev pub ev_abs : ℕ
ev_abs = 3

abbrev pub syn_report : ℕ
syn_report = 0

abbrev pub rel_x : ℕ
rel_x = 0

abbrev pub rel_y : ℕ
rel_y = 1

abbrev pub rel_z : ℕ
rel_z = 2

abbrev pub rel_hwheel : ℕ
rel_hwheel = 6

abbrev pub rel_wheel : ℕ
rel_wheel = 8

abbrev pub abs_x : ℕ
abs_x = 0

abbrev pub abs_y : ℕ
abs_y = 1

abbrev pub abs_mt_slot : ℕ
abs_mt_slot = 0x2f

abbrev pub abs_mt_position_x : ℕ
abs_mt_position_x = 0x35

abbrev pub abs_mt_position_y : ℕ
abs_mt_position_y = 0x36

abbrev pub abs_mt_tracking_id : ℕ
abs_mt_tracking_id = 0x39

abbrev pub key_esc : ℕ
key_esc = 1

abbrev pub key_max : ℕ
key_max = 0x2ff

abbrev pub btn_left : ℕ
btn_left = 0x110

abbrev pub btn_right : ℕ
btn_right = 0x111

abbrev pub btn_touch : ℕ
btn_touch = 0x14a

abbrev pub input_prop_direct : ℕ
input_prop_direct = 1

abbrev pub bus_virtual : ℕ
bus_virtual = 6

-- open(2) flags
abbrev pub o_rdonly : ℕ
o_rdonly = 0

abbrev pub o_wronly : ℕ
o_wronly = 1

abbrev pub o_nonblock : ℕ
o_nonblock = 0x800
