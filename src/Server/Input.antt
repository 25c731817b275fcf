-- ===== src/Server/Input.antt =====
-- The handlers of the Input interface, and TestRunnerServer::emit.
pub mod Virtual
pub mod Passed
pub mod Supported
pub mod Enabled
pub mod Events
use test_runner.Prelude.{
  ℕ, zero, suc, ◌+◌, ◌-◌, ◌*◌, ◌/◌, ◌%◌, ◌^◌, ◌≤◌, ◌<◌, ◌≡◌, refl, sym, ap, ◌∙◌, subst, ◌≢◌, ◌↔◌,
  ◌⊎◌, inl, inr, Bool, true, false, ◌&&◌, ◌||◌, not, Option, none, some, List, [], ◌∷◌, ◌++◌, map,
  arith, ltb, leb, ◌==◌, if◌then◌else◌, Bool-cases, Option-cases, Bytes, codes, bytes_eq, length,
  get_elem?, get_or, set, take, drop, All, All-append, length-append, length-set,
  get_elem?-set_self, get_elem?-set_ne,
}
use test_runner.Prelude.Int.{
  ℤ, pos, negsuc, pos_part, neg_part, sub_ℕ, ◌-ℤ◌, ◌≤ℤ◌, ltb_ℤ, eqb_ℤ, to_unsigned, to_signed,
  wrap_signed,
}
use test_runner.Linux.{
  InputEvent, ev_syn, ev_key, ev_rel, ev_abs, syn_report, rel_x, rel_y, abs_x, abs_y, abs_mt_slot,
  abs_mt_position_x, abs_mt_position_y, abs_mt_tracking_id, btn_touch,
}
use test_runner.Syscalls.{Call, write, Sys, ◌>>=◌, ◌>>◌, return, call}
use test_runner.Xkb.{Xkb, no_symbol}
use test_runner.Recorder.Devices.{until_nul}
use test_runner.Server.{
  Server, get_device_fd, virtual_mouse, virtual_keyboard, virtual_touchscreen,
  virtual_multi_touchscreen,
}
use test_runner.Server.Keysym.{resolve_keysym}

-- The structs of capnp/test_runner.capnp.
pub record MouseMove : Type 0 where
  pub rel_x : ℤ
  pub rel_y : ℤ

pub record MouseClick : Type 0 where
  pub btn : ℕ
  pub pressed : Bool

pub data KeyChoice : Type 0 where
  raw_code key_sym : ℕ → KeyChoice
  key_name : Bytes → KeyChoice

pub record KeyPress : Type 0 where
  pub pressed : Bool
  pub choice : KeyChoice

pub record SingleTouch : Type 0 where
  pub abs_x : ℤ
  pub abs_y : ℤ
  pub pressed : Bool

pub record MultiTouch : Type 0 where
  pub slot : ℤ
  pub tracking_id : ℤ
  pub abs_x : ℤ
  pub abs_y : ℤ

pub record PassThrough : Type 0 where
  pub device : ℕ
  pub type : ℕ
  pub code : ℕ
  pub value : ℤ

abbrev pub flag : Bool → ℤ
flag true = pos 1
flag false = pos 0

-- The event written: type and code are 16-bit fields.
abbrev pub event_of : ℤ → ℤ → ℤ → InputEvent
event_of type code val = record {
  type = to_unsigned (2 ^ 16) type;
  code = to_unsigned (2 ^ 16) code;
  value = val;
}

-- A negative descriptor writes nothing; a failed write is only logged.
unfoldable pub emit : ℤ → ℤ → ℤ → ℤ → Sys (Unit {0})
emit fd type code val =
    if ltb_ℤ fd (pos 0)
    then return tt
    else (do result ← call (write fd (event_of type code val)); return tt)

unfoldable pub handle_mouse_move : Server → MouseMove → Sys (Unit {0})
handle_mouse_move s m = do
  emit (get_device_fd s virtual_mouse) (pos ev_rel) (pos rel_x) m.rel_x
  emit (get_device_fd s virtual_mouse) (pos ev_rel) (pos rel_y) m.rel_y
  emit (get_device_fd s virtual_mouse) (pos ev_syn) (pos syn_report) (pos 0)

unfoldable pub handle_mouse_click : Server → MouseClick → Sys (Unit {0})
handle_mouse_click s m = do
  emit (get_device_fd s virtual_mouse) (pos ev_key) (pos m.btn) (flag m.pressed)
  emit (get_device_fd s virtual_mouse) (pos ev_syn) (pos syn_report) (pos 0)

-- The code to press; `none` where the handler returns early. A name is handed on as a C string.
abbrev pub nonzero : ℕ → Option ℕ
nonzero n = if n == 0 then none else some n

unfoldable pub evdev_code : Xkb → Server → KeyChoice → Option ℕ
evdev_code xkb s (raw_code code) = some code
evdev_code xkb s (key_sym sym) = nonzero (resolve_keysym s.keymap sym)
evdev_code xkb s (key_name name) =
    let sym = xkb.keysym_from_name (until_nul name) in
    if sym == no_symbol then none else nonzero (resolve_keysym s.keymap sym)

pub press_code : Server → Bool → Option ℕ → Sys (Unit {0})
press_code s pressed none = return tt
press_code s pressed (some code) = do
  emit (get_device_fd s virtual_keyboard) (pos ev_key) (to_signed (2 ^ 32) code) (flag pressed)
  emit (get_device_fd s virtual_keyboard) (pos ev_syn) (pos syn_report) (pos 0)

unfoldable pub handle_key_press : Xkb → Server → KeyPress → Sys (Unit {0})
unfolding evdev_code press_code
handle_key_press xkb s k = press_code s k.pressed (evdev_code xkb s k.choice)

-- `if (test) emit(…);`
abbrev pub emit_if : Bool → ℤ → ℤ → ℤ → ℤ → Sys (Unit {0})
emit_if true fd type code val = emit fd type code val
emit_if false fd type code val = return tt

unfoldable pub handle_single_touch : Server → SingleTouch → Sys (Unit {0})
handle_single_touch s t = do
  emit_if (not (ltb_ℤ t.abs_x (pos 0))) (get_device_fd s virtual_touchscreen) (pos ev_abs)
      (pos abs_x) t.abs_x
  emit_if (not (ltb_ℤ t.abs_y (pos 0))) (get_device_fd s virtual_touchscreen) (pos ev_abs)
      (pos abs_y) t.abs_y
  emit (get_device_fd s virtual_touchscreen) (pos ev_key) (pos btn_touch) (flag t.pressed)
  emit (get_device_fd s virtual_touchscreen) (pos ev_syn) (pos syn_report) (pos 0)

-- One contact of the loop.
unfoldable pub emit_contact : ℤ → MultiTouch → Sys (Unit {0})
emit_contact fd t = do
  emit fd (pos ev_abs) (pos abs_mt_slot) t.slot
  emit_if (not (eqb_ℤ t.tracking_id (pos 0))) fd (pos ev_abs) (pos abs_mt_tracking_id) t.tracking_id
  emit_if (not (ltb_ℤ t.tracking_id (pos 0))) fd (pos ev_abs) (pos abs_mt_position_x) t.abs_x
  emit_if (not (ltb_ℤ t.tracking_id (pos 0))) fd (pos ev_abs) (pos abs_mt_position_y) t.abs_y

pub emit_contacts : ℤ → List MultiTouch → Sys (Unit {0})
unfolding emit_contact
emit_contacts fd [] = return tt
emit_contacts fd (t ∷ ts) = do emit_contact fd t; emit_contacts fd ts

unfoldable pub handle_multi_touch : Server → List MultiTouch → Sys (Unit {0})
unfolding emit_contacts
handle_multi_touch s ts = do
  emit_contacts (get_device_fd s virtual_multi_touchscreen) ts
  emit (get_device_fd s virtual_multi_touchscreen) (pos ev_syn) (pos syn_report) (pos 0)

-- The three unsigned fields come off the wire as uint32_t and are cast to int.
unfoldable pub handle_pass_through : Server → PassThrough → Sys (Unit {0})
handle_pass_through s p =
    emit (get_device_fd s p.device) (to_signed (2 ^ 32) p.type) (to_signed (2 ^ 32) p.code) p.value

-- The six methods of the interface, and their dispatch.
pub data Request : Type 0 where
  mouse_move : MouseMove → Request
  mouse_click : MouseClick → Request
  key_press : KeyPress → Request
  single_touch : SingleTouch → Request
  multi_touch : List MultiTouch → Request
  pass_through : PassThrough → Request

unfoldable pub handle : Xkb → Server → Request → Sys (Unit {0})
unfolding handle_mouse_move handle_mouse_click handle_key_press handle_single_touch
    handle_multi_touch handle_pass_through
handle xkb s (mouse_move m) = handle_mouse_move s m
handle xkb s (mouse_click m) = handle_mouse_click s m
handle xkb s (key_press k) = handle_key_press xkb s k
handle xkb s (single_touch t) = handle_single_touch s t
handle xkb s (multi_touch ts) = handle_multi_touch s ts
handle xkb s (pass_through p) = handle_pass_through s p
