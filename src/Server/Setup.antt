-- ===== src/Server/Setup.antt =====
-- TestRunnerServer::setup_virtual_* and setup_xkb.
use test_runner.Prelude.{
  ℕ, zero, suc, ◌+◌, ◌-◌, Option, none, some, List, [], ◌∷◌, if◌then◌else◌, Bytes, codes, set,
}
use test_runner.Prelude.Int.{ℤ, pos, ltb_ℤ}
use test_runner.Linux.{
  UinputSetup, UiBit, ui_set_evbit, ui_set_keybit, ui_set_relbit, ui_set_absbit, ui_set_propbit,
  ev_key, ev_rel, ev_abs, rel_x, rel_y, rel_z, rel_wheel, rel_hwheel, abs_x, abs_y, abs_mt_slot,
  abs_mt_tracking_id, abs_mt_position_x, abs_mt_position_y, key_esc, key_max, btn_left, btn_right,
  btn_touch, input_prop_direct, bus_virtual, o_wronly,
}
use test_runner.Syscalls.{
  Call, open_file, ioctl_int, ui_dev_setup, ui_abs_setup, ui_dev_create, ui_dev_destroy, usleep,
  Sys, ◌>>=◌, ◌>>◌, return, call,
}
use test_runner.Xkb.{Xkb, Keymap}
use test_runner.Recorder.Touch.{virtual_multitouch_abs_x_max, virtual_multitouch_abs_y_max}
use test_runner.Server.{
  virtual_mouse, virtual_keyboard, virtual_touchscreen, virtual_multi_touchscreen,
}

-- A failure is only logged.
unfoldable pub uinput_capability_setup : ℤ → UiBit → ℕ → Sys (Unit {0})
uinput_capability_setup fd type val = do result ← call (ioctl_int fd type val); return tt

-- `for (const int i : enabled) uinput_capability_setup(fd, type, i);`
unfoldable pub capabilities : ℤ → UiBit → List ℕ → Sys (Unit {0})
capabilities fd type [] = return tt
capabilities fd type (v ∷ vs) = do uinput_capability_setup fd type v; capabilities fd type vs

-- `for (key = from; key < from + count; key++)`.
unfoldable pub key_range : ℕ → ℕ → List ℕ
key_range zero from = []
key_range (suc count) from = from ∷ key_range count (from + 1)

-- UI_DEV_CREATE, undone by UI_DEV_DESTROY where it fails, and the wait.
unfoldable pub create_device : ℤ → Sys (Unit {0})
create_device fd = do
  result ← call (ui_dev_create fd)
  if ltb_ℤ result (pos 0)
      then (do destroyed ← call (ui_dev_destroy fd); call (usleep 250000))
      else call (usleep 250000)

abbrev pub setup_of : Bytes → ℕ → UinputSetup
setup_of name product = record {
  name = name;
  bustype = bus_virtual;
  vendor = 0x23;
  product = product;
  version = 1;
}

-- `static_cast<void>` of a call whose failure is only logged.
abbrev pub ignore : (c : Call) → Sys (Unit {0})
ignore c = do result ← call c; return tt

-- What is done with the descriptor that `open` returned, when it is not negative.
unfoldable pub configure_mouse : ℤ → Sys (Unit {0})
configure_mouse fd = do
  uinput_capability_setup fd ui_set_evbit ev_rel
  capabilities fd ui_set_relbit (rel_x ∷ rel_y ∷ rel_z ∷ rel_wheel ∷ rel_hwheel ∷ [])
  uinput_capability_setup fd ui_set_evbit ev_key
  capabilities fd ui_set_keybit (btn_left ∷ btn_right ∷ [])
  ignore (ui_dev_setup fd (setup_of (codes "test_runner_mouse") 0x45))
  create_device fd

unfoldable pub configure_keyboard : ℤ → Sys (Unit {0})
configure_keyboard fd = do
  uinput_capability_setup fd ui_set_evbit ev_key
  capabilities fd ui_set_keybit (key_range (key_max - key_esc) key_esc)
  ignore (ui_dev_setup fd (setup_of (codes "test_runner_keyboard") 0x47))
  create_device fd

unfoldable pub configure_touchscreen : ℤ → Sys (Unit {0})
configure_touchscreen fd = do
  uinput_capability_setup fd ui_set_evbit ev_key
  capabilities fd ui_set_keybit (btn_touch ∷ [])
  uinput_capability_setup fd ui_set_evbit ev_abs
  capabilities fd ui_set_absbit (abs_x ∷ abs_y ∷ [])
  ignore (ioctl_int fd ui_set_propbit input_prop_direct)
  ignore (ui_dev_setup fd (setup_of (codes "test_runner_touchscreen") 0x46))
  ignore (ui_abs_setup fd abs_x 0 virtual_multitouch_abs_x_max)
  ignore (ui_abs_setup fd abs_y 0 virtual_multitouch_abs_y_max)
  create_device fd

unfoldable pub configure_multi_touchscreen : ℤ → Sys (Unit {0})
configure_multi_touchscreen fd = do
  uinput_capability_setup fd ui_set_evbit ev_key
  capabilities fd ui_set_keybit (btn_touch ∷ [])
  uinput_capability_setup fd ui_set_evbit ev_abs
  capabilities fd ui_set_absbit
      (abs_mt_slot ∷ abs_mt_tracking_id ∷ abs_mt_position_x ∷ abs_mt_position_y ∷ [])
  ignore (ioctl_int fd ui_set_propbit input_prop_direct)
  ignore (ui_dev_setup fd (setup_of (codes "test_runner_multi_touchscreen") 0x46))
  ignore (ui_abs_setup fd abs_mt_position_x 0 virtual_multitouch_abs_x_max)
  ignore (ui_abs_setup fd abs_mt_position_y 0 virtual_multitouch_abs_y_max)
  ignore (ui_abs_setup fd abs_mt_slot 0 4)
  create_device fd

-- The frame that the four functions share: open, keep the descriptor, and configure it if it is one.
unfoldable pub setup_device : ℕ → (ℤ → Sys (Unit {0})) → List ℤ → Sys (List ℤ)
setup_device index configure fds = do
  fd ← call (open_file (codes "/dev/uinput") o_wronly)
  if ltb_ℤ fd (pos 0)
      then return (set fds index fd)
      else (do configure fd; return (set fds index fd))

unfoldable pub setup_virtual_mouse : List ℤ → Sys (List ℤ)
setup_virtual_mouse = setup_device virtual_mouse configure_mouse

unfoldable pub setup_virtual_keyboard : List ℤ → Sys (List ℤ)
setup_virtual_keyboard = setup_device virtual_keyboard configure_keyboard

unfoldable pub setup_virtual_touchscreen : List ℤ → Sys (List ℤ)
setup_virtual_touchscreen = setup_device virtual_touchscreen configure_touchscreen

unfoldable pub setup_virtual_multi_touchscreen : List ℤ → Sys (List ℤ)
setup_virtual_multi_touchscreen = setup_device virtual_multi_touchscreen configure_multi_touchscreen

-- `struct XkbConfig`.
pub record XkbConfig : Type 0 where
  pub rules : Bytes
  pub model : Bytes
  pub layout : Bytes
  pub variant : Bytes
  pub options : Bytes

-- A configured value if it is not empty, and otherwise the environment's.
unfoldable pub env_or : (Bytes → Option Bytes) → Bytes → Bytes → Option Bytes
env_or getenv [] name = getenv name
env_or getenv (c ∷ val) name = some (c ∷ val)

-- The keymap that the server keeps. Without a context or a keymap it has none.
unfoldable pub setup_xkb : Xkb → (Bytes → Option Bytes) → XkbConfig → Option Keymap
setup_xkb xkb getenv cfg =
    if xkb.context_new
    then xkb.keymap_new_from_names (record {
      rules = env_or getenv cfg.rules (codes "XKB_DEFAULT_RULES");
      model = env_or getenv cfg.model (codes "XKB_DEFAULT_MODEL");
      layout = env_or getenv cfg.layout (codes "XKB_DEFAULT_LAYOUT");
      variant = env_or getenv cfg.variant (codes "XKB_DEFAULT_VARIANT");
      options = env_or getenv cfg.options (codes "XKB_DEFAULT_OPTIONS");
    })
    else none
