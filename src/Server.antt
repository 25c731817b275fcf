-- ===== src/Server.antt =====
-- server/TestRunnerServer.h: the state of the server, and getDeviceFd. The children model
-- server/TestRunnerServer.cpp: `Setup` the constructor's virtual devices and its keymap, `Keysym`
-- the search for a key code, `Input` the handlers of the Input interface, `Recorders` those of the
-- Recorder interface, `Lifetime` the constructor and the destructor.
pub mod Setup
pub mod Keysym
pub mod Input
pub mod Recorders
pub mod Lifetime
use test_runner.Prelude.{
  ℕ, zero, suc, ◌+◌, ◌-◌, ◌*◌, ◌/◌, ◌%◌, ◌^◌, ◌≤◌, ◌<◌, ◌≡◌, refl, sym, ap, ◌∙◌, subst, ◌≢◌, ◌↔◌,
  ◌⊎◌, inl, inr, Bool, true, false, ◌&&◌, ◌||◌, not, Option, none, some, List, [], ◌∷◌, ◌++◌, map,
  arith, ltb, leb, ◌==◌, if◌then◌else◌, Bool-cases, Option-cases, Bytes, codes, bytes_eq, length,
  get_elem?, get_or, set, take, drop, All, All-append, length-append, length-set,
  get_elem?-set_self, get_elem?-set_ne,
}
use test_runner.Prelude.Int.{
  ℤ, pos, negsuc, pos_part, neg_part, sub_ℕ, ◌-ℤ◌, ◌≤ℤ◌, ltb_ℤ, eqb_ℤ, to_unsigned, to_signed,
  wrap_signed,
}
use test_runner.Xkb.{Keymap}
use test_runner.Recorder.Process.{Process}

-- The indices of mDeviceFd, and their number.
abbrev pub virtual_mouse : ℕ
virtual_mouse = 0

abbrev pub virtual_keyboard : ℕ
virtual_keyboard = 1

abbrev pub virtual_touchscreen : ℕ
virtual_touchscreen = 2

abbrev pub virtual_multi_touchscreen : ℕ
virtual_multi_touchscreen = 3

abbrev pub max_devices : ℕ
max_devices = 4

abbrev pub max_custom_recorders : ℕ
max_custom_recorders = 20

-- `class TestRunnerServer`.
pub record Server : Type 0 where
  pub device_fd : List ℤ
  pub keymap : Option Keymap
  pub snapshot_recorder : Option Process
  pub custom_recorders : List Process

-- `mDeviceFd{-1, -1, -1, -1}`.
abbrev pub no_devices : List ℤ
no_devices = negsuc 0 ∷ negsuc 0 ∷ negsuc 0 ∷ negsuc 0 ∷ []

unfoldable pub get_device_fd : Server → ℕ → ℤ
get_device_fd s device =
    if ltb device max_devices then get_or s.device_fd device (negsuc 0) else negsuc 0
