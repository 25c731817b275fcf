-- ===== src/Server/Input/Virtual.antt =====
-- The events that the virtual devices have, device by device, for Input.passThrough.
use test_runner.Prelude.{ℕ, ◌^◌, ◌≤◌, ◌<◌, List, [], ◌∷◌, arith, All}
use test_runner.Linux.{
  ev_syn, ev_key, ev_rel, ev_abs, syn_report, rel_x, rel_y, rel_z, rel_wheel, rel_hwheel, abs_x,
  abs_y, abs_mt_slot, abs_mt_tracking_id, abs_mt_position_x, abs_mt_position_y, key_esc, key_max,
  btn_left, btn_right, btn_touch,
}
use test_runner.Server.{
  virtual_mouse, virtual_keyboard, virtual_touchscreen, virtual_multi_touchscreen,
}

-- The keyboard has the codes from KEY_ESC up to KEY_MAX, which it lacks.
abbrev pub HasKey : ℕ → Type 0
HasKey code = (key_esc ≤ code) × (code < key_max)

pub data IsOneOf (code : ℕ) : List ℕ → Type 0 where
  first : {codes : List ℕ} → IsOneOf code (code ∷ codes)
  later : {other : ℕ} {codes : List ℕ} → IsOneOf code codes → IsOneOf code (other ∷ codes)

pub IsOneOf-All :
    (P : ℕ → Type 0) {code : ℕ} (codes : List ℕ) → IsOneOf code codes → All P codes → P code
IsOneOf-All P codes first h = h.0
IsOneOf-All P (c ∷ codes) (later m) h = IsOneOf-All P codes m h.1

-- The device, the type and the code of an event.
pub data Sends : ℕ → ℕ → ℕ → Type 0 where
  synchronises : {device : ℕ} → Sends device ev_syn syn_report
  mouse_moves :
      {code : ℕ}
      → IsOneOf code (rel_x ∷ rel_y ∷ rel_z ∷ rel_wheel ∷ rel_hwheel ∷ [])
      → Sends virtual_mouse ev_rel code
  mouse_clicks :
      {code : ℕ} → IsOneOf code (btn_left ∷ btn_right ∷ []) → Sends virtual_mouse ev_key code
  types : {code : ℕ} → HasKey code → Sends virtual_keyboard ev_key code
  touches : Sends virtual_touchscreen ev_key btn_touch
  places : {code : ℕ} → IsOneOf code (abs_x ∷ abs_y ∷ []) → Sends virtual_touchscreen ev_abs code
  multi_touches : Sends virtual_multi_touchscreen ev_key btn_touch
  multi_places :
      {code : ℕ}
      → IsOneOf code (abs_mt_slot ∷ abs_mt_tracking_id ∷ abs_mt_position_x ∷ abs_mt_position_y ∷ [])
      → Sends virtual_multi_touchscreen ev_abs code

pub Sends-lt : {device type code : ℕ} → Sends device type code → (type < 2 ^ 16) × (code < 2 ^ 16)
Sends-lt synchronises = (omega arith, omega arith)
Sends-lt (mouse_moves m) = (
  omega arith,
  IsOneOf-All (λ c. c < 2 ^ 16) _ m
      (omega arith, (omega arith, (omega arith, (omega arith, (omega arith, tt))))),
)
Sends-lt (mouse_clicks m) =
    (omega arith, IsOneOf-All (λ c. c < 2 ^ 16) _ m (omega arith, (omega arith, tt)))
Sends-lt (types h) = (omega arith, omega (arith, h.1))
Sends-lt touches = (omega arith, omega arith)
Sends-lt (places m) =
    (omega arith, IsOneOf-All (λ c. c < 2 ^ 16) _ m (omega arith, (omega arith, tt)))
Sends-lt multi_touches = (omega arith, omega arith)
Sends-lt (multi_places m) = (
  omega arith,
  IsOneOf-All (λ c. c < 2 ^ 16) _ m (omega arith, (omega arith, (omega arith, (omega arith, tt)))),
)
