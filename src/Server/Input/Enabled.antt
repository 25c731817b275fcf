-- ===== src/Server/Input/Enabled.antt =====
-- The handlers of the Input interface next to the constructor: for a request within the events of its
-- device, every event that is written is one that the device has been set up for. uinput drops the
-- others.
use test_runner.Prelude.{
  ℕ, ◌%◌, ◌^◌, ◌≡◌, refl, sym, subst, ◌⊎◌, inl, inr, Bool, true, false, not, Option, none, some,
  List, [], ◌∷◌, ◌++◌, arith, Bool-cases, All, All-append,
}
use test_runner.Prelude.Int.{ℤ, pos, ltb_ℤ, eqb_ℤ}
use test_runner.Linux.{
  InputEvent, ui_set_keybit, ev_key, ev_rel, ev_abs, key_esc, btn_left, btn_right, btn_touch, abs_x,
  abs_y, abs_mt_position_x, abs_mt_position_y, abs_mt_tracking_id,
}
use test_runner.Syscalls.{Call, ioctl_int, write, Log, Kernel}
use test_runner.Syscalls.Trace.{Called, Extends, same, added, Extends-trans}
use test_runner.Xkb.{Xkb}
use test_runner.Server.{Server, get_device_fd}
use test_runner.Server.Lifetime.{setup_devices}
use test_runner.Server.Lifetime.Asked.{Asked, mouse_bits, keyboard_bits, touch_bits}
use test_runner.Server.Lifetime.Ready.{AllReady, contact_axes, setup_devices-Ready}
use test_runner.Server.Input.{
  KeyChoice, raw_code, key_sym, key_name, SingleTouch, MultiTouch, Request, mouse_move, mouse_click,
  key_press, single_touch, multi_touch, pass_through, flag, handle,
}
use test_runner.Server.Input.Events.{
  event, sync, when, contact_events, contacts_events, touch_events, key_events, target, events_of,
  IsWord, OnWire, written, handle-writes,
}
use test_runner.Server.Input.Virtual.{Sends-lt}
use test_runner.Server.Input.Passed.{narrow-Enabled}
use test_runner.Server.Input.Supported.{
  Enabled, HasChoice, Supported, HasCode, evdev_code-HasCode, All-key_range, syncs, moves, keys,
  axes,
}

module _ (fd : ℤ) (log : Log) where
  when-Enabled : (b : Bool) (e : InputEvent) → Enabled fd log e → All (Enabled fd log) (when b e)
  when-Enabled true e h = (h, tt)
  when-Enabled false e h = tt

  mouse_move-Enabled :
      (x y : ℤ)
      → Asked fd log mouse_bits
      → All (Enabled fd log) (event ev_rel 0 x ∷ event ev_rel 1 y ∷ sync ∷ [])
  mouse_move-Enabled x y h = (moves h.0.0 h.1.0.0, (moves h.0.0 h.1.0.1.0, (syncs, tt)))

  click-Enabled :
      (btn : ℕ) (value : ℤ)
      → (btn ≡ btn_left) ⊎ (btn ≡ btn_right)
      → Asked fd log mouse_bits
      → All (Enabled fd log) (event ev_key (btn % 2 ^ 16) value ∷ sync ∷ [])
  click-Enabled btn value (inl e) h = rw e (keys h.1.1.0.0 h.1.1.1.0.0, (syncs, tt))
  click-Enabled btn value (inr e) h = rw e (keys h.1.1.0.0 h.1.1.1.0.1.0, (syncs, tt))

  key_events-Enabled :
      (pressed : Bool) (code : Option ℕ)
      → HasCode code
      → Asked fd log keyboard_bits
      → All (Enabled fd log) (key_events pressed code)
  key_events-Enabled pressed none c h = tt
  key_events-Enabled pressed (some code) c h =
      let narrow : code % 2 ^ 16 ≡ code = omega (arith, c.0, c.1) in
      rw narrow (
        keys h.0.0 (
            All-key_range (λ v. Called (ioctl_int fd ui_set_keybit v) log) _ key_esc code h.1.0 c.0
              (omega (arith, c.1))),
        (syncs, tt),
      )

  touch-Enabled :
      (t : SingleTouch)
      → Asked fd log (touch_bits (abs_x ∷ abs_y ∷ []))
      → All (Enabled fd log) (touch_events t)
  touch-Enabled t h =
      let P = Enabled fd log in
      let x = when (not (ltb_ℤ t.abs_x (pos 0))) (event ev_abs abs_x t.abs_x) in
      let y = when (not (ltb_ℤ t.abs_y (pos 0))) (event ev_abs abs_y t.abs_y) in
      let pressing = event ev_key btn_touch (flag t.pressed) ∷ sync ∷ [] in
      All-append P x (y ++ pressing) (when-Enabled _ _ (axes h.1.1.0.0 h.1.1.1.0.0)) (
        All-append P y pressing (when-Enabled _ _ (axes h.1.1.0.0 h.1.1.1.0.1.0))
          (keys h.0.0 h.1.0.0, (syncs, tt)))

  contact-Enabled :
      (t : MultiTouch)
      → Asked fd log (touch_bits contact_axes)
      → All (Enabled fd log) (contact_events t)
  contact-Enabled t h =
      let asked = h.1.1.1.0 in
      let abs = h.1.1.0.0 in
      let P = Enabled fd log in
      let id =
        when (not (eqb_ℤ t.tracking_id (pos 0))) (event ev_abs abs_mt_tracking_id t.tracking_id) in
      let x = when (not (ltb_ℤ t.tracking_id (pos 0))) (event ev_abs abs_mt_position_x t.abs_x) in
      let y = when (not (ltb_ℤ t.tracking_id (pos 0))) (event ev_abs abs_mt_position_y t.abs_y) in
      (
        axes abs asked.0,
        All-append P id (x ++ y) (when-Enabled _ _ (axes abs asked.1.0)) (
            All-append P x y (when-Enabled _ _ (axes abs asked.1.1.0))
              (when-Enabled _ _ (axes abs asked.1.1.1.0))),
      )

  contacts-Enabled :
      (ts : List MultiTouch)
      → Asked fd log (touch_bits contact_axes)
      → All (Enabled fd log) (contacts_events ts)
  contacts-Enabled [] h = tt
  contacts-Enabled (t ∷ ts) h =
      All-append (Enabled fd log) (contact_events t) (contacts_events ts) (contact-Enabled t h)
        (contacts-Enabled ts h)

-- A write of an event that the history has asked for.
abbrev pub IsEnabled : ℤ → Log → Call → Type 0
IsEnabled fd log c = (e : InputEvent) × (c ≡ write fd e) × Enabled fd log e

written-Extends :
    (fd : ℤ) (log : Log) (es : List InputEvent) (before : Log)
    → (ltb_ℤ fd (pos 0) ≡ true) ⊎ All (Enabled fd log) es
    → Extends (IsEnabled fd log) before (written fd before es)
written-Extends fd log [] before h = same
written-Extends fd log (e ∷ es) before (inl n) = rw n (written-Extends fd log es before (inl n))
written-Extends fd log (e ∷ es) before (inr h) = elim (Bool-cases (ltb_ℤ fd (pos 0))) [
  | inl n ↦ rw n (written-Extends fd log es before (inl n))
  | inr n ↦ rw n (
      Extends-trans (added same (e, refl, h.0))
        (written-Extends fd log es (write fd e ∷ before) (inr h.1)))
]

Supported-OnWire : (r : Request) → Supported r → OnWire r
Supported-OnWire (key_press k) h = choice-IsWord k.choice h
  where
    choice-IsWord : (c : KeyChoice) → HasChoice c → IsWord c
    choice-IsWord (raw_code code) h = omega (arith, h.0, h.1)
    choice-IsWord (key_sym sym) h = tt
    choice-IsWord (key_name name) h = tt
Supported-OnWire (pass_through p) h =
    let (t, c) = Sends-lt h in (omega (arith, t), omega (arith, c))
Supported-OnWire (mouse_move m) h = tt
Supported-OnWire (mouse_click m) h = tt
Supported-OnWire (single_touch t) h = tt
Supported-OnWire (multi_touch ts) h = tt

module _ (xkb : Xkb) (s : Server) (log : Log) where
  events_of-Enabled :
      (r : Request)
      → Supported r
      → AllReady s.device_fd log
      → (ltb_ℤ (get_device_fd s (target r)) (pos 0) ≡ true)
        ⊎ All (Enabled (get_device_fd s (target r)) log) (events_of xkb s r)
  unfolding get_device_fd
  events_of-Enabled (mouse_move m) h (inl n, _, _, _) = inl n
  events_of-Enabled (mouse_move m) h (inr a, _, _, _) =
      inr (mouse_move-Enabled _ log m.rel_x m.rel_y a)
  events_of-Enabled (mouse_click m) h (inl n, _, _, _) = inl n
  events_of-Enabled (mouse_click m) h (inr a, _, _, _) =
      inr (click-Enabled _ log m.btn (flag m.pressed) h a)
  events_of-Enabled (key_press k) h (_, inl n, _, _) = inl n
  events_of-Enabled (key_press k) h (_, inr a, _, _) =
      inr (key_events-Enabled _ log k.pressed _ (evdev_code-HasCode xkb s k.choice h) a)
  events_of-Enabled (single_touch t) h (_, _, inl n, _) = inl n
  events_of-Enabled (single_touch t) h (_, _, inr a, _) = inr (touch-Enabled _ log t a)
  events_of-Enabled (multi_touch ts) h (_, _, _, inl n) = inl n
  events_of-Enabled (multi_touch ts) h (_, _, _, inr a) = inr (
      All-append (Enabled _ log) (contacts_events ts) (sync ∷ []) (contacts-Enabled _ log ts a)
        (syncs, tt))
  events_of-Enabled (pass_through p) h ready = elim (narrow-Enabled s log p.value h ready) [
    | inl n ↦ inl n
    | inr e ↦ inr (e, tt)
  ]

-- The server's handlers fit its constructor, for requests within the events of their device: for a
-- server that holds the descriptors of setup_devices, every call that the handler of such a request
-- makes writes, to the request's device, an event that this device has been asked to send: a
-- synchronisation, or an event whose type and whose code were both enabled. Within the device are any
-- move, a click of the left or the right button, raw key codes from KEY_ESC up to KEY_MAX, which is not
-- among them, any keysym and any name of one, any touches, and of the pass-through a synchronisation
-- and what the device has: the mouse its five movements and two buttons, the keyboard those key
-- codes, the touchscreens the touch and their axes. Other clicks, codes and pass-throughs are written
-- unchecked, and nothing is said of them.
pub handle-Enabled :
    (xkb : Xkb) (k k' : Kernel) (log log' : Log) (s : Server) (r : Request)
    → s.device_fd ≡ (setup_devices k log).0
    → Supported r
    → Extends
        (IsEnabled (get_device_fd s (target r)) (setup_devices k log).1)
        log'
        (handle xkb s r k' log').1
handle-Enabled xkb k k' log log' s r d h =
    subst (Extends (IsEnabled (get_device_fd s (target r)) (setup_devices k log).1) log')
      (sym (handle-writes xkb k' log' s r (Supported-OnWire r h)))
      (written-Extends _ _ (events_of xkb s r) log' (
        events_of-Enabled xkb s (setup_devices k log).1 r h (
          subst (λ fds. AllReady fds (setup_devices k log).1) (sym d) (setup_devices-Ready k log))))
