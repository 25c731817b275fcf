-- ===== src/Server/Lifetime/Asked.antt =====
-- What the constructor of the server asks uinput to enable on each of the virtual devices.
use test_runner.Prelude.{ℕ, ◌-◌, refl, List, [], ◌∷◌, All}
use test_runner.Prelude.Int.{ℤ}
use test_runner.Linux.{
  UiBit, ui_set_evbit, ui_set_keybit, ui_set_relbit, ui_set_absbit, ev_key, ev_rel, ev_abs, rel_x,
  rel_y, rel_z, rel_wheel, rel_hwheel, abs_x, abs_y, abs_mt_slot, abs_mt_tracking_id,
  abs_mt_position_x, abs_mt_position_y, key_esc, key_max, btn_left, btn_right, btn_touch,
}
use test_runner.Syscalls.{Call, ioctl_int, Log, Kernel}
use test_runner.Syscalls.Trace.{Extends, same, added, Extends-trans, Called, latest, Extends-Called}
use test_runner.Server.Setup.{
  uinput_capability_setup, capabilities, key_range, configure_mouse, configure_keyboard,
  configure_touchscreen, configure_multi_touchscreen,
}
use test_runner.Server.Lifetime.Descriptors.{NotOpen, capabilities-Extends, create_device-Extends}

-- The values that are asked for, by request.
abbrev pub Asked : ℤ → Log → List (UiBit × List ℕ) → Type 0
Asked fd log wanted = All (λ w. All (λ v. Called (ioctl_int fd w.0 v) log) w.1) wanted

-- The bits of an event type and of its codes.
abbrev pub type_bits : ℕ → UiBit → List ℕ → List (UiBit × List ℕ)
type_bits type codes_bit vs = (ui_set_evbit, type ∷ []) ∷ (codes_bit, vs) ∷ []

abbrev pub mouse_bits : List (UiBit × List ℕ)
mouse_bits =
    (ui_set_evbit, ev_rel ∷ [])
    ∷ (ui_set_relbit, rel_x ∷ rel_y ∷ rel_z ∷ rel_wheel ∷ rel_hwheel ∷ [])
    ∷ type_bits ev_key ui_set_keybit (btn_left ∷ btn_right ∷ [])

abbrev pub keyboard_bits : List (UiBit × List ℕ)
keyboard_bits = type_bits ev_key ui_set_keybit (key_range (key_max - key_esc) key_esc)

abbrev pub touch_bits : List ℕ → List (UiBit × List ℕ)
touch_bits axes =
    (ui_set_evbit, ev_key ∷ [])
    ∷ (ui_set_keybit, btn_touch ∷ [])
    ∷ type_bits ev_abs ui_set_absbit axes

values-Extends :
    {P : Call → Type 0} (fd : ℤ) (type : UiBit) (vs : List ℕ) {a b : Log}
    → Extends P a b
    → All (λ v. Called (ioctl_int fd type v) a) vs
    → All (λ v. Called (ioctl_int fd type v) b) vs
values-Extends fd type [] x h = tt
values-Extends fd type (v ∷ vs) x h = (Extends-Called x h.0, values-Extends fd type vs x h.1)

pub Asked-Extends :
    {P : Call → Type 0} (fd : ℤ) (wanted : List (UiBit × List ℕ)) {a b : Log}
    → Extends P a b
    → Asked fd a wanted
    → Asked fd b wanted
Asked-Extends fd [] x h = tt
Asked-Extends fd (w ∷ wanted) x h = (values-Extends fd w.0 w.1 x h.0, Asked-Extends fd wanted x h.1)

module _ (k : Kernel) (fd : ℤ) where
  capabilities-All :
      (type : UiBit) (vs : List ℕ) (log : Log)
      → All (λ v. Called (ioctl_int fd type v) (capabilities fd type vs k log).1) vs
  unfolding capabilities uinput_capability_setup
  capabilities-All type [] log = tt
  capabilities-All type (v ∷ vs) log = (
    Extends-Called (capabilities-Extends k fd type vs (ioctl_int fd type v ∷ log)) latest,
    capabilities-All type vs (ioctl_int fd type v ∷ log),
  )

  -- One bit, and the values that are asked for after it.
  next_bits-Asked :
      (type bits : UiBit) (v : ℕ) (vs : List ℕ) (wanted : List (UiBit × List ℕ)) (log : Log)
      {end : Log}
      → let after = (capabilities fd bits vs k (ioctl_int fd type v ∷ log)).1 in
        Extends NotOpen after end
        → Asked fd end wanted
        → Asked fd end ((type, v ∷ []) ∷ (bits, vs) ∷ wanted)
  next_bits-Asked type bits v vs wanted log x rest = (
    (
      Extends-Called
          (Extends-trans (capabilities-Extends k fd bits vs (ioctl_int fd type v ∷ log)) x) latest,
      tt,
    ),
    (values-Extends fd bits vs x (capabilities-All bits vs (ioctl_int fd type v ∷ log)), rest),
  )

  pub configure_keyboard-Asked :
      (log : Log) → Asked fd (configure_keyboard fd k log).1 keyboard_bits
  unfolding configure_keyboard uinput_capability_setup
  configure_keyboard-Asked log =
      next_bits-Asked ui_set_evbit ui_set_keybit ev_key (key_range (key_max - key_esc) key_esc) []
        log (Extends-trans (added same refl) (create_device-Extends k fd _)) tt

  pub configure_mouse-Asked : (log : Log) → Asked fd (configure_mouse fd k log).1 mouse_bits
  unfolding configure_mouse uinput_capability_setup
  configure_mouse-Asked log =
      let moves = rel_x ∷ rel_y ∷ rel_z ∷ rel_wheel ∷ rel_hwheel ∷ [] in
      let moved =
        (capabilities fd ui_set_relbit moves k (ioctl_int fd ui_set_evbit ev_rel ∷ log)).1 in
      let ends = Extends-trans (added same refl) (create_device-Extends k fd _) in
      next_bits-Asked ui_set_evbit ui_set_relbit ev_rel moves
        (type_bits ev_key ui_set_keybit (btn_left ∷ btn_right ∷ [])) log
        (Extends-trans (added same refl)
          (Extends-trans (capabilities-Extends k fd ui_set_keybit _ _) ends))
        (next_bits-Asked ui_set_evbit ui_set_keybit ev_key (btn_left ∷ btn_right ∷ []) [] moved ends
          tt)

  -- The part that the two touchscreens share, up to the calls of one of them.
  touch-Asked :
      (axes : List ℕ) (log : Log) {end : Log}
      → let pressed =
          (capabilities fd ui_set_keybit
            (btn_touch ∷ [])
            k
            (ioctl_int fd ui_set_evbit ev_key ∷ log)).1 in
        Extends NotOpen
          (capabilities fd ui_set_absbit axes k (ioctl_int fd ui_set_evbit ev_abs ∷ pressed)).1
          end
        → Asked fd end (touch_bits axes)
  touch-Asked axes log x =
      let pressed =
        (capabilities fd ui_set_keybit (btn_touch ∷ []) k
          (ioctl_int fd ui_set_evbit ev_key ∷ log)).1 in
      next_bits-Asked ui_set_evbit ui_set_keybit ev_key (btn_touch ∷ [])
        (type_bits ev_abs ui_set_absbit axes) log
        (Extends-trans (added same refl) (
          Extends-trans
            (capabilities-Extends k fd ui_set_absbit axes
              (ioctl_int fd ui_set_evbit ev_abs ∷ pressed))
            x))
        (next_bits-Asked ui_set_evbit ui_set_absbit ev_abs axes [] pressed x tt)

  pub configure_touchscreen-Asked :
      (log : Log) → Asked fd (configure_touchscreen fd k log).1 (touch_bits (abs_x ∷ abs_y ∷ []))
  unfolding configure_touchscreen uinput_capability_setup
  configure_touchscreen-Asked log = touch-Asked (abs_x ∷ abs_y ∷ []) log (
      Extends-trans (added (added (added (added same refl) refl) refl) refl)
        (create_device-Extends k fd _))

  pub configure_multi_touchscreen-Asked :
      (log : Log)
      → Asked fd (configure_multi_touchscreen fd k log).1 (
          touch_bits
            (abs_mt_slot ∷ abs_mt_tracking_id ∷ abs_mt_position_x ∷ abs_mt_position_y ∷ []))
  unfolding configure_multi_touchscreen uinput_capability_setup
  configure_multi_touchscreen-Asked log =
      touch-Asked (abs_mt_slot ∷ abs_mt_tracking_id ∷ abs_mt_position_x ∷ abs_mt_position_y ∷ [])
        log
        (Extends-trans (added (added (added (added (added same refl) refl) refl) refl) refl)
          (create_device-Extends k fd _))
