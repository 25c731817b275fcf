-- ===== src/Server/Lifetime/Ready.antt =====
-- The virtual devices after the whole constructor.
use test_runner.Prelude.{
  ℕ, ◌≡◌, refl, sym, ap, ◌∙◌, subst, ◌⊎◌, inl, inr, List, [], ◌∷◌, true, Bool-cases, codes, set,
  get_or,
}
use test_runner.Prelude.Int.{ℤ, pos, negsuc, ltb_ℤ}
use test_runner.Linux.{
  UiBit, o_wronly, abs_x, abs_y, abs_mt_slot, abs_mt_tracking_id, abs_mt_position_x,
  abs_mt_position_y,
}
use test_runner.Syscalls.{open_file, Sys, Log, Kernel}
use test_runner.Syscalls.Trace.{Extends, same, added, Extends-trans, Grows, Extends-Grows}
use test_runner.Server.{
  virtual_mouse, virtual_keyboard, virtual_touchscreen, virtual_multi_touchscreen, no_devices,
}
use test_runner.Server.Setup.{
  configure_mouse, configure_keyboard, configure_touchscreen, configure_multi_touchscreen,
  setup_device, setup_virtual_mouse, setup_virtual_keyboard, setup_virtual_touchscreen,
  setup_virtual_multi_touchscreen,
}
use test_runner.Server.Lifetime.{setup_devices}
use test_runner.Server.Lifetime.Descriptors.{
  NotOpen, configure_mouse-Extends, configure_keyboard-Extends, configure_touchscreen-Extends,
  configure_multi_touchscreen-Extends,
}
use test_runner.Server.Lifetime.Asked.{
  Asked, Asked-Extends, mouse_bits, keyboard_bits, touch_bits, configure_mouse-Asked,
  configure_keyboard-Asked, configure_touchscreen-Asked, configure_multi_touchscreen-Asked,
}

-- There is no such device, or its bits have been asked for.
abbrev pub Ready : ℤ → Log → List (UiBit × List ℕ) → Type 0
Ready fd log wanted = (ltb_ℤ fd (pos 0) ≡ true) ⊎ Asked fd log wanted

abbrev pub contact_axes : List ℕ
contact_axes = abs_mt_slot ∷ abs_mt_tracking_id ∷ abs_mt_position_x ∷ abs_mt_position_y ∷ []

Ready-Grows :
    (fd : ℤ) (wanted : List (UiBit × List ℕ)) {a b : Log}
    → Grows a b
    → Ready fd a wanted
    → Ready fd b wanted
Ready-Grows fd wanted x (inl e) = inl e
Ready-Grows fd wanted x (inr h) = inr (Asked-Extends fd wanted x h)

module _ (index : ℕ) (configure : ℤ → Sys (Unit {0})) (wanted : List (UiBit × List ℕ))
    (extends : (k : Kernel) (fd : ℤ) (log : Log) → Extends NotOpen log (configure fd k log).1)
    (asks : (k : Kernel) (fd : ℤ) (log : Log) → Asked fd (configure fd k log).1 wanted) where
  -- One device of the constructor: its descriptor, that it is ready, and that the calls are added.
  setup_device-Ready :
      (fds : List ℤ) (k : Kernel) (log : Log)
      → (fd : ℤ) × ((setup_device index configure fds k log).0 ≡ set fds index fd)
        × Ready fd (setup_device index configure fds k log).1 wanted
        × Grows log (setup_device index configure fds k log).1
  unfolding setup_device
  setup_device-Ready fds k log =
      let opening = open_file (codes "/dev/uinput") o_wronly in
      let fd = k log opening in
      elim (Bool-cases (ltb_ℤ fd (pos 0))) [
        | inl e ↦ rw e (fd, refl, inl e, added same tt)
        | inr e ↦ rw e (
          fd,
          refl,
          inr (asks k fd (opening ∷ log)),
          Extends-trans (added same tt) (Extends-Grows (extends k fd (opening ∷ log))),
        )
      ]

-- Each of the four devices is ready when the constructor is done with them.
abbrev pub AllReady : List ℤ → Log → Type 0
AllReady fds log =
    Ready (get_or fds virtual_mouse (negsuc 0)) log mouse_bits
    × Ready (get_or fds virtual_keyboard (negsuc 0)) log keyboard_bits
    × Ready (get_or fds virtual_touchscreen (negsuc 0)) log (touch_bits (abs_x ∷ abs_y ∷ []))
    × Ready (get_or fds virtual_multi_touchscreen (negsuc 0)) log (touch_bits contact_axes)

pub setup_devices-Ready :
    (k : Kernel) (log : Log) → AllReady (setup_devices k log).0 (setup_devices k log).1
unfolding setup_devices setup_virtual_mouse setup_virtual_keyboard setup_virtual_touchscreen
    setup_virtual_multi_touchscreen
setup_devices-Ready k log =
    let r0 = setup_device virtual_mouse configure_mouse no_devices k log in
    let r1 = setup_device virtual_keyboard configure_keyboard r0.0 k r0.1 in
    let r2 = setup_device virtual_touchscreen configure_touchscreen r1.0 k r1.1 in
    let (fd0, s0, a0, x0) =
      setup_device-Ready virtual_mouse configure_mouse mouse_bits configure_mouse-Extends
        configure_mouse-Asked no_devices k log in
    let (fd1, s1, a1, x1) =
      setup_device-Ready virtual_keyboard configure_keyboard keyboard_bits
        configure_keyboard-Extends configure_keyboard-Asked r0.0 k r0.1 in
    let (fd2, s2, a2, x2) =
      setup_device-Ready virtual_touchscreen configure_touchscreen (touch_bits (abs_x ∷ abs_y ∷ []))
        configure_touchscreen-Extends configure_touchscreen-Asked r1.0 k r1.1 in
    let (fd3, s3, a3, x3) =
      setup_device-Ready virtual_multi_touchscreen configure_multi_touchscreen
        (touch_bits contact_axes) configure_multi_touchscreen-Extends
        configure_multi_touchscreen-Asked r2.0 k r2.1 in
    let e1 = s1 ∙ ap (λ l. set l virtual_keyboard fd1) s0 in
    let e2 = s2 ∙ ap (λ l. set l virtual_touchscreen fd2) e1 in
    let e3 = s3 ∙ ap (λ l. set l virtual_multi_touchscreen fd3) e2 in
    subst (λ fds. AllReady fds (setup_devices k log).1) (sym e3)
      (
        Ready-Grows fd0 mouse_bits (Extends-trans x1 (Extends-trans x2 x3)) a0,
        Ready-Grows fd1 keyboard_bits (Extends-trans x2 x3) a1,
        Ready-Grows fd2 (touch_bits (abs_x ∷ abs_y ∷ [])) x3 a2,
        a3,
      )
