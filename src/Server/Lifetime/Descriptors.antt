-- ===== src/Server/Lifetime/Descriptors.antt =====
-- The virtual devices over the server's life: what the constructor opens is what the server holds,
-- and what the destructor destroys and closes.
use test_runner.Prelude.{
  ℕ, ◌-◌, ◌≡◌, refl, sym, ap, ◌∙◌, inl, inr, Bool, true, false, List, [], ◌∷◌, ◌++◌, if◌then◌else◌,
  Bool-cases, codes, length, set,
}
use test_runner.Prelude.Int.{ℤ, pos, ltb_ℤ}
use mathlib.Core.List.{append-nil, append_assoc}
use test_runner.Linux.{
  UiBit, ui_set_keybit, ui_set_relbit, ui_set_absbit, o_wronly, key_esc, key_max,
}
use test_runner.Syscalls.{
  Call, open_file, close, ui_dev_create, ui_dev_destroy, Sys, Log, Kernel, logged,
}
use test_runner.Syscalls.Trace.{Extends, same, added, Extends-trans}
use test_runner.Server.{
  virtual_mouse, virtual_keyboard, virtual_touchscreen, virtual_multi_touchscreen, no_devices,
}
use test_runner.Server.Setup.{
  uinput_capability_setup, capabilities, key_range, create_device, configure_mouse,
  configure_keyboard, configure_touchscreen, configure_multi_touchscreen, setup_device,
  setup_virtual_mouse, setup_virtual_keyboard, setup_virtual_touchscreen,
  setup_virtual_multi_touchscreen,
}
use test_runner.Server.Lifetime.{setup_devices, close_input_device, close_input_devices}

-- The descriptor that a call of `open` was answered with.
abbrev reply_of : Kernel → Log → Call → List ℤ
reply_of k log (open_file path flags) = k log (open_file path flags) ∷ []
reply_of k log _ = []

-- All descriptors that `open` was answered with, the earliest first.
abbrev pub opens : Kernel → Log → List ℤ
opens k [] = []
opens k (c ∷ log) = opens k log ++ reply_of k log c

abbrev pub is_open : Call → Bool
is_open (open_file path flags) = true
is_open _ = false

abbrev pub NotOpen : Call → Type 0
NotOpen c = is_open c ≡ false

reply_of-nil : (k : Kernel) (log : Log) (c : Call) → NotOpen c → reply_of k log c ≡ []
reply_of-nil k log (open_file path flags) h = cc
reply_of-nil k log _ h = refl

opens-Extends :
    (k : Kernel) (log : Log) {log' : Log} → Extends NotOpen log log' → opens k log' ≡ opens k log
opens-Extends k log same = refl
opens-Extends k log (added {log' = l} {c = c} x p) =
    ap (◌++◌ (opens k l)) (reply_of-nil k l c p) ∙ append-nil (opens k l) ∙ opens-Extends k log x

module _ (k : Kernel) (fd : ℤ) where
  pub capabilities-Extends :
      (type : UiBit) (vs : List ℕ) (log : Log)
      → Extends NotOpen log (capabilities fd type vs k log).1
  unfolding capabilities uinput_capability_setup
  capabilities-Extends type [] log = same
  capabilities-Extends type (v ∷ vs) log =
      Extends-trans (added same refl) (capabilities-Extends type vs _)

  pub create_device-Extends : (log : Log) → Extends NotOpen log (create_device fd k log).1
  unfolding create_device
  create_device-Extends log = elim (Bool-cases (ltb_ℤ (k log (ui_dev_create fd)) (pos 0))) [
    | inl e ↦ rw e (added (added (added same refl) refl) refl)
    | inr e ↦ rw e (added (added same refl) refl)
  ]

  pub configure_mouse-Extends : (log : Log) → Extends NotOpen log (configure_mouse fd k log).1
  unfolding configure_mouse uinput_capability_setup
  configure_mouse-Extends log = Extends-trans (added same refl) (
      Extends-trans (capabilities-Extends ui_set_relbit _ _) (
        Extends-trans (added same refl) (
          Extends-trans (capabilities-Extends ui_set_keybit _ _)
            (Extends-trans (added same refl) (create_device-Extends _)))))

  pub configure_keyboard-Extends : (log : Log) → Extends NotOpen log (configure_keyboard fd k log).1
  unfolding configure_keyboard uinput_capability_setup
  configure_keyboard-Extends log = Extends-trans (added same refl) (
      Extends-trans (capabilities-Extends ui_set_keybit (key_range (key_max - key_esc) key_esc) _)
        (Extends-trans (added same refl) (create_device-Extends _)))

  pub configure_touchscreen-Extends :
      (log : Log) → Extends NotOpen log (configure_touchscreen fd k log).1
  unfolding configure_touchscreen uinput_capability_setup
  configure_touchscreen-Extends log = Extends-trans (added same refl) (
      Extends-trans (capabilities-Extends ui_set_keybit _ _) (
        Extends-trans (added same refl) (
          Extends-trans (capabilities-Extends ui_set_absbit _ _) (
            Extends-trans (added (added (added (added same refl) refl) refl) refl)
              (create_device-Extends _)))))

  pub configure_multi_touchscreen-Extends :
      (log : Log) → Extends NotOpen log (configure_multi_touchscreen fd k log).1
  unfolding configure_multi_touchscreen uinput_capability_setup
  configure_multi_touchscreen-Extends log = Extends-trans (added same refl) (
      Extends-trans (capabilities-Extends ui_set_keybit _ _) (
        Extends-trans (added same refl) (
          Extends-trans (capabilities-Extends ui_set_absbit _ _) (
            Extends-trans (added (added (added (added (added same refl) refl) refl) refl) refl)
              (create_device-Extends _)))))

-- One device: its descriptor is the answer of its `open`, kept at its index, and no other is opened.
setup_device-opens :
    (index : ℕ) (configure : ℤ → Sys (Unit {0}))
    → ((k : Kernel) (fd : ℤ) (log : Log) → Extends NotOpen log (configure fd k log).1)
    → (fds : List ℤ) (k : Kernel) (log : Log)
    → (fd : ℤ) × ((setup_device index configure fds k log).0 ≡ set fds index fd)
      × (opens k (setup_device index configure fds k log).1 ≡ opens k log ++ fd ∷ [])
unfolding setup_device
setup_device-opens index configure h fds k log =
    let path = codes "/dev/uinput" in
    let fd = k log (open_file path o_wronly) in
    elim (Bool-cases (ltb_ℤ fd (pos 0))) [
      | inl e ↦ rw e (fd, refl, refl)
      | inr e ↦ rw e (fd, refl, opens-Extends k _ (h k fd (open_file path o_wronly ∷ log)))
    ]

regroup :
    (l : List ℤ) (a b c d : ℤ)
    → ((l ++ a ∷ []) ++ b ∷ []) ++ c ∷ [] ++ d ∷ [] ≡ l ++ a ∷ b ∷ c ∷ d ∷ []
regroup l a b c d = simp append_assoc

setup_devices-opens :
    (k : Kernel) (log : Log)
    → (length (setup_devices k log).0 ≡ 4)
      × (opens k (setup_devices k log).1 ≡ opens k log ++ (setup_devices k log).0)
unfolding setup_devices setup_virtual_mouse setup_virtual_keyboard setup_virtual_touchscreen
    setup_virtual_multi_touchscreen
setup_devices-opens k log =
    let (fd0, s0, o0) =
      setup_device-opens virtual_mouse configure_mouse configure_mouse-Extends no_devices k log in
    let r0 = setup_device virtual_mouse configure_mouse no_devices k log in
    let (fd1, s1, o1) =
      setup_device-opens virtual_keyboard configure_keyboard configure_keyboard-Extends r0.0 k
        r0.1 in
    let r1 = setup_device virtual_keyboard configure_keyboard r0.0 k r0.1 in
    let (fd2, s2, o2) =
      setup_device-opens virtual_touchscreen configure_touchscreen configure_touchscreen-Extends
        r1.0 k r1.1 in
    let r2 = setup_device virtual_touchscreen configure_touchscreen r1.0 k r1.1 in
    let (fd3, s3, o3) =
      setup_device-opens virtual_multi_touchscreen configure_multi_touchscreen
        configure_multi_touchscreen-Extends r2.0 k r2.1 in
    let e0 = s0 in
    let e1 = s1 ∙ ap (λ l. set l virtual_keyboard fd1) e0 in
    let e2 = s2 ∙ ap (λ l. set l virtual_touchscreen fd2) e1 in
    let e3 = s3 ∙ ap (λ l. set l virtual_multi_touchscreen fd3) e2 in
    (
      ap length e3,
      o3
          ∙ ap (λ l. l ++ fd3 ∷ []) (o2 ∙ ap (λ l. l ++ fd2 ∷ []) (o1 ∙ ap (λ l. l ++ fd1 ∷ []) o0))
          ∙ regroup (opens k log) fd0 fd1 fd2 fd3
          ∙ ap (◌++◌ (opens k log)) (sym e3),
    )

-- What the destructor does for each descriptor.
abbrev pub teardown : List ℤ → List Call
teardown [] = []
teardown (fd ∷ fds) =
    if ltb_ℤ fd (pos 0) then teardown fds else ui_dev_destroy fd ∷ close fd ∷ teardown fds

pub close_input_devices_lem :
    (k : Kernel) (fds : List ℤ) (log : Log)
    → (close_input_devices fds k log).1 ≡ logged log (teardown fds)
unfolding close_input_devices close_input_device
close_input_devices_lem k [] log = refl
close_input_devices_lem k (fd ∷ fds) log = elim (Bool-cases (ltb_ℤ fd (pos 0))) [
  | inl e ↦ rw e (close_input_devices_lem k fds log)
  | inr e ↦ rw e (close_input_devices_lem k fds (close fd ∷ ui_dev_destroy fd ∷ log))
]

-- For every kernel: the server holds four descriptors, which are the answers of the calls of `open`
-- that its constructor makes for the virtual devices, in order, failures included; and the
-- destructor destroys and closes each of them that is not negative, once and in order, and makes no
-- other call for the virtual devices.
pub setup_devices-close_input_devices :
    (k : Kernel) (log log' : Log)
    → (length (setup_devices k log).0 ≡ 4)
      × (opens k (setup_devices k log).1 ≡ opens k log ++ (setup_devices k log).0)
      × ((close_input_devices (setup_devices k log).0 k log').1
          ≡ logged log' (teardown (setup_devices k log).0))
setup_devices-close_input_devices k log log' =
    let o = setup_devices-opens k log in
    (o.0, o.1, close_input_devices_lem k (setup_devices k log).0 log')
