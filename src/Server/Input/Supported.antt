-- ===== src/Server/Input/Supported.antt =====
-- The events that a device has been set up for, and the requests that stay within their device.
use test_runner.Prelude.{
  ℕ, zero, suc, ◌+◌, ◌≤◌, ◌<◌, ◌≡◌, sym, subst, ◌⊎◌, inl, inr, true, Option, none, some, arith,
  ◌==◌, Bool-cases, All,
}
use test_runner.Prelude.Int.{ℤ}
use test_runner.Linux.{
  InputEvent, ui_set_evbit, ui_set_keybit, ui_set_relbit, ui_set_absbit, ev_syn, ev_key, ev_rel,
  ev_abs, syn_report, key_max, btn_left, btn_right,
}
use test_runner.Syscalls.{ioctl_int, Log}
use test_runner.Syscalls.Trace.{Called}
use test_runner.Xkb.{Xkb, no_symbol}
use test_runner.Recorder.Devices.{until_nul}
use test_runner.Server.{Server}
use test_runner.Server.Setup.{key_range}
use test_runner.Server.Keysym.Search.{resolve_keysym-lt}
use test_runner.Server.Input.{
  KeyChoice, raw_code, key_sym, key_name, nonzero, Request, mouse_click, key_press, pass_through,
  evdev_code,
}
use test_runner.Server.Input.Events.{event}
use test_runner.Server.Input.Virtual.{HasKey, Sends}

-- The event's type and code have been asked for. A synchronisation needs no request.
pub data Enabled (fd : ℤ) (log : Log) : InputEvent → Type 0 where
  syncs : {value : ℤ} → Enabled fd log (event ev_syn syn_report value)
  moves :
      {code : ℕ} {value : ℤ}
      → Called (ioctl_int fd ui_set_evbit ev_rel) log
      → Called (ioctl_int fd ui_set_relbit code) log
      → Enabled fd log (event ev_rel code value)
  keys :
      {code : ℕ} {value : ℤ}
      → Called (ioctl_int fd ui_set_evbit ev_key) log
      → Called (ioctl_int fd ui_set_keybit code) log
      → Enabled fd log (event ev_key code value)
  axes :
      {code : ℕ} {value : ℤ}
      → Called (ioctl_int fd ui_set_evbit ev_abs) log
      → Called (ioctl_int fd ui_set_absbit code) log
      → Enabled fd log (event ev_abs code value)

abbrev pub HasChoice : KeyChoice → Type 0
HasChoice (raw_code code) = HasKey code
HasChoice _ = Unit {0}

-- Requests with a free choice of code stay within the events of their device.
abbrev pub Supported : Request → Type 0
Supported (mouse_click m) = (m.btn ≡ btn_left) ⊎ (m.btn ≡ btn_right)
Supported (key_press k) = HasChoice k.choice
Supported (pass_through p) = Sends p.device p.type p.code
Supported _ = Unit {0}

abbrev pub HasCode : Option ℕ → Type 0
HasCode none = Unit
HasCode (some code) = HasKey code

nonzero-HasCode : (n : ℕ) → n < key_max → HasCode (nonzero n)
nonzero-HasCode n h = ground arith

pub evdev_code-HasCode :
    (xkb : Xkb) (s : Server) (c : KeyChoice) → HasChoice c → HasCode (evdev_code xkb s c)
unfolding evdev_code
evdev_code-HasCode xkb s (raw_code code) h = h
evdev_code-HasCode xkb s (key_sym sym) h = nonzero-HasCode _ (resolve_keysym-lt s.keymap sym)
evdev_code-HasCode xkb s (key_name name) h =
    elim (Bool-cases (xkb.keysym_from_name (until_nul name) == no_symbol)) [
      | inl e ↦ rw e tt
      | inr e ↦
          rw e
            (nonzero-HasCode _ (resolve_keysym-lt s.keymap (xkb.keysym_from_name (until_nul name))))
    ]

same_key : (v from : ℕ) → v == from ≡ true → from ≡ v
same_key v from e = ground arith

pub All-key_range :
    (P : ℕ → Type 0) (count from v : ℕ)
    → All P (key_range count from)
    → from ≤ v
    → v < from + count
    → P v
unfolding key_range
All-key_range P zero from v h a b = absurd (omega (arith, a, b))
All-key_range P (suc count) from v h a b = elim (Bool-cases (v == from)) [
  | inl e ↦ subst P (same_key v from e) h.0
  | inr e ↦ All-key_range P count (from + 1) v h.1 (ground arith) (omega arith)
]
