-- ===== src/Server/Input/Passed.antt =====
-- Input.passThrough next to the constructor: the events that a virtual device has are enabled on it.
use test_runner.Prelude.{ℕ, ◌%◌, ◌^◌, ◌≡◌, ◌⊎◌, inl, inr, true, arith}
use test_runner.Prelude.Int.{ℤ, pos, ltb_ℤ}
use test_runner.Linux.{ui_set_keybit, ui_set_relbit, ui_set_absbit, key_esc}
use test_runner.Syscalls.{ioctl_int, Log}
use test_runner.Syscalls.Trace.{Called}
use test_runner.Server.{
  Server, get_device_fd, virtual_mouse, virtual_touchscreen, virtual_multi_touchscreen,
}
use test_runner.Server.Lifetime.Ready.{AllReady}
use test_runner.Server.Input.Events.{event}
use test_runner.Server.Input.Virtual.{
  IsOneOf-All, Sends, synchronises, mouse_moves, mouse_clicks, types, touches, places,
  multi_touches, multi_places, Sends-lt,
}
use test_runner.Server.Input.Supported.{Enabled, All-key_range, syncs, moves, keys, axes}

module _ (s : Server) (log : Log) (value : ℤ) where
  Sends-Enabled :
      {device type code : ℕ}
      → Sends device type code
      → AllReady s.device_fd log
      → (ltb_ℤ (get_device_fd s device) (pos 0) ≡ true)
        ⊎ Enabled (get_device_fd s device) log (event type code value)
  unfolding get_device_fd
  Sends-Enabled synchronises ready = inr syncs
  Sends-Enabled (mouse_moves m) (inl n, _, _, _) = inl n
  Sends-Enabled (mouse_moves m) (inr h, _, _, _) = inr (
      moves h.0.0 (
        IsOneOf-All (λ c. Called (ioctl_int (get_device_fd s virtual_mouse) ui_set_relbit c) log) _
          m h.1.0))
  Sends-Enabled (mouse_clicks m) (inl n, _, _, _) = inl n
  Sends-Enabled (mouse_clicks m) (inr h, _, _, _) = inr (
      keys h.1.1.0.0 (
        IsOneOf-All (λ c. Called (ioctl_int (get_device_fd s virtual_mouse) ui_set_keybit c) log) _
          m h.1.1.1.0))
  Sends-Enabled (types c) (_, inl n, _, _) = inl n
  Sends-Enabled (types c) (_, inr h, _, _) = inr (
      keys h.0.0 (
        All-key_range (λ v. Called (ioctl_int _ ui_set_keybit v) log) _ key_esc _ h.1.0 c.0
          (omega (arith, c.1))))
  Sends-Enabled touches (_, _, inl n, _) = inl n
  Sends-Enabled touches (_, _, inr h, _) = inr (keys h.0.0 h.1.0.0)
  Sends-Enabled (places m) (_, _, inl n, _) = inl n
  Sends-Enabled (places m) (_, _, inr h, _) = inr (
      axes h.1.1.0.0 (
        IsOneOf-All
          (λ c. Called (ioctl_int (get_device_fd s virtual_touchscreen) ui_set_absbit c) log) _ m
          h.1.1.1.0))
  Sends-Enabled multi_touches (_, _, _, inl n) = inl n
  Sends-Enabled multi_touches (_, _, _, inr h) = inr (keys h.0.0 h.1.0.0)
  Sends-Enabled (multi_places m) (_, _, _, inl n) = inl n
  Sends-Enabled (multi_places m) (_, _, _, inr h) = inr (
      axes h.1.1.0.0 (
        IsOneOf-All
          (λ c. Called (ioctl_int (get_device_fd s virtual_multi_touchscreen) ui_set_absbit c) log)
          _ m h.1.1.1.0))

  pub narrow-Enabled :
      {device type code : ℕ}
      → Sends device type code
      → AllReady s.device_fd log
      → (ltb_ℤ (get_device_fd s device) (pos 0) ≡ true)
        ⊎ Enabled (get_device_fd s device) log (event (type % 2 ^ 16) (code % 2 ^ 16) value)
  narrow-Enabled {type = type} {code} h ready =
      let (t, c) = Sends-lt h in
      let same_type : type % 2 ^ 16 ≡ type = omega (arith, t) in
      let same_code : code % 2 ^ 16 ≡ code = omega (arith, c) in
      rw (same_type, same_code) (Sends-Enabled h ready)
