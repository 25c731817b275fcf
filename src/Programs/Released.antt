-- ===== src/Programs/Released.antt =====
-- What server/main.cpp leaves behind when it exits.
use test_runner.Prelude.{
  ◌≡◌, refl, sym, ap, subst, ◌∙◌, ◌⊎◌, inl, inr, Bool, true, false, Option, none, some, List, [],
  ◌∷◌, if◌then◌else◌, Bytes,
}
use test_runner.Prelude.Int.{ℤ}
use test_runner.Syscalls.{close, Log, Kernel, return, logged}
use test_runner.Xkb.{Xkb}
use test_runner.Recorder.{Outcome, returned, threw, terminated, blocked}
use test_runner.Recorder.Process.{Process}
use test_runner.Server.{Server}
use test_runner.Server.Setup.{XkbConfig}
use test_runner.Server.Lifetime.{
  setup_devices, snapshot_of, new_server, destroy_server, close_after,
}
use test_runner.Server.Lifetime.Descriptors.{teardown, close_input_devices_lem}
use test_runner.Programs.{GivenOption, Ending, exit_success, exit_failure}
use test_runner.Programs.Server.{
  ServerOptions, default_options, Session, close_signal_pipe, serve_until_signal, server_session,
  after_options, server_main,
}
use test_runner.Programs.Described.{
  first_ending, described, described_result, parse_options-described,
}

-- The last calls are those that give the descriptors back, and that which closes the signal pipe.
abbrev pub Releases : ℤ → List ℤ → Log → Type 0
Releases fd fds log = (before : Log) × (log ≡ close fd ∷ logged before (teardown fds))

-- The descriptors of a server, if there is one.
abbrev device_of : Outcome Server → List ℤ
device_of (returned s) = s.device_fd
device_of _ = []

close_signal_pipe-Releases :
    (fd : ℤ) (fds : List ℤ) (gone : Outcome (Unit {0})) (k : Kernel) (log : Log)
    → (close_signal_pipe fd (close_after fds gone k log).0 k (close_after fds gone k log).1).0
      ≡ exit_success
    → Releases fd fds
        (close_signal_pipe fd (close_after fds gone k log).0 k (close_after fds gone k log).1).1
unfolding close_after close_signal_pipe
close_signal_pipe-Releases fd fds (returned u) k log h =
    (log, ap (λ l. close fd ∷ l) (close_input_devices_lem k fds log))
close_signal_pipe-Releases fd fds threw k log h = cc
close_signal_pipe-Releases fd fds terminated k log h = cc
close_signal_pipe-Releases fd fds blocked k log h = cc

-- The server that the constructor makes holds the descriptors of the virtual devices.
new_server-device_fd :
    (xkb : Xkb) (getenv : Bytes → Option Bytes) (snapshots : Bool) (cfg : XkbConfig) (k : Kernel)
    (log : Log) (s : Server)
    → (new_server xkb getenv snapshots cfg k log).0 ≡ returned s
    → s.device_fd ≡ (setup_devices k log).0
unfolding new_server
new_server-device_fd xkb getenv snapshots cfg k log s h =
    let fds = setup_devices k log in go (snapshot_of xkb snapshots k fds.1).0 refl
  where
    go :
        (snapshot : Outcome (Option Process))
        → (snapshot_of xkb snapshots k (setup_devices k log).1).0 ≡ snapshot
        → s.device_fd ≡ (setup_devices k log).0
    go (returned p) e = ap device_of (sym (rw (e, new_server) at h))
    go threw e = cc (rw (e, new_server) at h)
    go terminated e = cc (rw (e, new_server) at h)
    go blocked e = cc (rw (e, new_server) at h)

module _ (w : Session)
    (keeps : (addr : Bytes) (s : Server) (k : Kernel) (log : Log)
      → (w.serve addr s k log).0.device_fd ≡ s.device_fd) where
  serve_until_signal-Releases :
      (addr : Bytes) (made : Outcome Server) (fds : List ℤ) (k : Kernel) (log : Log)
      → ((s : Server) → made ≡ returned s → s.device_fd ≡ fds)
      → (serve_until_signal w addr made k log).0 ≡ exit_success
      → Releases w.signal_fd fds (serve_until_signal w addr made k log).1
  unfolding serve_until_signal destroy_server
  serve_until_signal-Releases addr (returned s) fds k log d h =
      subst (λ l. Releases w.signal_fd l (serve_until_signal w addr (returned s) k log).1)
        (keeps addr s k log ∙ d s refl) (close_signal_pipe-Releases _ _ _ k _ h)
  serve_until_signal-Releases addr threw fds k log d h = cc
  serve_until_signal-Releases addr terminated fds k log d h = cc
  serve_until_signal-Releases addr blocked fds k log d h = cc

  server_session-Releases :
      (xkb : Xkb) (getenv : Bytes → Option Bytes) (o : ServerOptions) (k : Kernel) (log : Log)
      → (server_session w xkb getenv o k log).0 ≡ exit_success
      → Releases w.signal_fd (setup_devices k log).0 (server_session w xkb getenv o k log).1
  unfolding server_session
  server_session-Releases xkb getenv o k log h =
      serve_until_signal-Releases o.listen_addr _ _ k _
        (λ s. new_server-device_fd xkb getenv true o.xkb_cfg k log s) h

  piped :
      (b : Bool) (xkb : Xkb) (getenv : Bytes → Option Bytes) (o : ServerOptions) (k : Kernel)
      (log : Log)
      → ((if b then server_session w xkb getenv o else return exit_failure) k log).0 ≡ exit_success
      → (b ≡ true)
        × Releases w.signal_fd
            (setup_devices k log).0
            ((if b then server_session w xkb getenv o else return exit_failure) k log).1
  piped true xkb getenv o k log h = (refl, server_session-Releases xkb getenv o k log h)
  piped false xkb getenv o k log h = cc

  after_options-exit_success :
      (xkb : Xkb) (getenv : Bytes → Option Bytes) (opts : List GivenOption) (o : ServerOptions)
      (e : Option Ending) (k : Kernel) (log : Log)
      → (after_options w xkb getenv (described_result opts o e) k log).0 ≡ exit_success
      → ((e ≡ some exit_success)
          × ((after_options w xkb getenv (described_result opts o e) k log).1 ≡ log))
        ⊎ ((w.pipes ≡ true)
            × Releases w.signal_fd
                (setup_devices k log).0
                (after_options w xkb getenv (described_result opts o e) k log).1)
  unfolding after_options
  after_options-exit_success xkb getenv opts o (some e) k log h = inl (ap some h, refl)
  after_options-exit_success xkb getenv opts o none k log h =
      inr (piped w.pipes xkb getenv (described opts o) k log h)

  -- The server program exits with success in two cases only. Either the first of its options that is not a
  -- setting is -h, and it has made no system call; or it has served, and its last calls destroy and
  -- close every virtual device that its constructor opened, once and in order, and then close the end
  -- of the signal pipe. Serving is assumed to
  -- keep the server's descriptors.
  pub server_main-Releases :
      (xkb : Xkb) (getenv : Bytes → Option Bytes) (opts : List GivenOption) (k : Kernel) (log : Log)
      → (server_main w xkb getenv opts k log).0 ≡ exit_success
      → ((first_ending opts ≡ some exit_success) × ((server_main w xkb getenv opts k log).1 ≡ log))
        ⊎ ((w.pipes ≡ true)
            × Releases w.signal_fd (setup_devices k log).0 (server_main w xkb getenv opts k log).1)
  unfolding server_main
  server_main-Releases xkb getenv opts k log h =
      subst
        (λ p.
          (after_options w xkb getenv p k log).0 ≡ exit_success
          → ((first_ending opts ≡ some exit_success)
              × ((after_options w xkb getenv p k log).1 ≡ log))
            ⊎ ((w.pipes ≡ true)
                × Releases w.signal_fd (setup_devices k log).0
                    (after_options w xkb getenv p k log).1))
        (sym (parse_options-described opts default_options))
        (after_options-exit_success xkb getenv opts default_options (first_ending opts) k log) h
