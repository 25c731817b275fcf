-- ===== src/Server/Recorders/Life.antt =====
-- The table of recorders over any sequence of calls and of steps of the recorders' threads.
pub mod Indices
pub mod Touches
pub mod Course
use test_runner.Prelude.{
  ℕ, zero, suc, ◌+◌, ◌≤◌, ◌<◌, ◌≡◌, refl, sym, ap, ◌∙◌, subst, ◌⊎◌, inl, inr, Bool, true, false,
  Option, none, some, List, [], ◌∷◌, ◌++◌, map, arith, All, All-append, Bytes, Bool-cases,
  Option-cases, length, length-append, length-set, get_elem?, get_elem?-set_self, get_elem?-set_ne,
  set, ◌==◌, ◌≢◌,
}
use mathlib.Core.Option.{some-injective}
use test_runner.Syscalls.{Log, Kernel}
use test_runner.Xkb.{Xkb}
use test_runner.Recorder.{Device, Outcome, returned, threw, terminated, blocked}
use test_runner.Recorder.Process.{Env, Action, Process, start, step, stop, absent, no_buffer}
use test_runner.Recorder.Process.WellFormed.{IsWf}
use test_runner.Server.{Server, max_custom_recorders}
use test_runner.Server.Recorders.{
  InputDevice, get_snapshot, create_custom_recorder, with_recorder, set_devices, decode_device,
  start_custom_recording, stop_custom_recording,
}

-- The states that a server reaches from one state by the calls of the Recorder interface, in any order
-- and with any arguments, between any steps of the threads. The two calls that only read are left out.
pub data Serves (env : Env) (xkb : Xkb) (s : Server) : Server → Type 0 where
  waits : Serves env xkb s s
  creates :
      {t : Server}
      → Serves env xkb s t
      → (k : Kernel) (log : Log) (name : Bytes) (seconds : ℕ) (continuous : Bool)
      → Serves env xkb s (create_custom_recorder xkb name seconds continuous t k log).0.1
  sets :
      {t : Server}
      → Serves env xkb s t
      → (index : ℕ) (devices : List InputDevice) → Serves env xkb s (set_devices index devices t)
  starts :
      {t u : Server}
      → Serves env xkb s t
      → (index : ℕ) → start_custom_recording index t ≡ returned u
      → Serves env xkb s u
  stops :
      {t u : Server}
      → Serves env xkb s t
      → (now : ℕ) (schedule : List Action) (index : ℕ) (path : Bytes)
      → stop_custom_recording env now schedule index t ≡ returned (path, u)
      → Serves env xkb s u
  snapshots :
      {t u : Server}
      → Serves env xkb s t
      → (now : ℕ) (schedule : List Action) (path : Bytes)
      → get_snapshot env now schedule t ≡ returned (path, u)
      → Serves env xkb s u
  runs :
      {t : Server} {p q : Process}
      → Serves env xkb s t
      → (index : ℕ) (a : Action) → get_elem? t.custom_recorders index ≡ some p
      → step env a p ≡ some q
      → Serves env xkb s (with_recorder t index q)
  snapshot_runs :
      {t : Server} {p q : Process}
      → Serves env xkb s t
      → (a : Action) → t.snapshot_recorder ≡ some p
      → step env a p ≡ some q
      → Serves env xkb s (record t { snapshot_recorder = some q })

-- At most 20 recorders, each in a well-formed state, and so is the snapshot recorder, if there is one.
pub data AllWf : Option Process → Type 0 where
  no_recorder : AllWf none
  recorder : {p : Process} → IsWf p → AllWf (some p)

pub record IsSound (s : Server) : Type 0 where
  pub few : length s.custom_recorders ≤ max_custom_recorders
  pub custom : All IsWf s.custom_recorders
  pub snapshot : AllWf s.snapshot_recorder
