-- ===== src/Server/Lifetime.antt =====
-- The constructor and the destructor of TestRunnerServer, and close_input_device.
pub mod Ready
pub mod Asked
pub mod Descriptors
use test_runner.Prelude.{
  ℕ, zero, suc, ◌+◌, ◌-◌, ◌*◌, ◌/◌, ◌%◌, ◌^◌, ◌≤◌, ◌<◌, ◌≡◌, refl, sym, ap, ◌∙◌, subst, ◌≢◌, ◌↔◌,
  ◌⊎◌, inl, inr, Bool, true, false, ◌&&◌, ◌||◌, not, Option, none, some, List, [], ◌∷◌, ◌++◌, map,
  arith, ltb, leb, ◌==◌, if◌then◌else◌, Bool-cases, Option-cases, Bytes, codes, bytes_eq, length,
  get_elem?, get_or, set, take, drop, All, All-append, length-append, length-set,
  get_elem?-set_self, get_elem?-set_ne,
}
use test_runner.Prelude.Int.{
  ℤ, pos, negsuc, pos_part, neg_part, sub_ℕ, ◌-ℤ◌, ◌≤ℤ◌, ltb_ℤ, eqb_ℤ, to_unsigned, to_signed,
  wrap_signed,
}
use test_runner.Syscalls.{Call, close, ui_dev_destroy, Sys, ◌>>=◌, ◌>>◌, return, call}
use test_runner.Xkb.{Xkb}
use test_runner.Recorder.{Recorder, Outcome, returned, threw, terminated, blocked}
use test_runner.Recorder.Process.{Env, Action, Process, start}
use test_runner.Recorder.Lifetime.{new_recorder, destroy_recorder}
use test_runner.Server.{Server, no_devices}
use test_runner.Server.Setup.{
  XkbConfig, setup_virtual_mouse, setup_virtual_keyboard, setup_virtual_touchscreen,
  setup_virtual_multi_touchscreen, setup_xkb,
}

-- The descriptors of the four virtual devices, in the constructor's order.
unfoldable pub setup_devices : Sys (List ℤ)
setup_devices = do
  mouse ← setup_virtual_mouse no_devices
  keyboard ← setup_virtual_keyboard mouse
  touchscreen ← setup_virtual_touchscreen keyboard
  setup_virtual_multi_touchscreen touchscreen

-- A snapshot recorder, started; a new recorder is neither active nor joinable.
unfoldable pub snapshot_of : Xkb → Bool → Sys (Outcome (Option Process))
snapshot_of xkb enable_snapshot_recorder =
    if enable_snapshot_recorder
    then (do
      p ← new_recorder xkb (codes "input_snapshot") 30 true (codes "/dev/input")
      return (elim (start p) [
        | returned q ↦ returned (some q)
        | threw ↦ threw
        | terminated ↦ terminated
        | blocked ↦ blocked
      ]))
    else return (returned none)

-- The server after its constructor. Plugins keep no state in it.
unfoldable pub new_server : Xkb → (Bytes → Option Bytes) → Bool → XkbConfig → Sys (Outcome Server)
new_server xkb getenv enable_snapshot_recorder cfg = do
  fds ← setup_devices
  snapshot ← snapshot_of xkb enable_snapshot_recorder
  return (elim snapshot [
    | returned p ↦ returned (record {
      device_fd = fds;
      keymap = setup_xkb xkb getenv cfg;
      snapshot_recorder = p;
      custom_recorders = [];
    })
    | threw ↦ threw
    | terminated ↦ terminated
    | blocked ↦ blocked
  ])

unfoldable pub close_input_device : ℤ → Sys (Unit {0})
close_input_device fd =
    if ltb_ℤ fd (pos 0)
    then return tt
    else (do destroyed ← call (ui_dev_destroy fd); closed ← call (close fd); return tt)

pub close_input_devices : List ℤ → Sys (Unit {0})
close_input_devices [] = return tt
close_input_devices (fd ∷ fds) = do close_input_device fd; close_input_devices fds

-- The recorders that are left, each with the schedule of its threads while it is destroyed.
unfoldable pub destroy_recorders : Env → ℕ → List (List Action × Process) → Sys (Outcome (Unit {0}))
destroy_recorders env now [] = return (returned tt)
destroy_recorders env now ((schedule, p) ∷ rest) = do
  gone ← destroy_recorder env now schedule p
  elim gone [
    | returned u ↦ destroy_recorders env now rest
    | threw ↦ return threw
    | terminated ↦ return terminated
    | blocked ↦ return blocked
  ]

abbrev pub with_schedules : (ℕ → List Action) → ℕ → List Process → List (List Action × Process)
with_schedules schedules i [] = []
with_schedules schedules i (p ∷ ps) = (schedules i, p) ∷ with_schedules schedules (suc i) ps

abbrev pub recorders_of : Server → List Process
recorders_of s = elim s.snapshot_recorder [
  | none ↦ s.custom_recorders
  | some p ↦ p ∷ s.custom_recorders
]

-- The end of the destructor, once the recorders are gone.
unfoldable pub close_after : List ℤ → Outcome (Unit {0}) → Sys (Outcome (Unit {0}))
close_after fds (returned u) = do close_input_devices fds; return (returned tt)
close_after fds threw = return threw
close_after fds terminated = return terminated
close_after fds blocked = return blocked

-- The destructor: the recorders, the snapshot recorder first, and then the virtual devices.
unfoldable pub destroy_server : Env → ℕ → (ℕ → List Action) → Server → Sys (Outcome (Unit {0}))
destroy_server env now schedules s = do
  gone ← destroy_recorders env now (with_schedules schedules 0 (recorders_of s))
  close_after s.device_fd gone
