-- ===== src/Server/Recorders/Life/Course.antt =====
-- What every sequence of calls keeps.
use test_runner.Prelude.{
  ℕ, ◌<◌, ◌≡◌, refl, sym, ap, subst, ◌⊎◌, inl, inr, Bool, Option, none, some, List, [], ◌∷◌, ◌++◌,
  arith, All-append, Bytes, codes, ltb, ◌||◌, Bool-cases, length, length-append,
}
use mathlib.Core.Option.{some-injective}
use test_runner.Syscalls.{Log, Kernel}
use test_runner.Xkb.{Xkb}
use test_runner.Recorder.{Outcome, returned, threw, terminated, blocked}
use test_runner.Recorder.Process.{Env, Action, Process, start, stop}
use test_runner.Recorder.Process.Invariant.{fresh, Reachable-IsWf, start-IsWf, step-IsWf, stop-IsWf}
use test_runner.Recorder.Process.WellFormed.{IsWf}
use test_runner.Recorder.Devices.{until_nul}
use test_runner.Recorder.Lifetime.{new_recorder}
use test_runner.Server.{Server, max_custom_recorders}
use test_runner.Server.Recorders.{
  has_slash, has_dots, get_snapshot, restart, with_snapshot, create_custom_recorder, create_checked,
}
use test_runner.Server.Recorders.Life.{
  Serves, waits, creates, sets, starts, stops, snapshots, runs, snapshot_runs, AllWf, no_recorder,
  recorder, IsSound,
}
use test_runner.Server.Recorders.Life.Touches.{
  Touches-IsSound, set_devices-Touches, start_custom_recording-Touches,
  stop_custom_recording-Touches, step-Touches, returned-injective,
}

-- A new recorder at the end of the table.
abbrev pub Adds : Server → Server → Type 0
Adds t u =
    (u ≡ t)
    ⊎ ((p : Process) × IsWf p
        × (length t.custom_recorders < max_custom_recorders)
        × (u ≡ record t { custom_recorders = t.custom_recorders ++ p ∷ [] }))

new_recorder-IsWf :
    (env : Env) (xkb : Xkb) (name : Bytes) (seconds : ℕ) (continuous : Bool) (dir : Bytes)
    (k : Kernel) (log : Log)
    → IsWf (new_recorder xkb name seconds continuous dir k log).0
unfolding new_recorder
new_recorder-IsWf env xkb name seconds continuous dir k log =
    Reachable-IsWf {env = env}
      (fresh (new_recorder xkb name seconds continuous dir k log).0 refl refl refl)

pub create_checked-Adds :
    (env : Env) (xkb : Xkb) (k : Kernel) (log : Log) (name : Bytes) (seconds : ℕ)
    (continuous : Bool) (t : Server)
    → Adds t (create_checked xkb name seconds continuous t k log).0.1
unfolding create_checked
create_checked-Adds env xkb k log name seconds continuous t =
    elim (Bool-cases (has_slash name || has_dots name)) [
      | inl e ↦ rw e (inl refl)
      | inr e ↦ elim (Bool-cases (ltb (length t.custom_recorders) max_custom_recorders)) [
        | inr full ↦ rw (e, full) (inl refl)
        | inl room ↦
            rw (e, room)
              (inr (
                (new_recorder xkb name seconds continuous (codes "/dev/input") k log).0,
                new_recorder-IsWf env xkb name seconds continuous (codes "/dev/input") k log,
                ground arith,
                refl,
              ))
      ]
    ]

Adds-IsSound : (t u : Server) → Adds t u → IsSound t → IsSound u
Adds-IsSound t u (inl e) h = subst IsSound (sym e) h
Adds-IsSound t u (inr (p, w, room, e)) h = subst IsSound (sym e) (record {
  few = rw (length-append t.custom_recorders (p ∷ [])) (omega (arith, room));
  custom = All-append IsWf t.custom_recorders (p ∷ []) h.custom (w, tt);
  snapshot = h.snapshot;
})

-- The snapshot recorder after a restart; the rest of the server is as it was.
abbrev pub Restarts : Server → Server → Type 0
Restarts t u = (q : Process) × IsWf q × (u ≡ record t { snapshot_recorder = some q })

started-Restarts :
    (t u : Server) (path path' : Bytes) (p : Process) (o : Outcome Process)
    → IsWf p
    → start p ≡ o
    → with_snapshot t (restart (returned (path', p))) ≡ returned (path, u)
    → Restarts t u
unfolding restart
started-Restarts t u path path' p (returned q) w e h = (
  q,
  start-IsWf p w e,
  sym (ap (λ (r : Bytes × Server). r.1) (returned-injective (rw (e, restart) at h))),
)
started-Restarts t u path path' p threw w e h = cc (rw (e, restart) at h)
started-Restarts t u path path' p terminated w e h = cc (rw (e, restart) at h)
started-Restarts t u path path' p blocked w e h = cc (rw (e, restart) at h)

stopped-Restarts :
    (env : Env) (now : ℕ) (schedule : List Action) (t u : Server) (path : Bytes) (p : Process)
    (o : Outcome (Bytes × Process))
    → IsWf p
    → stop env now schedule p ≡ o
    → with_snapshot t (restart o) ≡ returned (path, u)
    → Restarts t u
unfolding restart
stopped-Restarts env now schedule t u path p (returned (path', q)) w e h =
    started-Restarts t u path path' q (start q) (stop-IsWf env now schedule p w e) refl h
stopped-Restarts env now schedule t u path p threw w e h = cc
stopped-Restarts env now schedule t u path p terminated w e h = cc
stopped-Restarts env now schedule t u path p blocked w e h = cc

pub get_snapshot-Restarts :
    (env : Env) (now : ℕ) (schedule : List Action) (t u : Server) (path : Bytes)
    (o : Option Process)
    → t.snapshot_recorder ≡ o
    → AllWf o
    → get_snapshot env now schedule t ≡ returned (path, u)
    → Restarts t u
unfolding get_snapshot
get_snapshot-Restarts env now schedule t u path none e w h = cc (rw (e, get_snapshot) at h)
get_snapshot-Restarts env now schedule t u path (some p) e (recorder w) h =
    stopped-Restarts env now schedule t u path p (stop env now schedule p) w refl
      (rw (e, get_snapshot) at h)

Restarts-IsSound : (t u : Server) → Restarts t u → IsSound t → IsSound u
Restarts-IsSound t u (q, w, e) h =
    subst IsSound (sym e) (record { few = h.few; custom = h.custom; snapshot = recorder w })

present-IsWf : {o : Option Process} {p : Process} → AllWf o → o ≡ some p → IsWf p
present-IsWf no_recorder e = cc
present-IsWf (recorder w) e = subst IsWf (some-injective _ _ e) w

-- Over any sequence of calls of the Recorder interface and of steps of the threads, there are at most
-- 20 custom recorders, and every recorder is well formed, the snapshot recorder included.
pub Serves-IsSound :
    {env : Env} {xkb : Xkb} {s t : Server} → IsSound s → Serves env xkb s t → IsSound t
unfolding create_custom_recorder
Serves-IsSound v waits = v
Serves-IsSound {env} {xkb} v (creates {t} r k log name seconds continuous) =
    Adds-IsSound t _ (create_checked-Adds env xkb k log (until_nul name) seconds continuous t)
      (Serves-IsSound v r)
Serves-IsSound v (sets {t} r index devices) =
    Touches-IsSound t _ (set_devices-Touches index devices t) (Serves-IsSound v r)
Serves-IsSound v (starts {t} {u} r index h) =
    Touches-IsSound t u (start_custom_recording-Touches index t u h) (Serves-IsSound v r)
Serves-IsSound {env} v (stops {t} {u} r now schedule index path h) =
    Touches-IsSound t u (stop_custom_recording-Touches env now schedule index path t u h)
      (Serves-IsSound v r)
Serves-IsSound {env} v (snapshots {t} {u} r now schedule path h) =
    let sound = Serves-IsSound v r in
    Restarts-IsSound t u
      (get_snapshot-Restarts env now schedule t u path t.snapshot_recorder refl sound.snapshot h)
      sound
Serves-IsSound {env} v (runs {t} {p} {q} r index a e h) =
    Touches-IsSound t _ (step-Touches env a index t p q e h) (Serves-IsSound v r)
Serves-IsSound {env} v (snapshot_runs {t} {p} {q} r a e h) =
    let sound = Serves-IsSound v r in
    Restarts-IsSound t _ (q, step-IsWf env a p (present-IsWf sound.snapshot e) h, refl) sound
