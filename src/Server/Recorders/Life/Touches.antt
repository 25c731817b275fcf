-- ===== src/Server/Recorders/Life/Touches.antt =====
-- The calls that change the recorder of one index, and nothing else.
use test_runner.Prelude.{
  ℕ, zero, suc, ◌≡◌, refl, sym, ap, subst, ◌⊎◌, inl, inr, some, List, [], ◌∷◌, map, All, Bytes,
  Option-cases, length-set, get_elem?, set,
}
use mathlib.Core.Option.{some-injective}
use test_runner.Recorder.{Outcome, returned, threw, terminated, blocked}
use test_runner.Recorder.Mask.{set_devices_to_record}
use test_runner.Recorder.Process.{Env, Action, Process, start, step, stop}
use test_runner.Recorder.Process.Invariant.{start-IsWf, step-IsWf, stop-IsWf}
use test_runner.Recorder.Process.WellFormed.{IsWf}
use test_runner.Recorder.Process.Kept.{step-Kept, start-Kept, stop-Kept}
use test_runner.Server.{Server}
use test_runner.Server.Recorders.{
  InputDevice, with_recorder, set_devices, decode_device, start_custom_recording,
  stop_custom_recording,
}
use test_runner.Server.Recorders.Life.{IsSound}

-- What a call does to the recorder of one index, if it does anything.
abbrev pub Turns : Process → Process → Type 0
Turns p q =
    (IsWf p → IsWf q)
    × (q.recorder.filename ≡ p.recorder.filename)
    × (q.recorder.continuous ≡ p.recorder.continuous)

abbrev pub Touches : Server → Server → Type 0
Touches t u =
    (u ≡ t)
    ⊎ ((index : ℕ) × (p : Process) × (q : Process) × (get_elem? t.custom_recorders index ≡ some p)
        × Turns p q
        × (u ≡ with_recorder t index q))

All-get {ℓ κ} :
    {A : Type ℓ} (P : A → Type κ) (xs : List A) (i : ℕ) {a : A}
    → All P xs
    → get_elem? xs i ≡ some a
    → P a
All-get P [] i h e = cc
All-get P (x ∷ xs) zero h e = subst P (some-injective _ _ e) h.0
All-get P (x ∷ xs) (suc i) h e = All-get P xs i h.1 e

All-set {ℓ κ} :
    {A : Type ℓ} (P : A → Type κ) (xs : List A) (i : ℕ) {a : A}
    → All P xs
    → P a
    → All P (set xs i a)
All-set P [] i h p = tt
All-set P (x ∷ xs) zero h p = (p, h.1)
All-set P (x ∷ xs) (suc i) h p = (h.0, All-set P xs i h.1 p)

pub Touches-IsSound : (t u : Server) → Touches t u → IsSound t → IsSound u
Touches-IsSound t u (inl e) h = subst IsSound (sym e) h
Touches-IsSound t u (inr (index, p, q, e, turns, changed)) h = subst IsSound (sym changed) (record {
  few = rw (length-set t.custom_recorders index q) h.few;
  custom =
      All-set IsWf t.custom_recorders index h.custom
        (turns.0 (All-get IsWf t.custom_recorders index h.custom e));
  snapshot = h.snapshot;
})

pub returned-injective : {A : Type 0} {a b : A} → returned a ≡ returned b → a ≡ b
returned-injective h = cc

pub set_devices-Touches :
    (index : ℕ) (devices : List InputDevice) (t : Server) → Touches t (set_devices index devices t)
set_devices-Touches index devices t = elim (Option-cases (get_elem? t.custom_recorders index)) [
  | inl e ↦ inl (unfold set_devices in rw (e, set_devices))
  | inr (p, e) ↦ inr (
    index,
    p,
    record p { recorder = set_devices_to_record (map decode_device devices) p.recorder },
    e,
    unfold set_devices_to_record in
        (λ w. record { thread = w.thread; fits = w.fits; seen = w.seen }, refl, refl),
    unfold set_devices in rw (e, set_devices),
  )
]

start-Touches :
    (index : ℕ) (t u : Server) (p : Process) (o : Outcome Process)
    → get_elem? t.custom_recorders index ≡ some p
    → start p ≡ o
    → start_custom_recording index t ≡ returned u
    → Touches t u
unfolding start_custom_recording
start-Touches index t u p (returned q) e f h =
    let kept = start-Kept p f in
    inr (
      index,
      p,
      q,
      e,
      (λ w. start-IsWf p w f, kept.1, kept.2),
      sym (returned-injective (rw (e, start_custom_recording, f) at h)),
    )
start-Touches index t u p threw e f h = cc (rw (e, start_custom_recording, f) at h)
start-Touches index t u p terminated e f h = cc (rw (e, start_custom_recording, f) at h)
start-Touches index t u p blocked e f h = cc (rw (e, start_custom_recording, f) at h)

pub start_custom_recording-Touches :
    (index : ℕ) (t u : Server) → start_custom_recording index t ≡ returned u → Touches t u
unfolding start_custom_recording
start_custom_recording-Touches index t u h =
    elim (Option-cases (get_elem? t.custom_recorders index)) [
      | inl e ↦ inl (sym (returned-injective (rw (e, start_custom_recording) at h)))
      | inr (p, e) ↦ start-Touches index t u p (start p) e refl h
    ]

stop-Touches :
    (env : Env) (now : ℕ) (schedule : List Action) (index : ℕ) (path : Bytes) (t u : Server)
    (p : Process) (o : Outcome (Bytes × Process))
    → get_elem? t.custom_recorders index ≡ some p
    → stop env now schedule p ≡ o
    → stop_custom_recording env now schedule index t ≡ returned (path, u)
    → Touches t u
unfolding stop_custom_recording
stop-Touches env now schedule index path t u p (returned (found, q)) e f h =
    let kept = stop-Kept env now schedule p f in
    inr (
      index,
      p,
      q,
      e,
      (λ w. stop-IsWf env now schedule p w f, kept.1, kept.2),
      sym (
          ap (λ (r : Bytes × Server). r.1)
            (returned-injective (rw (e, stop_custom_recording, f) at h))),
    )
stop-Touches env now schedule index path t u p threw e f h =
    cc (rw (e, stop_custom_recording, f) at h)
stop-Touches env now schedule index path t u p terminated e f h =
    cc (rw (e, stop_custom_recording, f) at h)
stop-Touches env now schedule index path t u p blocked e f h =
    cc (rw (e, stop_custom_recording, f) at h)

pub stop_custom_recording-Touches :
    (env : Env) (now : ℕ) (schedule : List Action) (index : ℕ) (path : Bytes) (t u : Server)
    → stop_custom_recording env now schedule index t ≡ returned (path, u)
    → Touches t u
unfolding stop_custom_recording
stop_custom_recording-Touches env now schedule index path t u h =
    elim (Option-cases (get_elem? t.custom_recorders index)) [
      | inl e ↦ inl (
          sym (
            ap (λ (r : Bytes × Server). r.1)
              (returned-injective (rw (e, stop_custom_recording) at h))))
      | inr (p, e) ↦
          stop-Touches env now schedule index path t u p (stop env now schedule p) e refl h
    ]

pub step-Touches :
    (env : Env) (a : Action) (index : ℕ) (t : Server) (p q : Process)
    → get_elem? t.custom_recorders index ≡ some p
    → step env a p ≡ some q
    → Touches t (with_recorder t index q)
step-Touches env a index t p q e h =
    let kept = step-Kept env a p h in
    inr (index, p, q, e, (λ w. step-IsWf env a p w h, kept.1, kept.2), refl)
