-- ===== src/Server/Recorders/Life/Indices.antt =====
-- What the index of a recorder stands for over a sequence of calls.
use test_runner.Prelude.{
  ℕ, zero, suc, ◌≡◌, refl, sym, ap, ◌∙◌, subst, inl, inr, true, false, some, List, [], ◌∷◌, ◌++◌,
  arith, Bool-cases, get_elem?, get_elem?-set_self, get_elem?-set_ne, set, ◌==◌, ◌≢◌,
}
use mathlib.Core.Option.{some-injective}
use test_runner.Xkb.{Xkb}
use test_runner.Recorder.Process.{Env, Process}
use test_runner.Recorder.Devices.{until_nul}
use test_runner.Server.Recorders.Table.{get_elem?-lt}
use test_runner.Server.{Server}
use test_runner.Server.Recorders.{create_custom_recorder}
use test_runner.Server.Recorders.Life.{
  Serves, waits, creates, sets, starts, stops, snapshots, runs, snapshot_runs, IsSound,
}
use test_runner.Server.Recorders.Life.Touches.{
  Touches, set_devices-Touches, start_custom_recording-Touches, stop_custom_recording-Touches,
  step-Touches,
}
use test_runner.Server.Recorders.Life.Course.{
  Adds, create_checked-Adds, get_snapshot-Restarts, Serves-IsSound,
}

-- The index still stands for a recorder of the same file name and kind.
abbrev pub Named : Process → ℕ → Server → Type 0
Named p index t =
    (q : Process) × (get_elem? t.custom_recorders index ≡ some q)
    × (q.recorder.filename ≡ p.recorder.filename)
    × (q.recorder.continuous ≡ p.recorder.continuous)

equal_index : (j i : ℕ) → j == i ≡ true → j ≡ i
equal_index j i h = ground arith

other_index : (j i : ℕ) → j == i ≡ false → j ≢ i
other_index j i h = ground arith

Touches-Named : (p : Process) (i : ℕ) (t u : Server) → Touches t u → Named p i t → Named p i u
Touches-Named p i t u (inl e) h = subst (Named p i) (sym e) h
Touches-Named p i t u (inr (j, old, new, e, turns, changed)) (q, at, name, kind) =
    subst (Named p i) (sym changed) (elim (Bool-cases (j == i)) [
      | inr n ↦
          (q, get_elem?-set_ne t.custom_recorders j i new (other_index j i n) ∙ at, name, kind)
      | inl n ↦
          let same_index = equal_index j i n in
          let old_is : old ≡ q =
            some-injective _ _ (sym e ∙ ap (get_elem? t.custom_recorders) same_index ∙ at) in
          (
            new,
            ap (get_elem? (set t.custom_recorders j new)) (sym same_index)
                ∙ get_elem?-set_self t.custom_recorders j new (get_elem?-lt t.custom_recorders j e),
            turns.1 ∙ ap (λ (r : Process). r.recorder.filename) old_is ∙ name,
            turns.2 ∙ ap (λ (r : Process). r.recorder.continuous) old_is ∙ kind,
          )
    ])

get_elem?-append {ℓ} :
    {A : Type ℓ} (xs ys : List A) (i : ℕ) {a : A}
    → get_elem? xs i ≡ some a
    → get_elem? (xs ++ ys) i ≡ some a
get_elem?-append [] ys i h = cc
get_elem?-append (x ∷ xs) ys zero h = h
get_elem?-append (x ∷ xs) ys (suc i) h = get_elem?-append xs ys i h

Adds-Named : (p : Process) (i : ℕ) (t u : Server) → Adds t u → Named p i t → Named p i u
Adds-Named p i t u (inl e) h = subst (Named p i) (sym e) h
Adds-Named p i t u (inr (new, w, room, e)) (q, at, name, kind) =
    subst (Named p i) (sym e) (q, get_elem?-append t.custom_recorders (new ∷ []) i at, name, kind)

-- Over any such sequence the index of a recorder keeps standing for a recorder of the same file name
-- and kind: no call removes a recorder or moves it. The sequence starts from a state with at most 20
-- recorders, all well formed.
pub Serves-Named :
    {env : Env} {xkb : Xkb} {s t : Server} (index : ℕ) (p : Process)
    → IsSound s
    → get_elem? s.custom_recorders index ≡ some p
    → Serves env xkb s t
    → Named p index t
unfolding create_custom_recorder
Serves-Named index p v h waits = (p, h, refl, refl)
Serves-Named {env} {xkb} index p v h (creates {t} r k log name seconds continuous) =
    Adds-Named p index t _ (create_checked-Adds env xkb k log (until_nul name) seconds continuous t)
      (Serves-Named index p v h r)
Serves-Named index p v h (sets {t} r i devices) =
    Touches-Named p index t _ (set_devices-Touches i devices t) (Serves-Named index p v h r)
Serves-Named index p v h (starts {t} {u} r i e) =
    Touches-Named p index t u (start_custom_recording-Touches i t u e) (Serves-Named index p v h r)
Serves-Named {env} index p v h (stops {t} {u} r now schedule i path e) =
    Touches-Named p index t u (stop_custom_recording-Touches env now schedule i path t u e)
      (Serves-Named index p v h r)
Serves-Named {env} index p v h (snapshots {t} {u} r now schedule path e) =
    let (q, w, same) =
      get_snapshot-Restarts env now schedule t u path t.snapshot_recorder refl
        (Serves-IsSound v r).snapshot e in
    subst (Named p index) (sym same) (Serves-Named index p v h r)
Serves-Named {env} index p v h (runs {t} {p = o} {q} r i a e f) =
    Touches-Named p index t _ (step-Touches env a i t o q e f) (Serves-Named index p v h r)
Serves-Named index p v h (snapshot_runs {t} r a e f) = Serves-Named index p v h r
