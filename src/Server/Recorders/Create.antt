-- ===== src/Server/Recorders/Create.antt =====
-- createCustomRecorder: what it accepts, and where the files of an accepted recorder go.
use test_runner.Prelude.{
  ◌≤◌, ℕ, ◌+◌, ◌-◌, ◌%◌, ◌^◌, ◌<◌, ◌≡◌, refl, sym, subst, ◌≢◌, ◌⊎◌, inl, inr, Bool, true, false,
  ◌||◌, [], ◌∷◌, ◌++◌, arith, ltb, ◌==◌, Bool-cases, Bytes, codes, length, All, All-append,
  length-append,
}
use mathlib.Core.List.{append-nil, append_assoc}
use test_runner.Syscalls.{Log, Kernel}
use test_runner.Xkb.{Xkb}
use test_runner.Recorder.{Recorder}
use test_runner.Recorder.Devices.{until_nul}
use test_runner.Recorder.Buffer.{dump_path}
use test_runner.Recorder.Process.{Process}
use test_runner.Recorder.Lifetime.{name_from, file_name, recording_names, new_recorder}
use test_runner.Server.{Server, max_custom_recorders}
use test_runner.Server.Recorders.{
  no_index, has_slash, has_dots, create_checked, create_custom_recorder,
}

abbrev pub Lacks : ℕ → Bytes → Type 0
Lacks b = All (λ c. c ≢ b)

has_slash_sound : (s : Bytes) → has_slash s ≡ false → Lacks b'/' s
unfolding has_slash
has_slash_sound [] h = tt
has_slash_sound (c ∷ s) h = ground (arith, has_slash_sound s)

name_from-Lacks : (acc s : Bytes) → Lacks b'/' s → name_from acc s ≡ acc ++ s
unfolding name_from
name_from-Lacks acc [] h = sym (append-nil acc)
name_from-Lacks acc (c ∷ s) h = elim (Bool-cases (c == b'/')) [
  | inl e ↦ absurd (h.0 (ground arith))
  | inr e ↦ rw (e, name_from-Lacks (acc ++ c ∷ []) s h.1) (append_assoc acc (c ∷ []) s)
]

-- A path directly in /tmp.
abbrev pub Confined : Bytes → Type 0
Confined path = (name : Bytes) × (path ≡ codes "/tmp/" ++ name) × Lacks b'/' name

-- Where a recorder made with this name writes.
fixed-Confined : (name : Bytes) → Lacks b'/' name → Confined (recording_names name false).0
unfolding recording_names file_name
fixed-Confined name h = (
  name ++ codes ".rrc",
  rw (name_from-Lacks [] name h),
  All-append _ name (codes ".rrc") h (omega arith),
)

continuous-Confined :
    (name file_ts : Bytes) (r : Recorder)
    → Lacks b'/' name
    → Lacks b'/' file_ts
    → r.filename ≡ (recording_names name true).0
    → Confined (dump_path file_ts r)
unfolding recording_names dump_path
continuous-Confined name file_ts r h t e = (
  name ++ (codes "_" ++ (file_ts ++ codes ".rrc")),
  rw e,
  All-append _ name _ h
      (All-append _ (codes "_") _ (omega arith) (All-append _ file_ts _ t (omega arith))),
)

new_recorder-filename :
    (xkb : Xkb) (name : Bytes) (seconds : ℕ) (continuous : Bool) (dir : Bytes) (k : Kernel)
    (log : Log)
    → (new_recorder xkb name seconds continuous dir k log).0.recorder.filename
      ≡ (recording_names name continuous).0
unfolding new_recorder
new_recorder-filename xkb name seconds continuous dir k log = refl

-- The file that a recorder writes, given the time stamp of a dump.
abbrev pub file_of : Bool → Bytes → Recorder → Bytes
file_of false file_ts r = r.filename
file_of true file_ts r = dump_path file_ts r

file_of-Confined :
    (continuous : Bool) (name file_ts : Bytes) (r : Recorder)
    → Lacks b'/' name
    → Lacks b'/' file_ts
    → r.filename ≡ (recording_names name continuous).0
    → Confined (file_of continuous file_ts r)
file_of-Confined false name file_ts r h t e = subst Confined (sym e) (fixed-Confined name h)
file_of-Confined true name file_ts r h t e = continuous-Confined name file_ts r h t e

-- A refusal: the name has a slash or two dots in a row, or the table is full.
abbrev pub Refuses : Bytes → Server → ℕ × Server → Type 0
Refuses name s r =
    (r.0 ≡ no_index)
    × (r.1 ≡ s)
    × (((has_slash name || has_dots name) ≡ true)
        ⊎ (max_custom_recorders ≤ length s.custom_recorders))

-- An accepted recorder is the last of the table, and its file lies in /tmp.
abbrev pub Accepts : Bool → Bytes → Server → ℕ × Server → Type 0
Accepts continuous file_ts s r =
    (p : Process) × (length s.custom_recorders < max_custom_recorders)
    × (r.0 ≡ length s.custom_recorders)
    × (r.1 ≡ record s { custom_recorders = s.custom_recorders ++ p ∷ [] })
    × Confined (file_of continuous file_ts p.recorder)

not_or : (a b : Bool) → (a || b) ≡ false → a ≡ false
not_or false b h = refl
not_or true b h = cc

small_index : (n : ℕ) → n < max_custom_recorders → (n + 1 - 1) % 2 ^ 8 ≡ n
small_index n h = omega arith

create_checked-Accepts :
    (xkb : Xkb) (k : Kernel) (log : Log) (name : Bytes) (seconds : ℕ) (continuous : Bool)
    (file_ts : Bytes) (s : Server)
    → Lacks b'/' file_ts
    → (let r = (create_checked xkb name seconds continuous s k log).0 in
        Refuses name s r ⊎ Accepts continuous file_ts s r)
unfolding create_checked
create_checked-Accepts xkb k log name seconds continuous file_ts s t =
    elim (Bool-cases (has_slash name || has_dots name)) [
      | inl e ↦ rw e (inl (refl, refl, inl refl))
      | inr e ↦ elim (Bool-cases (ltb (length s.custom_recorders) max_custom_recorders)) [
        | inr full ↦ rw (e, full) (inl (refl, refl, inr (ground arith)))
        | inl room ↦
            rw (e, room)
              (inr (
                let p = (new_recorder xkb name seconds continuous (codes "/dev/input") k log).0 in
                (
                  p,
                  ground arith,
                  rw (length-append s.custom_recorders (p ∷ []))
                      (small_index (length s.custom_recorders) (ground arith)),
                  refl,
                  file_of-Confined continuous name file_ts p.recorder
                      (has_slash_sound name (not_or _ _ e)) t
                      (new_recorder-filename xkb name seconds continuous (codes "/dev/input") k
                        log),
                )))
      ]
    ]

-- For every answer of the kernel, createCustomRecorder either returns 255 and changes nothing, and
-- then the name up to its first zero byte has a slash or two dots in a row, or there are 20
-- recorders already; or there were fewer, it returns their number as the index, it puts one recorder
-- behind them and changes nothing else, and the new recorder's file lies directly in /tmp: the name
-- set at once for a fixed length, and the name that a dump forms, with a time stamp free of
-- slashes, for a continuous recording.
pub create_custom_recorder-Accepts :
    (xkb : Xkb) (k : Kernel) (log : Log) (name : Bytes) (seconds : ℕ) (continuous : Bool)
    (file_ts : Bytes) (s : Server)
    → Lacks b'/' file_ts
    → (let r = (create_custom_recorder xkb name seconds continuous s k log).0 in
        Refuses (until_nul name) s r ⊎ Accepts continuous file_ts s r)
unfolding create_custom_recorder
create_custom_recorder-Accepts xkb k log name seconds continuous file_ts s t =
    create_checked-Accepts xkb k log (until_nul name) seconds continuous file_ts s t
