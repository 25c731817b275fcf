-- ===== src/Recorder/Buffer/Window.antt =====
-- processBuffer keeps the window that it means to keep: over a buffer in the order of time, the two
-- trims are filters by age, and the dump writes the window with the window's start.
use test_runner.Prelude.{
  ℕ, suc, ◌+◌, ◌-◌, ◌≤◌, ◌<◌, ◌≡◌, refl, sym, ap, ◌∙◌, inl, inr, true, false, List, [], ◌∷◌, ◌++◌,
  arith, ltb, Bool-cases, Bytes, codes, length, drop, All,
}
use test_runner.Prelude.Int.{ℤ, pos, pos_part, neg_part, ◌-ℤ◌, ltb_ℤ}
use Prim.Native.Nat.{max}
use mathlib.Core.List.{filter, append_assoc}
use mathlib.Core.Logic.{if_pos, if_neg}
use native.Mathlib.Decide.{dec_le}
use test_runner.Recorder.{InputRecord, Recorder}
use test_runner.Recorder.Text.{
  digits, decimal, recording_format_version, current_time_str, header, record_lines,
}
use test_runner.Recorder.Buffer.{
  trim, final_trim, rec_start_time, dump_start, dump_path, finish_buffer,
}

-- The buffer is in the order of its timestamps.
abbrev pub IsSorted : List InputRecord → Type 0
IsSorted [] = Unit {0}
IsSorted (r ∷ rs) = All (λ q. r.ts_abs ≤ q.ts_abs) rs × IsSorted rs

-- The records from a given time on.
abbrev pub since : ℤ → List InputRecord → List InputRecord
since t = filter (λ r. dec_le (pos_part t) (r.ts_abs + neg_part t))

-- The last n entries.
abbrev pub last {ℓ} : {A : Type ℓ} → ℕ → List A → List A
last n xs = drop (length xs - n) xs

-- From a record that is young enough on, all are.
since_young :
    (t : ℤ) (m : ℕ) (rs : List InputRecord)
    → pos_part t ≤ m + neg_part t
    → All (λ q. m ≤ q.ts_abs) rs
    → since t rs ≡ rs
since_young t m [] h a = refl
since_young t m (r ∷ rs) h a =
    rw (if_pos (dec_le (pos_part t) (r.ts_abs + neg_part t)) (omega arith))
      (ap (◌∷◌ r) (since_young t m rs h a.1))

last_step :
    (n : ℕ) (r : InputRecord) (rs : List InputRecord)
    → n < length (r ∷ rs)
    → last n (r ∷ rs) ≡ last n rs
last_step n r rs h = let e : length (r ∷ rs) - n ≡ suc (length rs - n) = omega arith in rw e

last_short : (n : ℕ) (rs : List InputRecord) → length rs ≤ n → last n rs ≡ rs
last_short n rs h = let e : length rs - n ≡ 0 = omega arith in rw e

-- In a buffer whose records are in the order of their times, a round of trimming keeps the records
-- that are not older than the cutoff, and of these the last `max_lines`.
pub trim-since :
    (max_lines : ℕ) (cutoff : ℤ) (rs : List InputRecord)
    → IsSorted rs
    → trim max_lines cutoff rs ≡ last max_lines (since cutoff rs)
unfolding trim
trim-since max_lines cutoff [] s = sym (last_short max_lines [] (omega arith))
trim-since max_lines cutoff (r ∷ rs) s =
    elim (dec_le (pos_part cutoff) (r.ts_abs + neg_part cutoff)) [
      | no old ↦
          let test : ltb_ℤ (pos r.ts_abs) cutoff ≡ true = ground arith in
          rw (test, if_neg (dec_le (pos_part cutoff) (r.ts_abs + neg_part cutoff)) old)
            (trim-since max_lines cutoff rs s.1)
      | yes young ↦
          let test : ltb_ℤ (pos r.ts_abs) cutoff ≡ false = ground arith in
          let tail = since_young cutoff r.ts_abs rs young s.0 in
          rw (test, if_pos (dec_le (pos_part cutoff) (r.ts_abs + neg_part cutoff)) young, tail)
            (elim (Bool-cases (ltb max_lines (length (r ∷ rs)))) [
              | inl long ↦ rw long (
                  trim-since max_lines cutoff rs s.1
                  ∙ rw tail (sym (last_step max_lines r rs (ground arith))))
              | inr short ↦ rw short (sym (last_short max_lines (r ∷ rs) (ground arith)))
            ])
    ]

-- The final trim keeps the records from the start of the window on.
pub final_trim-since :
    (start : ℤ) (rs : List InputRecord) → IsSorted rs → final_trim start rs ≡ since start rs
unfolding final_trim
final_trim-since start [] s = refl
final_trim-since start (r ∷ rs) s = elim (dec_le (pos_part start) (r.ts_abs + neg_part start)) [
  | no old ↦
      let test : ltb_ℤ (pos r.ts_abs) start ≡ true = ground arith in
      rw (test, if_neg (dec_le (pos_part start) (r.ts_abs + neg_part start)) old)
        (final_trim-since start rs s.1)
  | yes young ↦
      let test : ltb_ℤ (pos r.ts_abs) start ≡ false = ground arith in
      rw (
        test,
        if_pos (dec_le (pos_part start) (r.ts_abs + neg_part start)) young,
        since_young start r.ts_abs rs young s.0,
      )
]

dump_start-max : (r : Recorder) → dump_start r ≡ max r.start_time (r.stop_time - r.recording_length)
unfolding dump_start ◌-ℤ◌
dump_start-max r = ground arith

-- The two lines before the records, "version 2" and the time in brackets.
abbrev pub first_lines : ℕ → Bytes
first_lines ms = codes "version 2" ++ (10 ∷ b'[' ∷ (current_time_str ms ++ (b']' ∷ 10 ∷ [])))

header-first_lines : (ms : ℕ) → header ms ≡ first_lines ms
unfolding header decimal digits recording_format_version
header-first_lines ms =
    ap (λ text. codes "version 2" ++ (10 ∷ b'[' ∷ text))
      (append_assoc (current_time_str ms) (b']' ∷ []) (10 ∷ []))

-- The dump of a buffer in the order of time: its file holds, behind the version 2 and the later of
-- the start of the recording and the start of the window, the lines of exactly the buffered
-- records that are not older than the window's length before the stop; these stay in the buffer,
-- and the recording's path becomes the file's.
pub finish_buffer-window :
    (file_ts : Bytes) (r : Recorder)
    → IsSorted r.input_buf
    → finish_buffer file_ts r ≡ (
      record r {
        input_buf = since (rec_start_time r) r.input_buf;
        recording_path = dump_path file_ts r;
      },
      (
        dump_path file_ts r,
        first_lines (max r.start_time (r.stop_time - r.recording_length))
            ++ record_lines (since (rec_start_time r) r.input_buf),
      ),
    )
unfolding finish_buffer
finish_buffer-window file_ts r s =
    rw (final_trim-since (rec_start_time r) r.input_buf s, dump_start-max r, header-first_lines)
