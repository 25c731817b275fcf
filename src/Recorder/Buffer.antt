-- ===== src/Recorder/Buffer.antt =====
-- TestRunnerRecorder::processBuffer: the rolling window of a continuous recording and its dump.
pub mod Window
use test_runner.Prelude.{
  ℕ, zero, suc, ◌+◌, ◌-◌, ◌*◌, ◌/◌, ◌%◌, ◌^◌, ◌≤◌, ◌<◌, ◌≡◌, refl, sym, ap, ◌∙◌, subst, ◌≢◌, ◌↔◌,
  ◌⊎◌, inl, inr, Bool, true, false, ◌&&◌, ◌||◌, not, Option, none, some, List, [], ◌∷◌, ◌++◌, map,
  arith, ltb, leb, ◌==◌, if◌then◌else◌, Bool-cases, Option-cases, Bytes, codes, bytes_eq, length,
  get_elem?, get_or, set, take, drop, All, All-append, length-append, length-set,
  get_elem?-set_self, get_elem?-set_ne,
}
use test_runner.Prelude.Int.{
  ℤ, pos, negsuc, pos_part, neg_part, sub_ℕ, ◌-ℤ◌, ◌≤ℤ◌, ltb_ℤ, eqb_ℤ, to_unsigned, to_signed,
  wrap_signed,
}
use test_runner.Recorder.{InputRecord, Recorder}
use test_runner.Recorder.Text.{header, record_lines}

-- FILE_MAX_LINES.
abbrev pub file_max_lines : ℕ
file_max_lines = 500000

-- The loop that pops the front while it is older than the cutoff or the buffer is too long.
pub trim : ℕ → ℤ → List InputRecord → List InputRecord
trim max_lines cutoff [] = []
trim max_lines cutoff (r ∷ rs) =
    let rest = trim max_lines cutoff rs in
    if ltb_ℤ (pos r.ts_abs) cutoff || ltb max_lines (length (r ∷ rs)) then rest else r ∷ rs

-- One round of the loop, at the given time.
unfoldable pub trim_buffer : ℕ → Recorder → Recorder
trim_buffer now r = record r {
  input_buf = trim file_max_lines (pos now -ℤ pos r.recording_length) r.input_buf;
}

-- The final trim, by age only.
pub final_trim : ℤ → List InputRecord → List InputRecord
final_trim start [] = []
final_trim start (r ∷ rs) =
    let rest = final_trim start rs in if ltb_ℤ (pos r.ts_abs) start then rest else r ∷ rs

abbrev pub rec_start_time : Recorder → ℤ
rec_start_time r = pos r.stop_time -ℤ pos r.recording_length

-- The time that the header states. In the first branch the window's start is not negative.
unfoldable pub dump_start : Recorder → ℕ
dump_start r =
    if ltb_ℤ (pos r.stop_time -ℤ pos r.start_time) (pos r.recording_length)
    then r.start_time
    else pos_part (rec_start_time r)

unfoldable pub dump_path : Bytes → Recorder → Bytes
dump_path file_ts r = codes "/tmp/" ++ (r.filename ++ (codes "_" ++ (file_ts ++ codes ".rrc")))

-- The recorder after the final trim and the dump, and the file written.
unfoldable pub finish_buffer : Bytes → Recorder → Recorder × (Bytes × Bytes)
finish_buffer file_ts r =
    let kept = final_trim (rec_start_time r) r.input_buf in
    let path = dump_path file_ts r in
    (
      record r { input_buf = kept; recording_path = path },
      (path, header (dump_start r) ++ record_lines kept),
    )
