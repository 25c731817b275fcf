-- ===== src/Recorder/Text.antt =====
-- The .rrc file: TestRunnerRecorder::current_time_str, and the lines that Record() and
-- processBuffer() write.
pub mod Reader
pub mod Reading
use test_runner.Prelude.{
  ℕ, zero, suc, ◌+◌, ◌-◌, ◌*◌, ◌/◌, ◌%◌, ◌^◌, ◌≤◌, ◌<◌, ◌≡◌, refl, sym, ap, ◌∙◌, subst, ◌≢◌, ◌↔◌,
  ◌⊎◌, inl, inr, Bool, true, false, ◌&&◌, ◌||◌, not, Option, none, some, List, [], ◌∷◌, ◌++◌, map,
  arith, ltb, leb, ◌==◌, if◌then◌else◌, Bool-cases, Option-cases, Bytes, codes, bytes_eq, length,
  get_elem?, get_or, set, take, drop, All, All-append, length-append, length-set,
  get_elem?-set_self, get_elem?-set_ne,
}
use test_runner.Prelude.Int.{
  ℤ, pos, negsuc, pos_part, neg_part, sub_ℕ, ◌-ℤ◌, ◌≤ℤ◌, ltb_ℤ, eqb_ℤ, to_unsigned, to_signed,
  wrap_signed,
}
use test_runner.Recorder.{DeviceType, InputRecord, device_code}

-- An unsigned integer as `operator<<` prints it. The fuel bounds the number of digits.
unfoldable pub digits : ℕ → ℕ → Bytes → Bytes
digits zero n out = out
digits (suc fuel) n out =
    let rest = digits fuel (n / 10) ((b'0' + n % 10) ∷ out) in
    if ltb n 10 then (b'0' + n) ∷ out else rest

unfoldable pub decimal : ℕ → Bytes
decimal n = digits (suc n) n []

unfoldable pub decimal_int : ℤ → Bytes
decimal_int (pos n) = decimal n
decimal_int (negsuc n) = b'-' ∷ decimal (suc n)

pub zeros : ℕ → Bytes
zeros zero = []
zeros (suc n) = b'0' ∷ zeros n

-- std::setfill('0') << std::setw(w).
unfoldable pub padded : ℕ → Bytes → Bytes
padded w s = zeros (w - length s) ++ s

-- Milliseconds since the epoch as HH:MM:SS.mmm, the hours modulo 24.
unfoldable pub current_time_str : ℕ → Bytes
current_time_str ms =
    let hours = ms / 3600000 % 24 in
    let ms1 = ms % 3600000 in
    let minutes = ms1 / 60000 in
    let ms2 = ms1 % 60000 in
    let seconds = ms2 / 1000 in
    let ms3 = ms2 % 1000 in
    padded 2 (decimal hours)
    ++ (b':' ∷ padded 2 (decimal minutes)
        ++ (b':' ∷ padded 2 (decimal seconds) ++ (b'.' ∷ padded 3 (decimal ms3))))

abbrev pub newline : ℕ
newline = 10

abbrev pub space : ℕ
space = 32

unfoldable pub recording_format_version : ℕ
recording_format_version = 2

-- The first two lines of a recording.
unfoldable pub header : ℕ → Bytes
header start =
    codes "version "
    ++ decimal recording_format_version
    ++ (newline ∷ codes "[" ++ current_time_str start ++ codes "]" ++ (newline ∷ []))

unfoldable pub keysym_field : ℕ → Bytes
keysym_field k = if k == 0 then [] else space ∷ decimal k

-- One recorded event.
unfoldable pub record_line : InputRecord → Bytes
record_line r =
    codes "["
    ++ (current_time_str r.ts_abs
        ++ (codes "] passThrough "
            ++ (decimal (device_code r.dev_type)
                ++ (space ∷ decimal r.input_type
                    ++ (space ∷ decimal r.input_code
                        ++ (space ∷ decimal_int r.input_val
                            ++ (keysym_field r.keysym ++ (newline ∷ []))))))))

unfoldable pub record_lines : List InputRecord → Bytes
record_lines [] = []
record_lines (r ∷ rs) = record_line r ++ record_lines rs
