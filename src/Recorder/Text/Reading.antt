-- ===== src/Recorder/Text/Reading.antt =====
-- A reader of .rrc lines, written from the format alone, gives back what the recorder printed.
use test_runner.Prelude.{
  ℕ, zero, suc, ◌+◌, ◌-◌, ◌/◌, ◌%◌, ◌<◌, ◌≡◌, refl, ap, ◌∙◌, inl, inr, true, false, some, List, [],
  ◌∷◌, ◌++◌, map, arith, ltb, ◌==◌, Bool-cases, Bytes, codes, length,
}
use test_runner.Prelude.Int.{ℤ, pos, negsuc}
use mathlib.Core.List.{append_assoc}
use test_runner.Recorder.{InputRecord, device_code}
use test_runner.Recorder.Text.{
  digits, decimal, decimal_int, zeros, padded, current_time_str, newline, space, keysym_field,
  record_line, record_lines,
}
use test_runner.Recorder.Text.Reader.{
  is_digit, read_number, expect, read_field, read_signed, read_keysym, expect_text, Entry,
  read_time, read_line, read_lines,
}

read_number-digits :
    (fuel n : ℕ) (out : Bytes) → n < fuel → read_number 0 (digits fuel n out) ≡ read_number n out
unfolding digits
read_number-digits zero n out h = absurd (omega arith)
read_number-digits (suc fuel) n out h = elim (Bool-cases (ltb n 10)) [
  | inl small ↦ rw small (unfold read_number in ground arith)
  | inr large ↦ rw large (
      read_number-digits fuel (n / 10) ((b'0' + n % 10) ∷ out) (ground arith)
      ∙ unfold read_number in ground arith)
]

digits-append :
    (fuel n : ℕ) (out rest : Bytes) → digits fuel n out ++ rest ≡ digits fuel n (out ++ rest)
unfolding digits
digits-append zero n out rest = refl
digits-append (suc fuel) n out rest = elim (Bool-cases (ltb n 10)) [
  | inl small ↦ rw small
  | inr large ↦ rw large (digits-append fuel (n / 10) ((b'0' + n % 10) ∷ out) rest)
]

read_number-decimal :
    (n : ℕ) (rest : Bytes) → read_number 0 (decimal n ++ rest) ≡ read_number n rest
unfolding decimal
read_number-decimal n rest =
    rw (digits-append (suc n) n [] rest) (read_number-digits (suc n) n rest (omega arith))

read_number-zeros : (k : ℕ) (s : Bytes) → read_number 0 (zeros k ++ s) ≡ read_number 0 s
unfolding zeros read_number
read_number-zeros zero s = refl
read_number-zeros (suc k) s = read_number-zeros k s

read_number_stop :
    (n c : ℕ) (rest : Bytes) → is_digit c ≡ false → read_number n (c ∷ rest) ≡ (n, c ∷ rest)
unfolding read_number
read_number_stop n c rest h = rw h

expect_self : (c : ℕ) (rest : Bytes) → expect c (c ∷ rest) ≡ some rest
unfolding expect
expect_self c rest = ground arith

-- A separator is no digit.
module _ (c : ℕ) (sep : is_digit c ≡ false) where
  read_field-decimal :
      (n : ℕ) (rest : Bytes) → read_field c (decimal n ++ c ∷ rest) ≡ some (n, rest)
  unfolding read_field
  read_field-decimal n rest =
      rw (read_number-decimal n (c ∷ rest), read_number_stop n c rest sep, expect_self c rest)

  read_field-padded :
      (w n : ℕ) (rest : Bytes) → read_field c (padded w (decimal n) ++ c ∷ rest) ≡ some (n, rest)
  unfolding read_field padded
  read_field-padded w n rest = simp (
    append_assoc,
    read_number-zeros,
    read_number-decimal,
    read_number_stop n c rest sep,
    expect_self,
  )

-- A printed number begins with a digit.
digits_head :
    (fuel n : ℕ) (out : Bytes)
    → n < fuel
    → (d : ℕ) × (t : Bytes) × (digits fuel n out ≡ d ∷ t) × (is_digit d ≡ true)
unfolding digits
digits_head zero n out h = absurd (omega arith)
digits_head (suc fuel) n out h = elim (Bool-cases (ltb n 10)) [
  | inl small ↦ (b'0' + n, out, rw small, ground arith)
  | inr large ↦ rw large (digits_head fuel (n / 10) ((b'0' + n % 10) ∷ out) (ground arith))
]

read_signed-cons :
    (d : ℕ) (s : Bytes)
    → is_digit d ≡ true
    → read_signed (d ∷ s) ≡ some (pos (read_number 0 (d ∷ s)).0, (read_number 0 (d ∷ s)).1)
unfolding read_signed
read_signed-cons d s h = ground arith

read_signed-decimal :
    (n : ℕ) (rest : Bytes)
    → read_signed (decimal n ++ rest) ≡ some (pos (read_number n rest).0, (read_number n rest).1)
read_signed-decimal n rest =
    let head = digits_head (suc n) n [] (omega arith) in
    let shape : decimal n ≡ head.0 ∷ head.1 = unfold decimal in head.2 in
    let split : read_number 0 (head.0 ∷ head.1 ++ rest) ≡ read_number n rest =
      (rw shape at (read_number-decimal n rest)) in
    rw shape (read_signed-cons head.0 (head.1 ++ rest) head.3 ∙ rw split)

read_signed-decimal_int :
    (v : ℤ) (c : ℕ) (rest : Bytes)
    → is_digit c ≡ false
    → read_signed (decimal_int v ++ c ∷ rest) ≡ some (v, c ∷ rest)
unfolding decimal_int
read_signed-decimal_int (pos n) c rest h =
    read_signed-decimal n (c ∷ rest) ∙ rw (read_number_stop n c rest h)
read_signed-decimal_int (negsuc n) c rest h =
    unfold read_signed in
    rw (read_number-decimal (suc n) (c ∷ rest), read_number_stop (suc n) c rest h)
      (let back : suc n - 1 ≡ n = omega arith in rw back)

read_signed-keysym_field :
    (v : ℤ) (k : ℕ) (rest : Bytes)
    → read_signed (decimal_int v ++ (keysym_field k ++ newline ∷ rest))
      ≡ some (v, keysym_field k ++ newline ∷ rest)
unfolding keysym_field
read_signed-keysym_field v k rest = elim (Bool-cases (k == 0)) [
  | inl e ↦ rw e (read_signed-decimal_int v newline rest refl)
  | inr e ↦ rw e (read_signed-decimal_int v space (decimal k ++ newline ∷ rest) refl)
]

read_keysym-keysym_field :
    (k : ℕ) (rest : Bytes) → read_keysym (keysym_field k ++ newline ∷ rest) ≡ some (k, rest)
unfolding keysym_field read_keysym
read_keysym-keysym_field k rest = elim (Bool-cases (k == 0)) [
  | inl e ↦ rw e (let zero_key : k ≡ 0 = ground arith in rw zero_key)
  | inr e ↦ rw e (read_field-decimal newline refl k rest)
]

abbrev day : ℕ
day = 86400000

abbrev pub entry_of : InputRecord → Entry
entry_of r = record {
  time_of_day = r.ts_abs % day;
  device = device_code r.dev_type;
  type = r.input_type;
  code = r.input_code;
  value = r.input_val;
  keysym = r.keysym;
}

read_time-current_time_str :
    (ms : ℕ) (rest : Bytes) → read_time (current_time_str ms ++ b']' ∷ rest) ≡ some (ms % day, rest)
unfolding read_time current_time_str
read_time-current_time_str ms rest =
    simp
      (
        append_assoc,
        read_field-padded b':' refl,
        read_field-padded b'.' refl,
        read_field-padded b']' refl,
      )
      (ap (λ t. some (t, rest)) (omega arith))

expect_text_self :
    (rest : Bytes) → expect_text (codes " passThrough ") (codes " passThrough " ++ rest) ≡ some rest
unfolding expect_text expect
expect_text_self rest = refl

-- The reader gives back every field of a printed record, the time modulo a day, and leaves what
-- follows the line.
read_line-record_line :
    (r : InputRecord) (rest : Bytes) → read_line (record_line r ++ rest) ≡ some (entry_of r, rest)
unfolding record_line read_line
read_line-record_line r rest = simp (
  append_assoc,
  expect_self,
  read_time-current_time_str,
  expect_text_self,
  read_field-decimal space refl,
  read_signed-keysym_field,
  read_keysym-keysym_field,
)

-- A recording's lines are read back in order: what the recorder wrote determines every record, up
-- to the day.
pub read_lines-record_lines :
    (rs : List InputRecord) (rest : Bytes)
    → read_lines (length rs) (record_lines rs ++ rest) ≡ some (map entry_of rs, rest)
unfolding read_lines record_lines
read_lines-record_lines [] rest = refl
read_lines-record_lines (r ∷ rs) rest =
    simp (append_assoc, read_line-record_line, read_lines-record_lines rs)
