-- ===== src/Recorder/Text/Reader.antt =====
-- A reader of the recording format, which describes the format independently of the writer.
use test_runner.Prelude.{
  ℕ, zero, suc, ◌+◌, ◌-◌, ◌*◌, Bool, ◌&&◌, Option, none, some, List, [], ◌∷◌, leb, ◌==◌,
  if◌then◌else◌, Bytes, codes,
}
use test_runner.Prelude.Int.{ℤ, pos, negsuc}
use test_runner.Recorder.Text.{newline, space}

infixl 5 ◌>>=◌
abbrev ◌>>=◌ : {A B : Type 0} → Option A → (A → Option B) → Option B
none >>= f = none
some a >>= f = f a

abbrev pub is_digit : ℕ → Bool
is_digit c = leb b'0' c && leb c b'9'

-- The number that the leading digits spell behind `n`, and what follows them.
unfoldable pub read_number : ℕ → Bytes → ℕ × Bytes
read_number n [] = (n, [])
read_number n (c ∷ s) =
    let rest = read_number (n * 10 + (c - b'0')) s in if is_digit c then rest else (n, c ∷ s)

unfoldable pub expect : ℕ → Bytes → Option Bytes
expect c [] = none
expect c (d ∷ s) = if d == c then some s else none

-- A number and the character that ends it.
unfoldable pub read_field : ℕ → Bytes → Option (ℕ × Bytes)
read_field c s = let r = read_number 0 s in do rest ← expect c r.1; some (r.0, rest)

-- A number with an optional sign, and what follows it.
unfoldable pub read_signed : Bytes → Option (ℤ × Bytes)
read_signed [] = none
read_signed (d ∷ s) =
    let minus = read_number 0 s in
    let plus = read_number 0 (d ∷ s) in
    if d == b'-' then some (negsuc (minus.0 - 1), minus.1) else some (pos plus.0, plus.1)

-- The end of a line: a keysym behind a space, or none.
unfoldable pub read_keysym : Bytes → Option (ℕ × Bytes)
read_keysym [] = none
read_keysym (c ∷ s) =
    let field = read_field newline s in
    if c == newline then some (0, s) else if c == space then field else none

unfoldable pub expect_text : Bytes → Bytes → Option Bytes
expect_text [] s = some s
expect_text (c ∷ t) s = do rest ← expect c s; expect_text t rest

-- What a line says: the time of day in milliseconds, and the five numbers.
pub record Entry : Type 0 where
  pub time_of_day : ℕ
  pub device : ℕ
  pub type : ℕ
  pub code : ℕ
  pub value : ℤ
  pub keysym : ℕ

-- HH:MM:SS.mmm up to a closing bracket.
unfoldable pub read_time : Bytes → Option (ℕ × Bytes)
read_time s = do
  hours ← read_field b':' s
  minutes ← read_field b':' hours.1
  seconds ← read_field b'.' minutes.1
  millis ← read_field b']' seconds.1
  some (((hours.0 * 60 + minutes.0) * 60 + seconds.0) * 1000 + millis.0, millis.1)

unfoldable pub read_line : Bytes → Option (Entry × Bytes)
read_line s = do
  s1 ← expect b'[' s
  time ← read_time s1
  s2 ← expect_text (codes " passThrough ") time.1
  device ← read_field space s2
  type ← read_field space device.1
  code ← read_field space type.1
  value ← read_signed code.1
  keysym ← read_keysym value.1
  some (
    record {
      time_of_day = time.0;
      device = device.0;
      type = type.0;
      code = code.0;
      value = value.0;
      keysym = keysym.0;
    },
    keysym.1,
  )

-- All lines of a text, as many as are asked for.
unfoldable pub read_lines : ℕ → Bytes → Option (List Entry × Bytes)
read_lines zero s = some ([], s)
read_lines (suc n) s = do
  first ← read_line s
  others ← read_lines n first.1
  some (first.0 ∷ others.0, others.1)
