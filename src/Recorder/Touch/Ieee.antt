-- ===== src/Recorder/Touch/Ieee.antt =====
-- The arithmetic of `double` in TestRunnerRecorder::transform_touch_coordinates, operation by
-- operation: what IEEE 754 says of binary64 with rounding to the nearest, on numbers from zero up.
use test_runner.Prelude.{ℕ, ◌+◌, ◌-◌, ◌*◌, ◌/◌, ◌^◌, ◌≤◌, ◌<◌, ◌≡◌, ◌⊎◌, arith, ltb}
use test_runner.Prelude.Int.{pos}
use native.Mathlib.Nat.{mul-le-mul_left, mul-le-mul_right, mul-le-mul, le_of_mul-le-mul_left}
use test_runner.Recorder.Touch.{Floats}

-- The fraction p/q differs from n/d by at most 2^-53 of n/d.
pub record Near (p q n d : ℕ) : Type 0 where
  pub proper : 0 < q
  pub above : (p * d) * 2 ^ 53 ≤ (n * q) * (2 ^ 53 + 1)
  pub below : (n * q) * (2 ^ 53 - 1) ≤ (p * d) * 2 ^ 53

-- The fraction n/d is zero, or of a size at which a double keeps 53 significant bits. That range is
-- much wider.
abbrev pub Normal : ℕ → ℕ → Type 0
Normal n d = (n ≡ 0) ⊎ ((d ≤ n * 2 ^ 64) × (n < d * 2 ^ 64))

-- `Is x n d`: the double x is the number n/d. An int is a double; the quotient and the product of two
-- doubles are rounded to the nearest double, which is within 2^-53 of the exact value; the conversion
-- to int drops the fraction, where the result is an int.
pub record IsIeee (fl : Floats) : Type 1 where
  pub Is : fl.Double → ℕ → ℕ → Type 0
  pub of_int : (n : ℕ) → n < 2 ^ 31 → Is (fl.of_int (pos n)) n 1
  pub is_positive : {x : fl.Double} {n d : ℕ} → Is x n d → fl.is_positive x ≡ ltb 0 n
  pub div :
      {x y : fl.Double} {n d m e : ℕ}
      → Is x n d
      → Is y m e
      → 0 < m
      → Normal (n * e) (d * m)
      → (p : ℕ) × (q : ℕ) × Is (fl.div x y) p q × Near p q (n * e) (d * m)
  pub mul :
      {x y : fl.Double} {n d m e : ℕ}
      → Is x n d
      → Is y m e
      → Normal (n * m) (d * e)
      → (p : ℕ) × (q : ℕ) × Is (fl.mul x y) p q × Near p q (n * m) (d * e)
  pub to_int :
      {x : fl.Double} {n d : ℕ} → Is x n d → 0 < d → n < 2 ^ 31 * d → fl.to_int x ≡ pos (n / d)

-- Two roundings: u/v of the product a p/q, and p/q of the quotient t/r, where a is at most r.
two_roundings :
    (M N t r a p q u v : ℕ)
    → (p * r) * M ≤ (t * q) * N
    → (u * q) * M ≤ ((a * p) * v) * N
    → a ≤ r
    → 0 < q
    → 0 < r
    → u * (M * M) ≤ (t * v) * (N * N)
two_roundings M N t r a p q u v h g le q_pos r_pos =
    let positive : 0 < q * r = omega (arith, mul-le-mul q_pos r_pos) in
    let product = mul-le-mul_left (r * M) g in
    let quotient = mul-le-mul_left (a * (v * N)) h in
    let part = mul-le-mul_left (t * (q * (v * (N * N)))) le in
    le_of_mul-le-mul_left {k = q * r} (omega (arith, product, quotient, part)) positive

-- They do not carry a number up to t past the next integer.
pub two_roundings-lt :
    (t r a p q u v : ℕ)
    → t < 2 ^ 20
    → (p * r) * 2 ^ 53 ≤ (t * q) * (2 ^ 53 + 1)
    → (u * q) * 2 ^ 53 ≤ ((a * p) * v) * (2 ^ 53 + 1)
    → a ≤ r
    → 0 < q
    → 0 < r
    → 0 < v
    → u < (t + 1) * v
two_roundings-lt t r a p q u v small h g le q_pos r_pos v_pos =
    let bound = two_roundings (2 ^ 53) (2 ^ 53 + 1) t r a p q u v h g le q_pos r_pos in
    let room : t * v ≤ 2 ^ 20 * v = mul-le-mul_right v (omega (arith, small)) in
    omega (arith, bound, room, v_pos)
