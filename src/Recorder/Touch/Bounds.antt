-- ===== src/Recorder/Touch/Bounds.antt =====
-- The range of a transformed coordinate.
use test_runner.Prelude.{
  ℕ, zero, suc, ◌+◌, ◌*◌, ◌/◌, ltb, ◌^◌, ◌≤◌, ◌<◌, ◌≡◌, ◌∙◌, inl, inr, arith, Bool-cases,
  if◌then◌else◌,
}
use test_runner.Prelude.Int.{ℤ, pos, negsuc, pos_part, ◌-ℤ◌, ◌≤ℤ◌}
use test_runner.Linux.{AbsInfo}
use test_runner.Recorder.{Device}
use test_runner.Recorder.Touch.Ieee.{Near, Normal, IsIeee, two_roundings-lt}
use native.Mathlib.Nat.{mul-le-mul_right, mul-le-mul_left, div-lt_iff_lt-mul}
use test_runner.Recorder.Touch.{
  Floats, Axis, x_axis, y_axis, axis_range, axis_max, scale, transform_touch_coordinates,
}

-- The product of a and the quotient of t by r, rounded twice and converted to int.
abbrev pub scaled_by : Floats → ℕ → ℕ → ℤ → ℤ
scaled_by fl t r a =
    fl.to_int (fl.mul (fl.of_int a) (fl.div (fl.of_int (pos t)) (fl.of_int (pos r))))

difference : (a b : ℤ) → b ≤ℤ a → a -ℤ b ≡ pos (pos_part (a -ℤ b))
unfolding ◌-ℤ◌
difference (pos a) (pos b) h = ground arith
difference (pos a) (negsuc b) h = ground arith
difference (negsuc a) (pos b) h = ground arith
difference (negsuc a) (negsuc b) h = ground arith

differences-le : (a b c : ℤ) → c ≤ℤ a → a ≤ℤ b → pos_part (a -ℤ c) ≤ pos_part (b -ℤ c)
unfolding ◌-ℤ◌
differences-le a b c h g = ground arith

le_trans : (a b c : ℤ) → a ≤ℤ b → b ≤ℤ c → a ≤ℤ c
le_trans a b c h g = omega (arith, h, g)

-- A coordinate becomes one between 0 and the end of its axis.
abbrev pub InRange : ℤ → ℕ → Type 0
InRange z top = (pos 0 ≤ℤ z) × (z ≤ℤ pos top)

-- A quotient of numbers of this size, and a factor times one.
quotient-Normal : (t r : ℕ) → t < 2 ^ 20 → r < 2 ^ 31 → 0 < r → Normal (t * 1) (1 * r)
quotient-Normal zero r h g p = inl (omega arith)
quotient-Normal (suc t) r h g p = inr (omega (arith, g), omega (arith, h, p))

product-Normal :
    (t r a p q : ℕ)
    → t < 2 ^ 20
    → r < 2 ^ 31
    → 0 < r
    → a ≤ r
    → Near p q (t * 1) (1 * r)
    → Normal (a * p) (1 * q)
product-Normal t r zero p q h g r_pos le near = inl (omega arith)
product-Normal zero r (suc a) p q h g r_pos le near =
    let least : p * 1 ≤ p * r = mul-le-mul_left p r_pos in
    let none : p ≡ 0 = omega (arith, near.above, least) in inl (rw none (omega arith))
product-Normal (suc t) r (suc a) p q h g r_pos le near =
    let one_p : 1 * p ≤ suc a * p = mul-le-mul_right p (omega arith) in
    let one_q : 1 * q ≤ suc t * q = mul-le-mul_right q (omega arith) in
    let range : p * r ≤ p * 2 ^ 31 = mul-le-mul_left p (omega (arith, g)) in
    let part : suc a * p ≤ r * p = mul-le-mul_right p le in
    let top : suc t * q ≤ 2 ^ 20 * q = mul-le-mul_right q (omega (arith, h)) in
    inr (
      omega (arith, near.below, one_p, one_q, range),
      omega (arith, near.above, near.proper, part, top),
    )

zero-Near : Near 0 1 (0 * 1) (1 * 1)
zero-Near = record { proper = omega arith; above = omega arith; below = omega arith }

widened : (z : ℤ) (top : ℕ) → InRange z 0 → InRange z top
widened z top h = (h.0, le_trans z (pos 0) (pos top) h.1 (omega arith))

module _ (fl : Floats) (ieee : IsIeee fl) where
  product-InRange :
      (t r a p q : ℕ) {factor : fl.Double}
      → t < 2 ^ 20
      → r < 2 ^ 31
      → 0 < r
      → a ≤ r
      → ieee.Is factor p q
      → Near p q (t * 1) (1 * r)
      → InRange (fl.to_int (fl.mul (fl.of_int (pos a)) factor)) t
  product-InRange t r a p q h g r_pos le is near =
      let (u, v, exact, close) =
        ieee.mul (ieee.of_int a (omega (arith, le, g))) is
          (product-Normal t r a p q h g r_pos le near) in
      let short : u < (t + 1) * v =
        two_roundings-lt t r a p q u v h (omega (arith, near.above)) (omega (arith, close.above)) le
          near.proper r_pos close.proper in
      let wide : (t + 1) * v ≤ 2 ^ 31 * v = mul-le-mul_right v (omega (arith, h)) in
      let fits : u < 2 ^ 31 * v = omega (arith, short, wide) in
      let whole : u / v ≤ t = omega (arith, (div-lt_iff_lt-mul close.proper).1 short) in
      rw (ieee.to_int exact close.proper fits) (omega arith, omega (arith, whole))

  scaled_by-InRange :
      (t r a : ℕ) → t < 2 ^ 20 → r < 2 ^ 31 → 0 < r → a ≤ r → InRange (scaled_by fl t r (pos a)) t
  scaled_by-InRange t r a h g r_pos le =
      let (p, q, is, near) =
        ieee.div (ieee.of_int t (omega (arith, h))) (ieee.of_int r g) r_pos
          (quotient-Normal t r h g r_pos) in
      product-InRange t r a p q h g r_pos le is near

  -- The code's test of the range, at a range of r.
  factor-InRange :
      (top r a : ℕ)
      → r < 2 ^ 31
      → top < 2 ^ 20
      → a ≤ r
      → InRange
          (fl.to_int (
            fl.mul (fl.of_int (pos a)) (
              if fl.is_positive (fl.of_int (pos r))
              then fl.div (fl.of_int (pos top)) (fl.of_int (pos r))
              else fl.of_int (pos 0))))
          top
  factor-InRange top r a small t le =
      let sign = ieee.is_positive (ieee.of_int r small) in
      elim (Bool-cases (ltb 0 r)) [
        | inl e ↦ rw (sign ∙ e) (scaled_by-InRange top r a t small (ground arith) le)
        | inr e ↦ rw (sign ∙ e) (
            widened _ top (
              product-InRange 0 1 a 0 1 (omega arith) (omega arith) (omega arith) (ground arith)
                (ieee.of_int 0 (omega arith)) zero-Near))
      ]

  scale-InRange :
      (range : AbsInfo) (top : ℕ) (val : ℤ)
      → range.minimum ≤ℤ val
      → val ≤ℤ range.maximum
      → pos_part (range.maximum -ℤ range.minimum) < 2 ^ 31
      → top < 2 ^ 20
      → InRange (scale fl range top val) top
  unfolding scale
  scale-InRange range top val h g small t =
      let whole =
        difference range.maximum range.minimum (le_trans range.minimum val range.maximum h g) in
      let part = difference val range.minimum h in
      let le = differences-le val range.maximum range.minimum h g in
      rw (scale, part, whole) (factor-InRange top _ _ small t le)

  -- A touch within the range that the device reports becomes a coordinate from 0 to the end of the
  -- axis of the virtual touchscreen, 16000 or 9000, also where the range is empty. Each operation of
  -- double rounds as IEEE 754 says, and the width of the range is an int.
  pub transform_touch_coordinates-InRange :
      (d : Device) (axis : Axis) (val : ℤ)
      → (axis_range d axis).minimum ≤ℤ val
      → val ≤ℤ (axis_range d axis).maximum
      → pos_part ((axis_range d axis).maximum -ℤ (axis_range d axis).minimum) < 2 ^ 31
      → InRange (transform_touch_coordinates fl d val axis) (axis_max axis)
  unfolding transform_touch_coordinates
  transform_touch_coordinates-InRange d x_axis val h g small =
      scale-InRange d.abs_range_x _ val h g small (omega arith)
  transform_touch_coordinates-InRange d y_axis val h g small =
      scale-InRange d.abs_range_y _ val h g small (omega arith)
