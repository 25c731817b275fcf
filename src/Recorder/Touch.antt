-- ===== src/Recorder/Touch.antt =====
-- TestRunnerRecorder::transform_touch_coordinates. The arithmetic of `double` is a parameter.
pub mod Ieee
pub mod Bounds
use test_runner.Prelude.{ℕ, Bool, if◌then◌else◌}
use test_runner.Prelude.Int.{ℤ, pos, ◌-ℤ◌}
use test_runner.Linux.{AbsInfo}
use test_runner.Recorder.{Device}

-- The operations of `double` that the transform uses. `to_int` is the conversion `int(d)`.
pub record Floats : Type 1 where
  pub Double : Type 0
  pub of_int : ℤ → Double
  pub is_positive : Double → Bool
  pub div : Double → Double → Double
  pub mul : Double → Double → Double
  pub to_int : Double → ℤ

pub data Axis : Type 0 where
  x_axis y_axis : Axis

abbrev pub virtual_multitouch_abs_x_max : ℕ
virtual_multitouch_abs_x_max = 16000

abbrev pub virtual_multitouch_abs_y_max : ℕ
virtual_multitouch_abs_y_max = 9000

abbrev pub axis_range : Device → Axis → AbsInfo
axis_range d x_axis = d.abs_range_x
axis_range d y_axis = d.abs_range_y

abbrev pub axis_max : Axis → ℕ
axis_max x_axis = virtual_multitouch_abs_x_max
axis_max y_axis = virtual_multitouch_abs_y_max

-- The differences are `int` subtractions, whose overflow C++ leaves undefined; here they are exact.
unfoldable pub scale : Floats → AbsInfo → ℕ → ℤ → ℤ
scale fl range top val =
    let native_range = fl.of_int (range.maximum -ℤ range.minimum) in
    let factor =
      if fl.is_positive native_range
      then fl.div (fl.of_int (pos top)) native_range
      else fl.of_int (pos 0) in
    fl.to_int (fl.mul (fl.of_int (val -ℤ range.minimum)) factor)

unfoldable pub transform_touch_coordinates : Floats → Device → ℤ → Axis → ℤ
unfolding scale
transform_touch_coordinates fl device val axis =
    scale fl (axis_range device axis) (axis_max axis) val
