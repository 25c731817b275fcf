-- ===== src/Recorder/Mask.antt =====
-- TestRunnerRecorder::setDevicesToRecord, and the choice of devices at the start of Record().
pub mod Choice
use test_runner.Prelude.{
  ℕ, zero, suc, ◌+◌, ◌-◌, ◌*◌, ◌/◌, ◌%◌, ◌^◌, ◌≤◌, ◌<◌, ◌≡◌, refl, sym, ap, ◌∙◌, subst, ◌≢◌, ◌↔◌,
  ◌⊎◌, inl, inr, Bool, true, false, ◌&&◌, ◌||◌, not, Option, none, some, List, [], ◌∷◌, ◌++◌, map,
  arith, ltb, leb, ◌==◌, if◌then◌else◌, Bool-cases, Option-cases, Bytes, codes, bytes_eq, length,
  get_elem?, get_or, set, take, drop, All, All-append, length-append, length-set,
  get_elem?-set_self, get_elem?-set_ne,
}
use test_runner.Prelude.Int.{
  ℤ, pos, negsuc, pos_part, neg_part, sub_ℕ, ◌-ℤ◌, ◌≤ℤ◌, ltb_ℤ, eqb_ℤ, to_unsigned, to_signed,
  wrap_signed,
}
use test_runner.Recorder.{Device, Recorder}

-- (m & (1ULL << i)) != 0, for i below 64.
pub test_bit : ℕ → ℕ → Bool
test_bit m zero = m % 2 == 1
test_bit m (suc i) = test_bit (m / 2) i

-- m | (1ULL << i), for i below 64.
pub set_bit : ℕ → ℕ → ℕ
set_bit m zero = m / 2 * 2 + 1
set_bit m (suc i) = set_bit (m / 2) i * 2 + m % 2

-- The shift count: C++ leaves a shift by 64 or more undefined, and the hardware takes it modulo 64.
abbrev pub shift_count : ℕ → ℕ
shift_count i = i % 64

-- The inner loop: does some requested device have this descriptor?
pub is_requested : ℤ → List Device → Bool
is_requested fd [] = false
is_requested fd (d ∷ ds) = if eqb_ℤ fd d.fd then true else is_requested fd ds

-- The outer loop, at index i, with the mask so far.
pub mask_from : ℕ → List Device → List Device → ℕ → ℕ
unfolding is_requested set_bit
mask_from i [] devices mask = mask
mask_from i (a ∷ available) devices mask =
    mask_from (i + 1) available devices
      (if is_requested a.fd devices then set_bit mask (shift_count i) else mask)

unfoldable pub set_devices_to_record : List Device → Recorder → Recorder
unfolding mask_from
set_devices_to_record devices r = record r {
  device_mask = mask_from 0 r.available_devices devices 0;
}

-- The loop of Record() that collects devices_to_record, at index i.
pub selected_from : ℕ → ℕ → List Device → List Device
unfolding test_bit
selected_from i mask [] = []
selected_from i mask (a ∷ available) =
    let rest = selected_from (i + 1) mask available in
    if test_bit mask (shift_count i) then a ∷ rest else rest

unfoldable pub devices_to_record : Recorder → List Device
unfolding selected_from
devices_to_record r = selected_from 0 r.device_mask r.available_devices

-- The mask of a new recorder, 0xFFFFFFFFFFFFFFFF.
abbrev pub full_mask : ℕ
full_mask = 2 ^ 64 - 1
