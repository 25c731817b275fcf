-- ===== src/Recorder/Mask/Choice.antt =====
-- setDevicesToRecord followed by the choice at the start of Record(): exactly the requested devices
-- are recorded.
use test_runner.Prelude.{
  ℕ, zero, suc, ◌+◌, ◌*◌, ◌/◌, ◌%◌, ◌≤◌, ◌<◌, ◌≡◌, refl, ap, ◌∙◌, ◌≢◌, inl, inr, Bool, true, false,
  List, [], ◌∷◌, map, arith, if◌then◌else◌, Bool-cases, length,
}
use test_runner.Prelude.Int.{ℤ, eqb_ℤ}
use mathlib.Core.List.{Mem, filter, dec_mem, mem-cons, not-mem-nil}
use mathlib.Core.Logic.{ite}
use mathlib.Core.Bool.{Bool-set}
use mathlib.Core.Logic.Or
use native.Mathlib.Decide.{ℕ_discrete}
use test_runner.Recorder.{Device, Recorder}
use test_runner.Recorder.Mask.{
  test_bit, set_bit, is_requested, mask_from, set_devices_to_record, selected_from,
  devices_to_record,
}

pub ℤ_discrete : Discrete ℤ
ℤ_discrete = hlevel ℕ_discrete

test_bit-set_bit_self : (i m : ℕ) → test_bit (set_bit m i) i ≡ true
unfolding test_bit set_bit
test_bit-set_bit_self zero m = ground arith
test_bit-set_bit_self (suc i) m =
    let half : (set_bit (m / 2) i * 2 + m % 2) / 2 ≡ set_bit (m / 2) i = omega arith in
    rw half (test_bit-set_bit_self i (m / 2))

test_bit-set_bit_ne : (i j m : ℕ) → i ≢ j → test_bit (set_bit m i) j ≡ test_bit m j
unfolding test_bit set_bit
test_bit-set_bit_ne zero zero m h = absurd (h refl)
test_bit-set_bit_ne zero (suc j) m h =
    let half : (m / 2 * 2 + 1) / 2 ≡ m / 2 = omega arith in rw half
test_bit-set_bit_ne (suc i) zero m h =
    let low : (set_bit (m / 2) i * 2 + m % 2) % 2 ≡ m % 2 = omega arith in rw low
test_bit-set_bit_ne (suc i) (suc j) m h =
    let half : (set_bit (m / 2) i * 2 + m % 2) / 2 ≡ set_bit (m / 2) i = omega arith in
    rw half (test_bit-set_bit_ne i j (m / 2) (λ e. h (ap suc e)))

test_bit-zero : (i : ℕ) → test_bit 0 i ≡ false
unfolding test_bit
test_bit-zero zero = refl
test_bit-zero (suc i) = test_bit-zero i

-- The loop leaves the bits below its index alone.
mask_from_below :
    (available devices : List Device) (i j mask : ℕ)
    → j < i
    → i + length available ≤ 64
    → test_bit (mask_from i available devices mask) j ≡ test_bit mask j
unfolding mask_from
mask_from_below [] devices i j mask h fits = refl
mask_from_below (a ∷ available) devices i j mask h fits =
    elim (Bool-cases (is_requested a.fd devices)) [
      | inl e ↦
          let small : i % 64 ≡ i = omega arith in
          rw (e, small)
            (mask_from_below available devices (i + 1) j (set_bit mask i) (omega arith)
                (omega arith)
              ∙ test_bit-set_bit_ne i j mask (omega arith))
      | inr e ↦ rw e (mask_from_below available devices (i + 1) j mask (omega arith) (omega arith))
    ]

-- The bit that the loop decides at its index.
mask_from_here :
    (a : Device) (available devices : List Device) (i mask : ℕ)
    → test_bit mask i ≡ false
    → i + length (a ∷ available) ≤ 64
    → test_bit (mask_from i (a ∷ available) devices mask) i ≡ is_requested a.fd devices
unfolding mask_from
mask_from_here a available devices i mask clear fits =
    let small : i % 64 ≡ i = omega arith in
    elim (Bool-cases (is_requested a.fd devices)) [
      | inl e ↦
          rw (e, small)
            (mask_from_below available devices (i + 1) i (set_bit mask i) (omega arith)
                (omega arith)
              ∙ test_bit-set_bit_self i mask)
      | inr e ↦
          rw e
            (mask_from_below available devices (i + 1) i mask (omega arith) (omega arith) ∙ clear)
    ]

-- A device whose descriptor is among those of the requested devices.
abbrev pub fds : List Device → List ℤ
fds = map (λ d. d.fd)

abbrev pub requested_fds : List ℤ → List Device → List Device
requested_fds wanted = filter (λ a. dec_mem ℤ_discrete a.fd wanted)

abbrev pub requested : List Device → List Device → List Device
requested devices = requested_fds (fds devices)

eqb_ℤ→eq : (a b : ℤ) → eqb_ℤ a b ≡ true → a ≡ b
eqb_ℤ→eq a b h = ground arith

eqb_ℤ-refl : (a : ℤ) → eqb_ℤ a a ≡ true
eqb_ℤ-refl a = ground arith

is_requested_sound :
    (fd : ℤ) (devices : List Device) → is_requested fd devices ≡ true → Mem fd (fds devices)
unfolding is_requested
is_requested_sound fd [] h = cc
is_requested_sound fd (d ∷ ds) h = elim (Bool-cases (eqb_ℤ fd d.fd)) [
  | inl e ↦ mem-cons.1 (Or.inl (eqb_ℤ→eq fd d.fd e))
  | inr e ↦ mem-cons.1 (Or.inr (is_requested_sound fd ds (rw e at h)))
]

is_requested_complete :
    (fd : ℤ) (devices : List Device) → Mem fd (fds devices) → is_requested fd devices ≡ true
unfolding is_requested
is_requested_complete fd [] m = absurd (not-mem-nil m)
is_requested_complete fd (d ∷ ds) m =
    Or.elim (Bool-set _ _) (mem-cons.0 m)
      (λ e. let same : eqb_ℤ fd d.fd ≡ true = rw (← e) (eqb_ℤ-refl fd) in rw same)
      (λ later. ground (arith, is_requested_complete fd ds later))

-- One step of the choice, by the bit at its index.
selected_step :
    (a : Device) (rest devices : List Device) (bit : Bool)
    → bit ≡ is_requested a.fd devices
    → (if bit then a ∷ requested devices rest else requested devices rest)
      ≡ requested devices (a ∷ rest)
selected_step a rest devices bit e =
    elim (dec_mem ℤ_discrete a.fd (fds devices))
      as (λ d.
        (if bit then a ∷ requested devices rest else requested devices rest)
        ≡ ite d (a ∷ requested devices rest) (requested devices rest)) [
          | yes m ↦ rw (e, is_requested_complete a.fd devices m)
          | no n ↦ elim (Bool-cases (is_requested a.fd devices)) [
            | inl t ↦ absurd (n (is_requested_sound a.fd devices t))
            | inr f ↦ rw (e, f)
          ]
        ]

mask_from_cons :
    (a : Device) (available devices : List Device) (i mask : ℕ)
    → mask_from i (a ∷ available) devices mask
      ≡ mask_from
          (i + 1)
          available
          devices
          (if is_requested a.fd devices then set_bit mask (i % 64) else mask)
unfolding mask_from
mask_from_cons a available devices i mask = refl

-- No bit from i on is set.
abbrev Clear : ℕ → ℕ → Type 0
Clear i mask = (j : ℕ) → i ≤ j → test_bit mask j ≡ false

Clear-next :
    (fd : ℤ) (devices : List Device) (i mask : ℕ)
    → i < 64
    → Clear i mask
    → Clear (i + 1) (if is_requested fd devices then set_bit mask (i % 64) else mask)
Clear-next fd devices i mask fits clear j h = elim (Bool-cases (is_requested fd devices)) [
  | inl e ↦
      let small : i % 64 ≡ i = omega arith in
      rw (e, small) (test_bit-set_bit_ne i j mask (omega arith) ∙ clear j (omega arith))
  | inr e ↦ rw e (clear j (omega arith))
]

selected_from-mask_from :
    (available devices : List Device) (i mask : ℕ)
    → Clear i mask
    → i + length available ≤ 64
    → selected_from i (mask_from i available devices mask) available ≡ requested devices available
unfolding selected_from
selected_from-mask_from [] devices i mask clear fits = refl
selected_from-mask_from (a ∷ available) devices i mask clear fits =
    let small : i % 64 ≡ i = omega arith in
    let later =
      ap (λ m. selected_from (i + 1) m available) (mask_from_cons a available devices i mask)
      ∙ selected_from-mask_from available devices (i + 1)
          (if is_requested a.fd devices then set_bit mask (i % 64) else mask)
          (Clear-next a.fd devices i mask (omega arith) clear) (omega arith) in
    rw (small, later)
      (selected_step a available devices _
        (mask_from_here a available devices i mask (clear i (omega arith)) fits))

-- After setDevicesToRecord, with at most 64 devices available, Record() chooses exactly the
-- available devices whose descriptor is that of a requested device, in their order, whatever was
-- chosen before.
pub devices_to_record-set_devices :
    (r : Recorder) (devices : List Device)
    → length r.available_devices ≤ 64
    → devices_to_record (set_devices_to_record devices r) ≡ requested devices r.available_devices
unfolding devices_to_record set_devices_to_record
devices_to_record-set_devices r devices fits =
    selected_from-mask_from r.available_devices devices 0 0 (λ j h. test_bit-zero j) (omega arith)

-- A word whose n low bits are set, and no other.
abbrev pub ones : ℕ → ℕ
ones zero = 0
ones (suc n) = ones n * 2 + 1

test_bit-ones : (n i : ℕ) → i < n → test_bit (ones n) i ≡ true
unfolding test_bit
test_bit-ones zero i h = absurd (omega arith)
test_bit-ones (suc n) zero h = ground arith
test_bit-ones (suc n) (suc i) h =
    let e : (ones n * 2 + 1) / 2 ≡ ones n = omega arith in rw e (test_bit-ones n i (omega arith))

-- Every device is chosen by a mask with a bit for each.
pub selected_from-ones :
    (n : ℕ) (available : List Device) (i : ℕ)
    → n ≤ 64
    → i + length available ≤ n
    → selected_from i (ones n) available ≡ available
unfolding selected_from
selected_from-ones n [] i m h = refl
selected_from-ones n (a ∷ available) i m h =
    let small : i % 64 ≡ i = omega arith in
    rw (small, test_bit-ones n i (omega arith))
      (ap (◌∷◌ a) (selected_from-ones n available (i + 1) m (omega arith)))
