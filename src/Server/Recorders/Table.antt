-- ===== src/Server/Recorders/Table.antt =====
-- The table of custom recorders as a client sees it: indices that name nothing, and devices that go
-- out by listDevices and come back by setDevicesToRecord.
use test_runner.Prelude.{
  ℕ, zero, suc, ◌^◌, ◌≤◌, ◌<◌, ◌≡◌, refl, ap, ◌∙◌, ◌≢◌, false, none, some, List, [], ◌∷◌, map,
  arith, Bytes, length, get_elem?, take, All, get_elem?-set_self,
}
use test_runner.Prelude.Int.{ℤ, pos, negsuc, pos_part, neg_part, to_unsigned, to_signed}
use test_runner.Recorder.{
  DeviceType, mouse, keyboard, touchscreen, multitouchscreen, unknown, device_code, Device,
  returned,
}
use test_runner.Recorder.Mask.{set_devices_to_record, devices_to_record}
use test_runner.Recorder.Mask.Choice.{requested, requested_fds, fds, devices_to_record-set_devices}
use test_runner.Recorder.Devices.{until_nul, c_name, no_range}
use test_runner.Recorder.Process.{Env, Action, Process}
use test_runner.Server.{Server}
use test_runner.Server.Recorders.{
  InputDevice, encode_device, decode_type, decode_device, list_devices, with_recorder, set_devices,
  start_custom_recording, stop_custom_recording, check_recorder_active,
}

-- A request for an index that no recorder has changes nothing and answers with the defaults: no
-- devices, the empty path, inactive.
unknown_index :
    (env : Env) (now : ℕ) (schedule : List Action) (devices : List InputDevice) (index : ℕ)
    (s : Server)
    → get_elem? s.custom_recorders index ≡ none
    → (list_devices index s ≡ [])
      × (set_devices index devices s ≡ s)
      × (start_custom_recording index s ≡ returned s)
      × (stop_custom_recording env now schedule index s ≡ returned ([], s))
      × (check_recorder_active index s ≡ false)
unfolding list_devices set_devices start_custom_recording stop_custom_recording
    check_recorder_active
unknown_index env now schedule devices index s h = (
  rw (h, list_devices),
  rw (h, set_devices),
  rw (h, start_custom_recording),
  rw (h, stop_custom_recording),
  rw (h, check_recorder_active),
)

-- A descriptor is an `int`.
abbrev pub IsInt : ℤ → Type 0
IsInt z = (pos_part z < 2 ^ 31) × (neg_part z ≤ 2 ^ 31)

pub int_round_trip : (z : ℤ) → IsInt z → to_signed (2 ^ 32) (to_unsigned (2 ^ 32) z) ≡ z
int_round_trip (pos n) h = ground arith
int_round_trip (negsuc n) h = ground arith

type_round_trip : (t : DeviceType) → decode_type (device_code t) ≡ t
unfolding decode_type
type_round_trip mouse = refl
type_round_trip keyboard = refl
type_round_trip touchscreen = refl
type_round_trip multitouchscreen = refl
type_round_trip unknown = refl

-- A name as the char[50] of in_device_s holds it.
abbrev pub IsName : Bytes → Type 0
IsName s = All (λ c. c ≢ 0) s × (length s ≤ 49)

pub until_nul_whole : (s : Bytes) → All (λ c. c ≢ 0) s → until_nul s ≡ s
unfolding until_nul
until_nul_whole [] h = refl
until_nul_whole (c ∷ s) h = ground (arith, until_nul_whole s)

take_short {ℓ} : {A : Type ℓ} (n : ℕ) (xs : List A) → length xs ≤ n → take n xs ≡ xs
take_short zero [] h = refl
take_short zero (x ∷ xs) h = absurd (omega arith)
take_short (suc n) [] h = refl
take_short (suc n) (x ∷ xs) h = ap (◌∷◌ x) (take_short n xs (omega arith))

pub c_name_whole : (s : Bytes) → IsName s → c_name s ≡ s
unfolding c_name
c_name_whole s h = rw (until_nul_whole s h.0) (take_short 49 s h.1)

-- A device sent to a client and back keeps its descriptor, name and type; the ranges do not travel.
pub decode_device-encode_device :
    (d : Device)
    → IsInt d.fd
    → IsName d.name
    → decode_device (encode_device d) ≡ record d { abs_range_x = no_range; abs_range_y = no_range }
unfolding decode_device encode_device
decode_device-encode_device d i n =
    rw (int_round_trip d.fd i, c_name_whole d.name n, type_round_trip d.type)

fd_round_trip : (d : Device) → IsInt d.fd → (decode_device (encode_device d)).fd ≡ d.fd
unfolding decode_device encode_device
fd_round_trip d i = int_round_trip d.fd i

fds-encode :
    (ds : List Device)
    → All (λ d. IsInt d.fd) ds
    → fds (map decode_device (map encode_device ds)) ≡ fds ds
fds-encode [] h = refl
fds-encode (d ∷ ds) h = cc (fd_round_trip d h.0, fds-encode ds h.1)

set_devices-get :
    (index : ℕ) (devices : List InputDevice) (s : Server) (p : Process)
    → get_elem? s.custom_recorders index ≡ some p
    → set_devices index devices s
      ≡ with_recorder s index
          (record p { recorder = set_devices_to_record (map decode_device devices) p.recorder })
unfolding set_devices
set_devices-get index devices s p h = rw (h, set_devices)

pub get_elem?-lt {ℓ} :
    {A : Type ℓ} (xs : List A) (i : ℕ) {a : A} → get_elem? xs i ≡ some a → i < length xs
get_elem?-lt [] i h = cc
get_elem?-lt (x ∷ xs) zero h = omega arith
get_elem?-lt (x ∷ xs) (suc i) h = omega (arith, get_elem?-lt xs i h)

-- Devices that a client chose from a list and sends back with setDevicesToRecord are the ones that
-- the recorder of that index will record: of its available devices, at most 64, those whose
-- descriptor a chosen device has. Descriptors are in the range of `int`.
pub set_devices-chooses :
    (index : ℕ) (chosen : List Device) (s : Server) (p : Process)
    → get_elem? s.custom_recorders index ≡ some p
    → length p.recorder.available_devices ≤ 64
    → All (λ d. IsInt d.fd) chosen
    → (q : Process) × (get_elem?
          (set_devices index (map encode_device chosen) s).custom_recorders
          index
        ≡ some q)
      × (devices_to_record q.recorder ≡ requested chosen p.recorder.available_devices)
set_devices-chooses index chosen s p h fits ints =
    let back = map decode_device (map encode_device chosen) in
    (
      record p { recorder = set_devices_to_record back p.recorder },
      rw (set_devices-get index (map encode_device chosen) s p h)
          (get_elem?-set_self s.custom_recorders index _ (get_elem?-lt s.custom_recorders index h)),
      devices_to_record-set_devices p.recorder back fits
          ∙ ap (λ l. requested_fds l p.recorder.available_devices) (fds-encode chosen ints),
    )
