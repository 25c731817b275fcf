-- ===== src/Recorder/Devices/Found.antt =====
-- The scan of the input directory: what is known of the devices found, and of their descriptors.
use test_runner.Prelude.{
  ℕ, zero, suc, ◌+◌, ◌≤◌, ◌≡◌, refl, ap, ◌≢◌, ◌↔◌, inl, inr, Bool, true, false, ◌&&◌, Option, none,
  some, List, [], ◌∷◌, ◌++◌, arith, Bool-cases, Bytes, codes, length, take, All,
}
use test_runner.Prelude.Int.{ℤ, negsuc, eqb_ℤ}
use test_runner.Linux.{
  Dirent, ev_syn, ev_key, ev_abs, abs_mt_slot, abs_mt_tracking_id, o_rdonly, o_nonblock,
}
use test_runner.Syscalls.{Call, open_file, close, opendir, Log, Kernel, logged}
use test_runner.Syscalls.Trace.{Extends, same, added, Extends-trans}
use test_runner.Recorder.{
  DeviceType, mouse, keyboard, touchscreen, multitouchscreen, unknown, Device,
}
use test_runner.Recorder.Devices.{
  capability, classify, c_name, read_ranges, add_device, query_device, starts_with_event,
  probe_entry, add_found, scan_entries, scan_opened, find_devices,
}
use test_runner.Recorder.Lifetime.{close_devices}

-- A device is taken for a touchscreen exactly if it has absolute axes, lacks one of the two
-- multi-touch axes, and reports EV_SYN and EV_KEY events: which axes it has beside the multi-touch
-- ones, ABS_X and ABS_Y included, plays no part.
pub classify-touchscreen :
    (caps abs_caps : Bytes)
    → (classify caps abs_caps ≡ some touchscreen) ↔ (
        (capability caps ev_abs ≡ true)
        × ((capability abs_caps abs_mt_slot && capability abs_caps abs_mt_tracking_id) ≡ false)
        × (capability caps ev_syn ≡ true)
        × (capability caps ev_key ≡ true))
unfolding classify
classify-touchscreen caps abs_caps = (λ h. ground arith, λ h. ground arith)

abbrev is_close : Call → Bool
is_close (close fd) = true
is_close _ = false

abbrev pub NotClose : Call → Type 0
NotClose c = is_close c ≡ false

module _ (k : Kernel) where
  read_ranges-Extends :
      (fd : ℤ) (t : DeviceType) (log : Log) → Extends NotClose log (read_ranges fd t k log).1
  unfolding read_ranges
  read_ranges-Extends fd multitouchscreen log = added (added same refl) refl
  read_ranges-Extends fd touchscreen log = added (added same refl) refl
  read_ranges-Extends fd mouse log = added same refl
  read_ranges-Extends fd keyboard log = same
  read_ranges-Extends fd unknown log = same

  add_device-Extends :
      (fd : ℤ) (name : Bytes) (t : Option DeviceType) (log : Log)
      → Extends NotClose log (add_device fd name t k log).1
  unfolding add_device
  add_device-Extends fd name none log = same
  add_device-Extends fd name (some t) log = read_ranges-Extends fd t log

  query_device-Extends : (fd : ℤ) (log : Log) → Extends NotClose log (query_device fd k log).1
  unfolding query_device
  query_device-Extends fd log =
      Extends-trans (added (added (added same refl) refl) refl) (add_device-Extends fd _ _ _)

  probe_entry-Extends :
      (dir : Bytes) (ent : Dirent) (log : Log) → Extends NotClose log (probe_entry dir ent k log).1
  unfolding probe_entry
  probe_entry-Extends dir ent log = elim (Bool-cases (ent.is_chr && starts_with_event ent.name)) [
    | inr e ↦ rw e same
    | inl e ↦
        let opened = open_file (dir ++ codes "/" ++ ent.name) (o_rdonly + o_nonblock) in
        elim (Bool-cases (eqb_ℤ (k log opened) (negsuc 0))) [
          | inl f ↦ rw (e, f) (added same refl)
          | inr f ↦ rw (e, f) (Extends-trans (added same refl) (query_device-Extends _ _))
        ]
  ]

  scan_entries-Extends :
      (dir : Bytes) (es : List Dirent) (log : Log)
      → Extends NotClose log (scan_entries dir es k log).1
  unfolding scan_entries
  scan_entries-Extends dir [] log = same
  scan_entries-Extends dir (ent ∷ rest) log =
      Extends-trans (probe_entry-Extends dir ent log)
        (scan_entries-Extends dir rest (probe_entry dir ent k log).1)

  scan_opened-Extends :
      (dir : Bytes) (es : Option (List Dirent)) (log : Log)
      → Extends NotClose log (scan_opened dir es k log).1
  unfolding scan_opened
  scan_opened-Extends dir none log = same
  scan_opened-Extends dir (some es) log = added (scan_entries-Extends dir es log) refl

  find_devices-Extends : (dir : Bytes) (log : Log) → Extends NotClose log (find_devices dir k log).1
  unfolding find_devices
  find_devices-Extends dir log =
      Extends-trans (added same refl) (scan_opened-Extends dir (k log (opendir dir)) _)

abbrev pub closes : List Device → List Call
closes [] = []
closes (d ∷ ds) = close d.fd ∷ closes ds

pub close_devices_lem :
    (k : Kernel) (ds : List Device) (log : Log)
    → (close_devices ds k log).1 ≡ logged log (closes ds)
unfolding close_devices
close_devices_lem k [] log = refl
close_devices_lem k (d ∷ ds) log = close_devices_lem k ds (close d.fd ∷ log)

-- Descriptors of input devices: the scan makes no close call at all, whatever it opens, and the end
-- of the destructor closes the descriptors of the devices that the scan returned, in order, and no
-- other. So the descriptor of a node that was opened and then skipped is never closed.
pub find_devices-close_devices :
    (dir : Bytes) (k : Kernel) (log log' : Log)
    → Extends NotClose log (find_devices dir k log).1
      × ((close_devices (find_devices dir k log).0 k log').1
          ≡ logged log' (closes (find_devices dir k log).0))
find_devices-close_devices dir k log log' =
    (find_devices-Extends k dir log, close_devices_lem k (find_devices dir k log).0 log')

-- What the rest of the recorder relies on.
abbrev pub IsFound : Device → Type 0
IsFound d = (d.type ≢ unknown) × (d.fd ≢ negsuc 0) × (length d.name ≤ 49)

take-le {ℓ} : {A : Type ℓ} (n : ℕ) (xs : List A) → length (take n xs) ≤ n
take-le zero xs = omega arith
take-le (suc n) [] = omega arith
take-le (suc n) (x ∷ xs) = omega (arith, take-le n xs)

c_name-le : (buf : Bytes) → length (c_name buf) ≤ 49
unfolding c_name
c_name-le buf = take-le 49 _

classify-ne-unknown : (caps abs_caps : Bytes) → classify caps abs_caps ≢ some unknown
unfolding classify
classify-ne-unknown caps abs_caps = ground arith

abbrev AllFound : Option Device → Type 0
AllFound none = Unit
AllFound (some d) = IsFound d

add_device-IsFound :
    (fd : ℤ) (name : Bytes) (t : Option DeviceType) (k : Kernel) (log : Log)
    → fd ≢ negsuc 0
    → length name ≤ 49
    → t ≢ some unknown
    → AllFound (add_device fd name t k log).0
unfolding add_device
add_device-IsFound fd name none k log f n u = tt
add_device-IsFound fd name (some t) k log f n u = (λ e. u (ap some e), f, n)

probe_entry-IsFound :
    (dir : Bytes) (ent : Dirent) (k : Kernel) (log : Log) → AllFound (probe_entry dir ent k log).0
unfolding probe_entry query_device
probe_entry-IsFound dir ent k log = elim (Bool-cases (ent.is_chr && starts_with_event ent.name)) [
  | inr e ↦ rw e tt
  | inl e ↦
      let opened = open_file (dir ++ codes "/" ++ ent.name) (o_rdonly + o_nonblock) in
      elim (Bool-cases (eqb_ℤ (k log opened) (negsuc 0))) [
        | inl f ↦ rw (e, f) tt
        | inr f ↦
            rw (e, f)
              (add_device-IsFound _ _ _ k _ (λ g. ground arith) (c_name-le _)
                (classify-ne-unknown _ _))
      ]
]

add_found-All :
    (o : Option Device) (ds : List Device)
    → AllFound o
    → All IsFound ds
    → All IsFound (add_found o ds)
add_found-All none ds h a = a
add_found-All (some d) ds h a = (h, a)

scan_entries-IsFound :
    (dir : Bytes) (es : List Dirent) (k : Kernel) (log : Log)
    → All IsFound (scan_entries dir es k log).0
unfolding scan_entries
scan_entries-IsFound dir [] k log = tt
scan_entries-IsFound dir (ent ∷ rest) k log =
    add_found-All _ _ (probe_entry-IsFound dir ent k log)
      (scan_entries-IsFound dir rest k (probe_entry dir ent k log).1)

scan_opened-IsFound :
    (dir : Bytes) (es : Option (List Dirent)) (k : Kernel) (log : Log)
    → All IsFound (scan_opened dir es k log).0
unfolding scan_opened
scan_opened-IsFound dir none k log = tt
scan_opened-IsFound dir (some es) k log = scan_entries-IsFound dir es k log

-- Every device that the scan returns has one of the four known types, a descriptor other than -1,
-- and a name that fits its 50 bytes with the terminator, whatever the kernel answers.
pub find_devices-IsFound :
    (dir : Bytes) (k : Kernel) (log : Log) → All IsFound (find_devices dir k log).0
unfolding find_devices
find_devices-IsFound dir k log = scan_opened-IsFound dir _ k _
