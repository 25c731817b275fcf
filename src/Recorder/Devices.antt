-- ===== src/Recorder/Devices.antt =====
-- TestRunnerRecorder::findDevices: the scan of the input directory.
pub mod Found
use test_runner.Prelude.{
  ℕ, zero, suc, ◌+◌, ◌-◌, ◌*◌, ◌/◌, ◌%◌, ◌^◌, ◌≤◌, ◌<◌, ◌≡◌, refl, sym, ap, ◌∙◌, subst, ◌≢◌, ◌↔◌,
  ◌⊎◌, inl, inr, Bool, true, false, ◌&&◌, ◌||◌, not, Option, none, some, List, [], ◌∷◌, ◌++◌, map,
  arith, ltb, leb, ◌==◌, if◌then◌else◌, Bool-cases, Option-cases, Bytes, codes, bytes_eq, length,
  get_elem?, get_or, set, take, drop, All, All-append, length-append, length-set,
  get_elem?-set_self, get_elem?-set_ne,
}
use test_runner.Prelude.Int.{
  ℤ, pos, negsuc, pos_part, neg_part, sub_ℕ, ◌-ℤ◌, ◌≤ℤ◌, ltb_ℤ, eqb_ℤ, to_unsigned, to_signed,
  wrap_signed,
}
use test_runner.Linux.{
  AbsInfo, Dirent, ev_key, ev_rel, ev_abs, abs_x, abs_y, abs_mt_slot, abs_mt_tracking_id,
  abs_mt_position_x, abs_mt_position_y, o_rdonly, o_nonblock,
}
use test_runner.Syscalls.{
  Call, open_file, close, opendir, closedir, eviocgname, eviocgbit, eviocgabs, Sys, ◌>>=◌, ◌>>◌,
  return, call,
}
use test_runner.Recorder.{
  DeviceType, mouse, keyboard, touchscreen, multitouchscreen, unknown, Device,
}

-- A bit of a capability buffer, as `(buf[n / 8] >> (n % 8)) & 1` reads it.
unfoldable pub capability : Bytes → ℕ → Bool
capability buf n = get_or buf (n / 8) 0 / 2 ^ (n % 8) % 2 == 1

-- The decision of findDevices; `none` is a device that is skipped. The tests for ABS_X and ABS_Y
-- read the event type buffer, as in the source.
unfoldable pub classify : Bytes → Bytes → Option DeviceType
classify caps abs_caps =
    if capability caps ev_abs
    then if capability abs_caps abs_mt_slot && capability abs_caps abs_mt_tracking_id
      then some multitouchscreen
      else if capability caps abs_x && capability caps abs_y
      then some touchscreen
      else none
    else if capability caps ev_rel
    then some mouse
    else if capability caps ev_key
    then some keyboard
    else none

-- strncpy of a buffer into char[50] with the last byte cleared: the C string that results.
unfoldable pub until_nul : Bytes → Bytes
until_nul [] = []
until_nul (c ∷ s) = let rest = until_nul s in if c == 0 then [] else c ∷ rest

unfoldable pub c_name : Bytes → Bytes
c_name buf = take 49 (until_nul buf)

abbrev pub no_range : AbsInfo
no_range = record {
  value = pos 0;
  minimum = pos 0;
  maximum = pos 0;
  fuzz = pos 0;
  flat = pos 0;
  resolution = pos 0;
}

-- The two ranges, asked for by device type. A reply leaves the struct as the kernel wrote it.
unfoldable pub read_ranges : ℤ → DeviceType → Sys (AbsInfo × AbsInfo)
read_ranges fd multitouchscreen = do
  x ← call (eviocgabs fd abs_mt_position_x no_range)
  y ← call (eviocgabs fd abs_mt_position_y no_range)
  return (x.1, y.1)
read_ranges fd touchscreen = do
  x ← call (eviocgabs fd abs_x no_range)
  y ← call (eviocgabs fd abs_y no_range)
  return (x.1, y.1)
read_ranges fd mouse = do x ← call (eviocgabs fd abs_x no_range); return (x.1, no_range)
read_ranges fd keyboard = return (no_range, no_range)
read_ranges fd unknown = return (no_range, no_range)

-- The end of the loop's body: a device that is skipped, or one that is added.
unfoldable pub add_device : ℤ → Bytes → Option DeviceType → Sys (Option Device)
add_device fd name none = return none
add_device fd name (some type) = do
  ranges ← read_ranges fd type
  return (
      some (record {
        fd = fd;
        name = name;
        type = type;
        abs_range_x = ranges.0;
        abs_range_y = ranges.1;
      }))

-- A node that has been opened.
unfoldable pub query_device : ℤ → Sys (Option Device)
query_device fd = do
  name ← call (eviocgname fd 50)
  caps ← call (eviocgbit fd 0 150)
  abs_caps ← call (eviocgbit fd ev_abs 150)
  add_device fd (c_name name.1) (classify caps.1 abs_caps.1)

unfoldable pub starts_with_event : Bytes → Bool
starts_with_event s = bytes_eq (take 5 s) (codes "event")

-- One entry of the directory.
unfoldable pub probe_entry : Bytes → Dirent → Sys (Option Device)
probe_entry dir ent =
    if ent.is_chr && starts_with_event ent.name
    then (do
      fd ← call (open_file (dir ++ codes "/" ++ ent.name) (o_rdonly + o_nonblock))
      if eqb_ℤ fd (negsuc 0) then return none else query_device fd)
    else return none

abbrev pub add_found : Option Device → List Device → List Device
add_found none ds = ds
add_found (some d) ds = d ∷ ds

-- The loop over the directory.
unfoldable pub scan_entries : Bytes → List Dirent → Sys (List Device)
scan_entries dir [] = return []
scan_entries dir (ent ∷ rest) = do
  found ← probe_entry dir ent
  others ← scan_entries dir rest
  return (add_found found others)

unfoldable pub scan_opened : Bytes → Option (List Dirent) → Sys (List Device)
scan_opened dir none = return []
scan_opened dir (some entries) = do
  devices ← scan_entries dir entries
  call closedir
  return devices

unfoldable pub find_devices : Bytes → Sys (List Device)
find_devices dir = do entries ← call (opendir dir); scan_opened dir entries
