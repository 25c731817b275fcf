-- ===== src/Client/Recorders.antt =====
-- client/TestRunnerClient.cpp: the calls of the Recorder interface. The RPC runtime is a parameter,
-- as for the calls of the Input interface, and hands back the results of the method.
pub mod Devices
use test_runner.Prelude.{
  ℕ, zero, suc, ◌+◌, ◌-◌, ◌*◌, ◌/◌, ◌%◌, ◌^◌, ◌≤◌, ◌<◌, ◌≡◌, refl, sym, ap, ◌∙◌, subst, ◌≢◌, ◌↔◌,
  ◌⊎◌, inl, inr, Bool, true, false, ◌&&◌, ◌||◌, not, Option, none, some, List, [], ◌∷◌, ◌++◌, map,
  arith, ltb, leb, ◌==◌, if◌then◌else◌, Bool-cases, Option-cases, Bytes, codes, bytes_eq, length,
  get_elem?, get_or, set, take, drop, All, All-append, length-append, length-set,
  get_elem?-set_self, get_elem?-set_ne,
}
use test_runner.Prelude.Int.{
  ℤ, pos, negsuc, pos_part, neg_part, sub_ℕ, ◌-ℤ◌, ◌≤ℤ◌, ltb_ℤ, eqb_ℤ, to_unsigned, to_signed,
  wrap_signed,
}
use test_runner.Recorder.{Device, device_code}
use test_runner.Recorder.Devices.{c_name, until_nul}
use test_runner.Server.Recorders.{InputDevice}
use test_runner.Client.{Client}
use test_runner.Client.Requests.{Response, Answer, request}

-- A device as the client holds it; the type is the number that the cast to device_type keeps.
pub record ListedDevice : Type 0 where
  pub fd : ℤ
  pub name : Bytes
  pub type : ℕ

-- The seven calls with their arguments.
pub data Query : Type 0 where
  ask_snapshot : Query
  ask_create : Bytes → ℕ → Bool → Query
  ask_set_devices : ℕ → List ListedDevice → Query
  ask_list ask_start ask_stop ask_active : ℕ → Query

-- The requests as they go over the wire.
pub data Message : Type 0 where
  snapshot_message : Message
  create_message : Bytes → ℕ → Bool → Message
  set_devices_message : ℕ → List InputDevice → Message
  list_message start_message stop_message active_message : ℕ → Message

-- The results of a method.
abbrev pub Results : Message → Type 0
Results snapshot_message = Bytes
Results (create_message filename length' continuous) = ℕ
Results (set_devices_message index devices) = Unit {0}
Results (list_message index) = List InputDevice
Results (start_message index) = Unit {0}
Results (stop_message index) = Bytes
Results (active_message index) = Bool

-- What a call of the client returns.
abbrev pub Value : Query → Type 0
Value ask_snapshot = Bytes
Value (ask_create filename length' continuous) = ℕ
Value (ask_set_devices index devices) = Unit {0}
Value (ask_list index) = List ListedDevice
Value (ask_start index) = Unit {0}
Value (ask_stop index) = Bytes
Value (ask_active index) = Bool

-- The loop body of setDevicesToRecord.
unfoldable pub send_device : ListedDevice → InputDevice
send_device d = record { fd = to_unsigned (2 ^ 32) d.fd; name = d.name; type = d.type % 2 ^ 8 }

-- The loop body of listDevices.
unfoldable pub receive_device : InputDevice → ListedDevice
receive_device d = record { fd = to_signed (2 ^ 32) d.fd; name = c_name d.name; type = d.type }

-- The request that a call sends.
abbrev pub message : Query → Message
message ask_snapshot = snapshot_message
message (ask_create filename length' continuous) = create_message filename length' continuous
message (ask_set_devices index devices) = set_devices_message index (map send_device devices)
message (ask_list index) = list_message index
message (ask_start index) = start_message index
message (ask_stop index) = stop_message index
message (ask_active index) = active_message index

-- The value that a call makes of the results.
abbrev pub value_of : (q : Query) → Results (message q) → Value q
value_of ask_snapshot path = path
value_of (ask_create filename length' continuous) index = index
value_of (ask_set_devices index devices) u = u
value_of (ask_list index) devices = map receive_device devices
value_of (ask_start index) u = u
value_of (ask_stop index) path = path
value_of (ask_active index) active = active

abbrev pub Channel : Type 0 → Type 0 → Type 0
Channel C W = C → (m : Message) → W → Response (Results m) × W

unfoldable pub ask :
    {C W : Type 0} → Channel C W → Client C → (q : Query) → W → (Answer (Value q) × Client C) × W
ask channel c q w = request (λ conn. channel conn (message q)) (value_of q) c w
