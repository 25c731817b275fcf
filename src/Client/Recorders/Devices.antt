-- ===== src/Client/Recorders/Devices.antt =====
-- client/TestRunnerClient.cpp over server/TestRunnerServer.cpp: listDevices and then
-- setDevicesToRecord, from the client's list to the recorder's choice.
use test_runner.Prelude.{
  ℕ, ◌%◌, ◌^◌, ◌≤◌, ◌≡◌, refl, ap, ◌∙◌, inl, inr, Bool, some, List, [], ◌∷◌, map, if◌then◌else◌,
  Bool-cases, length, get_elem?, All,
}
use test_runner.Recorder.{
  DeviceType, mouse, keyboard, touchscreen, multitouchscreen, unknown, Device, device_code,
}
use test_runner.Recorder.Mask.{devices_to_record}
use test_runner.Recorder.Mask.Choice.{requested}
use test_runner.Recorder.Process.{Process}
use test_runner.Server.{Server}
use test_runner.Server.Recorders.{InputDevice, encode_device, list_devices, set_devices}
use test_runner.Server.Recorders.Table.{
  IsInt, IsName, int_round_trip, c_name_whole, set_devices-chooses,
}
use test_runner.Client.{Client}
use test_runner.Client.Requests.{results, value, request-value}
use test_runner.Client.Recorders.{
  ListedDevice, ask_list, ask_set_devices, list_message, set_devices_message, Channel, send_device,
  receive_device, ask,
}

-- What the client relies on in the RPC runtime: where results come back, they are those of the
-- server's handler, which has run on the request.
pub record Serves {C : Type 0} (channel : Channel C Server) : Type 0 where
  pub list_results :
      (conn : C) (index : ℕ) (s : Server) (r : List InputDevice)
      → (channel conn (list_message index) s).0 ≡ results r
      → r ≡ list_devices index s
  pub list_state :
      (conn : C) (index : ℕ) (s : Server) (r : List InputDevice)
      → (channel conn (list_message index) s).0 ≡ results r
      → (channel conn (list_message index) s).1 ≡ s
  pub set_state :
      (conn : C) (index : ℕ) (devices : List InputDevice) (s : Server) (u : Unit {0})
      → (channel conn (set_devices_message index devices) s).0 ≡ results u
      → (channel conn (set_devices_message index devices) s).1 ≡ set_devices index devices s

-- The entries that are picked from a list, in any way.
pub pick {ℓ} : {A : Type ℓ} → (A → Bool) → List A → List A
pick keep [] = []
pick keep (x ∷ xs) = let rest = pick keep xs in if keep x then x ∷ rest else rest

pick-map {ℓ} :
    {A B : Type ℓ} (keep : B → Bool) (f : A → B) (xs : List A)
    → pick keep (map f xs) ≡ map f (pick (λ x. keep (f x)) xs)
unfolding pick
pick-map keep f [] = refl
pick-map keep f (x ∷ xs) = elim (Bool-cases (keep (f x))) [
  | inl e ↦ rw e (ap (◌∷◌ (f x)) (pick-map keep f xs))
  | inr e ↦ rw e (pick-map keep f xs)
]

All-pick {ℓ ℓ'} :
    {A : Type ℓ} (P : A → Type ℓ') (keep : A → Bool) (xs : List A) → All P xs → All P (pick keep xs)
unfolding pick
All-pick P keep [] h = tt
All-pick P keep (x ∷ xs) h = elim (Bool-cases (keep x)) [
  | inl e ↦ rw e (h.0, All-pick P keep xs h.1)
  | inr e ↦ rw e (All-pick P keep xs h.1)
]

code_fits : (t : DeviceType) → device_code t % 2 ^ 8 ≡ device_code t
code_fits mouse = refl
code_fits keyboard = refl
code_fits touchscreen = refl
code_fits multitouchscreen = refl
code_fits unknown = refl

send_device-receive_device :
    (d : Device)
    → IsInt d.fd
    → IsName d.name
    → send_device (receive_device (encode_device d)) ≡ encode_device d
unfolding send_device receive_device encode_device
send_device-receive_device d i n =
    rw (int_round_trip d.fd i, c_name_whole d.name n, code_fits d.type)

map-send_device :
    (ds : List Device)
    → All (λ d. IsInt d.fd) ds
    → All (λ d. IsName d.name) ds
    → map send_device (map receive_device (map encode_device ds)) ≡ map encode_device ds
map-send_device [] i n = refl
map-send_device (d ∷ ds) i n = cc (send_device-receive_device d i.0 n.0, map-send_device ds i.1 n.1)

list_devices-get :
    (index : ℕ) (s : Server) (p : Process)
    → get_elem? s.custom_recorders index ≡ some p
    → list_devices index s ≡ map encode_device p.recorder.available_devices
unfolding list_devices
list_devices-get index s p h = rw (h, list_devices)

module _ {C : Type 0} (channel : Channel C Server) (serves : Serves channel) where
  ask_list-value :
      (c : Client C) (index : ℕ) (s : Server) (listed : List ListedDevice)
      → (ask channel c (ask_list index) s).0.0 ≡ value listed
      → (listed ≡ map receive_device (list_devices index s))
        × ((ask channel c (ask_list index) s).1 ≡ s)
  unfolding ask
  ask_list-value c index s listed h =
      let (conn, ds, _, e, l, state) =
        request-value (λ conn. channel conn (list_message index)) (map receive_device) c s h in
      (
        l ∙ ap (map receive_device) (serves.list_results conn index s ds e),
        state ∙ serves.list_state conn index s ds e,
      )

  ask_set_devices-value :
      (c : Client C) (index : ℕ) (ds : List ListedDevice) (s : Server)
      → (ask channel c (ask_set_devices index ds) s).0.0 ≡ value tt
      → (ask channel c (ask_set_devices index ds) s).1 ≡ set_devices index (map send_device ds) s
  unfolding ask
  ask_set_devices-value c index ds s h =
      let m = set_devices_message index (map send_device ds) in
      let (conn, u, _, e, _, state) = request-value (λ conn. channel conn m) (λ u. u) c s h in
      state ∙ serves.set_state conn index (map send_device ds) s u e

  -- Over a runtime that gives the results of the server's handlers: where a client asks for the
  -- devices of a recorder, and then asks it to record those that it picks from the list, in any way,
  -- and both calls return, the recorder will record exactly those of its available devices whose
  -- descriptor a picked device has. The recorder has at most 64 devices, with descriptors in the
  -- range of `int` and names that fit their 50 bytes.
  pub ask_set_devices-ask_list :
      (c d : Client C) (index : ℕ) (s : Server) (p : Process) (listed : List ListedDevice)
      (keep : ListedDevice → Bool)
      → get_elem? s.custom_recorders index ≡ some p
      → length p.recorder.available_devices ≤ 64
      → All (λ a. IsInt a.fd) p.recorder.available_devices
      → All (λ a. IsName a.name) p.recorder.available_devices
      → (ask channel c (ask_list index) s).0.0 ≡ value listed
      → (ask channel d
          (ask_set_devices index (pick keep listed))
          (ask channel c (ask_list index) s).1).0.0
        ≡ value tt
      → (q : Process) × (get_elem?
            (ask channel d
              (ask_set_devices index (pick keep listed))
              (ask channel c (ask_list index) s).1).1.custom_recorders
            index
          ≡ some q)
        × (devices_to_record q.recorder
            ≡ requested
                (pick (λ a. keep (receive_device (encode_device a))) p.recorder.available_devices)
                p.recorder.available_devices)
  ask_set_devices-ask_list c d index s p listed keep h fits ints names l m =
      let available = p.recorder.available_devices in
      let picked = pick (λ a. keep (receive_device (encode_device a))) available in
      let (same, state) = ask_list-value c index s listed l in
      let set = ask_set_devices-value d index (pick keep listed) _ m in
      let wire : map send_device (pick keep listed) ≡ map encode_device picked =
        ap (λ x. map send_device (pick keep x))
          (same ∙ ap (map receive_device) (list_devices-get index s p h))
        ∙ ap (map send_device) (pick-map keep receive_device (map encode_device available))
        ∙ ap (λ x. map send_device (map receive_device x))
            (pick-map (λ x. keep (receive_device x)) encode_device available)
        ∙ map-send_device picked (All-pick _ _ available ints) (All-pick _ _ available names) in
      let (q, e, r) = set_devices-chooses index picked s p h fits (All-pick _ _ available ints) in
      (
        q,
        ap (λ x. get_elem? x.custom_recorders index)
              (set
                ∙ ap (λ x. set_devices index x (ask channel c (ask_list index) s).1) wire
                ∙ ap (set_devices index _) state)
            ∙ e,
        r,
      )
