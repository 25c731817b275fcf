-- ===== src/Client/Delivery.antt =====
-- client/TestRunnerClient.cpp over server/TestRunnerServer.cpp: a call of the client up to the events
-- that the server writes.
use test_runner.Prelude.{
  ℕ, ◌%◌, ◌^◌, ◌<◌, ◌≡◌, refl, ap, ◌∙◌, Bool, true, false, not, Option, none, some, List, [], ◌∷◌,
  ◌++◌, map, arith, if◌then◌else◌, ◌==◌, Bytes,
}
use test_runner.Prelude.Int.{ℤ, pos, negsuc, to_unsigned, wrap_signed, ltb_ℤ, eqb_ℤ}
use test_runner.Linux.{
  InputEvent, ev_key, ev_rel, ev_abs, rel_x, rel_y, abs_x, abs_y, btn_touch, abs_mt_slot,
  abs_mt_tracking_id, abs_mt_position_x, abs_mt_position_y,
}
use test_runner.Syscalls.{Log, Kernel}
use test_runner.Xkb.{Xkb, no_symbol}
use test_runner.Server.{
  Server, get_device_fd, virtual_mouse, virtual_keyboard, virtual_touchscreen,
  virtual_multi_touchscreen,
}
use test_runner.Server.Keysym.{resolve_keysym}
use test_runner.Recorder.Devices.{until_nul}
use test_runner.Server.Input.{evdev_code, Request, handle, flag}
use test_runner.Server.Input.Events.{
  written, events_of, target, OnWire, handle-writes, event, sync, when, contacts_events, key_events,
}
use test_runner.Client.{
  Client, Contact, encode_contact, send, Command, Exchange, answered, disconnected, failed,
  timed_out, sent, Transport, encode, after, wait_with_timeout, checked, send_mouse_move,
  send_mouse_click, send_key_press, send_key_press_by_key_sym, send_key_press_by_name,
  send_single_touch, send_multi_touch, send_pass_through,
}

-- What the client relies on in the RPC runtime: where an exchange ends with the answer, the
-- server's handler has run on the request.
abbrev pub Delivers : {C : Type 0} → Xkb → Kernel → Server → Transport C Log → Type 0
Delivers {C} xkb k s transport =
    (conn : C) (r : Request) (log : Log)
    → (transport conn r log).0 ≡ answered
    → (transport conn r log).1 ≡ (handle xkb s r k log).1

-- The code of a keysym, `none` where no key gives it.
abbrev pub sym_code : Server → ℕ → Option ℕ
sym_code s sym =
    if resolve_keysym s.keymap sym == 0 then none else some (resolve_keysym s.keymap sym)

-- The code of a name, given as a C string.
abbrev pub code_for : Xkb → Server → Bytes → Option ℕ
code_for xkb s name =
    if xkb.keysym_from_name (until_nul name) == no_symbol
    then none
    else sym_code s (xkb.keysym_from_name (until_nul name))

-- A contact: its slot in 8 bits and its tracking id in 16. The id is sent unless it is 0, and the
-- position unless the id is negative.
abbrev pub events_at : ℤ → ℤ → ℤ → ℤ → List InputEvent
events_at slot id x y =
    event ev_abs abs_mt_slot slot
    ∷ (when (not (eqb_ℤ id (pos 0))) (event ev_abs abs_mt_tracking_id id)
        ++ (when (not (ltb_ℤ id (pos 0))) (event ev_abs abs_mt_position_x x)
            ++ when (not (ltb_ℤ id (pos 0))) (event ev_abs abs_mt_position_y y)))

abbrev pub contacts_for : List Contact → List InputEvent
contacts_for [] = []
contacts_for (t ∷ ts) =
    events_at (wrap_signed (2 ^ 8) t.slot) (wrap_signed (2 ^ 16) t.tracking_id) t.x t.y
    ++ contacts_for ts

-- What a call asks for, in the terms of its own arguments.
abbrev pub events_for : Xkb → Server → Command → List InputEvent
events_for xkb s (send_mouse_click btn pressed) =
    event ev_key (to_unsigned (2 ^ 16) btn) (flag pressed) ∷ sync ∷ []
events_for xkb s (send_key_press key pressed) =
    event ev_key (to_unsigned (2 ^ 16) key) (flag pressed) ∷ sync ∷ []
events_for xkb s (send_pass_through device type code val) =
    event (to_unsigned (2 ^ 16) type) (to_unsigned (2 ^ 16) code) val ∷ []
events_for xkb s (send_mouse_move x y) = event ev_rel rel_x x ∷ event ev_rel rel_y y ∷ sync ∷ []
events_for xkb s (send_key_press_by_key_sym sym pressed) = key_events pressed (sym_code s sym)
events_for xkb s (send_key_press_by_name name pressed) = key_events pressed (code_for xkb s name)
events_for xkb s (send_single_touch x y pressed) =
    when (not (ltb_ℤ x (pos 0))) (event ev_abs abs_x x)
    ++ (when (not (ltb_ℤ y (pos 0))) (event ev_abs abs_y y)
        ++ event ev_key btn_touch (flag pressed) ∷ sync ∷ [])
events_for xkb s (send_multi_touch touches) = contacts_for touches ++ sync ∷ []

-- The descriptor of the virtual device that a call is for.
abbrev pub device_of : Server → Command → ℤ
device_of s (send_mouse_move x y) = get_device_fd s virtual_mouse
device_of s (send_mouse_click btn pressed) = get_device_fd s virtual_mouse
device_of s (send_key_press key pressed) = get_device_fd s virtual_keyboard
device_of s (send_key_press_by_key_sym sym pressed) = get_device_fd s virtual_keyboard
device_of s (send_key_press_by_name name pressed) = get_device_fd s virtual_keyboard
device_of s (send_single_touch x y pressed) = get_device_fd s virtual_touchscreen
device_of s (send_multi_touch touches) = get_device_fd s virtual_multi_touchscreen
device_of s (send_pass_through device type code val) = get_device_fd s (to_unsigned (2 ^ 32) device)

to_unsigned-lt : (m : ℕ) (z : ℤ) → 0 < m → to_unsigned m z < m
to_unsigned-lt m (pos n) h = ground arith
to_unsigned-lt m (negsuc n) h = ground arith

low_half : (z : ℤ) → to_unsigned (2 ^ 32) z % 2 ^ 16 ≡ to_unsigned (2 ^ 16) z
low_half (pos n) = ground arith
low_half (negsuc n) = ground arith

half_mod : (z : ℤ) → to_unsigned (2 ^ 16) z % 2 ^ 16 ≡ to_unsigned (2 ^ 16) z
half_mod (pos n) = ground arith
half_mod (negsuc n) = ground arith

encode-OnWire : (c : Command) → OnWire (encode c)
unfolding encode
encode-OnWire (send_mouse_move x y) = tt
encode-OnWire (send_mouse_click btn pressed) = tt
encode-OnWire (send_key_press key pressed) = to_unsigned-lt (2 ^ 16) key (omega arith)
encode-OnWire (send_key_press_by_key_sym key pressed) = tt
encode-OnWire (send_key_press_by_name name pressed) = tt
encode-OnWire (send_single_touch x y pressed) = tt
encode-OnWire (send_multi_touch touches) = tt
encode-OnWire (send_pass_through device type code val) =
    (to_unsigned-lt (2 ^ 32) type (omega arith), to_unsigned-lt (2 ^ 32) code (omega arith))

contacts-encode : (ts : List Contact) → contacts_events (map encode_contact ts) ≡ contacts_for ts
contacts-encode [] = refl
contacts-encode (t ∷ ts) =
    ap
      (λ es.
        events_at (wrap_signed (2 ^ 8) t.slot) (wrap_signed (2 ^ 16) t.tracking_id) t.x t.y ++ es)
      (contacts-encode ts)

encode-events_for :
    (xkb : Xkb) (s : Server) (c : Command) → events_of xkb s (encode c) ≡ events_for xkb s c
unfolding encode evdev_code
encode-events_for xkb s (send_mouse_move x y) = refl
encode-events_for xkb s (send_mouse_click btn pressed) = simp (half_mod btn)
encode-events_for xkb s (send_key_press key pressed) = simp (half_mod key)
encode-events_for xkb s (send_key_press_by_key_sym key pressed) = refl
encode-events_for xkb s (send_key_press_by_name name pressed) = refl
encode-events_for xkb s (send_single_touch x y pressed) = refl
encode-events_for xkb s (send_multi_touch touches) =
    ap (λ es. es ++ sync ∷ []) (contacts-encode touches)
encode-events_for xkb s (send_pass_through device type code val) =
    simp (low_half type, low_half code)

target-device_of : (s : Server) (c : Command) → get_device_fd s (target (encode c)) ≡ device_of s c
unfolding encode
target-device_of s (send_mouse_move x y) = refl
target-device_of s (send_mouse_click btn pressed) = refl
target-device_of s (send_key_press key pressed) = refl
target-device_of s (send_key_press_by_key_sym sym pressed) = refl
target-device_of s (send_key_press_by_name name pressed) = refl
target-device_of s (send_single_touch x y pressed) = refl
target-device_of s (send_multi_touch touches) = refl
target-device_of s (send_pass_through device type code val) = refl

module _ {C : Type 0} (xkb : Xkb) (k : Kernel) (s : Server) (transport : Transport C Log) where
  after-writes :
      (c : Client C) (conn : C) (command : Command) (log : Log)
      → Delivers xkb k s transport
      → (after c (transport conn (encode command) log)).0.0 ≡ sent
      → (after c (transport conn (encode command) log)).1
        ≡ written (device_of s command) log (events_for xkb s command)
  unfolding wait_with_timeout
  after-writes c conn command log d h =
      d conn (encode command) log (answered_lem _ h)
      ∙ handle-writes xkb k log s (encode command) (encode-OnWire command)
      ∙ ap (written (get_device_fd s (target (encode command))) log)
          (encode-events_for xkb s command)
      ∙ ap (λ fd. written fd log (events_for xkb s command)) (target-device_of s command)
    where
      answered_lem : (e : Exchange) → (wait_with_timeout e c).0 ≡ sent → e ≡ answered
      answered_lem answered h = refl
      answered_lem disconnected h = ground arith
      answered_lem failed h = ground arith
      answered_lem timed_out h = ground arith

  checked-writes :
      (c : Client C) (command : Command) (log : Log) (b : Bool) (conn : Option C)
      → Delivers xkb k s transport
      → (checked transport c command log b conn).0.0 ≡ sent
      → (checked transport c command log b conn).1
        ≡ written (device_of s command) log (events_for xkb s command)
  unfolding checked
  checked-writes c command log false conn d h = ground arith
  checked-writes c command log true none d h = ground arith
  checked-writes c command log true (some conn) d h = after-writes c conn command log d h

  -- Where a call of the client returns, over a runtime that answers only when the server's handler
  -- has run, the server has written the events that the call asks for, in order and nothing else, to
  -- the descriptor of the call's device. A button, a key and the type and code of a pass-through are
  -- the caller's integers modulo 2^16, the device of a pass-through modulo 2^32; the slot of a contact is
  -- narrowed to a signed byte, its tracking id to 16 bits. A keysym stands for the code that
  -- resolve_keysym finds; a name, up to its first zero byte, for the keysym of that name.
  pub send-writes :
      (c : Client C) (command : Command) (log : Log)
      → Delivers xkb k s transport
      → (send transport c command log).0.0 ≡ sent
      → (send transport c command log).1
        ≡ written (device_of s command) log (events_for xkb s command)
  unfolding send
  send-writes c command log d h = checked-writes c command log c.is_connected c.conn d h
