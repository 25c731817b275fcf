-- ===== src/Server/Input/Events.antt =====
-- The handlers of server/TestRunnerServer.cpp against a table of the events that each request
-- stands for.
use test_runner.Prelude.{
  ℕ, ◌%◌, ◌^◌, ◌<◌, ◌≡◌, refl, sym, ap, ◌∙◌, inl, inr, Bool, true, false, not, Option, none, some,
  List, [], ◌∷◌, ◌++◌, arith, ◌==◌, if◌then◌else◌, Bool-cases,
}
use test_runner.Prelude.Int.{ℤ, pos, ltb_ℤ, eqb_ℤ, to_unsigned, to_signed}
use test_runner.Linux.{
  InputEvent, ev_syn, ev_key, ev_rel, ev_abs, syn_report, rel_x, rel_y, abs_x, abs_y, abs_mt_slot,
  abs_mt_position_x, abs_mt_position_y, abs_mt_tracking_id, btn_touch,
}
use test_runner.Syscalls.{write, Log, Kernel}
use test_runner.Xkb.{Xkb, no_symbol}
use test_runner.Recorder.Devices.{until_nul}
use test_runner.Server.Keysym.Search.{resolve_keysym-lt}
use test_runner.Server.{
  Server, get_device_fd, virtual_mouse, virtual_keyboard, virtual_touchscreen,
  virtual_multi_touchscreen,
}
use test_runner.Server.Input.{
  KeyChoice, raw_code, key_sym, key_name, nonzero, SingleTouch, MultiTouch, Request, mouse_move,
  mouse_click, key_press, single_touch, multi_touch, pass_through, flag, emit, emit_if,
  emit_contact, emit_contacts, evdev_code, press_code, handle,
}

abbrev pub event : ℕ → ℕ → ℤ → InputEvent
event type code value = record { type = type; code = code; value = value }

abbrev pub sync : InputEvent
sync = event ev_syn syn_report (pos 0)

abbrev pub when : Bool → InputEvent → List InputEvent
when true e = e ∷ []
when false e = []

-- The events of one contact: its slot, its tracking id unless that is 0, and its position unless
-- the id is negative.
abbrev pub contact_events : MultiTouch → List InputEvent
contact_events t =
    event ev_abs abs_mt_slot t.slot
      ∷ when (not (eqb_ℤ t.tracking_id (pos 0))) (event ev_abs abs_mt_tracking_id t.tracking_id)
    ++ (when (not (ltb_ℤ t.tracking_id (pos 0))) (event ev_abs abs_mt_position_x t.abs_x)
        ++ when (not (ltb_ℤ t.tracking_id (pos 0))) (event ev_abs abs_mt_position_y t.abs_y))

abbrev pub contacts_events : List MultiTouch → List InputEvent
contacts_events [] = []
contacts_events (t ∷ ts) = contact_events t ++ contacts_events ts

-- The events of a single touch: the coordinates that are not negative, and the press.
abbrev pub touch_events : SingleTouch → List InputEvent
touch_events t =
    when (not (ltb_ℤ t.abs_x (pos 0))) (event ev_abs abs_x t.abs_x)
    ++ (when (not (ltb_ℤ t.abs_y (pos 0))) (event ev_abs abs_y t.abs_y)
        ++ event ev_key btn_touch (flag t.pressed) ∷ sync ∷ [])

abbrev pub key_events : Bool → Option ℕ → List InputEvent
key_events pressed none = []
key_events pressed (some code) = event ev_key (code % 2 ^ 16) (flag pressed) ∷ sync ∷ []

-- The virtual device that a request is for.
abbrev pub target : Request → ℕ
target (mouse_move m) = virtual_mouse
target (mouse_click m) = virtual_mouse
target (key_press k) = virtual_keyboard
target (single_touch t) = virtual_touchscreen
target (multi_touch ts) = virtual_multi_touchscreen
target (pass_through p) = p.device

-- The events that a request stands for; type and code are 16 bits wide.
abbrev pub events_of : Xkb → Server → Request → List InputEvent
events_of xkb s (mouse_move m) = event ev_rel rel_x m.rel_x ∷ event ev_rel rel_y m.rel_y ∷ sync ∷ []
events_of xkb s (mouse_click m) = event ev_key (m.btn % 2 ^ 16) (flag m.pressed) ∷ sync ∷ []
events_of xkb s (key_press k) = key_events k.pressed (evdev_code xkb s k.choice)
events_of xkb s (single_touch t) = touch_events t
events_of xkb s (multi_touch ts) = contacts_events ts ++ sync ∷ []
events_of xkb s (pass_through p) = event (p.type % 2 ^ 16) (p.code % 2 ^ 16) p.value ∷ []

-- The words of a request lie in the ranges of their wire types.
abbrev pub IsWord : KeyChoice → Type 0
IsWord (raw_code code) = code < 2 ^ 16
IsWord _ = Unit {0}

abbrev pub OnWire : Request → Type 0
OnWire (key_press k) = IsWord k.choice
OnWire (pass_through p) = (p.type < 2 ^ 32) × (p.code < 2 ^ 32)
OnWire _ = Unit {0}

abbrev IsCode : Option ℕ → Type 0
IsCode none = Unit
IsCode (some code) = code < 2 ^ 32

nonzero-IsCode : (n : ℕ) → n < 2 ^ 32 → IsCode (nonzero n)
nonzero-IsCode n h = ground arith

evdev_code-IsCode :
    (xkb : Xkb) (s : Server) (c : KeyChoice) → IsWord c → IsCode (evdev_code xkb s c)
unfolding evdev_code
evdev_code-IsCode xkb s (raw_code code) h = omega arith
evdev_code-IsCode xkb s (key_sym sym) h =
    nonzero-IsCode _ (omega (arith, resolve_keysym-lt s.keymap sym))
evdev_code-IsCode xkb s (key_name name) h =
    elim (Bool-cases (xkb.keysym_from_name (until_nul name) == no_symbol)) [
      | inl e ↦ rw e tt
      | inr e ↦ rw e (
          nonzero-IsCode _
            (omega (arith, resolve_keysym-lt s.keymap (xkb.keysym_from_name (until_nul name)))))
    ]

-- The history after the events are written to a descriptor, if it is one.
abbrev pub written : ℤ → Log → List InputEvent → Log
written fd log [] = log
written fd log (e ∷ es) = written fd (if ltb_ℤ fd (pos 0) then log else write fd e ∷ log) es

written-append :
    (fd : ℤ) (xs ys : List InputEvent) (log : Log)
    → written fd log (xs ++ ys) ≡ written fd (written fd log xs) ys
written-append fd [] ys log = refl
written-append fd (x ∷ xs) ys log = written-append fd xs ys _

emit_lem :
    (k : Kernel) (log : Log) (fd type code val : ℤ)
    → (emit fd type code val k log).1
      ≡ written fd log (event (to_unsigned (2 ^ 16) type) (to_unsigned (2 ^ 16) code) val ∷ [])
unfolding emit
emit_lem k log fd type code val = ground arith

emit_if_lem :
    (k : Kernel) (log : Log) (b : Bool) (fd type code val : ℤ)
    → (emit_if b fd type code val k log).1
      ≡ written fd log (when b (event (to_unsigned (2 ^ 16) type) (to_unsigned (2 ^ 16) code) val))
emit_if_lem k log true fd type code val = emit_lem k log fd type code val
emit_if_lem k log false fd type code val = refl

emit_contact_lem :
    (k : Kernel) (log : Log) (fd : ℤ) (t : MultiTouch)
    → (emit_contact fd t k log).1 ≡ written fd log (contact_events t)
unfolding emit_contact
emit_contact_lem k log fd t = simp (emit_lem, emit_if_lem, written-append)

emit_contacts_lem :
    (k : Kernel) (fd : ℤ) (ts : List MultiTouch) (log : Log)
    → (emit_contacts fd ts k log).1 ≡ written fd log (contacts_events ts)
unfolding emit_contacts
emit_contacts_lem k fd [] log = refl
emit_contacts_lem k fd (t ∷ ts) log =
    emit_contacts_lem k fd ts _
    ∙ ap (λ l. written fd l (contacts_events ts)) (emit_contact_lem k log fd t)
    ∙ sym (written-append fd (contact_events t) (contacts_events ts) log)

low_half : (n : ℕ) → n < 2 ^ 32 → to_unsigned (2 ^ 16) (to_signed (2 ^ 32) n) ≡ n % 2 ^ 16
low_half n h = ground arith

press_code_lem :
    (k : Kernel) (log : Log) (s : Server) (pressed : Bool) (code : Option ℕ)
    → IsCode code
    → (press_code s pressed code k log).1
      ≡ written (get_device_fd s virtual_keyboard) log (key_events pressed code)
unfolding press_code
press_code_lem k log s pressed none h = refl
press_code_lem k log s pressed (some code) h = simp (emit_lem, low_half code h)

-- Whatever the kernel answers, the handler of a request writes the events that the request stands
-- for to the descriptor of the request's device, in order, and makes no other call; where the
-- device has no descriptor it makes none. The wire's bounds are assumed: a raw key code is below
-- 2^16, the type and the code of a pass-through are below 2^32.
pub handle-writes :
    (xkb : Xkb) (k : Kernel) (log : Log) (s : Server) (r : Request)
    → OnWire r
    → (handle xkb s r k log).1 ≡ written (get_device_fd s (target r)) log (events_of xkb s r)
unfolding handle
handle-writes xkb k log s (mouse_move m) h = simp emit_lem
handle-writes xkb k log s (mouse_click m) h = simp emit_lem
handle-writes xkb k log s (key_press p) h =
    press_code_lem k log s p.pressed _ (evdev_code-IsCode xkb s p.choice h)
handle-writes xkb k log s (single_touch t) h = simp (emit_lem, emit_if_lem, written-append)
handle-writes xkb k log s (multi_touch ts) h = simp (emit_lem, emit_contacts_lem, written-append)
handle-writes xkb k log s (pass_through p) h =
    simp (emit_lem, low_half p.type h.0, low_half p.code h.1)
