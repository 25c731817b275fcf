-- ===== src/Client.antt =====
-- client/RPCClient.h and client/TestRunnerClient.cpp: the connection and the calls of the Input
-- interface. The RPC runtime is a parameter, which takes a request and the state of the far side to
-- the end of the exchange; the type C of its connections is a parameter too.
pub mod Requests
pub mod Recorders
pub mod Delivery
pub mod Connection
use test_runner.Prelude.{
  ℕ, zero, suc, ◌+◌, ◌-◌, ◌*◌, ◌/◌, ◌%◌, ◌^◌, ◌≤◌, ◌<◌, ◌≡◌, refl, sym, ap, ◌∙◌, subst, ◌≢◌, ◌↔◌,
  ◌⊎◌, inl, inr, Bool, true, false, ◌&&◌, ◌||◌, not, Option, none, some, List, [], ◌∷◌, ◌++◌, map,
  arith, ltb, leb, ◌==◌, if◌then◌else◌, Bool-cases, Option-cases, Bytes, codes, bytes_eq, length,
  get_elem?, get_or, set, take, drop, All, All-append, length-append, length-set,
  get_elem?-set_self, get_elem?-set_ne,
}
use test_runner.Prelude.Int.{
  ℤ, pos, negsuc, pos_part, neg_part, sub_ℕ, ◌-ℤ◌, ◌≤ℤ◌, ltb_ℤ, eqb_ℤ, to_unsigned, to_signed,
  wrap_signed,
}
use test_runner.Server.Input.{
  KeyChoice, raw_code, key_sym, key_name, MouseMove, MouseClick, KeyPress, SingleTouch, MultiTouch,
  PassThrough, Request, mouse_move, mouse_click, key_press, single_touch, multi_touch, pass_through,
}

-- The end of an exchange: the answer, or an exception of the runtime. The timer that the client
-- joins with the answer throws an exception of its own.
pub data Exchange : Type 0 where
  answered disconnected failed timed_out : Exchange

-- What a call of the client comes to: it returns, or KJ_REQUIRE refuses it, or the runtime's
-- exception goes on to the caller.
pub data Result : Type 0 where
  sent refused lost : Result

-- `class RPCClient`.
pub record Client (C : Type 0) : Type 0 where
  pub conn : Option C
  pub is_connected : Bool
  pub last_server_ip : Option Bytes

abbrev pub new_client : {C : Type 0} → Client C
new_client = record { conn = none; is_connected = false; last_server_ip = none }

-- Connect: the constructor of the connection throws where it cannot be made, `none` here, and the
-- members then keep their values.
unfoldable pub connect : {C : Type 0} → (Bytes → Option C) → Bytes → Client C → Client C
connect dial ip c = elim (dial ip) [
  | none ↦ c
  | some conn ↦ record { conn = some conn; is_connected = true; last_server_ip = some ip }
]

-- The end of waitWithTimeout.
unfoldable pub wait_with_timeout : {C : Type 0} → Exchange → Client C → Result × Client C
wait_with_timeout answered c = (sent, c)
wait_with_timeout disconnected c = (lost, record c { conn = none; is_connected = false })
wait_with_timeout failed c = (lost, c)
wait_with_timeout timed_out c = (lost, c)

-- `struct multiTouch`.
pub record Contact : Type 0 where
  pub slot : ℤ
  pub tracking_id : ℤ
  pub x : ℤ
  pub y : ℤ

-- The calls of the Input interface with their arguments, which are values of type int.
pub data Command : Type 0 where
  send_mouse_move : ℤ → ℤ → Command
  send_mouse_click : ℤ → Bool → Command
  send_key_press : ℤ → Bool → Command
  send_key_press_by_key_sym : ℕ → Bool → Command
  send_key_press_by_name : Bytes → Bool → Command
  send_single_touch : ℤ → ℤ → Bool → Command
  send_multi_touch : List Contact → Command
  send_pass_through : ℤ → ℤ → ℤ → ℤ → Command

-- The fields of a contact are narrowed to 8 and 16 bits.
abbrev pub encode_contact : Contact → MultiTouch
encode_contact t = record {
  slot = wrap_signed (2 ^ 8) t.slot;
  tracking_id = wrap_signed (2 ^ 16) t.tracking_id;
  abs_x = t.x;
  abs_y = t.y;
}

-- The request that a call sends.
unfoldable pub encode : Command → Request
encode (send_mouse_move x y) = mouse_move (record { rel_x = x; rel_y = y })
encode (send_mouse_click btn pressed) =
    mouse_click (record { btn = to_unsigned (2 ^ 16) btn; pressed = pressed })
encode (send_key_press key pressed) =
    key_press (record { pressed = pressed; choice = raw_code (to_unsigned (2 ^ 16) key) })
encode (send_key_press_by_key_sym sym pressed) =
    key_press (record { pressed = pressed; choice = key_sym sym })
encode (send_key_press_by_name name pressed) =
    key_press (record { pressed = pressed; choice = key_name name })
encode (send_single_touch x y pressed) =
    single_touch (record { abs_x = x; abs_y = y; pressed = pressed })
encode (send_multi_touch touches) = multi_touch (map encode_contact touches)
encode (send_pass_through device type code val) = pass_through (record {
  device = to_unsigned (2 ^ 32) device;
  type = to_unsigned (2 ^ 32) type;
  code = to_unsigned (2 ^ 32) code;
  value = val;
})

-- How the runtime carries a request over a connection, and what that does to the far side.
abbrev pub Transport : Type 0 → Type 0 → Type 0
Transport C W = C → Request → W → Exchange × W

abbrev pub after : {C W : Type 0} → Client C → Exchange × W → (Result × Client C) × W
after c (e, w) = (wait_with_timeout e c, w)

-- A call: KJ_REQUIRE, then the request over the connection. Without a connection getMain would go
-- through a null pointer; the second clause is that case, which no client reaches.
unfoldable pub checked :
    {C W : Type 0}
    → Transport C W
    → Client C
    → Command
    → W
    → Bool
    → Option C
    → (Result × Client C) × W
checked transport c command w false conn = ((refused, c), w)
checked transport c command w true none = ((lost, c), w)
checked transport c command w true (some conn) = after c (transport conn (encode command) w)

unfoldable pub send :
    {C W : Type 0} → Transport C W → Client C → Command → W → (Result × Client C) × W
unfolding checked
send transport c command w = checked transport c command w c.is_connected c.conn
