-- ===== src/Client/Connection.antt =====
-- client/RPCClient.h: the connection over the life of a client.
use test_runner.Prelude.{
  ◌≡◌, refl, inl, inr, Bool, true, false, Option, none, some, Option-cases, Bytes,
}
use test_runner.Client.Requests.{Response, results, exception, finish, request_over, request}
use test_runner.Client.{
  Client, new_client, connect, wait_with_timeout, checked, send, Command, Exchange, answered,
  disconnected, failed, timed_out, Transport,
}

abbrev holds : {C : Type 0} → Option C → Bool
holds none = false
holds (some conn) = true

-- The flag is set exactly while there is a connection.
abbrev pub IsLinked : {C : Type 0} → Client C → Type 0
IsLinked c = c.is_connected ≡ holds c.conn

-- The clients that a program can come to have.
pub data Reachable {C W : Type 0} (dial : Bytes → Option C) (transport : Transport C W)
    : Client C → Type 1 where
  fresh : Reachable dial transport new_client
  connected :
      (ip : Bytes) (c : Client C)
      → Reachable dial transport c
      → Reachable dial transport (connect dial ip c)
  called :
      (command : Command) (w : W) (c : Client C)
      → Reachable dial transport c
      → Reachable dial transport (send transport c command w).0.1
  requested :
      {V A B : Type 0} (exchange : C → V → Response A × V) (decode : A → B) (w : V) (c : Client C)
      → Reachable dial transport c
      → Reachable dial transport (request exchange decode c w).0.1

module _ {C W : Type 0} (dial : Bytes → Option C) (transport : Transport C W) where
  connect-IsLinked : (ip : Bytes) (c : Client C) → IsLinked c → IsLinked (connect dial ip c)
  unfolding connect
  connect-IsLinked ip c h = elim (Option-cases (dial ip)) [
    | inl e ↦ rw (e, connect) h
    | inr (conn, e) ↦ rw (e, connect) refl
  ]

  wait_with_timeout-IsLinked :
      (e : Exchange) (c : Client C) → IsLinked c → IsLinked (wait_with_timeout e c).1
  unfolding wait_with_timeout
  wait_with_timeout-IsLinked answered c h = h
  wait_with_timeout-IsLinked disconnected c h = refl
  wait_with_timeout-IsLinked failed c h = h
  wait_with_timeout-IsLinked timed_out c h = h

  checked-IsLinked :
      (command : Command) (w : W) (c : Client C) (b : Bool) (conn : Option C)
      → IsLinked c
      → IsLinked (checked transport c command w b conn).0.1
  unfolding checked
  checked-IsLinked command w c false conn h = h
  checked-IsLinked command w c true none h = h
  checked-IsLinked command w c true (some conn) h = wait_with_timeout-IsLinked _ c h

  send-IsLinked :
      (command : Command) (w : W) (c : Client C)
      → IsLinked c
      → IsLinked (send transport c command w).0.1
  unfolding send
  send-IsLinked command w c h = checked-IsLinked command w c c.is_connected c.conn h

  module _ {V A B : Type 0} (exchange : C → V → Response A × V) (decode : A → B) where
    finish-IsLinked : (r : Response A) (c : Client C) → IsLinked c → IsLinked (finish decode r c).1
    unfolding finish
    finish-IsLinked (results r) c h = h
    finish-IsLinked (exception true) c h = refl
    finish-IsLinked (exception false) c h = h

    request_over-IsLinked :
        (w : V) (c : Client C) (b : Bool) (conn : Option C)
        → IsLinked c
        → IsLinked (request_over exchange decode c w b conn).0.1
    unfolding request_over
    request_over-IsLinked w c false conn h = h
    request_over-IsLinked w c true none h = h
    request_over-IsLinked w c true (some conn) h = finish-IsLinked _ c h

    request-IsLinked :
        (w : V) (c : Client C) → IsLinked c → IsLinked (request exchange decode c w).0.1
    unfolding request
    request-IsLinked w c h = request_over-IsLinked w c c.is_connected c.conn h

  -- In every client that connecting and calling lead to from a new one, whatever the runtime does,
  -- isConnected is set exactly while there is a connection; so a call that KJ_REQUIRE lets through
  -- has a connection to send its request over.
  pub Reachable-IsLinked : (c : Client C) → Reachable dial transport c → IsLinked c
  Reachable-IsLinked c fresh = refl
  Reachable-IsLinked c (connected ip d r) = connect-IsLinked ip d (Reachable-IsLinked d r)
  Reachable-IsLinked c (called command w d r) = send-IsLinked command w d (Reachable-IsLinked d r)
  Reachable-IsLinked c (requested exchange decode w d r) =
      request-IsLinked exchange decode w d (Reachable-IsLinked d r)
