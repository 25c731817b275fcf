-- ===== src/Client/Requests.antt =====
-- client/RPCClient.h: a call with results. The exchange is what the RPC runtime makes of a request
-- over a connection; `decode` is what a call makes of the results.
use test_runner.Prelude.{◌≡◌, refl, arith, Bool, true, false, Option, none, some}
use test_runner.Client.{Client}

-- The end of an exchange: the results, or an exception, which is or is not a disconnection.
pub data Response (A : Type 0) : Type 0 where
  results : A → Response A
  exception : Bool → Response A

-- What a call comes to: its value, KJ_REQUIRE's exception, or the runtime's.
pub data Answer (A : Type 0) : Type 0 where
  value : A → Answer A
  not_connected rpc_failed : Answer A

-- waitWithTimeout, and the value made of the results.
unfoldable pub finish : {C A B : Type 0} → (A → B) → Response A → Client C → Answer B × Client C
finish decode (results a) c = (value (decode a), c)
finish decode (exception true) c = (rpc_failed, record c { conn = none; is_connected = false })
finish decode (exception false) c = (rpc_failed, c)

-- After KJ_REQUIRE. Without a connection getMain would go through a null pointer; the second clause
-- is that case, which no client reaches.
unfoldable pub request_over :
    {C W A B : Type 0}
    → (C → W → Response A × W)
    → (A → B)
    → Client C
    → W
    → Bool
    → Option C
    → (Answer B × Client C) × W
request_over exchange decode c w false conn = ((not_connected, c), w)
request_over exchange decode c w true none = ((rpc_failed, c), w)
request_over exchange decode c w true (some conn) =
    let r = exchange conn w in (finish decode r.0 c, r.1)

-- `KJ_REQUIRE(isConnected, …); … waitWithTimeout(request.send()); …`
unfoldable pub request :
    {C W A B : Type 0}
    → (C → W → Response A × W)
    → (A → B)
    → Client C
    → W
    → (Answer B × Client C) × W
request exchange decode c w = request_over exchange decode c w c.is_connected c.conn

module _ {C W A B : Type 0} (exchange : C → W → Response A × W) (decode : A → B) where
  finish-value :
      (r : Response A) (c : Client C) {b : B}
      → (finish decode r c).0 ≡ value b
      → (a : A) × (r ≡ results a) × (b ≡ decode a)
  unfolding finish
  finish-value (results a) c h = (a, refl, ground arith)
  finish-value (exception true) c h = ground arith
  finish-value (exception false) c h = ground arith

  request_over-value :
      (c : Client C) (w : W) (b : Bool) (conn : Option C) {v : B}
      → (request_over exchange decode c w b conn).0.0 ≡ value v
      → (at : C) × (a : A) × (conn ≡ some at)
        × ((exchange at w).0 ≡ results a)
        × (v ≡ decode a)
        × ((request_over exchange decode c w b conn).1 ≡ (exchange at w).1)
  unfolding request_over
  request_over-value c w false conn h = ground arith
  request_over-value c w true none h = ground arith
  request_over-value c w true (some at) h =
      let (a, e, v) = finish-value (exchange at w).0 c h in (at, a, refl, e, v, refl)

  -- A call that returns a value has had results over the client's connection.
  pub request-value :
      (c : Client C) (w : W) {v : B}
      → (request exchange decode c w).0.0 ≡ value v
      → (at : C) × (a : A) × (c.conn ≡ some at)
        × ((exchange at w).0 ≡ results a)
        × (v ≡ decode a)
        × ((request exchange decode c w).1 ≡ (exchange at w).1)
  unfolding request
  request-value c w h = request_over-value c w c.is_connected c.conn h
