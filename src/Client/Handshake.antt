-- ===== src/Client/Handshake.antt =====
-- src/pkg-handshake.c and src/pkg-heartbeat.c: the answer to the handshake and its confirmation,
-- heartbeats and timeouts, and the callbacks of their writes and timers; pc_client_disconnect of
-- src/client.c.
use libpomelo.Common.{ℕ, Bool, true, false, not, ◌||◌, Option, none, some, if◌then◌else◌, ◌==◌}
use libpomelo.Common.Outcome.{Outcome, ok, fault, defined, ◌>>=◌}
use libpomelo.Client.{
  State, working, disconnecting, TpState, tp_working, tp_freed, ConnCb, Timer, timeout, emitted,
  Client, call, with_state, stopped, again,
}
use libpomelo.Client.Stop.{client_stop, stop_timer}
use libpomelo.Client.Connect.{Writing, binary_write, conn_cb}
use libpomelo.Protobuf.Encode.{Jansson}
use libpomelo.Protobuf.Decode.{Builder, Printer}
use libpomelo.Client.Keys
use libpomelo.Client.Session.{integer_of, set_up}

abbrev pub is_tp_working : TpState → Bool
is_tp_working tp_working = true
is_tp_working _ = false

-- Whether `transport->state` may be read: the memory of the transport was not released.
abbrev pub is_live : TpState → Bool
is_live tp_freed = false
is_live _ = true

abbrev pub is_working : State → Bool
is_working working = true
is_working _ = false

-- `uv_timer_stop` and `uv_timer_again`, where NULL was not tested.
abbrev pub must : (Timer → Timer) → Option Timer → Outcome (Option Timer)
must f none = fault
must f (some t) = ok (some (f t))

-- `pc_pkg_encode(type, NULL, 0)`, of which the allocation may fail, and its write.
abbrev pub write_empty : {J : Type 0} → Bool → Writing → ℕ → Client J → Outcome (Client J × Bool)
write_empty memory env type c = if memory then binary_write env type c else ok (c, false)

module _ {J : Type 0} where
  -- `pc__heartbeat`
  unfoldable pub heartbeat_done : Client J → Outcome (Client J)
  heartbeat_done c = must stopped c.timeout_timer >>= (λ t₁.
      must again c.heartbeat_timer
      >>= (λ t₂. ok (record c { timeout_timer = t₁; heartbeat_timer = t₂ })))

  -- `pc__heartbeat_req`
  unfoldable pub heartbeat_req : Bool → Writing → Client J → Outcome (Client J × Bool)
  heartbeat_req memory env c =
      if is_working c.state then write_empty memory env 3 c else ok (c, false)

  -- `pc_client_disconnect`: `uv_async_send` of NULL is a fault.
  unfoldable pub client_disconnect : Client J → Outcome (Client J)
  client_disconnect c = if c.close_async then ok (with_state disconnecting c) else fault

-- The error code of an answer: PC_HANDSHAKE_OK
abbrev pub handshake_ok : ℕ
handshake_ok = 200

module _ {J : Type 0} (json : Jansson J) (integer_value : J → ℕ) (build : Builder J)
    (printer : Printer) (reload : Option J → Option J) (accept : Option J → Bool) where
  -- The end of `pc__handshake_resp`: the confirmation, of which the result is not read, if the user's
  -- `handshake_cb` allows it, and the first heartbeat.
  abbrev pub confirm : Bool → Bool → Writing → Client J → Outcome (Client J × Bool)
  confirm false memory env c = ok (c, false)
  confirm true memory env c = write_empty memory env 2 c

  abbrev pub answered : Bool → Writing → Option J → Client J → Outcome (Client J × Bool)
  answered memory env none c = ok (c, false)
  answered memory env (some res) c =
      if integer_of integer_value (json.object_get res Keys.code_key) == handshake_ok
      then set_up json integer_value build printer reload (json.object_get res Keys.sys_key) c
        >>= (λ c₁. confirm (accept (json.object_get res Keys.user_key)) memory env c₁)
        >>= (λ (c₂, written). heartbeat_done c₂)
        >>= (λ c₃. ok (c₃, true))
      else ok (c, false)

  -- `pc__handshake_resp`; `res` is what `json_loadb` makes of the body.
  unfoldable pub handshake_resp : Bool → Writing → Option J → Client J → Outcome (Client J × Bool)
  handshake_resp memory env res c =
      must stopped c.handshake_timer
      >>= (λ t. answered memory env res (record c { handshake_timer = t }))

module _ (rand : ℕ → ℕ) {J : Type 0} where
  -- `if(client->conn_req)`: its callback, once.
  abbrev pub finish_at : Option ConnCb → Bool → Client J → Outcome (Client J)
  finish_at none status c = ok c
  finish_at (some cb) status c = conn_cb rand cb status (record c { conn_req = none })

  abbrev pub finish_connect : Bool → Client J → Outcome (Client J)
  finish_connect status c = finish_at c.conn_req status c

  -- `pc__handshake_req_cb` and `pc__handshake_ack_cb` for a write to the transport i.
  unfoldable pub handshake_req_cb : ℕ → Bool → Client J → Outcome (Client J)
  handshake_req_cb i status c = defined (is_live (c.transports i)) (
      if not (is_tp_working (c.transports i)) || status
      then ok c
      else client_stop rand c >>= finish_connect false)

  unfoldable pub handshake_ack_cb : ℕ → Bool → Client J → Outcome (Client J)
  handshake_ack_cb i status c = defined (is_live (c.transports i)) (
      if not (is_tp_working (c.transports i))
      then ok c
      else if status
      then finish_connect true (with_state working c)
      else client_stop rand c >>= finish_connect false)

  -- `pc__handshake_timeout_cb`
  unfoldable pub handshake_timeout_cb : Client J → Outcome (Client J)
  handshake_timeout_cb c =
      client_stop rand
        (call (emitted timeout) (record c { handshake_timer = stop_timer c.handshake_timer }))

  abbrev pub or_stopped : Client J × Bool → Outcome (Client J)
  or_stopped (c, true) = must again c.timeout_timer >>= (λ t. ok (record c { timeout_timer = t }))
  or_stopped (c, false) = client_stop rand c

  -- `pc__heartbeat_cb` and `pc__timeout_cb`; libuv calls both with the status 0.
  unfoldable pub heartbeat_cb : Bool → Writing → Client J → Outcome (Client J)
  heartbeat_cb memory env c =
      heartbeat_req memory env (record c { heartbeat_timer = stop_timer c.heartbeat_timer })
      >>= or_stopped

  unfoldable pub timeout_cb : Client J → Outcome (Client J)
  timeout_cb c =
      client_stop rand
        (call (emitted timeout) (record c { timeout_timer = stop_timer c.timeout_timer }))

  -- `pc__close_async_cb`
  unfoldable pub close_async_cb : Client J → Outcome (Client J)
  close_async_cb c = client_stop rand c

  -- `pc__heartbeat_req_cb`. `data[0]` is the transport, which is taken for the client: its stop is
  -- not defined.
  unfoldable pub heartbeat_req_cb : Bool → Client J → Outcome (Client J)
  heartbeat_req_cb status c = if status then ok c else fault
