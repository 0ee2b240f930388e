-- ===== src/Client/Connect.antt =====
-- src/network.c and src/client.c: from the start of a connection to the handshake request, and
-- src/transport.c: the transport that carries it.
use libpomelo.Common.{
  ℕ, ◌+◌, Bool, true, false, not, ◌&&◌, ◌||◌, Option, none, some, List, if◌then◌else◌,
}
use libpomelo.Common.Outcome.{Outcome, ok, fault, ◌>>=◌}
use libpomelo.Client.{
  State, inited, connecting, connected, working, closed, TpState, tp_inited, tp_connecting,
  tp_working, tp_freed, ConnCb, connected_cb, connect3_cb, reconnected_cb, user_cb, Timer,
  reconnect, disconnect, connect_done, emitted, woken, sent, Client, put, call, with_state,
  with_transport,
}
use libpomelo.Package.{pkg_encode}
use libpomelo.Client.Keys
use libpomelo.Client.Files.{load_file}
use libpomelo.Client.Stop.{transport_destroy, client_stop, stop_reconnect}

abbrev pub is_inited : State → Bool
is_inited inited = true
is_inited _ = false

abbrev pub is_connecting : State → Bool
is_connecting connecting = true
is_connecting _ = false

-- `PC_ST_CONNECTED == client->state || PC_ST_WORKING == client->state`
abbrev pub is_open : State → Bool
is_open connected = true
is_open working = true
is_open _ = false

-- What the calls in `pc_connect` give: the two allocations, those of `pc_transport_new` and
-- `uv_tcp_init`, and `uv_tcp_connect`.
pub record Connecting : Type 0 where
  pub connect_req : Bool
  pub pointers : Bool
  pub transport_memory : Bool
  pub socket_memory : Bool
  pub tcp_init : Bool
  pub tcp_connect : Bool

-- What the calls in `pc__binary_write` give: its two allocations and `uv_write`.
pub record Writing : Type 0 where
  pub req : Bool
  pub attach : Bool
  pub write : Bool

-- `uv_timer_start(client->handshake_timer, …)`
abbrev pub start_handshake : Option Timer → Outcome (Option Timer)
start_handshake none = fault
start_handshake (some t) = ok (some (record t { active = true }))

-- What the request of a handshake is made with: the two calls of `json_object`, `json_object_get` and
-- `json_object_set`, `json_string`, `json_dumps`, and the allocation of the package.
pub record Asking (J : Type 0) : Type 0 where
  pub body : Option J
  pub sys : Option J
  pub get : J → List ℕ → Option J
  pub put : J → List ℕ → J → J
  pub text : List ℕ → Option J
  pub dumps : J → Option (List ℕ)
  pub malloc : ℕ → Bool

module _ {J : Type 0} where
  -- `json_object_set`, which sets nothing for NULL.
  abbrev pub put_some : Asking J → List ℕ → Option J → J → J
  put_some ask key none obj = obj
  put_some ask key (some v) obj = ask.put obj key v

  -- The version that the request states: that of the client, or else what the file says.
  abbrev pub version_of : Asking J → Option J → Option J → Option J
  version_of ask (some v) file = some v
  version_of ask none none = none
  version_of ask none (some proto) = ask.get proto Keys.version_file

  abbrev pub user_of : Asking J → Option J → Option J
  user_of ask none = none
  user_of ask (some opts) = ask.get opts Keys.user_key

  -- The body, as `json_dumps` finds it. `sys` is in it before its members are.
  abbrev pub asked_body : Asking J → J → J → Option J → Option J → J
  asked_body ask body sys version user =
      let sys₁ = put_some ask Keys.sys_type_key (ask.text Keys.pc_type) sys in
      let sys₂ = put_some ask Keys.version_key (ask.text Keys.pc_version) sys₁ in
      let sys₃ = put_some ask Keys.version_file version sys₂ in
      put_some ask Keys.user_key user (ask.put body Keys.sys_key sys₃)

  -- `pc_transport_new`: the number of the new one, `none` for NULL. Where the memory of the transport
  -- is refused, the end of the function reads `transport->socket` through NULL.
  unfoldable pub transport_new : Connecting → Client J → Outcome (Client J × Option ℕ)
  transport_new env c =
      if not env.transport_memory
      then fault
      else if env.socket_memory && env.tcp_init
      then ok (
        record c {
          transports = put c.transports c.next_transport tp_inited;
          next_transport = c.next_transport + 1;
        },
        some c.next_transport,
      )
      else ok (c, none)

  -- The end of `pc_connect`, with a transport.
  abbrev pub connect_with :
      Connecting → Option J → ConnCb → Client J × Option ℕ → Outcome (Client J × Bool)
  connect_with env opts cb (c, none) = ok (c, false)
  connect_with env opts cb (c, some i) =
      let c₁ = record c { handshake_opts = opts; conn_req = some cb } in
      if env.tcp_connect
      then ok (with_transport i tp_connecting c₁, true)
      else transport_destroy i c₁ >>= (λ c₂. ok (c₂, false))

  -- `pc_connect`; `valid` says that the request and its address are not NULL.
  unfoldable pub connect :
      Connecting → Bool → Option J → ConnCb → Client J → Outcome (Client J × Bool)
  connect env valid opts cb c =
      if not (is_inited c.state) || not valid
      then ok (c, false)
      else (let c₁ = with_state connecting c in
          if env.connect_req && env.pointers
          then transport_new env c₁ >>= connect_with env opts cb
          else ok (c₁, false))

  abbrev pub start_at : TpState → ℕ → Client J → Client J
  start_at tp_connecting i c = with_transport i tp_working c
  start_at _ i c = c

  -- `pc_transport_start`, of which the caller does not read the result.
  abbrev pub transport_start : ℕ → Client J → Client J
  transport_start i c = start_at (c.transports i) i c

  -- The write to the socket of `client->transport`.
  abbrev pub write_at : Option ℕ → Writing → ℕ → Client J → Outcome (Client J × Bool)
  write_at none env type c = fault
  write_at (some i) env type c = if env.write then ok (call (sent type) c, true) else ok (c, false)

  -- `pc__binary_write` of a package. The second allocation is used untested: the code tests `data`.
  unfoldable pub binary_write : Writing → ℕ → Client J → Outcome (Client J × Bool)
  binary_write env type c =
      if not (is_open c.state) || not env.req
      then ok (c, false)
      else if env.attach
      then write_at c.transport env type c
      else fault

  -- `pc__tcp_close_cb`: the memory of a transport that was closed is released.
  abbrev pub tcp_close_cb : ℕ → Client J → Client J
  tcp_close_cb i c = with_transport i tp_freed c

  -- `pc__worker`, when the loop has ended.
  abbrev pub worker_done : Client J → Client J
  worker_done c = call woken (call (emitted disconnect) (with_state closed c))

  abbrev pub handshake_sent : Client J × Bool → Outcome (Client J × Bool)
  handshake_sent (c, false) = ok (c, false)
  handshake_sent (c, true) =
      start_handshake c.handshake_timer >>= (λ t. ok (record c { handshake_timer = t }, true))

  -- The write of a package whose encoding may have failed, which the caller does not test: `data` is
  -- NULL then, and the test behind the second allocation ends the call.
  abbrev pub write_package : Option (List ℕ) → Writing → ℕ → Client J → Outcome (Client J × Bool)
  write_package none env type c = ok (c, false)
  write_package (some bytes) env type c = binary_write env type c

  abbrev pub send_ask : Asking J → Writing → Option (List ℕ) → Client J → Outcome (Client J × Bool)
  send_ask ask env none c = ok (c, false)
  send_ask ask env (some text) c =
      write_package (pkg_encode ask.malloc 1 text) env 1 c >>= handshake_sent

  -- The version in the request becomes that of the client.
  abbrev pub ask_with :
      Asking J → Writing → Option J → Option J → Client J → Outcome (Client J × Bool)
  ask_with ask env none sys c = ok (c, false)
  ask_with ask env (some body) none c = ok (c, false)
  ask_with ask env (some body) (some sys) c =
      let version = version_of ask c.proto_ver (load_file Keys.version_file c) in
      send_ask ask env (ask.dumps (asked_body ask body sys version (user_of ask c.handshake_opts)))
        (record c { proto_ver = version })

  -- `pc__handshake_req`
  unfoldable pub handshake_req : Asking J → Writing → Client J → Outcome (Client J × Bool)
  handshake_req ask env c = ask_with ask env ask.body ask.sys c

module _ (rand : ℕ → ℕ) {J : Type 0} where
  -- `req->cb(req, status)` for a connect request, with status true for 0.
  abbrev pub conn_cb : ConnCb → Bool → Client J → Outcome (Client J)
  conn_cb connected_cb true c = ok (call woken c)
  conn_cb connected_cb false c = client_stop rand c
  conn_cb connect3_cb true c = ok (call (emitted reconnect) c)
  conn_cb connect3_cb false c = client_stop rand c
  conn_cb reconnected_cb true c = ok (
      call (emitted reconnect) (record c {
        backoff = record c.backoff { reconnecting = false; reconnects = 0 };
        reconnect_timer = stop_reconnect c.reconnect_timer;
      }))
  conn_cb reconnected_cb false c = client_stop rand (record c {
    backoff = record c.backoff { reconnecting = false };
    reconnect_timer = stop_reconnect c.reconnect_timer;
  })
  conn_cb user_cb status c = ok (call (connect_done status) c)

  -- The error end of `pc__on_tcp_connect`.
  unfoldable pub connect_error : ConnCb → Client J → Outcome (Client J)
  connect_error cb c = client_stop rand (record c { conn_req = none }) >>= conn_cb cb false

  abbrev pub handshaken : ConnCb → Client J × Bool → Outcome (Client J)
  handshaken cb (c, true) = ok c
  handshaken cb (c, false) = connect_error cb c

  -- `pc__on_tcp_connect` for the transport i; `reading` says that `uv_read_start` gave 0.
  unfoldable pub on_tcp_connect :
      ℕ → ConnCb → Bool → Bool → Asking J → Writing → Client J → Outcome (Client J)
  on_tcp_connect i cb status reading ask env c =
      if not (is_connecting c.state)
      then conn_cb cb false (record c { conn_req = none })
      else if not status
      then transport_destroy i c >>= connect_error cb
      else (let c₁ = record c { transport = some i } in
          if reading
          then handshake_req ask env (transport_start i (with_state connected c₁)) >>= handshaken cb
          else connect_error cb c₁)

  abbrev pub or_stop : Client J × Bool → Outcome (Client J)
  or_stop (c, true) = ok c
  or_stop (c, false) =
      client_stop rand (record c { backoff = record c.backoff { reconnecting = false } })

  -- `pc__client_reconnect_timer_cb`; `found` says that the name of the host was resolved, where
  -- there is one, and that the request was made.
  unfoldable pub reconnect_timer_cb : Bool → Connecting → Client J → Outcome (Client J)
  reconnect_timer_cb found env c =
      let c₁ = record c { reconnect_timer = stop_reconnect c.reconnect_timer } in
      if found then connect env true none reconnected_cb c₁ >>= or_stop else or_stop (c₁, false)
