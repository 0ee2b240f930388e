-- ===== src/Client.antt =====
-- src/client.c, src/transport.c, src/network.c, src/pkg-handshake.c and src/pkg-heartbeat.c: the
-- states of a client and of its connections (include/pomelo.h). The children have the operations
-- and the callbacks, one function each: what it does to the client, as an `Outcome`. What a call of
-- libuv or of the system comes to is an argument. Nothing here reports a failure by `err`; a
-- function that returns 0 or -1 gives a Bool, true for 0.
pub mod Files
pub mod Stop
pub mod Connect
pub mod Keys
pub mod Session
pub mod Protos
pub mod Handshake
pub mod Requests
pub mod Dispatch
pub mod Linked
pub mod Kept
pub mod Started
pub mod Callbacks
pub mod Answers
pub mod Reads
pub mod Steps
pub mod Drops
pub mod Shut
pub mod Closed
pub mod Reset
pub mod Retries
pub mod Failures
pub mod Retried
pub mod Attempts
pub mod Pending
pub mod Twice
pub mod Races
pub mod Late
pub mod Sample
pub mod Facts
mod Tests
use libpomelo.Common.{ℕ, ◌+◌, Bool, true, false, Option, List, [], ◌∷◌, ◌++◌, ◌==◌, if◌then◌else◌}
use libpomelo.HashMap.{Map}
use libpomelo.Package.{Parser}
use libpomelo.Reconnect.{Backoff}

-- `pc_client_state`
pub data State : Type 0 where
  inited connecting connected working disconnecting closed : State

-- `pc_transport_state`, and `tp_freed` for a transport whose memory was released.
pub data TpState : Type 0 where
  tp_inited tp_connecting tp_working tp_closed tp_freed : TpState

-- What `cb` of a connect request is: `pc__client_connected_cb`, `pc__client_connect3_cb`,
-- `pc__client_reconnected_cb`, or the user's.
pub data ConnCb : Type 0 where
  connected_cb connect3_cb reconnected_cb user_cb : ConnCb

-- A timer with `timer_cb` set: whether it runs, and its `repeat` in milliseconds.
pub record Timer : Type 0 where
  pub active : Bool
  pub repeat : ℕ

-- `reconnect_timer`, which is no pointer. A closed one must not be used.
pub data ReconnectTimer : Type 0 where
  idle armed shut : ReconnectTimer

-- `pc_request_s`: the number, the copy of the route, and the transport.
pub record Request : Type 0 where
  pub id : ℕ
  pub route : List ℕ
  pub transport : ℕ

pub data Event : Type 0 where
  timeout kick reconnect disconnect : Event

-- What is called or sent: a callback of the user with its status, the listeners of an event or
-- of a route, the waiting thread of `pc_client_connect`, a package of a type.
pub data Call : Type 0 where
  connect_done : Bool → Call
  request_done : ℕ → Bool → Call
  notify_done : Bool → Call
  emitted : Event → Call
  pushed : List ℕ → Call
  woken : Call
  sent : ℕ → Call

-- `pc_client_s`. Transports are numbered; `transports` is the memory of all, and the next has the
-- number `next_transport`. `files` is what the files hold, by their paths. `heartbeat` and `timeout` are milliseconds, `none` for -1. A timer that is a pointer may be NULL. `calls` is what was called, in
-- order, and `rands` the calls of `rand()` so far.
pub record Client (J : Type 0) : Type 0 where
  pub state : State
  pub transport : Option ℕ
  pub transports : ℕ → TpState
  pub next_transport : ℕ
  pub conn_req : Option ConnCb
  pub heartbeat : Option ℕ
  pub timeout : Option ℕ
  pub heartbeat_timer : Option Timer
  pub timeout_timer : Option Timer
  pub handshake_timer : Option Timer
  pub reconnect_timer : ReconnectTimer
  pub close_async : Bool
  pub parser : Parser
  pub requests : Map Request
  pub handshake_opts : Option J
  pub route_to_code : Option J
  pub code_to_route : Option J
  pub server_protos : Option J
  pub client_protos : Option J
  pub proto_ver : Option J
  pub proto_read_dir : Option (List ℕ)
  pub proto_write_dir : Option (List ℕ)
  pub files : List ℕ → Option J
  pub enable_reconnect : Bool
  pub backoff : Backoff
  pub rands : ℕ
  pub calls : List Call

-- A write to one transport.
abbrev pub put : (ℕ → TpState) → ℕ → TpState → ℕ → TpState
put transports i s j = if i == j then s else transports j

abbrev pub is_disconnecting : State → Bool
is_disconnecting disconnecting = true
is_disconnecting _ = false

module _ {J : Type 0} where
  abbrev pub call : Call → Client J → Client J
  call x c = record c { calls = c.calls ++ x ∷ [] }

  abbrev pub with_state : State → Client J → Client J
  with_state s c = record c { state = s }

  abbrev pub with_transport : ℕ → TpState → Client J → Client J
  with_transport i s c = record c { transports = put c.transports i s }

-- `uv_timer_stop`, and `uv_timer_again`, which starts a timer only if it repeats.
abbrev pub stopped : Timer → Timer
stopped t = record t { active = false }

abbrev pub again : Timer → Timer
again t = if t.repeat == 0 then t else record t { active = true }
