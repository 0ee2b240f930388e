-- ===== src/Life.antt =====
-- src/client.c: how a client is made, how its worker thread is started, and how it is destroyed, with
-- its listeners. What the worker thread does meanwhile is an argument, a function on the client. The
-- results of `uv_async_init` and of the locks are not read, and are taken for success.
pub mod Connects
pub mod Made
pub mod Delays
pub mod Works
pub mod Ended
pub mod Unsafe
mod Doubles
mod Tests
use libpomelo.Common.{
  ℕ, ◌%◌, ◌^◌, Bool, true, false, not, ◌&&◌, ◌||◌, Option, none, some, List, [], ◌∷◌, ◌++◌, map,
  ltb, ◌==◌, if◌then◌else◌,
}
use mathlib.Core.List.{foldl}
use libpomelo.Common.Outcome.{Outcome, ok, ◌>>=◌, checked, defined}
use libpomelo.HashMap.{Map, Pair, map_new, map_destroy}
use libpomelo.Package.{parser_init}
use libpomelo.Reconnect.{Floats, log_incr, linear_incr, int_of}
use libpomelo.Client.{
  inited, tp_freed, ConnCb, connected_cb, connect3_cb, user_cb, Timer, idle, Request, Client,
}
use libpomelo.Client.Stop.{failed_request}
use libpomelo.Client.Connect.{Connecting, connect}
use libpomelo.Client.Handshake.{is_working, client_disconnect}
use libpomelo.Client.Linked.{is_apart}
use libpomelo.Listeners.{Listeners, with_head}

-- What the calls give that make a client: its memory, the loop, the package parser, the memory of the
-- timers and of `close_async`, and the three `uv_timer_init`.
pub record Making : Type 0 where
  pub memory : Bool
  pub loop : Bool
  pub parser : Bool
  pub heartbeat_memory : Bool
  pub heartbeat_init : Bool
  pub timeout_memory : Bool
  pub timeout_init : Bool
  pub handshake_memory : Bool
  pub handshake_init : Bool
  pub async_memory : Bool

-- Behind `uv_timer_init`.
abbrev pub new_timer : Timer
new_timer = record { active = false; repeat = 0 }

module _ {J : Type 0} where
  -- The client behind `memset` and `pc__client_init`, with what the files hold then.
  abbrev pub fresh_client : (List ℕ → Option J) → Map Request → Client J
  fresh_client files requests = record {
    state = inited;
    transport = none;
    transports = λ i. tp_freed;
    next_transport = 0;
    conn_req = none;
    heartbeat = some 0;
    timeout = some 0;
    heartbeat_timer = some new_timer;
    timeout_timer = some new_timer;
    handshake_timer = some new_timer;
    reconnect_timer = idle;
    close_async = true;
    parser = parser_init;
    requests = requests;
    handshake_opts = none;
    route_to_code = none;
    code_to_route = none;
    server_protos = none;
    client_protos = none;
    proto_ver = none;
    proto_read_dir = none;
    proto_write_dir = none;
    files = files;
    enable_reconnect = false;
    backoff = record {
      reconnecting = false;
      reconnects = 0;
      reconnect_delay = 0;
      reconnect_delay_max = 0;
      enable_exp_backoff = false;
      max_reconnects_incr = 0;
    };
    rands = 0;
    calls = [];
  }

  -- The rest of `pc__client_init`, behind the maps. The memory of `handshake_timer` and of
  -- `close_async` is used untested.
  abbrev pub init_with :
      (List ℕ → Option J) → Making → Map ℕ → Map Request → Outcome (Client J × Listeners)
  init_with files env listeners requests = checked env.parser (
      checked (env.heartbeat_memory && env.heartbeat_init) (
        checked (env.timeout_memory && env.timeout_init) (
          defined env.handshake_memory (
            checked env.handshake_init (
              defined env.async_memory (
                ok (
                  fresh_client files requests,
                  record { map = listeners; heads = λ h. []; next_head = 0 },
                )))))))

  -- `pc__client_init`. Its failures are calls of `abort()`, here `err`.
  unfoldable pub client_init :
      (ℕ → Bool) → (List ℕ → Option J) → Making → Outcome (Client J × Listeners)
  client_init malloc files env =
      map_new malloc 256 >>= (λ listeners. map_new malloc 256 >>= init_with files env listeners)

  -- `pc_client_new`
  unfoldable pub client_new :
      (ℕ → Bool) → (List ℕ → Option J) → Making → Outcome (Client J × Listeners)
  client_new malloc files env = checked env.memory (checked env.loop (client_init malloc files env))

-- An `int` as its pattern of 32 bits: whether it is positive.
abbrev pub is_positive : ℕ → Bool
is_positive n = ltb 0 n && ltb n (2 ^ 31)

-- `max_reconnects_incr`
abbrev pub incr_of : {D : Type 0} → Floats D → ℕ → ℕ → Bool → Outcome ℕ
incr_of floats delay delay_max exp_backoff =
    if exp_backoff
    then ok (log_incr floats delay delay_max)
    else int_of (linear_incr delay delay_max)

-- `pc__release_listeners`: the queue is emptied and its head is released.
abbrev pub release_head : (ℕ → List ℕ) → Pair ℕ → ℕ → List ℕ
release_head heads p = with_head heads p.value []

module _ (malloc : ℕ → Bool) {D : Type 0} (floats : Floats D) {J : Type 0}
    (files : List ℕ → Option J) where
  abbrev pub reconnecting_client : ℕ → ℕ → Bool → ℕ → Client J → Client J
  reconnecting_client delay delay_max exp_backoff n c = record c {
    enable_reconnect = true;
    reconnect_timer = idle;
    backoff = record c.backoff {
      reconnect_delay = delay;
      reconnect_delay_max = delay_max;
      enable_exp_backoff = exp_backoff;
      max_reconnects_incr = n;
    };
  }

  abbrev pub with_reconnect :
      ℕ → ℕ → Bool → Client J × Listeners → Outcome (Option (Client J × Listeners))
  with_reconnect delay delay_max exp_backoff (c, ls) =
      if not (is_positive delay) || not (is_positive delay_max)
      then ok none
      else incr_of floats delay delay_max exp_backoff
        >>= (λ n. ok (some (reconnecting_client delay delay_max exp_backoff n c, ls)))

  -- `pc_client_new_with_reconnect`; `none` is NULL, where the client was destroyed at once.
  unfoldable pub client_new_with_reconnect :
      Making → ℕ → ℕ → Bool → Outcome (Option (Client J × Listeners))
  client_new_with_reconnect env delay delay_max exp_backoff =
      client_new malloc files env >>= with_reconnect delay delay_max exp_backoff

-- `pc_proto_init`
abbrev pub proto_init : {J : Type 0} → Option (List ℕ) → Option (List ℕ) → Client J → Client J
proto_init read_dir write_dir c = record c {
  proto_read_dir = read_dir;
  proto_write_dir = write_dir;
}

-- `pc_proto_copy`
abbrev pub proto_copy : {J : Type 0} → Option J → Option J → Option J → Client J → Client J
proto_copy proto_ver client_protos server_protos c = record c {
  proto_ver = proto_ver;
  client_protos = client_protos;
  server_protos = server_protos;
}

module _ {J : Type 0} where
  -- `pc__client_clear`
  unfoldable pub client_clear : Client J × Listeners → Client J × Listeners
  client_clear (c, ls) =
      let (map', heads) = map_destroy ls.map in
      let (requests, waiting) = map_destroy c.requests in
      (
        record c {
          requests = requests;
          calls = c.calls ++ map failed_request waiting;
          handshake_opts = none;
          route_to_code = none;
          code_to_route = none;
          server_protos = none;
          client_protos = none;
          proto_ver = none;
        },
        record ls { map = map'; heads = foldl release_head ls.heads heads },
      )

  -- `pc_client_destroy`: the client as its memory is released. `worker` is what the worker thread does
  -- from the disconnect until it has ended, which `pc_client_join` waits for.
  unfoldable pub client_destroy :
      (Client J → Outcome (Client J)) → Client J × Listeners → Outcome (Client J × Listeners)
  client_destroy worker (c, ls) =
      if is_apart c.state
      then ok (client_clear (c, ls))
      else client_disconnect c >>= worker >>= (λ c₁. ok (client_clear (c₁, ls)))
