-- ===== src/Client/Stop.antt =====
-- src/client.c: the stop of a client and the start of a reconnection; pc_transport_destroy of
-- src/transport.c.
use libpomelo.Common.{
  ℕ, ◌+◌, Bool, true, false, not, ◌&&◌, Option, none, some, ◌++◌, if◌then◌else◌, map,
}
use libpomelo.Common.Outcome.{Outcome, ok, fault, ◌>>=◌}
use libpomelo.HashMap.{Pair, map_clear}
use libpomelo.Package.{parser_reset}
use libpomelo.Reconnect.{client_reconnect}
use libpomelo.Client.{
  State, inited, closed, TpState, tp_inited, tp_closed, tp_freed, Timer, ReconnectTimer, idle,
  armed, shut, Request, Call, request_done, Client, is_disconnecting, with_state, with_transport,
  stopped,
}

-- `uv_timer_stop` of a timer that may be NULL, where NULL was tested.
abbrev pub stop_timer : Option Timer → Option Timer
stop_timer none = none
stop_timer (some t) = some (stopped t)

abbrev pub or_zero : Option Timer → Option ℕ → Option ℕ
or_zero none n = n
or_zero (some t) n = some 0

-- `if(client->handshake_timer != NULL) uv_timer_stop(client->timeout_timer);`
abbrev pub stop_other : Option Timer → Option Timer → Outcome (Option Timer)
stop_other none timer = ok timer
stop_other (some t) none = fault
stop_other (some t) (some timer) = ok (some (stopped timer))

-- The callbacks of the requests that `pc_map_clear` releases.
abbrev pub failed_request : Pair Request → Call
failed_request p = request_done p.value.id false

-- `uv_timer_start` of the timer for the next attempt.
abbrev pub start_reconnect : ReconnectTimer → Outcome ReconnectTimer
start_reconnect shut = fault
start_reconnect _ = ok armed

-- `uv_timer_stop` of it, and its end by running out. Both leave one that is closed closed.
abbrev pub stop_reconnect : ReconnectTimer → ReconnectTimer
stop_reconnect shut = shut
stop_reconnect _ = idle

-- `uv_close` of it, where it was made by `pc_client_new_with_reconnect`.
abbrev pub close_reconnect : Bool → ReconnectTimer → ReconnectTimer
close_reconnect enabled timer = if enabled then shut else timer

module _ {J : Type 0} where
  abbrev pub destroy_at : TpState → ℕ → Client J → Outcome (Client J)
  destroy_at tp_freed i c = fault
  destroy_at tp_closed i c = ok c
  destroy_at tp_inited i c = ok (with_transport i tp_freed c)
  destroy_at _ i c = ok (with_transport i tp_closed c)

  -- `pc_transport_destroy`. The memory of one that is closed is released by a later callback.
  unfoldable pub transport_destroy : ℕ → Client J → Outcome (Client J)
  transport_destroy i c = destroy_at (c.transports i) i c

  -- `if(client->transport)`: it is destroyed and set to NULL.
  abbrev pub drop_at : Option ℕ → Client J → Outcome (Client J)
  drop_at none c = ok c
  drop_at (some i) c = transport_destroy i c >>= (λ c₁. ok (record c₁ { transport = none }))

  unfoldable pub drop_transport : Client J → Outcome (Client J)
  drop_transport c = drop_at c.transport c

  abbrev pub clear_requests : Client J → Client J
  clear_requests c =
      let (requests, all) = map_clear c.requests in
      record c { requests = requests; calls = c.calls ++ map failed_request all }

  -- The timers at the start of `pc__client_reconnect_reset`, and what is behind the test of
  -- `handshake_timer`.
  abbrev pub quieted : Client J → Client J
  quieted c = record c {
    heartbeat_timer = stop_timer c.heartbeat_timer;
    heartbeat = or_zero c.heartbeat_timer c.heartbeat;
    timeout_timer = stop_timer c.timeout_timer;
    timeout = or_zero c.timeout_timer c.timeout;
  }

  abbrev pub renewed : Option Timer → Client J → Client J
  renewed timer c =
      let c₁ = clear_requests (record c { timeout_timer = timer }) in
      record c₁ {
        parser = parser_reset c₁.parser;
        handshake_opts = none;
        route_to_code = none;
        code_to_route = none;
        server_protos = none;
        client_protos = none;
        state = inited;
      }

  -- `pc__client_reconnect_reset`
  unfoldable pub reconnect_reset : Client J → Outcome (Client J)
  reconnect_reset c = drop_transport c >>= (λ c₁.
      let c₂ = quieted c₁ in
      stop_other c₂.handshake_timer c₂.timeout_timer >>= (λ timer. ok (renewed timer c₂)))

  -- The timers and `close_async` at the end of `pc_client_stop`.
  abbrev pub closing : Client J → Client J
  closing c = record c {
    heartbeat_timer = none;
    heartbeat = or_zero c.heartbeat_timer c.heartbeat;
    timeout_timer = none;
    timeout = or_zero c.timeout_timer c.timeout;
    handshake_timer = none;
    close_async = false;
    reconnect_timer = close_reconnect c.enable_reconnect c.reconnect_timer;
  }

module _ (rand : ℕ → ℕ) {J : Type 0} where
  -- `pc__client_reconnect`; `rand n` is what the call of `rand()` after n others gives.
  unfoldable pub reconnect_client : Client J → Outcome (Client J)
  reconnect_client c =
      reconnect_reset (record c { backoff = record c.backoff { reconnecting = true } }) >>= (λ c₁.
        client_reconnect (rand c₁.rands) c₁.backoff >>= (λ (backoff, ms).
          start_reconnect c₁.reconnect_timer >>= (λ timer.
            ok (record c₁ { backoff = backoff; rands = c₁.rands + 1; reconnect_timer = timer }))))

  -- The end of `pc_client_stop`, without the transport.
  unfoldable pub close_client : Client J → Outcome (Client J)
  close_client c = drop_transport (with_state closed c) >>= (λ c₁. ok (closing c₁))

  abbrev pub stop_at : State → Client J → Outcome (Client J)
  stop_at inited c = ok (with_state closed c)
  stop_at closed c = ok c
  stop_at _ c = close_client c

  -- `pc_client_stop`
  unfoldable pub client_stop : Client J → Outcome (Client J)
  client_stop c =
      if c.enable_reconnect && not (is_disconnecting c.state)
      then if c.backoff.reconnecting then ok c else reconnect_client c
      else stop_at c.state c
