-- ===== src/Client/Shut.antt =====
-- A client that does not reconnect: a stop of it, and each call once it is shut: src/client.c, src/network.c.
use libpomelo.Common.{ℕ, Bool, true, false, not, ◌&&◌, ◌||◌, Option, none, if◌then◌else◌}
use libpomelo.Common.Outcome.{Outcome, ok, ◌>>=◌}
use libpomelo.Client.{is_disconnecting}
use libpomelo.Client.{
  State, inited, connecting, connected, working, disconnecting, closed, TpState, tp_inited,
  tp_connecting, tp_working, tp_closed, tp_freed, ConnCb, connected_cb, connect3_cb, reconnected_cb,
  user_cb, ReconnectTimer, idle, Client, with_state,
}
use libpomelo.Client.Stop.{client_stop, stop_reconnect, stop_timer}
use libpomelo.Client.Connect.{Asking, Writing, Connecting, conn_cb, connect}
use libpomelo.Common.{◌≡◌, ◌≢◌, refl, ◌∙◌, ap, inl, inr, Bool-cases}
use libpomelo.Client.Connect.{is_connecting}
use libpomelo.Client.Handshake.{
  is_tp_working, is_live, is_working, heartbeat_req, close_async_cb, client_disconnect,
  handshake_req_cb, handshake_ack_cb, handshake_timeout_cb, or_stopped, heartbeat_cb, timeout_cb,
  close_async_cb, heartbeat_req_cb,
}
use libpomelo.Client.Requests.{reads_working}
use libpomelo.Client.Linked.{Holds, Holds-then, Holds-if, Holds-defined, IsLinked, is_apart}
use libpomelo.Client.Connect.{is_inited, on_tcp_connect, tcp_close_cb}
use libpomelo.Client.Callbacks.{is_tp_working-eq}
use libpomelo.Client.Stop.{close_client, closing, stop_at, close_reconnect}
use libpomelo.Client.Drops.{drop_transport-ok, if-else}
use libpomelo.Client.Linked.{put_not_working}

-- A closed client without a transport, without a running `reconnect_timer` and without `close_async`.
pub record Shut (state : State) (transport : Option ℕ) (transports : ℕ → TpState)
    (close_async enabled : Bool) (timer : ReconnectTimer) : Type 0 where
  pub ended : state ≡ closed
  pub alone : transport ≡ none
  pub silent : (i : ℕ) → transports i ≢ tp_working
  pub unsent : close_async ≡ false
  pub plain : enabled ≡ false
  pub quiet : timer ≡ idle

abbrev pub IsShut : {J : Type 0} → Client J → Type 0
IsShut c = Shut c.state c.transport c.transports c.close_async c.enable_reconnect c.reconnect_timer

quiet_stop : (t : ReconnectTimer) → t ≡ idle → stop_reconnect t ≡ idle
quiet_stop t e = rw e

not_working : (s : TpState) → s ≢ tp_working → is_tp_working s ≡ false
not_working s ne = elim (Bool-cases (is_tp_working s)) [
  | inl e ↦ absurd (ne (is_tp_working-eq s e))
  | inr e ↦ e
]

reads_working-false : (s : TpState) → s ≢ tp_working → Holds (λ w. w ≡ false) (reads_working s)
reads_working-false tp_working ne = absurd (ne refl)
reads_working-false tp_inited ne = refl
reads_working-false tp_connecting ne = refl
reads_working-false tp_closed ne = refl
reads_working-false tp_freed ne = tt

Holds-when :
    {A : Type 0} (P : A → Type 0) (b : Bool) (m m' : Outcome A)
    → b ≡ true
    → Holds P m
    → Holds P (if b then m else m')
Holds-when P b m m' e h = rw e h

Holds-else :
    {A : Type 0} (P : A → Type 0) (b : Bool) (m m' : Outcome A)
    → b ≡ false
    → Holds P m'
    → Holds P (if b then m else m')
Holds-else P b m m' e h = rw e h

module _ (rand : ℕ → ℕ) {J : Type 0} where
  stop_at-close :
      (s : State) (c : Client J) → is_apart s ≡ false → stop_at rand s c ≡ close_client rand c
  stop_at-close closed c e = cc
  stop_at-close inited c e = cc
  stop_at-close connecting c e = refl
  stop_at-close connected c e = refl
  stop_at-close working c e = refl
  stop_at-close disconnecting c e = refl

  stop_at-IsShut :
      (s : State) (c : Client J) → s ≡ closed → IsShut c → Holds IsShut (stop_at rand s c)
  stop_at-IsShut closed c e h = h
  stop_at-IsShut inited c e h = cc
  stop_at-IsShut connecting c e h = cc
  stop_at-IsShut connected c e h = cc
  stop_at-IsShut working c e h = cc
  stop_at-IsShut disconnecting c e h = cc

  pub stop-IsShut : (c : Client J) → IsShut c → Holds IsShut (client_stop rand c)
  unfolding client_stop
  stop-IsShut c h =
      let off : (c.enable_reconnect && not (is_disconnecting c.state)) ≡ false =
        ap (λ z. z && not (is_disconnecting c.state)) h.plain in
      Holds-else IsShut _ _ _ off (stop_at-IsShut c.state c h.ended h)

  -- A client that does not reconnect is closed by its stop, whatever its connection was, and its stop is
  -- defined: if it is linked, was started, and has no timer for a reconnection running.
  pub client_stop-IsShut :
      (c : Client J)
      → IsLinked c
      → is_apart c.state ≡ false
      → c.enable_reconnect ≡ false
      → c.reconnect_timer ≡ idle
      → (c₁ : Client J) × (client_stop rand c ≡ ok c₁) × IsShut c₁
  unfolding client_stop close_client
  client_stop-IsShut c h started plain quiet =
      let (ts, dropped, silent, off) = drop_transport-ok (with_state closed c) h.live h.only in
      (
        _,
        if-else _ _ _ (ap (λ z. z && not (is_disconnecting c.state)) plain)
            ∙ stop_at-close c.state c started
            ∙ ap (λ m. m >>= (λ c₁. ok (closing c₁))) dropped,
        record {
          ended = refl;
          alone = refl;
          silent = silent;
          unsent = refl;
          plain = plain;
          quiet = ap (λ e. close_reconnect e c.reconnect_timer) plain ∙ quiet;
        },
      )

  conn_cb-IsShut : (cb : ConnCb) (c : Client J) → IsShut c → Holds IsShut (conn_cb rand cb false c)
  conn_cb-IsShut connected_cb c h = stop-IsShut c h
  conn_cb-IsShut connect3_cb c h = stop-IsShut c h
  conn_cb-IsShut reconnected_cb c h = stop-IsShut _ (record {
    ended = h.ended;
    alone = h.alone;
    silent = h.silent;
    unsent = h.unsent;
    plain = h.plain;
    quiet = quiet_stop c.reconnect_timer h.quiet;
  })
  conn_cb-IsShut user_cb c h = h

  pub connect-IsShut :
      (env : Connecting) (valid : Bool) (opts : Option J) (cb : ConnCb) (c : Client J)
      → IsShut c
      → Holds (λ r. IsShut r.0) (connect env valid opts cb c)
  unfolding connect
  connect-IsShut env valid opts cb c h =
      let off : is_inited c.state ≡ false = ap is_inited h.ended in
      Holds-when (λ r. IsShut r.0) _ _ _ (ap (λ z. not z || not valid) off) h

  pub disconnect-IsShut : (c : Client J) → IsShut c → Holds IsShut (client_disconnect c)
  unfolding client_disconnect
  disconnect-IsShut c h = rw h.unsent tt

  pub on_tcp_connect-IsShut :
      (i : ℕ) (cb : ConnCb) (status reading : Bool) (ask : Asking J) (env : Writing) (c : Client J)
      → IsShut c
      → Holds IsShut (on_tcp_connect rand i cb status reading ask env c)
  unfolding on_tcp_connect
  on_tcp_connect-IsShut i cb status reading ask env c h =
      let off : is_connecting c.state ≡ false = ap is_connecting h.ended in
      Holds-when IsShut _ _ _ (ap not off) (conn_cb-IsShut cb (record c { conn_req = none }) h)

  pub written-IsShut :
      (i : ℕ) (status : Bool) (c : Client J)
      → IsShut c
      → Holds IsShut (handshake_req_cb rand i status c)
        × Holds IsShut (handshake_ack_cb rand i status c)
  unfolding handshake_req_cb handshake_ack_cb
  written-IsShut i status c h =
      let off : is_tp_working (c.transports i) ≡ false =
        not_working (c.transports i) (h.silent i) in
      (
        Holds-defined _ (is_live (c.transports i)) _ (rw off h),
        Holds-defined _ (is_live (c.transports i)) _ (rw off h),
      )

  pub late-IsShut :
      (c : Client J)
      → IsShut c
      → Holds IsShut (timeout_cb rand c)
        × Holds IsShut (handshake_timeout_cb rand c)
        × Holds IsShut (close_async_cb rand c)
  unfolding timeout_cb handshake_timeout_cb close_async_cb
  late-IsShut c h = (stop-IsShut _ h, stop-IsShut _ h, stop-IsShut c h)

  pub beats-IsShut :
      (memory : Bool) (env : Writing) (c : Client J)
      → IsShut c
      → Holds IsShut (heartbeat_cb rand memory env c)
  unfolding heartbeat_cb heartbeat_req
  beats-IsShut memory env c h =
      let c₁ = record c { heartbeat_timer = stop_timer c.heartbeat_timer } in
      Holds-then (λ r. IsShut r.0 × (r.1 ≡ false)) IsShut (heartbeat_req memory env c₁) _
        (Holds-else _ _ _ _ (ap is_working h.ended) (h, refl))
        (λ (c₂, done) (h₂, e).
          elim done as (λ d. d ≡ false → Holds IsShut (or_stopped rand (c₂, d))) [
            | true ↦ λ q. cc
            | false ↦ λ q. stop-IsShut c₂ h₂
          ]
            e)

  pub beat_written-IsShut :
      (status : Bool) (c : Client J) → IsShut c → Holds IsShut (heartbeat_req_cb rand status c)
  unfolding heartbeat_req_cb
  beat_written-IsShut status c h = Holds-if IsShut status _ _ h tt

module _ {J : Type 0} where
  pub released-IsShut : (i : ℕ) (c : Client J) → IsShut c → IsShut (tcp_close_cb i c)
  released-IsShut i c h = record {
    ended = h.ended;
    alone = h.alone;
    silent = λ j w. h.silent j (put_not_working c.transports i j tp_freed (λ q. cc) w).1;
    unsent = h.unsent;
    plain = h.plain;
    quiet = h.quiet;
  }

  -- What tests first that a transport works does nothing to the connection.
  pub tested-IsShut :
      (i : ℕ) (c : Client J) (f : Bool → Outcome (Client J))
      → IsShut c
      → Holds IsShut (f false)
      → Holds IsShut (reads_working (c.transports i) >>= f)
  tested-IsShut i c f h off =
      Holds-then (λ w. w ≡ false) IsShut (reads_working (c.transports i)) f
        (reads_working-false (c.transports i) (h.silent i)) (λ w e. rw e off)
