-- ===== src/Client/Races.antt =====
-- Orders of calls in which a client is stopped while something else is under way: src/client.c,
-- src/network.c, src/pkg-handshake.c and src/pkg-heartbeat.c.
use libpomelo.Common.{ℕ, Bool, true, false, not, ◌&&◌, Option, none, some}
use libpomelo.Common.Outcome.{Outcome, ok, defined, ◌>>=◌}
use libpomelo.Client.{is_disconnecting}
use libpomelo.Client.{
  working, disconnecting, TpState, tp_working, ConnCb, connected_cb, connect3_cb, reconnected_cb,
  user_cb, Client, with_state,
}
use libpomelo.Client.Handshake.{
  client_disconnect, close_async_cb, handshake_ack_cb, handshake_timeout_cb, timeout_cb, finish_at,
  is_tp_working, is_live,
}
use libpomelo.Client.Stop.{stop_at, close_client}
use libpomelo.Client.Retries.{client_stop-retries}
use libpomelo.Client.Drops.{if-then, if-else}
use libpomelo.Client.Stop.{reconnect_client}
use libpomelo.Client.Stop.{client_stop}
use libpomelo.Common.{◌≡◌, refl, ◌∙◌, ap}
use libpomelo.Client.Handshake.{
  is_tp_working, close_async_cb, client_disconnect, finish_at, handshake_ack_cb,
  handshake_timeout_cb, timeout_cb, close_async_cb,
}

off : (a b : Bool) → b ≡ true → (a && not b) ≡ false
off true b e = rw e refl
off false b e = refl

live-defined :
    {A : Type 0} (s : TpState) (m : Outcome A) → s ≡ tp_working → defined (is_live s) m ≡ m
live-defined s m e = rw e refl

module _ (rand : ℕ → ℕ) {J : Type 0} where
  -- What the callback of a connect request leaves as it is.
  finish_at-true :
      (cb : Option ConnCb) (c : Client J)
      → c.backoff.reconnecting ≡ false
      → (c₁ : Client J) × (finish_at rand cb true c ≡ ok c₁)
        × (c₁.state ≡ c.state)
        × (c₁.enable_reconnect ≡ c.enable_reconnect)
        × (c₁.backoff.reconnecting ≡ false)
  finish_at-true none c calm = (c, refl, refl, refl, calm)
  finish_at-true (some connected_cb) c calm = (_, refl, refl, refl, calm)
  finish_at-true (some connect3_cb) c calm = (_, refl, refl, refl, calm)
  finish_at-true (some reconnected_cb) c calm = (_, refl, refl, refl, refl)
  finish_at-true (some user_cb) c calm = (_, refl, refl, refl, calm)

  pub stop-disconnecting :
      (c : Client J) → c.state ≡ disconnecting → client_stop rand c ≡ close_client rand c
  unfolding client_stop
  stop-disconnecting c e =
      if-else _ _ _ (off c.enable_reconnect (is_disconnecting c.state) (ap is_disconnecting e))
      ∙ ap (λ s. stop_at rand s c) e

  -- A disconnect can be lost. If the client reconnects and is not doing so, and `pc_client_disconnect` comes
  -- just before the confirmation of the handshake was written, then `pc__handshake_ack_cb` puts the
  -- state from DISCONNECTING to WORKING, and when `close_async` comes the client is not closed: it starts to
  -- connect again. When `close_async` comes first it is closed.
  pub disconnect-lost :
      (i : ℕ) (c : Client J)
      → c.close_async ≡ true
      → c.enable_reconnect ≡ true
      → c.backoff.reconnecting ≡ false
      → c.transports i ≡ tp_working
      → ((c₁ : Client J) × ((client_disconnect c >>= handshake_ack_cb rand i true) ≡ ok c₁)
          × (c₁.state ≡ working)
          × (close_async_cb rand c₁ ≡ reconnect_client rand c₁))
        × ((client_disconnect c >>= close_async_cb rand)
            ≡ close_client rand (with_state disconnecting c))
  unfolding client_disconnect handshake_ack_cb close_async_cb
  disconnect-lost i c async on calm works =
      let c₀ : Client J = with_state disconnecting c in
      let (c₁, done, state, enabled, calm₁) =
        finish_at-true c.conn_req (with_state working c) calm in
      let alive : is_disconnecting c₁.state ≡ false = ap is_disconnecting state in
      (
        (
          c₁,
          ap (λ m. m >>= handshake_ack_cb rand i true) (if-then _ _ _ async)
              ∙ live-defined (c.transports i) _ works
              ∙ if-else _ _ _ (ap (λ s. not (is_tp_working s)) works)
              ∙ done,
          state,
          client_stop-retries rand c₁ (enabled ∙ on) alive calm₁,
        ),
        ap (λ m. m >>= close_async_cb rand) (if-then _ _ _ async) ∙ stop-disconnecting c₀ refl,
      )
