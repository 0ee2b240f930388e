-- ===== src/Client/Late.antt =====
-- The end of a connection attempt that comes when the client has been closed: src/network.c and
-- src/client.c.
use libpomelo.Common.{ℕ, ◌+◌, ◌^◌, Bool, true, false, none}
use libpomelo.Common.Outcome.{Outcome, ok, fault, ◌>>=◌}
use libpomelo.Reconnect.{Backoff, client_reconnect}
use libpomelo.Client.{
  disconnecting, closed, ConnCb, connected_cb, connect3_cb, reconnected_cb, user_cb, shut, Client,
  with_state,
}
use libpomelo.Client.Handshake.{client_disconnect, close_async_cb}
use libpomelo.Client.Stop.{close_client, closing, start_reconnect}
use libpomelo.Client.Races.{stop-disconnecting}
use libpomelo.Client.Stop.{drop_at, drop_transport, stop_other, close_reconnect}
use libpomelo.Client.Connect.{Asking, conn_cb}
use libpomelo.Client.Retries.{client_stop-retries, HasRoom, same_room, same_delays}
use libpomelo.Client.Connect.{on_tcp_connect}
use libpomelo.Reconnect.{client_reconnect}
use libpomelo.Reconnect.Growth.{client_reconnect-ok}
use libpomelo.Common.{◌<◌}
use libpomelo.Client.Drops.{if-then}
use libpomelo.Client.Stop.{quieted, renewed, reconnect_reset, reconnect_client, start_reconnect}
use libpomelo.Client.Stop.{stop_reconnect, stop_timer}
use libpomelo.Client.Connect.{Writing, conn_cb}
use libpomelo.Common.{◌≡◌, ◌≢◌, refl, ◌∙◌, ap}
use libpomelo.Client.Handshake.{close_async_cb, client_disconnect, close_async_cb}
use libpomelo.Client.Connect.{on_tcp_connect}

module _ (rand : ℕ → ℕ) {J : Type 0} where
  drop-none :
      (c : Client J) → c.transport ≡ none → drop_transport c ≡ ok (record c { transport = none })
  unfolding drop_transport
  drop-none c e = ap (λ t. drop_at t c) e ∙ ap (λ t. ok (record c { transport = t })) e

  -- A reconnection with a timer that was closed.
  reconnect-faults :
      (c : Client J)
      → c.transport ≡ none
      → c.timeout_timer ≡ none
      → c.handshake_timer ≡ none
      → c.reconnect_timer ≡ shut
      → HasRoom 1 c.backoff
      → reconnect_client rand c ≡ fault
  unfolding reconnect_client reconnect_reset
  reconnect-faults c alone timer handshake closed_timer r =
      let b : Backoff = record c.backoff { reconnecting = true } in
      let c₀ : Client J = record c { backoff = b; transport = none } in
      let count : c.backoff.reconnects + 1 < 2 ^ 31 = r.room in
      let then_start : Client J → Outcome (Client J) = λ c₁.
        client_reconnect (rand c₁.rands) c₁.backoff >>= (λ (backoff, ms).
          start_reconnect c₁.reconnect_timer >>= (λ u.
            ok (record c₁ { backoff = backoff; rands = c₁.rands + 1; reconnect_timer = u }))) in
      let c₂ : Client J = renewed none (quieted c₀) in
      let (ms, started, least, most) =
        client_reconnect-ok b (rand c.rands)
          (same_delays c.backoff true c.backoff.reconnects r.delays) count in
      ap
        (λ m.
          m
          >>= (λ c₁.
              stop_other c₁.handshake_timer (stop_timer c₁.timeout_timer)
              >>= (λ u. ok (renewed u (quieted c₁))))
          >>= then_start)
        (drop-none (record c { backoff = b }) alone)
      ∙ ap
          (λ t.
            stop_other t (stop_timer c.timeout_timer)
            >>= (λ u. ok (renewed u (quieted c₀)))
            >>= then_start)
          handshake
      ∙ ap (λ t. then_start (renewed (stop_timer t) (quieted c₀))) timer
      ∙ ap
          (λ m. m >>= (λ (backoff, ms). start_reconnect c.reconnect_timer >>= (λ u.
            ok (record c₂ { backoff = backoff; rands = c₂.rands + 1; reconnect_timer = u }))))
          started
      ∙ ap
          (λ t. start_reconnect t >>= (λ u. ok (record c₂ {
            backoff = record b { reconnects = c.backoff.reconnects + 1 };
            rands = c₂.rands + 1;
            reconnect_timer = u;
          })))
          closed_timer

  -- The client that `pc_client_stop` closed.
  abbrev closed_client : Client J → Client J
  closed_client c = closing (record (with_state closed c) { transport = none })

  failed-faults :
      (cb : ConnCb) (c : Client J)
      → cb ≢ user_cb
      → c.enable_reconnect ≡ true
      → c.backoff.reconnecting ≡ false
      → HasRoom 1 c.backoff
      → conn_cb rand cb false (record (closed_client c) { conn_req = none }) ≡ fault
  failed-faults user_cb c ne on calm r = absurd (ne refl)
  failed-faults connected_cb c ne on calm r =
      client_stop-retries rand _ on refl calm
      ∙ reconnect-faults _ refl refl refl (ap (λ e. close_reconnect e c.reconnect_timer) on) r
  failed-faults connect3_cb c ne on calm r =
      client_stop-retries rand _ on refl calm
      ∙ reconnect-faults _ refl refl refl (ap (λ e. close_reconnect e c.reconnect_timer) on) r
  failed-faults reconnected_cb c ne on calm r =
      client_stop-retries rand _ on refl refl
      ∙ reconnect-faults _ refl refl refl
          (ap (λ e. stop_reconnect (close_reconnect e c.reconnect_timer)) on)
          (same_room 1 c.backoff false r)

  -- A disconnect during the first attempt to connect is not safe: if the client reconnects, its
  -- `close_async` closes it with its `reconnect_timer`, but not the transport that is connecting, and
  -- when that attempt ends, with whatever status, the client starts that closed timer; if the request
  -- was made by `pc_client_connect`, `pc_client_connect3` or a reconnection.
  pub disconnect-late :
      (i : ℕ) (cb : ConnCb) (status reading : Bool) (ask : Asking J) (env : Writing) (c : Client J)
      → c.close_async ≡ true
      → c.enable_reconnect ≡ true
      → c.backoff.reconnecting ≡ false
      → c.transport ≡ none
      → HasRoom 1 c.backoff
      → cb ≢ user_cb
      → (client_disconnect c
          >>= close_async_cb rand
          >>= on_tcp_connect rand i cb status reading ask env)
        ≡ fault
  unfolding client_disconnect close_async_cb on_tcp_connect close_client
  disconnect-late i cb status reading ask env c async on calm alone r other =
      let c₀ : Client J = with_state disconnecting c in
      ap (λ m. m >>= close_async_cb rand >>= on_tcp_connect rand i cb status reading ask env)
        (if-then _ _ _ async)
      ∙ ap (λ m. m >>= on_tcp_connect rand i cb status reading ask env)
          (stop-disconnecting rand c₀ refl)
      ∙ ap (λ m. m >>= (λ c₁. ok (closing c₁)) >>= on_tcp_connect rand i cb status reading ask env)
          (drop-none (with_state closed c₀) alone)
      ∙ failed-faults cb c₀ other on calm r
