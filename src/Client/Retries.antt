-- ===== src/Client/Retries.antt =====
-- When the stop of a client starts a reconnection, and when it does nothing: src/client.c.
use libpomelo.Common.{ℕ, ◌+◌, ◌^◌, Bool, true, false, not, ◌&&◌, none, some}
use libpomelo.Common.Outcome.{ok, ◌>>=◌}
use libpomelo.Reconnect.{Backoff}
use libpomelo.Client.{is_disconnecting}
use libpomelo.Client.{
  inited, tp_working, reconnected_cb, Timer, ReconnectTimer, idle, armed, shut, Client, stopped,
}
use libpomelo.Client.Connect.{connect_error}
use libpomelo.Client.Reset.{IsOwned, reset-ok}
use libpomelo.Reconnect.{client_reconnect}
use libpomelo.Reconnect.Growth.{IsBackoff, client_reconnect-ok}
use libpomelo.Common.{◌<◌, suc, arith}
use libpomelo.Client.Drops.{if-then, if-else, detached}
use libpomelo.Client.Stop.{quieted, renewed, reconnect_client, start_reconnect}
use libpomelo.Client.Stop.{client_stop, stop_reconnect}
use libpomelo.Client.Connect.{conn_cb}
use libpomelo.Common.{◌≡◌, ◌≢◌, refl, ◌∙◌, ap}

-- The delays of a client, and room for n more attempts in an `int`.
pub record HasRoom (n : ℕ) (b : Backoff) : Type 0 where
  pub delays : IsBackoff b
  pub room : b.reconnects + n < 2 ^ 31

-- A client that waits for its timer to try again.
pub record IsWaiting {J : Type 0} (c : Client J) : Type 0 where
  pub new : c.state ≡ inited
  pub alone : c.transport ≡ none
  pub silent : (i : ℕ) → c.transports i ≢ tp_working
  pub enabled : c.enable_reconnect ≡ true
  pub trying : c.backoff.reconnecting ≡ true
  pub timer_armed : c.reconnect_timer ≡ armed
  pub timer : (t : Timer) × (c.timeout_timer ≡ some t)

start_reconnect-armed : (t : ReconnectTimer) → t ≢ shut → start_reconnect t ≡ ok armed
start_reconnect-armed idle ne = refl
start_reconnect-armed armed ne = refl
start_reconnect-armed shut ne = absurd (ne refl)

pub stop_reconnect-open : (t : ReconnectTimer) → t ≢ shut → stop_reconnect t ≢ shut
stop_reconnect-open idle ne = λ e. cc
stop_reconnect-open armed ne = λ e. cc
stop_reconnect-open shut ne = ne

pub same_delays :
    (b : Backoff) (x : Bool) (n : ℕ)
    → IsBackoff b
    → IsBackoff (record b { reconnecting = x; reconnects = n })
same_delays b x n h = record {
  grows = h.grows;
  delay_pos = h.delay_pos;
  max_pos = h.max_pos;
  max_small = h.max_small;
}

pub same_room :
    (n : ℕ) (b : Backoff) (x : Bool) → HasRoom n b → HasRoom n (record b { reconnecting = x })
same_room n b x h = record { delays = same_delays b x b.reconnects h.delays; room = h.room }

next_room :
    (n : ℕ) (b : Backoff)
    → HasRoom (suc n) b
    → HasRoom n (record b { reconnecting = true; reconnects = b.reconnects + 1 })
next_room n b h = record {
  delays = same_delays b true (b.reconnects + 1) h.delays;
  room = let small : b.reconnects + suc n < 2 ^ 31 = h.room in omega arith;
}

both_true : (a b : Bool) → a ≡ true → b ≡ false → (a && not b) ≡ true
both_true a b e e' = rw (e, e') refl

module _ {J : Type 0} where
  -- What a client needs to start waiting.
  pub record IsReady (n : ℕ) (c : Client J) : Type 0 where
    pub owned : IsOwned c
    pub enabled : c.enable_reconnect ≡ true
    pub open_timer : c.reconnect_timer ≢ shut
    pub timer : (t : Timer) × (c.timeout_timer ≡ some t)
    pub has_room : HasRoom (suc n) c.backoff

  abbrev pub Waits : ℕ → ℕ → Client J → Type 0
  Waits n r c = IsWaiting c × HasRoom n c.backoff × (c.backoff.reconnects ≡ r)

module _ (rand : ℕ → ℕ) {J : Type 0} where
  pub reconnect-Waits :
      (n : ℕ) (c : Client J)
      → IsReady n c
      → (c₁ : Client J) × (reconnect_client rand c ≡ ok c₁) × Waits n (c.backoff.reconnects + 1) c₁
  unfolding reconnect_client
  reconnect-Waits n c h =
      let b : Backoff = record c.backoff { reconnecting = true } in
      let (t, timer) = h.timer in
      let r = h.has_room in
      let count : c.backoff.reconnects + 1 < 2 ^ 31 = (let small = r.room in omega arith) in
      let (ts, reset, silent, off) = reset-ok (record c { backoff = b }) t h.owned timer in
      let (ms, delays, least, most) =
        client_reconnect-ok b (rand c.rands)
          (same_delays c.backoff true c.backoff.reconnects r.delays) count in
      (
        _,
        ap
              (λ m. m >>= (λ c₁. client_reconnect (rand c₁.rands) c₁.backoff >>= (λ (backoff, ms).
                start_reconnect c₁.reconnect_timer >>= (λ u.
                  ok
                    (record c₁ { backoff = backoff; rands = c₁.rands + 1; reconnect_timer = u })))))
              reset
            ∙ ap
                (λ m. m >>= (λ (backoff, ms). start_reconnect c.reconnect_timer >>= (λ u.
                  let c₁ = renewed (some (stopped t)) (quieted (detached ts c)) in
                  ok (record c₁ { backoff = backoff; rands = c₁.rands + 1; reconnect_timer = u }))))
                delays
            ∙ ap
                (λ m. m >>= (λ u.
                  let c₁ = renewed (some (stopped t)) (quieted (detached ts c)) in
                  ok (record c₁ {
                    backoff = record b { reconnects = c.backoff.reconnects + 1 };
                    rands = c₁.rands + 1;
                    reconnect_timer = u;
                  })))
                (start_reconnect-armed c.reconnect_timer h.open_timer),
        (
          record {
            new = refl;
            alone = refl;
            silent = silent;
            enabled = h.enabled;
            trying = refl;
            timer_armed = refl;
            timer = (stopped t, refl);
          },
          next_room n c.backoff r,
          refl,
        ),
      )

  -- The stop of a client that is trying to connect again does nothing.
  pub client_stop-ignored :
      (c : Client J)
      → c.enable_reconnect ≡ true
      → is_disconnecting c.state ≡ false
      → c.backoff.reconnecting ≡ true
      → client_stop rand c ≡ ok c
  unfolding client_stop
  client_stop-ignored c on alive trying =
      if-then _ _ _ (both_true c.enable_reconnect (is_disconnecting c.state) on alive)
      ∙ if-then _ _ _ trying

  pub client_stop-retries :
      (c : Client J)
      → c.enable_reconnect ≡ true
      → is_disconnecting c.state ≡ false
      → c.backoff.reconnecting ≡ false
      → client_stop rand c ≡ reconnect_client rand c
  unfolding client_stop
  client_stop-retries c on alive trying =
      if-then _ _ _ (both_true c.enable_reconnect (is_disconnecting c.state) on alive)
      ∙ if-else _ _ _ trying

  pub stop-Waits :
      (n : ℕ) (c : Client J)
      → IsReady n c
      → is_disconnecting c.state ≡ false
      → c.backoff.reconnecting ≡ false
      → (c₁ : Client J) × (client_stop rand c ≡ ok c₁) × Waits n (c.backoff.reconnects + 1) c₁
  stop-Waits n c h alive idle_now =
      let (c₁, e, w) = reconnect-Waits n c h in
      (c₁, client_stop-retries c h.enabled alive idle_now ∙ e, w)

  -- The callback of a failed attempt, in which the timer was stopped.
  fail-Waits :
      (n : ℕ) (c : Client J)
      → IsReady n c
      → is_disconnecting c.state ≡ false
      → (c₁ : Client J) × (conn_cb rand reconnected_cb false c ≡ ok c₁)
        × Waits n (c.backoff.reconnects + 1) c₁
  fail-Waits n c h alive =
      stop-Waits n
        (record c {
          backoff = record c.backoff { reconnecting = false };
          reconnect_timer = stop_reconnect c.reconnect_timer;
        })
        (record {
          owned = h.owned;
          enabled = h.enabled;
          open_timer = stop_reconnect-open c.reconnect_timer h.open_timer;
          timer = h.timer;
          has_room = same_room (suc n) c.backoff false h.has_room;
        })
        alive refl

  pub error-Waits :
      (n : ℕ) (c : Client J)
      → IsReady n c
      → is_disconnecting c.state ≡ false
      → c.backoff.reconnecting ≡ true
      → (c₁ : Client J) × (connect_error rand reconnected_cb c ≡ ok c₁)
        × Waits n (c.backoff.reconnects + 1) c₁
  unfolding connect_error
  error-Waits n c h alive trying =
      let c₀ = record c { conn_req = none } in
      let h₀ : IsReady n c₀ = record {
        owned = h.owned;
        enabled = h.enabled;
        open_timer = h.open_timer;
        timer = h.timer;
        has_room = h.has_room;
      } in
      let (c₁, e, w) = fail-Waits n c₀ h₀ alive in
      (
        c₁,
        ap (λ m. m >>= conn_cb rand reconnected_cb false)
              (client_stop-ignored c₀ h.enabled alive trying)
            ∙ e,
        w,
      )
