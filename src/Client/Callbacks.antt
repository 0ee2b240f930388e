-- ===== src/Client/Callbacks.antt =====
-- The links of the client and its connections over the callbacks of an open connection:
-- src/pkg-handshake.c, src/pkg-heartbeat.c, src/protocol.c, src/network.c and src/transport.c.
use libpomelo.Common.{
  ℕ, ◌*◌, ◌^◌, Bool, true, false, not, ◌||◌, Option, none, some, ◌==◌, leb, ltb, ◌%◌,
}
use libpomelo.Common.Outcome.{◌>>=◌}
use libpomelo.Client.{
  State, working, TpState, tp_inited, tp_connecting, tp_working, tp_closed, tp_freed, ConnCb,
  reconnected_cb, Client, with_state, stopped, again,
}
use libpomelo.Client.Stop.{client_stop, stop_reconnect, stop_timer}
use libpomelo.Client.Connect.{Writing, Connecting, connect}
use libpomelo.Common.{◌≡◌, refl, inl, inr, Bool-cases}
use libpomelo.Client.Connect.{or_stop, reconnect_timer_cb}
use libpomelo.Client.Session.{extended, set_repeat, set_heartbeat}
use libpomelo.Client.Handshake.{
  is_tp_working, is_live, is_working, must, write_empty, heartbeat_done, heartbeat_req,
  client_disconnect, finish_at, finish_connect, handshake_req_cb, handshake_ack_cb,
  handshake_timeout_cb, or_stopped, heartbeat_cb, timeout_cb, close_async_cb,
}
use libpomelo.Client.Linked.{
  Holds, Holds-then, Holds-after, Holds-if, Holds-defined, Linked, IsLinked, client_stop-IsLinked,
  conn_cb-IsLinked,
}
use libpomelo.Client.Kept.{Fst, binary_write-IsLinked, connect-IsLinked}

-- An acknowledged handshake: the transport of the write works, so it is the client's.
worked-Linked :
    (s : State) (t : Option ℕ) (ts : ℕ → TpState) (i : ℕ)
    → ts i ≡ tp_working
    → Linked s t ts
    → Linked working t ts
worked-Linked s t ts i w h = record {
  live = h.live;
  only = h.only;
  apart = λ q. absurd cc;
  fresh = λ q. absurd cc;
  opened = λ q. (i, h.only i w, w);
}

module _ {J : Type 0} where
  pub heartbeat_done-IsLinked : (c : Client J) → IsLinked c → Holds IsLinked (heartbeat_done c)
  unfolding heartbeat_done
  heartbeat_done-IsLinked c h =
      Holds-after _ (must stopped c.timeout_timer) _
        (λ t₁. Holds-after _ (must again c.heartbeat_timer) _ (λ t₂. h))

  pub write_empty-IsLinked :
      (memory : Bool) (env : Writing) (type : ℕ) (c : Client J)
      → IsLinked c
      → Holds Fst (write_empty memory env type c)
  write_empty-IsLinked memory env type c h =
      Holds-if Fst memory _ _ (binary_write-IsLinked env type c h) h

  pub disconnect-IsLinked : (c : Client J) → IsLinked c → Holds IsLinked (client_disconnect c)
  unfolding client_disconnect
  disconnect-IsLinked c h =
      Holds-if _ c.close_async _ _
        (record {
          live = h.live;
          only = h.only;
          apart = λ q. absurd cc;
          fresh = λ q. absurd cc;
          opened = λ q. absurd cc;
        })
        tt

  pub set_heartbeat-IsLinked :
      (hb : ℕ) (c : Client J) → IsLinked c → Holds IsLinked (set_heartbeat hb c)
  unfolding set_heartbeat
  set_heartbeat-IsLinked hb c h = Holds-if _ (hb == 0 || leb (2 ^ 63) hb) _ _ h (
      Holds-defined _ (ltb (hb * 1000) (2 ^ 63)) _ (
        Holds-defined _ (ltb (hb * 1000 % 2 ^ 32) (2 ^ 30) || leb (3 * 2 ^ 30) (hb * 1000 % 2 ^ 32))
          _
          (Holds-after _ (set_repeat (extended (hb * 1000 % 2 ^ 32)) c.heartbeat_timer) _ (λ t₁.
            Holds-after _ (set_repeat (extended (hb * 1000 % 2 ^ 32 * 2 % 2 ^ 32)) c.timeout_timer)
              _ (λ t₂. h)))))

pub is_tp_working-eq : (s : TpState) → is_tp_working s ≡ true → s ≡ tp_working
is_tp_working-eq tp_working e = refl
is_tp_working-eq tp_inited e = cc
is_tp_working-eq tp_connecting e = cc
is_tp_working-eq tp_closed e = cc
is_tp_working-eq tp_freed e = cc

module _ (rand : ℕ → ℕ) {J : Type 0} where
  finish-IsLinked :
      (cb : Option ConnCb) (status : Bool) (c : Client J)
      → IsLinked c
      → Holds IsLinked (finish_at rand cb status c)
  finish-IsLinked none status c h = h
  finish-IsLinked (some cb) status c h =
      conn_cb-IsLinked rand cb status (record c { conn_req = none }) h

  stop_finish-IsLinked :
      (c : Client J)
      → IsLinked c
      → Holds IsLinked (client_stop rand c >>= finish_connect rand false)
  stop_finish-IsLinked c h =
      Holds-then _ _ (client_stop rand c) _ (client_stop-IsLinked rand c h)
        (λ c₁ h₁. finish-IsLinked c₁.conn_req false c₁ h₁)

  pub handshake_req_cb-IsLinked :
      (i : ℕ) (status : Bool) (c : Client J)
      → IsLinked c
      → Holds IsLinked (handshake_req_cb rand i status c)
  unfolding handshake_req_cb
  handshake_req_cb-IsLinked i status c h =
      Holds-defined _ (is_live (c.transports i)) _ (
        Holds-if _ (not (is_tp_working (c.transports i)) || status) _ _ h
          (stop_finish-IsLinked c h))

  pub handshake_ack_cb-IsLinked :
      (i : ℕ) (status : Bool) (c : Client J)
      → IsLinked c
      → Holds IsLinked (handshake_ack_cb rand i status c)
  unfolding handshake_ack_cb
  handshake_ack_cb-IsLinked i status c h = elim (Bool-cases (is_tp_working (c.transports i))) [
    | inl e ↦ Holds-defined _ (is_live (c.transports i)) _ (
        Holds-if _ (not (is_tp_working (c.transports i))) _ _ h (
          Holds-if _ status _ _
            (finish-IsLinked c.conn_req true (with_state working c) (
              worked-Linked c.state c.transport c.transports i (is_tp_working-eq (c.transports i) e)
                h))
            (stop_finish-IsLinked c h)))
    | inr e ↦ Holds-defined _ (is_live (c.transports i)) _ (rw e h)
  ]

  pub heartbeat_cb-IsLinked :
      (memory : Bool) (env : Writing) (c : Client J)
      → IsLinked c
      → Holds IsLinked (heartbeat_cb rand memory env c)
  unfolding heartbeat_cb heartbeat_req
  heartbeat_cb-IsLinked memory env c h =
      let c₁ = record c { heartbeat_timer = stop_timer c.heartbeat_timer } in
      Holds-then Fst _ (heartbeat_req memory env c₁) _
        (Holds-if Fst (is_working c.state) _ _ (write_empty-IsLinked memory env 3 c₁ h) h)
        (λ (c₂, done) h₂. elim done as (λ d. Holds IsLinked (or_stopped rand (c₂, d))) [
          | true ↦ Holds-after _ (must again c₂.timeout_timer) _ (λ t. h₂)
          | false ↦ client_stop-IsLinked rand c₂ h₂
        ])

  pub stopping-IsLinked :
      (c : Client J)
      → IsLinked c
      → Holds IsLinked (timeout_cb rand c)
        × Holds IsLinked (handshake_timeout_cb rand c)
        × Holds IsLinked (close_async_cb rand c)
  unfolding timeout_cb handshake_timeout_cb close_async_cb
  stopping-IsLinked c h =
      (client_stop-IsLinked rand _ h, client_stop-IsLinked rand _ h, client_stop-IsLinked rand c h)

  pub reconnect_timer_cb-IsLinked :
      (found : Bool) (env : Connecting) (c : Client J)
      → IsLinked c
      → Holds IsLinked (reconnect_timer_cb rand found env c)
  unfolding reconnect_timer_cb
  reconnect_timer_cb-IsLinked found env c h =
      let c₁ = record c { reconnect_timer = stop_reconnect c.reconnect_timer } in
      Holds-if _ found _ _
        (Holds-then Fst _ (connect env true none reconnected_cb c₁) _
          (connect-IsLinked env true none reconnected_cb c₁ h)
          (λ (c₂, done) h₂. elim done as (λ d. Holds IsLinked (or_stop rand (c₂, d))) [
            | true ↦ h₂
            | false ↦
                client_stop-IsLinked rand
                  (record c₂ { backoff = record c₂.backoff { reconnecting = false } }) h₂
          ]))
        (client_stop-IsLinked rand
          (record c₁ { backoff = record c₁.backoff { reconnecting = false } }) h)
