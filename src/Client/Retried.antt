-- ===== src/Client/Retried.antt =====
-- One attempt of a client to connect again, by where it ends: src/client.c and src/network.c.
use libpomelo.Common.{ℕ, ◌+◌, true, false, not, ◌&&◌, ◌||◌, Option, none, some, if◌then◌else◌}
use libpomelo.Common.Outcome.{Outcome, ok, ◌>>=◌}
use libpomelo.Client.{is_disconnecting}
use libpomelo.Client.{
  State, inited, connecting, connected, TpState, tp_inited, tp_connecting, tp_working, tp_closed,
  tp_freed, ConnCb, reconnected_cb, Timer, armed, shut, Client, put, with_state,
}
use libpomelo.Client.Retries.{
  IsWaiting, IsReady, HasRoom, Waits, same_room, stop_reconnect-open, stop-Waits, error-Waits,
}
use libpomelo.Client.Stop.{destroy_at}
use libpomelo.Client.Connect.{
  connect_error, connect_with, transport_new, is_inited, on_tcp_connect, or_stop,
  reconnect_timer_cb, start_at, handshake_req,
}
use libpomelo.Common.{subst}
use libpomelo.Client.Reset.{IsOwned}
use libpomelo.Common.{suc}
use libpomelo.Client.Drops.{if-else}
use libpomelo.Client.Stop.{transport_destroy, client_stop, stop_reconnect}
use libpomelo.Client.Connect.{Asking, Writing, Connecting, connect, handshaken}
use libpomelo.Common.{◌≡◌, ◌≢◌, refl, ◌∙◌, ap, subst, inl, inr}
use libpomelo.Client.Connect.{or_stop, reconnect_timer_cb}
use libpomelo.Client.Connect.{is_inited, on_tcp_connect}
use libpomelo.Client.Failures.{
  unconnected, all_fine, env_of, undumped, unasked_lem, attempt, at_put, put-silent, put-own,
  no_start, unread, unasked,
}

module _ {J : Type 0} where
  lost-IsReady :
      (n : ℕ) (c : Client J)
      → c.transport ≡ none
      → ((j : ℕ) → c.transports j ≢ tp_working)
      → c.enable_reconnect ≡ true
      → c.reconnect_timer ≢ shut
      → (t : Timer) × (c.timeout_timer ≡ some t)
      → HasRoom (suc n) c.backoff
      → IsReady n c
  lost-IsReady n c alone silent enabled open_timer timer room = record {
    owned = (λ i e. absurd cc, λ i w. absurd (silent i w));
    enabled = enabled;
    open_timer = open_timer;
    timer = timer;
    has_room = room;
  }

  pub connect-open :
      (env : Connecting) (c : Client J)
      → c.state ≡ inited
      → connect env true none reconnected_cb c ≡ (
          let c₁ = with_state connecting c in
          if env.connect_req && env.pointers
          then transport_new env c₁ >>= connect_with env none reconnected_cb
          else ok (c₁, false))
  unfolding connect
  connect-open env c e = if-else _ _ _ (ap (λ s. not (is_inited s) || not true) e)

module _ (rand : ℕ → ℕ) {J : Type 0} (n : ℕ) (ask : Asking J) (env : Writing) (c : Client J) where
  -- The client when its timer has run out.
  abbrev pub woken_up : Client J
  woken_up = record c { reconnect_timer = stop_reconnect c.reconnect_timer }

  -- An attempt that gets no further than to the stop of this client.
  abbrev given_up : (ℕ → TpState) → State → ℕ → Option J → Option ConnCb → Client J
  given_up ts s next opts req = record woken_up {
    backoff = record c.backoff { reconnecting = false };
    transports = ts;
    state = s;
    next_transport = next;
    handshake_opts = opts;
    conn_req = req;
  }

  abbrev pub Retried : Outcome (Client J) → Type 0
  Retried m = (c₁ : Client J) × (m ≡ ok c₁) × Waits n (c.backoff.reconnects + 1) c₁

  pub given_up-Retried :
      (ts : ℕ → TpState) (s : State) (next : ℕ) (opts : Option J) (req : Option ConnCb)
      → IsWaiting c
      → HasRoom (suc n) c.backoff
      → ((j : ℕ) → ts j ≢ tp_working)
      → is_disconnecting s ≡ false
      → Retried (client_stop rand (given_up ts s next opts req))
  given_up-Retried ts s next opts req h room silent alive =
      stop-Waits rand n (given_up ts s next opts req)
        (lost-IsReady n (given_up ts s next opts req) h.alone silent h.enabled
          (stop_reconnect-open c.reconnect_timer
            (let q : c.reconnect_timer ≡ armed = h.timer_armed in λ e. cc))
          h.timer (same_room (suc n) c.backoff false room))
        alive refl

  -- The client that connects.
  abbrev calling : Client J
  calling = record woken_up {
    state = connecting;
    transports = put (put c.transports c.next_transport tp_inited) c.next_transport tp_connecting;
    next_transport = c.next_transport + 1;
    handshake_opts = none;
    conn_req = some reconnected_cb;
  }

  calling_lem : IsWaiting c → reconnect_timer_cb rand true all_fine c ≡ ok calling
  unfolding reconnect_timer_cb transport_new
  calling_lem h = ap (λ m. m >>= or_stop rand) (connect-open all_fine woken_up h.new)

  -- An attempt for which `pc_connect` makes no transport.
  pub refused-Retried :
      (cenv : Connecting)
      → connect cenv true none reconnected_cb woken_up ≡ ok (with_state connecting woken_up, false)
      → IsWaiting c
      → HasRoom (suc n) c.backoff
      → Retried (reconnect_timer_cb rand true cenv c)
  unfolding reconnect_timer_cb
  refused-Retried cenv q h room =
      let (c₁, e, w) =
        given_up-Retried c.transports connecting c.next_transport c.handshake_opts c.conn_req h room
          h.silent refl in
      (c₁, ap (λ m. m >>= or_stop rand) q ∙ e, w)

  -- An attempt with a transport in the state s that ends in the error end of `pc__on_tcp_connect`.
  error-Retried :
      (m : Outcome (Client J)) (own : Option ℕ) (s : State) (ts : ℕ → TpState) (version : Option J)
      → (let c₂ = record calling {
        transport = own;
        state = s;
        transports = ts;
        proto_ver = version;
      } in
          (m ≡ connect_error rand reconnected_cb c₂) × IsOwned c₂)
      → is_disconnecting s ≡ false
      → IsWaiting c
      → HasRoom (suc n) c.backoff
      → Retried m
  error-Retried m own s ts version (e, owned) alive h room =
      let c₂ = record calling {
        transport = own;
        state = s;
        transports = ts;
        proto_ver = version;
      } in
      let ready : IsReady n c₂ = record {
        owned = owned;
        enabled = h.enabled;
        open_timer =
            stop_reconnect-open c.reconnect_timer
              (let q : c.reconnect_timer ≡ armed = h.timer_armed in λ e. cc);
        timer = h.timer;
        has_room = room;
      } in
      let (c₁, e₁, w) = error-Waits rand n c₂ ready alive h.trying in (c₁, e ∙ e₁, w)

  calling-silent : IsWaiting c → (j : ℕ) → calling.transports j ≢ tp_working
  calling-silent h =
      put-silent _ c.next_transport tp_connecting (λ q. cc)
        (put-silent c.transports c.next_transport tp_inited (λ q. cc) h.silent)

  calling-at : calling.transports c.next_transport ≡ tp_connecting
  calling-at = at_put (put c.transports c.next_transport tp_inited) c.next_transport tp_connecting

  -- The transport of this attempt is freed at once.
  pub no_start-Retried :
      IsWaiting c → HasRoom (suc n) c.backoff → Retried (attempt rand no_start ask env c)
  unfolding reconnect_timer_cb transport_new transport_destroy on_tcp_connect
  no_start-Retried h room =
      let i : ℕ = c.next_transport in
      let made : Client J = record woken_up {
        state = connecting;
        transports = put c.transports i tp_inited;
        next_transport = i + 1;
        handshake_opts = none;
        conn_req = some reconnected_cb;
      } in
      let (c₁, e, w) =
        given_up-Retried (put (put c.transports i tp_inited) i tp_freed) connecting (i + 1) none
          (some reconnected_cb) h room
          (put-silent _ i tp_freed (λ q. cc)
            (put-silent c.transports i tp_inited (λ q. cc) h.silent))
          refl in
      (
        c₁,
        ap (λ m. m >>= or_stop rand) (connect-open (env_of no_start) woken_up h.new)
            ∙ ap (λ s. destroy_at s i made >>= (λ c₂. ok (c₂, false)) >>= or_stop rand)
                (at_put c.transports i tp_inited)
            ∙ e,
        w,
      )

  -- The connection is not made.
  pub unconnected-Retried :
      IsWaiting c → HasRoom (suc n) c.backoff → Retried (attempt rand unconnected ask env c)
  unfolding reconnect_timer_cb transport_new transport_destroy on_tcp_connect
  unconnected-Retried h room =
      error-Retried _ c.transport connecting (put calling.transports c.next_transport tp_closed)
        c.proto_ver
        (
          ap (λ m. m >>= on_tcp_connect rand c.next_transport reconnected_cb false true ask env)
                (calling_lem h)
              ∙ ap
                  (λ s. destroy_at s c.next_transport calling >>= connect_error rand reconnected_cb)
                  calling-at,
          (
            λ j q. let absent : c.transport ≡ none = h.alone in absurd cc,
            λ j w.
                absurd (put-silent _ c.next_transport tp_closed (λ q. cc) (calling-silent h) j w),
          ),
        )
        refl h room

  -- It is made, but its socket cannot be read.
  pub unread-Retried :
      IsWaiting c → HasRoom (suc n) c.backoff → Retried (attempt rand unread ask env c)
  unfolding reconnect_timer_cb transport_new transport_destroy on_tcp_connect
  unread-Retried h room =
      error-Retried _ (some c.next_transport) connecting calling.transports c.proto_ver
        (
          ap (λ m. m >>= on_tcp_connect rand c.next_transport reconnected_cb true false ask env)
              (calling_lem h),
          (
            λ j q.
                let same : c.next_transport ≡ j = cc q in
                inr (subst (λ k. calling.transports k ≡ tp_connecting) same calling-at),
            λ j w. absurd (calling-silent h j w),
          ),
        )
        refl h room

  -- It is made, but the handshake is not asked for.
  pub unasked-Retried :
      IsWaiting c → HasRoom (suc n) c.backoff → Retried (attempt rand unasked ask env c)
  unfolding reconnect_timer_cb transport_new transport_destroy on_tcp_connect
  unasked-Retried h room =
      let (version, refused) = unasked_lem ask env (record calling {
        state = connected;
        transport = some c.next_transport;
        transports = put calling.transports c.next_transport tp_working;
      }) in
      error-Retried _ (some c.next_transport) connected
        (put calling.transports c.next_transport tp_working) version
        (
          ap
                (λ m.
                  m
                  >>= on_tcp_connect rand c.next_transport reconnected_cb true true (undumped ask)
                      env)
                (calling_lem h)
              ∙ ap
                  (λ s.
                    handshake_req (undumped ask) env (
                      start_at s c.next_transport
                        (record calling { state = connected; transport = some c.next_transport }))
                    >>= handshaken rand reconnected_cb)
                  calling-at
              ∙ ap (λ m. m >>= handshaken rand reconnected_cb) refused,
          (
            λ j q.
                let same : c.next_transport ≡ j = cc q in
                inl (
                  subst (λ k. put calling.transports c.next_transport tp_working k ≡ tp_working)
                    same (at_put calling.transports c.next_transport tp_working)),
            put-own calling.transports c.next_transport (calling-silent h),
          ),
        )
        refl h room
