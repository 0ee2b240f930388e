-- ===== src/Client/Reset.antt =====
-- `pc__client_reconnect_reset` of src/client.c: what it does to the connection and to the requests that
-- wait for an answer.
use libpomelo.Common.{[], ℕ, Bool, Option, none, some, List, ◌++◌, map}
use libpomelo.Common.Outcome.{ok, ◌>>=◌}
use libpomelo.Client.{inited, TpState, tp_connecting, tp_working, tp_closed, Timer, Client, stopped}
use libpomelo.Client.Linked.{IsLinked}
use libpomelo.Client.Drops.{detached, drop_transport-ok}
use libpomelo.HashMap.View.{IsMap, view}
use libpomelo.HashMap.Whole.{map_clear-view}
use libpomelo.Common.{flatten}
use libpomelo.Client.Stop.{quieted, renewed, reconnect_reset, failed_request, stop_other}
use libpomelo.Client.Stop.{stop_timer, or_zero}
use libpomelo.Package.Holds.{Holds}
use libpomelo.Package.Chunks.{parser_reset-Holds}
use libpomelo.Common.{◌≡◌, ◌≢◌, refl, ◌∙◌, ap, ◌⊎◌}
use libpomelo.Client.Linked.{IsLinked}

stop_other-ok :
    (handshake timeout : Option Timer) (t : Timer)
    → timeout ≡ some t
    → stop_other handshake (stop_timer timeout) ≡ ok (some (stopped t))
stop_other-ok none none t e = cc
stop_other-ok (some h) none t e = cc
stop_other-ok none (some u) t e = ap (λ z. ok (stop_timer z)) e
stop_other-ok (some h) (some u) t e = ap (λ z. ok (stop_timer z)) e

-- What a reset leaves of the session of a client: nothing but the timer of the handshake.
pub record IsCleared {J : Type 0} (c c₁ : Client J) (t : Timer) : Type 0 where
  pub parser_empty : Holds c₁.parser []
  pub opts_gone : c₁.handshake_opts ≡ none
  pub routes_gone : c₁.route_to_code ≡ none
  pub codes_gone : c₁.code_to_route ≡ none
  pub server_gone : c₁.server_protos ≡ none
  pub client_gone : c₁.client_protos ≡ none
  pub heartbeat_off : c₁.heartbeat_timer ≡ stop_timer c.heartbeat_timer
  pub timeout_off : c₁.timeout_timer ≡ some (stopped t)
  pub timeout_zero : c₁.timeout ≡ some 0
  pub handshake_kept : c₁.handshake_timer ≡ c.handshake_timer

module _ {J : Type 0} where
  -- The fields of a client that a stop of its connection reads.
  abbrev pub IsOwned : Client J → Type 0
  IsOwned c =
      ((i : ℕ)
        → c.transport ≡ some i
        → (c.transports i ≡ tp_working) ⊎ (c.transports i ≡ tp_connecting))
      × ((i : ℕ) → c.transports i ≡ tp_working → c.transport ≡ some i)

  pub reset-ok :
      (c : Client J) (t : Timer)
      → IsOwned c
      → c.timeout_timer ≡ some t
      → (ts : ℕ → TpState) × (reconnect_reset c
          ≡ ok (renewed (some (stopped t)) (quieted (detached ts c))))
        × ((i : ℕ) → ts i ≢ tp_working)
        × ((i : ℕ) → c.transport ≡ some i → ts i ≡ tp_closed)
  unfolding reconnect_reset
  reset-ok c t (live, only) timer =
      let (ts, dropped, silent, off) = drop_transport-ok c live only in
      (
        ts,
        ap
              (λ m. m >>= (λ c₁.
                stop_other c₁.handshake_timer (stop_timer c₁.timeout_timer)
                >>= (λ u. ok (renewed u (quieted c₁)))))
              dropped
            ∙ ap (λ m. m >>= (λ u. ok (renewed u (quieted (detached ts c)))))
                (stop_other-ok c.handshake_timer c.timeout_timer t timer),
        silent,
        off,
      )

  pub reset-effects :
      (signed_char : Bool) (c : Client J) (t : Timer)
      → IsLinked c
      → IsMap c.requests
      → c.timeout_timer ≡ some t
      → (c₁ : Client J) × (reconnect_reset c ≡ ok c₁)
        × (c₁.calls ≡ c.calls ++ map failed_request (flatten c.requests.buckets))
        × ((k : List ℕ) → view signed_char c₁.requests k ≡ none)
        × (c₁.state ≡ inited)
        × (c₁.transport ≡ none)
        × ((i : ℕ) → c₁.transports i ≢ tp_working)
        × ((i : ℕ) → c.transport ≡ some i → c₁.transports i ≡ tp_closed)
  reset-effects signed_char c t h is_map timer =
      let (ts, reset, silent, off) = reset-ok c t (h.live, h.only) timer in
      let (kept, room, all, gone) = map_clear-view signed_char is_map in
      (_, reset, ap (λ z. c.calls ++ map failed_request z) all, gone, refl, refl, silent, off)

  -- The reset before a reconnection is defined: if the client is linked, has its `timeout_timer`, and its
  -- parser holds part of a package or nothing. Each request that waits for an answer gets its callback
  -- once, with a failure, and none waits any more. The client is in its first state, without a transport,
  -- and none works; its parser holds nothing; the options of the handshake, both dictionaries and both
  -- protobuf definitions are gone; the timers of the heartbeat and of its timeout are stopped, and the
  -- timeout is 0. But the timer of the handshake is left as it is: one that runs goes on.
  pub reset-releases :
      (signed_char : Bool) (c : Client J) (t : Timer) (acc : List ℕ)
      → IsLinked c
      → IsMap c.requests
      → Holds c.parser acc
      → c.timeout_timer ≡ some t
      → (c₁ : Client J) × (reconnect_reset c ≡ ok c₁)
        × (c₁.calls ≡ c.calls ++ map failed_request (flatten c.requests.buckets))
        × ((k : List ℕ) → view signed_char c₁.requests k ≡ none)
        × (c₁.state ≡ inited)
        × (c₁.transport ≡ none)
        × ((i : ℕ) → c₁.transports i ≢ tp_working)
        × IsCleared c c₁ t
  reset-releases signed_char c t acc h is_map held timer =
      let (ts, reset, silent, off) = reset-ok c t (h.live, h.only) timer in
      let (kept, room, all, gone) = map_clear-view signed_char is_map in
      (
        _,
        reset,
        ap (λ z. c.calls ++ map failed_request z) all,
        gone,
        refl,
        refl,
        silent,
        record {
          parser_empty = parser_reset-Holds held;
          opts_gone = refl;
          routes_gone = refl;
          codes_gone = refl;
          server_gone = refl;
          client_gone = refl;
          heartbeat_off = refl;
          timeout_off = refl;
          timeout_zero = ap (λ z. or_zero z c.timeout) timer;
          handshake_kept = refl;
        },
      )
