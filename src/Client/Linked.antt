-- ===== src/Client/Linked.antt =====
-- The client and its connections: which transport is the client's own, in every state. What stops
-- and starts connections keeps it.
use libpomelo.Common.{ℕ, Bool, true, false, not, ◌&&◌, Option, none, some, if◌then◌else◌}
use libpomelo.Common.Outcome.{defined, Outcome, ok, err, stuck, fault, ◌>>=◌}
use libpomelo.Client.{
  State, inited, connecting, connected, working, disconnecting, closed, TpState, tp_connecting,
  tp_working, tp_closed, ConnCb, connected_cb, connect3_cb, reconnected_cb, user_cb, Client, put,
  with_state,
}
use libpomelo.Client.Stop.{transport_destroy, client_stop, stop_timer}
use libpomelo.Client.Connect.{conn_cb, is_open}
use libpomelo.Common.{◌≡◌, ◌≢◌, refl, ◌⊎◌, inl, inr, eq_or_ne, ==_true, ==_false}
use libpomelo.Reconnect.{client_reconnect}
use libpomelo.Client.Stop.{
  drop_at, drop_transport, reconnect_reset, reconnect_client, close_client, stop_at, stop_other,
  start_reconnect,
}
use libpomelo.Client.Connect.{is_connecting}
use libpomelo.Client.{is_disconnecting}

-- What the call gives, if it is defined, is so.
abbrev pub Holds : {A : Type 0} → (A → Type 0) → Outcome A → Type 0
Holds P (ok a) = P a
Holds P _ = Unit

pub Holds-then :
    {A B : Type 0} (P : A → Type 0) (Q : B → Type 0) (m : Outcome A) (f : A → Outcome B)
    → Holds P m
    → ((a : A) → P a → Holds Q (f a))
    → Holds Q (m >>= f)
Holds-then P Q (ok a) f p q = q a p
Holds-then P Q err f p q = tt
Holds-then P Q fault f p q = tt
Holds-then P Q stuck f p q = tt

pub Holds-after :
    {A B : Type 0} (Q : B → Type 0) (m : Outcome A) (f : A → Outcome B)
    → ((a : A) → Holds Q (f a))
    → Holds Q (m >>= f)
Holds-after Q (ok a) f q = q a
Holds-after Q err f q = tt
Holds-after Q fault f q = tt
Holds-after Q stuck f q = tt

pub Holds-defined :
    {A : Type 0} (Q : A → Type 0) (b : Bool) (m : Outcome A) → Holds Q m → Holds Q (defined b m)
Holds-defined Q true m h = h
Holds-defined Q false m h = tt

pub Holds-if :
    {A : Type 0} (P : A → Type 0) (b : Bool) (m m' : Outcome A)
    → Holds P m
    → Holds P m'
    → Holds P (if b then m else m')
Holds-if P true m m' p p' = p
Holds-if P false m m' p p' = p'

abbrev pub is_apart : State → Bool
is_apart inited = true
is_apart closed = true
is_apart _ = false

-- The transport of the client is connecting or works, and none but it works. A client that is new or
-- closed has none, while it connects no transport works, and one that is open has one that works.
pub record Linked (state : State) (transport : Option ℕ) (transports : ℕ → TpState) : Type 0 where
  pub live :
      (i : ℕ) → transport ≡ some i → (transports i ≡ tp_working) ⊎ (transports i ≡ tp_connecting)
  pub only : (i : ℕ) → transports i ≡ tp_working → transport ≡ some i
  pub apart : is_apart state ≡ true → transport ≡ none
  pub fresh : is_connecting state ≡ true → (i : ℕ) → transports i ≢ tp_working
  pub opened : is_open state ≡ true → (i : ℕ) × (transport ≡ some i) × (transports i ≡ tp_working)

-- What of it does not depend on the state.
abbrev Owned : Option ℕ → (ℕ → TpState) → Type 0
Owned transport transports =
    ((i : ℕ) → transport ≡ some i → (transports i ≡ tp_working) ⊎ (transports i ≡ tp_connecting))
    × ((i : ℕ) → transports i ≡ tp_working → transport ≡ some i)

abbrev pub IsLinked : {J : Type 0} → Client J → Type 0
IsLinked c = Linked c.state c.transport c.transports

abbrev IsDropped : {J : Type 0} → State → Client J → Type 0
IsDropped s c = (c.state ≡ s) × (c.transport ≡ none) × ((i : ℕ) → c.transports i ≢ tp_working)

dropped-Linked :
    (s : State) (transports : ℕ → TpState)
    → ((i : ℕ) → transports i ≢ tp_working)
    → is_open s ≡ false
    → Linked s none transports
dropped-Linked s transports none_works shut_state = record {
  live = λ i e. cc;
  only = λ i e. absurd (none_works i e);
  apart = λ e. refl;
  fresh = λ e. none_works;
  opened = λ e. cc;
}

-- After a write of a state that does not work.
pub put_not_working :
    (transports : ℕ → TpState) (i j : ℕ) (s : TpState)
    → s ≢ tp_working
    → put transports i s j ≡ tp_working
    → (i ≢ j) × (transports j ≡ tp_working)
put_not_working transports i j s not_works e = elim (eq_or_ne i j) [
  | inl same ↦ absurd (not_works (rw (==_true i j same) at e))
  | inr other ↦ (other, rw (==_false i j other) at e)
]

module _ {J : Type 0} where
  -- Destroying the transport of the client leaves none that works.
  destroy_own :
      (i : ℕ) (c : Client J)
      → Owned (some i) c.transports
      → Holds
          (λ c₁. (c₁.state ≡ c.state) × ((j : ℕ) → c₁.transports j ≢ tp_working))
          (transport_destroy i c)
  unfolding transport_destroy
  destroy_own i c h =
      let none_left : (j : ℕ) → put c.transports i tp_closed j ≢ tp_working = λ j e.
        let (other, w) = put_not_working c.transports i j tp_closed (λ q. cc) e in
        let same : some i ≡ some j = h.1 j w in other (cc same) in
      elim (h.0 i refl) [ inl e ↦ rw e (refl, none_left) | inr e ↦ rw e (refl, none_left) ]

  drop_at-IsDropped :
      (t : Option ℕ) (c : Client J)
      → c.transport ≡ t
      → Owned t c.transports
      → Holds (IsDropped c.state) (drop_at t c)
  drop_at-IsDropped none c e h = (refl, e, λ i w. let q = h.1 i w in cc)
  drop_at-IsDropped (some i) c e h =
      Holds-then _ _ (transport_destroy i c) _ (destroy_own i c h) (λ c₁ (s, w). (s, refl, w))

  drop_transport-IsDropped :
      (c : Client J) → Owned c.transport c.transports → Holds (IsDropped c.state) (drop_transport c)
  unfolding drop_transport
  drop_transport-IsDropped c h = drop_at-IsDropped c.transport c refl h

  reset-IsLinked : (c : Client J) → IsLinked c → Holds IsLinked (reconnect_reset c)
  unfolding reconnect_reset
  reset-IsLinked c h =
      Holds-then _ _ (drop_transport c) _ (drop_transport-IsDropped c (h.live, h.only))
        (λ c₁ (s, t, w).
          Holds-after _ (stop_other c₁.handshake_timer (stop_timer c₁.timeout_timer)) _
            (λ timer. rw t (dropped-Linked inited c₁.transports w refl)))

module _ (rand : ℕ → ℕ) {J : Type 0} where
  close-IsLinked : (c : Client J) → IsLinked c → Holds IsLinked (close_client rand c)
  unfolding close_client
  close-IsLinked c h =
      Holds-then _ _ (drop_transport (with_state closed c)) _
        (drop_transport-IsDropped (with_state closed c) (h.live, h.only))
        (λ c₁ (s, t, w). rw (s, t) (dropped-Linked closed c₁.transports w refl))

  reconnect-IsLinked : (c : Client J) → IsLinked c → Holds IsLinked (reconnect_client rand c)
  unfolding reconnect_client
  reconnect-IsLinked c h =
      Holds-then _ _
        (reconnect_reset (record c { backoff = record c.backoff { reconnecting = true } })) _
        (reset-IsLinked (record c { backoff = record c.backoff { reconnecting = true } }) h)
        (λ c₁ h₁.
          Holds-after _ (client_reconnect (rand c₁.rands) c₁.backoff) _
            (λ b. Holds-after _ (start_reconnect c₁.reconnect_timer) _ (λ t. h₁)))

  stop_at-IsLinked :
      (s : State) (c : Client J) → c.state ≡ s → IsLinked c → Holds IsLinked (stop_at rand s c)
  stop_at-IsLinked inited c e h = record {
    live = h.live;
    only = h.only;
    apart = λ q. h.apart (rw e refl);
    fresh = λ q. absurd cc;
    opened = λ q. absurd cc;
  }
  stop_at-IsLinked closed c e h = h
  stop_at-IsLinked connecting c e h = close-IsLinked c h
  stop_at-IsLinked connected c e h = close-IsLinked c h
  stop_at-IsLinked working c e h = close-IsLinked c h
  stop_at-IsLinked disconnecting c e h = close-IsLinked c h

  pub client_stop-IsLinked : (c : Client J) → IsLinked c → Holds IsLinked (client_stop rand c)
  unfolding client_stop
  client_stop-IsLinked c h =
      Holds-if _ (c.enable_reconnect && not (is_disconnecting c.state)) _ _
        (Holds-if _ c.backoff.reconnecting _ _ h (reconnect-IsLinked c h))
        (stop_at-IsLinked c.state c refl h)

  pub conn_cb-IsLinked :
      (cb : ConnCb) (status : Bool) (c : Client J)
      → IsLinked c
      → Holds IsLinked (conn_cb rand cb status c)
  conn_cb-IsLinked connected_cb true c h = h
  conn_cb-IsLinked connected_cb false c h = client_stop-IsLinked c h
  conn_cb-IsLinked connect3_cb true c h = h
  conn_cb-IsLinked connect3_cb false c h = client_stop-IsLinked c h
  conn_cb-IsLinked reconnected_cb true c h = h
  conn_cb-IsLinked reconnected_cb false c h = client_stop-IsLinked _ h
  conn_cb-IsLinked user_cb status c h = h
