-- ===== src/Client/Kept.antt =====
-- The links of the client and its connections over a write and `connect`: src/client.c, src/network.c
-- and src/pkg-handshake.c.
use libpomelo.Common.{List, ℕ, Bool, true, false, not, ◌&&◌, ◌||◌, Option, none, some}
use libpomelo.Client.{
  State, inited, connecting, connected, working, disconnecting, closed, TpState, tp_inited,
  tp_connecting, tp_working, tp_freed, ConnCb, Client, put, with_state,
}
use libpomelo.Client.Stop.{transport_destroy}
use libpomelo.Client.Connect.{Asking, Writing, Connecting, binary_write, connect, is_open}
use libpomelo.Common.{◌≡◌, ◌≢◌, refl, sym, ◌∙◌, ap, subst, inl, inr, Bool-cases, ==_true, ==_false}
use libpomelo.Client.Connect.{
  handshake_req, handshake_sent, write_package, send_ask, ask_with, start_handshake, write_at,
  is_inited, transport_new, connect_with,
}
use libpomelo.Package.{pkg_encode}
use libpomelo.Client.Linked.{
  Holds, Holds-then, Holds-after, Holds-if, Linked, IsLinked, put_not_working,
}

-- A write of a state that does not work to a transport that is not the client's.
pub put-Linked :
    (state : State) (t : Option ℕ) (ts : ℕ → TpState) (i : ℕ) (s : TpState)
    → s ≢ tp_working
    → t ≢ some i
    → Linked state t ts
    → Linked state t (put ts i s)
put-Linked state t ts i s not_works other h =
    let same : (j : ℕ) → t ≡ some j → put ts i s j ≡ ts j =
      λ j e. let ne : i ≢ j = λ q. other (e ∙ ap some (sym q)) in rw (==_false i j ne) in
    record {
      live = λ j e. rw (same j e) (h.live j e);
      only = λ j e. h.only j (put_not_working ts i j s not_works e).1;
      apart = h.apart;
      fresh = λ e j w. h.fresh e j (put_not_working ts i j s not_works w).1;
      opened = λ e. let (j, own, w) = h.opened e in (j, own, same j own ∙ w);
    }

is_inited-eq : (s : State) → is_inited s ≡ true → s ≡ inited
is_inited-eq inited e = refl
is_inited-eq connecting e = cc
is_inited-eq connected e = cc
is_inited-eq working e = cc
is_inited-eq disconnecting e = cc
is_inited-eq closed e = cc

module _ {J : Type 0} where
  abbrev pub Fst : Client J × Bool → Type 0
  Fst r = IsLinked r.0

  pub write_at-IsLinked :
      (t : Option ℕ) (env : Writing) (type : ℕ) (c : Client J)
      → IsLinked c
      → Holds Fst (write_at t env type c)
  write_at-IsLinked none env type c h = tt
  write_at-IsLinked (some i) env type c h = Holds-if Fst env.write _ _ h h

  pub binary_write-IsLinked :
      (env : Writing) (type : ℕ) (c : Client J) → IsLinked c → Holds Fst (binary_write env type c)
  unfolding binary_write
  binary_write-IsLinked env type c h =
      Holds-if Fst (not (is_open c.state) || not env.req) _ _ h
        (Holds-if Fst env.attach _ _ (write_at-IsLinked c.transport env type c h) tt)

  handshake_sent-IsLinked : (r : Client J × Bool) → Fst r → Holds Fst (handshake_sent r)
  handshake_sent-IsLinked (c, true) h =
      Holds-after Fst (start_handshake c.handshake_timer) _ (λ t. h)
  handshake_sent-IsLinked (c, false) h = h

  write_package-IsLinked :
      (bytes : Option (List ℕ)) (env : Writing) (c : Client J)
      → IsLinked c
      → Holds Fst (write_package bytes env 1 c)
  write_package-IsLinked none env c h = h
  write_package-IsLinked (some bytes) env c h = binary_write-IsLinked env 1 c h

  send_ask-IsLinked :
      (ask : Asking J) (env : Writing) (text : Option (List ℕ)) (c : Client J)
      → IsLinked c
      → Holds Fst (send_ask ask env text c)
  send_ask-IsLinked ask env none c h = h
  send_ask-IsLinked ask env (some text) c h =
      Holds-then Fst Fst (write_package (pkg_encode ask.malloc 1 text) env 1 c) handshake_sent
        (write_package-IsLinked (pkg_encode ask.malloc 1 text) env c h) handshake_sent-IsLinked

  ask_with-IsLinked :
      (ask : Asking J) (env : Writing) (body sys : Option J) (c : Client J)
      → IsLinked c
      → Holds Fst (ask_with ask env body sys c)
  ask_with-IsLinked ask env none sys c h = h
  ask_with-IsLinked ask env (some body) none c h = h
  ask_with-IsLinked ask env (some body) (some sys) c h = send_ask-IsLinked ask env _ _ h

  pub handshake_req-IsLinked :
      (ask : Asking J) (env : Writing) (c : Client J)
      → IsLinked c
      → Holds Fst (handshake_req ask env c)
  unfolding handshake_req
  handshake_req-IsLinked ask env c h = ask_with-IsLinked ask env ask.body ask.sys c h

  -- `pc_connect` ends with a client that connects, and with one more transport at most.
  connecting-IsLinked :
      (c : Client J) → c.state ≡ inited → IsLinked c → IsLinked (with_state connecting c)
  connecting-IsLinked c e h =
      let absent : c.transport ≡ none = h.apart (rw e refl) in
      record {
        live = h.live;
        only = h.only;
        apart = λ q. absurd cc;
        fresh = λ q j w. let own = h.only j w in absurd cc;
        opened = λ q. absurd cc;
      }

  connect_with-IsLinked :
      (env : Connecting) (opts : Option J) (cb : ConnCb) (i : Option ℕ) (c : Client J)
      → ((j : ℕ) → i ≡ some j → (c.transport ≡ none) × (c.transports j ≡ tp_inited))
      → IsLinked c
      → Holds Fst (connect_with env opts cb (c, i))
  unfolding transport_destroy
  connect_with-IsLinked env opts cb none c new h = h
  connect_with-IsLinked env opts cb (some i) c new h =
      let (absent, made) = new i refl in
      let other : c.transport ≢ some i = λ e. cc in
      Holds-if Fst env.tcp_connect _ _
        (put-Linked c.state c.transport c.transports i tp_connecting (λ q. cc) other h)
        (rw made (put-Linked c.state c.transport c.transports i tp_freed (λ q. cc) other h))

  -- A new transport, before it connects, and a client without one.
  abbrev Made : Client J × Option ℕ → Type 0
  Made r =
      IsLinked r.0
      × ((j : ℕ) → r.1 ≡ some j → (r.0.transport ≡ none) × (r.0.transports j ≡ tp_inited))

  transport_new-Made :
      (env : Connecting) (c : Client J)
      → c.transport ≡ none
      → IsLinked c
      → Holds Made (transport_new env c)
  unfolding transport_new
  transport_new-Made env c e h =
      let i : ℕ = c.next_transport in
      let at_next : put c.transports i tp_inited i ≡ tp_inited = rw (==_true i i refl) in
      Holds-if Made (not env.transport_memory) _ _ tt (
        Holds-if Made (env.socket_memory && env.tcp_init) _ _
          (
            put-Linked c.state c.transport c.transports i tp_inited (λ q. cc) (λ q. cc) h,
            λ j q. (
              e,
              let same : i ≡ j = cc q in
                  subst (λ k. put c.transports i tp_inited k ≡ tp_inited) same at_next,
            ),
          )
          (h, λ j q. absurd cc))

  pub connect-IsLinked :
      (env : Connecting) (valid : Bool) (opts : Option J) (cb : ConnCb) (c : Client J)
      → IsLinked c
      → Holds Fst (connect env valid opts cb c)
  unfolding connect
  connect-IsLinked env valid opts cb c h = elim (Bool-cases (is_inited c.state)) [
    | inl e ↦
        let new : c.state ≡ inited = is_inited-eq c.state e in
        let h₁ = connecting-IsLinked c new h in
        let absent : c.transport ≡ none = h.apart (rw new refl) in
        Holds-if Fst (not (is_inited c.state) || not valid) _ _ h (
          Holds-if Fst (env.connect_req && env.pointers) _ _
            (Holds-then Made Fst (transport_new env (with_state connecting c)) _
              (transport_new-Made env (with_state connecting c) absent h₁)
              (λ (c₁, i) (h₂, made). connect_with-IsLinked env opts cb i c₁ made h₂))
            h₁)
    | inr e ↦ rw e h
  ]
