-- ===== src/Client/Started.antt =====
-- The links of the client and its connections over the end of an attempt to connect,
-- `pc__on_tcp_connect` of src/network.c.
use libpomelo.Common.{ℕ, Bool, true, false, not, Option, none, some}
use libpomelo.Client.{
  State, inited, connecting, connected, working, disconnecting, closed, TpState, tp_connecting,
  tp_working, tp_closed, ConnCb, Client, put, with_transport,
}
use libpomelo.Client.Stop.{transport_destroy, client_stop}
use libpomelo.Client.Connect.{Asking, Writing, is_open}
use libpomelo.Common.{◌≡◌, ◌≢◌, refl, ap, subst, inl, inr, Bool-cases, eq_or_ne, ==_true, ==_false}
use libpomelo.Client.Connect.{
  connect_error, handshaken, handshake_req, on_tcp_connect, is_connecting,
}
use libpomelo.Client.Linked.{
  Holds, Holds-then, Holds-if, Linked, IsLinked, is_apart, client_stop-IsLinked, conn_cb-IsLinked,
}
use libpomelo.Client.Kept.{Fst, put-Linked, handshake_req-IsLinked}

-- The transport whose connection was made becomes the client's own.
started-Linked :
    (ts : ℕ → TpState) (i : ℕ)
    → ((j : ℕ) → ts j ≢ tp_working)
    → Linked connected (some i) (put ts i tp_working)
started-Linked ts i none_works =
    let at_i : put ts i tp_working i ≡ tp_working = rw (==_true i i refl) in
    record {
      live = λ j e.
          let same : i ≡ j = cc e in
          inl (subst (λ k. put ts i tp_working k ≡ tp_working) same at_i);
      only = λ j w. elim (eq_or_ne i j) [
        | inl same ↦ ap some same
        | inr ne ↦ absurd (none_works j (rw (==_false i j ne) at w))
      ];
      apart = λ q. absurd cc;
      fresh = λ q. absurd cc;
      opened = λ q. (i, refl, at_i);
    }

-- The one that could not be read, which is the client's own until the client is stopped.
unread-Linked :
    (s : State) (t : Option ℕ) (ts : ℕ → TpState) (i : ℕ)
    → s ≡ connecting
    → ts i ≡ tp_connecting
    → Linked s t ts
    → Linked s (some i) ts
unread-Linked s t ts i e pending h =
    let none_works : (j : ℕ) → ts j ≢ tp_working = h.fresh (rw e refl) in
    record {
      live = λ j q. let same : i ≡ j = cc q in inr (subst (λ k. ts k ≡ tp_connecting) same pending);
      only = λ j w. absurd (none_works j w);
      apart = λ q.
          absurd (let r : is_apart connecting ≡ true = subst (λ z. is_apart z ≡ true) e q in cc);
      fresh = λ q. none_works;
      opened =
          λ q. absurd (let r : is_open connecting ≡ true = subst (λ z. is_open z ≡ true) e q in cc);
    }

is_connecting-eq : (s : State) → is_connecting s ≡ true → s ≡ connecting
is_connecting-eq inited e = cc
is_connecting-eq connecting e = refl
is_connecting-eq connected e = cc
is_connecting-eq working e = cc
is_connecting-eq disconnecting e = cc
is_connecting-eq closed e = cc

module _ (rand : ℕ → ℕ) {J : Type 0} where
  connect_error-IsLinked :
      (cb : ConnCb) (c : Client J) → IsLinked c → Holds IsLinked (connect_error rand cb c)
  unfolding connect_error
  connect_error-IsLinked cb c h =
      Holds-then _ _ (client_stop rand (record c { conn_req = none })) _
        (client_stop-IsLinked rand (record c { conn_req = none }) h)
        (λ c₁ h₁. conn_cb-IsLinked rand cb false c₁ h₁)

  handshaken-IsLinked :
      (cb : ConnCb) (r : Client J × Bool) → IsLinked r.0 → Holds IsLinked (handshaken rand cb r)
  handshaken-IsLinked cb (c, true) h = h
  handshaken-IsLinked cb (c, false) h = connect_error-IsLinked cb c h

  pub on_tcp_connect-IsLinked :
      (i : ℕ) (cb : ConnCb) (status reading : Bool) (ask : Asking J) (env : Writing) (c : Client J)
      → c.transports i ≡ tp_connecting
      → c.transport ≢ some i
      → IsLinked c
      → Holds IsLinked (on_tcp_connect rand i cb status reading ask env c)
  unfolding on_tcp_connect transport_destroy
  on_tcp_connect-IsLinked i cb status reading ask env c pending other h =
      elim (Bool-cases (is_connecting c.state)) [
        | inl e ↦
            let con : c.state ≡ connecting = is_connecting-eq c.state e in
            Holds-if _ (not (is_connecting c.state)) _ _
              (conn_cb-IsLinked rand cb false (record c { conn_req = none }) h)
              (Holds-if _ (not status) _ _
                (rw pending (
                  connect_error-IsLinked cb (with_transport i tp_closed c)
                    (put-Linked c.state c.transport c.transports i tp_closed (λ q. cc) other h)))
                (Holds-if _ reading _ _
                  (rw pending (
                    Holds-then Fst _ (handshake_req ask env _) (handshaken rand cb)
                      (handshake_req-IsLinked ask env _ (started-Linked c.transports i (h.fresh e)))
                      (λ r h₁. handshaken-IsLinked cb r h₁)))
                  (connect_error-IsLinked cb (record c { transport = some i })
                    (unread-Linked c.state c.transport c.transports i con pending h))))
        | inr e ↦ rw e (conn_cb-IsLinked rand cb false (record c { conn_req = none }) h)
      ]
