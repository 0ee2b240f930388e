-- ===== src/Life/Works.antt =====
-- What src/client.c says to the caller of `pc_client_connect`.
use libpomelo.Common.{Option, List, ℕ, ◌≡◌, refl, ap, ◌∙◌, Bool, true, false, none, some}
use libpomelo.Common.Outcome.{Outcome, ok}
use libpomelo.Protobuf.Encode.{Jansson}
use libpomelo.Protobuf.Decode.{Builder, Printer}
use libpomelo.Client.{
  State, inited, connecting, connected, working, disconnecting, closed, tp_working, connected_cb,
  Client,
}
use libpomelo.Client.Connect.{Connecting, connect, is_open}
use libpomelo.Client.Dispatch.{Msg}
use libpomelo.Client.Handshake.{is_working}
use libpomelo.Client.Linked.{Holds, Holds-if, IsLinked}
use libpomelo.Client.Kept.{Fst, connect-IsLinked}
use libpomelo.Client.Steps.{Reach, Reach-IsLinked, held}
use libpomelo.Listeners.{Listeners}
use libpomelo.Life.Connects.{waited, client_connect}
use libpomelo.Life.{Making, client_new}
use libpomelo.Life.Made.{Holds-eq, client_new-IsMade, made-IsLinked}

-- Where the call returns 0: the client is linked, and it works.
abbrev Connected : {J : Type 0} → Client J × Bool → Type 0
Connected (c, done) = (done ≡ true) → IsLinked c × (is_working c.state ≡ true)

working-eq : (s : State) → is_working s ≡ true → s ≡ working
working-eq working e = refl
working-eq connecting e = cc
working-eq connected e = cc
working-eq inited e = cc
working-eq disconnecting e = cc
working-eq closed e = cc

module _ (malloc : ℕ → Bool) (signed_char : Bool) (rand : ℕ → ℕ) (fuel : ℕ) {J : Type 0}
    (json : Jansson J) (integer_value : J → ℕ) (build : Builder J) (printer : Printer)
    (reload : Option J → Option J) (accept : Option J → Bool) (json_loadb : List ℕ → Option J)
    (parse_msg : Client J → List ℕ → Outcome (Option Msg))
    (encode_msg : ℕ → List ℕ → Outcome (List ℕ)) where
  -- What the worker thread does from c to c' is steps of the client.
  abbrev pub Runs : Client J → Client J → Type 0
  Runs =
      Reach malloc signed_char rand fuel json integer_value build printer reload accept json_loadb
        parse_msg encode_msg

  waited-Connected :
      (worker : Client J → Outcome (Client J)) (c : Client J) (started : Bool)
      → ((c' : Client J) → started ≡ true → worker c ≡ ok c' → Runs c c')
      → IsLinked c
      → Holds Connected (waited worker (c, started))
  waited-Connected worker c false runs h = λ e. absurd cc
  waited-Connected worker c true runs h = Holds-eq Connected (worker c) _ (λ c₁ e. λ works. (
    Reach-IsLinked malloc signed_char rand fuel json integer_value build printer reload accept
        json_loadb parse_msg encode_msg c c₁ (runs c₁ refl e) h,
    works,
  ))

  -- If `pc_client_connect` of a client that was just made returns 0, then the state is that of a working
  -- client and it has a transport that works; whatever the worker thread has done until it wakes the
  -- caller, as long as each thing it did is a call that is defined.
  pub client_connect-works :
      (files : List ℕ → Option J) (making : Making) (env : Connecting) (request : Bool)
      (worker : Client J → Outcome (Client J)) (c c' : Client J) (ls : Listeners)
      → client_new malloc files making ≡ ok (c, ls)
      → ((c₁ c₂ : Client J)
          → connect env true none connected_cb c ≡ ok (c₁, true)
          → worker c₁ ≡ ok c₂
          → Runs c₁ c₂)
      → client_connect worker env request c ≡ ok (c', true)
      → (c'.state ≡ working) × (i : ℕ) × (c'.transport ≡ some i) × (c'.transports i ≡ tp_working)
  unfolding client_connect
  client_connect-works files making env request worker c c' ls made runs e =
      let linked : IsLinked c =
        made-IsLinked signed_char (c, ls)
          (client_new-IsMade signed_char malloc files making (c, ls) made) in
      let kept : Holds Connected (client_connect worker env request c) =
        Holds-if Connected request _ _
          (Holds-eq Connected (connect env true none connected_cb c) _ (λ (c₁, started) q.
            waited-Connected worker c₁ started
              (λ c₂ begun w. runs c₁ c₂ (q ∙ ap (λ b. ok (c₁, b)) begun) w)
              (held Fst q (connect-IsLinked env true none connected_cb c linked))))
          (λ q. absurd cc) in
      let connected_at : Connected (c', true) = held Connected e kept in
      let (h, works) = connected_at refl in
      let at_work : c'.state ≡ working = working-eq c'.state works in
      let (i, own, live) = h.opened (ap is_open at_work) in (at_work, i, own, live)
