-- ===== src/Client/Pending.antt =====
-- The requests that wait for an answer: src/network.c and src/protocol.c, with the map of src/map.c.
use libpomelo.Common.{
  ℕ, ◌+◌, Bool, true, false, Option, none, some, List, [], ◌∷◌, ◌++◌, if◌then◌else◌, length,
}
use libpomelo.Common.Outcome.{Outcome, ok, ◌>>=◌}
use libpomelo.Client.{tp_working, Request, request_done, sent, Client, call}
use libpomelo.Common.{◌≡◌, refl, sym, ◌∙◌, ap, subst, inl, inr, Bool-cases}
use libpomelo.Package.{pkg_encode}
use libpomelo.Client.Connect.{write_at}
use libpomelo.Client.Requests.{
  reads_working, Sending, recorded, record_request, packed, send_request, run_request, respond_at,
  process_response,
}
use libpomelo.HashMap.View.{IsMap, view, queue_of, map_get-view}
use libpomelo.HashMap.Writes.{Settles, absent, map_set-view, map_del-view}
use libpomelo.Common.{◌<◌}
use libpomelo.HashMap.{Pair, find}
use libpomelo.Common.Bytes.{same_str, same_str_refl, same_str→eq}
use libpomelo.Client.Drops.{if-then, if-else}

new-Settles : (q : List (Pair Request)) (k : List ℕ) → find k q ≡ none → Settles k q none
new-Settles q k e = absent e

-- A client whose transport works, and which has a request without a clash to send.
pub record CanSend {J : Type 0} (malloc : ℕ → Bool) (signed_char : Bool) (print : ℕ → List ℕ)
    (fuel : ℕ) (r : Request) (c : Client J) : Type 0 where
  pub is_map : IsMap c.requests
  pub works : c.transports r.transport ≡ tp_working
  pub own : c.transport ≡ some r.transport
  pub new : view signed_char c.requests (print r.id) ≡ none
  pub enough : length (queue_of signed_char c.requests (print r.id)) + 1 < fuel
  pub pair_given : malloc 32 ≡ true
  pub key_given : malloc (length (print r.id) + 1) ≡ true

-- A key that is taken out again, where it was not in the map before.
undone :
    (k key : List ℕ) (r : Request) (before : Option Request) (now after : Option Request)
    → now ≡ (if same_str key k then some r else before)
    → after ≡ (if same_str key k then none else now)
    → (same_str key k ≡ true → before ≡ none)
    → after ≡ before
undone k key r before now after e e' new = elim (Bool-cases (same_str key k)) [
  | inl same ↦ e' ∙ if-then _ _ _ same ∙ sym (new same)
  | inr other ↦ e' ∙ if-else _ _ _ other ∙ e ∙ if-else _ _ _ other
]

module _ (signed_char : Bool) (print : ℕ → List ℕ) {J : Type 0} (c : Client J)
    (v : IsMap c.requests) where
  -- The answer to a request that waits calls its callback with success and takes it out of the map,
  -- where all others stay.
  pub process_response-once :
      (id : ℕ) (r : Request)
      → view signed_char c.requests (print id) ≡ some r
      → (c₁ : Client J) × (process_response signed_char print id c ≡ ok c₁)
        × (c₁.calls ≡ c.calls ++ request_done r.id true ∷ [])
        × ((k : List ℕ)
            → view signed_char c₁.requests k
              ≡ (if same_str (print id) k then none else view signed_char c.requests k))
        × IsMap c₁.requests
  unfolding process_response
  process_response-once id r waits =
      let (m, deleted, is_map, reads) = map_del-view signed_char v (print id) in
      let c₁ : Client J = call (request_done r.id true) (record c { requests = m }) in
      (
        c₁,
        ap (λ o. o >>= respond_at signed_char print id c) (map_get-view signed_char v (print id))
            ∙ ap (respond_at signed_char print id c) waits
            ∙ ap
                (λ o. o >>= (λ (m', old).
                  ok (call (request_done r.id true) (record c { requests = m' }))))
                deleted,
        refl,
        reads,
        is_map,
      )

module _ (malloc : ℕ → Bool) (signed_char : Bool) (print : ℕ → List ℕ) (fuel : ℕ) {J : Type 0}
    (encode_msg : ℕ → List ℕ → Outcome (List ℕ)) where
  -- A request that can be sent is sent as one data package, and waits under its number.
  run_request-sent :
      (c : Client J) (r : Request) (msg bytes : List ℕ)
      → CanSend malloc signed_char print fuel r c
      → encode_msg r.id r.route ≡ ok msg
      → pkg_encode malloc 4 msg ≡ some bytes
      → (c₁ : Client J) × (run_request malloc signed_char print fuel encode_msg
            (record { write_req = true; context = true; write = true })
            true
            r
            c
          ≡ ok c₁)
        × (c₁.calls ≡ c.calls ++ sent 4 ∷ [])
        × IsMap c₁.requests
        × ((k : List ℕ)
            → view signed_char c₁.requests k
              ≡ (if same_str (print r.id) k then some r else view signed_char c.requests k))
  unfolding run_request view
  run_request-sent c r msg bytes h encoded pack =
      let env : Sending = record { write_req = true; context = true; write = true } in
      let c₀ : Client J = call (sent 4) c in
      let (m, set_ok, is_map, reads) =
        map_set-view malloc signed_char h.is_map (print r.id) r fuel
          (new-Settles (queue_of signed_char c.requests (print r.id)) (print r.id) h.new) h.enough
          h.pair_given h.key_given in
      (
        record c₀ { requests = m },
        ap
              (λ s. reads_working s >>= (λ works.
                if works
                then send_request malloc signed_char print fuel env r c (encode_msg r.id r.route)
                else ok (call (request_done r.id true) c)))
              h.works
            ∙ ap (send_request malloc signed_char print fuel env r c) encoded
            ∙ ap
                (λ p. packed p (
                  write_at c.transport (record { req = true; attach = true; write = true }) 4 c
                  >>= (λ (c₁, done).
                      if done
                      then record_request malloc signed_char print fuel r c₁
                      else ok (call (request_done r.id false) c₁))))
                pack
            ∙ ap
                (λ t.
                  write_at t (record { req = true; attach = true; write = true }) 4 c
                  >>= (λ (c₁, done).
                      if done
                      then record_request malloc signed_char print fuel r c₁
                      else ok (call (request_done r.id false) c₁)))
                h.own
            ∙ ap (λ o. recorded malloc signed_char print fuel c₀ (o >>= (λ (m', old). ok m')))
                set_ok,
        refl,
        is_map,
        reads,
      )

  -- A request and its answer: a request that can be sent is sent as one data package, its callback is
  -- called once, with success, when the answer with its number comes, and then the same requests wait as
  -- before; if the transport works, no request that waits has its number, the message can be encoded
  -- and packed, and the allocations succeed. The fuel is any number above the length of the queue
  -- by two.
  pub request-response :
      (c : Client J) (r : Request) (msg bytes : List ℕ)
      → CanSend malloc signed_char print fuel r c
      → encode_msg r.id r.route ≡ ok msg
      → pkg_encode malloc 4 msg ≡ some bytes
      → (c₁ : Client J) × ((run_request malloc signed_char print fuel encode_msg
              (record { write_req = true; context = true; write = true })
              true
              r
              c
            >>= process_response signed_char print r.id)
          ≡ ok c₁)
        × (c₁.calls ≡ c.calls ++ sent 4 ∷ [] ++ request_done r.id true ∷ [])
        × ((k : List ℕ) → view signed_char c₁.requests k ≡ view signed_char c.requests k)
  request-response c r msg bytes h encoded pack =
      let (c₁, ran, called₁, map₁, reads₁) = run_request-sent c r msg bytes h encoded pack in
      let key : List ℕ = print r.id in
      let waits : view signed_char c₁.requests key ≡ some r =
        reads₁ key ∙ if-then _ _ _ (same_str_refl key) in
      let (c₂, answered_once, called₂, reads₂, map₂) =
        process_response-once signed_char print c₁ map₁ r.id r waits in
      (
        c₂,
        ap (λ m. m >>= process_response signed_char print r.id) ran ∙ answered_once,
        called₂ ∙ ap (λ z. z ++ request_done r.id true ∷ []) called₁,
        λ k.
            undone k key r (view signed_char c.requests k) (view signed_char c₁.requests k)
              (view signed_char c₂.requests k) (reads₁ k) (reads₂ k)
              (λ same.
                subst (λ j. view signed_char c.requests j ≡ none) (same_str→eq key k same) h.new),
      )
