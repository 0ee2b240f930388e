-- ===== src/Life/Ended.antt =====
-- The end of a client of src/client.c: `pc_client_destroy`, with the disconnect, the stop that it asks the
-- loop for, and the end of the worker thread.
use libpomelo.Common.{
  ℕ, ◌≡◌, ◌≢◌, refl, sym, subst, ap, ◌∙◌, Bool, true, false, ◌&&◌, none, List, [], ◌∷◌, ◌++◌, map,
  flatten, append_assoc,
}
use libpomelo.Common.Outcome.{Outcome, ok, ◌>>=◌}
use libpomelo.HashMap.{map_destroy, map_close}
use libpomelo.HashMap.View.{IsMap}
use libpomelo.HashMap.Whole.{map_clear-view}
use libpomelo.Client.{
  tp_working, disconnecting, closed, disconnect, Call, emitted, woken, Client, with_state,
}
use libpomelo.Client.Stop.{closing, close_client, client_stop, failed_request}
use libpomelo.Client.Connect.{worker_done}
use libpomelo.Client.Drops.{if-then, if-else, detached, drop_transport-ok}
use libpomelo.Client.Handshake.{client_disconnect, close_async_cb}
use libpomelo.Client.Linked.{IsLinked, is_apart}
use libpomelo.Listeners.{Listeners}
use libpomelo.Life.{client_clear, client_destroy}

append_two :
    {A : Type 0} (xs : List A) (a b : A) (ys : List A)
    → ((xs ++ a ∷ []) ++ b ∷ []) ++ ys ≡ xs ++ a ∷ b ∷ ys
append_two xs a b ys = append_assoc (xs ++ a ∷ []) (b ∷ []) ys ∙ append_assoc xs (a ∷ []) (b ∷ ys)

and_false : (b : Bool) → (b && false) ≡ false
and_false true = refl
and_false false = refl

module _ {J : Type 0} where
  -- `pc__client_clear` calls the callback of each request that waits once, with a failure, and leaves
  -- neither requests nor listeners.
  pub client_clear-releases :
      (c : Client J) (ls : Listeners)
      → IsMap c.requests
      → ((client_clear (c, ls)).0.calls
          ≡ c.calls ++ map failed_request (flatten c.requests.buckets))
        × ((client_clear (c, ls)).0.requests.buckets ≡ [])
        × ((client_clear (c, ls)).1.map.buckets ≡ [])
  unfolding client_clear map_destroy map_close
  client_clear-releases c ls is_map =
      let (kept, room, all, gone) = map_clear-view true is_map in
      (ap (λ z. c.calls ++ map failed_request z) all, refl, refl)

module _ (rand : ℕ → ℕ) {J : Type 0} where
  -- The worker thread, if nothing else comes behind the disconnect: the callback of `close_async`, and
  -- the end of the loop, in which no handle is left.
  abbrev pub last_loop : Client J → Outcome (Client J)
  last_loop c = close_async_cb rand c >>= (λ c₁. ok (worker_done c₁))

  -- A client that is disconnecting is closed by its stop, whether it reconnects or not.
  stop_disconnecting :
      (c : Client J)
      → IsLinked c
      → (c₁ : Client J) × (client_stop rand (with_state disconnecting c) ≡ ok c₁)
        × (c₁.transport ≡ none)
        × ((i : ℕ) → c₁.transports i ≢ tp_working)
        × (c₁.calls ≡ c.calls)
        × (c₁.requests ≡ c.requests)
  unfolding client_stop close_client
  stop_disconnecting c h =
      let (ts, dropped, silent, off) = drop_transport-ok (with_state closed c) h.live h.only in
      (
        closing (detached ts (with_state closed c)),
        if-else (c.enable_reconnect && false) _ _ (and_false c.enable_reconnect)
            ∙ ap (λ m. m >>= (λ c₁. ok (closing c₁))) dropped,
        refl,
        silent,
        refl,
        refl,
      )

  -- A client that was started is destroyed in order, whether it reconnects or not: if it is linked and
  -- has its `close_async`, and nothing else comes behind the disconnect, then every call is defined, the
  -- client is closed without a transport, none works, the disconnect is told to the listeners, and then
  -- each request that waits gets its callback once, with a failure.
  pub client_destroy-ends :
      (c : Client J) (ls : Listeners)
      → IsLinked c
      → IsMap c.requests
      → is_apart c.state ≡ false
      → c.close_async ≡ true
      → (c₁ : Client J) × (ls₁ : Listeners) × (client_destroy last_loop (c, ls) ≡ ok (c₁, ls₁))
        × (c₁.state ≡ closed)
        × (c₁.transport ≡ none)
        × ((i : ℕ) → c₁.transports i ≢ tp_working)
        × (c₁.calls
            ≡ c.calls
              ++ emitted disconnect ∷ woken ∷ map failed_request (flatten c.requests.buckets))
        × (c₁.requests.buckets ≡ [])
        × (ls₁.map.buckets ≡ [])
  unfolding client_destroy client_disconnect close_async_cb client_clear
  client_destroy-ends c ls h is_map started sends =
      let (c₀, stopped, alone, silent, called, waits) = stop_disconnecting c h in
      let c₁ : Client J = worker_done c₀ in
      let failures : Client J → List Call =
        λ c₂. map failed_request (flatten c₂.requests.buckets) in
      let (released, none_waits, none_heard) =
        client_clear-releases c₁ ls (subst IsMap (sym waits) is_map) in
      (
        (client_clear (c₁, ls)).0,
        (client_clear (c₁, ls)).1,
        if-else _ _ _ started
            ∙ ap (λ m. m >>= last_loop >>= (λ c₂. ok (client_clear (c₂, ls)))) (if-then _ _ _ sends)
            ∙ ap (λ m. m >>= (λ c₂. ok (worker_done c₂)) >>= (λ c₂. ok (client_clear (c₂, ls))))
                stopped,
        refl,
        alone,
        silent,
        released
            ∙ append_two c₀.calls (emitted disconnect) woken _
            ∙ ap (λ z. z ++ emitted disconnect ∷ woken ∷ failures c₀) called
            ∙ ap
                (λ m.
                  c.calls ++ emitted disconnect ∷ woken ∷ map failed_request (flatten m.buckets))
                waits,
        none_waits,
        none_heard,
      )
