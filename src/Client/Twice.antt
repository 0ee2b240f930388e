-- ===== src/Client/Twice.antt =====
-- A request whose write is under way when the client is reset: src/client.c and src/network.c.
use libpomelo.Common.{ℕ, Bool, false, not, some, List, [], ◌∷◌, ◌++◌, if◌then◌else◌, map}
use libpomelo.Common.Outcome.{ok, ◌>>=◌}
use libpomelo.Client.{tp_closed, Timer, Request, Call, request_done, Client, call}
use libpomelo.Common.{◌≡◌, sym, ◌∙◌, ap, inl, inr, Bool-cases}
use libpomelo.HashMap.{map_del}
use libpomelo.Client.Requests.{reads_working, on_request}
use libpomelo.Client.Linked.{IsLinked}
use libpomelo.HashMap.View.{IsMap, view, index}
use libpomelo.HashMap.{Pair, find}
use libpomelo.Common.{suc, zero, get_or, append_assoc}
use libpomelo.Common.Bytes.{same_str}
use libpomelo.Client.Drops.{if-then, if-else}
use libpomelo.Client.Reset.{reset-effects}
use libpomelo.Client.Stop.{reconnect_reset, failed_request}
use libpomelo.Common.{flatten}
use mathlib.Core.List.{map-append}

-- An element with what is before and behind it.
abbrev Has : {A : Type 0} → A → List A → Type 0
Has {A = A} x l = (before after : List A) × (l ≡ before ++ x ∷ after)

Has-left : {A : Type 0} (x : A) (l m : List A) → Has x l → Has x (l ++ m)
Has-left x l m (b, a, e) = (b, a ++ m, ap (λ z. z ++ m) e ∙ append_assoc b (x ∷ a) m)

Has-right : {A : Type 0} (x : A) (l m : List A) → Has x m → Has x (l ++ m)
Has-right x l m (b, a, e) = (l ++ b, a, ap (λ z. l ++ z) e ∙ sym (append_assoc l b (x ∷ a)))

find-Has :
    (k : List ℕ) (r : Request) (es : List (Pair Request))
    → find k es ≡ some r
    → Has (request_done r.id false) (map failed_request es)
unfolding find
find-Has k r [] e = cc
find-Has k r (p ∷ es) e = elim (Bool-cases (same_str k p.key)) [
  | inl same ↦
      let found : some p.value ≡ some r = sym (if-then _ _ _ same) ∙ e in
      (
        [],
        map failed_request es,
        let same_value : p.value ≡ r = cc found in
            ap (λ (q : Request). request_done q.id false ∷ map failed_request es) same_value,
      )
  | inr other ↦
      let (b, a, h) = find-Has k r es (sym (if-else _ _ _ other) ∙ e) in
      (failed_request p ∷ b, a, ap (λ z. failed_request p ∷ z) h)
]

Has-map :
    (r : Request) (qs : List (List (Pair Request))) (i : ℕ)
    → Has (request_done r.id false) (map failed_request (get_or qs i []))
    → Has (request_done r.id false) (map failed_request (flatten qs))
unfolding flatten
Has-map r [] i h = h
Has-map r (q ∷ qs) zero h =
    let (b, a, e) = Has-left _ _ (map failed_request (flatten qs)) h in
    (b, a, map-append failed_request q (flatten qs) ∙ e)
Has-map r (q ∷ qs) (suc i) h =
    let (b, a, e) = Has-right _ (map failed_request q) _ (Has-map r qs i h) in
    (b, a, map-append failed_request q (flatten qs) ∙ e)

-- The failure of a write that was under way when the client was reset: libuv calls `pc__on_request` for it
-- behind the reset, which calls the callback of the request a second time.
module _ (signed_char : Bool) (print : ℕ → List ℕ) {J : Type 0} where
  on_request-off :
      (r : Request) (c : Client J)
      → c.transports r.transport ≡ tp_closed
      → on_request signed_char print false r c ≡ ok (call (request_done r.id false) c)
  unfolding on_request
  on_request-off r c off =
      ap
        (λ s. reads_working s >>= (λ works.
          if not works
          then ok (call (request_done r.id false) c)
          else map_del signed_char c.requests (print r.id)
            >>= (λ (m, old). ok (call (request_done r.id false) (record c { requests = m })))))
        off

  -- If a client is reset while the write of a request that waits for its answer is under way, the
  -- request gets its callback twice, with a failure each time: once from the reset, and once when
  -- libuv calls `pc__on_request` for the write.
  pub request_done-twice :
      (c : Client J) (t : Timer) (r : Request)
      → IsLinked c
      → IsMap c.requests
      → c.timeout_timer ≡ some t
      → c.transport ≡ some r.transport
      → view signed_char c.requests (print r.id) ≡ some r
      → (c₁ : Client J) × ((reconnect_reset c >>= on_request signed_char print false r) ≡ ok c₁)
        × (before between : List Call) × (c₁.calls
            ≡ before ++ request_done r.id false ∷ between ++ request_done r.id false ∷ [])
  unfolding view
  request_done-twice c t r h v timer own waits =
      let (c₁, reset, called, gone, new, alone, silent, off) =
        reset-effects signed_char c t h v timer in
      let i : ℕ = index signed_char c.requests (print r.id) in
      let (b, a, e) =
        Has-map r c.requests.buckets i
          (find-Has (print r.id) r (get_or c.requests.buckets i []) waits) in
      (
        call (request_done r.id false) c₁,
        ap (λ m. m >>= on_request signed_char print false r) reset
            ∙ on_request-off r c₁ (off r.transport own),
        c.calls ++ b,
        a,
        ap (λ z. z ++ request_done r.id false ∷ [])
            (called
              ∙ ap (λ z. c.calls ++ z) e
              ∙ sym (append_assoc c.calls b (request_done r.id false ∷ a))),
      )
