-- ===== src/Client/Drops.antt =====
-- What `pc_client_stop` and `pc__client_reconnect_reset` do with the transport of the client.
use libpomelo.Common.{ℕ, Bool, true, false, Option, none, some, if◌then◌else◌}
use libpomelo.Common.Outcome.{ok, ◌>>=◌}
use libpomelo.Client.{TpState, tp_connecting, tp_working, tp_closed, Client, put}
use libpomelo.Common.{==_true}
use libpomelo.Client.Linked.{put_not_working}
use libpomelo.Client.Stop.{drop_at, drop_transport, destroy_at}
use libpomelo.Client.Stop.{transport_destroy}
use libpomelo.Common.{◌≡◌, ◌≢◌, refl, ap, ◌⊎◌, inl, inr}

pub if-else : {A : Type 0} (b : Bool) (m m' : A) → b ≡ false → (if b then m else m') ≡ m'
if-else b m m' e = rw e refl

pub if-then : {A : Type 0} (b : Bool) (m m' : A) → b ≡ true → (if b then m else m') ≡ m
if-then b m m' e = rw e refl

module _ {J : Type 0} where
  -- The client without its transport, with the states that its transports have then.
  abbrev pub detached : (ℕ → TpState) → Client J → Client J
  detached ts c = record c { transport = none; transports = ts }

  drop_at-ok :
      (t : Option ℕ) (c : Client J)
      → c.transport ≡ t
      → ((i : ℕ) → t ≡ some i → (c.transports i ≡ tp_working) ⊎ (c.transports i ≡ tp_connecting))
      → ((i : ℕ) → c.transports i ≡ tp_working → t ≡ some i)
      → (ts : ℕ → TpState) × (drop_at t c ≡ ok (detached ts c))
        × ((i : ℕ) → ts i ≢ tp_working)
        × ((i : ℕ) → t ≡ some i → ts i ≡ tp_closed)
  unfolding transport_destroy
  drop_at-ok none c e live only = (
    c.transports,
    ap (λ t. ok (record c { transport = t })) e,
    λ i w. let q : none ≡ some i = only i w in cc,
    λ i q. cc,
  )
  drop_at-ok (some i) c e live only = (
    put c.transports i tp_closed,
    elim (live i refl) [
      | inl w ↦ ap (λ s. destroy_at s i c >>= (λ c₁. ok (record c₁ { transport = none }))) w
      | inr w ↦ ap (λ s. destroy_at s i c >>= (λ c₁. ok (record c₁ { transport = none }))) w
    ],
    λ j w.
        let (other, works) = put_not_working c.transports i j tp_closed (λ q. cc) w in
        let same : some i ≡ some j = only j works in other (cc same),
    λ j q. rw (==_true i j (cc q)),
  )

  -- A transport that is connecting or works can be dropped, and if no other works then none does.
  pub drop_transport-ok :
      (c : Client J)
      → ((i : ℕ)
          → c.transport ≡ some i
          → (c.transports i ≡ tp_working) ⊎ (c.transports i ≡ tp_connecting))
      → ((i : ℕ) → c.transports i ≡ tp_working → c.transport ≡ some i)
      → (ts : ℕ → TpState) × (drop_transport c ≡ ok (detached ts c))
        × ((i : ℕ) → ts i ≢ tp_working)
        × ((i : ℕ) → c.transport ≡ some i → ts i ≡ tp_closed)
  unfolding drop_transport
  drop_transport-ok c live only = drop_at-ok c.transport c refl live only
