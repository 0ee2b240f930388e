-- ===== src/Life/Made.antt =====
-- The clients that src/client.c makes: `pc_client_new` and `pc_client_new_with_reconnect`.
use libpomelo.Common.{
  Option, List, ℕ, ◌≡◌, refl, sym, subst, ap, ◌∙◌, Bool, true, false, ◌&&◌, none, some, [],
}
use libpomelo.Common.Outcome.{Outcome, ok, err, fault, stuck, ◌>>=◌, checked}
use libpomelo.HashMap.{Map, map_new, map_init}
use libpomelo.HashMap.View.{IsMap, view}
use libpomelo.HashMap.Whole.{map_init-view}
use libpomelo.Client.{Request, Client}
use libpomelo.Client.Linked.{Holds-defined, Holds, IsLinked}
use libpomelo.Client.Steps.{held}
use libpomelo.Listeners.{Listeners, called_at}
use libpomelo.Listeners.Heard.{IsListeners, heard}
use libpomelo.Life.{Making, fresh_client, init_with, client_init, client_new}

pub Holds-eq :
    {A B : Type 0} (Q : B → Type 0) (m : Outcome A) (f : A → Outcome B)
    → ((a : A) → m ≡ ok a → Holds Q (f a))
    → Holds Q (m >>= f)
Holds-eq Q (ok a) f h = h a refl
Holds-eq Q err f h = tt
Holds-eq Q fault f h = tt
Holds-eq Q stuck f h = tt

Holds-checked :
    {A : Type 0} (Q : A → Type 0) (b : Bool) (m : Outcome A) → Holds Q m → Holds Q (checked b m)
Holds-checked Q true m h = h
Holds-checked Q false m h = tt

-- `pc_map_new` makes a map without keys.
abbrev IsEmpty {ℓ} : {V : Type ℓ} → Bool → Map V → Type ℓ
IsEmpty signed_char m = IsMap m × ((k : List ℕ) → view signed_char m k ≡ none)

map_new-IsEmpty :
    {V : Type 0} (signed_char : Bool) (malloc : ℕ → Bool) (n : ℕ) (m : Map V)
    → map_new malloc n ≡ ok m
    → IsEmpty signed_char m
unfolding map_new
map_new-IsEmpty {V} signed_char malloc n m e = granted_map (malloc 24) e
  where
    granted_map : (b : Bool) → checked b (map_init {V = V} malloc n) ≡ ok m → IsEmpty signed_char m
    granted_map true q =
        let (is_map, big, bigger, reads) = map_init-view malloc signed_char n m q in (is_map, reads)
    granted_map false q = cc

-- A client with a map without requests and listeners for no event, and all else as at the start.
pub record IsMade {J : Type 0} (signed_char : Bool) (made : Client J × Listeners) : Type 0 where
  pub files : List ℕ → Option J
  pub requests : Map Request
  pub new : made.0 ≡ fresh_client files requests
  pub is_map : IsMap requests
  pub unasked : (k : List ℕ) → view signed_char requests k ≡ none
  pub listeners : IsListeners signed_char made.1
  pub unheard : (event : List ℕ) → heard signed_char made.1 event ≡ []

new_listeners : Map ℕ → Listeners
new_listeners events = record { map = events; heads = λ h. []; next_head = 0 }

new_listeners-IsListeners :
    (signed_char : Bool) (events : Map ℕ)
    → IsEmpty signed_char events
    → IsListeners signed_char (new_listeners events)
unfolding new_listeners
new_listeners-IsListeners signed_char events (e, empty) = record {
  is_map = e;
  own = λ k j h q p. let none_there : none ≡ some h = sym (empty k) ∙ q in cc;
  made = λ k h q. let none_there : none ≡ some h = sym (empty k) ∙ q in cc;
}

module _ (signed_char : Bool) (J : Type 0) where
  init_with-IsMade :
      (files : List ℕ → Option J) (env : Making) (events : Map ℕ) (requests : Map Request)
      → IsEmpty signed_char events
      → IsEmpty signed_char requests
      → Holds (IsMade {J = J} signed_char) (init_with files env events requests)
  unfolding new_listeners
  init_with-IsMade files env events requests e r = Holds-checked _ env.parser _ (
      Holds-checked _ (env.heartbeat_memory && env.heartbeat_init) _ (
        Holds-checked _ (env.timeout_memory && env.timeout_init) _ (
          Holds-defined _ env.handshake_memory _ (
            Holds-checked _ env.handshake_init _ (
              Holds-defined _ env.async_memory _ (record {
                files = files;
                requests = requests;
                new = refl;
                is_map = r.0;
                unasked = r.1;
                listeners = new_listeners-IsListeners signed_char events e;
                unheard = λ event. ap (called_at signed_char (new_listeners events)) (e.1 event);
              }))))))

  client_new-Holds :
      (malloc : ℕ → Bool) (files : List ℕ → Option J) (env : Making)
      → Holds (IsMade {J = J} signed_char) (client_new malloc files env)
  unfolding client_new client_init
  client_new-Holds malloc files env = Holds-checked _ env.memory _ (
      Holds-checked _ env.loop _ (
        Holds-eq _ (map_new malloc 256) _ (λ events e.
          Holds-eq _ (map_new malloc 256) _ (λ requests r.
            init_with-IsMade files env events requests
              (map_new-IsEmpty signed_char malloc 256 events e)
              (map_new-IsEmpty signed_char malloc 256 requests r)))))

module _ (signed_char : Bool) {J : Type 0} where
  -- What `pc_client_new` makes.
  pub client_new-IsMade :
      (malloc : ℕ → Bool) (files : List ℕ → Option J) (env : Making) (made : Client J × Listeners)
      → client_new malloc files env ≡ ok made
      → IsMade signed_char made
  client_new-IsMade malloc files env made e =
      held (IsMade signed_char) e (client_new-Holds signed_char J malloc files env)

pub fresh-IsLinked :
    (J : Type 0) (files : List ℕ → Option J) (requests : Map Request)
    → IsLinked (fresh_client files requests)
fresh-IsLinked J files requests = record {
  live = λ i e. absurd cc;
  only = λ i e. absurd cc;
  apart = λ e. refl;
  fresh = λ e i w. cc;
  opened = λ e. absurd cc;
}

pub made-IsLinked :
    {J : Type 0} (signed_char : Bool) (made : Client J × Listeners)
    → IsMade signed_char made
    → IsLinked made.0
made-IsLinked {J} signed_char made h =
    subst IsLinked (sym h.new) (fresh-IsLinked J h.files h.requests)
