-- ===== src/Client/Failures.antt =====
-- The ways in which an attempt to connect again fails: src/client.c and src/network.c.
use libpomelo.Common.{ℕ, true, false, Option, none, some, List, [], ◌∷◌}
use libpomelo.Common.Outcome.{Outcome, ok, ◌>>=◌}
use libpomelo.Client.{TpState, tp_working, reconnected_cb, Client, put}
use libpomelo.Client.Linked.{put_not_working}
use libpomelo.Client.Connect.{on_tcp_connect, reconnect_timer_cb, handshake_req}
use libpomelo.Common.{==_true, eq_or_ne, ==_false}
use libpomelo.Client.Connect.{Asking, Writing, Connecting, ask_with}
use libpomelo.Common.{◌≡◌, ◌≢◌, refl, ap, inl, inr}
use libpomelo.Client.Connect.{reconnect_timer_cb}
use libpomelo.Client.Connect.{on_tcp_connect}

-- Where an attempt ends: the host has no address, a call of `pc_connect` fails, or `pc__on_tcp_connect` is
-- called with a failure, cannot read, or cannot make the request for the handshake.
pub data Failure : Type 0 where
  unresolved no_request no_pointers no_socket no_init no_start : Failure
  unconnected unread unasked : Failure

abbrev pub all_fine : Connecting
all_fine = record {
  connect_req = true;
  pointers = true;
  transport_memory = true;
  socket_memory = true;
  tcp_init = true;
  tcp_connect = true;
}

-- What the calls of the system give in an attempt.
abbrev pub env_of : Failure → Connecting
env_of no_request = record all_fine { connect_req = false }
env_of no_pointers = record all_fine { pointers = false }
env_of no_socket = record all_fine { socket_memory = false }
env_of no_init = record all_fine { tcp_init = false }
env_of no_start = record all_fine { tcp_connect = false }
env_of _ = all_fine

module _ {J : Type 0} where
  -- Where the text of the request cannot be made.
  abbrev pub undumped : Asking J → Asking J
  undumped ask = record ask { dumps = λ v. none }

  unasked_with :
      (ask : Asking J) (env : Writing) (body sys : Option J) (c : Client J)
      → (version : Option J) × (ask_with (undumped ask) env body sys c
          ≡ ok (record c { proto_ver = version }, false))
  unasked_with ask env none sys c = (c.proto_ver, refl)
  unasked_with ask env (some body) none c = (c.proto_ver, refl)
  unasked_with ask env (some body) (some sys) c = (_, refl)

  pub unasked_lem :
      (ask : Asking J) (env : Writing) (c : Client J)
      → (version : Option J) × (handshake_req (undumped ask) env c
          ≡ ok (record c { proto_ver = version }, false))
  unfolding handshake_req
  unasked_lem ask env c = unasked_with ask env ask.body ask.sys c

module _ (rand : ℕ → ℕ) {J : Type 0} where
  -- The timer runs out, and what it starts fails so.
  abbrev pub attempt : Failure → Asking J → Writing → Client J → Outcome (Client J)
  attempt unresolved ask env c = reconnect_timer_cb rand false all_fine c
  attempt unconnected ask env c =
      reconnect_timer_cb rand true all_fine c
      >>= on_tcp_connect rand c.next_transport reconnected_cb false true ask env
  attempt unread ask env c =
      reconnect_timer_cb rand true all_fine c
      >>= on_tcp_connect rand c.next_transport reconnected_cb true false ask env
  attempt unasked ask env c =
      reconnect_timer_cb rand true all_fine c
      >>= on_tcp_connect rand c.next_transport reconnected_cb true true (undumped ask) env
  attempt f ask env c = reconnect_timer_cb rand true (env_of f) c

  unfoldable pub attempts : List (Failure × Asking J × Writing) → Client J → Outcome (Client J)
  attempts [] c = ok c
  attempts ((f, ask, env) ∷ fs) c = attempt f ask env c >>= attempts fs

pub at_put : (ts : ℕ → TpState) (i : ℕ) (s : TpState) → put ts i s i ≡ s
at_put ts i s = rw (==_true i i refl)

pub put-silent :
    (ts : ℕ → TpState) (i : ℕ) (s : TpState)
    → s ≢ tp_working
    → ((j : ℕ) → ts j ≢ tp_working)
    → (j : ℕ) → put ts i s j ≢ tp_working
put-silent ts i s ne silent j w = silent j (put_not_working ts i j s ne w).1

pub put-own :
    (ts : ℕ → TpState) (i : ℕ)
    → ((j : ℕ) → ts j ≢ tp_working)
    → (j : ℕ) → put ts i tp_working j ≡ tp_working
    → some i ≡ some j
put-own ts i silent j w = elim (eq_or_ne i j) [
  | inl same ↦ ap some same
  | inr ne ↦ absurd (silent j (rw (==_false i j ne) at w))
]
