-- ===== src/Client/Steps.antt =====
-- The client as a state machine: everything that the user, the loop and the worker thread call on it,
-- one call for each step, in any order that libuv allows.
use libpomelo.Common.{ℕ, Bool, Option, none, some, List}
use libpomelo.Common.Outcome.{Outcome, ok}
use libpomelo.Client.{tp_connecting, tp_closed, tp_freed, ConnCb, armed, Request, Client}
use libpomelo.Client.Stop.{client_stop}
use libpomelo.Client.Connect.{Asking, Writing, Connecting, connect}
use libpomelo.Common.{◌≡◌, ◌≢◌, subst, inl, inr}
use libpomelo.Protobuf.Encode.{Jansson}
use libpomelo.Protobuf.Decode.{Builder, Printer}
use libpomelo.Client.Connect.{reconnect_timer_cb}
use libpomelo.Client.Handshake.{
  client_disconnect, handshake_req_cb, handshake_ack_cb, handshake_timeout_cb, heartbeat_cb,
  timeout_cb, close_async_cb, heartbeat_req_cb,
}
use libpomelo.Client.Requests.{Sending, run_request, on_request, run_notify, on_notify}
use libpomelo.Client.Dispatch.{Msg, tp_on_tcp_read}
use libpomelo.Client.Linked.{Holds, Holds-if, IsLinked, client_stop-IsLinked}
use libpomelo.Client.Answers.{on_request-IsLinked, on_notify-IsLinked}
use libpomelo.Client.Reads.{run_request-IsLinked, run_notify-IsLinked, tp_on_tcp_read-IsLinked}
use libpomelo.Client.Callbacks.{
  disconnect-IsLinked, handshake_req_cb-IsLinked, handshake_ack_cb-IsLinked, heartbeat_cb-IsLinked,
  reconnect_timer_cb-IsLinked, stopping-IsLinked,
}
use libpomelo.Client.Connect.{on_tcp_connect, tcp_close_cb, worker_done}
use libpomelo.Client.Kept.{put-Linked, Fst, connect-IsLinked}
use libpomelo.Client.Started.{on_tcp_connect-IsLinked}

pub held : {A : Type 0} (P : A → Type 0) {m : Outcome A} {x : A} → m ≡ ok x → Holds P m → P x
held P e h = subst (Holds P) e h

module _ (rand : ℕ → ℕ) {J : Type 0} where
  heartbeat_req_cb-IsLinked :
      (status : Bool) (c : Client J) → IsLinked c → Holds IsLinked (heartbeat_req_cb rand status c)
  unfolding heartbeat_req_cb
  heartbeat_req_cb-IsLinked status c h = Holds-if IsLinked status _ _ h tt

module _ {J : Type 0} where
  released-IsLinked :
      (i : ℕ) (c : Client J) → c.transports i ≡ tp_closed → IsLinked c → IsLinked (tcp_close_cb i c)
  released-IsLinked i c p h =
      put-Linked c.state c.transport c.transports i tp_freed (λ q. cc)
        (λ e. elim (h.live i e) [ inl w ↦ cc | inr w ↦ cc ]) h

  worker_done-IsLinked : (c : Client J) → c.transport ≡ none → IsLinked c → IsLinked (worker_done c)
  worker_done-IsLinked c p h = record {
    live = h.live;
    only = h.only;
    apart = λ q. p;
    fresh = λ q. absurd cc;
    opened = λ q. absurd cc;
  }

module _ (malloc : ℕ → Bool) (signed_char : Bool) (rand : ℕ → ℕ) (fuel : ℕ) {J : Type 0}
    (json : Jansson J) (integer_value : J → ℕ) (build : Builder J) (printer : Printer)
    (reload : Option J → Option J) (accept : Option J → Bool) (json_loadb : List ℕ → Option J)
    (parse_msg : Client J → List ℕ → Outcome (Option Msg))
    (encode_msg : ℕ → List ℕ → Outcome (List ℕ)) where
  -- A call that is defined takes c to c'. The callback of a connection comes once for a transport that
  -- is connecting, so that transport is not the client's yet; the reconnection timer runs out where it
  -- was armed; the memory of a transport is released behind its close; and the loop ends where the client
  -- has no transport left.
  pub data Step (c c' : Client J) : Type 0 where
    connects :
        (env : Connecting) (valid : Bool) (opts : Option J) (cb : ConnCb) (done : Bool)
        → connect env valid opts cb c ≡ ok (c', done)
        → Step c c'
    disconnects : client_disconnect c ≡ ok c' → Step c c'
    stops : client_stop rand c ≡ ok c' → Step c c'
    closes : close_async_cb rand c ≡ ok c' → Step c c'
    connected_to :
        (i : ℕ) (cb : ConnCb) (status reading : Bool) (ask : Asking J) (env : Writing)
        → c.transports i ≡ tp_connecting
        → c.transport ≢ some i
        → on_tcp_connect rand i cb status reading ask env c ≡ ok c'
        → Step c c'
    handshake_written :
        (i : ℕ) (status : Bool) → handshake_req_cb rand i status c ≡ ok c' → Step c c'
    confirmed : (i : ℕ) (status : Bool) → handshake_ack_cb rand i status c ≡ ok c' → Step c c'
    handshake_late : handshake_timeout_cb rand c ≡ ok c' → Step c c'
    beats : (memory : Bool) (env : Writing) → heartbeat_cb rand memory env c ≡ ok c' → Step c c'
    beat_written : (status : Bool) → heartbeat_req_cb rand status c ≡ ok c' → Step c c'
    beat_late : timeout_cb rand c ≡ ok c' → Step c c'
    tries_again :
        (found : Bool) (env : Connecting)
        → c.reconnect_timer ≡ armed
        → reconnect_timer_cb rand found env c ≡ ok c'
        → Step c c'
    reads :
        (memory : Bool) (env : Writing) (i : ℕ) (nread : Option (List ℕ))
        → tp_on_tcp_read malloc signed_char rand json integer_value build printer reload accept
            json_loadb parse_msg memory env i nread c
          ≡ ok c'
        → Step c c'
    requests :
        (env : Sending) (status : Bool) (r : Request)
        → run_request malloc signed_char printer.decimal fuel encode_msg env status r c ≡ ok c'
        → Step c c'
    request_written :
        (status : Bool) (r : Request)
        → on_request signed_char printer.decimal status r c ≡ ok c'
        → Step c c'
    notifies :
        (env : Sending) (status : Bool) (r : Request)
        → run_notify malloc encode_msg env status r c ≡ ok c'
        → Step c c'
    notify_written : (status : Bool) (r : Request) → on_notify status r c ≡ ok c' → Step c c'
    released : (i : ℕ) → c.transports i ≡ tp_closed → c' ≡ tcp_close_cb i c → Step c c'
    ends : c.transport ≡ none → c' ≡ worker_done c → Step c c'

  pub data Reach (c : Client J) : Client J → Type 0 where
    start : Reach c c
    next : {c₁ c₂ : Client J} → Reach c c₁ → Step c₁ c₂ → Reach c c₂

  step-IsLinked : (c c' : Client J) → Step c c' → IsLinked c → IsLinked c'
  step-IsLinked c c' (connects env valid opts cb done e) h =
      held Fst e (connect-IsLinked env valid opts cb c h)
  step-IsLinked c c' (disconnects e) h = held IsLinked e (disconnect-IsLinked c h)
  step-IsLinked c c' (stops e) h = held IsLinked e (client_stop-IsLinked rand c h)
  step-IsLinked c c' (closes e) h = held IsLinked e (stopping-IsLinked rand c h).2
  step-IsLinked c c' (connected_to i cb status reading ask env p o e) h =
      held IsLinked e (on_tcp_connect-IsLinked rand i cb status reading ask env c p o h)
  step-IsLinked c c' (handshake_written i status e) h =
      held IsLinked e (handshake_req_cb-IsLinked rand i status c h)
  step-IsLinked c c' (confirmed i status e) h =
      held IsLinked e (handshake_ack_cb-IsLinked rand i status c h)
  step-IsLinked c c' (handshake_late e) h = held IsLinked e (stopping-IsLinked rand c h).1
  step-IsLinked c c' (beats memory env e) h =
      held IsLinked e (heartbeat_cb-IsLinked rand memory env c h)
  step-IsLinked c c' (beat_written status e) h =
      held IsLinked e (heartbeat_req_cb-IsLinked rand status c h)
  step-IsLinked c c' (beat_late e) h = held IsLinked e (stopping-IsLinked rand c h).0
  step-IsLinked c c' (tries_again found env p e) h =
      held IsLinked e (reconnect_timer_cb-IsLinked rand found env c h)
  step-IsLinked c c' (reads memory env i nread e) h = held IsLinked e (
      tp_on_tcp_read-IsLinked malloc signed_char rand json integer_value build printer reload accept
        json_loadb parse_msg memory env i nread c h)
  step-IsLinked c c' (requests env status r e) h =
      held IsLinked e
        (run_request-IsLinked malloc signed_char printer.decimal fuel encode_msg env status r c h)
  step-IsLinked c c' (request_written status r e) h =
      held IsLinked e (on_request-IsLinked signed_char printer.decimal status r c h)
  step-IsLinked c c' (notifies env status r e) h =
      held IsLinked e
        (run_notify-IsLinked malloc signed_char printer.decimal fuel encode_msg env status r c h)
  step-IsLinked c c' (notify_written status r e) h =
      held IsLinked e (on_notify-IsLinked signed_char printer.decimal status r c h)
  step-IsLinked c c' (released i p e) h = rw e (released-IsLinked i c p h)
  step-IsLinked c c' (ends p e) h = rw e (worker_done-IsLinked c p h)

  -- In every state that a client reaches from one that is linked, a new one for instance, by steps in any
  -- order, each a call that is defined: the transport of the client is connecting or works and no other
  -- transport works, a client that is new or closed has no transport, none works while it connects, and a
  -- client that is connected or working has one that works.
  pub Reach-IsLinked : (c c' : Client J) → Reach c c' → IsLinked c → IsLinked c'
  Reach-IsLinked c c' start h = h
  Reach-IsLinked c c' (next {c₁ = c₁} path s) h = step-IsLinked c₁ c' s (Reach-IsLinked c c₁ path h)
