-- ===== src/Client/Requests.antt =====
-- src/network.c and src/protocol.c: requests and notifications from the call of the user to the
-- callback, and the answers of the server. `encode_msg` is the callback of this name in the client,
-- for a message that the request carries; `print` prints a number for "%u".
use libpomelo.Common.{
  ℕ, ◌+◌, ◌%◌, ◌^◌, Bool, true, false, not, ◌&&◌, Option, none, some, List, if◌then◌else◌,
}
use libpomelo.Common.Outcome.{Outcome, ok, err, stuck, fault, ◌>>=◌}
use libpomelo.Client.{TpState, tp_freed, Request, request_done, notify_done, Client, call}
use libpomelo.HashMap.{Map, map_set, map_get, map_del}
use libpomelo.Package.{pkg_encode}
use libpomelo.Client.Connect.{write_at}
use libpomelo.Client.Handshake.{is_tp_working, is_working}

-- `++pc__req_id`, a `uint32_t`.
abbrev pub next_id : ℕ → ℕ
next_id last = (last + 1) % 2 ^ 32

-- `transport->state` must not be read once the transport was released.
abbrev pub reads_working : TpState → Outcome Bool
reads_working tp_freed = fault
reads_working s = ok (is_tp_working s)

module _ {J : Type 0} where
  -- `pc__async_write` of a request with a number; `queued` says that its allocations and the calls
  -- of libuv succeed. The request that waits for the loop, if it returns 0.
  abbrev pub async_at : Option ℕ → Bool → ℕ → List ℕ → Client J → Outcome (Option Request)
  async_at none queued id route c = ok none
  async_at (some i) queued id route c = reads_working (c.transports i) >>= (λ works.
      ok
        (if works && queued then some (record { id = id; route = route; transport = i }) else none))

  -- `pc_request`: the last number that was used, and the request.
  unfoldable pub request : Bool → ℕ → List ℕ → Client J → Outcome (ℕ × Option Request)
  request queued last route c =
      if is_working c.state
      then async_at c.transport queued (next_id last) route c >>= (λ r. ok (next_id last, r))
      else ok (last, none)

  -- `pc_notify`; a notification has no number.
  unfoldable pub notify : Bool → List ℕ → Client J → Outcome (Option Request)
  notify queued route c =
      if is_working c.state then async_at c.transport queued 0 route c else ok none

-- What the calls in `pc__request` give: its two allocations and `uv_write`.
pub record Sending : Type 0 where
  pub write_req : Bool
  pub context : Bool
  pub write : Bool

module _ {J : Type 0} where
  -- The write of what `pc_pkg_encode` gave, whose failure is not found: the code tests the message again,
  -- and when it has its memory it writes a package of the length -1 at NULL.
  abbrev pub packed : Option (List ℕ) → Outcome (Client J) → Outcome (Client J)
  packed none rest = fault
  packed (some bytes) rest = rest

  -- `pc__on_notify`
  unfoldable pub on_notify : Bool → Request → Client J → Outcome (Client J)
  on_notify status r c =
      reads_working (c.transports r.transport)
      >>= (λ works. ok (call (notify_done (works && status)) c))

module _ (signed_char : Bool) (print : ℕ → List ℕ) {J : Type 0} where
  -- `pc__on_request`, when its package was written or was not.
  unfoldable pub on_request : Bool → Request → Client J → Outcome (Client J)
  on_request status r c = reads_working (c.transports r.transport) >>= (λ works.
      if not works
      then ok (call (request_done r.id false) c)
      else if status
      then ok c
      else map_del signed_char c.requests (print r.id)
        >>= (λ (m, old). ok (call (request_done r.id false) (record c { requests = m }))))

  -- `pc__process_response`
  abbrev pub respond_at : ℕ → Client J → Option Request → Outcome (Client J)
  respond_at id c none = ok c
  respond_at id c (some r) =
      map_del signed_char c.requests (print id)
      >>= (λ (m, old). ok (call (request_done r.id true) (record c { requests = m })))

  unfoldable pub process_response : ℕ → Client J → Outcome (Client J)
  process_response id c = map_get signed_char c.requests (print id) >>= respond_at id c

module _ (malloc : ℕ → Bool) (signed_char : Bool) (print : ℕ → List ℕ) (fuel : ℕ) {J : Type 0} where
  -- `pc_map_set(client->requests, …)`, of which the result is not read.
  abbrev pub recorded : Client J → Outcome (Map Request) → Outcome (Client J)
  recorded c (ok requests) = ok (record c { requests = requests })
  recorded c err = ok c
  recorded c fault = fault
  recorded c stuck = stuck

  abbrev pub record_request : Request → Client J → Outcome (Client J)
  record_request r c =
      recorded c (map_set malloc signed_char fuel c.requests (print r.id) r >>= (λ (m, old). ok m))

  -- `pc__request`, with the message that `encode_msg` gave.
  abbrev pub send_request : Sending → Request → Client J → Outcome (List ℕ) → Outcome (Client J)
  send_request env r c err = ok (call (request_done r.id false) c)
  send_request env r c fault = fault
  send_request env r c stuck = stuck
  send_request env r c (ok msg) =
      if env.write_req && env.context
      then packed (pkg_encode malloc 4 msg) (
          write_at c.transport (record { req = true; attach = true; write = env.write }) 4 c
          >>= (λ (c₁, done).
              if done then record_request r c₁ else ok (call (request_done r.id false) c₁)))
      else ok (call (request_done r.id false) c)

  -- `pc__request`, run by the loop. On a transport that does not work the callback gets the status of
  -- the loop, which is 0.
  unfoldable pub run_request :
      (ℕ → List ℕ → Outcome (List ℕ)) → Sending → Bool → Request → Client J → Outcome (Client J)
  run_request encode_msg env status r c =
      if not status
      then ok (call (request_done r.id false) c)
      else reads_working (c.transports r.transport) >>= (λ works.
        if works
        then send_request env r c (encode_msg r.id r.route)
        else ok (call (request_done r.id true) c))

module _ (malloc : ℕ → Bool) {J : Type 0} where
  -- `pc__notify`
  abbrev pub send_notify : Sending → Client J → Outcome (List ℕ) → Outcome (Client J)
  send_notify env c err = ok (call (notify_done false) c)
  send_notify env c fault = fault
  send_notify env c stuck = stuck
  send_notify env c (ok msg) =
      if env.write_req && env.context
      then packed (pkg_encode malloc 4 msg) (
          write_at c.transport (record { req = true; attach = true; write = env.write }) 4 c
          >>= (λ (c₁, done). if done then ok c₁ else ok (call (notify_done false) c₁)))
      else ok (call (notify_done false) c)

  unfoldable pub run_notify :
      (ℕ → List ℕ → Outcome (List ℕ)) → Sending → Bool → Request → Client J → Outcome (Client J)
  run_notify encode_msg env status r c =
      if not status
      then ok (call (notify_done false) c)
      else reads_working (c.transports r.transport) >>= (λ works.
        if works then send_notify env c (encode_msg 0 r.route) else ok (call (notify_done true) c))
