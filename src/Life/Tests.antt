-- ===== src/Life/Tests.antt =====
-- Runs of the life of a client, and the theorems at concrete inputs.
use libpomelo.Common.{
  Option, List, ℕ, ◌+◌, ◌*◌, ◌^◌, ◌<◌, ◌≤◌, ◌≡◌, ◌≢◌, refl, subst, ap, ◌∙◌, true, false, none, some,
  [], ◌∷◌, ◌++◌, replicate, arith, flatten, map,
}
use libpomelo.Common.Outcome.{Outcome, ok, err, fault, ◌>>=◌}
use libpomelo.HashMap.{map_new, map_init}
use libpomelo.Package.{pkg_encode}
use libpomelo.Protobuf.Sample.{Value, values, number, built, digits}
use libpomelo.Reconnect.{client_reconnect}
use libpomelo.Client.{
  connecting, connected, working, closed, tp_inited, connected_cb, tp_working, tp_connecting, put,
  armed, emitted, disconnect, woken, sent, Client,
}
use libpomelo.Client.Connect.{connect, transport_new, on_tcp_connect, handshake_req, binary_write}
use libpomelo.Client.Facts.{
  working_client-IsLinked, delays-IsBackoff, asking_client, asking_client-IsLinked, one_request,
  one_request-IsMap,
}
use libpomelo.Client.Handshake.{handshake_ack_cb, is_working}
use libpomelo.Client.Linked.{IsLinked}
use libpomelo.Client.Sample.{
  greeting, plenty, dice, timer, no_requests, fine, writes, working_client,
}
use libpomelo.Client.Steps.{Reach, start, next, connected_to, confirmed}
use libpomelo.Client.Files.{load_file}
use libpomelo.Client.Stop.{client_stop, failed_request}
use libpomelo.Listeners.{Listeners}
use libpomelo.Life.Connects.{dns_resolve, first_inet, waited, client_connect}
use libpomelo.Life.{
  Making, fresh_client, client_init, client_new, client_new_with_reconnect, client_destroy,
  client_clear,
}
use libpomelo.Reconnect.Growth.{IsBackoff}
use libpomelo.Life.Doubles.{whole_floats, whole_floats-IsRounding}
use libpomelo.Life.Delays.{with_reconnect-delays}
use libpomelo.Life.Ended.{last_loop, client_destroy-ends}
use libpomelo.Life.Unsafe.{destroy-running}
use libpomelo.Life.Works.{client_connect-works}

abbrev no_files : List ℕ → Option Value
no_files path = none

abbrev granted : Making
granted = record {
  memory = true;
  loop = true;
  parser = true;
  heartbeat_memory = true;
  heartbeat_init = true;
  timeout_memory = true;
  timeout_init = true;
  handshake_memory = true;
  handshake_init = true;
  async_memory = true;
}

abbrev no_listeners : Listeners
no_listeners = record {
  map = record { capacity = 256; buckets = replicate 256 [] };
  heads = λ h. [];
  next_head = 0;
}

abbrev first_client : Client Value
first_client = fresh_client no_files no_requests

client_new_run : client_new plenty no_files granted ≡ ok (first_client, no_listeners)
unfolding client_new client_init map_new map_init
client_new_run = refl

-- Where the memory of a timer is refused: an abort, or a write through NULL.
refused_run :
    (client_new plenty no_files (record granted { timeout_memory = false }) ≡ err)
    × (client_new plenty no_files (record granted { handshake_memory = false }) ≡ fault)
unfolding client_new client_init map_new map_init
refused_run = (refl, refl)

abbrev null : Option (Client Value × Listeners)
null = none

-- -1 as an `int` is a bad argument.
bad_delay_run :
    client_new_with_reconnect plenty whole_floats no_files granted 4294967295 30 true ≡ ok null
unfolding client_new_with_reconnect client_new client_init map_new map_init
bad_delay_run = refl

dns_run :
    dns_resolve
      (some (
        record { family = 10; address = [] }
        ∷ record { family = 2; address = 127 ∷ 0 ∷ 0 ∷ 1 ∷ [] }
        ∷ []))
      3010
    ≡ some (record { port = 3010; host = 127 ∷ 0 ∷ 0 ∷ 1 ∷ [] })
unfolding first_inet
dns_run = refl

with_reconnect-delays_example :
    (c₁ : Client Value) × (client_new_with_reconnect plenty whole_floats no_files granted 2 30 true
      ≡ ok (some (c₁, no_listeners)))
    × IsLinked c₁
    × (c₁.enable_reconnect ≡ true)
    × IsBackoff c₁.backoff
    × ((rand n : ℕ)
        → n + 1 < 2 ^ 31
        → (ms : ℕ) × (client_reconnect rand (record c₁.backoff { reconnects = n })
            ≡ ok (record c₁.backoff { reconnecting = true; reconnects = n + 1 }, ms))
          × (1000 ≤ ms)
          × (ms < 2000 * 30))
with_reconnect-delays_example =
    with_reconnect-delays plenty true whole_floats no_files granted 2 30 true first_client
      no_listeners client_new_run (omega arith) (omega arith) (omega arith) (omega arith)
      whole_floats-IsRounding

-- The connection is made and the handshake is confirmed.
worker : Client Value → Outcome (Client Value)
worker c =
    on_tcp_connect dice 0 connected_cb true true greeting writes c >>= handshake_ack_cb dice 0 true

abbrev begun : Client Value
begun = record first_client {
  state = connecting;
  transports = put (put first_client.transports 0 tp_inited) 0 tp_connecting;
  next_transport = 1;
  conn_req = some connected_cb;
}

abbrev opened : Client Value
opened = record begun {
  state = connected;
  transport = some 0;
  transports = put begun.transports 0 tp_working;
  handshake_timer = some (record timer { active = true });
  calls = sent 1 ∷ [];
}

abbrev at_work : Client Value
at_work = record opened { state = working; conn_req = none; calls = sent 1 ∷ woken ∷ [] }

begun_run : connect fine true none connected_cb first_client ≡ ok (begun, true)
unfolding connect transport_new
begun_run = refl

opened_run : on_tcp_connect dice 0 connected_cb true true greeting writes begun ≡ ok opened
unfolding on_tcp_connect handshake_req binary_write pkg_encode load_file
opened_run = refl

at_work_run : handshake_ack_cb dice 0 true opened ≡ ok at_work
unfolding handshake_ack_cb
at_work_run = refl

worker_run : worker begun ≡ ok at_work
unfolding worker
worker_run = ap (λ m. m >>= handshake_ack_cb dice 0 true) opened_run ∙ at_work_run

client_connect_run : client_connect worker fine true first_client ≡ ok (at_work, true)
unfolding client_connect
client_connect_run =
    ap (λ m. m >>= waited worker) begun_run
    ∙ ap (λ m. m >>= (λ c₁. ok (c₁, is_working c₁.state))) worker_run

abbrev Leads : Client Value → Client Value → Type 0
Leads =
    Reach plenty true dice 5 values number built digits (λ v. v) (λ user. true) (λ text. none)
      (λ c body. ok none) (λ id route. ok (id ∷ []))

worker_path : Leads begun at_work
worker_path =
    next
      (next start (connected_to 0 connected_cb true true greeting writes refl (λ e. cc) opened_run))
      (confirmed 0 true at_work_run)

same_result : {A : Type 0} {m : Outcome A} {a b : A} → m ≡ ok a → m ≡ ok b → a ≡ b
same_result e q = cc

worker_ran :
    (c₁ c₂ : Client Value)
    → connect fine true none connected_cb first_client ≡ ok (c₁, true)
    → worker c₁ ≡ ok c₂
    → Leads c₁ c₂
worker_ran c₁ c₂ e w =
    let from : begun ≡ c₁ = ap (λ r. r.0) (same_result begun_run e) in
    let to : at_work ≡ c₂ = same_result worker_run (ap worker from ∙ w) in
    subst (λ c. Leads c c₂) from (subst (Leads begun) to worker_path)

client_connect-works_example :
    (at_work.state ≡ working)
    × (i : ℕ) × (at_work.transport ≡ some i)
    × (at_work.transports i ≡ tp_working)
client_connect-works_example =
    client_connect-works plenty true dice 5 values number built digits (λ v. v) (λ user. true)
      (λ text. none) (λ c body. ok none) (λ id route. ok (id ∷ [])) no_files granted fine true
      worker first_client at_work no_listeners client_new_run worker_ran client_connect_run

client_destroy-ends_example :
    (c₁ : Client Value) × (ls₁ : Listeners) × (client_destroy
        (last_loop dice)
        (asking_client, no_listeners)
      ≡ ok (c₁, ls₁))
    × (c₁.state ≡ closed)
    × (c₁.transport ≡ none)
    × ((i : ℕ) → c₁.transports i ≢ tp_working)
    × (c₁.calls
        ≡ asking_client.calls
          ++ emitted disconnect ∷ woken ∷ map failed_request (flatten one_request.buckets))
    × (c₁.requests.buckets ≡ [])
    × (ls₁.map.buckets ≡ [])
client_destroy-ends_example =
    client_destroy-ends dice asking_client no_listeners asking_client-IsLinked one_request-IsMap
      refl refl

abbrev lasting : Client Value
lasting = record working_client { enable_reconnect = true }

destroy-running_example :
    (c₁ : Client Value) × (client_stop dice lasting ≡ ok c₁)
    × (client_destroy (λ c. ok c) (c₁, no_listeners) ≡ ok (client_clear (c₁, no_listeners)))
    × ((client_clear (c₁, no_listeners)).0.reconnect_timer ≡ armed)
destroy-running_example =
    destroy-running dice (λ c. ok c) 0 lasting no_listeners
      (record {
        owned = (working_client-IsLinked.live, working_client-IsLinked.only);
        enabled = refl;
        open_timer = λ e. cc;
        timer = (timer, refl);
        has_room = record { delays = delays-IsBackoff false; room = omega arith };
      })
      refl refl
