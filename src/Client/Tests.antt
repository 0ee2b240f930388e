-- ===== src/Client/Tests.antt =====
-- Runs of the client, and the theorems at concrete inputs.
use libpomelo.Common.{
  ℕ, ◌≡◌, ◌≢◌, refl, true, false, none, some, List, [], ◌∷◌, ◌++◌, arith, flatten, map,
}
use libpomelo.Common.Outcome.{Outcome, ok, fault, ◌>>=◌}
use libpomelo.HashMap.{hash, find}
use libpomelo.HashMap.View.{view}
use libpomelo.Package.{pkg_encode}
use libpomelo.Protobuf.Sample.{
  Value, object, array, str, num, end, field, none_left, values, number, built, digits,
}
use libpomelo.Client.{
  inited, working, disconnecting, closed, tp_working, tp_closed, connected_cb, timeout, Call,
  request_done, sent, Client, put, with_state,
}
use libpomelo.Client.Sample.{
  greeting, plenty, dice, timer, delays, no_requests, new_client, fine, writes, connecting_client,
  connected_client, working_client,
}
use libpomelo.Client.Files.{load_file}
use libpomelo.Client.Stop.{
  client_stop, close_client, reconnect_client, reconnect_reset, failed_request,
}
use libpomelo.Client.Connect.{
  version_of, Asking, Writing, connect, transport_new, on_tcp_connect, handshake_req, binary_write,
}
use libpomelo.Client.Handshake.{client_disconnect, close_async_cb, handshake_ack_cb}
use libpomelo.Client.Requests.{run_request, on_request, process_response}
use libpomelo.Client.Session.{set_heartbeat, set_protos, version_object}
use libpomelo.Client.Protos.{protos-kept}
use libpomelo.Protobuf.SampleFits.{built-Builds}
use libpomelo.Common.{◌||◌, Option}
use libpomelo.Client.Keys
use libpomelo.Client.Linked.{IsLinked, put_not_working}
use libpomelo.Client.Steps.{Step, Reach, Reach-IsLinked, start, next, connects, connected_to, stops}
use libpomelo.Client.Shut.{IsShut, client_stop-IsShut}
use libpomelo.Client.Closed.{Steps-IsShut}
use libpomelo.Client.Failures.{Failure, unconnected, no_start, unasked}
use libpomelo.Client.Reset.{IsCleared, reset-releases}
use libpomelo.Package.Holds.{parser_init-Holds}
use libpomelo.Client.Pending.{CanSend, request-response}
use libpomelo.Client.Twice.{request_done-twice}
use libpomelo.Client.Races.{disconnect-lost}
use libpomelo.Client.Late.{disconnect-late}
use libpomelo.Client.Facts.{
  new_client-IsLinked, working_client-IsLinked, delays-IsBackoff, asking, one_request,
  no_requests-IsMap, one_request-IsMap, one_request_waits, asking_client, asking_client-IsLinked,
}

connect_run : connect fine true none connected_cb new_client ≡ ok (connecting_client, true)
unfolding connect transport_new
connect_run = refl

connected_run :
    on_tcp_connect dice 0 connected_cb true true greeting writes connecting_client
    ≡ ok connected_client
unfolding on_tcp_connect handshake_req binary_write pkg_encode load_file
connected_run = refl

abbrev Leads : Client Value → Client Value → Type 0
Leads =
    Reach plenty true dice 5 values number built digits (λ v. v) (λ user. true) (λ text. none)
      (λ c body. ok none) (λ id route. ok (id ∷ []))

abbrev OneStep : Client Value → Client Value → Type 0
OneStep =
    Step plenty true dice 5 values number built digits (λ v. v) (λ user. true) (λ text. none)
      (λ c body. ok none) (λ id route. ok (id ∷ []))

connects_step : OneStep new_client connecting_client
connects_step = connects fine true none connected_cb true connect_run

connected_step : OneStep connecting_client connected_client
connected_step = connected_to 0 connected_cb true true greeting writes refl (λ e. cc) connected_run

Reach-IsLinked_example : IsLinked connected_client
Reach-IsLinked_example =
    Reach-IsLinked plenty true dice 5 values number built digits (λ v. v) (λ user. true)
      (λ text. none) (λ c body. ok none) (λ id route. ok (id ∷ [])) new_client connected_client
      (next (next start connects_step) connected_step) new_client-IsLinked

client_stop-IsShut_example :
    (c₁ : Client Value) × (client_stop dice working_client ≡ ok c₁) × IsShut c₁
client_stop-IsShut_example =
    client_stop-IsShut dice working_client working_client-IsLinked refl refl refl

abbrev stopped_client : Client Value
stopped_client = record working_client {
  state = closed;
  transport = none;
  transports = put working_client.transports 0 tp_closed;
  heartbeat_timer = none;
  timeout_timer = none;
  handshake_timer = none;
  close_async = false;
}

stopped_client-IsShut : IsShut stopped_client
stopped_client-IsShut = record {
  ended = refl;
  alone = refl;
  silent = λ j w.
      let (other, works) = put_not_working working_client.transports 0 j tp_closed (λ q. cc) w in
      let same : some 0 ≡ some j = working_client-IsLinked.only j works in other (cc same);
  unsent = refl;
  plain = refl;
  quiet = refl;
}

stop_again : OneStep stopped_client stopped_client
unfolding client_stop
stop_again = stops refl

Steps-IsShut_example : IsShut stopped_client
Steps-IsShut_example =
    Steps-IsShut plenty true dice 5 values number built digits (λ v. v) (λ user. true)
      (λ text. none) (λ c body. ok none) (λ id route. ok (id ∷ [])) stopped_client stopped_client
      (next start stop_again) stopped_client-IsShut

abbrev failures : List (Failure × Asking Value × Writing)
failures =
    (unconnected, greeting, writes)
    ∷ (no_start, greeting, writes)
    ∷ (unasked, greeting, writes)
    ∷ []

reset-releases_example :
    (c₁ : Client Value) × (reconnect_reset asking_client ≡ ok c₁)
    × (c₁.calls ≡ sent 1 ∷ [] ++ map failed_request (flatten one_request.buckets))
    × ((k : List ℕ) → view true c₁.requests k ≡ none)
    × (c₁.state ≡ inited)
    × (c₁.transport ≡ none)
    × ((i : ℕ) → c₁.transports i ≢ tp_working)
    × IsCleared asking_client c₁ timer
reset-releases_example =
    reset-releases true asking_client timer [] asking_client-IsLinked one_request-IsMap
      parser_init-Holds refl

abbrev encoder : ℕ → List ℕ → Outcome (List ℕ)
encoder id route = ok (id ∷ route)

working_client-CanSend : CanSend plenty true digits.decimal 5 asking working_client
unfolding view hash find
working_client-CanSend = record {
  is_map = no_requests-IsMap;
  works = refl;
  own = refl;
  new = refl;
  enough = omega arith;
  pair_given = refl;
  key_given = refl;
}

packed_lem : pkg_encode plenty 4 (7 ∷ 97 ∷ []) ≡ some (4 ∷ 0 ∷ 0 ∷ 2 ∷ 7 ∷ 97 ∷ [])
unfolding pkg_encode
packed_lem = refl

request-response_example :
    (c₁ : Client Value) × ((run_request plenty true digits.decimal 5 encoder
          (record { write_req = true; context = true; write = true })
          true
          asking
          working_client
        >>= process_response true digits.decimal 7)
      ≡ ok c₁)
    × (c₁.calls ≡ sent 1 ∷ [] ++ sent 4 ∷ [] ++ request_done 7 true ∷ [])
    × ((k : List ℕ) → view true c₁.requests k ≡ view true no_requests k)
request-response_example =
    request-response plenty true digits.decimal 5 encoder working_client asking (7 ∷ 97 ∷ [])
      (4 ∷ 0 ∷ 0 ∷ 2 ∷ 7 ∷ 97 ∷ []) working_client-CanSend refl packed_lem

request_done-twice_example :
    (c₁ : Client Value) × ((reconnect_reset asking_client
        >>= on_request true digits.decimal false asking)
      ≡ ok c₁)
    × (before between : List Call) × (c₁.calls
        ≡ before ++ request_done 7 false ∷ between ++ request_done 7 false ∷ [])
request_done-twice_example =
    request_done-twice true digits.decimal asking_client timer asking asking_client-IsLinked
      one_request-IsMap refl refl one_request_waits

-- A client that tries to connect again, and waits for the answer to its handshake.
abbrev retrying_client : Client Value
retrying_client = record connected_client {
  enable_reconnect = true;
  backoff = record delays { reconnecting = true };
}

-- A client that would connect again.
abbrev lasting_client : Client Value
lasting_client = record connected_client { enable_reconnect = true }

disconnect-lost_example :
    ((c₁ : Client Value) × ((client_disconnect lasting_client >>= handshake_ack_cb dice 0 true)
        ≡ ok c₁)
      × (c₁.state ≡ working)
      × (close_async_cb dice c₁ ≡ reconnect_client dice c₁))
    × ((client_disconnect lasting_client >>= close_async_cb dice)
        ≡ close_client dice (with_state disconnecting lasting_client))
disconnect-lost_example = disconnect-lost dice 0 lasting_client refl refl refl refl

abbrev first_attempt : Client Value
first_attempt = record connecting_client { enable_reconnect = true }

disconnect-late_example :
    (client_disconnect first_attempt
      >>= close_async_cb dice
      >>= on_tcp_connect dice 0 connected_cb true true greeting writes)
    ≡ fault
disconnect-late_example =
    disconnect-late dice 0 connected_cb true true greeting writes first_attempt refl refl refl refl
      (record { delays = delays-IsBackoff false; room = omega arith }) (λ e. cc)

-- Of the milliseconds an `int` keeps 704.
heartbeat_wraps :
    set_heartbeat 4294968 connected_client
    ≡ ok (record connected_client {
      heartbeat = some 704;
      timeout = some 1408;
      heartbeat_timer = some (record timer { repeat = 704 });
      timeout_timer = some (record timer { repeat = 1408 });
    })
unfolding set_heartbeat
heartbeat_wraps = refl

abbrev sent_protos : Value
sent_protos = object (
    field Keys.server_key (object end)
      (field Keys.client_key (array none_left) (field Keys.version_key (num 3) end)))

-- A file keeps an object or an array; nothing else can be written to it.
abbrev reload_file : Option Value → Option Value
reload_file none = none
reload_file (some (object m)) = some (object m)
reload_file (some (array xs)) = some (array xs)
reload_file (some v) = none

reload_file-kept :
    (v : Value) → (built.is_object v || values.is_array v) ≡ true → reload_file (some v) ≡ some v
reload_file-kept (object m) h = refl
reload_file-kept (array xs) h = refl
reload_file-kept (str s) h = cc
reload_file-kept (num n) h = cc

protos-kept_example :
    (c₁ c₂ c₃ : Client Value) × (set_protos values number built digits reload_file
        (object (field Keys.protos_key sent_protos end))
        (some (num 1))
        working_client
      ≡ ok c₁)
    × (reconnect_reset c₁ ≡ ok c₂)
    × (c₂.server_protos ≡ none)
    × (c₂.client_protos ≡ none)
    × (set_protos values number built digits reload_file (object end) (some (num 1)) c₂ ≡ ok c₃)
    × (c₃.server_protos ≡ some (object end))
    × (c₃.client_protos ≡ some (array none_left))
    × (version_of greeting c₂.proto_ver (load_file Keys.version_file c₂)
        ≡ greeting.get
            (version_object values number built digits reload_file (some (num 3)))
            Keys.version_file)
protos-kept_example =
    protos-kept values number built digits reload_file greeting sent_protos
      (object (field Keys.protos_key sent_protos end)) (object end) (num 1) (object end)
      (array none_left) working_client timer
      (working_client-IsLinked.live, working_client-IsLinked.only) refl refl (λ name. refl)
      reload_file-kept built-Builds refl refl refl refl refl refl
