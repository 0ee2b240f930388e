-- ===== src/Client/Facts.antt =====
-- What holds of the clients of the runs, and more of them.
use libpomelo.Common.{
  Bool, ℕ, ◌≡◌, ◌≢◌, refl, subst, true, none, some, List, [], ◌∷◌, inl, replicate, arith, set,
}
use libpomelo.Common.Outcome.{Outcome, ok}
use libpomelo.HashMap.{Map, Pair, map_init, map_set, set_loop, hash, find}
use libpomelo.HashMap.View.{IsMap, view, queue_of}
use libpomelo.HashMap.Writes.{Settles, absent, map_set-view}
use libpomelo.HashMap.Whole.{map_init-view}
use libpomelo.Reconnect.Growth.{IsBackoff}
use libpomelo.Protobuf.Sample.{Value}
use libpomelo.Client.{tp_inited, tp_connecting, tp_working, armed, Request, Client, put}
use libpomelo.Client.Sample.{
  plenty, timer, delays, no_requests, new_client, connecting_client, working_client,
}
use libpomelo.Client.Linked.{IsLinked}
use libpomelo.Client.Retries.{IsWaiting}
use libpomelo.Client.Failures.{put-own, put-silent}

pub new_client-IsLinked : IsLinked new_client
new_client-IsLinked = record {
  live = λ i e. absurd cc;
  only = λ i e. absurd cc;
  apart = λ e. refl;
  fresh = λ e i w. cc;
  opened = λ e. absurd cc;
}

silent_calling : (j : ℕ) → connecting_client.transports j ≢ tp_working
silent_calling =
    put-silent (put new_client.transports 0 tp_inited) 0 tp_connecting (λ q. cc)
      (put-silent new_client.transports 0 tp_inited (λ q. cc) (λ j q. cc))

pub working_client-IsLinked : IsLinked working_client
working_client-IsLinked = record {
  live = λ i e.
      let same : 0 ≡ i = cc e in
      inl (subst (λ k. working_client.transports k ≡ tp_working) same refl);
  only = put-own connecting_client.transports 0 silent_calling;
  apart = λ e. absurd cc;
  fresh = λ e. absurd cc;
  opened = λ e. (0, refl, refl);
}

abbrev pub waiting_client : Client Value
waiting_client = record new_client {
  enable_reconnect = true;
  reconnect_timer = armed;
  backoff = record delays { reconnecting = true };
}

pub waiting_client-IsWaiting : IsWaiting waiting_client
waiting_client-IsWaiting = record {
  new = refl;
  alone = refl;
  silent = λ i w. cc;
  enabled = refl;
  trying = refl;
  timer_armed = refl;
  timer = (timer, refl);
}

pub delays-IsBackoff : (x : Bool) → IsBackoff (record delays { reconnecting = x })
delays-IsBackoff x = record {
  grows = inl (refl, refl);
  delay_pos = omega arith;
  max_pos = omega arith;
  max_small = omega arith;
}

-- A request with the number 7.
abbrev pub asking : Request
asking = record { id = 7; route = 97 ∷ []; transport = 0 }

abbrev pub one_request : Map Request
one_request = record {
  capacity = 256;
  buckets = set (replicate 256 []) 55 (record { key = 55 ∷ []; value = asking } ∷ []);
}

no_requests_lem : map_init plenty 256 ≡ ok no_requests
unfolding map_init
no_requests_lem = refl

pub no_requests-IsMap : IsMap no_requests
no_requests-IsMap = (map_init-view plenty true 256 no_requests no_requests_lem).0

one_request_lem : map_set plenty true 5 no_requests (55 ∷ []) asking ≡ ok (one_request, [])
unfolding map_set set_loop hash
one_request_lem = refl

no_requests-Settles : Settles {V = Request} (55 ∷ []) (queue_of true no_requests (55 ∷ [])) none
unfolding hash find
no_requests-Settles = absent refl

same_map :
    {a b : Map Request} {r : Outcome (Map Request × List (Pair Request))}
    {p q : List (Pair Request)}
    → r ≡ ok (a, p)
    → r ≡ ok (b, q)
    → a ≡ b
same_map e f = cc

pub one_request-IsMap : IsMap one_request
one_request-IsMap =
    let (m, e, is_map, reads) =
      map_set-view plenty true no_requests-IsMap (55 ∷ []) asking 5 no_requests-Settles
        (unfold hash in omega arith) refl refl in
    subst IsMap (same_map e one_request_lem) is_map

pub one_request_waits : view true one_request (55 ∷ []) ≡ some asking
unfolding view hash find
one_request_waits = refl

-- The request of this client waits for its answer.
abbrev pub asking_client : Client Value
asking_client = record working_client { requests = one_request }

pub asking_client-IsLinked : IsLinked asking_client
asking_client-IsLinked = record {
  live = working_client-IsLinked.live;
  only = working_client-IsLinked.only;
  apart = working_client-IsLinked.apart;
  fresh = working_client-IsLinked.fresh;
  opened = working_client-IsLinked.opened;
}
