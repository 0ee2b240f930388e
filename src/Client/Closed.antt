-- ===== src/Client/Closed.antt =====
-- A client that does not reconnect, over every sequence of calls: src/client.c, src/network.c.
use libpomelo.Common.{ℕ, Bool, not, Option, none, some, List}
use libpomelo.Common.Outcome.{Outcome}
use libpomelo.Client.{idle, Client}
use libpomelo.Common.{◌≡◌, refl}
use libpomelo.Protobuf.Encode.{Jansson}
use libpomelo.Protobuf.Decode.{Builder, Printer}
use libpomelo.Client.Requests.{run_request, on_request, run_notify, on_notify}
use libpomelo.Client.Dispatch.{Msg, tp_on_tcp_read}
use libpomelo.Client.Linked.{Holds-if}
use libpomelo.Client.Steps.{
  Step, Reach, connects, disconnects, stops, closes, connected_to, handshake_written, confirmed,
  handshake_late, beats, beat_written, beat_late, tries_again, reads, requests, request_written,
  notifies, notify_written, released, ends, start, next, held,
}
use libpomelo.Client.Shut.{
  IsShut, stop-IsShut, connect-IsShut, disconnect-IsShut, on_tcp_connect-IsShut, written-IsShut,
  late-IsShut, beats-IsShut, beat_written-IsShut, released-IsShut, tested-IsShut,
}

module _ (malloc : ℕ → Bool) (signed_char : Bool) (rand : ℕ → ℕ) (fuel : ℕ) {J : Type 0}
    (json : Jansson J) (integer_value : J → ℕ) (build : Builder J) (printer : Printer)
    (reload : Option J → Option J) (accept : Option J → Bool) (json_loadb : List ℕ → Option J)
    (parse_msg : Client J → List ℕ → Outcome (Option Msg))
    (encode_msg : ℕ → List ℕ → Outcome (List ℕ)) where
  abbrev OneStep : Client J → Client J → Type 0
  OneStep c c' =
      Step malloc signed_char rand fuel json integer_value build printer reload accept json_loadb
        parse_msg encode_msg c c'

  abbrev pub Steps : Client J → Client J → Type 0
  Steps c c' =
      Reach malloc signed_char rand fuel json integer_value build printer reload accept json_loadb
        parse_msg encode_msg c c'

  step-IsShut : (c c' : Client J) → OneStep c c' → IsShut c → IsShut c'
  unfolding tp_on_tcp_read run_request on_request run_notify on_notify
  step-IsShut c c' (connects env valid opts cb done e) h =
      held (λ r. IsShut r.0) e (connect-IsShut rand env valid opts cb c h)
  step-IsShut c c' (disconnects e) h = held IsShut e (disconnect-IsShut rand c h)
  step-IsShut c c' (stops e) h = held IsShut e (stop-IsShut rand c h)
  step-IsShut c c' (closes e) h = held IsShut e (late-IsShut rand c h).2
  step-IsShut c c' (connected_to i cb status reading ask env p o e) h =
      held IsShut e (on_tcp_connect-IsShut rand i cb status reading ask env c h)
  step-IsShut c c' (handshake_written i status e) h =
      held IsShut e (written-IsShut rand i status c h).0
  step-IsShut c c' (confirmed i status e) h = held IsShut e (written-IsShut rand i status c h).1
  step-IsShut c c' (handshake_late e) h = held IsShut e (late-IsShut rand c h).1
  step-IsShut c c' (beats memory env e) h = held IsShut e (beats-IsShut rand memory env c h)
  step-IsShut c c' (beat_written status e) h = held IsShut e (beat_written-IsShut rand status c h)
  step-IsShut c c' (beat_late e) h = held IsShut e (late-IsShut rand c h).0
  step-IsShut c c' (tries_again found env p e) h =
      let q : c.reconnect_timer ≡ idle = h.quiet in absurd cc
  step-IsShut c c' (reads memory env i none e) h = held IsShut e (tested-IsShut i c _ h h)
  step-IsShut c c' (reads memory env i (some bytes) e) h = held IsShut e (tested-IsShut i c _ h h)
  step-IsShut c c' (requests env status r e) h =
      held IsShut e (Holds-if IsShut (not status) _ _ h (tested-IsShut r.transport c _ h h))
  step-IsShut c c' (request_written status r e) h =
      held IsShut e (tested-IsShut r.transport c _ h h)
  step-IsShut c c' (notifies env status r e) h =
      held IsShut e (Holds-if IsShut (not status) _ _ h (tested-IsShut r.transport c _ h h))
  step-IsShut c c' (notify_written status r e) h = held IsShut e (tested-IsShut r.transport c _ h h)
  step-IsShut c c' (released i p e) h = rw e (released-IsShut i c h)
  step-IsShut c c' (ends p e) h = rw e (record {
    ended = refl;
    alone = h.alone;
    silent = h.silent;
    unsent = h.unsent;
    plain = h.plain;
    quiet = h.quiet;
  })

  -- A client that does not reconnect, is closed, and has neither a transport nor `close_async` nor a
  -- running `reconnect_timer` stays so, by steps in any order, and no transport works.
  pub Steps-IsShut : (c c' : Client J) → Steps c c' → IsShut c → IsShut c'
  Steps-IsShut c c' start h = h
  Steps-IsShut c c' (next {c₁ = c₁} path s) h = step-IsShut c₁ c' s (Steps-IsShut c c₁ path h)
