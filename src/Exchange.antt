-- ===== src/Exchange.antt =====
-- The parts put together: the reads of a socket (src/transport.c) feed the package parser
-- (src/package.c), whose packages the client takes (src/protocol.c), with the default parser of messages.
pub mod Stream
pub mod Waits
pub mod Answers
pub mod Again
mod Tests
use libpomelo.Common.{ℕ, Bool, Option, none, some, List, [], ◌∷◌}
use libpomelo.Common.Outcome.{Outcome, ok, err, fault, stuck, ◌>>=◌}
use libpomelo.Protobuf.Encode.{Jansson}
use libpomelo.Protobuf.Decode.{Builder, Printer}
use libpomelo.Client.{Client}
use libpomelo.Client.Connect.{Writing}
use libpomelo.Client.Dispatch.{Msg, tp_on_tcp_read}
use libpomelo.Protocol.{Parsed, default_msg_parse}

-- What `pc__data` reads of the message; NULL is `none`.
abbrev pub msg_of : {J : Type 0} → Outcome (Parsed J) → Outcome (Option Msg)
msg_of (ok p) = ok (some (record { id = p.id; route = p.route }))
msg_of err = ok none
msg_of fault = fault
msg_of stuck = stuck

-- `client->parse_msg` as `pc__client_init` sets it.
unfoldable pub parse_default :
    {J : Type 0}
    → (ℕ → Option (List ℕ))
    → Bool
    → Jansson J
    → Builder J
    → Printer
    → (List ℕ → Option J)
    → Option J
    → Client J
    → List ℕ
    → Outcome (Option Msg)
parse_default malloc signed_char json build printer json_loadb json_object c bytes =
    msg_of (default_msg_parse malloc signed_char json build printer json_loadb json_object c bytes)

module _ (malloc : ℕ → Bool) (signed_char : Bool) (rand : ℕ → ℕ) {J : Type 0} (json : Jansson J)
    (integer_value : J → ℕ) (build : Builder J) (printer : Printer) (reload : Option J → Option J)
    (accept : Option J → Bool) (json_loadb : List ℕ → Option J)
    (parse_msg : Client J → List ℕ → Outcome (Option Msg)) (memory : Bool) (env : Writing) where
  -- The reads of the transport i, one after the other.
  unfoldable pub reads : ℕ → List (List ℕ) → Client J → Outcome (Client J)
  reads i [] c = ok c
  reads i (bytes ∷ more) c =
      tp_on_tcp_read malloc signed_char rand json integer_value build printer reload accept
        json_loadb parse_msg memory env i (some bytes) c
      >>= reads i more
