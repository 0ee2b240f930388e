-- ===== src/Client/Dispatch.antt =====
-- src/protocol.c: what a package of the server does, and src/transport.c: the reads of the socket.
use libpomelo.Common.{
  ℕ, Bool, true, false, not, Option, none, some, List, [], ◌∷◌, if◌then◌else◌, ◌==◌, ltb,
}
use libpomelo.Common.Outcome.{Outcome, ok, stuck, fault, ◌>>=◌}
use libpomelo.Client.{kick, emitted, pushed, Client, call}
use libpomelo.Client.Stop.{client_stop}
use libpomelo.Package.{Package, Parser, Fed, Status, fed, failed, parser_feed}
use libpomelo.Package as Framing
use libpomelo.Protobuf.Encode.{Jansson}
use libpomelo.Protobuf.Decode.{Builder, Printer}
use libpomelo.Client.Connect.{Writing}
use libpomelo.Client.Handshake.{handshake_resp, heartbeat_done}
use libpomelo.Client.Requests.{reads_working, process_response}

-- `pc_msg_s`: its number, which is 0 for a message that is no answer, and its route, which may be
-- NULL.
pub record Msg : Type 0 where
  pub id : ℕ
  pub route : Option (List ℕ)

module _ (malloc : ℕ → Bool) (signed_char : Bool) (rand : ℕ → ℕ) {J : Type 0} (json : Jansson J)
    (integer_value : J → ℕ) (build : Builder J) (printer : Printer) (reload : Option J → Option J)
    (accept : Option J → Bool) (json_loadb : List ℕ → Option J)
    (parse_msg : Client J → List ℕ → Outcome (Option Msg)) (memory : Bool) (env : Writing) where
  -- `pc_emit_event` of a route: NULL is no key.
  abbrev pub push_to : Option (List ℕ) → Client J → Outcome (Client J)
  push_to none c = fault
  push_to (some route) c = ok (call (pushed route) c)

  abbrev pub data_done : Client J → Option Msg → Outcome (Client J × Bool)
  data_done c none = ok (c, false)
  data_done c (some msg) =
      (if ltb 0 msg.id
        then process_response signed_char printer.decimal msg.id c
        else push_to msg.route c)
      >>= (λ c₁. ok (c₁, true))

  -- `pc__data`
  abbrev pub data_package : List ℕ → Client J → Outcome (Client J × Bool)
  data_package body c = parse_msg c body >>= data_done c

  -- The switch of `pc__pkg_cb`, by the number of the type.
  abbrev pub pkg_switch : Package → Client J → Outcome (Client J × Bool)
  pkg_switch p c =
      if p.type == 1
      then handshake_resp json integer_value build printer reload accept memory env
          (json_loadb p.bytes) c
      else if p.type == 3
      then heartbeat_done c >>= (λ c₁. ok (c₁, true))
      else if p.type == 4
      then data_package p.bytes c
      else if p.type == 5
      then ok (call (emitted kick) c, true)
      else ok (c, false)

  abbrev pub or_stop_client : Client J × Bool → Outcome (Client J)
  or_stop_client (c, true) = ok c
  or_stop_client (c, false) = client_stop rand c

  -- `pc__pkg_cb`
  unfoldable pub pkg_cb : Package → Client J → Outcome (Client J)
  pkg_cb p c = pkg_switch p c >>= or_stop_client

  -- The calls of it from the parser, one for each package.
  unfoldable pub pkg_cbs : List Package → Client J → Outcome (Client J)
  pkg_cbs [] c = ok c
  pkg_cbs (p ∷ ps) c = pkg_cb p c >>= pkg_cbs ps

  abbrev pub end_read : Framing.Status → Client J → Outcome (Client J)
  end_read fed c = ok c
  end_read failed c = client_stop rand c
  end_read Framing.stuck c = stuck

  -- `pc_client_on_tcp_read`. The parser resets itself behind every package, so a reset by the
  -- callback adds nothing, and what it is after the read is what it is without the callback.
  unfoldable pub on_tcp_read : List ℕ → Client J → Outcome (Client J)
  on_tcp_read bytes c =
      let r = parser_feed malloc c.parser bytes in
      pkg_cbs r.packages c >>= (λ c₁. end_read r.status (record c₁ { parser = r.parser }))

  -- The end of the stream or an error is `none`. Where nothing was read, nothing is done.
  abbrev pub read_at : Option (List ℕ) → Client J → Outcome (Client J)
  read_at none c =
      client_stop rand (record c { backoff = record c.backoff { reconnecting = false } })
  read_at (some []) c = ok c
  read_at (some (b ∷ bs)) c = on_tcp_read (b ∷ bs) c

  -- `pc_tp_on_tcp_read` of the transport i
  unfoldable pub tp_on_tcp_read : ℕ → Option (List ℕ) → Client J → Outcome (Client J)
  tp_on_tcp_read i nread c =
      reads_working (c.transports i) >>= (λ works. if not works then ok c else read_at nread c)
