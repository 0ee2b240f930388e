-- ===== src/Client/Reads.antt =====
-- The links of the client and its connections over requests, notifications and reads of the socket:
-- src/network.c, src/protocol.c, src/transport.c.
use libpomelo.Common.{ℕ, Bool, true, false, not, ◌&&◌, Option, none, some, List, [], ◌∷◌, ◌==◌, ltb}
use libpomelo.Common.Outcome.{Outcome, ok, err, stuck, fault}
use libpomelo.Client.{Request, Client}
use libpomelo.Client.Connect.{Writing}
use libpomelo.HashMap.{Map}
use libpomelo.Package.{Package, pkg_encode, parser_feed}
use libpomelo.Package as Framing
use libpomelo.Protobuf.Encode.{Jansson}
use libpomelo.Protobuf.Decode.{Builder, Printer}
use libpomelo.Client.Requests.{
  reads_working, Sending, recorded, record_request, packed, send_request, run_request, send_notify,
  run_notify,
}
use libpomelo.Client.Dispatch.{
  Msg, push_to, data_done, or_stop_client, pkg_cb, pkg_cbs, end_read, on_tcp_read, tp_on_tcp_read,
}
use libpomelo.Client.Linked.{
  Holds, Holds-then, Holds-after, Holds-if, IsLinked, client_stop-IsLinked,
}
use libpomelo.Client.Callbacks.{heartbeat_done-IsLinked}
use libpomelo.Client.Answers.{handshake_resp-IsLinked, process_response-IsLinked}
use libpomelo.Client.Kept.{Fst, write_at-IsLinked}

module _ (malloc : ℕ → Bool) (signed_char : Bool) (print : ℕ → List ℕ) (fuel : ℕ) {J : Type 0} where
  recorded-IsLinked :
      (c : Client J) (m : Outcome (Map Request))
      → IsLinked c
      → Holds IsLinked (recorded malloc signed_char print fuel c m)
  recorded-IsLinked c (ok m) h = h
  recorded-IsLinked c err h = h
  recorded-IsLinked c fault h = tt
  recorded-IsLinked c stuck h = tt

  packed-IsLinked :
      (bytes : Option (List ℕ)) (rest : Outcome (Client J))
      → Holds IsLinked rest
      → Holds IsLinked (packed bytes rest)
  packed-IsLinked none rest h = tt
  packed-IsLinked (some b) rest h = h

  send_request-IsLinked :
      (env : Sending) (r : Request) (c : Client J) (m : Outcome (List ℕ))
      → IsLinked c
      → Holds IsLinked (send_request malloc signed_char print fuel env r c m)
  send_request-IsLinked env r c err h = h
  send_request-IsLinked env r c fault h = tt
  send_request-IsLinked env r c stuck h = tt
  send_request-IsLinked env r c (ok msg) h =
      Holds-if _ (env.write_req && env.context) _ _
        (packed-IsLinked (pkg_encode malloc 4 msg) _ (
          Holds-then Fst _ _ _
            (write_at-IsLinked c.transport (record { req = true; attach = true; write = env.write })
              4 c h)
            (λ (c₁, done) h₁.
              Holds-if _ done (record_request malloc signed_char print fuel r c₁) _
                (recorded-IsLinked c₁ _ h₁) h₁)))
        h

  pub run_request-IsLinked :
      (encode_msg : ℕ → List ℕ → Outcome (List ℕ)) (env : Sending) (status : Bool) (r : Request)
      (c : Client J)
      → IsLinked c
      → Holds IsLinked (run_request malloc signed_char print fuel encode_msg env status r c)
  unfolding run_request
  run_request-IsLinked encode_msg env status r c h = Holds-if _ (not status) _ _ h (
      Holds-after _ (reads_working (c.transports r.transport)) _ (λ works.
        Holds-if _ works _ _ (send_request-IsLinked env r c (encode_msg r.id r.route) h) h))

  send_notify-IsLinked :
      (env : Sending) (c : Client J) (m : Outcome (List ℕ))
      → IsLinked c
      → Holds IsLinked (send_notify malloc env c m)
  send_notify-IsLinked env c err h = h
  send_notify-IsLinked env c fault h = tt
  send_notify-IsLinked env c stuck h = tt
  send_notify-IsLinked env c (ok msg) h =
      Holds-if _ (env.write_req && env.context) _ _
        (packed-IsLinked (pkg_encode malloc 4 msg) _ (
          Holds-then Fst _ _ _
            (write_at-IsLinked c.transport (record { req = true; attach = true; write = env.write })
              4 c h)
            (λ (c₁, done) h₁. Holds-if _ done _ _ h₁ h₁)))
        h

  pub run_notify-IsLinked :
      (encode_msg : ℕ → List ℕ → Outcome (List ℕ)) (env : Sending) (status : Bool) (r : Request)
      (c : Client J)
      → IsLinked c
      → Holds IsLinked (run_notify malloc encode_msg env status r c)
  unfolding run_notify
  run_notify-IsLinked encode_msg env status r c h = Holds-if _ (not status) _ _ h (
      Holds-after _ (reads_working (c.transports r.transport)) _
        (λ works. Holds-if _ works _ _ (send_notify-IsLinked env c (encode_msg 0 r.route) h) h))

module _ (malloc : ℕ → Bool) (signed_char : Bool) (rand : ℕ → ℕ) {J : Type 0} (json : Jansson J)
    (integer_value : J → ℕ) (build : Builder J) (printer : Printer) (reload : Option J → Option J)
    (accept : Option J → Bool) (json_loadb : List ℕ → Option J)
    (parse_msg : Client J → List ℕ → Outcome (Option Msg)) (memory : Bool) (env : Writing) where
  data_done-IsLinked :
      (c : Client J) (msg : Option Msg)
      → IsLinked c
      → Holds Fst (
          data_done malloc signed_char rand json integer_value build printer reload accept
            json_loadb parse_msg memory env c msg)
  data_done-IsLinked c none h = h
  data_done-IsLinked c (some msg) h =
      Holds-then IsLinked Fst _ _
        (Holds-if IsLinked (ltb 0 msg.id) _ _
          (process_response-IsLinked signed_char printer.decimal msg.id c h)
          (elim msg.route
            as (λ z. Holds IsLinked (
              push_to malloc signed_char rand json integer_value build printer reload accept
                json_loadb parse_msg memory env z c)) [ none ↦ tt | some route ↦ h ]))
        (λ c₁ h₁. h₁)

  pkg_cb-IsLinked :
      (p : Package) (c : Client J)
      → IsLinked c
      → Holds IsLinked (
          pkg_cb malloc signed_char rand json integer_value build printer reload accept json_loadb
            parse_msg memory env p c)
  unfolding pkg_cb
  pkg_cb-IsLinked p c h =
      Holds-then Fst IsLinked _ _
        (Holds-if Fst (p.type == 1) _ _
          (handshake_resp-IsLinked json integer_value build printer reload accept memory env
            (json_loadb p.bytes) c h)
          (Holds-if Fst (p.type == 3) _ _
            (Holds-then IsLinked Fst _ _ (heartbeat_done-IsLinked c h) (λ c₁ h₁. h₁))
            (Holds-if Fst (p.type == 4) _ _
              (Holds-after Fst (parse_msg c p.bytes) _ (λ m. data_done-IsLinked c m h))
              (Holds-if Fst (p.type == 5) _ _ h h))))
        (λ (c₁, fine) h₁.
          elim fine
            as (λ z. Holds IsLinked (
              or_stop_client malloc signed_char rand json integer_value build printer reload accept
                json_loadb parse_msg memory env (c₁, z))) [
                  | true ↦ h₁
                  | false ↦ client_stop-IsLinked rand c₁ h₁
                ])

  pkg_cbs-IsLinked :
      (ps : List Package) (c : Client J)
      → IsLinked c
      → Holds IsLinked (
          pkg_cbs malloc signed_char rand json integer_value build printer reload accept json_loadb
            parse_msg memory env ps c)
  unfolding pkg_cbs
  pkg_cbs-IsLinked [] c h = h
  pkg_cbs-IsLinked (p ∷ ps) c h =
      Holds-then IsLinked IsLinked _ _ (pkg_cb-IsLinked p c h) (λ c₁ h₁. pkg_cbs-IsLinked ps c₁ h₁)

  on_tcp_read-IsLinked :
      (bytes : List ℕ) (c : Client J)
      → IsLinked c
      → Holds IsLinked (
          on_tcp_read malloc signed_char rand json integer_value build printer reload accept
            json_loadb parse_msg memory env bytes c)
  unfolding on_tcp_read
  on_tcp_read-IsLinked bytes c h =
      let r = parser_feed malloc c.parser bytes in
      Holds-then IsLinked IsLinked _ _ (pkg_cbs-IsLinked r.packages c h) (λ c₁ h₁.
        elim r.status
          as (λ z. Holds IsLinked (
            end_read malloc signed_char rand json integer_value build printer reload accept
              json_loadb parse_msg memory env z (record c₁ { parser = r.parser }))) [
                | Framing.fed ↦ h₁
                | Framing.failed ↦ client_stop-IsLinked rand (record c₁ { parser = r.parser }) h₁
                | Framing.stuck ↦ tt
              ])

  pub tp_on_tcp_read-IsLinked :
      (i : ℕ) (nread : Option (List ℕ)) (c : Client J)
      → IsLinked c
      → Holds IsLinked (
          tp_on_tcp_read malloc signed_char rand json integer_value build printer reload accept
            json_loadb parse_msg memory env i nread c)
  unfolding tp_on_tcp_read
  tp_on_tcp_read-IsLinked i none c h =
      Holds-after IsLinked (reads_working (c.transports i)) _ (λ works.
        Holds-if IsLinked (not works) _ _ h (
          client_stop-IsLinked rand
            (record c { backoff = record c.backoff { reconnecting = false } }) h))
  tp_on_tcp_read-IsLinked i (some []) c h =
      Holds-after IsLinked (reads_working (c.transports i)) _
        (λ works. Holds-if IsLinked (not works) _ _ h h)
  tp_on_tcp_read-IsLinked i (some (b ∷ bs)) c h =
      Holds-after IsLinked (reads_working (c.transports i)) _
        (λ works. Holds-if IsLinked (not works) _ _ h (on_tcp_read-IsLinked (b ∷ bs) c h))
