-- ===== src/Client/Answers.antt =====
-- The links of the client and its connections over the answers of the server, requests and
-- notifications: src/pkg-handshake.c, src/protocol.c, src/network.c, src/transport.c.
use libpomelo.Common.{ℕ, Bool, true, false, not, Option, none, some, List, ◌==◌}
use libpomelo.Client.{Request, Client, stopped}
use libpomelo.Client.Connect.{Writing}
use libpomelo.HashMap.{map_get, map_del}
use libpomelo.Protobuf.Encode.{Jansson}
use libpomelo.Protobuf.Decode.{Builder, Printer}
use libpomelo.Client.Keys
use libpomelo.Client.Files.{dump_path, dump_file}
use libpomelo.Client.Session.{integer_of, set_heartbeat, set_up}
use libpomelo.Client.Handshake.{must, confirm, answered, handshake_resp, handshake_ok}
use libpomelo.Client.Requests.{reads_working, on_request, respond_at, process_response, on_notify}
use libpomelo.Client.Linked.{Holds, Holds-then, Holds-after, Holds-if, IsLinked}
use libpomelo.Client.Callbacks.{
  heartbeat_done-IsLinked, write_empty-IsLinked, set_heartbeat-IsLinked,
}
use libpomelo.Client.Kept.{Fst}
use libpomelo.Client.Session.{set_sent, set_protos, set_dictionary}

module _ {J : Type 0} (json : Jansson J) (integer_value : J → ℕ) (build : Builder J)
    (printer : Printer) (reload : Option J → Option J) (accept : Option J → Bool) where
  dump_file-IsLinked :
      (name : List ℕ) (v : Option J) (c : Client J)
      → IsLinked c
      → Holds IsLinked (dump_file reload name v c)
  unfolding dump_file
  dump_file-IsLinked name v c h =
      Holds-after IsLinked (dump_path c.proto_write_dir c.proto_read_dir name) _ (λ path. h)

  set_sent-IsLinked :
      (protos : Option J) (c : Client J)
      → IsLinked c
      → Holds IsLinked (set_sent json integer_value build printer reload protos c)
  set_sent-IsLinked none c h = h
  set_sent-IsLinked (some p) c h =
      Holds-then IsLinked IsLinked _ _
        (Holds-then IsLinked IsLinked _ _ (dump_file-IsLinked Keys.version_file _ _ h)
          (λ c₁ h₁. dump_file-IsLinked Keys.server_file (json.object_get p Keys.server_key) c₁ h₁))
        (λ c₂ h₂. dump_file-IsLinked Keys.client_file (json.object_get p Keys.client_key) c₂ h₂)

  set_protos-IsLinked :
      (sys : J) (use_proto : Option J) (c : Client J)
      → IsLinked c
      → Holds IsLinked (set_protos json integer_value build printer reload sys use_proto c)
  set_protos-IsLinked sys none c h = h
  set_protos-IsLinked sys (some u) c h = set_sent-IsLinked (json.object_get sys Keys.protos_key) c h

  set_dictionary-IsLinked :
      (dict : Option J) (c : Client J)
      → IsLinked c
      → IsLinked (set_dictionary json integer_value build printer reload dict c)
  set_dictionary-IsLinked none c h = h
  set_dictionary-IsLinked (some d) c h = h

  set_up-IsLinked :
      (sys : Option J) (c : Client J)
      → IsLinked c
      → Holds IsLinked (set_up json integer_value build printer reload sys c)
  set_up-IsLinked none c h = h
  set_up-IsLinked (some sys) c h =
      let hb : ℕ = integer_of integer_value (json.object_get sys Keys.heartbeat_key) in
      Holds-then _ _ (set_heartbeat hb c) _ (set_heartbeat-IsLinked hb c h) (λ c₁ h₁.
        set_protos-IsLinked sys (json.object_get sys Keys.use_proto_key) _
          (set_dictionary-IsLinked (json.object_get sys Keys.dict_key) c₁ h₁))

  confirm-IsLinked :
      (accepted memory : Bool) (env : Writing) (c : Client J)
      → IsLinked c
      → Holds Fst (confirm json integer_value build printer reload accept accepted memory env c)
  confirm-IsLinked false memory env c h = h
  confirm-IsLinked true memory env c h = write_empty-IsLinked memory env 2 c h

  answered-IsLinked :
      (memory : Bool) (env : Writing) (res : Option J) (c : Client J)
      → IsLinked c
      → Holds Fst (answered json integer_value build printer reload accept memory env res c)
  answered-IsLinked memory env none c h = h
  answered-IsLinked memory env (some res) c h =
      Holds-if Fst (integer_of integer_value (json.object_get res Keys.code_key) == handshake_ok) _
        _
        (Holds-then IsLinked Fst _ _
          (Holds-then Fst IsLinked _ _
            (Holds-then IsLinked Fst _ _ (set_up-IsLinked (json.object_get res Keys.sys_key) c h)
              (λ c₁ h₁.
                confirm-IsLinked (accept (json.object_get res Keys.user_key)) memory env c₁ h₁))
            (λ r h₂. heartbeat_done-IsLinked r.0 h₂))
          (λ c₃ h₃. h₃))
        h

  pub handshake_resp-IsLinked :
      (memory : Bool) (env : Writing) (res : Option J) (c : Client J)
      → IsLinked c
      → Holds Fst (handshake_resp json integer_value build printer reload accept memory env res c)
  unfolding handshake_resp
  handshake_resp-IsLinked memory env res c h =
      Holds-after Fst (must stopped c.handshake_timer) _
        (λ t. answered-IsLinked memory env res (record c { handshake_timer = t }) h)

module _ (signed_char : Bool) (print : ℕ → List ℕ) {J : Type 0} where
  pub on_request-IsLinked :
      (status : Bool) (r : Request) (c : Client J)
      → IsLinked c
      → Holds IsLinked (on_request signed_char print status r c)
  unfolding on_request
  on_request-IsLinked status r c h =
      Holds-after _ (reads_working (c.transports r.transport)) _ (λ works.
        Holds-if _ (not works) _ _ h (
          Holds-if _ status _ _ h
            (Holds-after _ (map_del signed_char c.requests (print r.id)) _ (λ s. h))))

  pub process_response-IsLinked :
      (id : ℕ) (c : Client J)
      → IsLinked c
      → Holds IsLinked (process_response signed_char print id c)
  unfolding process_response
  process_response-IsLinked id c h =
      Holds-after _ (map_get signed_char c.requests (print id)) _ (λ r.
        elim r as (λ z. Holds IsLinked (respond_at signed_char print id c z)) [
          | none ↦ h
          | some q ↦ Holds-after _ (map_del signed_char c.requests (print id)) _ (λ s. h)
        ])

  pub on_notify-IsLinked :
      (status : Bool) (r : Request) (c : Client J)
      → IsLinked c
      → Holds IsLinked (on_notify status r c)
  unfolding on_notify
  on_notify-IsLinked status r c h =
      Holds-after _ (reads_working (c.transports r.transport)) _ (λ works. h)
