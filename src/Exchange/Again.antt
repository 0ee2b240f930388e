-- ===== src/Exchange/Again.antt =====
-- An answer that comes twice: src/protocol.c with src/message.c, src/map.c and src/client.c.
use libpomelo.Common.{
  ℕ, Bool, true, false, Bool-cases, inl, inr, Option, none, some, List, [], ◌∷◌, ◌++◌,
  if◌then◌else◌, ◌≡◌, ap, ◌∙◌,
}
use libpomelo.Common.Bytes.{same_str, same_str_refl}
use libpomelo.Common.Outcome.{ok, err, ◌>>=◌}
use libpomelo.Message.{RawMsg, has_route, decode, granted}
use libpomelo.HashMap.View.{IsMap, view, map_get-view}
use libpomelo.Protobuf.Encode.{Jansson}
use libpomelo.Protobuf.Decode.{Builder, Printer}
use libpomelo.Client.{Client, Request, request_done}
use libpomelo.Client.Connect.{Writing}
use libpomelo.Client.Requests.{process_response}
use libpomelo.Client.Dispatch.{pkg_cb, or_stop_client, data_done}
use libpomelo.Client.Stop.{client_stop}
use libpomelo.Client.Pending.{process_response-once}
use libpomelo.Client.Drops.{if-then}
use libpomelo.Protocol.{default_msg_parse, msg_size}
use libpomelo.Exchange.{parse_default, msg_of}

module _ (malloc : ℕ → Option (List ℕ)) (signed_char : Bool) {J : Type 0} (json : Jansson J)
    (build : Builder J) (printer : Printer) (json_loadb : List ℕ → Option J)
    (json_object : Option J) where
  -- An answer to no request is NULL for the default parser.
  unasked_answer :
      (c : Client J) (raw : RawMsg) (bytes : List ℕ)
      → IsMap c.requests
      → decode malloc signed_char bytes ≡ ok raw
      → has_route raw.msg_type ≡ false
      → view signed_char c.requests (printer.decimal raw.id) ≡ none
      → default_msg_parse malloc signed_char json build printer json_loadb json_object c bytes ≡ err
  unfolding default_msg_parse
  unasked_answer c raw bytes is_map decoded no_route gone =
      elim (Bool-cases (granted malloc msg_size)) [
        | inl room ↦ rw (
          decoded,
          room,
          no_route,
          map_get-view signed_char is_map (printer.decimal raw.id),
          gone,
        )
        | inr full ↦ rw (decoded, full)
      ]

  -- Bytes that decode to a message without a route answer the request that waits under the number of the
  -- message, if the map of requests is in order: `pc__process_response` calls the callback of that request
  -- once, with success, and takes it out of the map, where all others stay. When a package with these bytes
  -- comes to the client then, the default parser finds no request and gives NULL, and all that
  -- `pc__pkg_cb` does is to call `pc_client_stop`.
  pub answered-twice :
      (small : ℕ → Bool) (rand : ℕ → ℕ) (integer_value : J → ℕ) (reload : Option J → Option J)
      (accept : Option J → Bool) (memory : Bool) (env : Writing) (c : Client J) (r : Request)
      (raw : RawMsg) (bytes : List ℕ)
      → IsMap c.requests
      → decode malloc signed_char bytes ≡ ok raw
      → has_route raw.msg_type ≡ false
      → view signed_char c.requests (printer.decimal raw.id) ≡ some r
      → (c₁ : Client J) × (process_response signed_char printer.decimal raw.id c ≡ ok c₁)
        × (c₁.calls ≡ c.calls ++ request_done r.id true ∷ [])
        × ((k : List ℕ)
            → view signed_char c₁.requests k ≡ (
                if same_str (printer.decimal raw.id) k
                then none
                else view signed_char c.requests k))
        × IsMap c₁.requests
        × (pkg_cb small signed_char rand json integer_value build printer reload accept json_loadb
              (parse_default malloc signed_char json build printer json_loadb json_object)
              memory
              env
              (record { type = 4; bytes = bytes })
              c₁
            ≡ client_stop rand c₁)
  unfolding pkg_cb parse_default
  answered-twice small rand integer_value reload accept memory env c r raw bytes is_map decoded
        no_route waits =
      let (c₁, ran, called, reads, map₁) =
        process_response-once signed_char printer.decimal c is_map raw.id r waits in
      let gone : view signed_char c₁.requests (printer.decimal raw.id) ≡ none =
        reads (printer.decimal raw.id) ∙ if-then _ _ _ (same_str_refl (printer.decimal raw.id)) in
      (
        c₁,
        ran,
        called,
        reads,
        map₁,
        ap
            (λ m.
              msg_of m
              >>= data_done small signed_char rand json integer_value build printer reload accept
                  json_loadb
                  (parse_default malloc signed_char json build printer json_loadb json_object)
                  memory env c₁
              >>= or_stop_client small signed_char rand json integer_value build printer reload
                  accept json_loadb
                  (parse_default malloc signed_char json build printer json_loadb json_object)
                  memory env)
            (unasked_answer c₁ raw bytes map₁ decoded no_route gone),
      )
