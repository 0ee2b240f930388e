-- ===== src/Exchange/Answers.antt =====
-- The answers of the server, from the bytes of the socket to the callbacks of the requests:
-- src/transport.c, src/package.c, src/message.c, src/protocol.c and src/network.c together.
use libpomelo.Common.{
  ℕ, ◌^◌, ◌<◌, ◌≡◌, refl, sym, ◌∙◌, ap, Bool, true, Option, none, some, List, [], ◌∷◌, ◌++◌, map,
  flatten, append-nil, append_assoc, ltb-true,
}
use libpomelo.Common.Outcome.{Outcome, ok, ◌>>=◌}
use libpomelo.HashMap.{Map, map_del}
use libpomelo.HashMap.View.{IsMap, view, map_get-view}
use libpomelo.HashMap.Writes.{map_del-view}
use libpomelo.Message.Sizes.{Grants}
use libpomelo.Message.RoundTrip.{granted-eq, decode_answer}
use libpomelo.Package.{Parser, parser_init}
use libpomelo.Package.Chunks.{feed_all}
use libpomelo.Package.Holds.{parser_init-Holds}
use libpomelo.Package.RoundTrip.{Encodes, feed_all-encode}
use libpomelo.Protobuf.Encode.{Jansson}
use libpomelo.Protobuf.Decode.{Builder, Printer}
use libpomelo.Protocol.{msg_size, get_of, default_msg_parse}
use libpomelo.Client.{tp_working, Request, Client, call}
use libpomelo.Bodies.Sizes.{json_decode-all}
use libpomelo.Client.Connect.{Writing}
use libpomelo.Client.Dispatch.{Msg, data_done, or_stop_client, pkg_cb}
use libpomelo.Client.Drops.{if-then}
use libpomelo.Client.Requests.{process_response, respond_at}
use libpomelo.Exchange.{parse_default, reads}
use libpomelo.Exchange.Stream.{with_parser, Handled, none_left, handled, AllBytes, reads-Handled}
use libpomelo.Exchange.Waits.{
  Answer, answer_bytes, answer_package, AllWait, still, still-removed, AllWait-removed, answered,
}

module _ {J : Type 0} (malloc : ℕ → Option (List ℕ)) (grants : Grants malloc) (signed_char : Bool)
    (json : Jansson J) (build : Builder J) (printer : Printer) (json_loadb : List ℕ → Option J)
    (json_object : Option J) where
  -- An answer that can be read: its number is positive and below 2 ^ 31, its text is JSON, and there is no
  -- protobuf definition for the route of its request.
  pub record IsReadable (protos : Option J) (a : Answer) : Type 0 where
    pub pos : 0 < a.id
    pub small : a.id < 2 ^ 31
    pub plain : get_of json protos a.request.route ≡ none
    pub value : J
    pub loads : json_loadb (a.b ∷ a.text) ≡ some value

  abbrev pub AllReadable : Option J → List Answer → Type 0
  AllReadable protos [] = Unit {0}
  AllReadable protos (a ∷ more) = IsReadable protos a × AllReadable protos more

  answer-parsed :
      (c : Client J) (a : Answer)
      → IsMap c.requests
      → IsReadable c.server_protos a
      → view signed_char c.requests (printer.decimal a.id) ≡ some a.request
      → parse_default malloc signed_char json build printer json_loadb json_object c
          (answer_bytes a)
        ≡ ok (some (record { id = a.id; route = none }))
  unfolding parse_default default_msg_parse
  answer-parsed c a v h waits = rw (
    decode_answer malloc grants signed_char a.id (a.b ∷ a.text) h.small,
    granted-eq malloc grants msg_size,
    map_get-view signed_char v (printer.decimal a.id),
    waits,
    h.plain,
    json_decode-all json_loadb (a.b ∷ a.text),
    h.loads,
  )

module _ (malloc : ℕ → Option (List ℕ)) (grants : Grants malloc) (alloc : ℕ → Bool)
    (signed_char : Bool) (rand : ℕ → ℕ) {J : Type 0} (json : Jansson J) (integer_value : J → ℕ)
    (build : Builder J) (printer : Printer) (reload : Option J → Option J)
    (accept : Option J → Bool) (json_loadb : List ℕ → Option J) (json_object : Option J)
    (memory : Bool) (env : Writing) (i : ℕ) where
  abbrev parse : Client J → List ℕ → Outcome (Option Msg)
  parse = parse_default malloc signed_char json build printer json_loadb json_object

  abbrev done_with : Map Request → Answer → Client J → Client J
  done_with m a c = call (answered a) (record c { requests = m })

  -- The package of one answer.
  answer-handled :
      (c : Client J) (a : Answer) (m : Map Request) (old : Option Request)
      → IsMap c.requests
      → IsReadable malloc grants signed_char json build printer json_loadb json_object
          c.server_protos a
      → view signed_char c.requests (printer.decimal a.id) ≡ some a.request
      → map_del signed_char c.requests (printer.decimal a.id) ≡ ok (m, old)
      → (q : Parser)
      → pkg_cb alloc signed_char rand json integer_value build printer reload accept json_loadb
          parse memory env
          (answer_package a)
          (with_parser q c)
        ≡ ok (with_parser q (done_with m a c))
  unfolding pkg_cb process_response
  answer-handled c a m old v h e deleted q =
      let d : Client J = with_parser q c in
      let to_end : Outcome (Client J) → Outcome (Client J) = λ o.
        o
        >>= (λ c₁. ok (c₁, true))
        >>= or_stop_client alloc signed_char rand json integer_value build printer reload accept
            json_loadb parse memory env in
      ap
        (λ o.
          o
          >>= data_done alloc signed_char rand json integer_value build printer reload accept
              json_loadb parse memory env d
          >>= or_stop_client alloc signed_char rand json integer_value build printer reload accept
              json_loadb parse memory env)
        (answer-parsed malloc grants signed_char json build printer json_loadb json_object d a v h
          e)
      ∙ ap to_end (if-then _ _ _ (ltb-true 0 a.id h.pos))
      ∙ ap (λ o. to_end (o >>= respond_at signed_char printer.decimal a.id d))
          (map_get-view signed_char v (printer.decimal a.id))
      ∙ ap (λ r. to_end (respond_at signed_char printer.decimal a.id d r)) e
      ∙ ap (λ o. to_end (o >>= (λ (m', old'). ok (call (answered a) (record d { requests = m' })))))
          deleted

  -- The packages of answers, one after the other.
  answers-Handled :
      (answers : List Answer) (c : Client J)
      → IsMap c.requests
      → c.transports i ≡ tp_working
      → AllReadable malloc grants signed_char json build printer json_loadb json_object
          c.server_protos answers
      → AllWait printer.decimal (view signed_char c.requests) answers
      → (c' : Client J) × Handled alloc signed_char rand json integer_value build printer reload
          accept json_loadb parse memory env i
          (map answer_package answers)
          c
          c'
        × (c'.calls ≡ c.calls ++ map answered answers)
        × ((k : List ℕ)
            → view signed_char c'.requests k
              ≡ still printer.decimal answers (view signed_char c.requests) k)
  answers-Handled [] c v works h w = (c, none_left, sym (append-nil c.calls), λ k. refl)
  answers-Handled (a ∷ more) c v works (h, readable) (e, apart, w) =
      let (m, deleted, is_map, reads_m) = map_del-view signed_char v (printer.decimal a.id) in
      let c₁ : Client J = done_with m a c in
      let (c', rest, called, left) =
        answers-Handled more c₁ is_map works readable
          (AllWait-removed printer.decimal more a.id _ _ reads_m apart w) in
      (
        c',
        handled (answer_package a) (answer-handled c a m _ v h e deleted) works rest,
        called ∙ append_assoc c.calls (answered a ∷ []) (map answered more),
        λ k. left k ∙ still-removed printer.decimal more a.id _ _ reads_m k,
      )

  -- Answers that the server has sent, one package for each, and that come in any number of reads, cut
  -- anywhere: every call is defined, the callback of each request is called once, in the order of the
  -- answers, with success, and no other; and then the other requests still wait, and these do not. The
  -- transport works, the parser is as at the start, each read gives bytes, the allocations of the parsers
  -- succeed, each answer is for another request that waits, its number is below 2 ^ 31, its text is JSON, and
  -- the route of its request has no protobuf definition.
  pub answers-called :
      (peer : ℕ → Bool) (answers : List Answer) (cs : List (List ℕ)) (out : List ℕ) (c : Client J)
      → ((n : ℕ) → alloc n ≡ true)
      → Encodes peer (map answer_package answers) out
      → flatten cs ≡ out
      → AllBytes cs
      → IsMap c.requests
      → c.transports i ≡ tp_working
      → AllReadable malloc grants signed_char json build printer json_loadb json_object
          c.server_protos answers
      → AllWait printer.decimal (view signed_char c.requests) answers
      → (c' : Client J) × (reads alloc signed_char rand json integer_value build printer reload
            accept json_loadb parse memory env i cs
            (with_parser parser_init c)
          ≡ ok c')
        × (c'.calls ≡ c.calls ++ map answered answers)
        × ((k : List ℕ)
            → view signed_char c'.requests k
              ≡ still printer.decimal answers (view signed_char c.requests) k)
  answers-called peer answers cs out c given sent cut bytes v works readable w =
      let (c', h, called, left) = answers-Handled answers c v works readable w in
      let (packages, all_fed) = feed_all-encode peer alloc given sent cs cut in
      (
        with_parser (feed_all alloc parser_init cs).parser c',
        reads-Handled alloc signed_char rand json integer_value build printer reload accept
            json_loadb parse memory env i given cs parser_init [] _ c c' parser_init-Holds bytes
            works packages h,
        called,
        left,
      )
