-- ===== src/Client/Session.antt =====
-- src/pkg-handshake.c: what the answer to the handshake sets up in the client.
use libpomelo.Common.{
  ℕ, ◌+◌, ◌-◌, ltb, ◌*◌, ◌%◌, ◌^◌, ◌||◌, Option, none, some, List, leb, ◌==◌, if◌then◌else◌,
}
use mathlib.Core.List.{foldl}
use libpomelo.Common.Outcome.{Outcome, ok, fault, ◌>>=◌, defined}
use libpomelo.Protobuf.Encode.{Jansson}
use libpomelo.Protobuf.Decode.{Builder, Printer}
use libpomelo.Client.{Timer, Client}
use libpomelo.Client.Keys
use libpomelo.Client.Files.{load_file, dump_file}

-- `json_integer_value`, as its pattern of 64 bits: 0 of NULL.
abbrev pub integer_of : {J : Type 0} → (J → ℕ) → Option J → ℕ
integer_of integer none = 0
integer_of integer (some v) = integer v

abbrev pub set_repeat : ℕ → Option Timer → Outcome (Option Timer)
set_repeat ms none = fault
set_repeat ms (some t) = ok (some (record t { repeat = ms }))

-- An `int`, as its pattern, in 64 bits.
abbrev pub extended : ℕ → ℕ
extended n = if leb (2 ^ 31) n then 2 ^ 64 - 2 ^ 32 + n else n

module _ {J : Type 0} where
  -- The heartbeat of hb seconds, and a timeout of PC_HEARTBEAT_TIMEOUT_FACTOR times as much; one that
  -- is 0 or negative is no heartbeat. The milliseconds are a `json_int_t`, which must not overflow, and of
  -- them an `int` keeps 32 bits, as its pattern; twice that must be an `int` too. A negative `int` is
  -- extended by its sign to the 64 bits of a repeat.
  unfoldable pub set_heartbeat : ℕ → Client J → Outcome (Client J)
  set_heartbeat hb c =
      if hb == 0 || leb (2 ^ 63) hb
      then ok (record c { heartbeat = none; timeout = none })
      else defined (ltb (hb * 1000) (2 ^ 63)) (
          let ms = hb * 1000 % 2 ^ 32 in
          let wait = ms * 2 % 2 ^ 32 in
          defined (ltb ms (2 ^ 30) || leb (3 * 2 ^ 30) ms) (
            set_repeat (extended ms) c.heartbeat_timer >>= (λ t₁.
              set_repeat (extended wait) c.timeout_timer >>= (λ t₂. ok (record c {
                heartbeat = some ms;
                timeout = some wait;
                heartbeat_timer = t₁;
                timeout_timer = t₂;
              })))))

module _ {J : Type 0} (json : Jansson J) (integer_value : J → ℕ) (build : Builder J)
    (printer : Printer) (reload : Option J → Option J) where
  abbrev pub put_route : J → List ℕ → Option J → J
  put_route codes code none = codes
  put_route codes code (some route) = build.put codes code route

  -- A round of the loop over the dictionary: the route under the low byte of its code.
  abbrev pub add_code : J → List ℕ × J → J
  add_code codes (key, value) =
      put_route codes (printer.decimal (integer_value value % 256)) (build.text_value key)

  abbrev pub set_dictionary : Option J → Client J → Client J
  set_dictionary none c = c
  set_dictionary (some dict) c = record c {
    route_to_code = some dict;
    code_to_route = some (foldl add_code build.object (json.members dict));
  }

  -- The object for the file of the version.
  abbrev pub version_object : Option J → J
  version_object none = build.object
  version_object (some v) = build.put build.object Keys.version_file v

  abbrev pub dump_sent : J → Client J → Outcome (Client J)
  dump_sent protos c =
      dump_file reload Keys.version_file
        (some (version_object (json.object_get protos Keys.version_key))) c
      >>= dump_file reload Keys.server_file c.server_protos
      >>= dump_file reload Keys.client_file c.client_protos

  abbrev pub or_file : Option J → Option J → Option J
  or_file file none = file
  or_file file (some protos) = some protos

  -- The definitions that were sent, which are written to the files, or else those that are there, or
  -- those in the files.
  abbrev pub set_sent : Option J → Client J → Outcome (Client J)
  set_sent (some protos) c = dump_sent protos (record c {
    server_protos = json.object_get protos Keys.server_key;
    client_protos = json.object_get protos Keys.client_key;
  })
  set_sent none c = ok (record c {
    server_protos = or_file (load_file Keys.server_file c) c.server_protos;
    client_protos = or_file (load_file Keys.client_file c) c.client_protos;
  })

  abbrev pub set_protos : J → Option J → Client J → Outcome (Client J)
  set_protos sys none c =
      ok (record c { server_protos = none; client_protos = none; proto_ver = none })
  set_protos sys (some use_proto) c = set_sent (json.object_get sys Keys.protos_key) c

  -- `if(sys)`
  abbrev pub set_up : Option J → Client J → Outcome (Client J)
  set_up none c = ok c
  set_up (some sys) c =
      set_heartbeat (integer_of integer_value (json.object_get sys Keys.heartbeat_key)) c >>= (λ c₁.
        set_protos sys (json.object_get sys Keys.use_proto_key)
          (set_dictionary (json.object_get sys Keys.dict_key) c₁))
