-- ===== src/Client/Protos.antt =====
-- The protobuf definitions of a client over a reconnection: src/pkg-handshake.c writes to files what the
-- server sent, src/client.c forgets it, and the next handshake reads the files.
use libpomelo.Common.{
  ℕ, ◌≡◌, refl, ◌∙◌, ap, false, true, ◌||◌, Option, none, some, List, [], ◌∷◌, ◌++◌, ==_true,
}
use libpomelo.Common.Bytes.{same_str, same_str_refl}
use libpomelo.Common.Outcome.{ok, ◌>>=◌}
use libpomelo.Protobuf.Encode.{Jansson}
use libpomelo.Protobuf.Decode.{Builder, Printer}
use libpomelo.Protobuf.Fits.{Builds}
use libpomelo.Client.{Timer, Client, stopped}
use libpomelo.Client.Connect.{Asking, version_of}
use libpomelo.Client.Drops.{if-then, if-else, detached}
use libpomelo.Client.Files.{load_path, dump_path, with_file, load_file, dump_file}
use libpomelo.Client.Keys
use libpomelo.Client.Reset.{IsOwned, reset-ok}
use libpomelo.Client.Session.{version_object, set_sent, set_protos}
use libpomelo.Client.Stop.{quieted, renewed, reconnect_reset}

same_prefix : (dir a b : List ℕ) → same_str (dir ++ a) (dir ++ b) ≡ same_str a b
same_prefix [] a b = refl
same_prefix (d ∷ ds) a b = rw (==_true d d refl, same_prefix ds a b) refl

-- Two names are one file only if they are equal.
same_path :
    (dir : Option (List ℕ)) (a b : List ℕ)
    → same_str (load_path dir a) (load_path dir b) ≡ same_str a b
same_path none a b = refl
same_path (some dir) a b = same_prefix dir (47 ∷ a) (47 ∷ b)

module _ {J : Type 0} where
  file_written :
      (files : List ℕ → Option J) (dir : Option (List ℕ)) (name : List ℕ) (v : Option J)
      → with_file files (load_path dir name) v (load_path dir name) ≡ v
  file_written files dir name v = if-then _ _ _ (same_str_refl (load_path dir name))

  file_kept :
      (files : List ℕ → Option J) (dir : Option (List ℕ)) (name other : List ℕ) (v : Option J)
      → same_str name other ≡ false
      → with_file files (load_path dir name) v (load_path dir other) ≡ files (load_path dir other)
  file_kept files dir name other v e = if-else _ _ _ (same_path dir name other ∙ e)

  -- A client that reads the files that it writes: without directories, or with both.
  abbrev pub ReadsBack : Client J → Type 0
  ReadsBack c =
      (name : List ℕ)
      → dump_path c.proto_write_dir c.proto_read_dir name ≡ ok (load_path c.proto_read_dir name)

  dump_file-ok :
      (reload : Option J → Option J) (name : List ℕ) (v : Option J) (c : Client J)
      → ReadsBack c
      → dump_file reload name v c
        ≡ ok (record c { files = with_file c.files (load_path c.proto_read_dir name) (reload v) })
  unfolding dump_file
  dump_file-ok reload name v c same =
      ap (λ m. m >>= (λ path. ok (record c { files = with_file c.files path (reload v) })))
        (same name)

module _ {J : Type 0} (json : Jansson J) (integer_value : J → ℕ) (build : Builder J)
    (printer : Printer) (reload : Option J → Option J) where
  -- What `json_dump_file` writes without flags: an object or an array.
  abbrev pub IsContainer : J → Type 0
  IsContainer v = (build.is_object v || json.is_array v) ≡ true

  version_object-is :
      Builds build
      → (v : Option J) → IsContainer (version_object json integer_value build printer reload v)
  version_object-is builds none = rw builds.object_is refl
  version_object-is builds (some v) =
      rw (builds.put_is build.object Keys.version_file v builds.object_is) refl

  -- The files when the definitions were sent.
  abbrev files_with : J → (List ℕ → Option J) → Option (List ℕ) → List ℕ → Option J
  files_with protos files dir =
      with_file
        (with_file
          (with_file files (load_path dir Keys.version_file) (
            reload (
              some (
                version_object json integer_value build printer reload
                  (json.object_get protos Keys.version_key)))))
          (load_path dir Keys.server_file) (reload (json.object_get protos Keys.server_key)))
        (load_path dir Keys.client_file) (reload (json.object_get protos Keys.client_key))

  abbrev told : J → Client J → Client J
  told protos c = record c {
    server_protos = json.object_get protos Keys.server_key;
    client_protos = json.object_get protos Keys.client_key;
    files = files_with protos c.files c.proto_read_dir;
  }

  set_sent-told :
      (protos : J) (c : Client J)
      → ReadsBack c
      → set_sent json integer_value build printer reload (some protos) c ≡ ok (told protos c)
  set_sent-told protos c same =
      let server = json.object_get protos Keys.server_key in
      let client = json.object_get protos Keys.client_key in
      let version = some (
        version_object json integer_value build printer reload
          (json.object_get protos Keys.version_key)) in
      let dir = c.proto_read_dir in
      let c₀ : Client J = record c { server_protos = server; client_protos = client } in
      let f₁ = with_file c.files (load_path dir Keys.version_file) (reload version) in
      let f₂ = with_file f₁ (load_path dir Keys.server_file) (reload server) in
      ap
        (λ m.
          m
          >>= dump_file reload Keys.server_file server
          >>= dump_file reload Keys.client_file client)
        (dump_file-ok reload Keys.version_file version c₀ same)
      ∙ ap (λ m. m >>= dump_file reload Keys.client_file client)
          (dump_file-ok reload Keys.server_file server (record c₀ { files = f₁ }) same)
      ∙ dump_file-ok reload Keys.client_file client (record c₀ { files = f₂ }) same

  -- What is read back.
  files_with-read :
      (protos : J) (files : List ℕ → Option J) (dir : Option (List ℕ))
      → (files_with protos files dir (load_path dir Keys.server_file)
          ≡ reload (json.object_get protos Keys.server_key))
        × (files_with protos files dir (load_path dir Keys.client_file)
            ≡ reload (json.object_get protos Keys.client_key))
        × (files_with protos files dir (load_path dir Keys.version_file)
            ≡ reload (
                some (
                  version_object json integer_value build printer reload
                    (json.object_get protos Keys.version_key))))
  files_with-read protos files dir =
      let server = reload (json.object_get protos Keys.server_key) in
      let client = reload (json.object_get protos Keys.client_key) in
      let version = reload (
        some (
          version_object json integer_value build printer reload
            (json.object_get protos Keys.version_key))) in
      let f₁ = with_file files (load_path dir Keys.version_file) version in
      let f₂ = with_file f₁ (load_path dir Keys.server_file) server in
      (
        file_kept f₂ dir Keys.client_file Keys.server_file client refl
            ∙ file_written f₁ dir Keys.server_file server,
        file_written f₂ dir Keys.client_file client,
        file_kept f₂ dir Keys.client_file Keys.version_file client refl
            ∙ file_kept f₁ dir Keys.server_file Keys.version_file server refl
            ∙ file_written files dir Keys.version_file version,
      )

  -- The protobuf definitions that the server has sent once survive a reconnection: after an answer that
  -- has them, the reset, which forgets them, and an answer without them, the client has the same
  -- definitions; and its request in between states the version that the file has. The definitions of the
  -- server and of the client were both sent, each an object or an array; the client is linked, has its
  -- `timeout_timer` and no version, and reads the files that it writes; a file holds the object or the
  -- array that was written to it; and what `json_object_set` returns is an object again.
  pub protos-kept :
      (ask : Asking J) (protos sys again use_proto server client : J) (c : Client J) (t : Timer)
      → IsOwned c
      → c.timeout_timer ≡ some t
      → c.proto_ver ≡ none
      → ReadsBack c
      → ((v : J) → IsContainer v → reload (some v) ≡ some v)
      → Builds build
      → json.object_get sys Keys.protos_key ≡ some protos
      → json.object_get again Keys.protos_key ≡ none
      → json.object_get protos Keys.server_key ≡ some server
      → json.object_get protos Keys.client_key ≡ some client
      → IsContainer server
      → IsContainer client
      → (c₁ c₂ c₃ : Client J) × (set_protos json integer_value build printer reload sys
            (some use_proto)
            c
          ≡ ok c₁)
        × (reconnect_reset c₁ ≡ ok c₂)
        × (c₂.server_protos ≡ none)
        × (c₂.client_protos ≡ none)
        × (set_protos json integer_value build printer reload again (some use_proto) c₂ ≡ ok c₃)
        × (c₃.server_protos ≡ some server)
        × (c₃.client_protos ≡ some client)
        × (version_of ask c₂.proto_ver (load_file Keys.version_file c₂)
            ≡ ask.get
                (version_object json integer_value build printer reload
                  (json.object_get protos Keys.version_key))
                Keys.version_file)
  unfolding load_file
  protos-kept ask protos sys again use_proto server client c t owned timer unset same kept builds
        sent unsent has_server has_client whole_server whole_client =
      let dir = c.proto_read_dir in
      let (ts, reset, silent, off) = reset-ok (told protos c) t owned timer in
      let (server_read, client_read, version_read) =
        files_with-read protos c.files c.proto_read_dir in
      let c₂ : Client J = renewed (some (stopped t)) (quieted (detached ts (told protos c))) in
      (
        told protos c,
        c₂,
        _,
        ap (λ z. set_sent json integer_value build printer reload z c) sent
            ∙ set_sent-told protos c same,
        reset,
        refl,
        refl,
        ap (λ z. set_sent json integer_value build printer reload z c₂) unsent,
        server_read ∙ ap reload has_server ∙ kept server whole_server,
        client_read ∙ ap reload has_client ∙ kept client whole_client,
        ap (λ v. version_of ask v (files_with protos c.files dir (load_path dir Keys.version_file)))
              unset
            ∙ ap (version_of ask none) (
                version_read
                ∙ kept _ (version_object-is builds (json.object_get protos Keys.version_key))),
      )
