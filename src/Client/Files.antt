-- ===== src/Client/Files.antt =====
-- src/pkg-handshake.c: the files of protobuf definitions. A client whose user has set `proto_event_cb`
-- has no files, and is not modelled. The memory of a path is taken as given. `reload` says what
-- `json_load_file` reads of a file that `json_dump_file` wrote, `none` for NULL.
use libpomelo.Common.{ℕ, Option, none, some, List, ◌∷◌, ◌++◌, if◌then◌else◌}
use libpomelo.Common.Bytes.{same_str}
use libpomelo.Common.Outcome.{Outcome, ok, fault, ◌>>=◌}
use libpomelo.Client.{Client}

-- `strcat(path, "/")` and the name.
abbrev pub in_dir : List ℕ → List ℕ → List ℕ
in_dir dir name = dir ++ 47 ∷ name

abbrev pub load_path : Option (List ℕ) → List ℕ → List ℕ
load_path none name = name
load_path (some dir) name = in_dir dir name

-- With `proto_write_dir` the path is made of `proto_read_dir`, whose length is taken untested.
abbrev pub dump_path : Option (List ℕ) → Option (List ℕ) → List ℕ → Outcome (List ℕ)
dump_path none read_dir name = ok name
dump_path (some dir) none name = fault
dump_path (some dir) (some read_dir) name = ok (in_dir read_dir name)

module _ {J : Type 0} where
  abbrev pub with_file : (List ℕ → Option J) → List ℕ → Option J → List ℕ → Option J
  with_file files path v p = if same_str path p then v else files p

  -- `pc__load_file`; `none` leaves `dest` as it is.
  unfoldable pub load_file : List ℕ → Client J → Option J
  load_file name c = c.files (load_path c.proto_read_dir name)

  -- `pc__dump_file`
  unfoldable pub dump_file :
      (Option J → Option J) → List ℕ → Option J → Client J → Outcome (Client J)
  dump_file reload name v c =
      dump_path c.proto_write_dir c.proto_read_dir name
      >>= (λ path. ok (record c { files = with_file c.files path (reload v) }))
