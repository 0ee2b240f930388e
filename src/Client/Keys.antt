-- ===== src/Client/Keys.antt =====
-- The strings of src/pkg-handshake.c, in ASCII.
use libpomelo.Common.{ℕ, List, [], ◌∷◌}

-- "code"
abbrev pub code_key : List ℕ
code_key = 99 ∷ 111 ∷ 100 ∷ 101 ∷ []

-- "sys"
abbrev pub sys_key : List ℕ
sys_key = 115 ∷ 121 ∷ 115 ∷ []

-- "heartbeat"
abbrev pub heartbeat_key : List ℕ
heartbeat_key = 104 ∷ 101 ∷ 97 ∷ 114 ∷ 116 ∷ 98 ∷ 101 ∷ 97 ∷ 116 ∷ []

-- "dict"
abbrev pub dict_key : List ℕ
dict_key = 100 ∷ 105 ∷ 99 ∷ 116 ∷ []

-- "useProto"
abbrev pub use_proto_key : List ℕ
use_proto_key = 117 ∷ 115 ∷ 101 ∷ 80 ∷ 114 ∷ 111 ∷ 116 ∷ 111 ∷ []

-- "protos"
abbrev pub protos_key : List ℕ
protos_key = 112 ∷ 114 ∷ 111 ∷ 116 ∷ 111 ∷ 115 ∷ []

-- "server"
abbrev pub server_key : List ℕ
server_key = 115 ∷ 101 ∷ 114 ∷ 118 ∷ 101 ∷ 114 ∷ []

-- "client"
abbrev pub client_key : List ℕ
client_key = 99 ∷ 108 ∷ 105 ∷ 101 ∷ 110 ∷ 116 ∷ []

-- "user"
abbrev pub user_key : List ℕ
user_key = 117 ∷ 115 ∷ 101 ∷ 114 ∷ []

-- "serverProtos"
abbrev pub server_file : List ℕ
server_file = 115 ∷ 101 ∷ 114 ∷ 118 ∷ 101 ∷ 114 ∷ 80 ∷ 114 ∷ 111 ∷ 116 ∷ 111 ∷ 115 ∷ []

-- "clientProtos"
abbrev pub client_file : List ℕ
client_file = 99 ∷ 108 ∷ 105 ∷ 101 ∷ 110 ∷ 116 ∷ 80 ∷ 114 ∷ 111 ∷ 116 ∷ 111 ∷ 115 ∷ []

-- "version"
abbrev pub version_key : List ℕ
version_key = 118 ∷ 101 ∷ 114 ∷ 115 ∷ 105 ∷ 111 ∷ 110 ∷ []

-- "type"
abbrev pub sys_type_key : List ℕ
sys_type_key = 116 ∷ 121 ∷ 112 ∷ 101 ∷ []

-- "protoVersion"
abbrev pub version_file : List ℕ
version_file = 112 ∷ 114 ∷ 111 ∷ 116 ∷ 111 ∷ 86 ∷ 101 ∷ 114 ∷ 115 ∷ 105 ∷ 111 ∷ 110 ∷ []

-- "c"
abbrev pub pc_type : List ℕ
pc_type = 99 ∷ []

-- "0.3.4"
abbrev pub pc_version : List ℕ
pc_version = 48 ∷ 46 ∷ 51 ∷ 46 ∷ 52 ∷ []
