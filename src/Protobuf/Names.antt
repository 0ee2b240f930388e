-- ===== src/Protobuf/Names.antt =====
-- The strings of src/pb-util.c, src/pb-encode.c and src/pb-decode.c, in ASCII.
use libpomelo.Common.{ℕ, List, [], ◌∷◌}

-- "uInt32"
abbrev pub uint32 : List ℕ
uint32 = 117 ∷ 73 ∷ 110 ∷ 116 ∷ 51 ∷ 50 ∷ []

-- "int32"
abbrev pub int32 : List ℕ
int32 = 105 ∷ 110 ∷ 116 ∷ 51 ∷ 50 ∷ []

-- "sInt32"
abbrev pub sint32 : List ℕ
sint32 = 115 ∷ 73 ∷ 110 ∷ 116 ∷ 51 ∷ 50 ∷ []

-- "float"
abbrev pub float : List ℕ
float = 102 ∷ 108 ∷ 111 ∷ 97 ∷ 116 ∷ []

-- "double"
abbrev pub double : List ℕ
double = 100 ∷ 111 ∷ 117 ∷ 98 ∷ 108 ∷ 101 ∷ []

-- "string"
abbrev pub string : List ℕ
string = 115 ∷ 116 ∷ 114 ∷ 105 ∷ 110 ∷ 103 ∷ []

-- "type"
abbrev pub type_key : List ℕ
type_key = 116 ∷ 121 ∷ 112 ∷ 101 ∷ []

-- "tag"
abbrev pub tag_key : List ℕ
tag_key = 116 ∷ 97 ∷ 103 ∷ []

-- "option"
abbrev pub option_key : List ℕ
option_key = 111 ∷ 112 ∷ 116 ∷ 105 ∷ 111 ∷ 110 ∷ []

-- "required"
abbrev pub required : List ℕ
required = 114 ∷ 101 ∷ 113 ∷ 117 ∷ 105 ∷ 114 ∷ 101 ∷ 100 ∷ []

-- "optional"
abbrev pub optional : List ℕ
optional = 111 ∷ 112 ∷ 116 ∷ 105 ∷ 111 ∷ 110 ∷ 97 ∷ 108 ∷ []

-- "repeated"
abbrev pub repeated : List ℕ
repeated = 114 ∷ 101 ∷ 112 ∷ 101 ∷ 97 ∷ 116 ∷ 101 ∷ 100 ∷ []

-- "__messages"
abbrev pub messages_key : List ℕ
messages_key = 95 ∷ 95 ∷ 109 ∷ 101 ∷ 115 ∷ 115 ∷ 97 ∷ 103 ∷ 101 ∷ 115 ∷ []

-- "__tags"
abbrev pub tags_key : List ℕ
tags_key = 95 ∷ 95 ∷ 116 ∷ 97 ∷ 103 ∷ 115 ∷ []

-- "message "
abbrev pub message_head : List ℕ
message_head = 109 ∷ 101 ∷ 115 ∷ 115 ∷ 97 ∷ 103 ∷ 101 ∷ 32 ∷ []
