-- ===== src/Protobuf/Sample.antt =====
-- JSON values in memory, a schema and a message of it, for the runs of the protobuf codec.
use libpomelo.Common.{
  ℕ, ◌+◌, ◌-◌, ◌/◌, ◌%◌, ◌^◌, ◌<◌, refl, Bool, true, false, Option, none, some, List, [], ◌∷◌, ltb,
  if◌then◌else◌, length, take, length-take, arith,
}
use libpomelo.Common.Bytes.{same_str}
use libpomelo.Protobuf.Names
use libpomelo.Protobuf.Encode.{Jansson}
use libpomelo.Protobuf.Decode.{Builder, Printer}
use libpomelo.Protobuf.Agrees.{Widths}

mutual
  pub data Value : Type 0 where
    object : Fields → Value
    array : Items → Value
    str : List ℕ → Value
    num : ℕ → Value

  pub data Fields : Type 0 where
    end : Fields
    field : List ℕ → Value → Fields → Fields

  pub data Items : Type 0 where
    none_left : Items
    item : Value → Items → Items

abbrev pub fields : Fields → List (List ℕ × Value)
fields end = []
fields (field key v rest) = (key, v) ∷ fields rest

abbrev pub items : Items → List Value
items none_left = []
items (item v rest) = v ∷ items rest

abbrev pub lookup : List ℕ → Fields → Option Value
lookup key end = none
lookup key (field k v rest) = if same_str k key then some v else lookup key rest

abbrev pub get : Value → List ℕ → Option Value
get (object fs) key = lookup key fs
get _ key = none

abbrev pub string_of : Value → Option (List ℕ)
string_of (str s) = some s
string_of _ = none

abbrev pub is_list : Value → Bool
is_list (array vs) = true
is_list _ = false

-- Fewer than 2 ^ 64 elements.
abbrev pub items_of : Value → List Value
items_of (array vs) = take (2 ^ 64 - 1) (items vs)
items_of _ = []

abbrev pub fields_of : Value → List (List ℕ × Value)
fields_of (object fs) = fields fs
fields_of _ = []

abbrev pub number : Value → ℕ
number (num n) = n % 2 ^ 64
number _ = 0

abbrev pub values : Jansson Value
values = record {
  object_get = get;
  string_value = string_of;
  is_array = is_list;
  elements = items_of;
  members = fields_of;
  integer = number;
  uint = λ v. number v % 2 ^ 32;
  float_bytes = λ v. 0 ∷ 0 ∷ 0 ∷ 0 ∷ [];
  double_bytes = λ v. 0 ∷ 0 ∷ 0 ∷ 0 ∷ 0 ∷ 0 ∷ 0 ∷ 0 ∷ [];
}

pub number_width : (v : Value) → number v < 2 ^ 64
number_width (object fs) = omega arith
number_width (array vs) = omega arith
number_width (str s) = omega arith
number_width (num n) = omega arith

pub items_width : (v : Value) → length (items_of v) < 2 ^ 64
items_width (object fs) = omega arith
items_width (array vs) = omega (arith, length-take (2 ^ 64 - 1) (items vs))
items_width (str s) = omega arith
items_width (num n) = omega arith

pub values-Widths : Widths values
values-Widths = record {
  integer_width = number_width;
  float_width = λ v. refl;
  double_width = λ v. refl;
  array_width = items_width;
}

-- A field's definition: its option, its type and its number.
abbrev pub definition : List ℕ → List ℕ → ℕ → Value
definition option type n = object (
    field Names.option_key (str option)
      (field Names.type_key (str type) (field Names.tag_key (num n) end)))

abbrev pub name_key : List ℕ
name_key = 110 ∷ 97 ∷ 109 ∷ 101 ∷ []

abbrev pub hero_key : List ℕ
hero_key = 104 ∷ 101 ∷ 114 ∷ 111 ∷ []

abbrev pub hp_key : List ℕ
hp_key = 104 ∷ 112 ∷ []

abbrev pub bag_key : List ℕ
bag_key = 98 ∷ 97 ∷ 103 ∷ []

-- A name, a message "hero" that has an "hp", and a "bag" of numbers.
abbrev pub tag_one : List ℕ
tag_one = 49 ∷ []

abbrev pub tag_two : List ℕ
tag_two = 50 ∷ []

abbrev pub tag_three : List ℕ
tag_three = 51 ∷ []

abbrev pub hero : Value
hero = object (
    field hp_key (definition Names.required Names.uint32 1)
      (field Names.tags_key (object (field tag_one (str hp_key) end)) end))

abbrev pub tags : Fields
tags =
    field tag_one (str name_key) (field tag_two (str hero_key) (field tag_three (str bag_key) end))

abbrev pub schema : Value
schema = object (
    field name_key (definition Names.required Names.string 1) (
      field hero_key (definition Names.optional hero_key 2) (
        field bag_key (definition Names.repeated Names.uint32 3) (
          field Names.messages_key (object (field hero_key hero end))
            (field Names.tags_key (object tags) end)))))

abbrev pub player : Value
player = object (
    field name_key (str (97 ∷ 98 ∷ [])) (
      field hero_key (object (field hp_key (num 300) end))
        (field bag_key (array (item (num 5) (item (num 1) none_left))) end)))

abbrev pub player_bytes : List ℕ
player_bytes = 10 ∷ 2 ∷ 97 ∷ 98 ∷ 18 ∷ 3 ∷ 8 ∷ 172 ∷ 2 ∷ 24 ∷ 2 ∷ 5 ∷ 1 ∷ []

abbrev pub put_field : Fields → List ℕ → Value → Fields
put_field end key v = field key v end
put_field (field k w rest) key v =
    if same_str k key then field k v rest else field k w (put_field rest key v)

abbrev pub put : Value → List ℕ → Value → Value
put (object fs) key v = object (put_field fs key v)
put other key v = other

abbrev add_item : Items → Value → Items
add_item none_left v = item v none_left
add_item (item w rest) v = item w (add_item rest v)

abbrev pub add : Value → Value → Value
add (array vs) v = array (add_item vs v)
add other v = other

abbrev pub is_fields : Value → Bool
is_fields (object fs) = true
is_fields _ = false

abbrev pub built : Builder Value
built = record {
  object = object end;
  array = array none_left;
  is_object = is_fields;
  get = get;
  put = put;
  append = add;
  integer = num;
  float_real = str;
  double_real = str;
  text_value = λ bytes. some (str bytes);
}

-- The digits of a number below 100.
abbrev pub digits : Printer
digits = record {
  decimal = λ n. if ltb n 10 then (48 + n) ∷ [] else (48 + n / 10) ∷ (48 + n % 10) ∷ [];
}
