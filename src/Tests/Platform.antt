-- ===== src/Tests/Platform.antt =====
-- A small JSON and a hash of names, for running the operations.
use cs.Base.{
  ℕ, ◌≤◌, ◌<◌, ◌≡◌, refl, Bool, ◌&&◌, Option, none, some, List, if◌then◌else◌, ◌==◌, text_eq, ltb,
  leb, arith, length,
}
use cs.Base.Text.{Text}
use cs.Base.Decimal.{usize_mod}
use cs.Discord.{Message}
use cs.Distributed.Wire.{Json, Platform}

mutual
  pub data Value : Type 0 where
    null : Value
    boolean : Bool → Value
    number : ℕ → Value
    string : Text → Value
    texts : List Text → Value
    message_list : List Message → Value
    object : Fields → Value

  pub data Fields : Type 0 where
    empty : Fields
    field : Text → Value → Fields → Fields

abbrev insert : Fields → Text → Value → Fields
insert m k v = field k v m

abbrev lookup : Fields → Text → Option Value
lookup empty i = none
lookup (field k v m) i = if k == i then some v else lookup m i

abbrev get : Value → Text → Option Value
get (object m) k = lookup m k
get _ k = none

abbrev set : Value → Text → Value → Value
set (object m) k v = object (insert m k v)
set w k v = w

abbrev as_str : Value → Option Text
as_str (string t) = some t
as_str _ = none

abbrev as_u64 : Value → Option ℕ
as_u64 (number n) = if ltb n usize_mod then some n else none
as_u64 _ = none

abbrev as_bool : Value → Option Bool
as_bool (boolean b) = some b
as_bool _ = none

pub as_u64-number : (n : ℕ) → n < usize_mod → as_u64 (number n) ≡ some n
as_u64-number n h = ground arith

abbrev pub json : Json
json = record {
  Value = Value;
  Map = Fields;
  empty = empty;
  insert = insert;
  lookup = lookup;
  object = object;
  string = string;
  number = number;
  boolean = boolean;
  null = null;
  get = get;
  set = set;
  as_str = as_str;
  as_u64 = as_u64;
  as_bool = as_bool;
  lookup-empty = λ k. refl;
  lookup-insert = λ m k i v. refl;
  get-object = λ m k. refl;
  set-object = λ m k v. refl;
  as_str-string = λ t. refl;
  as_u64-number = as_u64-number;
  as_u64-null = refl;
  as_bool-boolean = λ b. refl;
}

abbrev from_unit : Value → Option (Unit {0})
from_unit null = some tt
from_unit _ = none

abbrev from_texts : Value → Option (List Text)
from_texts (texts ts) = some ts
from_texts _ = none

abbrev from_message_list : Value → Option (List Message)
from_message_list (message_list ms) = some ms
from_message_list _ = none

abbrev from_u16 : ℕ → Option ℕ
from_u16 n = if leb 100 n && ltb n 1000 then some n else none

pub from_u16_valid : (n : ℕ) → 100 ≤ n → n < 1000 → from_u16 n ≡ some n
from_u16_valid n lo hi = ground arith

abbrev pub platform : Platform
platform = record {
  json = json;
  from_u16 = from_u16;
  from_u16_valid = from_u16_valid;
  unit = record { to_value = λ _. null; from_value = from_unit; from_value-to_value = λ _. refl };
  text = record { to_value = string; from_value = as_str; from_value-to_value = λ _. refl };
  texts = record { to_value = texts; from_value = from_texts; from_value-to_value = λ _. refl };
  message_list = record {
    to_value = message_list;
    from_value = from_message_list;
    from_value-to_value = λ _. refl;
  };
  hash = length;
}
