-- ===== src/Json.antt =====
-- Python's JSON-able values: what objects, payloads and metadata are made of, and `dict` with
-- string keys. The order of a dict's keys is not observed.
pub mod Dict
use epistemos.Result.{Result, ok, err, type_error}
use epistemos.Common.{
  ℕ, suc, String, Bool, true, false, List, [], ◌∷◌, ◌==◌, ◌&&◌, if◌then◌else◌, nat_eq,
}

mutual
  -- `negative n` is the integer -(n + 1). `float b` is the double whose IEEE 754 bit pattern is b.
  pub data Json : Type 0 where
    null : Json
    bool : Bool → Json
    num negative float : ℕ → Json
    str : String → Json
    arr : Items → Json
    obj : Fields → Json

  pub data Items : Type 0 where
    nil : Items
    cons : Json → Items → Items

  pub data Fields : Type 0 where
    end : Fields
    field : String → Json → Fields → Fields

-- `x == "text"` for any value x.
abbrev pub is_str : Json → String → Bool
is_str (str s) t = s == t
is_str null t = false
is_str _ t = false

abbrev pub is_null : Json → Bool
is_null null = true
is_null _ = false

abbrev pub to_list : Items → List Json
to_list nil = []
to_list (cons j js) = j ∷ to_list js

abbrev pub of_list : List Json → Items
of_list [] = nil
of_list (j ∷ js) = cons j (of_list js)

abbrev pub strs : List String → Items
strs [] = nil
strs (s ∷ ss) = cons (str s) (strs ss)

characters : String → List Json
characters String.[] = []
characters (String.◌∷◌ c s) = str (String.◌∷◌ c String.[]) ∷ characters s

keys : Fields → List Json
keys end = []
keys (field k v d) = str k ∷ keys d

-- list(value): the items of a list, the characters of a text, the keys of a dict; None, numbers and
-- Booleans are a TypeError.
unfoldable pub iterate : Json → Result (List Json)
unfolding characters keys
iterate (arr xs) = ok (to_list xs)
iterate (str s) = ok (characters s)
iterate (obj d) = ok (keys d)
iterate _ = err type_error

-- A value used as a dict.
unfoldable pub as_dict : Json → Result Fields
as_dict (obj d) = ok d
as_dict _ = err type_error
