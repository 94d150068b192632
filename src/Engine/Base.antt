-- ===== src/Engine/Base.antt =====
-- core/__init__.py: the engine's limits and its validation helpers.
use Prim.Native.String.{len}
use epistemos.Common.{
  ℕ, ◌+◌, String, Bool, not, Option, none, some, List, [], ◌∷◌, ◌&&◌, ◌||◌, nat_eq, ltb,
  if◌then◌else◌, length, any, codes,
}
use epistemos.Result.{Result, ok, err, validation, value_error, ◌>>=◌}
use epistemos.Json.{Json, null, float, str, arr, obj, Items, nil, cons, Fields, end, field}
use epistemos.Host.{Host, parse_instant, is_finite}
use epistemos.Model.{in_unit}
use epistemos.Claims.Policy.{Policy}

pub record Limits : Type 0 where
  pub max_str : ℕ
  pub max_uri : ℕ
  pub max_text : ℕ
  pub max_document_bytes : ℕ
  pub max_metadata_bytes : ℕ
  pub max_json_depth : ℕ
  pub max_graph_nodes : ℕ
  pub max_hops : ℕ
  pub allowed_doc_mime : List String

abbrev pub default_limits : Limits
default_limits = record {
  max_str = 4096;
  max_uri = 2048;
  max_text = 1000000;
  max_document_bytes = 5242880;
  max_metadata_bytes = 65536;
  max_json_depth = 32;
  max_graph_nodes = 10000;
  max_hops = 8;
  allowed_doc_mime =
      "text/plain" ∷ "text/markdown" ∷ "application/json" ∷ "text/html" ∷ "text/csv" ∷ [];
}

abbrev pub max_annotations : ℕ
max_annotations = 256

-- What an engine is made with, beside its store.
pub record Engine : Type 0 where
  pub host : Host
  pub limits : Limits
  pub policy : Policy

-- What one call draws from outside: the clock's reading, as `_now()` renders it, and the ids that
-- `new_id(prefix)` gives, by prefix and by how many were drawn before.
pub record Call : Type 0 where
  pub now : String
  pub new_id : String → ℕ → String

-- ord(c) < 0x20 and c not in "\t\n\r", or NUL
abbrev pub is_control : ℕ → Bool
is_control c = ltb c 32 && not (nat_eq c 9 || nat_eq c 10 || nat_eq c 13)

-- json.dumps(allow_nan=False) raises ValueError on a float that is NaN or infinite.
mutual
  all_finite : Json → Bool
  all_finite (float b) = is_finite b
  all_finite (arr xs) = items_finite xs
  all_finite (obj d) = fields_finite d
  all_finite _ = Bool.true

  items_finite : Items → Bool
  items_finite nil = Bool.true
  items_finite (cons v xs) = all_finite v && items_finite xs

  fields_finite : Fields → Bool
  fields_finite end = Bool.true
  fields_finite (field k v d) = all_finite v && fields_finite d

mutual
  -- `_json_depth(obj, current)`; the greater of the depths of the values, or `current` if there are
  -- none.
  json_depth : Json → ℕ → ℕ
  json_depth (obj d) current = fields_depth d (current + 1) current
  json_depth (arr xs) current = items_depth xs (current + 1) current
  json_depth _ current = current

  fields_depth : Fields → ℕ → ℕ → ℕ
  fields_depth end at best = best
  fields_depth (field k v d) at best =
      Prim.Native.Nat.max (json_depth v at) (fields_depth d at best)

  items_depth : Items → ℕ → ℕ → ℕ
  items_depth nil at best = best
  items_depth (cons v xs) at best = Prim.Native.Nat.max (json_depth v at) (items_depth xs at best)

module _ (e : Engine) where
  -- `max_len or self.limits.max_str`
  abbrev limit_of : Option ℕ → ℕ
  limit_of none = e.limits.max_str
  limit_of (some n) = if nat_eq n 0 then e.limits.max_str else n

  checked_text : String → ℕ → Result String
  checked_text s limit =
      if ltb limit (length (codes s))
      then err validation
      else if any is_control (codes s)
      then err validation
      else ok s

  -- `_str(value, max_len=...)`, which refuses None
  unfoldable pub text_arg : Json → Option ℕ → Result String
  unfolding checked_text
  text_arg (str s) max_len = checked_text s (limit_of max_len)
  text_arg _ max_len = err validation

  -- `_str(value, max_len=..., allow_none=True)`
  unfoldable pub optional_text : Json → Option ℕ → Result Json
  optional_text null max_len = ok null
  optional_text v max_len = do s ← text_arg v max_len; ok (str s)

  -- `_confidence(value)`: the double's bit pattern
  unfoldable pub confidence_arg : Json → Result Json
  confidence_arg v = elim (e.host.to_float v) [
    | none ↦ err validation
    | some f ↦ if in_unit f then ok (float f) else err validation
  ]

  -- `_instant(value)` gives the value back
  unfoldable pub instant_arg : Json → Result Json
  instant_arg v = elim (parse_instant e.host v) [ ok _ ↦ ok v | err _ ↦ err validation ]

  checked_metadata : Fields → Result Fields
  unfolding json_depth all_finite
  checked_metadata d =
      if not (all_finite (obj d))
      then err value_error
      else if ltb e.limits.max_metadata_bytes (len (e.host.canonical_json (obj d)))
      then err validation
      else if ltb e.limits.max_json_depth (json_depth (obj d) 0)
      then err validation
      else ok d

  unfoldable pub metadata_arg : Json → Result Json
  unfolding checked_metadata
  metadata_arg null = ok (obj end)
  metadata_arg (obj d) = do m ← checked_metadata d; ok (obj m)
  metadata_arg _ = err validation
