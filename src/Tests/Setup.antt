-- ===== src/Tests/Setup.antt =====
-- A host whose functions are simple and concrete, an engine over it, and two principals.
use Prim.Native.String.{◌++◌ as text_append}
use epistemos.Common.{ℕ, String, true, false, Option, none, some, length, codes}
use epistemos.Json.{
  Json, null, bool, num, negative, float, str, arr, obj, Items, nil, cons, Fields, end, field,
}
use epistemos.Result.{err, value_error}
use epistemos.Host.{Host, one}
use epistemos.Identity.{Principal, default_caps}
use epistemos.Claims.Policy.{local_default_policy}
use epistemos.Engine.Base.{Engine, Call, default_limits}

abbrev mutual
  pub print : Json → String
  print null = "null"
  print (bool true) = "true"
  print (bool false) = "false"
  print (num n) = "0"
  print (negative n) = "-1"
  print (float b) = "0.5"
  print (str s) = text_append "'" (text_append s "'")
  print (arr xs) = text_append "[" (print_items xs)
  print (obj d) = text_append "{" (print_fields d)

  pub print_items : Items → String
  print_items nil = "]"
  print_items (cons x xs) = text_append (print x) (text_append "," (print_items xs))

  pub print_fields : Fields → String
  print_fields end = "}"
  print_fields (field k v d) =
      text_append k (text_append ":" (text_append (print v) (text_append "," (print_fields d))))

abbrev pub double_of : Json → Option ℕ
double_of (float b) = some b
double_of (num n) = some one
double_of _ = none

-- A digest that keeps the whole text, and instants that are lengths of texts.
abbrev pub host : Host
host = record {
  canonical_json = print;
  sha256_hex = λ s. text_append "#" s;
  strip = λ s. s;
  replace_z = λ s. s;
  fromisoformat = λ s. some (length (codes s));
  to_float = double_of;
  int_of_text = λ s. none;
  int_of_float = λ b. err value_error;
  add_float = λ a b. a;
  to_str = λ j. print j;
  lower = λ s. s;
  upper = λ s. s;
}

abbrev pub engine : Engine
unfolding local_default_policy
engine = record { host = host; limits = default_limits; policy = local_default_policy host }

-- The same, with its host and its limits in sight.
abbrev pub open_engine : Engine
open_engine = record { host = host; limits = default_limits; policy = engine.policy }

abbrev pub first_call : Call
first_call = record { now = "2026-01-01T00:00:00Z"; new_id = λ prefix n. text_append prefix "_1" }

abbrev pub second_call : Call
second_call = record { now = "2026-01-02T00:00:00Z"; new_id = λ prefix n. text_append prefix "_2" }

abbrev pub alice : Principal
alice = record {
  tenant = "acme";
  agent = "alice";
  namespace = "hr";
  principal = none;
  capabilities = default_caps;
}

abbrev pub bob : Principal
bob = record {
  tenant = "acme";
  agent = "bob";
  namespace = "hr";
  principal = none;
  capabilities = default_caps;
}
