-- ===== src/Schema.antt =====
-- schema.py: upgrading an export of an older schema, one version at a time.
pub mod Upgrade
use epistemos.Common.{
  ℕ, zero, suc, ◌+◌, String, Bool, true, false, Option, none, some, List, [], ◌∷◌, ltb,
  if◌then◌else◌, leb, nat_eq,
}
use epistemos.Result.{Result, ok, err, schema, ◌>>=◌}
use epistemos.Json.{
  Json, null, num, str, arr, obj, nil, Fields, end, of_list, iterate, as_dict, is_str, is_null,
}
use epistemos.Json.Dict.{find, get, get_or, has, put, remove}
use epistemos.Host.{Host, ℤ, pos, negsuc, int_of}

-- SCHEMA_VERSION, which is CURRENT_SCHEMA
abbrev pub schema_version : ℕ
schema_version = 1

-- p[new] = p.pop(old), if there is such a key
abbrev rename : String → String → Fields → Fields
rename old new p = elim (find old p) [ none ↦ p | some v ↦ put new v (remove old p) ]

-- p.setdefault(k, v)
abbrev setdefault : String → Json → Fields → Fields
setdefault k v p = if has k p then p else put k v p

unfoldable pub upgrade_fact : Fields → Fields
upgrade_fact p =
    let renamed = rename "valid_end" "valid_to" (rename "valid_start" "valid_from" p) in
    let filled = setdefault "valid_to" null (setdefault "valid_from" null renamed) in
    let status = if is_null (get "tx_to" filled) then "asserted" else "superseded" in
    put "schema_version" (num 1) (setdefault "status" (str status) filled)

unfoldable pub upgrade_event : Json → Result Json
unfolding upgrade_fact
upgrade_event ev = do
  e ← as_dict ev
  p ← as_dict (get_or "payload" (obj end) e)
  ok (obj (put "payload" (obj (if is_str (get "kind" p) "fact" then upgrade_fact p else p)) e))

upgrade_each : List Json → Result (List Json)
upgrade_each [] = ok []
upgrade_each (ev ∷ evs) = do e ← upgrade_event ev; es ← upgrade_each evs; ok (e ∷ es)

-- `_v0_to_v1`. A `dict(...)` of what is no dict raises a TypeError here.
unfoldable pub v0_to_v1 : Fields → Result Fields
unfolding upgrade_each upgrade_event
v0_to_v1 payload = do
  evs ← iterate (get_or "events" (arr nil) payload)
  events ← upgrade_each evs
  ok (put "schema_version" (num 1) (put "events" (arr (of_list events)) payload))

-- MIGRATIONS.get(version)
unfoldable pub migrations : ℤ → Option (Fields → Result Fields)
migrations (pos zero) = some v0_to_v1
migrations _ = none

abbrev next : ℤ → Json
next (pos n) = num (n + 1)
next (negsuc zero) = num 0
next (negsuc (suc n)) = epistemos.Json.negative n

-- version < CURRENT_SCHEMA
abbrev is_older : ℤ → Bool
is_older (pos n) = ltb n schema_version
is_older (negsuc n) = true

abbrev pub upgrade_fuel : ℕ
upgrade_fuel = 2

out_of : Option (Result Fields) → Result Fields
out_of none = err schema
out_of (some r) = r

is_current : ℤ → Bool
is_current (pos n) = nat_eq n schema_version
is_current (negsuc n) = false

is_newer : ℤ → Bool
is_newer (pos n) = ltb schema_version n
is_newer (negsuc n) = false

module _ (h : Host) where
  -- The loop; `none` means that the fuel ran out.
  unfoldable pub upgrade : ℕ → ℤ → Fields → Option (Result Fields)
  upgrade zero version payload = none
  upgrade (suc fuel) version payload =
      if is_older version
      then elim (migrations version) [
        | none ↦ some (err schema)
        | some migration ↦ elim (migration payload) [
          | err x ↦ some (err x)
          | ok p ↦ elim (int_of h (get_or "schema_version" (next version) p)) [
            | err x ↦ some (err x)
            | ok v ↦ upgrade fuel v p
          ]
        ]
      ]
      else some (ok payload)

  -- `migrate_export`, of a dict
  unfoldable pub migrate_export : Fields → Result Fields
  unfolding out_of is_current is_newer
  migrate_export payload = do
    version ← int_of h (get_or "schema_version" (num 0) payload)
    if is_current version
        then ok payload
        else if is_newer version
        then err schema
        else out_of (upgrade upgrade_fuel version payload)
