-- ===== src/Schema/Upgrade.antt =====
-- schema.py: the rounds of the loop of migrate_export, and the version it leaves.
use epistemos.Common.{
  ℕ, zero, suc, ◌≡◌, refl, ap, sym, ◌∙◌, inl, inr, some, arith, true, false, ◌≤◌, if◌then◌else◌,
  Bool-cases, String, nat_eq, nat_eq_iff,
}
use epistemos.Result.{Result, ok, err, bind-ok, ok_injective, schema}
use epistemos.Json.{num, Fields, Json, iterate, arr, nil, of_list}
use epistemos.Json.Dict.{find, get_or, put, find-put}
use epistemos.Host.{Host, ℤ, pos, negsuc, int_of}
use epistemos.Schema.{
  upgrade, upgrade_fuel, migrate_export, v0_to_v1, migrations, schema_version, upgrade_each,
  is_current, is_newer, out_of,
}

current_eq : (n : ℕ) → is_current (pos (suc n)) ≡ true → nat_eq (suc n) 1 ≡ true
unfolding is_current
current_eq n e = e

newer : (n : ℕ) → is_current (pos (suc n)) ≡ false → is_newer (pos (suc n)) ≡ true
unfolding is_current is_newer
newer n e = ground arith

get_or-found :
    (k : String) (w : Json) (d : Fields) {v : Json} → find k d ≡ some v → get_or k w d ≡ v
get_or-found k w d e = rw (get_or, e) refl

put_version : (p : Fields) → find "schema_version" (put "schema_version" (num 1) p) ≡ some (num 1)
put_version p = find-put "schema_version" "schema_version" (num 1) p

v0_to_v1_version :
    (payload p : Fields) → v0_to_v1 payload ≡ ok p → find "schema_version" p ≡ some (num 1)
unfolding v0_to_v1
v0_to_v1_version payload p e =
    let (evs, _, rest) = bind-ok (iterate (get_or "events" (arr nil) payload)) _ e in
    let (events, _, last) = bind-ok (upgrade_each evs) _ rest in
    rw (sym (ok_injective last)) (put_version (put "events" (arr (of_list events)) payload))

enough_for :
    (P : ℕ → Type 0)
    → ((extra : ℕ) → P (suc (suc extra)))
    → (fuel : ℕ) → upgrade_fuel ≤ fuel
    → P fuel
enough_for P all zero enough = absurd (omega (arith, enough))
enough_for P all (suc zero) enough = absurd (omega (arith, enough))
enough_for P all (suc (suc extra)) enough = all extra

module _ (h : Host) where
  -- The export states the current version.
  abbrev pub IsCurrent : Fields → Type 0
  IsCurrent p = int_of h (get_or "schema_version" (num 0) p) ≡ ok (pos schema_version)

  upgrade_v0 :
      (payload : Fields) (r : Result Fields)
      → v0_to_v1 payload ≡ r
      → (extra : ℕ) → upgrade h (suc (suc extra)) (pos 0) payload ≡ some r
  unfolding upgrade migrations int_of
  upgrade_v0 payload (err x) e extra = rw e refl
  upgrade_v0 payload (ok p) e extra = rw (e, v0_to_v1_version payload p e) refl

  upgrade_negative :
      (payload : Fields) (n : ℕ) → upgrade h upgrade_fuel (negsuc n) payload ≡ some (err schema)
  unfolding upgrade migrations
  upgrade_negative payload n = refl

  upgrade-suc :
      (version : ℤ) (payload : Fields)
      → (r : Result Fields) × ((extra : ℕ) → upgrade h (suc (suc extra)) version payload ≡ some r)
  unfolding upgrade migrations
  upgrade-suc (pos zero) payload = (v0_to_v1 payload, upgrade_v0 payload _ refl)
  upgrade-suc (pos (suc n)) payload = (ok payload, λ extra. ground arith)
  upgrade-suc (negsuc n) payload = (err schema, λ extra. refl)

  -- The loop of migrate_export ends within two rounds, whatever the export's version and events:
  -- with that fuel it has a result, and any more fuel gives the same one.
  pub upgrade_terminates :
      (version : ℤ) (payload : Fields)
      → (r : Result Fields) × ((fuel : ℕ)
          → upgrade_fuel ≤ fuel
          → upgrade h fuel version payload ≡ some r)
  upgrade_terminates version payload =
      let (r, same) = upgrade-suc version payload in
      (r, λ fuel enough. enough_for (λ n. upgrade h n version payload ≡ some r) same fuel enough)

  -- Whatever migrate_export returns states the current version.
  pub migrate_export-IsCurrent :
      (payload p : Fields) → migrate_export h payload ≡ ok p → IsCurrent p
  unfolding migrate_export int_of out_of
  migrate_export-IsCurrent payload p e =
      let (version, at, rest) = bind-ok (int_of h (get_or "schema_version" (num 0) payload)) _ e in
      from version at rest
    where
      from :
          (version : ℤ)
          → int_of h (get_or "schema_version" (num 0) payload) ≡ ok version
          → (if is_current version
              then ok payload
              else if is_newer version
              then err schema
              else out_of (upgrade h upgrade_fuel version payload))
            ≡ ok p
          → IsCurrent p
      from (pos zero) at rest = ap (int_of h) (
          get_or-found "schema_version" (num 0) p (
            v0_to_v1_version payload p (rw (upgrade_v0 payload (v0_to_v1 payload) refl 0) at rest)))
      from (pos (suc n)) at rest = elim (Bool-cases (is_current (pos (suc n)))) [
        | inl now ↦
            rw (sym (ok_injective (rw now at rest)))
              (at ∙ ap (λ m. ok (pos m)) ((nat_eq_iff (suc n) 1).0 (current_eq n now)))
        | inr other ↦ cc (rw (other, newer n other) at rest)
      ]
      from (negsuc n) at rest = cc (rw (upgrade_negative payload n) at rest)
