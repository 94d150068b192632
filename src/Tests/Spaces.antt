-- ===== src/Tests/Spaces.antt =====
-- spaces/__init__.py and core/__init__.py: a space's dict, a promotion, and a revoked grant.
use epistemos.Common.{◌≡◌, refl, ◌↔◌, true, false, none, [], ◌∷◌, All}
use epistemos.Result.{ok}
use epistemos.Json.{Json, str, num, bool, Fields, end, field}
use epistemos.Json.Dict.{item}
use epistemos.Ledger.{Op, LedgerRecord, genesis_hash}
use epistemos.Spaces.{Visibility, KnowledgeSpace, space_to_dict, space_from_dict}
use epistemos.Spaces.RoundTrip.{space_round_trip}
use epistemos.Storage.{Objects}
use epistemos.Storage.Lookup.{IsStorable}
use epistemos.Engine.Read.{grant_id, is_member}
use epistemos.Engine.Apply.{apply}
use epistemos.Engine.Apply.Laws.{IsTarget}
use epistemos.Engine.Apply.Revoked.{apply_revoked_denies}
use epistemos.Engine.Placement.{check_monotone}
use epistemos.Engine.Placement.Monotone.{IsNoWider, check_monotone_iff}
use epistemos.Tests.Setup.{host}

abbrev lab : KnowledgeSpace
lab = record {
  id = "space_1";
  tenant = "acme";
  name = "lab";
  kind = "TEAM";
  visibility = Visibility.team;
  owner = "alice";
  created_at = "2026-01-01T00:00:00Z";
  policy = end;
  metadata = field "namespace" (str "hr") end;
}

space_round_trip_example : space_from_dict host (space_to_dict lab) ≡ ok lab
unfolding epistemos.Json.Dict.find
space_round_trip_example = space_round_trip host lab refl refl refl

abbrev lab_objects : Objects
lab_objects = ("space_1", space_to_dict lab) ∷ []

check_monotone_iff_example :
    (check_monotone host Visibility.organization (str "space_1" ∷ []) lab_objects ≡ ok tt)
    ↔ All (IsNoWider host Visibility.organization lab_objects) (str "space_1" ∷ [])
check_monotone_iff_example =
    check_monotone_iff host Visibility.organization lab_objects (str "space_1" ∷ [])

abbrev grant : Fields
grant = field "id" (str "grant_space_1_bob") (
    field "kind" (str "grant")
      (field "tenant" (str "acme") (field "namespace" (str "hr") (field "active" (bool true) end))))

abbrev grants : Objects
grants = ("grant_space_1_bob", grant) ∷ []

abbrev revocation : LedgerRecord
revocation = record {
  seq = 2;
  ts = "2026-01-02T00:00:00Z";
  op = Op.capability_revoked;
  tenant = "acme";
  namespace = "hr";
  actor = "alice";
  principal = none;
  payload = field "grant_id" (str "grant_space_1_bob") end;
  content_hash = "";
  prev_hash = genesis_hash;
  entry_hash = "";
}

names_grant : item "grant_id" revocation.payload ≡ ok (str (grant_id "space_1" "bob"))
unfolding epistemos.Json.Dict.find grant_id
names_grant = refl

grant-IsTarget : IsTarget revocation grants (str (grant_id "space_1" "bob")) grant
unfolding epistemos.Storage.get_object epistemos.Storage.lookup grant_id epistemos.Json.Dict.find
grant-IsTarget = record { found = refl; scope = refl }

grant-IsStorable : IsStorable (grant_id "space_1" "bob") grant
unfolding epistemos.Json.Dict.find grant_id
grant-IsStorable = record { id = refl; kind = refl; tenant = refl; namespace = refl }

apply_revoked_denies_example :
    ((apply revocation Op.capability_revoked grants).0 ≡ ok tt)
    × (is_member (apply revocation Op.capability_revoked grants).1 (str "space_1") "bob" ≡ false)
apply_revoked_denies_example =
    apply_revoked_denies revocation grants grant "space_1" "bob" names_grant grant-IsTarget
      grant-IsStorable
