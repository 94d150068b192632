-- ===== src/Engine/Apply/Revoked.antt =====
-- core/__init__.py: a revoked grant makes no member.
use epistemos.Common.{
  ◌≡◌, refl, ◌∙◌, ap, true, false, some, String, ◌==◌, eq_refl, if◌then◌else◌, Bool, ◌&&◌,
}
use epistemos.Result.{ok}
use epistemos.Json.{str, bool, Fields, is_str}
use epistemos.Json.Dict.{find, get, has, put, item, find-put, or_null}
use epistemos.Ledger.{Op, LedgerRecord}
use epistemos.Storage.{Objects, lookup, insert, get_object}
use epistemos.Storage.Lookup.{lookup-insert, IsStorable, put_object_stored}
use epistemos.Engine.Read.{grant_id, is_member, is_active_grant}
use epistemos.Engine.Change.{revoke}
use epistemos.Engine.Apply.{apply, apply_revoked}
use epistemos.Engine.Apply.Laws.{IsTarget, mutate-some}

no_and : (b : Bool) → (b && false) ≡ false
no_and true = refl
no_and false = refl

module _ (r : LedgerRecord) (o : Fields) where
  abbrev revoked : Fields
  revoked = put "revoked_at" (str r.ts) (put "active" (bool false) o)

  find-revoked :
      (k : String)
      → ("revoked_at" == k) ≡ false
      → ("active" == k) ≡ false
      → find k revoked ≡ find k o
  find-revoked k a b =
      rw
        (
          find-put "revoked_at" k (str r.ts) (put "active" (bool false) o),
          a,
          find-put "active" k (bool false) o,
          b,
        )
        refl

  revoked-IsStorable : (id : String) → IsStorable id o → IsStorable id revoked
  revoked-IsStorable id s = record {
    id = find-revoked "id" refl refl ∙ s.id;
    kind = rw (has, find-revoked "kind" refl refl) s.kind;
    tenant = rw (has, find-revoked "tenant" refl refl) s.tenant;
    namespace = rw (has, find-revoked "namespace" refl refl) s.namespace;
  }

  inactive : get "active" revoked ≡ bool false
  inactive = ap or_null (
      find-put "revoked_at" "active" (str r.ts) (put "active" (bool false) o)
      ∙ find-put "active" "active" (bool false) o)

  inactive_grant : is_active_grant revoked ≡ false
  inactive_grant = rw inactive (no_and (is_str (get "kind" revoked) "grant"))

module _ (r : LedgerRecord) (os : Objects) (o : Fields) (space agent : String) where
  revoked_store :
      item "grant_id" r.payload ≡ ok (str (grant_id space agent))
      → IsTarget r os (str (grant_id space agent)) o
      → IsStorable (grant_id space agent) o
      → apply r Op.capability_revoked os ≡ (ok tt, insert (grant_id space agent) (revoked r o) os)
  unfolding apply apply_revoked revoke
  revoked_store at t s =
      rw (at, t.found)
        (mutate-some r os (str (grant_id space agent)) o (revoke r) (revoked r o) t refl
          ∙ put_object_stored (grant_id space agent) (revoked r o) os
              (revoked-IsStorable r o (grant_id space agent) s))

  no_member : is_member (insert (grant_id space agent) (revoked r o) os) (str space) agent ≡ false
  unfolding is_member get_object
  no_member =
      let found : lookup (grant_id space agent) (insert (grant_id space agent) (revoked r o) os)
          ≡ some (revoked r o) =
        lookup-insert (grant_id space agent) (grant_id space agent) (revoked r o) os
        ∙ ap (λ b. if b then some (revoked r o) else lookup (grant_id space agent) os)
            (eq_refl (grant_id space agent)) in
      rw (is_member, found) (inactive_grant r o)

  -- The revocation of a grant that the store holds under its own id, in the record's scope, raises
  -- nothing, and at once the agent is no member of the space.
  pub apply_revoked_denies :
      item "grant_id" r.payload ≡ ok (str (grant_id space agent))
      → IsTarget r os (str (grant_id space agent)) o
      → IsStorable (grant_id space agent) o
      → ((apply r Op.capability_revoked os).0 ≡ ok tt)
        × (is_member (apply r Op.capability_revoked os).1 (str space) agent ≡ false)
  apply_revoked_denies at t s = rw (revoked_store at t s) (refl, no_member)
