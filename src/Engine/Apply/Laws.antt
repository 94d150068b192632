-- ===== src/Engine/Apply/Laws.antt =====
-- core/__init__.py: what a record changes, and what it leaves alone.
use epistemos.Common.{◌≡◌, refl, true, some, String, Option}
use epistemos.Result.{Result, ok}
use epistemos.Json.{Json, Fields}
use epistemos.Json.Dict.{item}
use epistemos.Ledger.{LedgerRecord}
use epistemos.Storage.{Objects, in_scope}
use epistemos.Engine.Apply.{mutate, in_record_scope, apply_to, persist}
use epistemos.Engine.Read.{get_object_at}

module _ (r : LedgerRecord) (os : Objects) (id : Json) (o : Fields) where
  -- The object stands in the store at the id, in the record's scope.
  pub record IsTarget : Type 0 where
    pub found : get_object_at id os ≡ some o
    pub scope : in_scope r.tenant r.namespace o ≡ true

  target_found : IsTarget → in_record_scope r id os ≡ ok o
  unfolding in_record_scope
  target_found t = rw (in_record_scope, t.found, t.scope) refl

  pub mutate-some :
      (change : Fields → Result (Option Fields)) (o' : Fields)
      → IsTarget
      → change o ≡ ok (some o')
      → mutate r id change os ≡ persist o' os
  unfolding mutate
  mutate-some change o' t e = rw (target_found t, e) refl

  pub apply_to-item :
      (key : String) (change : Fields → Result (Option Fields))
      → item key r.payload ≡ ok id
      → apply_to key r change os ≡ mutate r id change os
  apply_to-item key change e = rw e refl
