-- ===== src/Engine/Calls.antt =====
-- core/__init__.py: what the engine's operations share: the envelope, references, and committing
-- events under `store.atomic()`.
use epistemos.Common.{String, Option, none, some, List, [], ◌∷◌}
use epistemos.Result.{Result, ok, err}
use epistemos.Exec.{Exec, pure, ◌>>◌}
use epistemos.Json.{Json, num, str, arr, Fields, end, field, strs}
use epistemos.Json.Dict.{update}
use epistemos.Host.{Host}
use epistemos.Identity.{Principal}
use epistemos.Ledger.{Op}
use epistemos.Storage.{Store, Objects, atomic}
use epistemos.Engine.Read.{ref_in_scope}
use epistemos.Engine.Apply.{emit}

-- `_envelope(principal, kind, id, ts, **extra)`
unfoldable pub envelope : Principal → String → String → String → Fields → Fields
envelope p kind id ts extra =
    update
      (field "id" (str id) (
        field "kind" (str kind) (
          field "tenant" (str p.tenant) (
            field "namespace" (str p.namespace) (
              field "owner" (str p.agent)
                (field "created_at" (str ts) (field "schema_version" (num 1) end)))))))
      extra

-- Reading the objects.
abbrev pub look : {A : Type 0} → (Objects → Result A) → Exec Store A
look f s = (f s.objects_by_id, s)

-- The events of one transaction, in order.
unfoldable pub emit_all : Host → Principal → String → List (Op × Fields) → Exec Store (Unit {0})
emit_all h p ts [] = pure tt
emit_all h p ts ((op, payload) ∷ events) = do emit h p op ts payload; emit_all h p ts events

-- with self.store.atomic(): self._emit(...); ...
unfoldable pub commit : Host → Principal → String → List (Op × Fields) → Exec Store (Unit {0})
commit h p ts events = atomic (emit_all h p ts events)

abbrev pub refs_in_scope : Principal → List String → Objects → Result (Unit {0})
refs_in_scope p [] os = ok tt
refs_in_scope p (id ∷ ids) os = elim (ref_in_scope p id os) [
  | err e ↦ err e
  | ok _ ↦ refs_in_scope p ids os
]

-- `if source is not None: self._ref_in_scope(...)`
abbrev pub optional_ref : Principal → Option String → Objects → Result (Unit {0})
optional_ref p none os = ok tt
optional_ref p (some id) os = refs_in_scope p (id ∷ []) os

abbrev pub tuple : List String → Json
tuple ids = arr (strs ids)
