-- ===== src/Engine/Apply/Scope.antt =====
-- core/__init__.py: a change of an object stays in the object's scope.
use epistemos.Common.{
  ◌≡◌, refl, ◌∙◌, ap, true, false, none, some, String, Option, List, ◌==◌, if◌then◌else◌, Bool,
}
use epistemos.Result.{Result, ok, err, ◌>>=◌, ok_injective}
use epistemos.Json.{Json, Fields}
use epistemos.Json.Dict.{find, get, put, or_null, find-put}
use epistemos.Ledger.{LedgerRecord}
use epistemos.Engine.Change.{
  close_belief, corroborate, contradicted_by, merge_into, mark_merged, mark_split, revoke, place,
  close_claim, attach, govern, set_metadata, note_contradiction,
}

-- The two objects carry one tenant and one namespace.
pub record IsSameScope (o o' : Fields) : Type 0 where
  pub tenant : get "tenant" o' ≡ get "tenant" o
  pub namespace : get "namespace" o' ≡ get "namespace" o

pub record KeepsScope (o : Fields) (m : Result Fields) : Type 0 where
  pub at : (o' : Fields) → m ≡ ok o' → IsSameScope o o'

pub record StaysInScope (o : Fields) (m : Result (Option Fields)) : Type 0 where
  pub at : (o' : Fields) → m ≡ ok (some o') → IsSameScope o o'

IsSameScope-refl : (o : Fields) → IsSameScope o o
IsSameScope-refl o = record { tenant = refl; namespace = refl }

put-IsSameScope :
    (k : String) (v : Json) (o o' : Fields)
    → (k == "tenant") ≡ false
    → (k == "namespace") ≡ false
    → IsSameScope o o'
    → IsSameScope o (put k v o')
put-IsSameScope k v o o' t n same = record {
  tenant =
      ap or_null (find-put k "tenant" v o' ∙ ap (λ b. if b then some v else find "tenant" o') t)
      ∙ same.tenant;
  namespace =
      ap or_null
        (find-put k "namespace" v o' ∙ ap (λ b. if b then some v else find "namespace" o') n)
      ∙ same.namespace;
}

module _ {o : Fields} where
  status-IsSameScope :
      (v : Json) (o' : Fields) → IsSameScope o o' → IsSameScope o (put "status" v o')
  status-IsSameScope v o' = put-IsSameScope "status" v o o' refl refl

  tx_to-IsSameScope : (v : Json) (o' : Fields) → IsSameScope o o' → IsSameScope o (put "tx_to" v o')
  tx_to-IsSameScope v o' = put-IsSameScope "tx_to" v o o' refl refl

  confidence-IsSameScope :
      (v : Json) (o' : Fields) → IsSameScope o o' → IsSameScope o (put "confidence" v o')
  confidence-IsSameScope v o' = put-IsSameScope "confidence" v o o' refl refl

  contradicts-IsSameScope :
      (v : Json) (o' : Fields) → IsSameScope o o' → IsSameScope o (put "contradicts" v o')
  contradicts-IsSameScope v o' = put-IsSameScope "contradicts" v o o' refl refl

  aliases-IsSameScope :
      (v : Json) (o' : Fields) → IsSameScope o o' → IsSameScope o (put "aliases" v o')
  aliases-IsSameScope v o' = put-IsSameScope "aliases" v o o' refl refl

  active-IsSameScope :
      (v : Json) (o' : Fields) → IsSameScope o o' → IsSameScope o (put "active" v o')
  active-IsSameScope v o' = put-IsSameScope "active" v o o' refl refl

  revoked_at-IsSameScope :
      (v : Json) (o' : Fields) → IsSameScope o o' → IsSameScope o (put "revoked_at" v o')
  revoked_at-IsSameScope v o' = put-IsSameScope "revoked_at" v o o' refl refl

  spaces-IsSameScope :
      (v : Json) (o' : Fields) → IsSameScope o o' → IsSameScope o (put "spaces" v o')
  spaces-IsSameScope v o' = put-IsSameScope "spaces" v o o' refl refl

  metadata-IsSameScope :
      (v : Json) (o' : Fields) → IsSameScope o o' → IsSameScope o (put "metadata" v o')
  metadata-IsSameScope v o' = put-IsSameScope "metadata" v o o' refl refl

  KeepsScope-ok : (o' : Fields) → IsSameScope o o' → KeepsScope o (ok o')
  KeepsScope-ok o' same = record { at = λ q e. rw (ok_injective e) at same }

  bind-KeepsScope :
      {A : Type 0} (m : Result A) (f : A → Result Fields)
      → ((a : A) → KeepsScope o (f a))
      → KeepsScope o (m >>= f)
  bind-KeepsScope (ok a) f k = k a
  bind-KeepsScope (err x) f k = record { at = λ q e. cc }

  set_metadata-KeepsScope :
      (key : String) (v : Json) (o' : Fields)
      → IsSameScope o o'
      → KeepsScope o (set_metadata key v o')
  unfolding set_metadata
  set_metadata-KeepsScope key v o' same =
      bind-KeepsScope _ _ (λ meta. KeepsScope-ok _ (metadata-IsSameScope _ o' same))

  StaysInScope-none : StaysInScope o (ok none)
  StaysInScope-none = record { at = λ q e. cc }

  StaysInScope-some : (o' : Fields) → IsSameScope o o' → StaysInScope o (ok (some o'))
  StaysInScope-some o' same = record { at = λ q e. let at : o' ≡ q = cc in rw at at same }

  StaysInScope-bind :
      {A : Type 0} (m : Result A) (f : A → Result (Option Fields))
      → ((a : A) → StaysInScope o (f a))
      → StaysInScope o (m >>= f)
  StaysInScope-bind (ok a) f k = k a
  StaysInScope-bind (err x) f k = record { at = λ q e. cc }

  StaysInScope-then :
      (m : Result Fields) (f : Fields → Result (Option Fields))
      → KeepsScope o m
      → ((o' : Fields) → IsSameScope o o' → StaysInScope o (f o'))
      → StaysInScope o (m >>= f)
  StaysInScope-then (ok a) f m k = k a (m.at a refl)
  StaysInScope-then (err x) f m k = record { at = λ q e. cc }

  StaysInScope-if :
      (b : Bool) (m n : Result (Option Fields))
      → StaysInScope o m
      → StaysInScope o n
      → StaysInScope o (if b then m else n)
  StaysInScope-if true m n a b = a
  StaysInScope-if false m n a b = b

  if-KeepsScope :
      (b : Bool) (m n : Result Fields)
      → KeepsScope o m
      → KeepsScope o n
      → KeepsScope o (if b then m else n)
  if-KeepsScope true m n a b = a
  if-KeepsScope false m n a b = b

ruleset scope_rules = (
  status-IsSameScope, tx_to-IsSameScope, confidence-IsSameScope, contradicts-IsSameScope,
  aliases-IsSameScope, active-IsSameScope, revoked_at-IsSameScope, spaces-IsSameScope,
  IsSameScope-refl, KeepsScope-ok, set_metadata-KeepsScope, StaysInScope-none, StaysInScope-some,
  StaysInScope-then, StaysInScope-bind, bind-KeepsScope, StaysInScope-if, if-KeepsScope,
)

module _ (r : LedgerRecord) (o : Fields) where
  pub close_belief-StaysInScope : StaysInScope o (close_belief r o)
  unfolding close_belief
  close_belief-StaysInScope = search scope_rules depth 30

  pub corroborate-StaysInScope : StaysInScope o (corroborate r o)
  unfolding corroborate
  corroborate-StaysInScope = search scope_rules depth 30

  pub contradicted_by-StaysInScope : (other : Json) → StaysInScope o (contradicted_by r other o)
  unfolding contradicted_by note_contradiction
  contradicted_by-StaysInScope other = search scope_rules depth 30

  pub merge_into-StaysInScope : StaysInScope o (merge_into r o)
  unfolding merge_into
  merge_into-StaysInScope = search scope_rules depth 30

  pub mark_merged-StaysInScope : (canonical : Json) → StaysInScope o (mark_merged r canonical o)
  unfolding mark_merged
  mark_merged-StaysInScope canonical = search scope_rules depth 30

  pub mark_split-StaysInScope : (ids : List Json) → StaysInScope o (mark_split r ids o)
  unfolding mark_split
  mark_split-StaysInScope ids = search scope_rules depth 30

  pub revoke-StaysInScope : StaysInScope o (revoke r o)
  unfolding revoke
  revoke-StaysInScope = search scope_rules depth 30

  pub place-StaysInScope : StaysInScope o (place r o)
  unfolding place
  place-StaysInScope = search scope_rules depth 30

  pub close_claim-StaysInScope : StaysInScope o (close_claim r o)
  unfolding close_claim
  close_claim-StaysInScope = search scope_rules depth 30

  pub attach-StaysInScope : StaysInScope o (attach r o)
  unfolding attach
  attach-StaysInScope = search scope_rules depth 30

  pub govern-StaysInScope : (key : String) → StaysInScope o (govern r key o)
  unfolding govern
  govern-StaysInScope key = search scope_rules depth 30
