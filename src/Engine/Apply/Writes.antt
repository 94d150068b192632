-- ===== src/Engine/Apply/Writes.antt =====
-- core/__init__.py: a record writes in its own scope only.
use epistemos.Common.{
  ◌≡◌, refl, sym, ◌∙◌, ◌⊎◌, inl, inr, true, false, none, some, String, Bool, Option, Bool-cases,
  Option-cases,
}
use epistemos.Result.{Error, Result, ok, err, ok_injective}
use epistemos.Exec.{Exec, pure, lift, gets, raise, continue, ◌>>=◌}
use epistemos.Json.{Json, Fields}
use epistemos.Ledger.{LedgerRecord}
use epistemos.Storage.{Objects, lookup, in_scope}
use epistemos.Storage.Lookup.{lookup-put_object}
use epistemos.Engine.Read.{get_object_at}
use epistemos.Engine.Apply.{mutate, in_record_scope, guard_payload_scope, persist}
use epistemos.Engine.Apply.Scope.{StaysInScope, IsSameScope}

-- Each id finds what it found before, or an object of the record's tenant and namespace.
pub record WritesInScope (r : LedgerRecord) (os os' : Objects) : Type 0 where
  pub at :
      (i : String)
      → (lookup i os' ≡ lookup i os)
        ⊎ ((o : Fields) × (lookup i os' ≡ some o) × (in_scope r.tenant r.namespace o ≡ true))

pub record Obeys {A : Type 0} (r : LedgerRecord) (m : Exec Objects A) : Type 0 where
  pub at : (os : Objects) → WritesInScope r os (m os).1

module _ (r : LedgerRecord) where
  same_scope :
      (o o' : Fields)
      → in_scope r.tenant r.namespace o ≡ true
      → IsSameScope o o'
      → in_scope r.tenant r.namespace o' ≡ true
  same_scope o o' scope kept = rw (kept.tenant, kept.namespace) scope

  loaded_scope :
      (id : Json) (os : Objects) (o : Fields)
      → in_record_scope r id os ≡ ok o
      → in_scope r.tenant r.namespace o ≡ true
  unfolding in_record_scope
  loaded_scope id os o e = elim (Option-cases (get_object_at id os)) [
    | inl missing ↦ cc (rw (in_record_scope, missing) at e)
    | inr (q, found) ↦ elim (Bool-cases (in_scope r.tenant r.namespace q)) [
      | inl on ↦
          let at : q ≡ o = ok_injective (rw (in_record_scope, found, on) at e) in rw (sym at) on
      | inr off ↦ cc (rw (in_record_scope, found, off) at e)
    ]
  ]

module _ {r : LedgerRecord} where
  same : (os : Objects) → WritesInScope r os os
  same os = record { at = λ i. inl refl }

  trans : (a b c : Objects) → WritesInScope r a b → WritesInScope r b c → WritesInScope r a c
  trans a b c f g = record {
    at = λ i. elim (g.at i) [
      | inr wrote ↦ inr wrote
      | inl kept ↦ elim (f.at i) [
        | inl still ↦ inl (kept ∙ still)
        | inr (o, found, scope) ↦ inr (o, kept ∙ found, scope)
      ]
    ];
  }

  pub Obeys-pure : {A : Type 0} (a : A) → Obeys r (pure a)
  Obeys-pure a = record { at = same }

  pub Obeys-lift : {A : Type 0} (m : Result A) → Obeys r (lift m)
  Obeys-lift m = record { at = same }

  pub Obeys-gets : {A : Type 0} (f : Objects → A) → Obeys r (gets f)
  Obeys-gets f = record { at = same }

  pub Obeys-raise : {A : Type 0} (x : Error) → Obeys r (raise {A = A} x)
  Obeys-raise x = record { at = same }

  continue-WritesInScope :
      {A B : Type 0} (m : Result A) (f : A → Exec Objects B) (os os' : Objects)
      → WritesInScope r os os'
      → ((a : A) → Obeys r (f a))
      → WritesInScope r os (continue m f os').1
  continue-WritesInScope (ok a) f os os' w k = trans os os' (f a os').1 w ((k a).at os')
  continue-WritesInScope (err x) f os os' w k = w

  pub Obeys-bind :
      {A B : Type 0} (m : Exec Objects A) (f : A → Exec Objects B)
      → Obeys r m
      → ((a : A) → Obeys r (f a))
      → Obeys r (m >>= f)
  Obeys-bind m f o k = record {
    at = λ os. continue-WritesInScope (m os).0 f os (m os).1 (o.at os) k;
  }

  pub Obeys-persist : (o : Fields) → in_scope r.tenant r.namespace o ≡ true → Obeys r (persist o)
  Obeys-persist o scope = record {
    at = λ os. record {
      at = λ i. elim (lookup-put_object i o os) [
        | inl kept ↦ inl kept
        | inr found ↦ inr (o, found, scope)
      ];
    };
  }

  guarded :
      {A : Type 0} (o : Fields) (k : Exec Objects A) (b : Bool)
      → in_scope r.tenant r.namespace o ≡ b
      → (in_scope r.tenant r.namespace o ≡ true → Obeys r k)
      → Obeys r (lift (guard_payload_scope r o) >>= λ _. k)
  guarded o k true e go = record { at = λ os. rw e ((go e).at os) }
  guarded o k false e go = record { at = λ os. rw e (same os) }

  pub Obeys-guarded :
      {A : Type 0} (o : Fields) (k : Exec Objects A)
      → (in_scope r.tenant r.namespace o ≡ true → Obeys r k)
      → Obeys r (lift (guard_payload_scope r o) >>= λ _. k)
  Obeys-guarded o k go = guarded o k (in_scope r.tenant r.namespace o) refl go

  changed :
      (o : Fields) (c : Result (Option Fields)) (os : Objects)
      → in_scope r.tenant r.namespace o ≡ true
      → StaysInScope o c
      → WritesInScope r os (continue c (λ x. elim x [ none ↦ pure tt | some o' ↦ persist o' ]) os).1
  changed o (err x) os scope stays = same os
  changed o (ok none) os scope stays = same os
  changed o (ok (some o')) os scope stays =
      (Obeys-persist o' (same_scope r o o' scope (stays.at o' refl))).at os

  loaded :
      (m : Result Fields) (change : Fields → Result (Option Fields)) (os : Objects)
      → ((o : Fields) → m ≡ ok o → in_scope r.tenant r.namespace o ≡ true)
      → ((o : Fields) → StaysInScope o (change o))
      → WritesInScope r os
          (continue m
            (λ o. lift (change o) >>= λ x. elim x [ none ↦ pure tt | some o' ↦ persist o' ])
            os).1
  loaded (err x) change os scope stays = same os
  loaded (ok o) change os scope stays = changed o (change o) os (scope o refl) (stays o)

  pub Obeys-mutate :
      (id : Json) (change : Fields → Result (Option Fields))
      → ((o : Fields) → StaysInScope o (change o))
      → Obeys r (mutate r id change)
  unfolding mutate
  Obeys-mutate id change stays = record {
    at = λ os. loaded (in_record_scope r id os) change os (loaded_scope r id os) stays;
  }

pub ruleset write_rules = (
  Obeys-pure, Obeys-lift, Obeys-gets, Obeys-raise, Obeys-persist, Obeys-mutate, Obeys-guarded,
  Obeys-bind,
)
