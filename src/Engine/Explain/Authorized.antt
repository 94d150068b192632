-- ===== src/Engine/Explain/Authorized.antt =====
-- core/__init__.py: who may see what an explanation tells.
use epistemos.Common.{
  ◌≡◌, refl, sym, ap, ◌∙◌, inl, inr, String, Bool, true, false, not, Option, some, [],
  if◌then◌else◌, Bool-cases, Option-cases,
}
use epistemos.Result.{Error, not_found, Result, ok, err, bind-ok, ok_injective, ◌>>=◌}
use epistemos.Json.{str, arr, nil, Fields, is_str, iterate}
use epistemos.Json.Dict.{get, get_or}
use epistemos.Host.{Host, ℤ}
use epistemos.Identity.{Principal, require}
use epistemos.Storage.{Store, get_object, in_scope}
use epistemos.Engine.Read.{can_read}
use epistemos.Provenance.Index.{Table, Index}
use epistemos.Provenance.Explain.{
  Answer, only_status, decided, Decision, decision_found, explain_decision, explain_each,
}
use epistemos.Provenance.Explain.Firewall.{
  Shows, Tells, IsShown, EachOf, explain-IsShown, explain_each-IsShown,
}
use epistemos.Engine.Explain.{Explanation, of_object, of_decision, firewall, explain, budget_of}
use epistemos.Provenance.Explain

module _ (h : Host) (t : Table) (p : Principal) (s : Store) where
  -- The object of the id is of the principal's scope, and the principal may read it.
  pub record IsOpen (i : String) : Type 0 where
    pub object : Fields
    pub found : get_object i s.objects_by_id ≡ some object
    pub scoped : in_scope p.tenant p.namespace object ≡ true
    pub may : can_read h p s.objects_by_id object ≡ ok true

  pub record IsOpenDecision (d : Decision t s p.tenant p.namespace) : Type 0 where
    pub itself : IsOpen d.id
    pub statement : d.statement ≡ get "statement" itself.object
    pub evidence :
        EachOf
          (Shows t s p.tenant p.namespace (firewall h t p s))
          (Tells t s p.tenant p.namespace (firewall h t p s))
          d.evidence

  -- Each node of the tree that tells anything shows an object that the principal may read.
  unfoldable pub IsAuthorized : Explanation h t p s → Type 0
  IsAuthorized (of_object n) = IsShown t s p.tenant p.namespace (firewall h t p s) n
  IsAuthorized (of_decision (only_status d)) = Unit
  IsAuthorized (of_decision (decided d)) = IsOpenDecision d

  if_not :
      {A : Type 0} (b : Bool) (x : Error) (r : Result A) {a : A}
      → (if not b then err x else r) ≡ ok a
      → (b ≡ true) × (r ≡ ok a)
  if_not true x r e = (refl, e)
  if_not false x r e = cc

  decision_found-IsOpenDecision :
      (i : String) (o : Fields) (index : Option (Index t))
      (out : Decision t s p.tenant p.namespace × Option (Index t))
      → IsOpen i
      → get_object i s.objects_by_id ≡ some o
      → decision_found t s p.tenant p.namespace (firewall h t p s) i o index ≡ ok out
      → IsOpenDecision out.0
  unfolding decision_found
  decision_found-IsOpenDecision i o index out at found e =
      let (refs, _, rest) = bind-ok (iterate (get_or "evidence" (arr nil) o)) _ e in
      let (evidence, walked, rest2) =
        bind-ok (explain_each t s p.tenant p.namespace (firewall h t p s) refs index) _ rest in
      let (alternatives, _, last) = bind-ok (iterate (get_or "alternatives" (arr nil) o)) _ rest2 in
      let same : o ≡ at.object = cc (found, at.found) in
      rw (sym (ok_injective last)) (record {
        itself = at;
        statement = ap (get "statement") same;
        evidence =
            explain_each-IsShown t s p.tenant p.namespace (firewall h t p s) refs index evidence
              walked;
      })

  answer-IsAuthorized :
      (i : String) (index : Option (Index t))
      (a : Answer t s p.tenant p.namespace × Option (Index t))
      → IsOpen i
      → explain_decision t s p.tenant p.namespace (firewall h t p s) i index ≡ ok a
      → IsAuthorized (of_decision a.0)
  unfolding explain_decision IsAuthorized
  answer-IsAuthorized i index a at e =
      elim (Bool-cases (is_str (get "kind" at.object) "decision")) [
        | inr other ↦ rw (sym (ok_injective (rw (explain_decision, at.found, other) at e))) tt
        | inl decision ↦
            let (found, ran, last) =
              bind-ok (decision_found t s p.tenant p.namespace (firewall h t p s) i at.object index)
                _ (rw (explain_decision, at.found, decision, at.scoped) at e) in
            rw (sym (ok_injective last))
              (decision_found-IsOpenDecision i at.object index found at at.found ran)
      ]

  -- An explanation is given only of an object of the principal's scope that the principal may read, and
  -- in its tree, for a decision as for any other object, with a provenance index or without, each node
  -- that is expanded, or elided with its kind, is of such an object. An expanded node shows the kind,
  -- the statement, the confidence, the owner and the times of that object and the ids in its
  -- contradicts, and of its source no more than a status, or the id, the uri, the kind and the trust of
  -- a source of the scope, which the principal need not be able to read.
  pub explain-IsAuthorized :
      (obj_id : String) (depth : ℤ) (index : Option (Index t))
      (out : Explanation h t p s × Option (Index t))
      → explain h t p s obj_id depth index ≡ ok out
      → IsOpen obj_id × IsAuthorized out.0
  unfolding explain IsAuthorized
  explain-IsAuthorized obj_id depth index out e =
      let (_, _, rest) = bind-ok (require p "read") _ e in
      elim (Option-cases (get_object obj_id s.objects_by_id)) [
        | inl lost ↦ cc (rw lost at rest)
        | inr (o, found) ↦
            let (scoped, rest2) = if_not _ not_found _ (rw found at rest) in
            let (may, tested, rest3) = bind-ok (can_read h p s.objects_by_id o) _ rest2 in
            let (yes', rest4) = if_not may not_found _ rest3 in
            let at : IsOpen obj_id = record {
              object = o;
              found = found;
              scoped = scoped;
              may = tested ∙ ap ok yes';
            } in
            (at, told o at rest4)
      ]
    where
      told :
          (o : Fields)
          → IsOpen obj_id
          → (if is_str (get "kind" o) "decision"
              then (explain_decision t s p.tenant p.namespace (firewall h t p s) obj_id index
                  >>= λ a. ok (of_decision a.0, a.1))
              else (Explain.explain t s p.tenant p.namespace
                    (firewall h t p s)
                    (budget_of depth)
                    (str obj_id)
                    (record { seen = []; index = index })
                  >>= λ n. ok (of_object n.0, n.1.index)))
            ≡ ok out
          → IsAuthorized out.0
      told o at e' = elim (Bool-cases (is_str (get "kind" o) "decision")) [
        | inl yes' ↦
            let (a, ran, last) =
              bind-ok (explain_decision t s p.tenant p.namespace (firewall h t p s) obj_id index) _
                (rw yes' at e') in
            rw (sym (ok_injective last)) (answer-IsAuthorized obj_id index a at ran)
        | inr no' ↦
            let (n, ran, last) =
              bind-ok
                (Explain.explain t s p.tenant p.namespace (firewall h t p s) (budget_of depth)
                  (str obj_id) (record { seen = []; index = index }))
                _ (rw no' at e') in
            rw (sym (ok_injective last)) (
              explain-IsShown t s p.tenant p.namespace (firewall h t p s) (budget_of depth)
                (str obj_id) (record { seen = []; index = index }) n ran)
      ]
