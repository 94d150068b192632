-- ===== src/Provenance/Explain/Source.antt =====
-- provenance/__init__.py: what the node of an explanation shows of the source of its object.
use epistemos.Common.{◌≡◌, ap, subst, ◌∙◌, inl, inr, String, true, Option, none, some, Bool-cases}
use epistemos.Result.{ok, ◌>>=◌, bind-ok, ok_injective}
use epistemos.Json.{Json, Fields, end, field}
use epistemos.Json.Dict.{get, item, item-ok, or_null}
use epistemos.Model.{truthy}
use epistemos.Storage.{Store, in_scope}
use epistemos.Provenance.Index.{Table}
use epistemos.Provenance.Views.{status_view, find_object}
use epistemos.Provenance.Explain.{source_found, source_view}

abbrev pub view_of : Json → Fields → Fields
view_of id o = field "id" id (
    field "uri" (get "uri" o)
      (field "source_kind" (get "source_kind" o) (field "trust" (get "trust" o) end)))

module _ (t : Table) (s : Store) (tenant namespace : String) where
  -- What a node shows of its source: nothing, a status, or an object of the scope, readable or not.
  pub data IsSourceOf (id : Json) : Option Fields → Type 0 where
    no_source : IsSourceOf id none
    status_only : (status : String) → IsSourceOf id (some (status_view id status))
    scoped_source :
        (o : Fields)
        → find_object id s.objects_by_id ≡ ok (some o)
        → in_scope tenant namespace o ≡ true
        → IsSourceOf id (some (view_of (get "id" o) o))

  source_found-IsSourceOf :
      (id : Json) (o view : Fields)
      → find_object id s.objects_by_id ≡ ok (some o)
      → source_found t s tenant namespace id o ≡ ok view
      → IsSourceOf id (some view)
  unfolding source_found
  source_found-IsSourceOf id o view found e = elim (Bool-cases (in_scope tenant namespace o)) [
    | inr outside ↦
        subst (λ v. IsSourceOf id (some v)) (ok_injective (rw (source_found, outside) at e))
          (status_only "out_of_scope")
    | inl inside ↦
        let (i, at, last) = bind-ok (item "id" o) _ (rw (source_found, inside) at e) in
        subst (λ v. IsSourceOf id (some v))
          (ap (λ j. view_of j o) (ap or_null (item-ok "id" o i at)) ∙ ok_injective last)
          (scoped_source o found inside)
  ]

  pub source_view-IsSourceOf :
      (id : Json) (view : Option Fields)
      → source_view t s tenant namespace id ≡ ok view
      → IsSourceOf id view
  unfolding source_view
  source_view-IsSourceOf id view e = elim (Bool-cases (truthy id)) [
    | inr no_id ↦ subst (IsSourceOf id) (ok_injective (rw (source_view, no_id) at e)) no_source
    | inl given ↦
        let (src, found, rest) =
          bind-ok (find_object id s.objects_by_id) _ (rw (source_view, given) at e) in
        viewed src found rest
  ]
    where
      viewed :
          (src : Option Fields)
          → find_object id s.objects_by_id ≡ ok src
          → (elim src [
            | none ↦ ok (some (status_view id "missing"))
            | some o ↦ source_found t s tenant namespace id o >>= λ d. ok (some d)
          ])
            ≡ ok view
          → IsSourceOf id view
      viewed none found rest = subst (IsSourceOf id) (ok_injective rest) (status_only "missing")
      viewed (some o) found rest =
          let (d, at, last) =
            bind-ok (source_found t s tenant namespace id o) (λ d. ok (some d)) rest in
          subst (IsSourceOf id) (ok_injective last) (source_found-IsSourceOf id o d found at)
