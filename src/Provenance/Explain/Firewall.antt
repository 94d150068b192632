-- ===== src/Provenance/Explain/Firewall.antt =====
-- provenance/__init__.py: whose content stands in the nodes of an explanation.
use epistemos.Common.{
  ℕ, zero, suc, ◌≡◌, refl, sym, ap, ◌∙◌, ◌⊎◌, inl, inr, String, Bool, true, false, not, Option,
  some, List, [], ◌∷◌, contains, if◌then◌else◌, Bool-cases, Option-cases,
}
use epistemos.Result.{Result, ok, bind-ok, ok_injective}
use epistemos.Json.{Json, null, bool, num, negative, float, str, arr, obj, nil, Fields, iterate}
use epistemos.Json.Dict.{get, get_or}
use epistemos.Model.{truthy}
use epistemos.Storage.{Store, get_object, in_scope}
use epistemos.Provenance.Index.{Table, Index}
use epistemos.Provenance.Views.{
  Entity, content_of, Node, missing, out_of_scope, elided, expanded, Nodes, none_left, and_more,
}
use epistemos.Provenance.Explain.{
  Walk, Walker, walk, expand, allowed, guarded, explain, explain_each, source_view, superseded_by,
}
use epistemos.Provenance.Explain.Source.{IsSourceOf, source_view-IsSourceOf}

-- P holds of each expanded node, and Q of each elided one.
unfoldable mutual
  pub EachNode : (Entity → Type 0) → (String → Json → Type 0) → Node → Type 0
  EachNode P Q (missing id) = Unit
  EachNode P Q (out_of_scope id) = Unit
  EachNode P Q (elided id kind) = Q id kind
  EachNode P Q (expanded e derived older) = P e × EachOf P Q derived × EachOf P Q older

  pub EachOf : (Entity → Type 0) → (String → Json → Type 0) → Nodes → Type 0
  EachOf P Q none_left = Unit
  EachOf P Q (and_more n ns) = EachNode P Q n × EachOf P Q ns

module _ (t : Table) (s : Store) (tenant namespace : String) where
  -- What a call of a walker returned, whose tree has a property.
  walk-EachOf :
      (P : Entity → Type 0) (Q : String → Json → Type 0) (go : Walker t s tenant namespace)
      → ((j : Json) (w : Walk t s tenant namespace) (out : Node × Walk t s tenant namespace)
          → go j w ≡ ok out
          → EachNode P Q out.0)
      → (refs : List Json) (w : Walk t s tenant namespace) (out : Nodes × Walk t s tenant namespace)
      → walk t s tenant namespace go refs w ≡ ok out
      → EachOf P Q out.0
  unfolding walk EachOf
  walk-EachOf P Q go each [] w out e = rw (sym (ok_injective e)) tt
  walk-EachOf P Q go each (ref ∷ refs) w out e =
      let (first, ran, rest) = bind-ok (go ref w) _ e in
      let (more, walked, last) = bind-ok (walk t s tenant namespace go refs first.1) _ rest in
      rw (sym (ok_injective last))
        (each ref w first ran, walk-EachOf P Q go each refs first.1 more walked)

  module _ (can_read : Option (Fields → Result Bool)) where
    -- The node shows an object of the scope that the caller may read, under its own id, with its
    -- content and its source.
    pub record Shows (e : Entity) : Type 0 where
      pub object : Fields
      pub found : get_object e.id s.objects_by_id ≡ some object
      pub scoped : in_scope tenant namespace object ≡ true
      pub may : allowed t s tenant namespace can_read object ≡ ok true
      pub content : e.content ≡ content_of e.id object
      pub source : IsSourceOf t s tenant namespace (get "source" object) e.source
      pub contradicts :
          (e.contradicts ≡ []) ⊎ (iterate (get "contradicts" object) ≡ ok e.contradicts)

    -- The node tells the kind of such an object.
    pub record Tells (i : String) (kind : Json) : Type 0 where
      pub object : Fields
      pub found : get_object i s.objects_by_id ≡ some object
      pub scoped : in_scope tenant namespace object ≡ true
      pub may : allowed t s tenant namespace can_read object ≡ ok true
      pub kind_is : kind ≡ get "kind" object

    abbrev pub IsShown : Node → Type 0
    IsShown n = EachNode Shows Tells n

    if_allowed :
        (may : Bool) (i : String) (w : Walk t s tenant namespace)
        (k : Result (Node × Walk t s tenant namespace)) (out : Node × Walk t s tenant namespace)
        → (if not may then ok (out_of_scope (str i), w) else k) ≡ ok out
        → ((may ≡ true) × (k ≡ ok out)) ⊎ (out.0 ≡ out_of_scope (str i))
    if_allowed true i w k out e = inl (refl, e)
    if_allowed false i w k out e = inr (sym (ap (λ o. o.0) (ok_injective e)))

    -- Past the guard the object is of the scope, and the caller may read it.
    guarded-IsShown :
        (k : String
          → Fields
          → Walk t s tenant namespace
          → Result (Node × Walk t s tenant namespace))
        → ((i : String) (o : Fields) (w : Walk t s tenant namespace)
              (out : Node × Walk t s tenant namespace)
            → get_object i s.objects_by_id ≡ some o
            → in_scope tenant namespace o ≡ true
            → allowed t s tenant namespace can_read o ≡ ok true
            → k i o w ≡ ok out
            → IsShown out.0)
        → (j : Json) (w : Walk t s tenant namespace) (out : Node × Walk t s tenant namespace)
        → guarded t s tenant namespace can_read k j w ≡ ok out
        → IsShown out.0
    unfolding guarded EachNode
    guarded-IsShown k past null w out e = rw (sym (ok_injective e)) tt
    guarded-IsShown k past (bool b) w out e = rw (sym (ok_injective e)) tt
    guarded-IsShown k past (num n) w out e = rw (sym (ok_injective e)) tt
    guarded-IsShown k past (negative n) w out e = rw (sym (ok_injective e)) tt
    guarded-IsShown k past (float b) w out e = rw (sym (ok_injective e)) tt
    guarded-IsShown k past (arr xs) w out e = cc e
    guarded-IsShown k past (obj d) w out e = cc e
    guarded-IsShown k past (str i) w out e = elim (Option-cases (get_object i s.objects_by_id)) [
      | inl lost ↦ rw (sym (ok_injective (rw (guarded, lost) at e))) tt
      | inr (o, found) ↦ elim (Bool-cases (in_scope tenant namespace o)) [
        | inr outside ↦ rw (sym (ok_injective (rw (guarded, found, outside) at e))) tt
        | inl inside ↦
            let (may, tested, rest) =
              bind-ok (allowed t s tenant namespace can_read o) _
                (rw (guarded, found, inside) at e) in
            elim (if_allowed may i w _ out rest) [
              | inl (yes', ran) ↦ past i o w out found inside (tested ∙ ap ok yes') ran
              | inr shut ↦ rw shut tt
            ]
      ]
    ]

    own_list :
        (any_at : Bool) (v : Json) (out : List Json)
        → (if any_at then iterate v else ok []) ≡ ok out
        → (out ≡ []) ⊎ (iterate v ≡ ok out)
    own_list true v out e = inr e
    own_list false v out e = inl (sym (ok_injective e))

    expand-IsShown :
        (go : Walker t s tenant namespace)
        → ((j : Json) (w : Walk t s tenant namespace) (out : Node × Walk t s tenant namespace)
            → go j w ≡ ok out
            → IsShown out.0)
        → (i : String) (o : Fields) (w : Walk t s tenant namespace)
          (out : Node × Walk t s tenant namespace)
        → get_object i s.objects_by_id ≡ some o
        → in_scope tenant namespace o ≡ true
        → allowed t s tenant namespace can_read o ≡ ok true
        → expand t s tenant namespace go i o w ≡ ok out
        → IsShown out.0
    unfolding expand EachNode
    expand-IsShown go each i o w out found inside may e =
        let (source, viewed, rest) =
          bind-ok (source_view t s tenant namespace (get "source" o)) _ e in
        let (refs, _, rest2) = bind-ok (iterate (get_or "derived_from" (arr nil) o)) _ rest in
        let (derived, walked, rest3) = bind-ok (walk t s tenant namespace go refs _) _ rest2 in
        let (older, _, rest4) = bind-ok (iterate (get_or "supersedes" (arr nil) o)) _ rest3 in
        let (former, followed, rest5) =
          bind-ok (walk t s tenant namespace go older derived.1) _ rest4 in
        let (contradicts, listed, rest6) =
          bind-ok (if truthy (get "contradicts" o) then iterate (get "contradicts" o) else ok []) _
            rest5 in
        let (newer, _, last) =
          bind-ok (superseded_by t s tenant namespace i former.1.index) _ rest6 in
        rw (sym (ok_injective last)) (
          record {
            object = o;
            found = found;
            scoped = inside;
            may = may;
            content = refl;
            source = source_view-IsSourceOf t s tenant namespace (get "source" o) source viewed;
            contradicts = own_list (truthy (get "contradicts" o)) (get "contradicts" o) _ listed;
          },
          walk-EachOf Shows Tells go each refs _ derived walked,
          walk-EachOf Shows Tells go each older derived.1 former followed,
        )

    pub explain-IsShown :
        (budget : ℕ) (j : Json) (w : Walk t s tenant namespace)
        (out : Node × Walk t s tenant namespace)
        → explain t s tenant namespace can_read budget j w ≡ ok out
        → IsShown out.0
    unfolding explain EachNode
    explain-IsShown zero j w out e =
        guarded-IsShown (λ i o w. ok (elided i (get "kind" o), w))
          (λ i o w out found inside may ran.
            rw (sym (ok_injective ran))
              (record { object = o; found = found; scoped = inside; may = may; kind_is = refl }))
          j w out e
    explain-IsShown (suc depth) j w out e =
        guarded-IsShown _
          (λ i o w out found inside may ran. elim (Bool-cases (contains i w.seen)) [
            | inl again ↦
                rw (sym (ok_injective (rw again at ran)))
                  (record { object = o; found = found; scoped = inside; may = may; kind_is = refl })
            | inr first ↦
                expand-IsShown (explain t s tenant namespace can_read depth) (explain-IsShown depth)
                  i o w out found inside may (rw first at ran)
          ])
          j w out e

    pub explain_each-IsShown :
        (refs : List Json) (index : Option (Index t)) (out : Nodes × Option (Index t))
        → explain_each t s tenant namespace can_read refs index ≡ ok out
        → EachOf Shows Tells out.0
    unfolding explain_each EachOf
    explain_each-IsShown [] index out e = rw (sym (ok_injective e)) tt
    explain_each-IsShown (ev ∷ more) index out e =
        let (first, ran, rest) = bind-ok (explain t s tenant namespace can_read 3 ev _) _ e in
        let (others, walked, last) =
          bind-ok (explain_each t s tenant namespace can_read more first.1.index) _ rest in
        rw (sym (ok_injective last))
          (explain-IsShown 3 ev _ first ran, explain_each-IsShown more first.1.index others walked)
