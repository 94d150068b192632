-- ===== src/Engine/Graph.antt =====
-- core/__init__.py: entities, relations, and their resolution by merge and split.
use epistemos.Common.{
  ℕ, suc, ◌+◌, String, Bool, true, false, not, Option, none, some, List, [], ◌∷◌, ◌++◌, ◌==◌,
  if◌then◌else◌, sorted_set,
}
use epistemos.Result.{Result, ok, err, validation, type_error}
use epistemos.Exec.{Exec, pure, lift, raise_if, ◌>>=◌, ◌>>◌}
use epistemos.Json.{Json, str, arr, obj, nil, Fields, end, field, iterate, of_list}
use epistemos.Json.Dict.{get, get_or, item}
use epistemos.Identity.{Principal, require, guard_owner}
use epistemos.Ledger.{Op}
use epistemos.Model.{Class, construct}
use epistemos.Storage.{Store, Objects, get_object}
use epistemos.Engine.Base.{Engine, Call, text_arg, metadata_arg}
use epistemos.Engine.Read.{ref_in_scope}
use epistemos.Engine.Calls.{envelope, look, commit, refs_in_scope, tuple}

abbrev is_empty {ℓ} : {A : Type ℓ} → List A → Bool
is_empty [] = true
is_empty (x ∷ xs) = false

-- Names and aliases are texts wherever the engine wrote them; another value is a TypeError when the
-- set of them is sorted.
texts : List Json → Result (List String)
texts [] = ok []
texts (str s ∷ js) = elim (texts js) [ err x ↦ err x | ok ss ↦ ok (s ∷ ss) ]
texts (j ∷ js) = err type_error

module _ (e : Engine) (p : Principal) where
  text_args : List Json → Result (List String)
  text_args [] = ok []
  text_args (v ∷ vs) = elim (text_arg e v none) [
    | err x ↦ err x
    | ok s ↦ elim (text_args vs) [ err x ↦ err x | ok ss ↦ ok (s ∷ ss) ]
  ]

  -- The duplicates' names, each in scope and none of them the canonical entity.
  duplicate_names : String → List String → Objects → Result (List Json)
  duplicate_names canonical [] os = ok []
  duplicate_names canonical (d ∷ ds) os = epistemos.Result.◌>>=◌ (ref_in_scope p d os) λ dup.
      if d == canonical
      then err validation
      else epistemos.Result.◌>>=◌ (item "name" dup)
          λ name. elim (duplicate_names canonical ds os) [ err x ↦ err x | ok ns ↦ ok (name ∷ ns) ]

module _ (e : Engine) (c : Call) (p : Principal) where
  unfoldable pub add_entity : Json → Json → List Json → Json → Exec Store Fields
  unfolding text_args
  add_entity name entity_type aliases metadata = do
    lift (require p "assert")
    name' ← lift (text_arg e name none)
    entity_type' ← lift (text_arg e entity_type (some 128))
    aliases' ← lift (text_args e p aliases)
    meta ← lift (metadata_arg e metadata)
    ent ← lift (
        construct e.host Class.entity (
          envelope p "entity" (c.new_id "ent" 0) c.now (
            field "name" (str name') (
              field "entity_type" (str entity_type')
                (field "aliases" (tuple aliases') (field "metadata" meta end))))))
    commit e.host p c.now ((Op.entity_added, ent) ∷ [])
    pure ent

  unfoldable pub add_relation : String → String → Json → Json → Exec Store Fields
  add_relation source_entity target_entity rel_type metadata = do
    lift (require p "assert")
    look (refs_in_scope p (source_entity ∷ target_entity ∷ []))
    rel_type' ← lift (text_arg e rel_type (some 128))
    meta ← lift (metadata_arg e metadata)
    rel ← lift (
        construct e.host Class.relation (
          envelope p "relation" (c.new_id "rel" 0) c.now (
            field "source_entity" (str source_entity) (
              field "target_entity" (str target_entity)
                (field "rel_type" (str rel_type') (field "metadata" meta end))))))
    commit e.host p c.now ((Op.relation_added, rel) ∷ [])
    pure rel

  found : Option Fields → Result Fields
  found none = err type_error
  found (some o) = construct e.host Class.entity o

  unfoldable pub merge_entities : String → List Json → List Json → Exec Store Fields
  unfolding text_args duplicate_names texts found
  merge_entities canonical duplicates aliases = do
    lift (require p "assert")
    canon ← look (ref_in_scope p canonical)
    lift (guard_owner p (get_or "owner" (str p.agent) canon))
    dup_ids ← lift (text_args e p duplicates)
    raise_if (is_empty dup_ids) validation
    known ← lift (iterate (get_or "aliases" (arr nil) canon))
    names ← look (duplicate_names e p canonical dup_ids)
    more ← lift (text_args e p aliases)
    earlier ← lift (texts (known ++ names))
    commit e.host p c.now (
        (
          Op.entity_merged,
          field "canonical" (str canonical) (
              field "duplicates" (tuple dup_ids)
                (field "aliases" (tuple (sorted_set (earlier ++ more))) end)),
        )
        ∷ [])
    look (λ os. found (get_object canonical os))

  -- The entities of a split, each with an id of its own.
  split_into : String → ℕ → List Fields → Result (List Fields)
  unfolding text_args
  split_into origin n [] = ok []
  split_into origin n (spec ∷ specs) =
      epistemos.Result.◌>>=◌ (text_arg e (get "name" spec) none) λ name.
        epistemos.Result.◌>>=◌ (text_arg e (get_or "entity_type" (str "thing") spec) (some 128))
          λ entity_type. epistemos.Result.◌>>=◌ (iterate (get_or "aliases" (arr nil) spec)) λ named.
            epistemos.Result.◌>>=◌ (text_args e p named) λ aliases.
              epistemos.Result.◌>>=◌
                (construct e.host Class.entity (
                  envelope p "entity" (c.new_id "ent" n) c.now (
                    field "name" (str name) (
                      field "entity_type" (str entity_type) (
                        field "aliases" (tuple aliases)
                          (field "metadata" (obj (field "split_from" (str origin) end)) end))))))
                λ ent. elim (split_into origin (n + 1) specs) [
                  | err x ↦ err x
                  | ok ents ↦ ok (ent ∷ ents)
                ]

  abbrev dicts : List Fields → Json
  dicts ents = arr (of_list (epistemos.Common.map obj ents))

  unfoldable pub split_entity : String → List Fields → Exec Store (List Fields)
  unfolding split_into
  split_entity entity_id into = do
    lift (require p "assert")
    origin ← look (ref_in_scope p entity_id)
    lift (guard_owner p (get_or "owner" (str p.agent) origin))
    raise_if (is_empty into) validation
    ents ← lift (split_into entity_id 0 into)
    commit e.host p c.now
        ((Op.entity_split, field "entity" (str entity_id) (field "into" (dicts ents) end)) ∷ [])
    pure ents
