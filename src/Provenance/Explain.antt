-- ===== src/Provenance/Explain.antt =====
-- provenance/__init__.py: the genealogy of an object, and the evidence behind a decision.
pub mod Firewall
pub mod Source
use epistemos.Common.{
  ℕ, zero, suc, String, Bool, true, false, not, Option, none, some, List, [], ◌∷◌, ◌&&◌, contains,
  filter, map, if◌then◌else◌,
}
use epistemos.Result.{Result, ok, err, type_error, ◌>>=◌}
use epistemos.Json.{Json, null, str, arr, obj, nil, Fields, end, field, is_str, iterate}
use epistemos.Json.Dict.{get, get_or, item}
use epistemos.Ledger.{LedgerRecord}
use epistemos.Model.{truthy}
use epistemos.Storage.{Store, get_object, in_scope, objects, read_events, records_by_seq}
use epistemos.Provenance.Refs.{refs_id}
use epistemos.Provenance.Index.{Table, Index, usable_for, seqs_for, mark_degraded}
use epistemos.Provenance.Views.{
  activity_view, of_scope, is_in, find_object, status_view, content_of, Node, missing, out_of_scope,
  elided, expanded, Nodes, none_left, and_more,
}

module _ (t : Table) (s : Store) (tenant namespace : String) where
  -- The answer from the ledger alone, and from the places that the index gives.
  unfoldable pub scan_activities : String → List Fields
  scan_activities obj_id = map activity_view (
      filter (λ r. of_scope tenant namespace r && refs_id (obj r.payload) obj_id) (read_events 0 s))

  unfoldable pub keyed_activities : List ℕ → List Fields
  keyed_activities seqs =
      map activity_view (filter (of_scope tenant namespace) (records_by_seq seqs s))

  -- `_activities_for`, with the index as it is afterwards.
  unfoldable pub activities_for : String → Option (Index t) → List Fields × Option (Index t)
  activities_for obj_id none = (scan_activities obj_id, none)
  activities_for obj_id (some ix) =
      if not (usable_for t ix obj_id)
      then (scan_activities obj_id, some ix)
      else elim (seqs_for t ix obj_id) [
        | none ↦ (scan_activities obj_id, some (mark_degraded t ix))
        | some seqs ↦ (keyed_activities seqs, some ix)
      ]

  unfoldable source_found : Json → Fields → Result Fields
  unfolding status_view
  source_found source_id src =
      if not (in_scope tenant namespace src) then ok (status_view source_id "out_of_scope") else do
        id ← item "id" src
        ok (
            field "id" id (
              field "uri" (get "uri" src) (
                field "source_kind" (get "source_kind" src) (field "trust" (get "trust" src) end))))

  unfoldable pub source_view : Json → Result (Option Fields)
  unfolding source_found status_view
  source_view source_id = if not (truthy source_id) then ok none else (do
    src ← find_object source_id s.objects_by_id
    elim src [
      | none ↦ ok (some (status_view source_id "missing"))
      | some o ↦ do d ← source_found source_id o; ok (some d)
    ])

  -- The facts that list the id in their `supersedes`.
  scan_newer : String → List Fields → Result (List Json)
  scan_newer obj_id [] = ok []
  scan_newer obj_id (f ∷ facts) = do
    newer ← is_in obj_id (get_or "supersedes" (arr nil) f)
    id ← if newer then item "id" f else ok null
    out ← scan_newer obj_id facts
    ok (if newer then id ∷ out else out)

  -- `payload.get("supersedes") or ()`
  abbrev or_empty : Json → Json
  or_empty v = if truthy v then v else arr nil

  -- str(payload["id"]) of an id that is a text, as put_object wants it.
  keyed_newer : String → List LedgerRecord → Result (List Json)
  keyed_newer obj_id [] = ok []
  keyed_newer obj_id (r ∷ records) = do
    newer ←
        if is_str (get "kind" r.payload) "fact"
        then is_in obj_id (or_empty (get "supersedes" r.payload))
        else ok false
    id ← if newer then item "id" r.payload else ok null
    out ← keyed_newer obj_id records
    ok (if newer then id ∷ out else out)

  unfoldable pub superseded_by : String → Option (Index t) → Result (List Json × Option (Index t))
  unfolding scan_newer keyed_newer
  superseded_by obj_id index =
      let scan = scan_newer obj_id (objects tenant namespace (some "fact") s.objects_by_id) in
      elim index [
        | none ↦ do out ← scan; ok (out, none)
        | some ix ↦
            if not (usable_for t ix obj_id)
            then (do out ← scan; ok (out, some ix))
            else elim (seqs_for t ix obj_id) [
              | none ↦ do out ← scan; ok (out, some (mark_degraded t ix))
              | some seqs ↦ do
                out ←
                    keyed_newer obj_id (filter (of_scope tenant namespace) (records_by_seq seqs s))
                ok (out, some ix)
            ]
      ]

  -- What one explanation keeps on its way: the ids that are expanded, and the index.
  pub record Walk : Type 0 where
    pub seen : List String
    pub index : Option (Index t)

  abbrev pub Walker : Type 0
  Walker = Json → Walk → Result (Node × Walk)

  -- `_walk`
  unfoldable pub walk : Walker → List Json → Walk → Result (Nodes × Walk)
  walk go [] w = ok (none_left, w)
  walk go (ref ∷ refs) w = do
    first ← go ref w
    rest ← walk go refs first.1
    ok (and_more first.0 rest.0, rest.1)

  abbrev or_nothing : Json → Result (List Json)
  or_nothing v = if truthy v then iterate v else ok []

  -- The node of an object that may be shown, whose lineage `go` walks.
  unfoldable pub expand : Walker → String → Fields → Walk → Result (Node × Walk)
  expand go obj_id o w = do
    source ← source_view (get "source" o)
    let acts = activities_for obj_id w.index
    refs ← iterate (get_or "derived_from" (arr nil) o)
    derived ← walk go refs (record w { seen = obj_id ∷ w.seen; index = acts.1 })
    older ← iterate (get_or "supersedes" (arr nil) o)
    supersedes ← walk go older derived.1
    contradicts ← or_nothing (get "contradicts" o)
    newer ← superseded_by obj_id supersedes.1.index
    ok (
      expanded
          (record {
            id = obj_id;
            content = content_of obj_id o;
            source = source;
            activities = acts.0;
            contradicts = contradicts;
            superseded_by = newer.0;
          })
          derived.0 supersedes.0,
      record supersedes.1 { seen = supersedes.1.seen; index = newer.1 },
    )

  module _ (can_read : Option (Fields → Result Bool)) where
    abbrev pub allowed : Fields → Result Bool
    allowed o = elim can_read [ none ↦ ok true | some f ↦ f o ]

    -- The tests that come before anything of the object is told.
    unfoldable pub guarded : (String → Fields → Walk → Result (Node × Walk)) → Walker
    guarded k (str i) w = elim (get_object i s.objects_by_id) [
      | none ↦ ok (missing (str i), w)
      | some o ↦
          if not (in_scope tenant namespace o)
          then ok (out_of_scope (str i), w)
          else (do may ← allowed o; if not may then ok (out_of_scope (str i), w) else k i o w)
    ]
    guarded k (arr xs) w = err type_error
    guarded k (obj d) w = err type_error
    guarded k j w = ok (missing j, w)

    -- `budget` is depth + 1, or 0 for a depth below 0.
    unfoldable pub explain : ℕ → Walker
    explain zero = guarded (λ i o w. ok (elided i (get "kind" o), w))
    explain (suc depth) = guarded (λ i o w.
        if contains i w.seen then ok (elided i (get "kind" o), w) else expand (explain depth) i o w)

    -- Each piece of evidence is explained from the start, to depth 2.
    unfoldable pub explain_each : List Json → Option (Index t) → Result (Nodes × Option (Index t))
    explain_each [] index = ok (none_left, index)
    explain_each (ev ∷ more) index = do
      first ← explain 3 ev (record { seen = []; index = index })
      rest ← explain_each more first.1.index
      ok (and_more first.0 rest.0, rest.1)

  pub record Decision : Type 0 where
    pub id : String
    pub statement : Json
    pub outcome : Json
    pub reversible : Json
    pub alternatives : List Json
    pub evidence : Nodes
    pub activities : List Fields

  -- `explain_decision`, of a decision that was found in the scope.
  unfoldable pub decision_found :
      Option (Fields → Result Bool)
      → String
      → Fields
      → Option (Index t)
      → Result (Decision × Option (Index t))
  decision_found can_read i dec index = do
    refs ← iterate (get_or "evidence" (arr nil) dec)
    evidence ← explain_each can_read refs index
    alternatives ← iterate (get_or "alternatives" (arr nil) dec)
    let acts = activities_for i evidence.1
    ok (
      record {
        id = i;
        statement = get "statement" dec;
        outcome = get "outcome" dec;
        reversible = get "reversible" dec;
        alternatives = alternatives;
        evidence = evidence.0;
        activities = acts.0;
      },
      acts.1,
    )

  -- The dict of a status, or of a decision.
  pub data Answer : Type 0 where
    only_status : Fields → Answer
    decided : Decision → Answer

  unfoldable pub explain_decision :
      Option (Fields → Result Bool) → String → Option (Index t) → Result (Answer × Option (Index t))
  unfolding decision_found status_view
  explain_decision can_read i index = elim (get_object i s.objects_by_id) [
    | none ↦ ok (only_status (status_view (str i) "missing"), index)
    | some dec ↦
        if not (is_str (get "kind" dec) "decision")
        then ok (only_status (status_view (str i) "missing"), index)
        else if not (in_scope tenant namespace dec)
        then ok (only_status (status_view (str i) "out_of_scope"), index)
        else do found ← decision_found can_read i dec index; ok (decided found.0, found.1)
  ]
