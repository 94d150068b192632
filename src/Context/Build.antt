-- ===== src/Context/Build.antt =====
-- context/builder.py: the envelope, from the hits that the search returned. Metadata and links that
-- are no dicts are a TypeError here, where Python raises AttributeError.
pub mod Honest
pub mod Hits
use Prim.Native.String.{◌++◌ as text_append}
use epistemos.Common.{
  ℕ, ◌+◌, String, Bool, true, false, not, Option, none, some, List, [], ◌∷◌, ◌++◌, ◌==◌, ◌&&◌, ◌||◌,
  contains, filter, length, map, sorted_set, if◌then◌else◌,
}
use epistemos.Result.{Result, ok, err, ◌>>=◌}
use epistemos.Json.{Json, null, float, str, arr, obj, nil, Fields, is_str, iterate, as_dict}
use epistemos.Json.Dict.{get, get_or}
use epistemos.Host.{Host, ℤ}
use epistemos.Identity.{Principal}
use epistemos.Model.{truthy}
use epistemos.Storage.{Objects, get_object, insert, lookup, values}
use epistemos.Engine.Read.{get_object_at, is_readable}
use epistemos.Temporal.{float_of}
use epistemos.Context.Describe.{Intent, classify_intent, id_of, is_contradiction, relation_weakens}
use epistemos.Context.Collapse.{RedundancyGroup, Folded, collapse}
use epistemos.Context.Pack.{EnvelopeItem, Packed, item_of, sort_items, pack}

pub record EnvelopeConfig : Type 0 where
  pub pin_contradictions : Bool
  pub collapse_redundancy : Bool
  pub budget_pack : Bool
  pub token_budget : Option ℤ
  pub continuation : Bool

pub record ContextEnvelope : Type 0 where
  pub query : String
  pub intent : Intent
  pub is_confident : Bool
  pub items : List EnvelopeItem
  pub pinned_contradictions : List String
  pub collapsed_groups : List RedundancyGroup
  pub provenance_refs : List String
  pub collapsed_versions : ℕ
  pub duplicates_folded : ℕ
  pub context_incomplete : Bool
  pub incomplete_reasons : List String
  pub token_estimate : ℕ
  pub at_tx : Json

abbrev pub ids_of : List EnvelopeItem → List String
ids_of items = map (λ i. i.object_id) items

-- `reachable_ids`, with repetitions.
abbrev pub folded_ids : List RedundancyGroup → List String
folded_ids [] = []
folded_ids (g ∷ groups) = g.collapsed ++ g.canonical ∷ folded_ids groups

unfoldable pub reachable_ids : ContextEnvelope → List String
reachable_ids e = ids_of e.items ++ folded_ids e.collapsed_groups

abbrev is_skipped : Fields → Bool
is_skipped o =
    is_str (get "kind" o) "space"
    || is_str (get "kind" o) "grant"
    || is_str (get "kind" o) "dimension"
    || is_str (get "kind" o) "microconnection"

abbrev pub Scored : Type 0
Scored = List (Fields × ℕ)

abbrev pub objects_of : Scored → List Fields
objects_of [] = []
objects_of ((o, n) ∷ more) = o ∷ objects_of more

score_at : Scored → String → Option ℕ
score_at [] i = none
score_at ((o, n) ∷ more) i = elim (score_at more i) [
  | some m ↦ some m
  | none ↦ if id_of o == i then some n else none
]

-- scored.get(id, 0.0): a later hit of an id overwrites an earlier one.
unfoldable pub score_of : Scored → String → ℕ
unfolding score_at
score_of hits i = elim (score_at hits i) [ some m ↦ m | none ↦ 0 ]

module _ (h : Host) (p : Principal) (os : Objects) where
  -- What one hit gives.
  admit : Fields → Result (Option (Fields × ℕ))
  admit hit = elim (get_object_at (get_or "id" (str "") hit) os) [
    | none ↦ ok none
    | some o ↦ if is_skipped o then ok none else (do
      may ← is_readable h p os (obj o)
      if may
          then (do score ← float_of h (get_or "score" (float 0) hit); ok (some (o, score)))
          else ok none)
  ]

  -- `_authorized_hits`, after the search
  unfoldable pub authorized_hits : List Fields → Result Scored
  unfolding admit
  authorized_hits [] = ok []
  authorized_hits (hit ∷ hits) = do
    first ← admit hit
    rest ← authorized_hits hits
    ok (elim first [ none ↦ rest | some o ↦ o ∷ rest ])

  -- The evidence of one link of a claim, if it speaks against it and may be read.
  pin_link : Objects → Json → Result Objects
  pin_link found (str ev_id) = elim (lookup ev_id found) [
    | some _ ↦ ok found
    | none ↦ elim (get_object ev_id os) [
      | none ↦ ok found
      | some ev ↦ do
        may ← is_readable h p os (obj ev)
        ok (if may then insert ev_id ev found else found)
    ]
  ]
  pin_link found _ = ok found

  pin_links : Objects → List Json → Result Objects
  pin_links found [] = ok found
  pin_links found (j ∷ links) = do
    link ← as_dict j
    next ←
        if relation_weakens (get "relation" link)
        then pin_link found (get "evidence" link)
        else ok found
    pin_links next links

  links_of : Fields → Result (List Json)
  links_of o = do
    meta ← as_dict (get_or "metadata" (obj Fields.end) o)
    let links = get_or "evidence_links" (arr nil) meta
    if truthy links then iterate links else ok []

  unfoldable pub pin_claims : Objects → List Fields → Result Objects
  unfolding links_of pin_links pin_link
  pin_claims found [] = ok found
  pin_claims found (o ∷ objs) =
      if is_str (get "kind" o) "claim"
      then (do links ← links_of o; next ← pin_links found links; pin_claims next objs)
      else pin_claims found objs

  unfoldable pub retrieved : List Fields → Objects → Objects
  retrieved [] found = found
  retrieved (o ∷ objs) found =
      retrieved objs (if is_contradiction o then insert (id_of o) o found else found)

  -- `_contradictions`
  unfoldable pub contradictions : List Fields → Result (List Fields)
  contradictions objs = do found ← pin_claims (retrieved objs []) objs; ok (values found)

  unfoldable pub items_of : List Fields → Result (List EnvelopeItem)
  items_of [] = ok []
  items_of (o ∷ objs) = do i ← item_of h o; is ← items_of objs; ok (i ∷ is)

  -- Deliver the pinned contradictions that are not among the items.
  unfoldable pub add_pins : List EnvelopeItem → List Fields → Result (List EnvelopeItem)
  add_pins items [] = ok items
  add_pins items (o ∷ more) =
      if contains (id_of o) (ids_of items)
      then add_pins items more
      else (do i ← item_of h o; add_pins (items ++ i ∷ []) more)

  abbrev all_kept : Scored → Folded
  all_kept hits = record { keep = objects_of hits; groups = []; reasons = [] }

  abbrev pub folded_hits : EnvelopeConfig → Intent → Bool → Scored → Folded
  folded_hits cfg intent confident hits =
      if cfg.collapse_redundancy
      then collapse h (score_of hits) (objects_of hits) intent confident
      else all_kept hits

  abbrev pub packed : EnvelopeConfig → List EnvelopeItem → List String → Packed
  packed cfg items pinned =
      let plain : Packed = record { chosen = items; dropped = [] } in
      if cfg.budget_pack
      then elim cfg.token_budget [ none ↦ plain | some b ↦ pack items b cfg.continuation pinned ]
      else plain

  abbrev pub drop_reasons : Bool → List EnvelopeItem → List String
  drop_reasons continuation [] = []
  drop_reasons continuation (i ∷ dropped) =
      "token_limit" ∷ (if continuation then "continuation_available" ∷ [] else [])

  abbrev count_folded : String → List RedundancyGroup → ℕ
  count_folded kind [] = 0
  count_folded kind (g ∷ groups) =
      let more = count_folded kind groups in
      if g.kind == kind then length g.collapsed + more else more

  abbrev all_refs : List EnvelopeItem → List String
  all_refs [] = []
  all_refs (i ∷ items) = i.provenance ++ all_refs items

  abbrev source_refs : List String → List String
  source_refs [] = []
  source_refs (s ∷ ss) = text_append "source:" s ∷ source_refs ss

  abbrev group_refs : List RedundancyGroup → List String
  group_refs [] = []
  group_refs (g ∷ groups) = source_refs g.sources ++ group_refs groups

  abbrev total_tokens : List EnvelopeItem → ℕ
  total_tokens [] = 0
  total_tokens (i ∷ items) = i.tokens + total_tokens items

  abbrev is_some_dropped : List EnvelopeItem → Bool
  is_some_dropped [] = false
  is_some_dropped (i ∷ dropped) = true

  abbrev missing_reason : List String → List String
  missing_reason [] = []
  missing_reason (c ∷ missing) = "contradiction_unavailable" ∷ []

  -- `_finalize`; `reasons` are those from before it.
  unfoldable pub finalize :
      Option String
      → Intent
      → Bool
      → Packed
      → List String
      → List RedundancyGroup
      → List String
      → Json
      → ContextEnvelope
  finalize query intent confident out pinned groups reasons at_tx =
      let delivered = ids_of out.chosen in
      let missing = missing_reason (filter (λ c. not (contains c delivered)) pinned) in
      let all_reasons = reasons ++ missing in
      record {
        query = elim query [ none ↦ "" | some q ↦ q ];
        intent = intent;
        is_confident = confident;
        items = sort_items out.chosen;
        pinned_contradictions = filter (λ c. contains c delivered) pinned;
        collapsed_groups = groups;
        provenance_refs = sorted_set (all_refs out.chosen ++ group_refs groups);
        collapsed_versions = count_folded "collapsed_history" groups;
        duplicates_folded = count_folded "duplicate" groups;
        context_incomplete =
            is_some_dropped out.dropped
            || contains "contradiction_unavailable" missing
            || contains "history_collapsed" all_reasons
            || contains "token_limit" all_reasons;
        incomplete_reasons = sorted_set all_reasons;
        token_estimate = total_tokens out.chosen;
        at_tx = at_tx;
      }

  abbrev pub intent_of : Option String → Option (Intent × Bool) → Intent × Bool
  intent_of query none = classify_intent h query
  intent_of query (some given) = given

  -- `build`, after the search: the intent is given, or the query's is taken.
  unfoldable pub build :
      EnvelopeConfig
      → Option String
      → Option (Intent × Bool)
      → Json
      → List Fields
      → Result ContextEnvelope
  build cfg query given at_tx found = do
    let (intent, confident) = intent_of query given
    hits ← authorized_hits found
    let folded = folded_hits cfg intent confident hits
    items ← items_of folded.keep
    contra ← if cfg.pin_contradictions then contradictions (objects_of hits) else ok []
    all_items ← add_pins items contra
    let out = packed cfg all_items (map id_of contra)
    ok (
        finalize query intent confident out (map id_of contra) folded.groups
          (folded.reasons ++ drop_reasons cfg.continuation out.dropped) at_tx)
