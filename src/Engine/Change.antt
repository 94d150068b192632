-- ===== src/Engine/Change.antt =====
-- core/__init__.py: what each record does to one object that is already there. `none` leaves it
-- alone.
use epistemos.Common.{
  ◌-◌, String, Bool, false, Option, none, some, List, [], ◌∷◌, ◌++◌, if◌then◌else◌, length, drop,
  any,
}
use epistemos.Result.{Result, ok, ◌>>=◌}
use epistemos.Json.{
  Json, bool, str, arr, obj, nil, Fields, end, field, is_str, is_null, of_list, iterate, as_dict,
}
use epistemos.Json.Dict.{get, get_or, item, put, json_eq}
use epistemos.Ledger.{LedgerRecord}
use epistemos.Model.{truthy}
use epistemos.Engine.Base.{max_annotations}

-- The most recent items, [-_MAX_ANNOTATIONS:].
unfoldable pub recent : List Json → List Json
recent xs = drop (length xs - max_annotations) xs

abbrev pub member : Json → List Json → Bool
member v xs = any (λ x. json_eq x v) xs

-- Append what is not there yet.
abbrev pub add_new : Json → List Json → List Json
add_new v xs = if member v xs then xs else xs ++ v ∷ []

unfoldable pub extend_new : List Json → List Json → List Json
extend_new xs [] = xs
extend_new xs (v ∷ vs) = extend_new (add_new v xs) vs

-- obj.get("metadata", {}).get(key, [])
unfoldable pub annotations : String → Fields → Result (List Json)
annotations key o = do
  meta ← as_dict (get_or "metadata" (obj end) o)
  iterate (get_or key (arr nil) meta)

-- obj.setdefault("metadata", {})[key] = value
unfoldable pub set_metadata : String → Json → Fields → Result Fields
set_metadata key v o = do
  meta ← as_dict (get_or "metadata" (obj end) o)
  ok (put "metadata" (obj (put key v meta)) o)

abbrev listed : List Json → Json
listed xs = arr (of_list xs)

module _ (r : LedgerRecord) where
  -- FACT_SUPERSEDED and FACT_RETRACTED: the first close stands.
  unfoldable pub close_belief : Fields → Result (Option Fields)
  close_belief o =
      if is_null (get "tx_to" o)
      then (do
        tx_to ← item "tx_to" r.payload
        status ← item "status" r.payload
        ok (some (put "status" status (put "tx_to" tx_to o))))
      else ok none

  unfoldable pub corroborate : Fields → Result (Option Fields)
  corroborate o = do
    confidence ← item "confidence" r.payload
    corr ← annotations "corroborations" (put "confidence" confidence o)
    let entry = field "source" (get "source" r.payload) (field "ts" (str r.ts) end)
    o' ←
        set_metadata "corroborations" (listed (recent (corr ++ obj entry ∷ [])))
          (put "confidence" confidence o)
    ok (some o')

  unfoldable pub note_contradiction : Json → Json → Fields → Result Fields
  note_contradiction other note o = do
    notes ← annotations "contradiction_notes" o
    let entry = field "other" other (field "note" note (field "ts" (str r.ts) end))
    set_metadata "contradiction_notes" (listed (recent (notes ++ obj entry ∷ []))) o

  -- One half of `_apply_contradiction`.
  unfoldable pub contradicted_by : Json → Fields → Result (Option Fields)
  unfolding note_contradiction
  contradicted_by other o = do
    contradicts ← iterate (get_or "contradicts" (arr nil) o)
    let marked = put "contradicts" (listed (add_new other contradicts)) o
    let note = get "note" r.payload
    o' ← (if truthy note then note_contradiction other note marked else ok marked)
    ok (some o')

  unfoldable pub merge_into : Fields → Result (Option Fields)
  merge_into o = do
    aliases ← iterate (get_or "aliases" (arr nil) o)
    more ← iterate (get_or "aliases" (arr nil) r.payload)
    let named = put "aliases" (listed (extend_new aliases more)) o
    merged ← annotations "merged_from" named
    duplicates ← item "duplicates" r.payload >>= iterate
    o' ← set_metadata "merged_from" (listed (extend_new merged duplicates)) named
    ok (some o')

  unfoldable pub mark_merged : Json → Fields → Result (Option Fields)
  mark_merged canonical o = do
    o' ← set_metadata "merged_into" canonical o
    o'' ← set_metadata "merged_at" (str r.ts) o'
    ok (some o'')

  unfoldable pub mark_split : List Json → Fields → Result (Option Fields)
  mark_split into_ids o = do o' ← set_metadata "split_into" (listed into_ids) o; ok (some o')

  unfoldable pub revoke : Fields → Result (Option Fields)
  revoke o = ok (some (put "revoked_at" (str r.ts) (put "active" (bool false) o)))

  -- `_apply_placement`
  unfoldable pub place : Fields → Result (Option Fields)
  place o = do
    placed ← iterate (get_or "spaces" (arr nil) o)
    dest ← item "destination_space" r.payload
    ok (some (put "spaces" (listed (add_new dest placed)) o))

  -- CLAIM_RETRACTED and CLAIM_SUPERSEDED
  unfoldable pub close_claim : Fields → Result (Option Fields)
  close_claim o =
      if is_str (get "status" o) "open"
      then (do
        status ← item "status" r.payload
        ok (some (put "tx_to" (get "tx_to" r.payload) (put "status" status o))))
      else ok none

  -- `_apply_evidence_attached`
  unfoldable pub attach : Fields → Result (Option Fields)
  attach o = do
    links ← annotations "evidence_links" o
    evidence ← item "evidence_id" r.payload
    relation ← item "relation" r.payload
    let entry = obj (field "evidence" evidence (field "relation" relation end))
    o' ← set_metadata "evidence_links" (listed (recent (add_new entry links))) o
    ok (some o')

  -- CLAIM_ACCEPTED and CLAIM_REJECTED, by the key of the marker.
  unfoldable pub govern : String → Fields → Result (Option Fields)
  govern key o = do
    let gov =
        field "actor" (str r.actor)
          (field "at" (str r.ts) (field "reason" (get "reason" r.payload) end))
    o' ← set_metadata key (obj gov) o
    ok (some o')
