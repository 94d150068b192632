-- ===== src/Engine/Transfer/Export.antt =====
-- core/__init__.py: the export of the whole ledger, and of what one principal may read.
pub mod Scoped
pub mod Whole
use epistemos.Common.{
  ℕ, ◌+◌, String, Bool, not, Option, none, some, List, [], ◌∷◌, ◌&&◌, ◌||◌, ◌==◌, filter, length,
  contains, if◌then◌else◌, false,
}
use epistemos.Result.{Result, ok, err, validation, authorization, ◌>>=◌}
use epistemos.Json.{Json, null, bool, num, str, arr, obj, Fields, end, field, is_str, of_list}
use epistemos.Json.Dict.{find, get, item, put}
use epistemos.Host.{Host}
use epistemos.Identity.{Principal, require}
use epistemos.Ledger.{Event, LedgerRecord, genesis_hash, seal}
use epistemos.Schema.{schema_version}
use epistemos.Storage.{Store, Objects, objects, read_events}
use epistemos.Engine.Base.{Engine, Call}
use epistemos.Engine.Read.{can_read}
use epistemos.Engine.Transfer.Records.{export_format, dicts_of, text}

-- The first of the keys whose value is a text.
abbrev first_text : List String → Fields → Option String
first_text [] payload = none
first_text (k ∷ ks) payload =
    let rest = first_text ks payload in elim (get k payload) [ str s ↦ some s | _ ↦ rest ]

-- `_event_object_id`
unfoldable pub event_object_id : Fields → Option String
event_object_id payload =
    first_text ("id" ∷ "fact_id" ∷ "object_id" ∷ "entity" ∷ "canonical" ∷ []) payload

abbrev pub is_control_plane : Fields → Bool
is_control_plane o = is_str (get "kind" o) "space" || is_str (get "kind" o) "grant"

abbrev pub names_one_of : List String → Option String → Bool
names_one_of ids none = false
names_one_of ids (some i) = contains i ids

-- The export's dict.
unfoldable pub exported : String → List LedgerRecord → Fields → Fields
exported now rs more = field "format" (str export_format) (
    field "schema_version" (num schema_version) (
      field "exported_at" (str now) (
        field "event_count" (num (length rs)) (field "events" (arr (of_list (dicts_of rs))) more))))

abbrev pub scope_of : Json → Json → Fields → Fields
scope_of tenant namespace more =
    field "scope" (obj (field "tenant" tenant (field "namespace" namespace end))) more

-- The event that a record was sealed from.
abbrev pub event_in : LedgerRecord → Event
event_in r = record {
  op = r.op;
  ts = r.ts;
  tenant = r.tenant;
  namespace = r.namespace;
  actor = r.actor;
  principal = r.principal;
  payload = r.payload;
}

module _ (h : Host) where
  -- The ids of the objects that the principal may read. An object's id is a text: put_object
  -- refuses any other.
  unfoldable pub readable_ids : Principal → Objects → List Fields → Result (List String)
  unfolding text
  readable_ids p os [] = ok []
  readable_ids p os (o ∷ more) = do
    may ← if is_control_plane o then ok Bool.false else can_read h p os o
    rest ← readable_ids p os more
    if may then (do i ← item "id" o >>= text; ok (i ∷ rest)) else ok rest

  unfoldable pub selected : Principal → List String → List LedgerRecord → List LedgerRecord
  selected p ids rs =
      filter
        (λ r.
          r.tenant == p.tenant
          && r.namespace == p.namespace
          && names_one_of ids (event_object_id r.payload))
        rs

  -- The selected events, sealed again into a chain of their own.
  unfoldable pub resealed : ℕ → String → List LedgerRecord → List LedgerRecord
  resealed seq prev [] = []
  resealed seq prev (r ∷ rs) =
      let sealed = seal h seq (event_in r) prev in sealed ∷ resealed (seq + 1) sealed.entry_hash rs

  unfoldable pub scoped_records : Principal → Store → Result (List LedgerRecord)
  scoped_records p s = do
    ids ← readable_ids p s.objects_by_id (objects p.tenant p.namespace none s.objects_by_id)
    ok (resealed 1 genesis_hash (selected p ids (read_events 0 s)))

  -- The export without a principal.
  unfoldable pub export_whole : String → Store → Fields
  export_whole now s = exported now (read_events 0 s) end

  -- The export for a principal.
  unfoldable pub export_for : String → Principal → String → Store → Result Fields
  export_for now p scope s = do
    _ ← require p "export"
    if not (scope == "principal" || scope == "all")
        then err validation
        else if scope == "all"
        then (if not (contains "admin" p.capabilities)
            then err authorization
            else ok (exported now (read_events 0 s) (scope_of null null end)))
        else (do
          rs ← scoped_records p s
          ok (
              exported now rs (
                scope_of (str p.tenant) (str p.namespace) (field "resealed" (bool Bool.true) end))))

  unfoldable pub export : Call → Option Principal → String → Store → Result Fields
  export c none scope s = ok (export_whole c.now s)
  export c (some p) scope s = export_for c.now p scope s
