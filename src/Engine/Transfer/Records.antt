-- ===== src/Engine/Transfer/Records.antt =====
-- core/__init__.py: ledger records and events as dicts. A ledger record is a dataclass whose field
-- types Python does not check; here a field of another type is refused when the record is read, with
-- the error that a missing field gives.
pub mod RoundTrip
use epistemos.Common.{
  ℕ, String, Bool, true, false, Option, none, some, List, [], ◌∷◌, ◌&&◌, if◌then◌else◌, all,
}
use epistemos.Result.{Result, ok, err, schema, key_error, type_error, value_error, ◌>>=◌}
use epistemos.Json.{
  Json, null, num, str, arr, obj, nil, Fields, end, field, is_str, to_list, iterate, as_dict,
}
use epistemos.Json.Dict.{get, get_or, has, item}
use epistemos.Host.{Host, ℤ, pos, negsuc, int_of}
use epistemos.Ledger.{op_name, op_of_name, Event, LedgerRecord, opt_str, verify_chain}

abbrev pub export_format : String
export_format = "epistemos-events"

-- `_record_to_dict`
unfoldable pub record_to_dict : LedgerRecord → Fields
unfolding op_name
record_to_dict r = field "seq" (num r.seq) (
    field "ts" (str r.ts) (
      field "op" (str (op_name r.op)) (
        field "tenant" (str r.tenant) (
          field "namespace" (str r.namespace) (
            field "actor" (str r.actor) (
              field "principal" (opt_str r.principal) (
                field "payload" (obj r.payload) (
                  field "content_hash" (str r.content_hash) (
                    field "prev_hash" (str r.prev_hash)
                      (field "entry_hash" (str r.entry_hash) end))))))))))

-- [_record_to_dict(r) for r in records]
abbrev pub dicts_of : List LedgerRecord → List Json
dicts_of [] = []
dicts_of (r ∷ rs) = obj (record_to_dict r) ∷ dicts_of rs

unfoldable pub text : Json → Result String
text (str s) = ok s
text _ = err type_error

optional_text : Json → Result (Option String)
optional_text null = ok none
optional_text (str s) = ok (some s)
optional_text _ = err type_error

natural : ℤ → Result ℕ
natural (pos n) = ok n
natural (negsuc n) = err type_error

abbrev text_at : String → Fields → Result String
unfolding text
text_at k d = item k d >>= text

-- except (KeyError, TypeError, ValueError): raise SchemaError
or_schema {ℓ} : {A : Type ℓ} → Result A → Result A
or_schema (ok a) = ok a
or_schema (err key_error) = err schema
or_schema (err type_error) = err schema
or_schema (err value_error) = err schema
or_schema (err x) = err x

read_record : Host → Json → Result LedgerRecord
unfolding text optional_text natural op_of_name
read_record h j = do
  d ← as_dict j
  seq ← item "seq" d >>= int_of h >>= natural
  ts ← text_at "ts" d
  op ← text_at "op" d
  tenant ← text_at "tenant" d
  namespace ← text_at "namespace" d
  actor ← text_at "actor" d
  principal ← optional_text (get "principal" d)
  payload ← item "payload" d >>= as_dict
  content_hash ← text_at "content_hash" d
  prev_hash ← text_at "prev_hash" d
  entry_hash ← text_at "entry_hash" d
  ok (record {
    seq = seq;
    ts = ts;
    op = op_of_name op;
    tenant = tenant;
    namespace = namespace;
    actor = actor;
    principal = principal;
    payload = payload;
    content_hash = content_hash;
    prev_hash = prev_hash;
    entry_hash = entry_hash;
  })

-- `_dict_to_record`
unfoldable pub dict_to_record : Host → Json → Result LedgerRecord
unfolding read_record or_schema
dict_to_record h j = or_schema (read_record h j)

unfoldable pub records_of : Host → List Json → Result (List LedgerRecord)
records_of h [] = ok []
records_of h (j ∷ js) = do r ← dict_to_record h j; rs ← records_of h js; ok (r ∷ rs)

-- One event of `_carries_chain`.
chained : Json → Bool
chained (obj d) = has "seq" d && has "content_hash" d && has "prev_hash" d && has "entry_hash" d
chained _ = false

-- `_carries_chain`
unfoldable pub carries_chain : Json → Bool
unfolding chained
carries_chain (arr events) = all chained (to_list events)
carries_chain _ = true

-- The event that a migrated dict is read as.
read_event : Json → Result Event
unfolding text optional_text op_of_name
read_event j = do
  d ← as_dict j
  op ← text_at "op" d
  ts ← text_at "ts" d
  tenant ← text_at "tenant" d
  namespace ← text_at "namespace" d
  actor ← text_at "actor" d
  principal ← optional_text (get "principal" d)
  payload ← item "payload" d >>= as_dict
  ok (record {
    op = op_of_name op;
    ts = ts;
    tenant = tenant;
    namespace = namespace;
    actor = actor;
    principal = principal;
    payload = payload;
  })

abbrev pub events_of : Fields → Json
events_of payload = get_or "events" (arr nil) payload

unfoldable pub recognised : Json → Result Fields
recognised (obj d) = if is_str (get "format" d) export_format then ok d else err schema
recognised _ = err schema

module _ (h : Host) where
  unfoldable pub event_of : Json → Result Event
  unfolding read_event or_schema
  event_of j = or_schema (read_event j)

  abbrev pub verify_if : Bool → List LedgerRecord → Result (Unit {0})
  verify_if true records = do _ ← verify_chain h records none none; ok tt
  verify_if false records = ok tt

  -- The chain as it was received, before the payloads are reshaped.
  unfoldable pub verify_received : Bool → Fields → Result (Unit {0})
  verify_received true payload = do
    js ← iterate (events_of payload)
    records ← records_of h js
    verify_if true records
  verify_received false payload = ok tt
