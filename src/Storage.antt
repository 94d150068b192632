-- ===== src/Storage.antt =====
-- storage/memory.py and storage/ports.py: the in-memory store. Objects are kept by id as the dicts
-- that their canonical JSON stands for; a dict that goes through JSON text is the same dict up to the
-- order of its keys. The lock is not modelled: calls run one after another.
pub mod Lookup
pub mod Reading
use epistemos.Common.{
  ℕ, suc, ◌+◌, ◌-◌, String, Bool, true, Option, none, some, List, [], ◌∷◌, ◌++◌, ◌==◌, ◌&&◌, nat_eq,
  ltb, if◌then◌else◌, length, take, filter, any,
}
use epistemos.Result.{Result, ok, err, validation, type_error}
use epistemos.Exec.{Exec}
use epistemos.Json.{Json, str, Fields, is_str}
use epistemos.Json.Dict.{get, has, item, json_eq}
use epistemos.Host.{Host}
use epistemos.Ledger.{Event, LedgerRecord, genesis_hash, seal}

abbrev pub Objects : Type 0
Objects = List (String × Fields)

pub record Store : Type 0 where
  pub ledger : List LedgerRecord
  pub objects_by_id : Objects
  pub depth : ℕ
  pub snap_ledger : ℕ
  pub snap_objects : Option Objects

abbrev pub empty_store : Store
empty_store = record {
  ledger = [];
  objects_by_id = [];
  depth = 0;
  snap_ledger = 0;
  snap_objects = none;
}

-- self._objects.get(id), and self._objects[id] = obj, which keeps the place of an id it knows.
unfoldable pub lookup : String → Objects → Option Fields
lookup i [] = none
lookup i ((j, o) ∷ os) = if j == i then some o else lookup i os

unfoldable pub insert : String → Fields → Objects → Objects
insert i o [] = (i, o) ∷ []
insert i o ((j, p) ∷ os) = if j == i then (i, o) ∷ os else (j, p) ∷ insert i o os

abbrev pub join_from : ℕ → Store → Store
join_from outer s =
    if nat_eq outer 0
    then record s {
      depth = suc s.depth;
      snap_ledger = length s.ledger;
      snap_objects = some s.objects_by_id;
    }
    else record s { depth = suc s.depth }

or_objects : Option Objects → Objects → Objects
or_objects none os = os
or_objects (some snap) os = snap

-- What an exception undoes: only the outermost block rolls back.
unfoldable pub roll_back : Bool → Store → Store
unfolding or_objects
roll_back outermost s =
    if outermost
    then record s {
      ledger = take s.snap_ledger s.ledger;
      objects_by_id = or_objects s.snap_objects s.objects_by_id;
    }
    else s

abbrev pub leave : Bool → Store → Store
leave outermost s =
    if outermost
    then record s { depth = s.depth - 1; snap_objects = none }
    else record s { depth = s.depth - 1 }

abbrev pub settle : {A : Type 0} → Bool → Result A × Store → Result A × Store
settle outermost (ok a, s) = (ok a, leave outermost s)
settle outermost (err e, s) = (err e, leave outermost (roll_back outermost s))

-- with store.atomic(): body
unfoldable pub atomic : {A : Type 0} → Exec Store A → Exec Store A
unfolding roll_back
atomic body s = settle (nat_eq s.depth 0) (body (join_from s.depth s))

unfoldable pub head : List LedgerRecord → Option LedgerRecord
head [] = none
head (r ∷ []) = some r
head (r ∷ s ∷ rs) = head (s ∷ rs)

unfoldable pub head_link : List LedgerRecord → String × ℕ
unfolding head
head_link ledger = elim (head ledger) [
  | none ↦ (genesis_hash, 1)
  | some r ↦ (r.entry_hash, r.seq + 1)
]

unfoldable pub append : Host → Event → Exec Store LedgerRecord
append h event s =
    let (prev_hash, seq) = head_link s.ledger in
    let r = seal h seq event prev_hash in (ok r, record s { ledger = s.ledger ++ r ∷ [] })

unfoldable pub persist_record : LedgerRecord → Exec Store (Unit {0})
persist_record r s = (ok tt, record s { ledger = s.ledger ++ r ∷ [] })

unfoldable pub read_events : ℕ → Store → List LedgerRecord
read_events since_seq s = filter (λ r. ltb since_seq r.seq) s.ledger

unfoldable pub records_by_seq : List ℕ → Store → List LedgerRecord
records_by_seq seqs s = filter (λ r. any (λ m. nat_eq m r.seq) seqs) (read_events 0 s)

unfoldable pub event_count : Store → ℕ
event_count s = length s.ledger

has_keys : Fields → Bool
has_keys o = has "id" o && has "kind" o && has "tenant" o && has "namespace" o

store_at : Json → Fields → Exec Objects (Unit {0})
store_at (str i) o os = (ok tt, insert i o os)
store_at _ o os = (err type_error, os)

-- An id that is no text is refused here; Python would keep the object under a key that no lookup
-- by text finds.
unfoldable pub put_object : Fields → Exec Objects (Unit {0})
unfolding has_keys store_at
put_object o os = if has_keys o then store_at (get "id" o) o os else (err validation, os)

unfoldable pub get_object : String → Objects → Option Fields
get_object i os = lookup i os

-- A call that works on the objects alone.
abbrev pub on_objects : {A : Type 0} → Exec Objects A → Exec Store A
on_objects m s = let (r, os) = m s.objects_by_id in (r, record s { objects_by_id = os })

abbrev pub values : Objects → List Fields
values [] = []
values ((i, o) ∷ os) = o ∷ values os

abbrev pub in_scope : String → String → Fields → Bool
in_scope tenant namespace o = is_str (get "tenant" o) tenant && is_str (get "namespace" o) namespace

-- `kind is None or o.get("kind") == kind`, and so for the other filters.
abbrev pub matches : Option String → String → Fields → Bool
matches none key o = true
matches (some v) key o = is_str (get key o) v

unfoldable pub objects : String → String → Option String → Objects → List Fields
objects tenant namespace kind os =
    filter (λ o. in_scope tenant namespace o && matches kind "kind" o) (values os)

unfoldable pub facts :
    String → String → Option String → Option String → Option String → Objects → List Fields
unfolding objects
facts tenant namespace subject predicate object os =
    filter
      (λ o.
        matches subject "subject" o && matches predicate "predicate" o && matches object "object" o)
      (objects tenant namespace (some "fact") os)

unfoldable pub relations :
    String → String → Option String → Option String → Option String → Objects → List Fields
unfolding objects
relations tenant namespace source_entity target_entity rel_type os =
    filter
      (λ o.
        matches source_entity "source_entity" o
        && matches target_entity "target_entity" o
        && matches rel_type "rel_type" o)
      (objects tenant namespace (some "relation") os)

-- result[kind] = result.get(kind, 0) + 1
unfoldable pub count_kind : Json → List (Json × ℕ) → List (Json × ℕ)
count_kind kind [] = (kind, 1) ∷ []
count_kind kind ((k, n) ∷ counts) =
    if json_eq k kind then (k, n + 1) ∷ counts else (k, n) ∷ count_kind kind counts

tally : List Fields → List (Json × ℕ) → Result (List (Json × ℕ))
tally [] result = ok result
tally (o ∷ os) result =
    epistemos.Result.◌>>=◌ (item "kind" o) λ kind. tally os (count_kind kind result)

unfoldable pub counts : String → String → Objects → Result (List (Json × ℕ))
unfolding tally
counts tenant namespace os = tally (objects tenant namespace none os) []

unfoldable pub clear_projection : Exec Store (Unit {0})
clear_projection s = (ok tt, record s { objects_by_id = [] })
