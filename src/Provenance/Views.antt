-- ===== src/Provenance/Views.antt =====
-- provenance/__init__.py: the dicts that an explanation is made of. A node of the tree is the dict
-- that `to_dict` gives.

use epistemos.Common.{
  ℕ, String, Bool, true, false, Option, none, some, List, [], ◌∷◌, ◌==◌, ◌&&◌, ◌||◌, nat_eq, codes,
  if◌then◌else◌,
}
use epistemos.Result.{Result, ok, err, type_error}
use epistemos.Json.{
  Json, null, bool, num, str, arr, obj, Items, nil, cons, Fields, end, field, is_str, is_null,
  of_list,
}
use epistemos.Json.Dict.{get, has}
use epistemos.Ledger.{LedgerRecord, op_name, opt_str}
use epistemos.Storage.{Objects, get_object}

unfoldable pub activity_view : LedgerRecord → Fields
activity_view r = field "seq" (num r.seq) (
    field "op" (str (op_name r.op)) (
      field "ts" (str r.ts) (
        field "actor" (str r.actor)
          (field "principal" (opt_str r.principal) (field "entry_hash" (str r.entry_hash) end)))))

abbrev pub of_scope : String → String → LedgerRecord → Bool
of_scope tenant namespace r = r.tenant == tenant && r.namespace == namespace

-- `key in obj` of a key that is a text.
starts_with : List ℕ → List ℕ → Bool
starts_with [] cs = true
starts_with (k ∷ ks) [] = false
starts_with (k ∷ ks) (c ∷ cs) = nat_eq k c && starts_with ks cs

within_text : List ℕ → List ℕ → Bool
unfolding starts_with
within_text ks [] = starts_with ks []
within_text ks (c ∷ cs) = starts_with ks (c ∷ cs) || within_text ks cs

has_item : String → Items → Bool
has_item key nil = false
has_item key (cons v xs) = is_str v key || has_item key xs

unfoldable pub is_in : String → Json → Result Bool
unfolding within_text has_item
is_in key (arr xs) = ok (has_item key xs)
is_in key (str s) = ok (within_text (codes key) (codes s))
is_in key (obj d) = ok (has key d)
is_in key _ = err type_error

-- self._objects.get(obj_id) for an id of any type; a list or a dict cannot be hashed.
unfoldable pub find_object : Json → Objects → Result (Option Fields)
find_object (str i) os = ok (get_object i os)
find_object (arr xs) os = err type_error
find_object (obj d) os = err type_error
find_object _ os = ok none

unfoldable pub status_view : Json → String → Fields
status_view id status = field "id" id (field "status" (str status) end)

-- What a node that the caller may read shows of its object.
statement_of : Fields → Fields
statement_of o =
    field "statement"
      (obj (
        field "subject" (get "subject" o)
          (field "predicate" (get "predicate" o) (field "object" (get "object" o) end))))
      (field "temporal_state"
        (obj (
          field "valid_from" (get "valid_from" o) (
            field "valid_to" (get "valid_to" o) (
              field "tx_from" (get "tx_from" o) (
                field "tx_to" (get "tx_to" o) (
                  field "status" (get "status" o)
                    (field "believed" (bool (is_null (get "tx_to" o))) end)))))))
        end)

unfoldable pub content_of : String → Fields → Fields
unfolding statement_of
content_of obj_id o = field "id" (str obj_id) (
    field "kind" (get "kind" o) (
      field "confidence" (get "confidence" o) (
        field "owner" (get "owner" o) (
          field "created_at" (get "created_at" o)
            (if is_str (get "kind" o) "fact" then statement_of o else end)))))

pub record Entity : Type 0 where
  pub id : String
  pub content : Fields
  pub source : Option Fields
  pub activities : List Fields
  pub contradicts : List Json
  pub superseded_by : List Json

mutual
  -- An elided node tells its id and its kind; an expanded one has what it is derived from and what
  -- it supersedes.
  pub data Node : Type 0 where
    missing out_of_scope : Json → Node
    elided : String → Json → Node
    expanded : Entity → Nodes → Nodes → Node

  pub data Nodes : Type 0 where
    none_left : Nodes
    and_more : Node → Nodes → Nodes

abbrev or_null : Option Fields → Json
or_null none = null
or_null (some d) = obj d

dicts : List Fields → Items
dicts [] = nil
dicts (d ∷ ds) = cons (obj d) (dicts ds)

-- A key that is left out if there is nothing under it.
unless_empty : String → List Json → Fields → Fields
unless_empty key [] more = more
unless_empty key (j ∷ js) more = field key (arr (cons j (of_list js))) more

append_fields : Fields → Fields → Fields
append_fields end d = d
append_fields (field k v e) d = field k v (append_fields e d)

unfoldable mutual
  unfolding status_view dicts unless_empty append_fields

  pub to_dict : Node → Fields
  to_dict (missing id) = status_view id "missing"
  to_dict (out_of_scope id) = status_view id "out_of_scope"
  to_dict (elided id kind) =
      field "id" (str id) (field "kind" kind (field "status" (str "elided_cycle_or_depth") end))
  to_dict (expanded e derived older) = append_fields e.content (
      field "source" (or_null e.source) (
        field "activities" (arr (dicts e.activities)) (
          field "derived_from" (arr (to_items derived)) (
            field "supersedes" (arr (to_items older)) (
              unless_empty "contradicts" e.contradicts
                (unless_empty "superseded_by" e.superseded_by end))))))

  pub to_items : Nodes → Items
  to_items none_left = nil
  to_items (and_more n ns) = cons (obj (to_dict n)) (to_items ns)
