-- ===== src/Context/Pack.antt =====
-- context/builder.py: the items of an envelope and the packing into a token budget, `_pack`.
pub mod Budget
use Prim.Native.Nat.{◌/◌}
use epistemos.Common.{
  ℕ, suc, ◌+◌, ◌-◌, String, Bool, true, false, not, List, [], ◌∷◌, ◌++◌, ◌==◌, ◌&&◌, ◌||◌, contains,
  leb, ltb, nat_eq, text_lt, if◌then◌else◌,
}
use epistemos.Result.{Result, ok, ◌>>=◌}
use epistemos.Json.{Json, str, Fields, is_str}
use epistemos.Json.Dict.{get, get_or}
use epistemos.Host.{Host, ℤ, pos, negsuc}
use epistemos.Context.Describe.{
  estimate_tokens, id_of, is_contradiction, is_current, serialize, provenance, to_text,
}

pub data Role : Type 0 where
  contradiction current decision support history : Role

unfoldable pub role_rank : Role → ℕ
role_rank Role.contradiction = 0
role_rank Role.current = 1
role_rank Role.decision = 2
role_rank Role.support = 3
role_rank Role.history = 4

pub record EnvelopeItem : Type 0 where
  pub object_id : String
  pub kind : String
  pub text : String
  pub tokens : ℕ
  pub role : Role
  pub provenance : List String

unfoldable pub role_of : Fields → Role
role_of o =
    if is_contradiction o
    then Role.contradiction
    else if is_str (get "kind" o) "decision"
    then Role.decision
    else if not (is_current o)
    then Role.history
    else if is_str (get "kind" o) "fact" || is_str (get "kind" o) "claim"
    then Role.current
    else Role.support

-- `_item`
unfoldable pub item_of : Host → Fields → Result EnvelopeItem
item_of h o = do
  refs ← provenance h o
  ok (record {
    object_id = id_of o;
    kind = to_text h (get_or "kind" (str "object") o);
    text = serialize h o;
    tokens = estimate_tokens (serialize h o);
    role = role_of o;
    provenance = refs;
  })

-- The sort key, by role and then by id.
unfoldable pub goes_before : EnvelopeItem → EnvelopeItem → Bool
goes_before a b =
    ltb (role_rank a.role) (role_rank b.role)
    || (nat_eq (role_rank a.role) (role_rank b.role) && text_lt a.object_id b.object_id)

unfoldable pub insert_item : EnvelopeItem → List EnvelopeItem → List EnvelopeItem
insert_item i [] = i ∷ []
insert_item i (j ∷ items) =
    let rest = insert_item i items in if goes_before j i then j ∷ rest else i ∷ j ∷ items

unfoldable pub sort_items : List EnvelopeItem → List EnvelopeItem
sort_items [] = []
sort_items (i ∷ items) = insert_item i (sort_items items)

abbrev pub is_critical_role : Role → Bool
is_critical_role Role.contradiction = true
is_critical_role Role.current = true
is_critical_role Role.decision = true
is_critical_role _ = false

-- The items that are kept whatever the budget.
unfoldable pub is_critical : List String → EnvelopeItem → Bool
is_critical pinned i = is_critical_role i.role || contains i.object_id pinned

-- int(budget * 0.5) if continuation else budget; int() rounds towards 0.
unfoldable pub effective_budget : ℤ → Bool → ℤ
effective_budget budget false = budget
effective_budget (pos n) true = pos (n / 2)
effective_budget (negsuc n) true =
    let half = (n + 1) / 2 in if nat_eq half 0 then pos 0 else negsuc (half - 1)

abbrev pub fits : ℕ → ℤ → Bool
fits n (pos m) = leb n m
fits n (negsuc m) = false

pub record Packed : Type 0 where
  pub chosen : List EnvelopeItem
  pub dropped : List EnvelopeItem

-- The loop, from the tokens used so far.
unfoldable pub pack_from : ℤ → List String → ℕ → List EnvelopeItem → Packed
pack_from effective pinned used [] = record { chosen = []; dropped = [] }
pack_from effective pinned used (i ∷ items) =
    let taken = pack_from effective pinned (used + i.tokens) items in
    let passed = pack_from effective pinned used items in
    if fits (used + i.tokens) effective || is_critical pinned i
    then record { chosen = i ∷ taken.chosen; dropped = taken.dropped }
    else record { chosen = passed.chosen; dropped = i ∷ passed.dropped }

-- `_pack`
unfoldable pub pack : List EnvelopeItem → ℤ → Bool → List String → Packed
pack items budget continuation pinned =
    pack_from (effective_budget budget continuation) pinned 0 (sort_items items)
