-- ===== src/Engine/Recall.antt =====
-- core/__init__.py: recall, the memory of a class or of a session, by the text of created_at.
pub mod Latest
use epistemos.Common.{
  ℕ, suc, ◌-◌, String, Bool, true, false, not, Option, none, some, List, ◌==◌, ◌&&◌, ◌||◌, filter,
  take, length, text_lt, if◌then◌else◌, sort_by,
}
use epistemos.Result.{Result, ok, err, value_error, ◌>>=◌}
use epistemos.Json.{str, Fields, is_str}
use epistemos.Json.Dict.{get}
use epistemos.Host.{Host, ℤ, pos, negsuc}
use epistemos.Identity.{Principal, require}
use epistemos.Model.{one_of}
use epistemos.Retrieval.Text.{text_of}
use epistemos.Storage.{Objects, objects, matches}
use epistemos.Engine.Read.{readable}
use epistemos.Engine.Facts.{memory_classes}

-- MemoryClass(memory_class)
pub known_class : Option String → Result (Unit {0})
known_class none = ok tt
known_class (some v) = if one_of memory_classes (str v) then ok tt else err value_error

-- Spaces and grants are no knowledge.
abbrev pub is_recallable : Fields → Bool
is_recallable o = not (is_str (get "kind" o) "space" || is_str (get "kind" o) "grant")

-- An episode is episodic whatever it says of itself.
abbrev pub is_of_class : Option String → Fields → Bool
is_of_class none o = true
is_of_class (some v) o =
    is_str (get "kind" o) "episode" && v == "episodic" || is_str (get "memory_class" o) v

-- out[:limit]; a limit below 0 leaves out as many at the end.
abbrev pub slice : ℤ → List Fields → List Fields
slice (pos n) out = take n out
slice (negsuc n) out = take (length out - suc n) out

module _ (h : Host) where
  -- The sort key, str(o.get("created_at")), of the first is the greater.
  abbrev pub is_newer : Fields → Fields → Bool
  is_newer q r = text_lt (text_of h (get "created_at" r)) (text_of h (get "created_at" q))

  unfoldable pub recall :
      Principal → Option String → Option String → ℤ → Objects → Result (List Fields)
  unfolding known_class
  recall p memory_class session limit os = do
    _ ← require p "read"
    _ ← known_class memory_class
    objs ← readable h p os (filter is_recallable (objects p.tenant p.namespace none os))
    ok (
        slice limit (
          sort_by is_newer
            (filter (λ o. is_of_class memory_class o && matches session "session" o) objs)))
