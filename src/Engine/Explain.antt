-- ===== src/Engine/Explain.antt =====
-- core/__init__.py: the explanation of an object or of a decision. The provenance index, which the
-- in-memory engine has not, is an argument, and comes back as it is afterwards.
pub mod Authorized
use epistemos.Common.{
  ℕ, suc, zero, ◌-◌, String, Bool, true, false, not, Option, none, some, if◌then◌else◌,
}
use epistemos.Result.{Result, ok, err, not_found, ◌>>=◌}
use epistemos.Json.{str, Fields, is_str}
use epistemos.Json.Dict.{get}
use epistemos.Host.{Host, ℤ, pos, negsuc}
use epistemos.Identity.{Principal, require}
use epistemos.Storage.{Store, get_object, in_scope}
use epistemos.Engine.Read.{can_read}
use epistemos.Provenance.Index.{Table, Index}
use epistemos.Provenance.Views.{Node}
use epistemos.Provenance.Explain.{Answer}
use epistemos.Provenance.Explain

-- How many levels of nodes a depth allows.
abbrev pub budget_of : ℤ → ℕ
budget_of (pos depth) = suc depth
budget_of (negsuc n) = 0

module _ (h : Host) (t : Table) (p : Principal) (s : Store) where
  pub data Explanation : Type 0 where
    of_object : Node → Explanation
    of_decision : Answer t s p.tenant p.namespace → Explanation

  abbrev pub firewall : Option (Fields → Result Bool)
  firewall = some (can_read h p s.objects_by_id)

  unfoldable pub explain : String → ℤ → Option (Index t) → Result (Explanation × Option (Index t))
  explain obj_id depth index = do
    _ ← require p "read"
    elim (get_object obj_id s.objects_by_id) [
      | none ↦ err not_found
      | some o ↦ if not (in_scope p.tenant p.namespace o) then err not_found else (do
        may ← can_read h p s.objects_by_id o
        if not may
            then err not_found
            else if is_str (get "kind" o) "decision"
            then (do
              a ← Explain.explain_decision t s p.tenant p.namespace firewall obj_id index
              ok (of_decision a.0, a.1))
            else (do
              n ←
                  Explain.explain t s p.tenant p.namespace firewall (budget_of depth) (str obj_id)
                    (record { seen = epistemos.Common.[]; index = index })
              ok (of_object n.0, n.1.index)))
    ]
