-- ===== src/Tests/Looks.antt =====
-- core/__init__.py: get, and the evidence of a claim.
use epistemos.Common.{true, some, ◌≡◌, ◌↔◌, refl, none, List, [], ◌∷◌, All}
use epistemos.Result.{Result, ok, err}
use epistemos.Json.{null, str, arr, obj, nil, cons, Fields, end, field}
use epistemos.Identity.{require}
use epistemos.Storage.{Objects}
use epistemos.Engine.Look.{get, claim_evidence}
use epistemos.Engine.Look.Hidden.{IsHidden, get-IsHidden}
use epistemos.Engine.Look.Evident.{IsReadableEntry, claim_evidence-All}
use epistemos.Protocol.{
  Handle, Registry, Redemption, redeemed, mint, peek, expand, principal_fingerprint,
}
use epistemos.Protocol.Redeem.{IsReadable, expand-All}
use epistemos.Tests.Setup.{host, alice, bob, first_call}

abbrev object_of : Fields → Fields
object_of more =
    field "tenant" (str "acme") (field "namespace" (str "hr") (field "owner" (str "alice") more))

abbrev object_e : Fields
object_e = object_of (field "id" (str "e") (field "kind" (str "evidence") end))

abbrev stored : Objects
stored =
    (
      "c",
      object_of (
          field "id" (str "c") (
            field "kind" (str "claim") (
              field "metadata"
                (obj (
                  field "evidence_links"
                    (arr (
                      cons
                        (obj (field "evidence" (str "e") (field "relation" (str "supports") end)))
                        nil))
                    end))
                end))),
    )
    ∷ ("e", object_e)
    ∷ []

allowed : require bob "read" ≡ ok tt
unfolding require
allowed = refl

-- Bob may not read Alice's evidence.
get-IsHidden_example : (get host bob "e" stored ≡ ok none) ↔ IsHidden host bob stored "e"
get-IsHidden_example = get-IsHidden host bob stored "e" allowed

abbrev or_none : Result (List Fields) → List Fields
or_none (ok out) = out
or_none (err x) = []

abbrev evidence : List Fields
evidence = or_none (claim_evidence host alice "c" stored)

listed : claim_evidence host alice "c" stored ≡ ok evidence
unfolding claim_evidence require epistemos.Engine.Read.ref_readable
    epistemos.Engine.Read.ref_in_scope epistemos.Storage.get_object epistemos.Storage.lookup
    epistemos.Json.Dict.find epistemos.Engine.Read.can_read epistemos.Authz.can_read_object
    epistemos.Authz.placements epistemos.Json.as_dict epistemos.Engine.Look.evidence_entries
listed = refl

claim_evidence-All_example : All (IsReadableEntry host alice stored "c") evidence
claim_evidence-All_example = claim_evidence-All host alice stored "c" evidence listed

-- A handle of Alice's on her evidence.
abbrev handles : Registry
handles = (mint first_call alice ("e" ∷ []) null "duplicate" []).1

redeems : expand host alice stored "xph_1" handles ≡ ok (redeemed "duplicate" (object_e ∷ []) true)
unfolding expand peek mint epistemos.Protocol.register principal_fingerprint
    epistemos.Protocol.redeem epistemos.Protocol.readable_members epistemos.Storage.get_object
    epistemos.Storage.lookup epistemos.Engine.Read.is_readable epistemos.Json.Dict.find
    epistemos.Engine.Read.can_read epistemos.Authz.can_read_object epistemos.Authz.placements
redeems = refl

expand-All_example :
    (k : Handle) × (peek "xph_1" handles ≡ some k)
    × (k.fingerprint ≡ principal_fingerprint alice)
    × (k.tenant ≡ "acme")
    × All (IsReadable host alice stored) (object_e ∷ [])
expand-All_example =
    expand-All host alice stored "xph_1" handles "duplicate" (object_e ∷ []) true redeems
