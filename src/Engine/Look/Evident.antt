-- ===== src/Engine/Look/Evident.antt =====
-- core/__init__.py: the evidence that claim_evidence lists.
use epistemos.Common.{
  Option-cases, inl, inr, ◌≡◌, refl, sym, ap, subst, Among, here, there, ◌∙◌, String, Bool, true,
  false, Option, none, some, List, [], ◌∷◌, All, if◌then◌else◌,
}
use epistemos.Result.{Error, Result, ok, err, bind-ok, ok_injective}
use epistemos.Json.{Json, arr, nil, obj, Fields, field, as_dict, iterate}
use epistemos.Json.Dict.{get, get_or, item, item-ok, or_null}
use epistemos.Host.{Host}
use epistemos.Identity.{Principal, require}
use epistemos.Storage.{Objects, get_object, in_scope}
use epistemos.Engine.Read.{get_object_at, can_read, ref_readable, ref_in_scope}
use epistemos.Engine.Look.{one_link, entry_of, evidence_entries, claim_evidence}

dict_is : (j : Json) (d : Fields) → as_dict j ≡ ok d → j ≡ obj d
unfolding as_dict
dict_is (obj e) d at = ap obj (ok_injective at)
dict_is Json.null d at = cc at
dict_is (Json.bool b) d at = cc at
dict_is (Json.num n) d at = cc at
dict_is (Json.negative n) d at = cc at
dict_is (Json.float n) d at = cc at
dict_is (Json.str s) d at = cc at
dict_is (arr xs) d at = cc at

if_ok :
    {A : Type 0} (b : Bool) (x : Error) {a o : A}
    → (if b then ok a else err x) ≡ ok o
    → (b ≡ true) × (a ≡ o)
if_ok true x e = (refl, ok_injective e)
if_ok false x e = cc e

module _ (h : Host) (p : Principal) (os : Objects) where
  -- The claim of the id is of the principal's scope, the principal may read it, and its metadata list
  -- the link.
  pub record IsClaimLink (claim_id : String) (link : Fields) : Type 0 where
    pub claim : Fields
    pub found : get_object claim_id os ≡ some claim
    pub scoped : in_scope p.tenant p.namespace claim ≡ true
    pub may : can_read h p os claim ≡ ok true
    pub meta : Fields
    pub metadata : get_or "metadata" (obj Fields.end) claim ≡ obj meta
    pub links : List Json
    pub listed : iterate (get_or "evidence_links" (arr nil) meta) ≡ ok links
    pub among : Among (obj link) links

  -- The entry shows the link and the stored object that the link names, which the principal may read.
  pub record IsEntryOf (link entry : Fields) : Type 0 where
    pub evidence : Fields
    pub found : get_object_at (get "evidence" link) os ≡ some evidence
    pub may : can_read h p os evidence ≡ ok true
    pub entry_is :
        entry
        ≡ field "evidence" (get "id" evidence) (
            field "relation" (get "relation" link) (
              field "evidence_kind" (get "evidence_kind" evidence) (
                field "uri"
                  (get "uri" evidence)
                  (field "title" (get "title" evidence) Fields.end))))

  pub record IsReadableEntry (claim_id : String) (entry : Fields) : Type 0 where
    pub link : Fields
    pub linked : IsClaimLink claim_id link
    pub shows : IsEntryOf link entry

  entry_of-lem :
      (link ev entry : Fields)
      → entry_of h p link ev ≡ ok entry
      → entry
        ≡ field "evidence" (get "id" ev) (
            field "relation" (get "relation" link) (
              field "evidence_kind"
                (get "evidence_kind" ev)
                (field "uri" (get "uri" ev) (field "title" (get "title" ev) Fields.end))))
  unfolding entry_of
  entry_of-lem link ev entry e =
      let (id, at, last) = bind-ok (item "id" ev) _ e in
      sym (ok_injective last) ∙ (λ i.
        field "evidence" (ap or_null (sym (item-ok "id" ev id at)) i) (
          field "relation" (get "relation" link) (
            field "evidence_kind" (get "evidence_kind" ev)
              (field "uri" (get "uri" ev) (field "title" (get "title" ev) Fields.end)))))

  one_link-IsEntryOf :
      (link entry : Fields) → one_link h p os link ≡ ok (some entry) → IsEntryOf link entry
  unfolding one_link
  one_link-IsEntryOf link entry e = elim (Option-cases (get_object_at (get "evidence" link) os)) [
    | inl missing ↦ cc (rw (one_link, missing) at e)
    | inr (ev, at) ↦
        let (may, tested, rest) = bind-ok (can_read h p os ev) _ (rw (one_link, at) at e) in
        shown ev at may tested rest
  ]
    where
      shown :
          (ev : Fields)
          → get_object_at (get "evidence" link) os ≡ some ev
          → (may : Bool) → can_read h p os ev ≡ ok may
          → (if may
              then epistemos.Result.◌>>=◌ (entry_of h p link ev) (λ d. ok (some d))
              else ok none)
            ≡ ok (some entry)
          → IsEntryOf link entry
      shown ev at true tested rest =
          let (d, made, last) = bind-ok (entry_of h p link ev) (λ d. ok (some d)) rest in
          let same : d ≡ entry = cc last in
          record {
            evidence = ev;
            found = at;
            may = tested;
            entry_is = entry_of-lem link ev entry (made ∙ ap ok same);
          }
      shown ev at false tested rest = cc rest

  evidence_entries-All :
      (P : Fields → Type 0) (links : List Json) (out : List Fields)
      → ((link entry : Fields) → Among (obj link) links → IsEntryOf link entry → P entry)
      → evidence_entries h p os links ≡ ok out
      → All P out
  unfolding evidence_entries
  evidence_entries-All P [] out holds e = rw (sym (ok_injective e)) tt
  evidence_entries-All P (j ∷ links) out holds e =
      let (link, is, rest) = bind-ok (as_dict j) _ e in
      let (entry, made, rest') = bind-ok (one_link h p os link) _ rest in
      let (more, ran, last) = bind-ok (evidence_entries h p os links) _ rest' in
      rw (sym (ok_injective last)) (
        add link entry more (here (sym (dict_is j link is))) made
          (evidence_entries-All P links more (λ l x m. holds l x (there m)) ran))
    where
      add :
          (link : Fields) (entry : Option Fields) (more : List Fields)
          → Among (obj link) (j ∷ links)
          → one_link h p os link ≡ ok entry
          → All P more
          → All P (elim entry [ none ↦ more | some x ↦ x ∷ more ])
      add link none more m made all = all
      add link (some x) more m made all = (holds link x m (one_link-IsEntryOf link x made), all)

  ref_readable-lem :
      (id : String) (o : Fields)
      → ref_readable h p id os ≡ ok o
      → (get_object id os ≡ some o)
        × (in_scope p.tenant p.namespace o ≡ true)
        × (can_read h p os o ≡ ok true)
  unfolding ref_readable ref_in_scope
  ref_readable-lem id o e =
      let (s, scoped, rest) = bind-ok (ref_in_scope p id os) _ e in
      let (may, tested, last) = bind-ok (can_read h p os s) _ rest in
      let (yes', same) = if_ok may _ last in
      elim (Option-cases (get_object id os)) [
        | inl lost ↦ cc (rw (ref_in_scope, lost) at scoped)
        | inr (t, at) ↦
            let (inside, is) =
              if_ok (in_scope p.tenant p.namespace t) _ (rw (ref_in_scope, at) at scoped) in
            (
              at ∙ ap some (is ∙ same),
              subst (λ x. in_scope p.tenant p.namespace x ≡ true) (is ∙ same) inside,
              subst (λ x. can_read h p os x ≡ ok true) same (tested ∙ ap ok yes'),
            )
      ]

  -- Each entry that is listed for a claim, which is one of the principal's scope that it may read, shows
  -- a link in the metadata of the claim and the stored object that the link names, and the principal may
  -- read this object.
  pub claim_evidence-All :
      (claim_id : String) (out : List Fields)
      → claim_evidence h p claim_id os ≡ ok out
      → All (IsReadableEntry claim_id) out
  unfolding claim_evidence
  claim_evidence-All claim_id out e =
      let (_, _, rest) = bind-ok (require p "claim.read") _ e in
      let (claim, loaded, rest') = bind-ok (ref_readable h p claim_id os) _ rest in
      let (meta, is, rest2) =
        bind-ok (as_dict (get_or "metadata" (obj Fields.end) claim)) _ rest' in
      let (links, listed, last) =
        bind-ok (iterate (get_or "evidence_links" (arr nil) meta)) _ rest2 in
      let (found, scoped, may) = ref_readable-lem claim_id claim loaded in
      evidence_entries-All (IsReadableEntry claim_id) links out
        (λ link entry m shows. record {
          link = link;
          linked = record {
            claim = claim;
            found = found;
            scoped = scoped;
            may = may;
            meta = meta;
            metadata = dict_is _ meta is;
            links = links;
            listed = listed;
            among = m;
          };
          shows = shows;
        })
        last
