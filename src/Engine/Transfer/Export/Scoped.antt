-- ===== src/Engine/Transfer/Export/Scoped.antt =====
-- core/__init__.py: what an export for one principal holds.
use epistemos.Common.{
  and-true, ℕ, ◌+◌, ◌≡◌, refl, sym, ap, ◌∙◌, String, Bool, true, false, inl, inr, Option, none,
  some, List, [], ◌∷◌, ◌&&◌, ◌==◌, All, Among, here, there, length, contains, eq_iff, Bool-cases,
  if◌then◌else◌,
}
use epistemos.Result.{Result, ok, bind-ok, ok_injective, ◌>>=◌}
use epistemos.Json.{Json, null, bool, num, negative, float, obj, str, arr, Fields, of_list}
use epistemos.Json.Dict.{item-ok, get, item, find}
use epistemos.Host.{Host}
use epistemos.Identity.{Principal}
use epistemos.Ledger.{Event, LedgerRecord, genesis_hash, seal, verify_chain}
use epistemos.Ledger.Chain.{Chain, seal-IsLinked, verify_chain_iff}
use epistemos.Storage.{Store, Objects, objects, read_events}
use epistemos.Engine.Read.{can_read}
use epistemos.Engine.Transfer.Records.{dicts_of, text}
use epistemos.Engine.Transfer.Export.{
  event_object_id, is_control_plane, names_one_of, event_in, readable_ids, selected, resealed,
  scoped_records, export_for, exported, require,
}

text-ok : (j : Json) (i : String) → text j ≡ ok i → j ≡ str i
unfolding text
text-ok (str s) i e = ap str (ok_injective e)
text-ok null i e = cc
text-ok (bool b) i e = cc
text-ok (num n) i e = cc
text-ok (negative n) i e = cc
text-ok (float n) i e = cc
text-ok (arr xs) i e = cc
text-ok (obj d) i e = cc

item-text :
    (k : String) (o : Fields) (i : String) → (item k o >>= text) ≡ ok i → find k o ≡ some (str i)
unfolding text
item-text k o i e =
    let (v, at, is_text) = bind-ok (item k o) text e in
    item-ok k o v at ∙ ap some (text-ok v i is_text)

allowed :
    (b : Bool) (r : Result Bool)
    → (if b then ok false else r) ≡ ok true
    → (b ≡ false) × (r ≡ ok true)
allowed true r e = cc
allowed false r e = (refl, e)

contains_later :
    (i j : String) (ids : List String)
    → j == i ≡ false
    → contains i (j ∷ ids) ≡ true
    → contains i ids ≡ true
contains_later i j ids other found = rw other at found

exported-events :
    (now : String) (rs : List LedgerRecord) (more : Fields)
    → get "events" (exported now rs more) ≡ arr (of_list (dicts_of rs))
unfolding exported find
exported-events now rs more = refl

abbrev pub events_in : List LedgerRecord → List Event
events_in [] = []
events_in (r ∷ rs) = event_in r ∷ events_in rs

module _ (h : Host) where
  -- Sealing again makes a chain, and changes no event.
  resealed-Chain :
      (rs : List LedgerRecord) (n : ℕ) (prev : String)
      → (last : String) × Chain h prev n (resealed h n prev rs) last
  unfolding resealed
  resealed-Chain [] n prev = (prev, refl)
  resealed-Chain (r ∷ rs) n prev =
      let sealed = seal h n (event_in r) prev in
      let (last, chain) = resealed-Chain rs (n + 1) sealed.entry_hash in
      (last, (seal-IsLinked h n (event_in r) prev, chain))

  resealed-events :
      (rs : List LedgerRecord) (n : ℕ) (prev : String)
      → events_in (resealed h n prev rs) ≡ events_in rs
  unfolding resealed seal
  resealed-events [] n prev = refl
  resealed-events (r ∷ rs) n prev = ap (λ es. event_in r ∷ es) (resealed-events rs (n + 1) _)

  module _ (p : Principal) (os : Objects) where
    -- The id is that of an object of the list that the principal may read and that is no space or
    -- grant.
    pub record IsReadableId (objs : List Fields) (i : String) : Type 0 where
      pub object : Fields
      pub among : Among object objs
      pub named : find "id" object ≡ some (str i)
      pub knowledge : is_control_plane object ≡ false
      pub may : can_read h p os object ≡ ok true

    later :
        (o : Fields) (objs : List Fields) (i : String)
        → IsReadableId objs i
        → IsReadableId (o ∷ objs) i
    later o objs i r = record {
      object = r.object;
      among = there r.among;
      named = r.named;
      knowledge = r.knowledge;
      may = r.may;
    }

    readable_ids-IsReadableId :
        (objs : List Fields) (ids : List String) (i : String)
        → readable_ids h p os objs ≡ ok ids
        → contains i ids ≡ true
        → IsReadableId objs i
    unfolding readable_ids
    readable_ids-IsReadableId [] ids i e found = cc (rw (sym (ok_injective e)) at found)
    readable_ids-IsReadableId (o ∷ objs) ids i e found =
        let (may, tested, rest) =
          bind-ok (if is_control_plane o then ok false else can_read h p os o) _ e in
        let (more, ran, last) = bind-ok (readable_ids h p os objs) _ rest in
        first may tested more last (readable_ids-IsReadableId objs more i ran)
      where
        first :
            (may : Bool)
            → (if is_control_plane o then ok false else can_read h p os o) ≡ ok may
            → (more : List String)
            → (if may then (item "id" o >>= text >>= λ j. ok (j ∷ more)) else ok more) ≡ ok ids
            → (contains i more ≡ true → IsReadableId objs i)
            → IsReadableId (o ∷ objs) i
        first false tested more last later_on =
            later o objs i (later_on (rw (ok_injective last) found))
        first true tested more last later_on =
            let (j, named, same) = bind-ok (item "id" o >>= text) (λ j. ok (j ∷ more)) last in
            elim (Bool-cases (j == i)) [
              | inl this ↦ record {
                object = o;
                among = here refl;
                named = rw (sym ((eq_iff j i).0 this)) (item-text "id" o j named);
                knowledge = (allowed (is_control_plane o) (can_read h p os o) tested).0;
                may = (allowed (is_control_plane o) (can_read h p os o) tested).1;
              }
              | inr other ↦
                  later o objs i (
                    later_on
                      (contains_later i j more other (rw (sym (ok_injective same)) at found)))
            ]

  module _ (p : Principal) (s : Store) where
    -- The event is of the principal's scope and names an object that the principal may read.
    pub record IsGranted (ev : Event) : Type 0 where
      pub tenant : ev.tenant ≡ p.tenant
      pub namespace : ev.namespace ≡ p.namespace
      pub object_id : String
      pub names : event_object_id ev.payload ≡ some object_id
      pub readable :
          IsReadableId p s.objects_by_id
            (objects p.tenant p.namespace none s.objects_by_id)
            object_id

    named :
        (ids : List String) (o : Option String)
        → names_one_of ids o ≡ true
        → (i : String) × (o ≡ some i) × (contains i ids ≡ true)
    named ids none e = cc
    named ids (some i) e = (i, refl, e)

    abbrev readable_list : Result (List String)
    readable_list =
        readable_ids h p s.objects_by_id (objects p.tenant p.namespace none s.objects_by_id)

    abbrev is_selected : List String → LedgerRecord → Bool
    is_selected ids r =
        r.tenant == p.tenant
        && r.namespace == p.namespace
        && names_one_of ids (event_object_id r.payload)

    granted :
        (ids : List String) (r : LedgerRecord)
        → readable_list ≡ ok ids
        → is_selected ids r ≡ true
        → IsGranted (event_in r)
    granted ids r e on =
        let (scope, names) = and-true (r.tenant == p.tenant && r.namespace == p.namespace) _ on in
        let (tenant, namespace) = and-true (r.tenant == p.tenant) _ scope in
        let (i, at, found) = named ids (event_object_id r.payload) names in
        record {
          tenant = (eq_iff r.tenant p.tenant).0 tenant;
          namespace = (eq_iff r.namespace p.namespace).0 namespace;
          object_id = i;
          names = at;
          readable = readable_ids-IsReadableId p s.objects_by_id _ ids i e found;
        }

    selected-IsGranted :
        (ids : List String)
        → readable_list ≡ ok ids
        → (rs : List LedgerRecord) → All IsGranted (events_in (selected h p ids rs))
    unfolding selected
    selected-IsGranted ids e [] = tt
    selected-IsGranted ids e (r ∷ rs) =
        let rest = selected-IsGranted ids e rs in
        elim (Bool-cases (is_selected ids r)) [
          | inl on ↦ rw on (granted ids r e on, rest)
          | inr off ↦ rw off rest
        ]

    scoped_records-IsGranted :
        (rs : List LedgerRecord)
        → scoped_records h p s ≡ ok rs
        → (verify_chain h rs none none ≡ ok (length rs)) × All IsGranted (events_in rs)
    unfolding scoped_records
    scoped_records-IsGranted rs e =
        let (ids, listed, same) = bind-ok readable_list _ e in
        let picked = selected h p ids (read_events 0 s) in
        let (head, chain) = resealed-Chain picked 1 genesis_hash in
        rw (sym (ok_injective same)) (
          (verify_chain_iff h (resealed h 1 genesis_hash picked) none none _).1
              (head, chain, refl, tt, tt),
          rw (resealed-events picked 1 genesis_hash)
              (selected-IsGranted ids listed (read_events 0 s)),
        )

    -- What an export for a principal returns, short of the whole store's, is a chain that passes the
    -- check, and each of its events is of the principal's tenant and namespace and names an object
    -- of that scope that the principal may read.
    pub export_for-IsGranted :
        (now : String) (d : Fields)
        → export_for h now p "principal" s ≡ ok d
        → (rs : List LedgerRecord) × (get "events" d ≡ arr (of_list (dicts_of rs)))
          × (verify_chain h rs none none ≡ ok (length rs))
          × All IsGranted (events_in rs)
    unfolding export_for
    export_for-IsGranted now d e =
        let (_, _, rest) = bind-ok (require p "export") _ e in
        let (rs, ran, last) = bind-ok (scoped_records h p s) _ rest in
        let (passes, granted) = scoped_records-IsGranted rs ran in
        (rs, rw (sym (ok_injective last)) (exported-events now rs _), passes, granted)
