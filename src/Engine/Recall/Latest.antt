-- ===== src/Engine/Recall/Latest.antt =====
-- core/__init__.py: which objects recall returns, and in which order.
use epistemos.Common.{
  ℕ, ◌≤◌, ◌<◌, ◌≡◌, ◌↔◌, ◌⊎◌, refl, subst, String, Bool, true, false, ◌&&◌, Option, List, All,
  Among, arith, filter, length, take, Among-filter, Among-All, take-short, Among-of-take,
  length-take-le, IsSortedBy, sort_by, Among-sort, sort_by-IsSortedBy, Among-take, IsSortedBy-take,
  codes, codes_lt, text_lt, subst,
}
use epistemos.Result.{ok, bind-ok, ok_injective}
use epistemos.Json.{Fields}
use epistemos.Json.Dict.{get}
use epistemos.Host.{Host, ℤ, pos, negsuc}
use epistemos.Identity.{Principal, require}
use epistemos.Retrieval.Text.{text_of}
use epistemos.Storage.{Objects, objects, matches}
use epistemos.Temporal.Order.{codes_asym, codes_between}
use epistemos.Engine.Read.{can_read, readable}
use epistemos.Engine.Query.Readable.{readable_iff}
use epistemos.Engine.Recall.{is_recallable, is_of_class, is_newer, slice, recall, known_class}

and_iff : (a b : Bool) → (a && b ≡ true) ↔ ((a ≡ true) × (b ≡ true))
and_iff a b = (λ e. (ground (arith, e), ground (arith, e)), λ (x, y). ground (arith, x, y))

codes_not_before :
    (xs ys zs : List ℕ) → codes_lt xs ys ≡ false → codes_lt ys zs ≡ false → codes_lt xs zs ≡ false
codes_not_before xs ys zs xy yz = ground (arith, codes_between xs ys zs)

-- The text of its `created_at` is the greater.
abbrev pub is_greater : Host → Fields → Fields → Bool
is_greater h q r = text_lt (text_of h (get "created_at" r)) (text_of h (get "created_at" q))

sort-IsSorted :
    (h : Host) (rows : List Fields) → IsSortedBy (is_greater h) (sort_by (is_newer h) rows)
sort-IsSorted h =
    sort_by-IsSortedBy (is_newer h) (λ q r. codes_asym (created r) (created q))
      (λ x q r xq qr. codes_not_before (created r) (created q) (created x) qr xq)
  where
    created : Fields → List ℕ
    created o = codes (text_of h (get "created_at" o))

-- A slice is a prefix.
slice_prefix : (limit : ℤ) (out : List Fields) → (n : ℕ) × (slice limit out ≡ take n out)
slice_prefix (pos n) out = (n, refl)
slice_prefix (negsuc k) out = (_, refl)

module _ (h : Host) (p : Principal) (memory_class session : Option String) (limit : ℤ)
    (os : Objects) where
  -- An object of the principal's scope, no space or grant, that the principal may read, of the class
  -- and the session asked for.
  pub record IsRecalled (o : Fields) : Type 0 where
    pub among : Among o (objects p.tenant p.namespace Option.none os)
    pub recallable : is_recallable o ≡ true
    pub may : can_read h p os o ≡ ok true
    pub of_class : is_of_class memory_class o ≡ true
    pub of_session : matches session "session" o ≡ true

  pub record IsLatest (out : List Fields) : Type 0 where
    -- None has a greater text than one that stands ahead of it.
    pub sorted : IsSortedBy (is_greater h) out
    pub recalled : All IsRecalled out
    -- What is left out has a greater text than nothing that is there.
    pub latest : (o : Fields) → IsRecalled o → Among o out ⊎ All (λ q. is_greater h o q ≡ false) out
    pub few : (n : ℕ) → limit ≡ pos n → length out ≤ n
    -- Where there are fewer than the limit, nothing is left out.
    pub whole : (n : ℕ) → limit ≡ pos n → length out < n → (o : Fields) → IsRecalled o → Among o out

  kept_iff :
      (objs : List Fields) (o : Fields)
      → readable h p os (filter is_recallable (objects p.tenant p.namespace Option.none os))
        ≡ ok objs
      → Among o (filter (λ q. is_of_class memory_class q && matches session "session" q) objs)
        ↔ IsRecalled o
  kept_iff objs o ran =
      let kept =
        Among-filter (λ q. is_of_class memory_class q && matches session "session" q) o objs in
      let both = and_iff (is_of_class memory_class o) (matches session "session" o) in
      let read =
        readable_iff h p os (filter is_recallable (objects p.tenant p.namespace Option.none os))
          objs o ran in
      let knowledge = Among-filter is_recallable o (objects p.tenant p.namespace Option.none os) in
      (
        λ m.
            let (in_objs, tests) = kept.0 m in
            let (listed, may) = read.0 in_objs in
            let (among, recallable) = knowledge.0 listed in
            record {
              among = among;
              recallable = recallable;
              may = may;
              of_class = (both.0 tests).0;
              of_session = (both.0 tests).1;
            },
        λ r. kept.1 (
          read.1 (knowledge.1 (r.among, r.recallable), r.may),
          both.1 (r.of_class, r.of_session),
        ),
      )

  sorted_slice :
      (rows : List Fields)
      → ((o : Fields) → Among o rows ↔ IsRecalled o)
      → IsLatest (slice limit (sort_by (is_newer h) rows))
  sorted_slice rows same =
      let all = sort_by (is_newer h) rows in
      let (n, at) = slice_prefix limit all in
      let ordered = sort-IsSorted h rows in
      let in_all = λ (o : Fields). Among-sort (is_newer h) o rows in
      record {
        sorted = rw at (IsSortedBy-take (is_newer h) n all ordered);
        recalled = rw at (
            Among-All IsRecalled (take n all)
              (λ o m. (same o).0 ((in_all o).0 (Among-of-take n o all m))));
        latest =
            λ o r. rw at (Among-take (is_newer h) n o all ordered ((in_all o).1 ((same o).1 r)));
        few = λ k is. rw is (length-take-le k all);
        whole = λ k is short o r.
            let complete = take-short k all (rw is at short) in
            rw (is, complete) ((in_all o).1 ((same o).1 r));
      }

  -- What recall returns is in the order of the texts of created_at, the greatest first, at most as many
  -- as a limit from 0 up, all of them objects of the principal's scope that it may read, of the class
  -- and the session asked for, no space or grant; what it leaves out of those has a greater text than
  -- nothing that it returns, and nothing is left out where it returns fewer than the limit.
  pub recall-IsLatest :
      (out : List Fields) → recall h p memory_class session limit os ≡ ok out → IsLatest out
  unfolding recall
  recall-IsLatest out ran =
      let (_, _, rest) = bind-ok (require p "read") _ ran in
      let (_, _, rest') = bind-ok (known_class memory_class) _ rest in
      let (objs, read, last) =
        bind-ok
          (readable h p os (filter is_recallable (objects p.tenant p.namespace Option.none os))) _
          rest' in
      subst IsLatest (ok_injective last) (sorted_slice _ (λ o. kept_iff objs o read))
