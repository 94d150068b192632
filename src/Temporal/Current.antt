-- ===== src/Temporal/Current.antt =====
-- temporal/__init__.py: the fact that resolve_current picks.
use epistemos.Common.{
  ℕ, ◌≡◌, refl, sym, ap, ◌∙◌, true, false, inl, inr, some, List, [], ◌∷◌, subst, Among, here, there,
  arith, text_lt, Bool-cases,
}
use epistemos.Result.{Result, ok, bind-ok, ok_injective}
use epistemos.Json.{Json, float, Fields, is_null}
use epistemos.Json.Dict.{get, get_or}
use epistemos.Host.{Host, float_lt, one}
use epistemos.Temporal.{
  float_of, text_or_empty, Rank, rank_lt, greatest, rank_key, rank_keys, winner, resolve_current,
  as_of,
}
use epistemos.Temporal.Order.{IsUnit, rank_lt-IsStrict}
use epistemos.Temporal.AsOf.{as_of_iff, IsWanted, IsValid}

-- The first rank is not below the second: not by trust, where trust is alike not by confidence, where
-- that is alike not by the text of the transaction time, and where that is alike not by id.
abbrev pub NotBelow : Rank → Rank → Type 0
NotBelow a b =
    (float_lt a.trust b.trust ≡ false)
    × (float_lt b.trust a.trust ≡ false
        → (float_lt a.confidence b.confidence ≡ false)
          × (float_lt b.confidence a.confidence ≡ false
              → (text_lt a.tx_from b.tx_from ≡ false)
                × (text_lt b.tx_from a.tx_from ≡ false → text_lt a.id b.id ≡ false)))

rank_lt-NotBelow : (a b : Rank) → rank_lt a b ≡ false → NotBelow a b
unfolding rank_lt
rank_lt-NotBelow a b e = (
  ground (arith, e),
  λ t. (ground (arith, e, t), λ c. (ground (arith, e, t, c), λ x. ground (arith, e, t, c, x))),
)

-- The candidate is one of the list, and none of them ranks above it.
record IsTop (w : Rank × Fields) (cs : List (Rank × Fields)) : Type 0 where
  unit : IsUnit w.0
  among : Among w cs
  tops : (d : Rank × Fields) → Among d cs → rank_lt w.0 d.0 ≡ false

abbrev AllUnit : List (Rank × Fields) → Type 0
AllUnit cs = (d : Rank × Fields) → Among d cs → IsUnit d.0

above_skipped :
    (w k l : Rank)
    → IsUnit w
    → IsUnit k
    → IsUnit l
    → rank_lt k l ≡ true
    → rank_lt w l ≡ false
    → rank_lt w k ≡ false
above_skipped w k l uw uk ul kl wl =
    ground (arith, rank_lt-IsStrict.asym w k uw uk, rank_lt-IsStrict.between k w l uk uw ul)

above_passed :
    (w k l : Rank)
    → IsUnit w
    → IsUnit k
    → IsUnit l
    → rank_lt k l ≡ false
    → rank_lt w k ≡ false
    → rank_lt w l ≡ false
above_passed w k l uw uk ul kl wk = ground (arith, rank_lt-IsStrict.between w k l uw uk ul)

rank_lt_irrefl : (k : Rank) → IsUnit k → rank_lt k k ≡ false
rank_lt_irrefl k u = ground (arith, rank_lt-IsStrict.asym k k u u)

single-IsTop : (c : Rank × Fields) → IsUnit c.0 → IsTop c (c ∷ [])
single-IsTop c u = record {
  unit = u;
  among = here refl;
  tops = λ d m. elim m [
    | here e ↦ ap (λ (x : Rank × Fields). rank_lt c.0 x.0) e ∙ rank_lt_irrefl c.0 u
    | there m' ↦ elim m' [ ]
  ];
}

module _ (w c e : Rank × Fields) (more : List (Rank × Fields)) (uc : IsUnit c.0)
    (ue : IsUnit e.0) where
  moved-IsTop : rank_lt c.0 e.0 ≡ true → IsTop w (e ∷ more) → IsTop w (c ∷ e ∷ more)
  moved-IsTop up t = record {
    unit = t.unit;
    among = there t.among;
    tops = λ d m. elim m [
      | here at ↦
          ap (λ (x : Rank × Fields). rank_lt w.0 x.0) at
          ∙ above_skipped w.0 c.0 e.0 t.unit uc ue up (t.tops e (here refl))
      | there m' ↦ t.tops d m'
    ];
  }

  kept-IsTop : rank_lt c.0 e.0 ≡ false → IsTop w (c ∷ more) → IsTop w (c ∷ e ∷ more)
  kept-IsTop stays t = record {
    unit = t.unit;
    among = elim t.among [ here at ↦ here at | there m ↦ there (there m) ];
    tops = λ d m. elim m [
      | here at ↦ t.tops d (here at)
      | there m' ↦ elim m' [
        | here at ↦
            ap (λ (x : Rank × Fields). rank_lt w.0 x.0) at
            ∙ above_passed w.0 c.0 e.0 t.unit uc ue stays (t.tops c (here refl))
        | there m'' ↦ t.tops d (there m'')
      ]
    ];
  }

without :
    {c e : Rank × Fields} {more : List (Rank × Fields)}
    → AllUnit (c ∷ e ∷ more)
    → AllUnit (c ∷ more)
without units d m = units d (elim m [ here at ↦ here at | there m' ↦ there (there m') ])

greatest-IsTop :
    (c : Rank × Fields) (cs : List (Rank × Fields))
    → AllUnit (c ∷ cs)
    → IsTop (greatest c cs) (c ∷ cs)
unfolding greatest
greatest-IsTop c [] units = single-IsTop c (units c (here refl))
greatest-IsTop (k, f) ((l, g) ∷ more) units =
    let uk = units (k, f) (here refl) in
    let ul = units (l, g) (there (here refl)) in
    elim (Bool-cases (rank_lt k l)) [
      | inl up ↦ rw up (
          moved-IsTop _ (k, f) (l, g) more uk ul up
            (greatest-IsTop (l, g) more (λ d m. units d (there m))))
      | inr stays ↦
          rw stays (
            kept-IsTop _ (k, f) (l, g) more uk ul stays
              (greatest-IsTop (k, f) more (without units)))
    ]

winner-IsTop :
    (h : Host) (trust_of : Fields → Result ℕ) (ks : List (Rank × Fields)) (best : Fields)
    → AllUnit ks
    → winner h trust_of ks ≡ some best
    → (w : Rank × Fields) × IsTop w ks × (w.1 ≡ best) × (is_null (get "object" w.1) ≡ false)
unfolding winner
winner-IsTop h trust_of [] best units e = cc
winner-IsTop h trust_of (c ∷ cs) best units e =
    let w = greatest c cs in
    elim (Bool-cases (is_null (get "object" w.1))) [
      | inl ended ↦ cc (rw ended at e)
      | inr stands ↦
          let same : some w.1 ≡ some best = rw stands at e in
          (w, greatest-IsTop c cs units, cc same, stands)
    ]

module _ (h : Host) (trust_of : Fields → Result ℕ) where
  -- What stands in the ranked list, and where each candidate stands in it.
  ranked_of :
      (facts : List Fields) (ks : List (Rank × Fields)) (d : Rank × Fields)
      → rank_keys h trust_of facts ≡ ok ks
      → Among d ks
      → Among d.1 facts × (rank_key h trust_of d.1 ≡ ok d.0)
  unfolding rank_keys
  ranked_of [] ks d e m = elim (rw (sym (ok_injective e)) at m) [ ]
  ranked_of (f ∷ facts) ks d e m =
      let (k, at, rest) = bind-ok (rank_key h trust_of f) _ e in
      let (more, ran, last) = bind-ok (rank_keys h trust_of facts) _ rest in
      elim (rw (sym (ok_injective last)) at m) [
        | here eq ↦ (
          here (λ i. (eq i).1),
          ap (λ (x : Rank × Fields). rank_key h trust_of x.1) eq ∙ at ∙ λ i. ok (sym eq i).0,
        )
        | there m' ↦ let (among, ranked) = ranked_of facts more d ran m' in (there among, ranked)
      ]

  place_of :
      (facts : List Fields) (ks : List (Rank × Fields)) (f : Fields)
      → rank_keys h trust_of facts ≡ ok ks
      → Among f facts
      → (k : Rank) × Among (k, f) ks × (rank_key h trust_of f ≡ ok k)
  unfolding rank_keys
  place_of [] ks f e m = elim m [ ]
  place_of (g ∷ facts) ks f e m =
      let (k, at, rest) = bind-ok (rank_key h trust_of g) _ e in
      let (more, ran, last) = bind-ok (rank_keys h trust_of facts) _ rest in
      rw (sym (ok_injective last)) (elim m [
        | here eq ↦ (k, here (λ i. (k, eq i)), ap (rank_key h trust_of) eq ∙ at)
        | there m' ↦
            let (l, place, ranked) = place_of facts more f ran m' in (l, there place, ranked)
      ])

  -- The trust and the confidence of the fact, 1 where it has none, its transaction time and its id.
  pub record IsRankOf (f : Fields) (k : Rank) : Type 0 where
    pub trust : trust_of f ≡ ok k.trust
    pub confidence : float_of h (get_or "confidence" (float one) f) ≡ ok k.confidence
    pub tx_from : k.tx_from ≡ text_or_empty h (get "tx_from" f)
    pub id : k.id ≡ text_or_empty h (get "id" f)

  rank_key-IsRankOf : (f : Fields) (k : Rank) → rank_key h trust_of f ≡ ok k → IsRankOf f k
  unfolding rank_key
  rank_key-IsRankOf f k e =
      let (t, at_t, rest) = bind-ok (trust_of f) _ e in
      let (c, at_c, last) = bind-ok (float_of h (get_or "confidence" (float one) f)) _ rest in
      let same = ok_injective last in
      record {
        trust = at_t ∙ ap (λ (r : Rank). ok r.trust) same;
        confidence = at_c ∙ ap (λ (r : Rank). ok r.confidence) same;
        tx_from = ap (λ (r : Rank). r.tx_from) (sym same);
        id = ap (λ (r : Rank). r.id) (sym same);
      }

  IsRankOf-rank_key : (f : Fields) (k : Rank) → IsRankOf f k → rank_key h trust_of f ≡ ok k
  unfolding rank_key
  IsRankOf-rank_key f k r =
      rw (r.trust, r.confidence)
        (λ i. ok (record {
          trust = k.trust;
          confidence = k.confidence;
          tx_from = sym r.tx_from i;
          id = sym r.id i;
        }))

  module _ (now : ℕ) (at_valid at_tx : Json) (facts : List Fields) where
    -- It is believed as of `at_tx` and valid at `at_valid`.
    pub record IsCandidate (f : Fields) : Type 0 where
      pub among : Among f facts
      pub wanted : IsWanted h now at_tx true f
      pub valid : IsValid h now at_valid f

    -- The fact is a candidate with an object, and its rank is not below that of any candidate.
    pub record IsCurrent (best : Fields) : Type 0 where
      pub candidate : IsCandidate best
      pub stands : is_null (get "object" best) ≡ false
      pub rank : Rank
      pub ranked : IsRankOf best rank
      pub unbeaten : (f : Fields) (k : Rank) → IsCandidate f → IsRankOf f k → NotBelow rank k

    -- The fact that is picked was believed and valid as asked, has an object, and no other such fact
    -- of the list ranks above it by trust, then confidence, 1 where it is missing, then the text of
    -- tx_from, then the id, where trust and confidence are within 0 and 1.
    pub resolve_current-IsCurrent :
        (best : Fields)
        → ((f : Fields) (k : Rank) → Among f facts → IsRankOf f k → IsUnit k)
        → resolve_current h trust_of now at_valid at_tx facts ≡ ok (some best)
        → IsCurrent best
    unfolding resolve_current
    resolve_current-IsCurrent best units e =
        let (cands, kept, rest) = bind-ok (as_of h now at_tx at_valid true facts) _ e in
        let (ks, ranked, last) = bind-ok (rank_keys h trust_of cands) _ rest in
        let kept_iff = λ (f : Fields). as_of_iff h now at_tx at_valid true facts cands f kept in
        let all_unit : AllUnit ks = λ d m.
          let (among, at) = ranked_of cands ks d ranked m in
          let (listed, _, _) = (kept_iff d.1).0 among in
          units d.1 d.0 listed (rank_key-IsRankOf d.1 d.0 at) in
        let (w, top, same, stands) = winner-IsTop h trust_of ks best all_unit (ok_injective last) in
        let (among, at) = ranked_of cands ks w ranked top.among in
        let (listed, wanted, valid) = (kept_iff w.1).0 among in
        subst IsCurrent same (record {
          candidate = record { among = listed; wanted = wanted; valid = valid };
          stands = stands;
          rank = w.0;
          ranked = rank_key-IsRankOf w.1 w.0 at;
          unbeaten = λ f k c at_k.
              let (l, place, at_l) =
                place_of cands ks f ranked ((kept_iff f).1 (c.among, c.wanted, c.valid)) in
              rank_lt-NotBelow w.0 k (
                ap (rank_lt w.0) (ok_injective (sym (IsRankOf-rank_key f k at_k) ∙ at_l))
                ∙ top.tops (l, f) place);
        })
