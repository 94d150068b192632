-- ===== src/Engine/Query/Readable.antt =====
-- core/__init__.py: the facts that the temporal queries answer from.
use epistemos.Common.{
  ℕ, ◌≡◌, ◌↔◌, refl, sym, subst, inl, inr, ap, ◌∙◌, String, Bool, true, false, Option, none, some,
  List, [], ◌∷◌, Among, here, there, if◌then◌else◌, Among-filter,
}
use epistemos.Result.{Result-cases, ok, bind-ok, ok_injective}
use epistemos.Json.{Json, null, str, Fields, is_null, is_str}
use epistemos.Json.Dict.{get}
use epistemos.Host.{Host, parse_instant}
use epistemos.Identity.{Principal, require}
use epistemos.Storage.{Objects, facts}
use epistemos.Temporal.{resolve_current}
use epistemos.Temporal.Order.{IsUnit}
use epistemos.Temporal.Current.{IsCurrent, IsRankOf, resolve_current-IsCurrent}
use epistemos.Engine.Base.{Engine, Call, instant_arg}
use epistemos.Engine.Read.{can_read, readable}
use epistemos.Engine.Query.{
  Dated, readable_facts, trust_of, current_row, timeline_rows, date_rows, floor_of, on_predicate,
}
use epistemos.Engine.Query.Ordered.{IsOrdered, sort_dated-IsOrdered, Among-sort_dated}

module _ (h : Host) (p : Principal) (os : Objects) where
  one_more :
      (q o : Fields) (objs more : List Fields) (may : Bool)
      → can_read h p os q ≡ ok may
      → (Among o more ↔ (Among o objs × (can_read h p os o ≡ ok true)))
      → Among o (if may then q ∷ more else more)
        ↔ (Among o (q ∷ objs) × (can_read h p os o ≡ ok true))
  one_more q o objs more true tested same = (
    λ m. elim m [
      | here at ↦ (here at, ap (can_read h p os) at ∙ tested)
      | there m' ↦ let (among, may) = same.0 m' in (there among, may)
    ],
    λ (m, may). elim m [ here at ↦ here at | there m' ↦ there (same.1 (m', may)) ],
  )
  one_more q o objs more false tested same = (
    λ m. let (among, may) = same.0 m in (there among, may),
    λ (m, may). elim m [
      | here at ↦ cc (sym tested ∙ ap (can_read h p os) (sym at) ∙ may)
      | there m' ↦ same.1 (m', may)
    ],
  )

  -- The read firewall keeps exactly the objects of the list that the principal may read.
  pub readable_iff :
      (objs out : List Fields) (o : Fields)
      → readable h p os objs ≡ ok out
      → Among o out ↔ (Among o objs × (can_read h p os o ≡ ok true))
  unfolding readable
  readable_iff [] out o e = rw (sym (ok_injective e)) (λ m. elim m [ ], λ (m, _). elim m [ ])
  readable_iff (q ∷ objs) out o e =
      let (may, tested, rest) = bind-ok (can_read h p os q) _ e in
      let (more, ran, last) = bind-ok (readable h p os objs) _ rest in
      rw (sym (ok_injective last))
        (one_more q o objs more may tested (readable_iff objs more o ran))

  -- A fact of the principal's scope, on the subject, that the principal may read.
  pub record IsReadableFact (subject predicate : Option String) (f : Fields) : Type 0 where
    pub among : Among f (facts p.tenant p.namespace subject predicate none os)
    pub may : can_read h p os f ≡ ok true

  readable_facts_iff :
      (subject predicate : Option String) (rows : List Fields) (f : Fields)
      → readable_facts h p subject predicate none os ≡ ok rows
      → Among f rows ↔ IsReadableFact subject predicate f
  readable_facts_iff subject predicate rows f e =
      let same = readable_iff (facts p.tenant p.namespace subject predicate none os) rows f e in
      (
        λ m. let (among, may) = same.0 m in record { among = among; may = may },
        λ r. same.1 (r.among, r.may),
      )

abbrev dates : Option ℕ → Option ℕ → ℕ × ℕ
dates tx valid = (floor_of tx, floor_of valid)

-- The instants are those of the fact, with the earliest in the place of one that it has not.
pub record IsDated (h : Host) (d : Dated) : Type 0 where
  pub tx : Option ℕ
  pub valid : Option ℕ
  pub tx_parsed : parse_instant h (get "tx_from" d.1) ≡ ok tx
  pub valid_parsed : parse_instant h (get "valid_from" d.1) ≡ ok valid
  pub tx_is : d.0.0 ≡ elim tx [ none ↦ 0 | some t ↦ t ]
  pub valid_is : d.0.1 ≡ elim valid [ none ↦ 0 | some t ↦ t ]

floor_of-lem : (t : Option ℕ) → floor_of t ≡ elim t [ none ↦ 0 | some n ↦ n ]
floor_of-lem none = refl
floor_of-lem (some n) = refl

-- Dating the rows keeps them, each under its own instants.
date_rows-Among :
    (h : Host) (rows : List Fields) (dated : List Dated)
    → date_rows h rows ≡ ok dated
    → ((d : Dated) → Among d dated → Among d.1 rows × IsDated h d)
      × ((f : Fields) → Among f rows → (k : ℕ × ℕ) × Among (k, f) dated)
unfolding date_rows
date_rows-Among h [] dated e = rw (sym (ok_injective e)) (λ d m. elim m [ ], λ f m. elim m [ ])
date_rows-Among h (r ∷ rows) dated e =
    let (tx, tx_at, rest) = bind-ok (parse_instant h (get "tx_from" r)) _ e in
    let (valid, valid_at, rest') = bind-ok (parse_instant h (get "valid_from" r)) _ rest in
    let (more, ran, last) = bind-ok (date_rows h rows) _ rest' in
    let (into, back) = date_rows-Among h rows more ran in
    rw (sym (ok_injective last)) (
      λ d m. elim m [
        | here at ↦ (
          here (λ i. (at i).1),
          subst (IsDated h) (sym at) (record {
            tx = tx;
            valid = valid;
            tx_parsed = tx_at;
            valid_parsed = valid_at;
            tx_is = floor_of-lem tx;
            valid_is = floor_of-lem valid;
          }),
        )
        | there m' ↦ let (among, is) = into d m' in (there among, is)
      ],
      λ f m. elim m [
        | here at ↦ (dates tx valid, here {ys = more} (λ i. (dates tx valid, at i)))
        | there m' ↦ let (k, place) = back f m' in (k, there place)
      ],
    )

-- An instant that is taken is taken as it is.
instant_arg-lem : (e : Engine) (v anchor : Json) → instant_arg e v ≡ ok anchor → v ≡ anchor
unfolding instant_arg
instant_arg-lem e v anchor ran = elim (Result-cases (parse_instant e.host v)) [
  | inl (x, at) ↦ cc (rw (instant_arg, at) at ran)
  | inr (t, at) ↦ ok_injective (rw (instant_arg, at) at ran)
]

module _ (e : Engine) (c : Call) (utc : ℕ) (p : Principal) (os : Objects) where
  -- The current fact is one of the principal's scope on the subject and the predicate that the
  -- principal may read, and at the instant that is asked for, or else at the time of the call, no other
  -- such fact that is believed and valid ranks above it, by trust, confidence, the text of tx_from and
  -- the id, where trust and confidence are within 0 and 1.
  pub current_row-IsReadableFact :
      (subject predicate : String) (at_valid : Json) (best : Fields)
      → ((f : Fields) (k : epistemos.Temporal.Rank)
          → Among f (facts p.tenant p.namespace (some subject) (some predicate) none os)
          → IsRankOf e.host (trust_of e.host os) f k
          → IsUnit k)
      → current_row e c utc p subject predicate at_valid os ≡ ok (some best)
      → IsReadableFact e.host p os (some subject) (some predicate) best
        × ((rows : List Fields) × ((f : Fields)
              → Among f rows ↔ IsReadableFact e.host p os (some subject) (some predicate) f)
            × IsCurrent e.host
                (trust_of e.host os)
                utc
                (if is_null at_valid then str c.now else at_valid)
                null
                rows
                best)
  unfolding current_row
  current_row-IsReadableFact subject predicate at_valid best units ran =
      let (_, _, rest) = bind-ok (require p "read") _ ran in
      let asked : Json = if is_null at_valid then str c.now else at_valid in
      let (anchor, at, rest') = bind-ok (instant_arg e asked) _ rest in
      let (rows, listed, last) =
        bind-ok (readable_facts e.host p (some subject) (some predicate) none os) _ rest' in
      let same_rows = λ (f : Fields).
        readable_facts_iff e.host p os (some subject) (some predicate) rows f listed in
      let found =
        resolve_current-IsCurrent e.host (trust_of e.host os) utc anchor null rows best
          (λ f k m. units f k ((same_rows f).0 m).among) last in
      (
        (same_rows best).0 found.candidate.among,
        (
          rows,
          same_rows,
          subst (λ a. IsCurrent e.host (trust_of e.host os) utc a null rows best)
              (sym (instant_arg-lem e asked anchor at)) found,
        ),
      )

  -- The fact is on the predicate, if one is given.
  abbrev pub OnPredicate : Option String → Fields → Type 0
  OnPredicate none f = Unit
  OnPredicate (some v) f = is_str (get "predicate" f) v ≡ true

  on_predicate_iff :
      (predicate : Option String) (f : Fields) (rows : List Fields)
      → Among f (on_predicate predicate rows) ↔ (Among f rows × OnPredicate predicate f)
  on_predicate_iff none f rows = (λ m. (m, tt), λ (m, _). m)
  on_predicate_iff (some v) f rows = Among-filter (λ r. is_str (get "predicate" r) v) f rows

  -- Each row of a timeline carries the instants that tx_from and valid_from of its fact name, the
  -- earliest for one that is missing, and the rows are in the order of these instants, the transaction
  -- before the valid one; each is a fact on the subject, and on the predicate if one is given, that the
  -- principal may read, and every such fact has a row.
  pub timeline_rows-IsOrdered :
      (subject : String) (predicate : Option String) (rows : List Dated)
      → timeline_rows e c utc p subject predicate os ≡ ok rows
      → IsOrdered rows
        × ((d : Dated)
            → Among d rows
            → IsDated e.host d
              × IsReadableFact e.host p os (some subject) none d.1
              × OnPredicate predicate d.1)
        × ((f : Fields)
            → IsReadableFact e.host p os (some subject) none f
            → OnPredicate predicate f
            → (k : ℕ × ℕ) × Among (k, f) rows)
  unfolding timeline_rows
  timeline_rows-IsOrdered subject predicate rows ran =
      let (readable_rows, listed, rest) =
        bind-ok (readable_facts e.host p (some subject) none none os) _ ran in
      let (dated, ran', last) =
        bind-ok (date_rows e.host (on_predicate predicate readable_rows)) _ rest in
      let (into, back) = date_rows-Among e.host (on_predicate predicate readable_rows) dated ran' in
      let listed_iff =
        λ (f : Fields). readable_facts_iff e.host p os (some subject) none readable_rows f listed in
      rw (sym (ok_injective last)) (
        sort_dated-IsOrdered dated,
        λ d m.
            let (dated_row, is) = into d ((Among-sort_dated d dated).0 m) in
            let (among, on) = (on_predicate_iff predicate d.1 readable_rows).0 dated_row in
            (is, (listed_iff d.1).0 among, on),
        λ f r on.
            let (k, place) =
              back f ((on_predicate_iff predicate f readable_rows).1 ((listed_iff f).1 r, on)) in
            (k, (Among-sort_dated (k, f) dated).1 place),
      )
