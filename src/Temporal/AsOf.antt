-- ===== src/Temporal/AsOf.antt =====
-- temporal/__init__.py: which facts as_of keeps.
use epistemos.Common.{
  ℕ, ◌≤◌, ◌<◌, ◌≡◌, ◌↔◌, ◌⊎◌, inl, inr, refl, sym, ap, ◌∙◌, ◌&&◌, not, arith, Option, none, some,
  Bool, true, false, List, [], ◌∷◌, Among, here, there, if◌then◌else◌,
}
use epistemos.Result.{Result, ok, ◌>>=◌, bind-ok, ok_injective}
use epistemos.Json.{Json, null, Fields, is_null}
use epistemos.Json.Dict.{get}
use epistemos.Host.{Host, parse_instant}
use epistemos.Temporal.{
  at_or_after, before, or_now, instant_in_interval, believed, believed_at, valid_at, holds, as_of,
}

module _ (h : Host) where
  -- The interval from the one text to the other holds the instant: a bound that is missing is none,
  -- the instant may be the lower one, and it is below the upper one.
  abbrev pub IsFrom : ℕ → Json → Type 0
  IsFrom t lo =
      (parse_instant h lo ≡ ok none) ⊎ ((n : ℕ) × (parse_instant h lo ≡ ok (some n)) × (n ≤ t))

  abbrev pub IsUntil : ℕ → Json → Type 0
  IsUntil t hi =
      (parse_instant h hi ≡ ok none) ⊎ ((n : ℕ) × (parse_instant h hi ≡ ok (some n)) × (t < n))

  abbrev pub IsWithin : ℕ → Json → Json → Type 0
  IsWithin t lo hi = IsFrom t lo × IsUntil t hi

  -- The instant that is asked for, or now.
  abbrev pub IsInstant : ℕ → Json → ℕ → Type 0
  IsInstant now v t =
      ((parse_instant h v ≡ ok none) × (t ≡ now)) ⊎ (parse_instant h v ≡ ok (some t))

  abbrev pub HoldsAt : ℕ → Json → Json → Json → Type 0
  HoldsAt now v lo hi = (t : ℕ) × IsInstant now v t × IsWithin t lo hi

  -- Without an instant, a belief is one that has no end.
  abbrev pub IsBelieved : ℕ → Json → Fields → Type 0
  IsBelieved now null f = is_null (get "tx_to" f) ≡ true
  IsBelieved now v f = HoldsAt now v (get "tx_from" f) (get "tx_to" f)

  abbrev pub IsValid : ℕ → Json → Fields → Type 0
  IsValid now null f = Unit
  IsValid now v f = HoldsAt now v (get "valid_from" f) (get "valid_to" f)

  lower_bound_iff :
      (t : ℕ) (lo : Json) (l : Option ℕ)
      → parse_instant h lo ≡ ok l
      → (at_or_after l t ≡ true) ↔ IsFrom t lo
  lower_bound_iff t lo none at = (λ e. inl at, λ w. refl)
  lower_bound_iff t lo (some n) at = (
    λ e. inr (n, at, ground (arith, e)),
    λ w. elim w [
      | inl no_bound ↦ cc (at, no_bound)
      | inr (m, at', le) ↦
          let same : some n ≡ some m = ok_injective (sym at ∙ at') in
          let n_is : n ≡ m = cc same in ground (arith, n_is, le)
    ],
  )

  upper_bound_iff :
      (t : ℕ) (hi : Json) (u : Option ℕ)
      → parse_instant h hi ≡ ok u
      → (before u t ≡ true) ↔ IsUntil t hi
  upper_bound_iff t hi none at = (λ e. inl at, λ w. refl)
  upper_bound_iff t hi (some n) at = (
    λ e. inr (n, at, ground (arith, e)),
    λ w. elim w [
      | inl no_bound ↦ cc (at, no_bound)
      | inr (m, at', lt) ↦
          let same : some n ≡ some m = ok_injective (sym at ∙ at') in
          let n_is : n ≡ m = cc same in ground (arith, n_is, lt)
    ],
  )

  from_parsed : (t : ℕ) (lo : Json) → IsFrom t lo → (l : Option ℕ) × (parse_instant h lo ≡ ok l)
  from_parsed t lo w = elim w [ inl at ↦ (none, at) | inr (n, at, _) ↦ (some n, at) ]

  until_parsed : (t : ℕ) (hi : Json) → IsUntil t hi → (u : Option ℕ) × (parse_instant h hi ≡ ok u)
  until_parsed t hi w = elim w [ inl at ↦ (none, at) | inr (n, at, _) ↦ (some n, at) ]

  interval_iff :
      (t : ℕ) (lo hi : Json) → (instant_in_interval h t lo hi ≡ ok true) ↔ IsWithin t lo hi
  unfolding instant_in_interval
  interval_iff t lo hi = (
    λ e.
        let (l, at_l, rest) = bind-ok (parse_instant h lo) _ e in
        let (u, at_u, last) = bind-ok (parse_instant h hi) _ rest in
        let both : at_or_after l t && before u t ≡ true = ok_injective last in
        (
          (lower_bound_iff t lo l at_l).0 (ground (arith, both)),
          (upper_bound_iff t hi u at_u).0 (ground (arith, both)),
        ),
    λ (from, until).
        let (l, at_l) = from_parsed t lo from in
        let (u, at_u) = until_parsed t hi until in
        rw (at_l, at_u, (lower_bound_iff t lo l at_l).1 from, (upper_bound_iff t hi u at_u).1 until)
          refl,
  )

  now_of : (now : ℕ) (v : Json) (t : ℕ) → (or_now h now v ≡ ok t) ↔ IsInstant now v t
  now_of now v t = (
    λ e.
        let (when, at, last) = bind-ok (parse_instant h v) _ e in named when at (ok_injective last),
    λ i. elim i [ inl (at, is) ↦ rw at (ap ok (sym is)) | inr at ↦ rw at refl ],
  )
    where
      named :
          (when : Option ℕ)
          → parse_instant h v ≡ ok when
          → (elim when [ none ↦ now | some n ↦ n ]) ≡ t
          → IsInstant now v t
      named none at is = inl (at, sym is)
      named (some n) at is = inr (at ∙ ap (λ (x : ℕ). ok (some x)) is)

  -- An interval tested at the instant that is asked for.
  at_iff :
      (now : ℕ) (v lo hi : Json)
      → ((or_now h now v >>= λ t. instant_in_interval h t lo hi) ≡ ok true) ↔ HoldsAt now v lo hi
  at_iff now v lo hi = (
    λ e.
        let (t, at, rest) = bind-ok (or_now h now v) _ e in
        (t, (now_of now v t).0 at, (interval_iff t lo hi).0 rest),
    λ (t, is, within). cc (
      ap (λ r. r >>= λ u. instant_in_interval h u lo hi) ((now_of now v t).1 is),
      (interval_iff t lo hi).1 within,
    ),
  )

  first_axis_iff :
      (now : ℕ) (v : Json) (f : Fields) → (believed h now f v ≡ ok true) ↔ IsBelieved now v f
  unfolding believed believed_at
  first_axis_iff now null f = (λ e. ok_injective e, λ w. ap ok w)
  first_axis_iff now (Json.bool b) f = at_iff now _ _ _
  first_axis_iff now (Json.num n) f = at_iff now _ _ _
  first_axis_iff now (Json.negative n) f = at_iff now _ _ _
  first_axis_iff now (Json.float n) f = at_iff now _ _ _
  first_axis_iff now (Json.str s) f = at_iff now _ _ _
  first_axis_iff now (Json.arr xs) f = at_iff now _ _ _
  first_axis_iff now (Json.obj d) f = at_iff now _ _ _

  second_axis_iff :
      (now : ℕ) (v : Json) (f : Fields)
      → ((if is_null v then ok true else valid_at h now f v) ≡ ok true) ↔ IsValid now v f
  unfolding valid_at
  second_axis_iff now null f = (λ e. tt, λ w. refl)
  second_axis_iff now (Json.bool b) f = at_iff now _ _ _
  second_axis_iff now (Json.num n) f = at_iff now _ _ _
  second_axis_iff now (Json.negative n) f = at_iff now _ _ _
  second_axis_iff now (Json.float n) f = at_iff now _ _ _
  second_axis_iff now (Json.str s) f = at_iff now _ _ _
  second_axis_iff now (Json.arr xs) f = at_iff now _ _ _
  second_axis_iff now (Json.obj d) f = at_iff now _ _ _

  -- Belief is asked for, or not.
  abbrev pub IsWanted : ℕ → Json → Bool → Fields → Type 0
  IsWanted now v true f = IsBelieved now v f
  IsWanted now v false f = Unit

  holds_iff :
      (now : ℕ) (at_tx at_valid : Json) (believed_only : Bool) (f : Fields)
      → (holds h now at_tx at_valid believed_only f ≡ ok true)
        ↔ (IsWanted now at_tx believed_only f × IsValid now at_valid f)
  unfolding holds
  holds_iff now at_tx at_valid false f =
      let valid = second_axis_iff now at_valid f in (λ e. (tt, valid.0 e), λ (_, v). valid.1 v)
  holds_iff now at_tx at_valid true f =
      let wanted = first_axis_iff now at_tx f in
      let valid = second_axis_iff now at_valid f in
      (
        λ e.
            let (b, at, rest) = bind-ok (believed h now f at_tx) _ e in
            let (on, last) = if_true b _ rest in (wanted.0 (at ∙ ap ok on), valid.0 last),
        λ (w, v). rw (wanted.1 w) (valid.1 v),
      )
    where
      if_true :
          (b : Bool) (r : Result Bool)
          → (if not b then ok false else r) ≡ ok true
          → (b ≡ true) × (r ≡ ok true)
      if_true true r e = (refl, e)
      if_true false r e = cc e

module _ (h : Host) (now : ℕ) (at_tx at_valid : Json) (believed_only : Bool) where
  abbrev Holds : Fields → Type 0
  Holds f = holds h now at_tx at_valid believed_only f ≡ ok true

  grow :
      (f g : Fields) (facts out : List Fields) (keep : Bool)
      → holds h now at_tx at_valid believed_only g ≡ ok keep
      → (Among f out ↔ (Among f facts × Holds f))
      → Among f (if keep then g ∷ out else out) ↔ (Among f (g ∷ facts) × Holds f)
  grow f g facts out true e same = (
    λ m. elim m [
      | here at ↦ (here at, rw at e)
      | there more ↦ let (among, on) = same.0 more in (there among, on)
    ],
    λ (m, on). elim m [ here at ↦ here at | there more ↦ there (same.1 (more, on)) ],
  )
  grow f g facts out false e same = (
    λ m. let (among, on) = same.0 m in (there among, on),
    λ (m, on). elim m [ here at ↦ cc (rw (sym at) at e, on) | there more ↦ same.1 (more, on) ],
  )

  as_of-holds :
      (facts out : List Fields) (f : Fields)
      → as_of h now at_tx at_valid believed_only facts ≡ ok out
      → Among f out ↔ (Among f facts × (holds h now at_tx at_valid believed_only f ≡ ok true))
  unfolding as_of
  as_of-holds [] out f e = rw (sym (ok_injective e)) (λ m. elim m [ ], λ (m, on). elim m [ ])
  as_of-holds (g ∷ facts) out f e =
      let (keep, tested, rest) = bind-ok (holds h now at_tx at_valid believed_only g) _ e in
      let (more, ran, last) = bind-ok (as_of h now at_tx at_valid believed_only facts) _ rest in
      rw (sym (ok_injective last)) (grow f g facts more keep tested (as_of-holds facts more f ran))

  -- When as_of returns, it keeps exactly the facts of the list that were believed, if belief is asked
  -- for, and valid: without an instant a belief is one that has no end, and every fact is valid; at an
  -- instant, it is from the start of the interval on, which may be missing, and before its end, which
  -- may be missing.
  pub as_of_iff :
      (facts out : List Fields) (f : Fields)
      → as_of h now at_tx at_valid believed_only facts ≡ ok out
      → Among f out
        ↔ (Among f facts × IsWanted h now at_tx believed_only f × IsValid h now at_valid f)
  as_of_iff facts out f e =
      let kept = as_of-holds facts out f e in
      let tests = holds_iff h now at_tx at_valid believed_only f in
      (
        λ m.
            let (among, on) = kept.0 m in
            let (wanted, valid) = tests.0 on in (among, wanted, valid),
        λ (among, wanted, valid). kept.1 (among, tests.1 (wanted, valid)),
      )
