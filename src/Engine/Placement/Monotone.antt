-- ===== src/Engine/Placement/Monotone.antt =====
-- core/__init__.py, `_place`: a promotion never lowers the visibility.
use epistemos.Common.{
  ◌≡◌, refl, ◌≤◌, ◌↔◌, inl, inr, false, arith, ltb, Option, List, [], ◌∷◌, All, Bool-cases,
}
use epistemos.Result.{ok, Result-cases}
use epistemos.Json.{Json}
use epistemos.Host.{Host}
use epistemos.Spaces.{Visibility, level}
use epistemos.Storage.{Objects}
use epistemos.Engine.Read.{space_of}
use epistemos.Engine.Placement.{check_monotone, level_of}

module _ (h : Host) (dest : Visibility) (os : Objects) where
  -- The placement resolves, to a space that is no wider than the destination, or to none, which
  -- counts as private.
  abbrev pub IsNoWider : Json → Type 0
  IsNoWider sid =
      (found : Option (Visibility × Json × Json)) × (space_of h os sid ≡ ok found)
      × (level (level_of found) ≤ level dest)

  passes : (sids : List Json) → check_monotone h dest sids os ≡ ok tt → All IsNoWider sids
  unfolding check_monotone
  passes [] e = tt
  passes (sid ∷ sids) e = elim (Result-cases (space_of h os sid)) [
    | inl (x, at) ↦ cc (rw (check_monotone, at) at e)
    | inr (found, at) ↦ elim (Bool-cases (ltb (level dest) (level (level_of found)))) [
      | inl lower ↦ cc (rw (check_monotone, at, lower) at e)
      | inr keep ↦ ((found, at, ground arith), passes sids (rw (check_monotone, at, keep) at e))
    ]
  ]

  allowed : (sids : List Json) → All IsNoWider sids → check_monotone h dest sids os ≡ ok tt
  unfolding check_monotone
  allowed [] all = refl
  allowed (sid ∷ sids) all =
      let (found, at, le) = all.0 in
      let keep : ltb (level dest) (level (level_of found)) ≡ false = ground arith in
      rw (check_monotone, at, keep) (allowed sids all.1)

  -- The check of a promotion passes exactly when every current placement resolves, to a space that is
  -- no wider than the destination, or to none, which counts as private.
  pub check_monotone_iff :
      (sids : List Json) → (check_monotone h dest sids os ≡ ok tt) ↔ All IsNoWider sids
  check_monotone_iff sids = (passes sids, allowed sids)
