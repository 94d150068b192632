-- ===== src/Context/Build/Hits.antt =====
-- context/builder.py: which hits of the search an envelope is made from.
use epistemos.Common.{
  ℕ, ◌≡◌, refl, sym, ap, ◌∙◌, subst, Option, none, some, List, [], ◌∷◌, Among, here, there, false,
  true,
}
use epistemos.Result.{ok, bind-ok, ok_injective}
use epistemos.Json.{obj, str, float, Fields, is_str}
use epistemos.Json.Dict.{get, get_or}
use epistemos.Host.{Host}
use epistemos.Identity.{Principal}
use epistemos.Storage.{Objects}
use epistemos.Engine.Read.{get_object_at, is_readable}
use epistemos.Temporal.{float_of}
use epistemos.Context.Build.{Scored, objects_of, authorized_hits, admit}

module _ (h : Host) (p : Principal) (os : Objects) where
  -- It is no space, grant, dimension or microconnection, which an envelope leaves out.
  pub record IsKnowledge (o : Fields) : Type 0 where
    pub no_space : is_str (get "kind" o) "space" ≡ false
    pub no_grant : is_str (get "kind" o) "grant" ≡ false
    pub no_dimension : is_str (get "kind" o) "dimension" ≡ false
    pub no_microconnection : is_str (get "kind" o) "microconnection" ≡ false

  -- The hit is of a stored object of knowledge that the principal may read.
  pub record IsHitOn (hit o : Fields) : Type 0 where
    pub found : get_object_at (get_or "id" (str "") hit) os ≡ some o
    pub knowledge : IsKnowledge o
    pub may : is_readable h p os (obj o) ≡ ok true

  admit-IsHitOn :
      (hit o : Fields) (first : Option (Fields × ℕ))
      → IsHitOn hit o
      → admit h p os hit ≡ ok first
      → (n : ℕ) × (first ≡ some (o, n))
  unfolding admit
  admit-IsHitOn hit o first on e =
      let k = on.knowledge in
      let rest =
        rw (admit, on.found, k.no_space, k.no_grant, k.no_dimension, k.no_microconnection, on.may)
          at e in
      let (n, _, last) =
        bind-ok (float_of h (get_or "score" (float 0) hit)) (λ score. ok (some (o, score))) rest in
      (n, sym (ok_injective last))

  pub authorized_hits-Among :
      (found : List Fields) (hits : Scored) (hit o : Fields)
      → authorized_hits h p os found ≡ ok hits
      → Among hit found
      → IsHitOn hit o
      → Among o (objects_of hits)
  unfolding authorized_hits
  authorized_hits-Among [] hits hit o e m on = elim m [ ]
  authorized_hits-Among (f ∷ found) hits hit o e m on =
      let (first, ran, rest) = bind-ok (admit h p os f) _ e in
      let (more, listed, last) = bind-ok (authorized_hits h p os found) _ rest in
      subst (λ x. Among o (objects_of x)) (ok_injective last)
        (elim m [
          | here at ↦
              let (n, is) = admit-IsHitOn hit o first on (ap (admit h p os) at ∙ ran) in
              rw is (here refl)
          | there m' ↦ behind first more (authorized_hits-Among found more hit o listed m' on)
        ])
    where
      behind :
          (first : Option (Fields × ℕ)) (more : Scored)
          → Among o (objects_of more)
          → Among o (objects_of (elim first [ none ↦ more | some x ↦ x ∷ more ]))
      behind none more m' = m'
      behind (some x) more m' = there m'
