-- ===== src/Engine/Search/Blind.antt =====
-- core/__init__.py and retrieval/__init__.py: a search over what a principal may not read.
use epistemos.Common.{
  ℕ, ◌≡◌, refl, sym, ap, ◌∙◌, inl, inr, String, Bool, true, false, Option, none, some, List, [],
  ◌∷◌, ◌&&◌, All, Among, Among-filter, All-map, filter, take, length, if◌then◌else◌, Bool-cases,
  eq_refl, contains, nat_eq,
}
use epistemos.Result.{Result, ok, err, ◌>>=◌}
use epistemos.Json.{Json, null, bool, num, negative, float, str, arr, obj, Fields, is_str}
use epistemos.Json.Dict.{get}
use epistemos.Host.{Host}
use epistemos.Identity.{Principal, require}
use epistemos.Storage.{Objects, objects, values, get_object, in_scope}
use epistemos.Engine.Base.{Engine}
use epistemos.Engine.Read.{get_object_at, can_read}
use epistemos.Retrieval.Text.{Tokenizer, query_terms}
use epistemos.Retrieval.Score.{Floats, Weights, source_in_scope, is_zero, tfidf}
use epistemos.Retrieval.Shown.{Retrieved}
use epistemos.Retrieval.Scan.{
  Query, is_candidate, candidates, documents, scored, scored_text, score_documents, legacy_search,
  sort_ranked,
}
use epistemos.Retrieval.Scan.Hits.{candidates-All, documents-All}
use epistemos.Engine.Search.{Search, SearchArgs, query_of, scan, retrieve, search}
use epistemos.Engine.Search.Alike.{
  IsSecret, Alike, both_end, both, changed, left, right, lookup-SameAt, can_read_same,
}

then_same : (r : Result (List Fields)) → (r >>= λ rest. ok rest) ≡ r
then_same (ok a) = refl
then_same (err x) = refl

bind_same :
    {A B : Type 0} (r : Result A) (f g : A → Result B)
    → ((a : A) → r ≡ ok a → f a ≡ g a)
    → (r >>= f) ≡ (r >>= g)
bind_same (ok a) f g same = same a refl
bind_same (err x) f g same = refl

module _ (may : Fields → Result Bool) (Named : String → Type 0) (h : Host) (now : ℕ) (q : Query)
    (tenant namespace : String) where
  abbrev keep : Fields → Bool
  keep o = in_scope tenant namespace o && true

  -- A secret is no candidate.
  skip_secret :
      (i : String) (o : Fields) (os : List Fields)
      → IsSecret may Named i o
      → candidates h now q may true (filter keep (o ∷ os))
        ≡ candidates h now q may true (filter keep os)
  unfolding candidates is_candidate
  skip_secret i o os s = elim (Bool-cases (keep o)) [
    | inl on ↦ rw on (
        rw (is_candidate, s.knowledge, s.hidden)
          (then_same (candidates h now q may true (filter keep os))))
    | inr off ↦ rw off refl
  ]

  keep_both :
      (o : Fields) (os os' : List Fields)
      → candidates h now q may true (filter keep os) ≡ candidates h now q may true (filter keep os')
      → candidates h now q may true (filter keep (o ∷ os))
        ≡ candidates h now q may true (filter keep (o ∷ os'))
  unfolding candidates
  keep_both o os os' same = elim (Bool-cases (keep o)) [
    | inl on ↦ rw on (λ i. is_candidate h now q may true o >>= λ keep'.
        same i >>= λ rest. ok (if keep' then o ∷ rest else rest))
    | inr off ↦ rw off same
  ]

  candidates_same :
      {os os' : Objects}
      → Alike may Named os os'
      → candidates h now q may true (filter keep (values os))
        ≡ candidates h now q may true (filter keep (values os'))
  candidates_same both_end = refl
  candidates_same (both {os} {os'} i o a) = keep_both o (values os) (values os') (candidates_same a)
  candidates_same (changed {os} {os'} i o o' s s' a) =
      skip_secret i o (values os) s ∙ candidates_same a ∙ sym (skip_secret i o' (values os') s')
  candidates_same (left {os} i o s u a) = skip_secret i o (values os) s ∙ candidates_same a
  candidates_same (right {os' = os'} i o s u a) =
      candidates_same a ∙ sym (skip_secret i o (values os') s)

module _ (x : Floats) (h : Host) (w : Weights) (tokens : Tokenizer) (now : ℕ) (q : Query)
    (os os' : Objects) where
  abbrev SameSource : Fields → Type 0
  SameSource o = source_in_scope os o ≡ source_in_scope os' o

  scored_same :
      (skip : Bool) (lexical : Option ℕ) (o : Fields)
      → SameSource o
      → scored x h w tokens now os q skip lexical o ≡ scored x h w tokens now os' q skip lexical o
  unfolding scored
  scored_same skip lexical o same = rw same refl

  scored_text_same :
      (terms : List String) (df : String → ℕ) (n : ℕ) (o : Fields) (words : List String)
      → SameSource o
      → scored_text x h w tokens now os q terms df n (o, words)
        ≡ scored_text x h w tokens now os' q terms df n (o, words)
  unfolding scored_text
  scored_text_same [] df n o words same = scored_same false none o same
  scored_text_same (t ∷ ts) df n o words same =
      scored_same (is_zero (tfidf x (t ∷ ts) words df n)) (some (tfidf x (t ∷ ts) words df n)) o
        same

  score_documents_same :
      (terms : List String) (df : String → ℕ) (n : ℕ) (docs : List (Fields × List String))
      → All (λ d. SameSource d.0) docs
      → score_documents x h w tokens now os q terms df n docs
        ≡ score_documents x h w tokens now os' q terms df n docs
  unfolding score_documents
  score_documents_same terms df n [] all = refl
  score_documents_same terms df n ((o, words) ∷ docs) all = rw (
    score_documents,
    scored_text_same terms df n o words all.0,
    score_documents_same terms df n docs all.1,
  )

module _ (e : Engine) (g : Search) (utc : ℕ) (p : Principal) (os os' : Objects) where
  -- The id is the source of an object that the principal may read.
  pub record IsSourceOfReadable (i : String) : Type 0 where
    pub object : Fields
    pub stored : Among object (values os)
    pub may : can_read e.host p os object ≡ ok true
    pub source : is_str (get "source" object) i ≡ true

  -- The two stores differ only in objects that are no spaces and no grants, that the principal may
  -- not read and that are the sources of nothing that it may read.
  abbrev pub SameToReader : Type 0
  SameToReader = Alike (can_read e.host p os) IsSourceOfReadable os os'

  module _ (alike : SameToReader) where
    found_same :
        (o : Fields) (j : Json)
        → Among o (values os)
        → can_read e.host p os o ≡ ok true
        → get "source" o ≡ j
        → get_object_at j os ≡ get_object_at j os'
    unfolding get_object
    found_same o null m c at = refl
    found_same o (bool b) m c at = refl
    found_same o (num n) m c at = refl
    found_same o (negative n) m c at = refl
    found_same o (float b) m c at = refl
    found_same o (arr xs) m c at = refl
    found_same o (obj d) m c at = refl
    found_same o (str k) m c at =
        let named : IsSourceOfReadable k = record {
          object = o;
          stored = m;
          may = c;
          source = rw at (eq_refl k);
        } in
        elim (lookup-SameAt (can_read e.host p os) IsSourceOfReadable alike k) [
          | inl same ↦ same
          | inr (inl gone, inl gone') ↦ gone ∙ sym gone'
          | inr (inr (a, _, s), v') ↦ absurd (s.unnamed named)
          | inr (v, inr (a, _, s)) ↦ absurd (s.unnamed named)
        ]

    source_same :
        (o : Fields)
        → Among o (values os)
        → can_read e.host p os o ≡ ok true
        → source_in_scope os o ≡ source_in_scope os' o
    unfolding source_in_scope
    source_same o m c = rw (source_in_scope, found_same o (get "source" o) m c refl) refl

    -- What a scan does after the candidates.
    abbrev after : Query → Objects → List Fields → Result (List Retrieved)
    after q store found = documents e.host g.tokenizer found >>= λ docs.
        score_documents g.floats e.host g.weights g.tokenizer utc store q
          (query_terms g.tokenizer q.text) (λ term. length (filter (λ d. contains term d.1) docs))
          (if nat_eq (length docs) 0 then 1 else length docs) docs
        >>= λ results. ok (take q.limit (sort_ranked results))

    abbrev in_store : Query → Objects → Result (List Fields)
    in_store q store =
        candidates e.host utc q (can_read e.host p os) true
          (filter (λ o. in_scope p.tenant p.namespace o && true) (values store))

    candidate-SameSource :
        (q : Query) (found : List Fields)
        → in_store q os ≡ ok found
        → All (λ o. source_in_scope os o ≡ source_in_scope os' o) found
    candidate-SameSource q found ran =
        All-map _ _ (λ o (m, c). source_same o ((Among-filter _ o (values os)).0 m).0 c.may) found
          (candidates-All g.floats e.host g.weights g.tokenizer utc os q (can_read e.host p os) true
            (filter (λ o. in_scope p.tenant p.namespace o && true) (values os)) found ran)

    after_same : (q : Query) → (in_store q os >>= after q os) ≡ (in_store q os >>= after q os')
    after_same q = bind_same (in_store q os) (after q os) (after q os') (λ found ran.
        bind_same (documents e.host g.tokenizer found) _ _ (λ docs read.
          ap (λ r. r >>= λ results. ok (take q.limit (sort_ranked results)))
            (score_documents_same g.floats e.host g.weights g.tokenizer utc q os os' _ _ _ docs (
              documents-All g.floats e.host g.weights g.tokenizer utc os q _ found docs
                (candidate-SameSource q found ran) read))))

    legacy_same :
        (q : Query)
        → legacy_search g.floats e.host g.weights g.tokenizer utc os q p.tenant p.namespace
            (can_read e.host p os)
          ≡ legacy_search g.floats e.host g.weights g.tokenizer utc os' q p.tenant p.namespace
              (can_read e.host p os)
    unfolding legacy_search objects
    legacy_same q =
        after_same q
        ∙ ap (λ c. c >>= after q os')
            (candidates_same (can_read e.host p os) IsSourceOfReadable e.host utc q p.tenant
              p.namespace alike)

    scan_same : (q : Query) → scan e g utc p os q ≡ scan e g utc p os' q
    unfolding scan
    scan_same q =
        legacy_same q
        ∙ ap
            (λ may.
              legacy_search g.floats e.host g.weights g.tokenizer utc os' q p.tenant p.namespace
                may)
            (can_read_same (can_read e.host p os) IsSourceOfReadable e.host p alike)

    retrieve_same :
        (q : Query) → g.index ≡ none → retrieve e g utc p os q ≡ retrieve e g utc p os' q
    unfolding retrieve
    retrieve_same q bare = rw (retrieve, bare) (rw (scan_same q) refl)

  -- On an engine without an index, what a search returns does not depend on the objects that the
  -- principal may not read, neither on what they hold nor on whether they are there: on two stores
  -- that differ only in such objects, that are no spaces and no grants and the sources of nothing
  -- that the principal may read, the same search raises the same error, or returns the same results
  -- with the same scores in the same order.
  pub search_blind :
      (a : SearchArgs)
      → g.index ≡ none
      → SameToReader
      → search e g utc p a os ≡ search e g utc p a os'
  unfolding search
  search_blind a bare alike =
      bind_same (require p "read") _ _
        (λ _ _. bind_same (query_of e a) _ _ (λ q _. rw (retrieve_same alike q bare) refl))
