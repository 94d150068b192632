-- ===== src/Retrieval/Scan/Hits.antt =====
-- retrieval/__init__.py: what the results of a search are.
use epistemos.Common.{
  ℕ, ◌≤◌, ◌≡◌, refl, sym, ap, ◌∙◌, String, Bool, true, false, not, Option, none, some, List, [],
  ◌∷◌, ◌&&◌, ◌||◌, All, Among, here, there, Among-filter, All-map, All-take, length-take-le, length,
  take, arith, if◌then◌else◌, and-true,
}
use epistemos.Result.{Result, ok, err, bind-ok, ok_injective, ◌>>=◌}
use epistemos.Json.{Fields}
use epistemos.Json.Dict.{item}
use epistemos.Host.{Host}
use epistemos.Storage.{Objects, objects, values, in_scope}
use epistemos.Temporal.{believed}
use epistemos.Engine.Transfer.Records.{text}
use epistemos.Retrieval.Text.{Tokenizer, object_text}
use epistemos.Retrieval.Score.{
  Floats, Weights, Components, is_zero, is_fact, matches_structural, nonlexical_components,
  source_in_scope, trust_of, total, tfidf,
}
use epistemos.Retrieval.Shown.{Retrieved, build, source_of}
use epistemos.Retrieval.Scan.{
  Query, is_control, of_kinds, sort_ranked, passes, is_candidate, candidates, scored, documents,
  scored_text, score_documents, legacy_search,
}
use epistemos.Retrieval.Scan.Ranked.{IsRanked, sort_ranked-IsRanked, take-IsRanked, sort_ranked-All}

some_of :
    {A : Type 0} (b : Bool) (m : Result A) {a : A}
    → (if b then ok none else (m >>= λ r. ok (some r))) ≡ ok (some a)
    → m ≡ ok a
some_of true m e = cc
some_of false (ok r) e = ap ok (cc e)
some_of false (err x) e = cc

pub if_so :
    (b : Bool) (m : Result Bool)
    → (if b then m else ok false) ≡ ok true
    → (b ≡ true) × (m ≡ ok true)
if_so true m e = (refl, e)
if_so false m e = cc

pub unless :
    (b : Bool) (m : Result Bool)
    → (if b then ok false else m) ≡ ok true
    → (b ≡ false) × (m ≡ ok true)
unless true m e = cc
unless false m e = (refl, e)

module _ (x : Floats) (h : Host) (w : Weights) (tokens : Tokenizer) (now : ℕ) (os : Objects)
    (q : Query) where
  -- The result is of the object: its id is the object's.
  pub record IsOf (o : Fields) (r : Retrieved) : Type 0 where
    pub object : r.obj ≡ o
    pub id : (item "id" o >>= text) ≡ ok r.id

  build-IsOf :
      (src : Option Fields) (o : Fields) (n : ℕ) (c : Components) (r : Retrieved)
      → build x src o n c ≡ ok r
      → IsOf o r
  unfolding build
  build-IsOf src o n c r e =
      let (source, _, rest) = bind-ok (source_of x src) _ e in
      let (id, named, last) = bind-ok (item "id" o >>= text) _ rest in
      rw (sym (ok_injective last)) (record { object = refl; id = named })

  pub scored-IsOf :
      (skip : Bool) (lexical : Option ℕ) (o : Fields) (r : Retrieved)
      → scored x h w tokens now os q skip lexical o ≡ ok (some r)
      → IsOf o r
  unfolding scored
  scored-IsOf skip lexical o r e =
      let (trust, _, rest) = bind-ok (trust_of h (source_in_scope os o)) _ e in
      let (comp, _, last) =
        bind-ok (nonlexical_components x h q.wanted trust now q.at_tx q.at_valid o) _ rest in
      let found = record comp { lexical = lexical } in
      build-IsOf (source_in_scope os o) o (total x w found) found r (some_of _ _ last)

  -- The object passed the tests that follow the firewall; the flag tells whether those on the
  -- statement were among them.
  pub record IsAsked (structural : Bool) (o : Fields) : Type 0 where
    pub kinds : of_kinds q.kinds o ≡ true
    pub statement : structural ≡ true → matches_structural q.wanted o ≡ true
    pub belief : (q.believed_only && is_fact o) ≡ true → believed h now o q.at_tx ≡ ok true

  believed_if :
      (b : Bool) (m : Result Bool) (held : Bool)
      → (if b then m else ok true) ≡ ok held
      → held ≡ true
      → b ≡ true
      → m ≡ ok true
  believed_if b m held e on t = rw t at (e ∙ ap ok on)

  pub passes-IsAsked :
      (structural : Bool) (o : Fields)
      → passes h now q structural o ≡ ok true
      → IsAsked structural o
  unfolding passes
  passes-IsAsked structural o e =
      let (kinds, rest) = unless (not (of_kinds q.kinds o)) _ e in
      let (held, tested, last) =
        bind-ok (if q.believed_only && is_fact o then believed h now o q.at_tx else ok true) _
          rest in
      let (on, found) =
        and-true held (not structural || matches_structural q.wanted o) (ok_injective last) in
      record {
        kinds = ground (arith, kinds);
        statement = λ s. rw s at found;
        belief =
            believed_if (q.believed_only && is_fact o) (believed h now o q.at_tx) held tested on;
      }

  module _ (authorize : Fields → Result Bool) where
    -- The object is no control object, the caller may read it, and it is what is asked for.
    pub record IsCandidate (structural : Bool) (o : Fields) : Type 0 where
      pub control : is_control o ≡ false
      pub may : authorize o ≡ ok true
      pub asked : IsAsked structural o

    is_candidate-IsCandidate :
        (structural : Bool) (o : Fields)
        → is_candidate h now q authorize structural o ≡ ok true
        → IsCandidate structural o
    unfolding is_candidate
    is_candidate-IsCandidate structural o e =
        let (control, rest) = unless (is_control o) _ e in
        let (may, tested, last) = bind-ok (authorize o) _ rest in
        let (yes', passed) = if_so may _ last in
        record {
          control = control;
          may = tested ∙ ap ok yes';
          asked = passes-IsAsked structural o passed;
        }

    -- Each candidate is one of the objects.
    pub candidates-All :
        (structural : Bool) (objs out : List Fields)
        → candidates h now q authorize structural objs ≡ ok out
        → All (λ o. Among o objs × IsCandidate structural o) out
    unfolding candidates
    candidates-All structural [] out e = rw (sym (ok_injective e)) tt
    candidates-All structural (o ∷ objs) out e =
        let (keep, tested, rest) = bind-ok (is_candidate h now q authorize structural o) _ e in
        let (more, ran, last) = bind-ok (candidates h now q authorize structural objs) _ rest in
        rw (sym (ok_injective last)) (
          add keep more tested (
            All-map (λ a. Among a objs × IsCandidate structural a)
              (λ a. Among a (o ∷ objs) × IsCandidate structural a) (λ a (m, c). (there m, c)) more
              (candidates-All structural objs more ran)))
      where
        add :
            (keep : Bool) (more : List Fields)
            → is_candidate h now q authorize structural o ≡ ok keep
            → All (λ a. Among a (o ∷ objs) × IsCandidate structural a) more
            → All
                (λ a. Among a (o ∷ objs) × IsCandidate structural a)
                (if keep then o ∷ more else more)
        add true more tested all = ((here refl, is_candidate-IsCandidate structural o tested), all)
        add false more tested all = all

  pub documents-All :
      (P : Fields → Type 0) (found : List Fields) (docs : List (Fields × List String))
      → All P found
      → documents h tokens found ≡ ok docs
      → All (λ d. P d.0) docs
  unfolding documents
  documents-All P [] docs all e = rw (sym (ok_injective e)) tt
  documents-All P (o ∷ found) docs all e =
      let (text', _, rest) = bind-ok (object_text h o) _ e in
      let (more, ran, last) = bind-ok (documents h tokens found) _ rest in
      rw (sym (ok_injective last)) (all.0, documents-All P found more all.1 ran)

  -- A result whose object has the property, and its id.
  abbrev pub IsHit : (Fields → Type 0) → Retrieved → Type 0
  IsHit P r = (o : Fields) × P o × IsOf o r

  pub add_hit :
      (P : Fields → Type 0) (o : Fields) (hit : Option Retrieved) (more : List Retrieved)
      → P o
      → ((r : Retrieved) → hit ≡ some r → IsOf o r)
      → All (IsHit P) more
      → All (IsHit P) (elim hit [ none ↦ more | some r ↦ r ∷ more ])
  add_hit P o none more po is all = all
  add_hit P o (some r) more po is all = ((o, po, is r refl), all)

  scored_text-IsOf :
      (terms : List String) (df : String → ℕ) (n : ℕ) (o : Fields) (words : List String)
      (r : Retrieved)
      → scored_text x h w tokens now os q terms df n (o, words) ≡ ok (some r)
      → IsOf o r
  unfolding scored_text
  scored_text-IsOf [] df n o words r e = scored-IsOf false none o r e
  scored_text-IsOf (t ∷ ts) df n o words r e =
      scored-IsOf (is_zero (tfidf x (t ∷ ts) words df n)) (some (tfidf x (t ∷ ts) words df n)) o r e

  score_documents-All :
      (P : Fields → Type 0) (terms : List String) (df : String → ℕ) (n : ℕ)
      (docs : List (Fields × List String)) (out : List Retrieved)
      → All (λ d. P d.0) docs
      → score_documents x h w tokens now os q terms df n docs ≡ ok out
      → All (IsHit P) out
  unfolding score_documents
  score_documents-All P terms df n [] out all e = rw (sym (ok_injective e)) tt
  score_documents-All P terms df n ((o, words) ∷ docs) out all e =
      let (hit, made, rest) =
        bind-ok (scored_text x h w tokens now os q terms df n (o, words)) _ e in
      let (more, ran, last) =
        bind-ok (score_documents x h w tokens now os q terms df n docs) _ rest in
      rw (sym (ok_injective last)) (
        add_hit P o hit more all.0 (λ r is. scored_text-IsOf terms df n o words r (made ∙ ap ok is))
          (score_documents-All P terms df n docs more all.1 ran))

  -- At most as many results as asked for, in order, each with the property.
  pub record IsAnswer (P : Fields → Type 0) (results : List Retrieved) : Type 0 where
    pub few : length results ≤ q.limit
    pub ranked : IsRanked results
    pub hits : All (IsHit P) results

  pub cut-IsAnswer :
      (P : Fields → Type 0) (results : List Retrieved)
      → All (IsHit P) results
      → IsAnswer P (take q.limit (sort_ranked results))
  cut-IsAnswer P results all = record {
    few = length-take-le q.limit (sort_ranked results);
    ranked = take-IsRanked q.limit (sort_ranked results) (sort_ranked-IsRanked results);
    hits = All-take (IsHit P) q.limit (sort_ranked results) (sort_ranked-All (IsHit P) results all);
  }

  module _ (tenant namespace : String) (authorize : Fields → Result Bool) where
    -- What a scan finds: a stored object of the scope that is a candidate.
    pub record IsScanned (o : Fields) : Type 0 where
      pub stored : Among o (values os)
      pub scoped : in_scope tenant namespace o ≡ true
      pub candidate : IsCandidate authorize true o

    pub legacy_search-IsAnswer :
        (results : List Retrieved)
        → legacy_search x h w tokens now os q tenant namespace authorize ≡ ok results
        → IsAnswer IsScanned results
    unfolding legacy_search objects
    legacy_search-IsAnswer results e =
        let (found, ran, rest) =
          bind-ok (candidates h now q authorize true (objects tenant namespace none os)) _ e in
        let (docs, read, rest2) = bind-ok (documents h tokens found) _ rest in
        let (scores, scored_all, last) =
          bind-ok (score_documents x h w tokens now os q _ _ _ docs) _ rest2 in
        rw (sym (ok_injective last)) (
          cut-IsAnswer IsScanned scores (
            score_documents-All IsScanned _ _ _ docs scores
              (documents-All IsScanned found docs
                (All-map _ IsScanned (λ o (m, c). scanned o m c) found
                  (candidates-All authorize true (objects tenant namespace none os) found ran))
                read)
              scored_all))
      where
        scanned :
            (o : Fields)
            → Among o (objects tenant namespace none os)
            → IsCandidate authorize true o
            → IsScanned o
        scanned o m c =
            let (stored, kept) =
              (Among-filter (λ a. in_scope tenant namespace a && true) o (values os)).0 m in
            record {
              stored = stored;
              scoped = (and-true (in_scope tenant namespace o) true kept).0;
              candidate = c;
            }
