-- ===== src/Retrieval/Scan/Indexed.antt =====
-- retrieval/__init__.py: what the results of a search on an index are.
use epistemos.Common.{
  ℕ, ◌≡◌, sym, ap, ◌∙◌, inl, inr, String, Bool, true, false, not, Option, none, some, List, [], ◌∷◌,
  ◌==◌, ◌&&◌, All, Among, here, there, Among-filter, All-map, if◌then◌else◌, Bool-cases,
  Option-cases, and-true, arith,
}
use epistemos.Result.{Result, ok, err, value_error, bind-ok, ok_injective}
use epistemos.Json.{Fields}
use epistemos.Host.{Host}
use epistemos.Storage.{Objects, objects, facts, values, get_object, lookup, in_scope, matches}
use epistemos.Retrieval.Text.{Tokenizer, tokens_of}
use epistemos.Retrieval.Score.{Floats, Weights}
use epistemos.Retrieval.Shown.{Retrieved}
use epistemos.Retrieval.Scan.{
  Query, LexicalIndex, candidates, scored, is_indexed, indexed_pairs, unscored, structural_pairs,
  score_pairs, text_pairs, indexed_search, structural_objects, constrains,
}
use epistemos.Retrieval.Scan.Hits.{
  IsAsked, IsCandidate, IsScanned, IsHit, IsAnswer, candidates-All, passes-IsAsked, scored-IsOf,
  add_hit, cut-IsAnswer, if_so, unless,
}

lookup-Among : (i : String) (os : Objects) (o : Fields) → lookup i os ≡ some o → Among o (values os)
unfolding lookup
lookup-Among i [] o e = cc e
lookup-Among i ((j, a) ∷ os) o e = elim (Bool-cases (j == i)) [
  | inl same ↦ let at : a ≡ o = cc (rw (lookup, same) at e) in here (sym at)
  | inr other ↦ there (lookup-Among i os o (rw (lookup, other) at e))
]

module _ (x : Floats) (h : Host) (w : Weights) (tokens : Tokenizer) (now : ℕ) (os : Objects)
    (q : Query) (tenant namespace : String) (authorize : Fields → Result Bool) where
  -- A stored object of the scope that the caller may read, of the kinds and the belief asked for.
  pub record IsAllowed (o : Fields) : Type 0 where
    pub stored : Among o (values os)
    pub scoped : in_scope tenant namespace o ≡ true
    pub may : authorize o ≡ ok true
    pub asked : IsAsked x h w tokens now os q false o

  weaken :
      (structural : Bool) (o : Fields)
      → IsAsked x h w tokens now os q structural o
      → IsAsked x h w tokens now os q false o
  weaken structural o a = record { kinds = a.kinds; statement = λ s. cc s; belief = a.belief }

  pub scanned-IsAllowed :
      (o : Fields) → IsScanned x h w tokens now os q tenant namespace authorize o → IsAllowed o
  scanned-IsAllowed o s = record {
    stored = s.stored;
    scoped = s.scoped;
    may = s.candidate.may;
    asked = weaken true o s.candidate.asked;
  }

  is_indexed-IsAllowed :
      (i : String) (o : Fields)
      → lookup i os ≡ some o
      → is_indexed x h w tokens now os q tenant namespace authorize o ≡ ok true
      → IsAllowed o
  unfolding is_indexed
  is_indexed-IsAllowed i o found e =
      let (inside, rest) = unless (not (in_scope tenant namespace o)) _ e in
      let (may, tested, last) = bind-ok (authorize o) _ rest in
      let (yes', passed) = if_so may _ last in
      record {
        stored = lookup-Among i os o found;
        scoped = ground (arith, inside);
        may = tested ∙ ap ok yes';
        asked = weaken true o (passes-IsAsked x h w tokens now os q true o passed);
      }

  indexed_pairs-All :
      (named : List (String × ℕ)) (pairs : List (Fields × ℕ))
      → indexed_pairs x h w tokens now os q tenant namespace authorize named ≡ ok pairs
      → All (λ d. IsAllowed d.0) pairs
  unfolding indexed_pairs get_object
  indexed_pairs-All [] pairs e = rw (sym (ok_injective e)) tt
  indexed_pairs-All ((i, lexical) ∷ named) pairs e = elim (Option-cases (lookup i os)) [
    | inl lost ↦ indexed_pairs-All named pairs (rw (indexed_pairs, lost) at e)
    | inr (o, found) ↦
        let (keep, tested, rest) =
          bind-ok (is_indexed x h w tokens now os q tenant namespace authorize o) _
            (rw (indexed_pairs, found) at e) in
        let (more, ran, last) =
          bind-ok (indexed_pairs x h w tokens now os q tenant namespace authorize named) _ rest in
        rw (sym (ok_injective last))
          (add o keep more found tested (indexed_pairs-All named more ran))
  ]
    where
      add :
          (o : Fields) (keep : Bool) (more : List (Fields × ℕ))
          → lookup i os ≡ some o
          → is_indexed x h w tokens now os q tenant namespace authorize o ≡ ok keep
          → All (λ d. IsAllowed d.0) more
          → All (λ d. IsAllowed d.0) (if keep then (o, lexical) ∷ more else more)
      add o true more found tested all = (is_indexed-IsAllowed i o found tested, all)
      add o false more found tested all = all

  unscored-All :
      (P : Fields → Type 0) (found : List Fields)
      → All P found
      → All (λ d. P d.0) (unscored x h w tokens now os q tenant namespace authorize found)
  unfolding unscored
  unscored-All P [] all = tt
  unscored-All P (o ∷ found) all = (all.0, unscored-All P found all.1)

  object-IsAllowed :
      (kind : Option String) (o : Fields)
      → Among o (objects tenant namespace kind os)
      → IsCandidate x h w tokens now os q authorize false o
      → IsAllowed o
  unfolding objects
  object-IsAllowed kind o m c =
      let (stored, kept) =
        (Among-filter (λ a. in_scope tenant namespace a && matches kind "kind" a) o (values os)).0
          m in
      record {
        stored = stored;
        scoped = (and-true (in_scope tenant namespace o) (matches kind "kind" o) kept).0;
        may = c.may;
        asked = c.asked;
      }

  structural_object-IsAllowed :
      (o : Fields)
      → Among o (structural_objects x h w tokens now os q tenant namespace authorize)
      → IsCandidate x h w tokens now os q authorize false o
      → IsAllowed o
  unfolding structural_objects facts
  structural_object-IsAllowed o m c = elim (Bool-cases (constrains q.wanted)) [
    | inl on ↦
        object-IsAllowed (some "fact") o
          ((Among-filter _ o (objects tenant namespace (some "fact") os)).0
            (rw (structural_objects, on) at m)).0
          c
    | inr off ↦ object-IsAllowed none o (rw (structural_objects, off) at m) c
  ]

  structural_pairs-All :
      (pairs : List (Fields × ℕ))
      → structural_pairs x h w tokens now os q tenant namespace authorize ≡ ok pairs
      → All (λ d. IsAllowed d.0) pairs
  unfolding structural_pairs
  structural_pairs-All pairs e =
      let all_of = structural_objects x h w tokens now os q tenant namespace authorize in
      let (found, ran, last) = bind-ok (candidates h now q authorize false all_of) _ e in
      rw (sym (ok_injective last)) (
        unscored-All IsAllowed found (
          All-map _ IsAllowed (λ o (m, c). structural_object-IsAllowed o m c) found
            (candidates-All x h w tokens now os q authorize false all_of found ran)))

  text_pairs-All :
      (index : LexicalIndex) (text : Option String) (pairs : List (Fields × ℕ))
      → text_pairs x h w tokens now os q tenant namespace authorize index text ≡ ok pairs
      → All (λ d. IsAllowed d.0) pairs
  unfolding text_pairs
  text_pairs-All index none pairs e = structural_pairs-All pairs e
  text_pairs-All index (some text) pairs e = answered (tokens_of tokens (some text)) e
    where
      found_or :
          (answer : Option (List (String × ℕ)))
          → (elim answer [
            | none ↦ err value_error
            | some named ↦ indexed_pairs x h w tokens now os q tenant namespace authorize named
          ])
            ≡ ok pairs
          → All (λ d. IsAllowed d.0) pairs
      found_or none e' = cc e'
      found_or (some named) e' = indexed_pairs-All named pairs e'

      answered :
          (terms : List String)
          → (elim terms [
            | [] ↦ structural_pairs x h w tokens now os q tenant namespace authorize
            | t ∷ ts ↦ elim (index.search tenant namespace text q.kinds 500) [
              | none ↦ err value_error
              | some named ↦ indexed_pairs x h w tokens now os q tenant namespace authorize named
            ]
          ])
            ≡ ok pairs
          → All (λ d. IsAllowed d.0) pairs
      answered [] e' = structural_pairs-All pairs e'
      answered (t ∷ ts) e' = found_or (index.search tenant namespace text q.kinds 500) e'

  score_pairs-All :
      (pairs : List (Fields × ℕ)) (out : List Retrieved)
      → All (λ d. IsAllowed d.0) pairs
      → score_pairs x h w tokens now os q tenant namespace authorize pairs ≡ ok out
      → All (IsHit x h w tokens now os q IsAllowed) out
  unfolding score_pairs
  score_pairs-All [] out all e = rw (sym (ok_injective e)) tt
  score_pairs-All ((o, lexical) ∷ pairs) out all e =
      let (hit, made, rest) = bind-ok (scored x h w tokens now os q false _ o) _ e in
      let (more, ran, last) =
        bind-ok (score_pairs x h w tokens now os q tenant namespace authorize pairs) _ rest in
      rw (sym (ok_injective last)) (
        add_hit x h w tokens now os q IsAllowed o hit more all.0
          (λ r is. scored-IsOf x h w tokens now os q false _ o r (made ∙ ap ok is))
          (score_pairs-All pairs more all.1 ran))

  pub indexed_search-IsAnswer :
      (index : LexicalIndex) (results : List Retrieved)
      → indexed_search x h w tokens now os q tenant namespace authorize index ≡ ok results
      → IsAnswer x h w tokens now os q IsAllowed results
  unfolding indexed_search
  indexed_search-IsAnswer index results e =
      let (pairs, ran, rest) =
        bind-ok (text_pairs x h w tokens now os q tenant namespace authorize index q.text) _ e in
      let (scores, made, last) =
        bind-ok (score_pairs x h w tokens now os q tenant namespace authorize pairs) _ rest in
      rw (sym (ok_injective last)) (
        cut-IsAnswer x h w tokens now os q IsAllowed scores
          (score_pairs-All pairs scores (text_pairs-All index q.text pairs ran) made))
