-- ===== src/Engine/Search/Answers.antt =====
-- core/__init__.py: what a search answers, by the scan or by the index.
use epistemos.Common.{
  ◌≡◌, refl, sym, String, Bool, true, false, Option, none, some, List, All-map, ℕ, arith, eq_iff,
}
use epistemos.Result.{Result, ok, err, bind-ok, ok_injective, ◌>>=◌}
use epistemos.Identity.{Principal}
use epistemos.Storage.{Objects}
use epistemos.Engine.Base.{Engine}
use epistemos.Engine.Read.{can_read}
use epistemos.Retrieval.Shown.{Retrieved}
use epistemos.Retrieval.Scan.{Query, LexicalIndex, indexed_search}
use epistemos.Retrieval.Scan.Hits.{IsScanned, IsAnswer, legacy_search-IsAnswer}
use epistemos.Retrieval.Scan.Indexed.{IsAllowed, scanned-IsAllowed, indexed_search-IsAnswer}
use epistemos.Engine.Search.{Search, scan_method, index_method, scan, fall_back, retrieve}

module _ (e : Engine) (g : Search) (utc : ℕ) (p : Principal) (os : Objects) (q : Query) where
  -- A hit is of a stored object of the principal's scope that the principal may read, of the kinds
  -- and the belief asked for.
  abbrev pub IsReadableAnswer : List Retrieved → Type 0
  IsReadableAnswer = IsAnswer g.floats e.host g.weights g.tokenizer utc os q (
      IsAllowed g.floats e.host g.weights g.tokenizer utc os q p.tenant p.namespace
        (can_read e.host p os))

  -- And it is no space or grant, and meets the constraints on the statement.
  abbrev pub IsScanAnswer : List Retrieved → Type 0
  IsScanAnswer = IsAnswer g.floats e.host g.weights g.tokenizer utc os q (
      IsScanned g.floats e.host g.weights g.tokenizer utc os q p.tenant p.namespace
        (can_read e.host p os))

  weaken : (results : List Retrieved) → IsScanAnswer results → IsReadableAnswer results
  weaken results a = record {
    few = a.few;
    ranked = a.ranked;
    hits =
        All-map _ _
          (λ r (o, s, is). (
            o,
            scanned-IsAllowed g.floats e.host g.weights g.tokenizer utc os q p.tenant p.namespace
                (can_read e.host p os) o s,
            is,
          ))
          results a.hits;
  }

  scan-IsScanAnswer :
      (results : List Retrieved) → scan e g utc p os q ≡ ok results → IsScanAnswer results
  unfolding scan
  scan-IsScanAnswer results ran =
      legacy_search-IsAnswer g.floats e.host g.weights g.tokenizer utc os q p.tenant p.namespace
        (can_read e.host p os) results ran

  abbrev Answered : List Retrieved × String × Bool → Type 0
  Answered found = (found.1 ≡ scan_method → IsScanAnswer found.0) × IsReadableAnswer found.0

  by_scan :
      (flag : Bool) (found : List Retrieved × String × Bool)
      → (scan e g utc p os q >>= λ results. ok (results, scan_method, flag)) ≡ ok found
      → Answered found
  by_scan flag found e' =
      let (results, ran, last) = bind-ok (scan e g utc p os q) _ e' in
      let answer = scan-IsScanAnswer results ran in
      rw (sym (ok_injective last)) (λ m. answer, weaken results answer)

  index-ne-scan : index_method ≡ scan_method → ⊥
  index-ne-scan e' = ground (arith, eq_iff index_method scan_method)

  fall_back-Answered :
      (index : LexicalIndex) (r : Result (List Retrieved)) (found : List Retrieved × String × Bool)
      → indexed_search g.floats e.host g.weights g.tokenizer utc os q p.tenant p.namespace
          (can_read e.host p os)
          index
        ≡ r
      → fall_back e g utc p os q r ≡ ok found
      → Answered found
  unfolding fall_back
  fall_back-Answered index (err x) found ran e' = by_scan true found e'
  fall_back-Answered index (ok results) found ran e' = rw (sym (ok_injective e')) (
    λ m. absurd (index-ne-scan m),
    indexed_search-IsAnswer g.floats e.host g.weights g.tokenizer utc os q p.tenant p.namespace
        (can_read e.host p os) index results ran,
  )

  -- Whatever a search finds, by the scan or by an index that answers anything at all, are at most as
  -- many hits as asked for, none ranks below the one after it, and each is a stored object of the
  -- principal's scope that the principal may read, of the kinds and the belief asked for, under its
  -- own id; by the scan, it is also no space or grant and meets the constraints on the statement.
  pub retrieve-Answered :
      (found : List Retrieved × String × Bool)
      → retrieve e g utc p os q ≡ ok found
      → (found.1 ≡ scan_method → IsScanAnswer found.0) × IsReadableAnswer found.0
  unfolding retrieve
  retrieve-Answered found ran = split g.index refl
    where
      split : (i : Option (LexicalIndex × Bool)) → g.index ≡ i → Answered found
      split none at = by_scan false found (rw (retrieve, at) at ran)
      split (some (index, true)) at =
          fall_back-Answered index _ found refl (rw (retrieve, at) at ran)
      split (some (index, false)) at = by_scan false found (rw (retrieve, at) at ran)
