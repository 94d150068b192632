-- ===== src/Context/Collapse.antt =====
-- context/builder.py: what the envelope folds away, `_collapse`.
pub mod Reachable
use Prim.Native.String.{◌++◌ as text_append}
use epistemos.Common.{
  ℕ, ◌+◌, String, Bool, true, false, not, Option, none, some, List, [], ◌∷◌, ◌++◌, ◌==◌, ◌&&◌, any,
  filter, map, sorted_set, if◌then◌else◌,
}
use epistemos.Json.{Fields}
use epistemos.Host.{Host, float_lt}
use epistemos.Context.Describe.{
  Intent, estimate_tokens, id_of, is_contradiction, is_current, sources_in, serialize,
  statement_key, content_key, may_collapse_history,
}

pub record RedundancyGroup : Type 0 where
  pub kind : String
  pub canonical : String
  pub collapsed : List String
  pub handle : String
  pub sources : List String
  pub tokens_saved : ℕ

abbrev pub Grouped : Type 0
Grouped = List (String × List Fields)

-- groups.setdefault(k, []).append(o)
unfoldable pub add_to : String → Fields → Grouped → Grouped
add_to k o [] = (k, o ∷ []) ∷ []
add_to k o ((j, os) ∷ groups) =
    let rest = add_to k o groups in if j == k then (j, os ++ o ∷ []) ∷ groups else (j, os) ∷ rest

-- The groups by key, in the order of their first objects, and the objects without a key.
unfoldable pub group_by :
    (Fields → Option String) → List Fields → Grouped → List Fields → Grouped × List Fields
group_by key [] groups rest = (groups, rest)
group_by key (o ∷ os) groups rest = elim (key o) [
  | none ↦ group_by key os groups (rest ++ o ∷ [])
  | some k ↦ group_by key os (add_to k o groups) rest
]

-- max(versions, key=...), the first of the greatest, where `scored` gives a double's bit pattern.
unfoldable pub best_scored : (String → ℕ) → Fields → List Fields → Fields
best_scored scored best [] = best
best_scored scored best (v ∷ more) =
    let moved = best_scored scored v more in
    let kept = best_scored scored best more in
    if float_lt (scored (id_of best)) (scored (id_of v)) then moved else kept

-- next((v for v in versions if _is_current(v)), default)
unfoldable pub first_current : List Fields → Fields → Fields
first_current [] default = default
first_current (v ∷ more) default =
    let later = first_current more default in if is_current v then v else later

abbrev pub others : String → List Fields → List Fields
others i vs = filter (λ v. not (id_of v == i)) vs

-- What one pass gives: what it keeps, the groups it folds, and the reasons.
pub record Folded : Type 0 where
  pub keep : List Fields
  pub groups : List RedundancyGroup
  pub reasons : List String

abbrev pub nothing : Folded
nothing = record { keep = []; groups = []; reasons = [] }

module _ (h : Host) (scored : String → ℕ) where
  abbrev saved : List Fields → ℕ
  saved [] = 0
  saved (v ∷ vs) = estimate_tokens (serialize h v) + saved vs

  -- The versions of one statement that are folded into the one that is kept.
  abbrev pub fold_into : String → String → List String → Fields → List Fields → Folded
  fold_into kind scheme reasons kept vs = record {
    keep = kept ∷ [];
    groups =
        record {
          kind = kind;
          canonical = id_of kept;
          collapsed = map id_of (others (id_of kept) vs);
          handle = text_append scheme (id_of kept);
          sources = sorted_set (sources_in vs);
          tokens_saved = saved (others (id_of kept) vs);
        }
        ∷ [];
    reasons = reasons;
  }

  abbrev whole : List Fields → Folded
  whole vs = record { keep = vs; groups = []; reasons = [] }

  -- The versions of one statement.
  unfoldable pub fold_versions : Bool → List Fields → Folded
  fold_versions collapse_hist (v ∷ w ∷ vs) =
      if collapse_hist && not (any is_contradiction (v ∷ w ∷ vs))
      then fold_into "collapsed_history" "history://" ("history_collapsed" ∷ [])
          (first_current (v ∷ w ∷ vs) (best_scored scored v (w ∷ vs))) (v ∷ w ∷ vs)
      else whole (v ∷ w ∷ vs)
  fold_versions collapse_hist vs = whole vs

  -- The copies of one content.
  unfoldable pub fold_copies : List Fields → Folded
  fold_copies (d ∷ e ∷ ds) =
      fold_into "duplicate" "expand://" [] (best_scored scored d (e ∷ ds)) (d ∷ e ∷ ds)
  fold_copies ds = whole ds

  abbrev pub join : Folded → Folded → Folded
  join a b = record {
    keep = a.keep ++ b.keep;
    groups = a.groups ++ b.groups;
    reasons = a.reasons ++ b.reasons;
  }

  unfoldable pub fold_each : (List Fields → Folded) → Grouped → Folded
  fold_each fold [] = nothing
  fold_each fold ((k, vs) ∷ groups) = join (fold vs) (fold_each fold groups)

  -- Contradictions are never folded as duplicates.
  unfoldable pub duplicate_key : Fields → Option String
  duplicate_key o = if is_contradiction o then none else content_key h o

  -- `_collapse`
  unfoldable pub collapse : List Fields → Intent → Bool → Folded
  collapse objs intent confident =
      let (by_stmt, rest) = group_by (statement_key h) objs [] [] in
      let first = fold_each (fold_versions (may_collapse_history intent confident)) by_stmt in
      let (by_content, final) = group_by duplicate_key (first.keep ++ rest) [] [] in
      let second = fold_each fold_copies by_content in
      record {
        keep = final ++ second.keep;
        groups = first.groups ++ second.groups;
        reasons = first.reasons;
      }
