-- ===== src/Tests/Table.antt =====
-- index/provenance.py: a table of rows that meets the laws of the statements.
use epistemos.Common.{
  ℕ, ◌≡◌, refl, ◌∙◌, String, Bool, false, not, some, List, [], ◌∷◌, ◌==◌, ◌&&◌, ◌||◌, arith, nat_eq,
  any, filter, length, contains, if◌then◌else◌,
}
use epistemos.Provenance.Index.{Table, has_seq}

abbrev pub Rows : Type 0
Rows = List (String × ℕ)

abbrev is_row : String → ℕ → String × ℕ → Bool
is_row i m (j, n) = j == i && nat_eq n m

abbrev holds : Rows → String → ℕ → Bool
holds rows i m = any (is_row i m) rows

abbrev delete_seq : ℕ → Rows → Rows
delete_seq n rows = filter (λ y. not (nat_eq y.1 n)) rows

abbrev add_all : List String → ℕ → Rows → Rows
add_all [] n rows = rows
add_all (id ∷ ids) n rows = (id, n) ∷ add_all ids n rows

abbrev seqs_of : String → Rows → List ℕ
seqs_of i [] = []
seqs_of i ((j, n) ∷ rows) = let rest = seqs_of i rows in if j == i then n ∷ rest else rest

pub holds-delete_seq :
    (n : ℕ) (rows : Rows) (i : String) (m : ℕ)
    → holds (delete_seq n rows) i m ≡ (if nat_eq m n then false else holds rows i m)
holds-delete_seq n [] i m = ground arith
holds-delete_seq n ((j, k) ∷ rows) i m = ground (arith, holds-delete_seq n rows i m)

pub holds-add_all :
    (ids : List String) (n : ℕ) (rows : Rows) (i : String) (m : ℕ)
    → holds (add_all ids n rows) i m ≡ holds rows i m || (nat_eq n m && contains i ids)
holds-add_all [] n rows i m = ground arith
holds-add_all (id ∷ ids) n rows i m = ground (arith, holds-add_all ids n rows i m)

pub has_seq-seqs_of :
    (i : String) (rows : Rows) (m : ℕ) → has_seq m (seqs_of i rows) ≡ holds rows i m
has_seq-seqs_of i [] m = refl
has_seq-seqs_of i ((j, n) ∷ rows) m = ground (arith, has_seq-seqs_of i rows m)

pub holds-some :
    (rows rows' : Rows)
    → some rows ≡ some rows'
    → (i : String) (m : ℕ) → holds rows' i m ≡ holds rows i m
holds-some rows rows' e i m = let same : rows ≡ rows' = cc e in rw same refl

pub has_seq-found :
    (i : String) (r : Rows) (ns : List ℕ)
    → some (seqs_of i r) ≡ some ns
    → (m : ℕ) → has_seq m ns ≡ holds r i m
has_seq-found i r ns e m = let same : seqs_of i r ≡ ns = cc e in rw same at (has_seq-seqs_of i r m)

abbrev pub table : Table
table = record {
  Rows = Rows;
  holds = holds;
  delete_seq = λ n rows. some (delete_seq n rows);
  insert = λ ids n rows. some (add_all ids n rows);
  delete = λ rows. some [];
  select = λ i rows. some (seqs_of i rows);
  count = λ rows. some (length rows);
  pairs = λ rows. some rows;
  holds-delete_seq =
      λ n r r' e i m. holds-some (delete_seq n r) r' e i m ∙ holds-delete_seq n r i m;
  holds-insert =
      λ ids n r r' e i m. holds-some (add_all ids n r) r' e i m ∙ holds-add_all ids n r i m;
  holds-delete = λ r r' e i m. holds-some [] r' e i m;
  has_seq-select = has_seq-found;
}
