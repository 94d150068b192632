-- ===== src/Tests/Searches.antt =====
-- core/__init__.py and retrieval/__init__.py: searches on a small store.
use Prim.Native.Nat.{◌*◌}
use epistemos.Common.{
  ℕ, ◌+◌, ◌-◌, ◌≡◌, refl, String, Bool, false, none, some, List, [], ◌∷◌, Among, here, map, there,
}
use epistemos.Result.{Result, ok, err}
use epistemos.Json.Dict.{get}
use epistemos.Json.{is_str, Json, null, num, str, arr, cons, nil, Fields, end, field, is_str}
use epistemos.Host.{one}
use epistemos.Storage.{Objects, lookup}
use epistemos.Engine.Read.{can_read}
use epistemos.Retrieval.Text.{ascii_tokens}
use epistemos.Retrieval.Score.{Floats, Weights, Wanted}
use epistemos.Retrieval.Shown.{Retrieved}
use epistemos.Retrieval.Scan.{Query, is_control}
use epistemos.Engine.Search.{Search, SearchArgs, retrieve, search, query_of, scan_method}
use epistemos.Engine.Search.Answers.{IsScanAnswer, IsReadableAnswer, retrieve-Answered}
use epistemos.Engine.Search.Alike.{both_end, both, left}
use epistemos.Engine.Search.Blind.{IsSourceOfReadable, SameToReader, search_blind}
use epistemos.Tests.Setup.{host, open_engine, alice}

abbrev total_of : List ℕ → ℕ
total_of [] = 0
total_of (a ∷ values) = a + total_of values

-- An arithmetic on natural numbers, in which a quotient is what is divided.
abbrev floats : Floats
floats = record {
  of_nat = λ n. n;
  add = λ a b. a + b;
  mul = λ a b. a * b;
  div = λ a b. a;
  sum = total_of;
  log = λ a. a;
  seconds = λ a b. a - b;
  round = λ a. a;
  fixed = λ a. "1.00";
}

abbrev weights : Weights
weights = record { lexical = 1; exact = 1; recency = 1; authority = 1; temporal = 1 }

abbrev maker : Search
maker = record { floats = floats; weights = weights; tokenizer = ascii_tokens host; index = none }

abbrev document_of : String → String → String → Fields
document_of id owner text = field "id" (str id) (
    field "kind" (str "document") (
      field "tenant" (str "acme") (
        field "namespace" (str "hr") (
          field "owner" (str owner) (
            field "title" (str "note")
              (field "text" (str text) (field "created_at" (str "2026") end)))))))

abbrev own : Fields
own = document_of "d1" "alice" "the salary of Carol"

-- Another agent's document.
abbrev secret : Fields
secret = document_of "d2" "bob" "the salary of Dave"

abbrev with_secret : Objects
with_secret = ("d2", secret) ∷ ("d1", own) ∷ []

abbrev without : Objects
without = ("d1", own) ∷ []

abbrev args : SearchArgs
args = record {
  text = str "salary";
  wanted = record { subject = none; predicate = none; object = none };
  kinds = null;
  limit = num 10;
  believed_only = false;
  at_valid = null;
  at_tx = null;
}

abbrev query : Query
query = record {
  text = some "salary";
  wanted = args.wanted;
  kinds = none;
  limit = 10;
  believed_only = false;
  at_tx = null;
  at_valid = null;
}

abbrev Found : Type 0
Found = List Retrieved × String × Bool

abbrev or_nothing : Result Found → Found
or_nothing (ok found) = found
or_nothing (err x) = ([], "", false)

abbrev found : Found
found = or_nothing (retrieve open_engine maker 4 alice with_secret query)

finds : retrieve open_engine maker 4 alice with_secret query ≡ ok found
unfolding retrieve epistemos.Retrieval.Scan.legacy_search epistemos.Retrieval.Scan.candidates
    epistemos.Storage.objects epistemos.Json.Dict.find epistemos.Retrieval.Scan.is_candidate
    can_read epistemos.Authz.can_read_object epistemos.Authz.placements
    epistemos.Retrieval.Scan.passes epistemos.Retrieval.Scan.of_kinds
    epistemos.Retrieval.Scan.documents epistemos.Retrieval.Score.matches_structural
    epistemos.Retrieval.Text.object_text epistemos.Retrieval.Scan.score_documents
    epistemos.Retrieval.Text.query_terms epistemos.Retrieval.Text.distinct
    epistemos.Engine.Search.scan epistemos.Engine.Transfer.Records.text epistemos.Host.float_lt
    epistemos.Host.parse_instant epistemos.Json.iterate epistemos.Retrieval.Scan.insert_ranked
    epistemos.Retrieval.Scan.scored epistemos.Retrieval.Scan.scored_text
    epistemos.Retrieval.Scan.sort_ranked epistemos.Retrieval.Score.nonlexical_components
    epistemos.Retrieval.Score.source_in_scope epistemos.Retrieval.Score.tfidf
    epistemos.Retrieval.Score.total epistemos.Retrieval.Score.trust_of
    epistemos.Retrieval.Shown.build epistemos.Retrieval.Shown.why epistemos.Retrieval.Text.join
    epistemos.Storage.lookup ascii_tokens
finds = refl

-- The agent finds its own document.
finds_own : map (λ r. r.id) found.0 ≡ "d1" ∷ []
unfolding retrieve epistemos.Retrieval.Scan.legacy_search epistemos.Retrieval.Scan.candidates
    epistemos.Storage.objects epistemos.Json.Dict.find epistemos.Retrieval.Scan.is_candidate
    can_read epistemos.Authz.can_read_object epistemos.Authz.placements
    epistemos.Retrieval.Scan.passes epistemos.Retrieval.Scan.of_kinds
    epistemos.Retrieval.Scan.documents epistemos.Retrieval.Score.matches_structural
    epistemos.Retrieval.Text.object_text epistemos.Retrieval.Scan.score_documents
    epistemos.Retrieval.Text.query_terms epistemos.Retrieval.Text.distinct
    epistemos.Engine.Search.scan epistemos.Engine.Transfer.Records.text epistemos.Host.float_lt
    epistemos.Host.parse_instant epistemos.Json.iterate epistemos.Retrieval.Scan.insert_ranked
    epistemos.Retrieval.Scan.scored epistemos.Retrieval.Scan.scored_text
    epistemos.Retrieval.Scan.sort_ranked epistemos.Retrieval.Score.nonlexical_components
    epistemos.Retrieval.Score.source_in_scope epistemos.Retrieval.Score.tfidf
    epistemos.Retrieval.Score.total epistemos.Retrieval.Score.trust_of
    epistemos.Retrieval.Shown.build epistemos.Retrieval.Shown.why epistemos.Retrieval.Text.join
    epistemos.Storage.lookup ascii_tokens
finds_own = refl

retrieve-Answered_example :
    (found.1 ≡ scan_method → IsScanAnswer open_engine maker 4 alice with_secret query found.0)
    × IsReadableAnswer open_engine maker 4 alice with_secret query found.0
retrieve-Answered_example =
    retrieve-Answered open_engine maker 4 alice with_secret query found finds

hidden : can_read host alice with_secret secret ≡ ok false
unfolding can_read epistemos.Authz.can_read_object epistemos.Json.Dict.find
    epistemos.Authz.placements
hidden = refl

-- Neither document has a source.
sourceless : (o : Fields) → Among o (secret ∷ own ∷ []) → is_str (get "source" o) "d2" ≡ false
unfolding epistemos.Json.Dict.find
sourceless o (here e) = rw e refl
sourceless o (there (here e)) = rw e refl
sourceless o (there (there m)) = elim m [ ]

unnamed : IsSourceOfReadable open_engine maker 4 alice with_secret without "d2" → ⊥
unnamed s = cc (sourceless s.object s.stored, s.source)

knowledge : is_control secret ≡ false
unfolding epistemos.Json.Dict.find
knowledge = refl

unheld : lookup "d2" without ≡ none
unfolding lookup
unheld = refl

alike : SameToReader open_engine maker 4 alice with_secret without
alike =
    left "d2" secret (record { hidden = hidden; knowledge = knowledge; unnamed = unnamed }) unheld
      (both "d1" own both_end)

search_blind_example :
    search open_engine maker 4 alice args with_secret
    ≡ search open_engine maker 4 alice args without
search_blind_example = search_blind open_engine maker 4 alice with_secret without args refl alike
