-- ===== src/Retrieval/Text.antt =====
-- index/text.py: the terms of a text, and the text of an object. The tokenizer that asks SQLite is a
-- parameter, as any other tokenizer is.
use Prim.Native.Char.{code}
use Prim.Native.String.{◌++◌ as text_append}
use epistemos.Common.{
  ℕ, ◌≤◌, ◌<◌, inl, inr, String, Bool, Option, none, some, List, [], ◌∷◌, ◌++◌, ◌==◌, ◌&&◌, ◌||◌,
  arith, leb, length, length-append, contains, map, if◌then◌else◌, Bool-cases, nat_eq,
}
use epistemos.Result.{Result, ok, ◌>>=◌}
use epistemos.Json.{Json, str, arr, nil, Fields, is_str, iterate}
use epistemos.Json.Dict.{get, get_or}
use epistemos.Host.{Host}
use epistemos.Model.{truthy}

-- What `tokens` of a tokenizer gives for a text that is not empty.
abbrev pub Tokenizer : Type 0
Tokenizer = String → List String

-- [A-Za-z0-9]
abbrev is_word : ℕ → Bool
is_word c = (leb b'A' c && leb c b'Z') || (leb b'a' c && leb c b'z') || (leb b'0' c && leb c b'9')

-- What was read of a word is a term, unless it is empty.
abbrev flush : Host → String → List String → List String
flush h read more = if read == "" then more else h.lower read ∷ more

ascii_from : Host → String → String → List String
ascii_from h read String.[] = flush h read []
ascii_from h read (String.◌∷◌ c s) =
    let longer = ascii_from h (text_append read (String.◌∷◌ c String.[])) s in
    let next = flush h read (ascii_from h "" s) in if is_word (code c) then longer else next

-- AsciiTokenizer.tokens
unfoldable pub ascii_tokens : Host → Tokenizer
unfolding ascii_from
ascii_tokens h text = ascii_from h "" text

-- Of no text, and of the empty text, there are no terms.
abbrev pub tokens_of : Tokenizer → Option String → List String
tokens_of tokens none = []
tokens_of tokens (some text) = if text == "" then [] else tokens text

abbrev pub max_query_terms : ℕ
max_query_terms = 64

-- The loop over the terms, which stops when the cap is reached.
unfoldable pub distinct : ℕ → List String → List String → List String
distinct cap seen [] = seen
distinct cap seen (t ∷ ts) =
    let seen' = if contains t seen then seen else seen ++ t ∷ [] in
    let rest = distinct cap seen' ts in if leb cap (length seen') then seen' else rest

-- `_query_terms`
unfoldable pub query_terms : Tokenizer → Option String → List String
query_terms tokens text = distinct max_query_terms [] (tokens_of tokens text)

stop_or-le :
    (cap : ℕ) (seen rest : List String)
    → length seen ≤ cap
    → (length seen < cap → length rest ≤ cap)
    → length (if leb cap (length seen) then seen else rest) ≤ cap
stop_or-le cap seen rest most more = elim (Bool-cases (leb cap (length seen))) [
  | inl full ↦ rw full most
  | inr room ↦ rw room (more (ground arith))
]

length-distinct :
    (cap : ℕ) (seen ts : List String) → length seen < cap → length (distinct cap seen ts) ≤ cap
unfolding distinct
length-distinct cap seen [] below = omega arith
length-distinct cap seen (t ∷ ts) below = elim (Bool-cases (contains t seen)) [
  | inl old ↦ rw old (stop_or-le cap seen _ (omega arith) (length-distinct cap seen ts))
  | inr new ↦ rw new (
      stop_or-le cap (seen ++ t ∷ []) _ (omega (arith, length-append seen (t ∷ [])))
        (length-distinct cap (seen ++ t ∷ []) ts))
]

-- A query has at most as many terms as the cap, whatever the text.
pub length-query_terms :
    (tokens : Tokenizer) (text : Option String) → length (query_terms tokens text) ≤ max_query_terms
unfolding query_terms
length-query_terms tokens text = length-distinct 64 [] (tokens_of tokens text) (omega arith)

-- What is joined: the parts that are not empty.
parts_of : Fields → Result (List Json)
parts_of o =
    if is_str (get "kind" o) "fact"
    then ok (get "subject" o ∷ get "predicate" o ∷ get "object" o ∷ [])
    else if is_str (get "kind" o) "entity"
    then (do
      aliases ← iterate (get_or "aliases" (arr nil) o)
      ok (get "name" o ∷ get "entity_type" o ∷ aliases))
    else if is_str (get "kind" o) "document"
    then ok (get "title" o ∷ get "text" o ∷ [])
    else if is_str (get "kind" o) "decision"
    then ok (get "statement" o ∷ get "outcome" o ∷ [])
    else if is_str (get "kind" o) "episode"
    then ok (get "summary" o ∷ [])
    else if is_str (get "kind" o) "observation"
    then ok (get "text" o ∷ [])
    else if is_str (get "kind" o) "claim"
    then ok (get "subject" o ∷ get "predicate" o ∷ get "object" o ∷ [])
    else if is_str (get "kind" o) "evidence"
    then ok (get "title" o ∷ get "uri" o ∷ get "origin" o ∷ [])
    else if is_str (get "kind" o) "review"
    then ok (get "rationale" o ∷ [])
    else ok (get "id" o ∷ [])

-- str(p)
abbrev pub text_of : Host → Json → String
text_of h (str s) = s
text_of h v = h.to_str v

abbrev separated : String → List String → String → String
separated text [] sep = text
separated text (s ∷ ss) sep = text_append text (text_append sep (separated s ss sep))

-- sep.join(texts)
unfoldable pub join : String → List String → String
join sep [] = ""
join sep (s ∷ ss) = separated s ss sep

texts_of : Host → List Json → List String
texts_of h [] = []
texts_of h (p ∷ parts) =
    let rest = texts_of h parts in if truthy p then text_of h p ∷ rest else rest

unfoldable pub object_text : Host → Fields → Result String
unfolding parts_of texts_of
object_text h o = do parts ← parts_of o; ok (join " " (texts_of h parts))

-- t.replace('"', '""')
unfoldable pub double_quotes : String → String
double_quotes String.[] = ""
double_quotes (String.◌∷◌ c s) =
    let rest = double_quotes s in
    if nat_eq (code c) 34 then String.◌∷◌ c (String.◌∷◌ c rest) else String.◌∷◌ c rest

abbrev quoted : String → String
quoted t = text_append "\"" (text_append (double_quotes t) "\"")

-- `fts_match_query`: none where there are no terms.
unfoldable pub fts_match_query : Tokenizer → Option String → Option String
unfolding double_quotes
fts_match_query tokens text = elim (tokens_of tokens text) [
  | [] ↦ none
  | t ∷ ts ↦ some (join " OR " (map quoted (distinct max_query_terms [] (t ∷ ts))))
]
