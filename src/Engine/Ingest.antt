-- ===== src/Engine/Ingest.antt =====
-- core/__init__.py: sources, observations, documents, decisions and episodes. Text that a caller
-- passes is any value, which `_str` checks; ids are texts.
use Prim.Native.String.{len}
use epistemos.Common.{String, Bool, not, Option, some, List, [], ◌∷◌, ltb, if◌then◌else◌, contains}
use epistemos.Result.{Result, ok, err, validation}
use epistemos.Exec.{Exec, pure, lift, raise_if, ◌>>=◌, ◌>>◌}
use epistemos.Json.{Json, null, bool, str, obj, Fields, end, field}
use epistemos.Json.Dict.{put}
use epistemos.Host.{hash_obj}
use epistemos.Identity.{Principal, require}
use epistemos.Ledger.{Op, opt_str}
use epistemos.Model.{Class, construct}
use epistemos.Storage.{Store}
use epistemos.Engine.Base.{
  Engine, Call, text_arg, optional_text, confidence_arg, instant_arg, metadata_arg,
}
use epistemos.Engine.Calls.{envelope, look, commit, refs_in_scope, optional_ref, tuple}

module _ (e : Engine) (c : Call) (p : Principal) where
  unfoldable pub add_source : Json → Json → Json → Json → Exec Store Fields
  add_source uri source_kind trust metadata = do
    lift (require p "ingest")
    uri' ← lift (text_arg e uri (some e.limits.max_uri))
    kind ← lift (text_arg e source_kind (some 64))
    trust' ← lift (confidence_arg e trust)
    meta ← lift (metadata_arg e metadata)
    src ← lift (
        construct e.host Class.source (
          envelope p "source" (c.new_id "src" 0) c.now (
            field "uri" (str uri')
              (field "source_kind" (str kind) (field "trust" trust' (field "metadata" meta end))))))
    commit e.host p c.now ((Op.source_added, src) ∷ [])
    pure src

  unfoldable pub observe : Json → Option String → Json → Json → Exec Store Fields
  observe text source session metadata = do
    lift (require p "ingest")
    text' ← lift (text_arg e text (some e.limits.max_text))
    look (optional_ref p source)
    session' ← lift (optional_text e session (some 128))
    meta ← lift (metadata_arg e metadata)
    obs ← lift (
        construct e.host Class.observation (
          envelope p "observation" (c.new_id "obs" 0) c.now (
            field "source" (opt_str source)
              (field "text" (str text') (field "session" session' (field "metadata" meta end))))))
    let o = put "source_hash" (str (hash_obj e.host (obj (field "text" (str text') end)))) obs
    commit e.host p c.now ((Op.observation_recorded, o) ∷ [])
    lift (construct e.host Class.observation o)

  -- `isinstance(text, str)` and the size of its UTF-8 bytes
  document_text : Json → Result String
  document_text (str s) = if ltb e.limits.max_document_bytes (len s) then err validation else ok s
  document_text _ = err validation

  unfoldable pub ingest_document : Json → Json → Json → Option String → Json → Exec Store Fields
  unfolding document_text
  ingest_document title text mime source metadata = do
    lift (require p "ingest")
    title' ← lift (text_arg e title (some e.limits.max_str))
    text' ← lift (document_text text)
    mime' ← lift (text_arg e mime (some 128))
    raise_if (not (contains mime' e.limits.allowed_doc_mime)) validation
    look (optional_ref p source)
    meta ← lift (metadata_arg e metadata)
    doc ← lift (
        construct e.host Class.document (
          envelope p "document" (c.new_id "doc" 0) c.now (
            field "source" (opt_str source) (
              field "title" (str title') (
                field "text" (str text') (field "mime" (str mime') (field "metadata" meta end)))))))
    let hashed =
        field "title" (str title') (field "text" (str text') (field "mime" (str mime') end))
    let o = put "source_hash" (str (hash_obj e.host (obj hashed))) doc
    commit e.host p c.now ((Op.document_ingested, o) ∷ [])
    lift (construct e.host Class.document o)

  text_args : List Json → Result (List String)
  text_args [] = ok []
  text_args (v ∷ vs) = elim (text_arg e v (some e.limits.max_str)) [
    | err x ↦ err x
    | ok s ↦ elim (text_args vs) [ err x ↦ err x | ok ss ↦ ok (s ∷ ss) ]
  ]

  unfoldable pub record_decision :
      Json → List String → List Json → Json → Bool → Json → Exec Store Fields
  unfolding text_args
  record_decision statement evidence alternatives outcome reversible metadata = do
    lift (require p "decide")
    statement' ← lift (text_arg e statement (some e.limits.max_text))
    look (refs_in_scope p evidence)
    alts ← lift (text_args alternatives)
    outcome' ← lift (optional_text e outcome (some e.limits.max_str))
    meta ← lift (metadata_arg e metadata)
    dec ← lift (
        construct e.host Class.decision (
          envelope p "decision" (c.new_id "dec" 0) c.now (
            field "derived_from" (tuple evidence) (
              field "statement" (str statement') (
                field "evidence" (tuple evidence) (
                  field "alternatives" (tuple alts) (
                    field "outcome" outcome'
                      (field "reversible" (bool reversible) (field "metadata" meta end)))))))))
    commit e.host p c.now ((Op.decision_recorded, dec) ∷ [])
    pure dec

  -- `occurred_at if occurred_at is not None else self._now()`
  abbrev occurred_or_now : Json → Json
  occurred_or_now null = str c.now
  occurred_or_now v = v

  unfoldable pub remember : Json → Json → Json → List String → Json → Exec Store Fields
  remember summary occurred_at session facts metadata = do
    lift (require p "ingest")
    summary' ← lift (text_arg e summary (some e.limits.max_text))
    occurred ← lift (instant_arg e (occurred_or_now occurred_at))
    session' ← lift (optional_text e session (some 128))
    look (refs_in_scope p facts)
    meta ← lift (metadata_arg e metadata)
    ep ← lift (
        construct e.host Class.episode (
          envelope p "episode" (c.new_id "ep" 0) c.now (
            field "summary" (str summary') (
              field "occurred_at" occurred (
                field "session" session'
                  (field "facts" (tuple facts) (field "metadata" meta end)))))))
    commit e.host p c.now ((Op.episode_recorded, ep) ∷ [])
    pure ep
