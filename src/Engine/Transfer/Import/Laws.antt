-- ===== src/Engine/Transfer/Import/Laws.antt =====
-- core/__init__.py: what an import does to the store, whether it raises or returns.
use epistemos.Common.{
  String, ◌≡◌, refl, sym, ap, ◌∙◌, List, [], ◌∷◌, ◌++◌, arith, filter, ltb, append_assoc,
  append-nil,
}
use epistemos.Result.{Result, ok, err}
use epistemos.Exec.{Exec, continue, ◌>>◌}
use epistemos.Json.{Json}
use epistemos.Host.{Host}
use epistemos.Identity.{Principal}
use epistemos.Ledger.{Event, LedgerRecord, genesis_hash, seal}
use epistemos.Ledger.Chain.{Chain}
use epistemos.Storage.{Store, append, persist_record, clear_projection, read_events}
use epistemos.Storage.Reading.{read_all}
use epistemos.Engine.Apply.{apply, apply_all}
use epistemos.Engine.Consistent.{
  Sound, Grown, Grown-refl, Grown-trans, emitted, emitted-Grown, emitted-Sound, sealed,
}
use epistemos.Engine.Transfer.Records.{event_of}
use epistemos.Engine.Transfer.Import.{persist_all, keep_records, append_apply, reseal_each}

-- The principal that an event names.
abbrev sender : Event → Principal
sender ev = record {
  tenant = ev.tenant;
  agent = ev.actor;
  namespace = ev.namespace;
  principal = ev.principal;
  capabilities = [];
}

module _ (h : Host) where
  abbrev appended : Event → Store → Store
  appended ev s = emitted h (sender ev) ev.op ev.ts ev.payload s

  abbrev record_of : Event → Store → LedgerRecord
  record_of ev s = sealed h (sender ev) ev.op ev.ts ev.payload s

  append_apply_run :
      (ev : Event) (s : Store)
      → append_apply h ev s ≡ ((apply (record_of ev s) ev.op s.objects_by_id).0, appended ev s)
  unfolding append_apply append seal
  append_apply_run ev s = refl

  continue-either :
      {S A B : Type 0} (P : S → Type 0) (r : Result A) (f : A → Exec S B) (t : S)
      → P t
      → ((a : A) → r ≡ ok a → P (f a t).1)
      → P (continue r f t).1
  continue-either P (ok a) f t stay go = go a refl
  continue-either P (err x) f t stay go = stay

  pub reseal_each-Grown : (js : List Json) (s : Store) → Grown s (reseal_each h js s).1
  unfolding reseal_each
  reseal_each-Grown [] s = Grown-refl s
  reseal_each-Grown (j ∷ js) s =
      continue-either (Grown s) (event_of h j) (λ ev. append_apply h ev >> reseal_each h js) s
        (Grown-refl s)
        (λ ev at. rw (append_apply_run ev s) (
          continue-either (Grown s) (apply (record_of ev s) ev.op s.objects_by_id).0
            (λ _. reseal_each h js) (appended ev s)
            (emitted-Grown h (sender ev) ev.op ev.ts ev.payload s)
            (λ _ ran.
              Grown-trans (emitted-Grown h (sender ev) ev.op ev.ts ev.payload s)
                (reseal_each-Grown js (appended ev s)))))

  pub continue-returned :
      {S A B : Type 0} (P : S → Type 0) (r : Result A) (f : A → Exec S B) (t : S) {b : B}
      → (continue r f t).0 ≡ ok b
      → ((a : A) → r ≡ ok a → (f a t).0 ≡ ok b → P (f a t).1)
      → P (continue r f t).1
  continue-returned P (ok a) f t e go = go a refl e
  continue-returned P (err x) f t e go = cc

  -- If the events are all sealed and applied, the store stays sound.
  pub reseal_each-Sound :
      (js : List Json) (s : Store)
      → (reseal_each h js s).0 ≡ ok tt
      → Sound h s
      → Sound h (reseal_each h js s).1
  unfolding reseal_each
  reseal_each-Sound [] s e sound = sound
  reseal_each-Sound (j ∷ js) s e sound =
      continue-returned (Sound h) (event_of h j) (λ ev. append_apply h ev >> reseal_each h js) s e
        (λ ev at rest. rw (append_apply_run ev s) (
          continue-returned (Sound h) (apply (record_of ev s) ev.op s.objects_by_id).0
            (λ _. reseal_each h js) (appended ev s) (rw (append_apply_run ev s) at rest)
            (λ u ran more.
              reseal_each-Sound js (appended ev s) more
                (emitted-Sound h (sender ev) ev.op ev.ts ev.payload s ran sound))))

  persist_all_run :
      (rs : List LedgerRecord) (s : Store)
      → persist_all rs s ≡ (ok tt, record s { ledger = s.ledger ++ rs })
  unfolding persist_all persist_record
  persist_all_run [] s = λ i. (ok tt, record s { ledger = sym (append-nil s.ledger) i })
  persist_all_run (r ∷ rs) s = persist_all_run rs (record s { ledger = s.ledger ++ r ∷ [] }) ∙ λ i.
      (ok tt, record s { ledger = append_assoc s.ledger (r ∷ []) rs i })

  -- The store after the records are kept and those that are read are projected.
  abbrev pub kept : List LedgerRecord → Store → Store
  kept rs s = record s {
    ledger = s.ledger ++ rs;
    objects_by_id = (apply_all (read_events 0 (record s { ledger = s.ledger ++ rs })) []).1;
  }

  pub keep_records_run :
      (rs : List LedgerRecord) (s : Store)
      → keep_records h rs s
        ≡ ((apply_all (read_events 0 (record s { ledger = s.ledger ++ rs })) []).0, kept rs s)
  unfolding keep_records clear_projection read_events
  keep_records_run rs s = rw (persist_all_run rs s) refl

  pub keep_records-Grown : (rs : List LedgerRecord) (s : Store) → Grown s (keep_records h rs s).1
  keep_records-Grown rs s =
      rw (keep_records_run rs s)
        (record { depth = refl; snap_ledger = refl; snap_objects = refl; grown = (rs, refl) })

  pub keep_records-Sound :
      (rs : List LedgerRecord) (last : String) (s : Store)
      → s.ledger ≡ []
      → Chain h genesis_hash 1 rs last
      → (keep_records h rs s).0 ≡ ok tt
      → Sound h (keep_records h rs s).1
  unfolding read_events
  keep_records-Sound rs last s empty chain e =
      let all_read : filter (λ r. ltb 0 r.seq) (s.ledger ++ rs) ≡ rs =
        ap (λ l. filter (λ (r : LedgerRecord). ltb 0 r.seq) (l ++ rs)) empty
        ∙ read_all h rs genesis_hash last 1 (omega arith) chain in
      let same : filter (λ r. ltb 0 r.seq) (s.ledger ++ rs) ≡ s.ledger ++ rs =
        all_read ∙ sym (ap (λ (l : List LedgerRecord). l ++ rs) empty) in
      let ran : (apply_all (filter (λ r. ltb 0 r.seq) (s.ledger ++ rs)) []).0 ≡ ok tt =
        rw (keep_records_run rs s) at e in
      rw (keep_records_run rs s) (record {
        chained = (last, rw empty chain);
        projected = ap (λ l. apply_all l []) (sym same) ∙ λ i.
            (ran i, (apply_all (filter (λ r. ltb 0 r.seq) (s.ledger ++ rs)) []).1);
      })
