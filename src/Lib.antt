-- ===== src/Lib.antt =====
-- Epistemos keeps knowledge for agents: every change is an event, sealed into a hash-chained ledger
-- and then projected onto objects, and every read is decided by the principal's tenant and the
-- spaces that an object is placed in. Paths below start at src/epistemos/ of the repository.
--
-- The parts, each in the module of its name:
--
-- - Common: library names, Boolean tests, lists, sorting and texts.
-- - Result: errors.py, and the result of a call that may raise. Exec: such a call on a state.
-- - Json: JSON values; `dict` operations in Json/Dict.antt.
-- - Host: _util.py. The record Host holds the functions of Python's standard library that the code
--   relies on (canonical JSON text, SHA-256, str.strip, datetime, int, float and its addition, str,
--   lower, upper).
--   Nothing is assumed of them; each theorem holds for any host.
-- - Ledger: ledger/__init__.py. Op, Event, LedgerRecord, seal and verify_chain have the source's names;
--   the loop of verify_chain is verify_from. What a chain is stands in Ledger/Chain.antt, and what a
--   pinned head says in Ledger/Tamper.antt.
-- - Storage: storage/memory.py and storage/ports.py. Store is MemoryStore's state: the ledger, the
--   objects by id, the depth of nested transactions and the snapshots. `atomic` is the transaction:
--   the outermost one takes the snapshots, and rolls back when its body raises.
-- - Identity, Spaces, Authz: identity/, spaces/ and authz/. Authz/Readable.antt says as a relation who
--   may read an object.
-- - Model: model/__init__.py, and the dataclasses of claims/__init__.py. An instance is the dict of its
--   fields; `construct` is the call of the class with its `__post_init__`.
-- - Claims: claims/belief.py and claims/policy.py; Claims/Belief/Laws.antt has what reviews decide.
-- - Engine: core/__init__.py. Base has the argument checks, Read the guards and reads, Change what a
--   record does to one object, Apply `_apply` and `_emit`, Calls the envelope and transactions of
--   events, and Ingest, Facts, Graph, Placement and Collaboration the calls. A call's clock and its new
--   ids are in the record Call. Request is the type of the calls that change the store, `run` runs one,
--   Request/Keep.antt says what shape a call has, Request/Reach.antt has the stores that calls can reach,
--   Request/Signed.antt what a call adds to the ledger, Request/Isolated.antt where it writes, and
--   Request/Whole.antt that it is one transaction. Consistent and Commit have the invariant.
--   Apply/Laws.antt, Apply/Revoked.antt, Apply/Scope.antt, Apply/Writes.antt and Apply/Isolation.antt
--   say what one record does to the objects, and Placement/Monotone.antt what a promotion checks.
-- - Engine/Transfer: the export and the import of core/__init__.py. Records has the dict form of a
--   record and how it is read back, Import the two kinds of import, Export the whole and the scoped
--   export. Import/Handled.antt says what an import does to the store, Export/Whole.antt that a whole
--   export is imported unchanged, and Export/Scoped.antt what a scoped export holds.
-- - Schema: schema.py. `upgrade` is the loop of migrate_export, and Schema/Upgrade.antt shows that it
--   ends.
-- - Temporal: temporal/__init__.py. AsOf says which facts are kept, Order is the order of the ranks,
--   Current says which fact is picked, and Closing what closing a belief leaves.
-- - Engine/Query and Engine/Traverse: the temporal queries and the timeline of core/__init__.py, and
--   its neighbours and bounded traversal, whose edges are in Traverse/Edges.antt. The call's own clock is in Call; `utc` is what
--   datetime.now(UTC) gives.
-- - Engine/Look: get, claim_evidence, verify_integrity and the ledger's part of health, of
--   core/__init__.py.
-- - Engine/Recall and Engine/Genealogy: recall and explain_claim of core/__init__.py.
--   Recall/Latest.antt says which objects are recalled, and in which order.
-- - Provenance: provenance/__init__.py and index/provenance.py. Refs has the ids that a payload mentions,
--   Index the index, over the statements of its table as the record Table, Views the nodes of an
--   explanation and its dict, and Explain the walk, which passes on the set of the ids that it has seen.
--   Explain/Firewall.antt and Explain/Source.antt say what the nodes show, and Parity.antt what a rebuilt index answers.
-- - Retrieval: retrieval/__init__.py and index/text.py. Text has the terms, Score the components over an
--   arithmetic that is the record Floats, Shown one result, and Scan the two retrievers, whose results
--   Scan/Hits.antt, Scan/Indexed.antt and Scan/Ranked.antt describe.
-- - Engine/Explain and Engine/Search: explain and search of core/__init__.py. The indexes, which the
--   in-memory engine has not, are arguments. Explain/Authorized.antt and Search/Answers.antt say whose
--   objects are told of, and Search/Blind.antt that the others do not count.
-- - Context: context/builder.py. Describe has the intent of a query and what one object says, Collapse
--   what is folded, Pack the items and the token budget, and Build the envelope, made from the hits of Build/Hits.antt. The hits of the search
--   are an argument of `build`.
-- - Protocol: protocol/handles.py. The registry of an engine is an association list, and a token is the
--   call's new id.
-- - Tests: concrete runs.
--
-- Numbers are natural numbers; Python's integers do not overflow, and negative ones are a constructor
-- of Json. A float is the bit pattern of its double. One definition runs on fuel, the loop of
-- migrate_export: two rounds, and Schema/Upgrade.antt shows that they are enough. The other loops
-- recurse on lists, on the number of hops, or on the depth that is left of an explanation. The lock of the store is not modelled: calls run one
-- after another. A text's length is counted in code points, and in bytes where the code encodes it.
-- The canonical JSON text is a total function in Host: that it refuses NaN and infinities is in
-- metadata_arg, and is left out where an event is sealed and an object is put. Halving the token budget is
-- exact, where the code rounds a budget above 2 ** 53. An id that is a list or a dict is not found, where
-- the code raises TypeError.
--
-- Not modelled: SQLite storage and the full text index (statements that a library runs), the
-- rest of health and of the context protocol, and the HTTP, MCP and panel servers.
pub mod Common
pub mod Result
pub mod Exec
pub mod Json
pub mod Host
pub mod Ledger
pub mod Storage
pub mod Identity
pub mod Spaces
pub mod Authz
pub mod Model
pub mod Claims
pub mod Schema
pub mod Temporal
pub mod Provenance
pub mod Retrieval
pub mod Engine
pub mod Context
pub mod Protocol
pub mod Tests
