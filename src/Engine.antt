-- ===== src/Engine.antt =====
-- core/__init__.py: the engine, in its parts.
pub mod Base
pub mod Read
pub mod Change
pub mod Apply
pub mod Calls
pub mod Ingest
pub mod Facts
pub mod Placement
pub mod Collaboration
pub mod Graph
pub mod Consistent
pub mod Commit
pub mod Transfer
pub mod Query
pub mod Traverse
pub mod Look
pub mod Explain
pub mod Recall
pub mod Genealogy
pub mod Search
pub mod Request
