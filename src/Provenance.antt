-- ===== src/Provenance.antt =====
-- provenance/__init__.py and index/provenance.py: where an object comes from.
pub mod Refs
pub mod Index
pub mod Views
pub mod Explain
pub mod Leaves
pub mod Parity
