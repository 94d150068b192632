-- ===== src/Engine/Transfer.antt =====
-- core/__init__.py: the export of a ledger, and its import.
pub mod Records
pub mod Import
pub mod Export
