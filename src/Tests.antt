-- ===== src/Tests.antt =====
-- Concrete runs: the theorems applied at inputs that meet their hypotheses, and small tests.
mod Setup
mod Chains
mod Reads
mod Beliefs
mod Spaces
mod Runs
mod Envelopes
mod Times
mod Transfers
mod Graphs
mod Looks
mod Table
mod Lineage
mod Searches
mod Recalls
mod Genealogies
