-- ===== src/Retrieval.antt =====
-- retrieval/__init__.py and index/text.py: the search.
pub mod Text
pub mod Score
pub mod Shown
pub mod Scan
