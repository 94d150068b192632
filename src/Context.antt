-- ===== src/Context.antt =====
-- context/builder.py: the context envelope, built from what the search returned. The search itself is
-- not modelled: its hits are an argument.
pub mod Describe
pub mod Collapse
pub mod Pack
pub mod Build
