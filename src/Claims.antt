-- ===== src/Claims.antt =====
-- claims/belief.py and claims/policy.py.
pub mod Belief
pub mod Policy
