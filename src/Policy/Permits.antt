-- ===== src/Policy/Permits.antt =====
-- policy_decision_point.py: what a permit of the policy decision point rests on.
pub mod Decisions
pub mod Scans
pub mod Granted
pub mod Answers
