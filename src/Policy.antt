-- ===== src/Policy.antt =====
-- calvin/utilities/authorization: the policy decision point. Its policies come from files, and are
-- a parameter here; so are the language's regular expressions and its order on values.
pub mod Matching
pub mod Condition
pub mod Decision
pub mod Permits
