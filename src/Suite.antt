-- ===== src/Suite.antt =====
-- The tests as a tree, and the plans that run them: np/testnode.hxx and .cxx, np/plan.hxx and .cxx.
pub mod Tree
pub mod Plan
