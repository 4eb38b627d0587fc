-- ===== src/Run.antt =====
-- How a test's outcome gets from the child process to the parent: np/types.hxx, np/event.hxx and
-- .cxx, np/proxy_listener.cxx, np/child.cxx; and the assignments of a test's parameters, np/testnode.cxx.
pub mod Types
pub mod Event
pub mod Proxy
pub mod Child
pub mod Assignment
pub mod TestCode
pub mod Runner
