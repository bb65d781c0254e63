-- ===== src/Correctness.antt =====
-- The correctness sessions (correctness/manager.go, eval.go, definitions.go, types.go, state.go and
-- scope.go): a suite of cases that a peer is tested against, one active session at a time, kept in one
-- blob of a state store.
pub mod Types
pub mod Eval
pub mod Suite
pub mod Rebuild
pub mod NextStep
pub mod Manager
pub mod Persist
pub mod Scope
pub mod Blobs
