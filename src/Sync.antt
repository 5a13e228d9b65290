-- ===== src/Sync.antt =====
-- src/domain/ctxsync: vector clocks, the bounded log of deltas, and the manager that exchanges the
-- deltas of a node with its peers'.
pub mod Clock
pub mod Delta
pub mod Manager
pub mod Recovery
mod Examples
