-- ===== src/Lock.antt =====
-- src/domain/lock: semantic locks over line ranges of files, their store, and the protocol by
-- which agents of a cluster announce, acquire, renew, release and negotiate them.
pub mod Target
pub mod Semantic
pub mod Store
pub mod Limiter
pub mod Negotiator
pub mod Recovery
pub mod Service
mod Examples
