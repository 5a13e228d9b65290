-- ===== src/Network.antt =====
-- src/infrastructure/network: the parts of the networks that decide something themselves.
pub mod Allocator
pub mod Batcher
pub mod Acl
pub mod Content
