-- ===== src/Core.antt =====
-- src/core: the types that every part shares.
pub mod Action
pub mod Identity
pub mod Connector
pub mod Net
