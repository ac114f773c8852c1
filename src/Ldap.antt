-- ===== src/Ldap.antt =====
-- src/connector/ldap.rs
pub mod Text
pub mod Locks
pub mod Message
pub mod Dn
pub mod Requests
pub mod StartTls
pub mod Dialing
pub mod Frame
pub mod Upstream
