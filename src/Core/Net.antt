-- ===== src/Core/Net.antt =====
-- src/core/net.rs: a stream that may be one of TLS. Reading and writing go to the stream that it holds.
pub data MaybeTlsStream (S T : Type 0) : Type 0 where
  plain : S → MaybeTlsStream S T
  tls : T → MaybeTlsStream S T
