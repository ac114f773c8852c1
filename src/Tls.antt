-- ===== src/Tls.antt =====
-- src/core/tls.rs: the settings of TLS that are made of files. Opening a file, what stands in it, and what the crate
-- rustls accepts are of the interface Rustls. A handshake is not modelled.
pub mod Trust
use protect.Prelude.{
  Bool, true, false, Option, none, some, List, [], ◌∷◌, ◌++◌, Result, ok, err, ◌>>=◌, Text,
  if◌then◌else◌,
}

pub data TlsError : Type 0 where
  open_cert parse_cert open_key parse_key no_private_key invalid_server_name : Text → TlsError
  add_custom_ca add_native_ca client_auth_cert add_client_ca client_cert_verifier server_config :
      TlsError

pub data KeyError : Type 0 where
  no_items_found other_error : KeyError

-- `C` are the certificates and `K` the private keys; nothing stands for an error.
pub record Rustls (C K : Type 0) : Type 0 where
  pub read_file : Text → Option Text
  pub pem_certs : Text → Option (List C)
  pub pem_key : Text → Result K KeyError
  pub native_certs : List C
  pub adds : C → Bool
  pub builds_verifier : List C → Bool
  pub matches : List C → K → Bool
  pub is_server_name : Text → Bool

-- Which certificate authorities a client must be signed by, if any, and what is shown to it.
pub record ListenTls (C K : Type 0) : Type 0 where
  pub client_roots : Option (List C)
  pub certs : List C
  pub key : K

pub record UpstreamTls (C K : Type 0) : Type 0 where
  pub roots : List C
  pub client_auth : Option (List C × K)
  pub server_name : Text

abbrev pub or_tls_error : {A : Type 0} → TlsError → Option A → Result A TlsError
or_tls_error e none = err e
or_tls_error e (some a) = ok a

abbrev pub require : TlsError → Bool → Result (Unit {0}) TlsError
require e true = ok tt
require e false = err e

abbrev pub key_or_error : {K : Type 0} → Text → Result K KeyError → Result K TlsError
key_or_error path (ok key) = ok key
key_or_error path (err no_items_found) = err (no_private_key path)
key_or_error path (err other_error) = err (parse_key path)

module _ {C K : Type 0} (rustls : Rustls C K) where
  unfoldable pub load_certs : Text → Result (List C) TlsError
  load_certs path = do
    file ← or_tls_error (open_cert path) (rustls.read_file path)
    or_tls_error (parse_cert path) (rustls.pem_certs file)

  unfoldable pub load_key : Text → Result K TlsError
  load_key path = do
    file ← or_tls_error (open_key path) (rustls.read_file path)
    key_or_error path (rustls.pem_key file)

  -- The loop that adds certificates to the store of the roots.
  unfoldable pub add_all : TlsError → List C → List C → Result (List C) TlsError
  add_all e roots [] = ok roots
  add_all e roots (cert ∷ certs) =
      if rustls.adds cert then add_all e (roots ++ (cert ∷ [])) certs else err e

  unfoldable pub roots_of : Option Text → Result (List C) TlsError
  roots_of none = add_all add_native_ca [] rustls.native_certs
  roots_of (some path) = do certs ← load_certs path; add_all add_custom_ca [] certs

  unfoldable pub client_auth_of : Option (Text × Text) → Result (Option (List C × K)) TlsError
  client_auth_of none = ok none
  client_auth_of (some (cert_file, key_file)) = do
    certs ← load_certs cert_file
    key ← load_key key_file
    _ ← require client_auth_cert (rustls.matches certs key)
    ok (some (certs, key))

  -- `UpstreamTls::new`
  unfoldable pub new : Text → Option Text → Option (Text × Text) → Result (UpstreamTls C K) TlsError
  new server_name ca_file client_cert = do
    roots ← roots_of ca_file
    client_auth ← client_auth_of client_cert
    _ ← require (invalid_server_name server_name) (rustls.is_server_name server_name)
    ok (record { roots = roots; client_auth = client_auth; server_name = server_name })

  unfoldable pub client_roots_of : Option Text → Result (Option (List C)) TlsError
  client_roots_of none = ok none
  client_roots_of (some path) = do
    certs ← load_certs path
    roots ← add_all add_client_ca [] certs
    _ ← require client_cert_verifier (rustls.builds_verifier roots)
    ok (some roots)

  unfoldable pub from_files : Text → Text → Option Text → Result (ListenTls C K) TlsError
  from_files cert_file key_file client_ca_file = do
    certs ← load_certs cert_file
    key ← load_key key_file
    client_roots ← client_roots_of client_ca_file
    _ ← require server_config (rustls.matches certs key)
    ok (record { client_roots = client_roots; certs = certs; key = key })
