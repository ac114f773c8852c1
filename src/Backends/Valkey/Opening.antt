-- ===== src/Backends/Valkey/Opening.antt =====
-- `ValkeyStore::open` (src/core/policy/store/valkey.rs). The crate redis and the files are an interface.
use protect.Backends.Valkey.{ValkeyTlsConfig, ValkeyStore}
use protect.Prelude.{
  Bool, false, ◌&&◌, Option, none, some, not, is_some, if◌then◌else◌, Result, ok, err, ◌>>=◌, Text,
  codes,
}

pub record ValkeyAuthConfig : Type 0 where
  pub username : Option Text
  pub password : Option Text

-- What the crate redis makes of a URL, and the files that may be read: `Info` are the settings of a connection
-- and `Client` is a client.
pub record Redis (Info Client : Type 0) : Type 0 where
  pub parse : Text → Result Info Text
  pub set_username : Text → Info → Info
  pub set_password : Text → Info → Info
  pub open_client : Info → Result Client Text
  pub build_with_tls : Info → Option (Text × Text) → Option Text → Result Client Text
  pub read_file : Text → Result Text Text

unfoldable pub tls_is_default : ValkeyTlsConfig → Bool
tls_is_default tls =
    not (is_some tls.ca_file)
    && (not (is_some tls.client_cert_file) && not (is_some tls.client_key_file))

abbrev pub set_if : {A : Type 0} → Option Text → (Text → A → A) → A → A
set_if none set a = a
set_if (some value) set a = set value a

module _ {Info Client : Type 0} (redis : Redis Info Client) where
  unfoldable pub with_auth : ValkeyAuthConfig → Info → Info
  with_auth auth info =
      set_if auth.password redis.set_password (set_if auth.username redis.set_username info)

  abbrev pub read_optional : Option Text → Result (Option Text) Text
  read_optional none = ok none
  read_optional (some path) = redis.read_file path >>= (λ bytes. ok (some bytes))

  -- The certificate and its key, which come together or not at all.
  abbrev pub read_client_tls : Option Text → Option Text → Result (Option (Text × Text)) Text
  read_client_tls (some cert) (some key) =
      redis.read_file cert >>= (λ c. redis.read_file key >>= (λ k. ok (some (c, k))))
  read_client_tls none none = ok none
  read_client_tls (some cert) none =
      err (codes "client_cert_file and client_key_file must be set together")
  read_client_tls none (some key) =
      err (codes "client_cert_file and client_key_file must be set together")

  abbrev pub tls_client : Info → ValkeyTlsConfig → Result Client Text
  tls_client info tls = do
    root_cert ← read_optional tls.ca_file
    client_tls ← read_client_tls tls.client_cert_file tls.client_key_file
    redis.build_with_tls info client_tls root_cert

  -- The client, and the store with it.
  unfoldable pub open_store :
      Text → Text → ValkeyTlsConfig → ValkeyAuthConfig → Result (Client × ValkeyStore) Text
  open_store url key_prefix tls auth = do
    info ← redis.parse url
    client ←
        if tls_is_default tls
        then redis.open_client (with_auth auth info)
        else tls_client (with_auth auth info) tls
    ok (client, record { key_prefix = key_prefix; conn = false; member_seq = 0 })
