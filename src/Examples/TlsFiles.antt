-- ===== src/Examples/TlsFiles.antt =====
-- Settings of TLS, as in the tests of src/core/tls.rs: a listener with and without mutual TLS, a file without a key.
use protect.Prelude.{
  ℕ, ◌≡◌, refl, true, Option, none, some, List, [], ◌∷◌, Result, ok, err, Text, codes,
}
use protect.Tls.{
  KeyError, no_private_key, open_cert, no_items_found, Rustls, load_certs, load_key, add_all,
  client_roots_of, from_files,
}

unfoldable loads : Unit {0}
unfolding load_certs load_key add_all client_roots_of from_files
loads = tt

-- Every file is there but the one without a name; it holds one certificate, and a key unless it has one letter.
abbrev read : Text → Option Text
read [] = none
read (c ∷ cs) = some (c ∷ cs)

abbrev key_in : Text → Result ℕ KeyError
key_in [] = err no_items_found
key_in (c ∷ []) = err no_items_found
key_in (c ∷ d ∷ cs) = ok d

abbrev certs_in : Text → Option (List ℕ)
certs_in [] = none
certs_in (c ∷ cs) = some (c ∷ [])

abbrev rustls : Rustls ℕ ℕ
rustls = record {
  read_file = read;
  pem_certs = certs_in;
  pem_key = key_in;
  native_certs = [];
  adds = λ c. true;
  builds_verifier = λ cs. true;
  matches = λ cs k. true;
  is_server_name = λ s. true;
}

mutual_tls :
    from_files rustls (codes "a") (codes "ab") (some (codes "c"))
    ≡ ok (record { client_roots = some (99 ∷ []); certs = 97 ∷ []; key = 98 })
unfolding loads
mutual_tls = refl

asks_nobody :
    from_files rustls (codes "a") (codes "ab") none
    ≡ ok (record { client_roots = none; certs = 97 ∷ []; key = 98 })
unfolding loads
asks_nobody = refl

no_key : from_files rustls (codes "a") (codes "a") none ≡ err (no_private_key (codes "a"))
unfolding loads
no_key = refl

no_file : from_files rustls [] (codes "ab") none ≡ err (open_cert [])
unfolding loads
no_file = refl
