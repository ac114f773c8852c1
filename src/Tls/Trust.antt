-- ===== src/Tls/Trust.antt =====
-- Whom the settings of src/core/tls.rs trust.
use protect.Prelude.{
  bind_inverse, ◌≡◌, ap, sym, subst, ◌∙◌, Bool-cases, Option, none, some, List, [], ◌∷◌, ◌++◌,
  Result, ok, Text, inl, inr, append-nil, append_assoc,
}
use protect.Tls.{
  load_key, require, client_cert_verifier, client_auth_of, invalid_server_name, server_config,
  TlsError, add_custom_ca, add_native_ca, add_client_ca, Rustls, ListenTls, UpstreamTls,
  or_tls_error, load_certs, add_all, roots_of, new, client_roots_of, from_files,
}

or_tls_error-inverse :
    {A : Type 0} (e : TlsError) (o : Option A) (a : A) → or_tls_error e o ≡ ok a → o ≡ some a
or_tls_error-inverse e none a p = absurd (cc)
or_tls_error-inverse e (some b) a p = cc

-- What two results that are the same have in common.
ok-inverse :
    {A B : Type 0} (f : A → B) {a b : A} → ◌≡◌ {A = Result A TlsError} (ok a) (ok b) → f a ≡ f b
ok-inverse f p = ap f (cc)

module _ {C K : Type 0} (rustls : Rustls C K) where
  -- The certificates that stand in a file.
  abbrev pub StandIn : Text → List C → Type 0
  StandIn path certs =
      (file : Text) × (rustls.read_file path ≡ some file) × (rustls.pem_certs file ≡ some certs)

  -- A connecting client must show a certificate that one of those of the file has signed, if there is one.
  abbrev pub AsksClients : Option Text → Option (List C) → Type 0
  AsksClients none client_roots = client_roots ≡ none
  AsksClients (some path) client_roots =
      (certs : List C) × StandIn path certs × (client_roots ≡ some certs)

  -- A file of authorities takes the place of those of the system.
  abbrev pub Trusts : Option Text → List C → Type 0
  Trusts none roots = roots ≡ rustls.native_certs
  Trusts (some path) roots = StandIn path roots

  add_all-inverse :
      (e : TlsError) (roots certs out : List C)
      → add_all rustls e roots certs ≡ ok out
      → out ≡ roots ++ certs
  unfolding add_all
  add_all-inverse e roots [] out p = rw append-nil (cc)
  add_all-inverse e roots (cert ∷ certs) out p = elim (Bool-cases (rustls.adds cert)) [
    | inl adds ↦
        let q = rw adds at p in
        add_all-inverse e (roots ++ (cert ∷ [])) certs out q ∙ append_assoc roots (cert ∷ []) certs
    | inr refuses ↦ let q = rw refuses at p in absurd (cc)
  ]

  load_certs-StandIn :
      (path : Text) (certs : List C) → load_certs rustls path ≡ ok certs → StandIn path certs
  unfolding load_certs
  load_certs-StandIn path certs p =
      let (file, opened, q) = bind_inverse _ _ _ p in
      (file, or_tls_error-inverse _ _ _ opened, or_tls_error-inverse _ _ _ q)

  client_roots-AsksClients :
      (path : Option Text) (client_roots : Option (List C))
      → client_roots_of rustls path ≡ ok client_roots
      → AsksClients path client_roots
  unfolding client_roots_of
  client_roots-AsksClients none client_roots p = cc
  client_roots-AsksClients (some path) client_roots p =
      let (certs, loaded, p₁) = bind_inverse _ _ _ p in
      let (roots, added, p₂) = bind_inverse _ _ _ p₁ in
      let (u, builds, p₃) =
        bind_inverse {A = Unit {0}} (require client_cert_verifier (rustls.builds_verifier roots))
          (λ _. ok (some roots)) client_roots p₂ in
      let same : roots ≡ certs = add_all-inverse add_client_ca [] certs roots added in
      (certs, load_certs-StandIn path certs loaded, sym (ok-inverse (λ r. r) p₃) ∙ ap some same)

  roots-Trusts :
      (path : Option Text) (roots : List C) → roots_of rustls path ≡ ok roots → Trusts path roots
  unfolding roots_of
  roots-Trusts none roots p = add_all-inverse add_native_ca [] rustls.native_certs roots p
  roots-Trusts (some path) roots p =
      let (certs, loaded, p₁) = bind_inverse _ _ _ p in
      let same : roots ≡ certs = add_all-inverse add_custom_ca [] certs roots p₁ in
      subst (StandIn path) (sym same) (load_certs-StandIn path certs loaded)

  -- If `from_files` gives the settings of a listener, it asks clients for a certificate exactly if a file of
  -- authorities is given, and trusts those of that file and no other.
  pub from_files-AsksClients :
      (cert_file key_file : Text) (client_ca_file : Option Text) (tls : ListenTls C K)
      → from_files rustls cert_file key_file client_ca_file ≡ ok tls
      → AsksClients client_ca_file tls.client_roots
  unfolding from_files
  from_files-AsksClients cert_file key_file client_ca_file tls p =
      let (certs, loaded, p₁) = bind_inverse (load_certs rustls cert_file) _ _ p in
      let (key, keyed, p₂) = bind_inverse (load_key rustls key_file) _ _ p₁ in
      let (client_roots, found, p₃) = bind_inverse (client_roots_of rustls client_ca_file) _ _ p₂ in
      let (u, fits, p₄) = bind_inverse (require server_config (rustls.matches certs key)) _ _ p₃ in
      subst (AsksClients client_ca_file) (ok-inverse (λ (t : ListenTls C K). t.client_roots) p₄)
        (client_roots-AsksClients client_ca_file client_roots found)

  -- If `new` gives settings, they trust the authorities of the file that is given and no other, or those of the
  -- system if none is.
  pub new-Trusts :
      (server_name : Text) (ca_file : Option Text) (client_cert : Option (Text × Text))
      (tls : UpstreamTls C K)
      → new rustls server_name ca_file client_cert ≡ ok tls
      → Trusts ca_file tls.roots
  unfolding new
  new-Trusts server_name ca_file client_cert tls p =
      let (roots, found, p₁) = bind_inverse (roots_of rustls ca_file) _ _ p in
      let (client_auth, shown, p₂) = bind_inverse (client_auth_of rustls client_cert) _ _ p₁ in
      let (u, named, p₃) =
        bind_inverse (require (invalid_server_name server_name) (rustls.is_server_name server_name))
          _ _ p₂ in
      subst (Trusts ca_file) (ok-inverse (λ (t : UpstreamTls C K). t.roots) p₃)
        (roots-Trusts ca_file roots found)
