-- ===== src/Examples/Upgrades.antt =====
-- StartTLS with a client, as in the tests of src/proxy.rs: a client that asks for it, one that does not, and bytes
-- that were sent ahead of the handshake.
use protect.Examples.Codecs.{codec}
use protect.Examples.Frames.{program, ascii, hash_one}
use protect.Core.Net.{MaybeTlsStream, plain, tls}
use protect.Ldap.Frame.{Stream, unexpected_eof}
use protect.Ldap.Frame.Reading.{stream}
use protect.Ldap.Requests.{ldap_connector}
use protect.Prelude.{
  if◌then◌else◌, nat_eq, ℕ, ◌≡◌, refl, true, false, Option, none, some, List, [], ◌∷◌, ok, err,
  arith,
}
use protect.Upgrade.{
  Network, timed_out, handshake, Accept, with_timeout, answer_upgrade, upgrade_on,
  maybe_upgrade_to_tls,
}
use protect.Upgrade.Taking.{Taken, maybe_upgrade_to_tls-Taken}

unfoldable upgrades : Unit {0}
unfolding with_timeout answer_upgrade upgrade_on maybe_upgrade_to_tls program
upgrades = tt

abbrev client_hello : List ℕ → Option (List ℕ)
client_hello [] = none
client_hello (b ∷ bytes) = if nat_eq b 22 then some (b ∷ bytes) else none

-- A handshake that takes what begins as a record of TLS, and has the bytes for its session.
abbrev handshakes : Accept (List ℕ)
handshakes s = client_hello s.bytes

abbrev swift : Network
swift = record { read_expires = false; write_expires = false; accept_expires = false; sends = true }

abbrev asking : List ℕ → MaybeTlsStream Stream (List ℕ)
asking bytes = plain (stream (3 ∷ 1 ∷ 0 ∷ bytes) unexpected_eof)

upgrades_client :
    maybe_upgrade_to_tls
      (ldap_connector ascii codec hash_one)
      swift
      (some handshakes)
      (asking (22 ∷ 3 ∷ []))
    ≡ ok (record { stream = tls (22 ∷ 3 ∷ []); first_frame = none; written = some (6 ∷ 1 ∷ []) })
unfolding upgrades
upgrades_client = refl

-- A bind in the clear behind the request is no frame of the session.
refuses_injection :
    maybe_upgrade_to_tls
      (ldap_connector ascii codec hash_one)
      swift
      (some handshakes)
      (asking (2 ∷ 1 ∷ 0 ∷ []))
    ≡ err handshake
unfolding upgrades
refuses_injection = refl

hands_on :
    maybe_upgrade_to_tls
      (ldap_connector ascii codec hash_one)
      swift
      (some handshakes)
      (plain (stream (4 ∷ 1 ∷ 0 ∷ 9 ∷ []) unexpected_eof))
    ≡ ok (record {
      stream = plain (stream (9 ∷ []) unexpected_eof);
      first_frame = some (4 ∷ 1 ∷ 0 ∷ []);
      written = none;
    })
unfolding upgrades
hands_on = refl

waits_no_longer :
    maybe_upgrade_to_tls
      (ldap_connector ascii codec hash_one)
      (record swift { read_expires = true })
      (some handshakes)
      (asking (22 ∷ []))
    ≡ err timed_out
unfolding upgrades
waits_no_longer = refl

maybe_upgrade_to_tls-Taken_example :
    Taken (ldap_connector ascii codec hash_one) swift (some handshakes) (asking (22 ∷ 3 ∷ [])) (
      maybe_upgrade_to_tls
        (ldap_connector ascii codec hash_one)
        swift
        (some handshakes)
        (asking (22 ∷ 3 ∷ [])))
maybe_upgrade_to_tls-Taken_example =
    maybe_upgrade_to_tls-Taken (ldap_connector ascii codec hash_one) swift (some handshakes)
      (asking (22 ∷ 3 ∷ []))
      (omega arith, (omega arith, (omega arith, (omega arith, (omega arith, tt)))))
