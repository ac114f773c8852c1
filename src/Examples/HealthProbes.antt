-- ===== src/Examples/HealthProbes.antt =====
-- A probe that arrives in pieces while the proxy shuts down.
use protect.Health.{
  timed_out, closed, ok_response, unavailable_response, not_found_response, has_crlf, is_read,
  read_loop, first_line, second_word, path_of, response_to, handle_connection,
}
use protect.Health.Answers.{Answer}
use protect.Health.Probes.{KeepsAscii, handle_connection-line}
use protect.Ldap.Text.{Unicode, from_utf8_lossy}
use protect.Prelude.{ℕ, false, err, ◌≡◌, refl, true, [], ◌∷◌, List, Text, text_eq, codes, ok, arith}

program : Unit {0}
unfolding from_utf8_lossy ok_response unavailable_response not_found_response has_crlf is_read
    read_loop first_line second_word path_of response_to handle_connection text_eq
program = tt

abbrev lenient : Unicode
lenient = record {
  lowercase = λ s. s;
  trim = λ s. s;
  is_utf8 = λ s. true;
  from_utf8_lossy = λ s. s;
}

lenient-KeepsAscii : KeepsAscii lenient
unfolding from_utf8_lossy
lenient-KeepsAscii ascii bytes h = ground arith

abbrev pieces : List (ℕ × Text)
pieces =
    (0, codes "GET /rea")
    ∷ (1, codes "dyz HTTP/1.1")
    ∷ (4_000, 13 ∷ [])
    ∷ (5_000, 10 ∷ 200 ∷ [])
    ∷ []

handle_connection-line_example :
    (response : Text) × (handle_connection lenient (λ line. line) pieces closed true ≡ ok response)
    × Answer true (codes "/readyz") response
handle_connection-line_example =
    handle_connection-line lenient (λ line. line) lenient-KeepsAscii pieces closed true
      (codes "GET") (codes "/readyz") (codes "HTTP/1.1") (200 ∷ [])
      (
        (omega arith, λ e. ground arith),
        (
          (omega arith, λ e. ground arith),
          ((omega arith, λ e. ground arith), ((omega arith, λ e. ground arith), tt)),
        ),
      )
      refl (refl, (refl, (refl, tt))) (refl, (refl, (refl, (refl, (refl, (refl, (refl, tt)))))))
      (omega arith) refl (omega arith)

-- The end of the line comes too late.
too_slow :
    handle_connection lenient
      (λ line. line)
      ((0, codes "GET /readyz HTTP/1.1") ∷ (5_001, 13 ∷ 10 ∷ []) ∷ [])
      closed
      false
    ≡ err timed_out
unfolding program
too_slow = refl

answered : handle_connection lenient (λ line. line) pieces closed true ≡ ok unavailable_response
unfolding program
answered = refl
