-- ===== src/Health/Probes.antt =====
-- A probe is answered however its request arrives (src/core/health.rs, `handle_connection`).
use protect.Health.{buffer_len, Ending, first_line, path_of, response_to, handle_connection}
use protect.Ldap.Text.{Unicode, is_ascii, from_utf8_lossy}
use protect.Prelude.{
  text_equality, ℕ, ◌+◌, ◌≤◌, ◌≡◌, inr, refl, sym, ap, ◌∙◌, Bool, true, List, [], ◌∷◌, ◌++◌,
  append_assoc, length, Text, ok, arith,
}
use protect.Health.Reading.{joined, InTime, IsLine, request, first_line-request, read_loop_lem}
use protect.Health.Answers.{IsWord, request_line, second_word_lem, Answer, response_to-Answer}

is_ascii-ended : (line : Text) → is_ascii line ≡ true → is_ascii (line ++ (13 ∷ 10 ∷ [])) ≡ true
is_ascii-ended [] h = refl
is_ascii-ended (b ∷ line) h = ground (arith, is_ascii-ended line)

-- ASCII at the front of a text is decoded as it is.
abbrev pub KeepsAscii : Unicode → Type 0
KeepsAscii unicode =
    (ascii bytes : Text)
    → is_ascii ascii ≡ true
    → from_utf8_lossy unicode (ascii ++ bytes) ≡ ascii ++ from_utf8_lossy unicode bytes

first_line-decoded :
    (unicode : Unicode) (line rest : Text)
    → KeepsAscii unicode
    → IsLine line
    → is_ascii line ≡ true
    → first_line (from_utf8_lossy unicode (request line rest)) ≡ line
first_line-decoded unicode line rest keeps one_line ascii =
    let ended = line ++ (13 ∷ 10 ∷ []) in
    ap (λ t. first_line (from_utf8_lossy unicode t)) (sym (append_assoc line (13 ∷ 10 ∷ []) rest))
    ∙ (ap first_line (
          keeps ended rest (is_ascii-ended line ascii)
          ∙ append_assoc line (13 ∷ 10 ∷ []) (from_utf8_lossy unicode rest))
        ∙ first_line-request line (from_utf8_lossy unicode rest) one_line)

-- If a probe sends a request line in ASCII of at most 510 bytes, that is a method, a path and a version, and the end
-- of that line, and each read finds something within 5 seconds, then however the bytes are split, whatever follows
-- them and however the connection ends, it is told what there is to say of the path: 200 for /healthz, 200 or,
-- while the process shuts down, 503 for /readyz, and else 404. The decoding is assumed to leave ASCII at the
-- front of a text as it is.
pub handle_connection-line :
    (unicode : Unicode) (unicode_word : Text → Text)
    → KeepsAscii unicode
    → (segments : List (ℕ × Text)) (ending : Ending) (shutdown : Bool)
      (method path version rest : Text)
    → InTime segments
    → joined segments ≡ request_line method path version ++ (13 ∷ 10 ∷ rest)
    → IsWord method
    → IsWord path
    → IsLine (request_line method path version)
    → is_ascii (request_line method path version) ≡ true
    → length (request_line method path version) + 2 ≤ buffer_len
    → (response : Text) × (handle_connection unicode unicode_word segments ending shutdown
        ≡ ok response)
      × Answer shutdown path response
unfolding handle_connection path_of
handle_connection-line unicode unicode_word keeps segments ending shutdown method path version rest
      all e m p one_line ascii short =
    let line = request_line method path version in
    let (rest', same) =
      read_loop_lem line rest one_line short [] (joined segments) segments ending
        (record { split = e; fits = omega arith; follows = inr refl }) all in
    (
      response_to shutdown path,
      rw same (
          rw (first_line-decoded unicode line rest' keeps one_line ascii)
            (rw (ascii, second_word_lem method path version m p) refl)),
      response_to-Answer shutdown path,
    )
