-- ===== src/Health/Answers.antt =====
-- The path of a request line and the response to it (src/core/health.rs, `handle_connection`).
use protect.Health.{
  ok_response, unavailable_response, not_found_response, skip_spaces, skip_word, take_word,
  response_to, second_word,
}
use protect.Ldap.Text.{is_space}
use protect.Prelude.{
  codes, text_eq, text_eq_iff, text_equality, if◌then◌else◌, ◌≡◌, ◌≢◌, inl, inr, refl, sym, ap, ◌∙◌,
  subst, Bool, true, false, [], ◌∷◌, ◌++◌, Text, All, Bool-cases,
}

-- A word has a byte, and none of them is a space.
abbrev pub IsWord : Text → Type 0
IsWord [] = ⊥
IsWord (b ∷ w) = (is_space b ≡ false) × All (λ c. is_space c ≡ false) w

skip_word_lem :
    (w rest : Text) → All (λ c. is_space c ≡ false) w → skip_word (w ++ 32 ∷ rest) ≡ 32 ∷ rest
skip_word_lem [] rest h = refl
skip_word_lem (b ∷ w) rest h = rw h.0 (skip_word_lem w rest h.1)

take_word_lem : (w rest : Text) → All (λ c. is_space c ≡ false) w → take_word (w ++ 32 ∷ rest) ≡ w
take_word_lem [] rest h = refl
take_word_lem (b ∷ w) rest h = rw h.0 (ap (◌∷◌ b) (take_word_lem w rest h.1))

skip_spaces_lem : (w rest : Text) → IsWord w → skip_spaces (w ++ rest) ≡ w ++ rest
skip_spaces_lem [] rest h = absurd h
skip_spaces_lem (b ∷ w) rest h = rw h.0 refl

IsWord-All : (w : Text) → IsWord w → All (λ c. is_space c ≡ false) w
IsWord-All [] h = tt
IsWord-All (b ∷ w) h = h

-- A request line has the method, the path and the version, with one space between two of them.
abbrev pub request_line : Text → Text → Text → Text
request_line method path version = method ++ 32 ∷ (path ++ 32 ∷ version)

pub second_word_lem :
    (method path version : Text)
    → IsWord method
    → IsWord path
    → second_word (request_line method path version) ≡ path
unfolding second_word
second_word_lem method path version m p =
    ap (λ t. take_word (skip_spaces (skip_word t)))
      (skip_spaces_lem method (32 ∷ (path ++ 32 ∷ version)) m)
    ∙ (ap (λ t. take_word (skip_spaces t))
          (skip_word_lem method (path ++ 32 ∷ version) (IsWord-All method m))
        ∙ (ap take_word (skip_spaces_lem path (32 ∷ version) p)
            ∙ take_word_lem path version (IsWord-All path p)))

-- A response of HTTP/1.1 without a body.
abbrev pub reply : Text → Text
reply status =
    codes "HTTP/1.1 "
    ++ (status
        ++ (13
            ∷ 10
            ∷ (codes "content-length: 0"
                ++ (13 ∷ 10 ∷ (codes "connection: close" ++ (13 ∷ 10 ∷ 13 ∷ 10 ∷ []))))))

-- What a probe of a path is told: the process lives; it is ready unless it shuts down; there is nothing else.
pub data Answer (shutdown : Bool) : Text → Text → Type 0 where
  alive : Answer shutdown (codes "/healthz") (reply (codes "200 OK"))
  ready : shutdown ≡ false → Answer shutdown (codes "/readyz") (reply (codes "200 OK"))
  draining :
      shutdown ≡ true → Answer shutdown (codes "/readyz") (reply (codes "503 Service Unavailable"))
  unknown :
      {path : Text}
      → path ≢ codes "/healthz"
      → path ≢ codes "/readyz"
      → Answer shutdown path (reply (codes "404 Not Found"))

pub response_to-Answer :
    (shutdown : Bool) (path : Text) → Answer shutdown path (response_to shutdown path)
unfolding response_to ok_response unavailable_response not_found_response
response_to-Answer shutdown path = elim (Bool-cases (text_eq path (codes "/healthz"))) [
  | inl healthz ↦ rw healthz (
      subst (λ p. Answer shutdown p (reply (codes "200 OK")))
        (sym ((text_eq_iff path (codes "/healthz")).0 healthz)) alive)
  | inr other ↦ elim (Bool-cases (text_eq path (codes "/readyz"))) [
    | inl readyz ↦
        let e = sym ((text_eq_iff path (codes "/readyz")).0 readyz) in
        rw (other, readyz)
          (subst (λ p. Answer shutdown p (if shutdown then unavailable_response else ok_response)) e
            (readiness shutdown))
    | inr neither ↦
        rw (other, neither)
          (unknown (λ e. let t = (text_eq_iff path (codes "/healthz")).1 e in absurd (cc))
            (λ e. let t = (text_eq_iff path (codes "/readyz")).1 e in absurd (cc)))
  ]
]
  where
    readiness :
        (s : Bool) → Answer s (codes "/readyz") (if s then unavailable_response else ok_response)
    readiness true = draining refl
    readiness false = ready refl
