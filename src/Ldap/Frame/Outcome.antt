-- ===== src/Ldap/Frame/Outcome.antt =====
-- Every outcome of `read_frame` (src/connector/ldap.rs).
use protect.Ldap.Frame.{
  IoError, unexpected_eof, other, Stream, FrameError, io, unsupported_length, too_long, read_exact,
  read_length, read_body, read_frame, after_tag, max_frame_content_len,
}
use protect.Ldap.Frame.Reading.{stream, read_exact-append, read_exact-cases, Takes, Takes-append}
use protect.Ldap.Frame.Format.{IsLength, IsFrame, read_frame-append, read_length-cases, Explains}
use protect.Prelude.{
  bind_ok, bind_err, ℕ, ◌⊎◌, ◌%◌, ◌≤◌, ◌<◌, ◌≡◌, refl, ap, sym, subst, ◌∙◌, Option, none, some,
  List, [], ◌∷◌, ◌++◌, Result, ok, err, ltb, arith, Bool-cases, All, inl, inr,
}

-- What an error says of the stream.
abbrev pub Reason : Stream → FrameError → Type 0
Reason s (io e) = e ≡ s.ending
Reason s (unsupported_length n) =
    (tag : ℕ) × (first : ℕ) × (rest : List ℕ) × (s.bytes ≡ tag ∷ first ∷ rest)
    × (128 ≤ first)
    × (n ≡ first % 128)
    × ((n ≡ 0) ⊎ (4 < n))
Reason s (too_long n) =
    (tag : ℕ) × (header : List ℕ) × (rest : List ℕ) × (s.bytes ≡ tag ∷ header ++ rest)
    × IsLength n header
    × (max_frame_content_len < n)

abbrev pub NoFrame : Stream → Type 0
NoFrame s = ¬ ((frame : List ℕ) × (rest : List ℕ) × IsFrame frame × (s.bytes ≡ frame ++ rest))

abbrev pub Outcome : Stream → Result (Option (List ℕ) × Stream) FrameError → Type 0
Outcome s (ok (none, s')) = (s.bytes ≡ []) × (s.ending ≡ unexpected_eof) × (s' ≡ s)
Outcome s (ok (some frame, s')) = IsFrame frame × Takes s frame s'
Outcome s (err e) = NoFrame s × Reason s e

err-NoFrame : (s : Stream) (e : FrameError) → read_frame s ≡ err e → NoFrame s
err-NoFrame s e p (frame, rest, f, split) =
    let q =
      ap (λ l. read_frame (stream l s.ending)) split ∙ read_frame-append frame rest s.ending f in
    absurd (cc)

-- The outcomes of the rest of a frame.
abbrev BodyCases : ℕ → Stream → Type 0
BodyCases tag s =
    ((frame : List ℕ) × (s' : Stream) × (read_body (tag ∷ []) s ≡ ok (some (tag ∷ frame), s'))
      × IsFrame (tag ∷ frame)
      × Takes s frame s')
    ⊎ ((e : FrameError) × (read_body (tag ∷ []) s ≡ err e)
        × Reason (stream (tag ∷ s.bytes) s.ending) e)

content_cases :
    (tag first n : ℕ) (bs : List ℕ) (s t u : Stream)
    → read_exact 1 s ≡ ok (first ∷ [], t)
    → Takes s (first ∷ []) t
    → read_length first t ≡ ok ((first ∷ bs, n), u)
    → IsLength n (first ∷ bs)
    → Takes t bs u
    → BodyCases tag s
unfolding read_body
content_cases tag first n bs s t u p takes q sized takes' =
    let header = Takes-append s t u (first ∷ []) bs takes takes' in
    elim (Bool-cases (ltb max_frame_content_len n)) [
      | inl big ↦ inr (
        too_long n,
        bind_ok _ p ∙ (bind_ok _ q ∙ rw big refl),
        (tag, first ∷ bs, u.bytes, ap (◌∷◌ tag) header.0, sized, ground arith),
      )
      | inr fits ↦ elim (read_exact-cases n u) [
        | inl (content, v, r, len, takes'') ↦ inl (
          (first ∷ bs) ++ content,
          v,
          bind_ok _ p ∙ (bind_ok _ q ∙ rw (fits, r) refl),
          record {
            tag = tag;
            header = first ∷ bs;
            content = content;
            small = ground arith;
            sized = subst (λ k. IsLength k (first ∷ bs)) (sym len) sized;
            joined = refl;
          },
          Takes-append s u v (first ∷ bs) content header takes'',
        )
        | inr (r, cut) ↦
            inr (io u.ending, bind_ok _ p ∙ (bind_ok _ q ∙ rw (fits, r) refl), header.1)
      ]
    ]

tagged :
    (tag : ℕ) (bs : List ℕ) (ending : IoError)
    → read_frame (stream (tag ∷ bs) ending) ≡ read_body (tag ∷ []) (stream bs ending)
unfolding read_frame
tagged tag bs ending = ap (after_tag _) (read_exact-append (tag ∷ []) bs ending)

explained :
    (tag first : ℕ) (bs : List ℕ) (ending : IoError) (e : FrameError)
    → Explains first (stream bs ending) e
    → Reason (stream (tag ∷ first ∷ bs) ending) e
explained tag first bs ending (io e) h = h
explained tag first bs ending (unsupported_length n) (big, eq, bad) =
    (tag, first, bs, refl, big, eq, bad)
explained tag first bs ending (too_long n) h = absurd h

body_cases :
    (tag : ℕ) (bytes : List ℕ) (ending : IoError)
    → All (λ b. b < 256) bytes
    → BodyCases tag (stream bytes ending)
unfolding read_body read_exact
body_cases tag [] ending all = inr (io ending, refl, refl)
body_cases tag (first ∷ bs) ending all =
    let p = read_exact-append (first ∷ []) bs ending in
    elim (read_length-cases first (stream bs ending) all.0) [
      | inl (cs, n, u, q, sized, takes) ↦
          content_cases tag first n cs (stream (first ∷ bs) ending) (stream bs ending) u p
            (refl, refl) q sized takes
      | inr (e, q, h) ↦ inr (e, bind_ok _ p ∙ bind_err _ q, explained tag first bs ending e h)
    ]

empty_case : (ending : IoError) → Outcome (stream [] ending) (read_frame (stream [] ending))
unfolding read_frame read_exact
empty_case unexpected_eof = (refl, refl, refl)
empty_case (other k) = (err-NoFrame (stream [] (other k)) (io (other k)) refl, refl)

-- Of a stream of bytes, `read_frame` takes the frame at its front, byte for byte and nothing more, or says
-- that the stream has ended cleanly before a tag, or fails for the reason given, and
-- then there is no whole frame of at most 16 MiB of content at the front.
pub read_frame-Outcome : (s : Stream) → All (λ b. b < 256) s.bytes → Outcome s (read_frame s)
read_frame-Outcome s all = outcome s.bytes s.ending all
  where
    outcome :
        (bytes : List ℕ) (ending : IoError)
        → All (λ b. b < 256) bytes
        → Outcome (stream bytes ending) (read_frame (stream bytes ending))
    outcome [] ending all = empty_case ending
    outcome (tag ∷ bs) ending all =
        let p = tagged tag bs ending in
        elim (body_cases tag bs ending all.1) [
          | inl (frame, s', q, f, takes) ↦
              subst (Outcome (stream (tag ∷ bs) ending)) (sym (p ∙ q))
                (f, (ap (◌∷◌ tag) takes.0, takes.1))
          | inr (e, q, h) ↦
              subst (Outcome (stream (tag ∷ bs) ending)) (sym (p ∙ q))
                (err-NoFrame (stream (tag ∷ bs) ending) e (p ∙ q), h)
        ]
