-- ===== src/Ldap/Frame/Format.antt =====
-- The format of a frame, by RFC 4511 section 5.1, as `read_frame` of src/connector/ldap.rs takes it: a tag, a
-- definite length in the short form or in one to four bytes, and the content.
use protect.Ldap.Frame.{
  IoError, Stream, FrameError, io, unsupported_length, too_long, from_be_bytes, read_length,
  read_body, read_frame, after_tag, max_frame_content_len,
}
use protect.Ldap.Frame.Reading.{
  stream, read_exact-append, read_exact-cases, Takes, from_be_bytes-padding,
}
use protect.Prelude.{
  bind_ok, ℕ, ◌⊎◌, ◌+◌, ◌-◌, ◌%◌, ◌≤◌, ◌<◌, ◌≡◌, refl, ap, sym, subst, ◌∙◌, true, false, ◌||◌, some,
  List, [], ◌∷◌, ◌++◌, ok, err, length, ltb, nat_eq, arith, Bool-cases, inl, inr, append_assoc,
}

-- The bytes of a length.
pub data IsLength : ℕ → List ℕ → Type 0 where
  short : (n : ℕ) → n < 128 → IsLength n (n ∷ [])
  long :
      (bs : List ℕ)
      → 0 < length bs
      → length bs ≤ 4
      → IsLength (from_be_bytes 0 bs) ((128 + length bs) ∷ bs)

pub record IsFrame (frame : List ℕ) : Type 0 where
  pub tag : ℕ
  pub header : List ℕ
  pub content : List ℕ
  pub small : length content ≤ max_frame_content_len
  pub sized : IsLength (length content) header
  pub joined : frame ≡ tag ∷ header ++ content

long_form :
    (k : ℕ)
    → 0 < k
    → k ≤ 4
    → (ltb (128 + k) 128 ≡ false) × ((128 + k) % 128 ≡ k) × ((nat_eq k 0 || ltb 4 k) ≡ false)
long_form k pos small = (ground arith, omega arith, ground arith)

-- A read of the bytes of a length, after the first.
read_length-IsLength :
    (n first : ℕ) (bs ys : List ℕ) (e : IoError)
    → IsLength n (first ∷ bs)
    → read_length first (stream (bs ++ ys) e) ≡ ok ((first ∷ bs, n), stream ys e)
unfolding read_length
read_length-IsLength n first bs ys e (short m h) =
    let small : ltb m 128 ≡ true = ground arith in rw small refl
read_length-IsLength n first bs ys e (long cs pos small) =
    let (big, num, fits) = long_form (length cs) pos small in
    rw (big, num, fits, read_exact-append cs ys e, from_be_bytes-padding (4 - length cs) cs) refl

-- The converse: what a read takes is the bytes of a length.
abbrev pub Explains : ℕ → Stream → FrameError → Type 0
Explains first s (io e) = e ≡ s.ending
Explains first s (unsupported_length n) = (128 ≤ first) × (n ≡ first % 128) × ((n ≡ 0) ⊎ (4 < n))
Explains first s (too_long n) = ⊥

long_length :
    (first : ℕ) (bs : List ℕ)
    → 128 ≤ first
    → first < 256
    → length bs ≡ first % 128
    → 0 < first % 128
    → first % 128 ≤ 4
    → IsLength (from_be_bytes 0 bs) (first ∷ bs)
long_length first bs big byte len pos small =
    subst (λ f. IsLength (from_be_bytes 0 bs) (f ∷ bs)) (omega arith)
      (long bs (omega arith) (omega arith))

abbrev pub LengthCases : ℕ → Stream → Type 0
LengthCases first s =
    ((bs : List ℕ) × (n : ℕ) × (s' : Stream) × (read_length first s ≡ ok ((first ∷ bs, n), s'))
      × IsLength n (first ∷ bs)
      × Takes s bs s')
    ⊎ ((e : FrameError) × (read_length first s ≡ err e) × Explains first s e)

long_cases :
    (first : ℕ) (s : Stream)
    → first < 256
    → ltb first 128 ≡ false
    → (nat_eq (first % 128) 0 || ltb 4 (first % 128)) ≡ false
    → LengthCases first s
unfolding read_length
long_cases first s byte big fits = elim (read_exact-cases (first % 128) s) [
  | inl (bs, s', p, len, takes) ↦ inl (
    bs,
    from_be_bytes 0 bs,
    s',
    rw (big, fits, p, from_be_bytes-padding (4 - first % 128) bs) refl,
    long_length first bs (ground arith) byte len (ground arith) (ground arith),
    takes,
  )
  | inr (p, cut) ↦ inr (io s.ending, rw (big, fits, p) refl, refl)
]

pub read_length-cases : (first : ℕ) (s : Stream) → first < 256 → LengthCases first s
unfolding read_length
read_length-cases first s byte = elim (Bool-cases (ltb first 128)) [
  | inl small ↦ inl ([], first, s, rw small refl, short first (ground arith), (refl, refl))
  | inr big ↦ elim (Bool-cases (nat_eq (first % 128) 0 || ltb 4 (first % 128))) [
    | inl bad ↦ inr (
      unsupported_length (first % 128),
      rw (big, bad) refl,
      (
        ground arith,
        refl,
        elim (Bool-cases (nat_eq (first % 128) 0)) [
          | inl z ↦ inl (ground arith)
          | inr nz ↦ inr (ground arith)
        ],
      ),
    )
    | inr fits ↦ long_cases first s byte big fits
  ]
]

IsLength-cons :
    {n : ℕ} {header : List ℕ}
    → IsLength n header
    → (first : ℕ) × (bs : List ℕ) × (header ≡ first ∷ bs)
IsLength-cons (short n h) = (n, [], refl)
IsLength-cons (long bs pos small) = (128 + length bs, bs, refl)

read_body-append :
    (tag first : ℕ) (bs content rest : List ℕ) (e : IoError)
    → length content ≤ max_frame_content_len
    → IsLength (length content) (first ∷ bs)
    → read_body (tag ∷ []) (stream ((first ∷ bs) ++ (content ++ rest)) e)
      ≡ ok (some (tag ∷ (first ∷ bs) ++ content), stream rest e)
unfolding read_body from_be_bytes
read_body-append tag first bs content rest e small sized =
    let fits : ltb max_frame_content_len (length content) ≡ false = ground arith in
    bind_ok _ (read_exact-append (first ∷ []) (bs ++ (content ++ rest)) e)
    ∙ (bind_ok _ (read_length-IsLength (length content) first bs (content ++ rest) e sized)
        ∙ rw (fits, read_exact-append content rest e) refl)

-- A frame of at most 16 MiB of content, its length in the short form or in the long form of at most four bytes, at
-- the front of a stream is read whole, and nothing after it.
pub read_frame-append :
    (frame rest : List ℕ) (e : IoError)
    → IsFrame frame
    → read_frame (stream (frame ++ rest) e) ≡ ok (some frame, stream rest e)
unfolding read_frame
read_frame-append frame rest e f =
    let (first, bs, h) = IsLength-cons f.sized in
    subst (λ l. read_frame (stream (l ++ rest) e) ≡ ok (some l, stream rest e))
      (sym (f.joined ∙ ap (λ l. f.tag ∷ l ++ f.content) h))
      (ap (after_tag _) (read_exact-append (f.tag ∷ []) ((first ∷ bs) ++ f.content ++ rest) e)
        ∙ (ap (λ l. read_body (f.tag ∷ []) (stream (first ∷ l) e)) (append_assoc bs f.content rest)
            ∙ read_body-append f.tag first bs f.content rest e f.small
                (subst (λ l. IsLength (length f.content) l) h f.sized)))
