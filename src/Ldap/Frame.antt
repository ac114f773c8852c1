-- ===== src/Ldap/Frame.antt =====
-- `read_frame` of src/connector/ldap.rs. A stream is the bytes that will arrive on it and how it ends after
-- them; a read takes bytes off its front, however the network splits them.
pub mod Reading
pub mod Format
pub mod Outcome
use protect.Prelude.{
  ℕ, zero, suc, ◌+◌, ◌-◌, ◌*◌, ◌%◌, ◌≤◌, ◌<◌, ◌≡◌, Bool, ◌||◌, Option, none, some, List, [], ◌∷◌,
  ◌++◌, Result, ok, err, ◌>>=◌, length, take, drop, replicate, leb, ltb, nat_eq, if◌then◌else◌,
}

pub data IoError : Type 0 where
  unexpected_eof : IoError
  other : ℕ → IoError

pub record Stream : Type 0 where
  pub bytes : List ℕ
  pub ending : IoError

pub data FrameError : Type 0 where
  io : IoError → FrameError
  unsupported_length too_long : ℕ → FrameError

abbrev pub max_frame_content_len : ℕ
max_frame_content_len = 16 * 1024 * 1024

unfoldable pub read_exact : ℕ → Stream → Result (List ℕ × Stream) FrameError
read_exact n s =
    if leb n (length s.bytes)
    then ok (take n s.bytes, record s { bytes = drop n s.bytes })
    else err (io s.ending)

-- `u32::from_be_bytes`
unfoldable pub from_be_bytes : ℕ → List ℕ → ℕ
from_be_bytes n [] = n
from_be_bytes n (b ∷ bs) = from_be_bytes (n * 256 + b) bs

-- The bytes of the length and the length, from its first byte: `& 0x80` is `128 ≤`, `& 0x7f` is `% 128`.
unfoldable pub read_length : ℕ → Stream → Result ((List ℕ × ℕ) × Stream) FrameError
read_length first s =
    if ltb first 128
    then ok ((first ∷ [], first), s)
    else let num_bytes = first % 128 in
      if nat_eq num_bytes 0 || ltb 4 num_bytes then err (unsupported_length num_bytes) else do
        (bs, s') ← read_exact num_bytes s
        ok ((first ∷ bs, from_be_bytes 0 (replicate (4 - num_bytes) 0 ++ bs)), s')

-- Index 0 of a buffer of one byte, which is 0 before a read fills it.
abbrev pub first_of : List ℕ → ℕ
first_of [] = 0
first_of (b ∷ bs) = b

-- The rest of a frame with this tag.
unfoldable pub read_body : List ℕ → Stream → Result (Option (List ℕ) × Stream) FrameError
read_body tag s = do
  (buffer, s₁) ← read_exact 1 s
  ((header, content_len), s₂) ← read_length (first_of buffer) s₁
  if ltb max_frame_content_len content_len
      then err (too_long content_len)
      else do (content, s₃) ← read_exact content_len s₂; ok (some (tag ++ header ++ content), s₃)

-- Only the end of the stream before the tag is no error.
abbrev after_tag :
    Stream → Result (List ℕ × Stream) FrameError → Result (Option (List ℕ) × Stream) FrameError
after_tag s (err (io unexpected_eof)) = ok (none, s)
after_tag s (err e) = err e
after_tag s (ok (tag, s')) = read_body tag s'

unfoldable pub read_frame : Stream → Result (Option (List ℕ) × Stream) FrameError
read_frame s = after_tag s (read_exact 1 s)
