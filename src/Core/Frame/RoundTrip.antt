-- ===== src/Core/Frame/RoundTrip.antt =====
-- Every well-formed frame is read back.
use vectorseam.Base.{
  ℕ, ◌+◌, ◌-◌, ◌≤◌, ◌≡◌, refl, ◌++◌, arith, length, drop, slice, Bytes, u32_max, ok, true, bytes_eq,
  take-append,
}
use vectorseam.Core.Endian.{to_le_bytes}
use vectorseam.Core.Binary.{read_u32_le, read_u32_at}
use vectorseam.Core.Frame.{FrameHeader, parse_frame_header, frame_magic}
use vectorseam.Core.Frame.Encode.{encode, IsFrame, length-encode}

module _ (h : FrameHeader) (vector : Bytes) (v : IsFrame h vector) where
  total : length (encode h vector) ≡ h.frame_len + 4
  total = omega (arith, length-encode h vector)

  read_word :
      (offset n : ℕ) (rest : Bytes)
      → drop offset (encode h vector) ≡ to_le_bytes 4 n ++ rest
      → n ≤ u32_max
      → read_u32_le (encode h vector) offset ≡ ok n
  read_word offset n rest e l =
      read_u32_at (encode h vector) rest offset n (omega (arith, total)) e l

  magic_matches : bytes_eq (slice (encode h vector) 4 8) frame_magic ≡ true
  unfolding encode bytes_eq
  magic_matches = refl

  name_slice : slice (encode h vector) 28 (28 + h.name_len) ≡ h.name
  unfolding encode
  name_slice = take-append (28 + h.name_len - 28) h.name vector (omega arith)

  word_frame_len : read_u32_le (encode h vector) 0 ≡ ok h.frame_len
  unfolding encode
  word_frame_len = read_word 0 h.frame_len _ refl v.fits

  word_version : read_u32_le (encode h vector) 8 ≡ ok 1
  unfolding encode
  word_version = read_word 8 1 _ refl (omega arith)

  word_dtype : read_u32_le (encode h vector) 12 ≡ ok h.dtype
  unfolding encode
  word_dtype = read_word 12 h.dtype _ refl v.dtype

  word_name_len : read_u32_le (encode h vector) 16 ≡ ok h.name_len
  unfolding encode
  word_name_len = read_word 16 h.name_len _ refl (omega arith)

  word_dimension : read_u32_le (encode h vector) 20 ≡ ok h.dimension
  unfolding encode
  word_dimension = read_word 20 h.dimension _ refl v.dimension

  word_vector_len : read_u32_le (encode h vector) 24 ≡ ok h.vector_len
  unfolding encode
  word_vector_len = read_word 24 h.vector_len _ refl (omega arith)

  -- Parsing the encoding of a well-formed frame gives its header.
  pub parse_frame_header-encode : parse_frame_header (encode h vector) ≡ ok h
  unfolding parse_frame_header
  parse_frame_header-encode = ground (
    arith, total, magic_matches, name_slice, word_frame_len, word_version, word_dtype,
    word_name_len, word_dimension, word_vector_len, v.name,
  )
