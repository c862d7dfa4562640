-- ===== src/Core/Frame/Sound.antt =====
-- What the parser accepts is a well-formed frame.
use vectorseam.Base.{
  length-append, ℕ, ◌+◌, ◌-◌, ◌≤◌, ◌≡◌, ◌∙◌, sym, ap, ◌++◌, arith, length, drop, take, slice, Bytes,
  AreBytes, some, ok, true, bytes_eq, take-append-drop, drop-drop, length-take, length-drop, ap₂,
  subst, bytes_eq→≡,
}
use vectorseam.Core.Endian.{to_le_bytes}
use vectorseam.Core.Binary.{read_u32_le-append, read_u32_le, read_u32_le-eq-ok}
use vectorseam.Core.Utf8.{from_utf8, from_utf8-eq-some}
use vectorseam.Core.Frame.{FrameHeader, parse_frame_header, total_frame_len, frame_magic}
use vectorseam.Core.Frame.Encode.{encode, IsFrame}

-- The tests that an accepted buffer has passed.
record Passed (buffer : Bytes) (h : FrameHeader) : Type 0 where
  total : length buffer ≡ h.frame_len + 4
  parts : h.frame_len ≡ 24 + h.name_len + h.vector_len
  magic : bytes_eq (slice buffer 4 8) frame_magic ≡ true
  word_frame_len : read_u32_le buffer 0 ≡ ok h.frame_len
  word_version : read_u32_le buffer 8 ≡ ok 1
  word_dtype : read_u32_le buffer 12 ≡ ok h.dtype
  word_name_len : read_u32_le buffer 16 ≡ ok h.name_len
  word_dimension : read_u32_le buffer 20 ≡ ok h.dimension
  word_vector_len : read_u32_le buffer 24 ≡ ok h.vector_len
  name : from_utf8 (slice buffer 28 (28 + h.name_len)) ≡ some h.name

parse-Passed :
    (buffer : Bytes) (h : FrameHeader) → parse_frame_header buffer ≡ ok h → Passed buffer h
unfolding parse_frame_header
parse-Passed buffer h e = ground arith

module _ (buffer : Bytes) (h : FrameHeader) (b : AreBytes buffer) (p : Passed buffer h) where
  vector : Bytes
  vector = drop (28 + h.name_len) buffer

  word :
      (offset n : ℕ)
      → read_u32_le buffer offset ≡ ok n
      → drop offset buffer ≡ to_le_bytes 4 n ++ drop (offset + 4) buffer
  word offset n e = (read_u32_le-eq-ok buffer offset n b e).0

  magic_word : drop 4 buffer ≡ frame_magic ++ drop 8 buffer
  magic_word =
      sym (take-append-drop 4 (drop 4 buffer))
      ∙ ap₂ ◌++◌ (bytes_eq→≡ (slice buffer 4 8) frame_magic p.magic) (drop-drop 4 4 buffer)

  name_bytes : slice buffer 28 (28 + h.name_len) ≡ h.name
  name_bytes = sym (from_utf8-eq-some (slice buffer 28 (28 + h.name_len)) p.name)

  name_word : drop 28 buffer ≡ h.name ++ vector
  unfolding vector
  name_word =
      sym (take-append-drop h.name_len (drop 28 buffer))
      ∙ ap₂ ◌++◌ (ap (λ k. take k (drop 28 buffer)) (omega arith) ∙ name_bytes)
          (drop-drop 28 h.name_len buffer)

  buffer-eq-encode : buffer ≡ encode h vector
  unfolding encode
  buffer-eq-encode =
      word 0 h.frame_len p.word_frame_len
      ∙ ap (◌++◌ (to_le_bytes 4 h.frame_len)) (
          magic_word
          ∙ ap (◌++◌ frame_magic) (
              word 8 1 p.word_version
              ∙ ap (◌++◌ (to_le_bytes 4 1)) (
                  word 12 h.dtype p.word_dtype
                  ∙ ap (◌++◌ (to_le_bytes 4 h.dtype)) (
                      word 16 h.name_len p.word_name_len
                      ∙ ap (◌++◌ (to_le_bytes 4 h.name_len)) (
                          word 20 h.dimension p.word_dimension
                          ∙ ap (◌++◌ (to_le_bytes 4 h.dimension)) (
                              word 24 h.vector_len p.word_vector_len
                              ∙ ap (◌++◌ (to_le_bytes 4 h.vector_len)) name_word))))))

  header-IsFrame : IsFrame h vector
  unfolding vector
  header-IsFrame = record {
    frame_len = p.parts;
    fits = (read_u32_le-eq-ok buffer 0 h.frame_len b p.word_frame_len).1;
    dtype = (read_u32_le-eq-ok buffer 12 h.dtype b p.word_dtype).1;
    dimension = (read_u32_le-eq-ok buffer 20 h.dimension b p.word_dimension).1;
    name_len = omega (
      arith,
      p.total,
      p.parts,
      length-drop 28 buffer,
      ap length name_bytes,
      length-take (28 + h.name_len - 28) (drop 28 buffer),
    );
    vector_len = omega (arith, p.total, p.parts, length-drop (28 + h.name_len) buffer);
    name = subst (λ s. from_utf8 s ≡ some h.name) name_bytes p.name;
  }

-- A buffer of bytes that the parser accepts is, byte for byte, the encoding of a well-formed frame
-- with the header that it returns and the vector that follows the name.
pub parse_frame_header_sound :
    (buffer : Bytes) (h : FrameHeader)
    → AreBytes buffer
    → parse_frame_header buffer ≡ ok h
    → IsFrame h (drop (28 + h.name_len) buffer)
      × (buffer ≡ encode h (drop (28 + h.name_len) buffer))
unfolding vector
parse_frame_header_sound buffer h b e =
    let p = parse-Passed buffer h e in (header-IsFrame buffer h b p, buffer-eq-encode buffer h b p)

-- On a buffer that parses, the length prefix alone gives the length of the whole buffer.
pub total_frame_len-parse :
    (buffer : Bytes) (h : FrameHeader)
    → parse_frame_header buffer ≡ ok h
    → total_frame_len buffer ≡ ok (length buffer)
unfolding parse_frame_header total_frame_len
total_frame_len-parse buffer h e = ground arith

parsed_length :
    (buffer : Bytes) (h : FrameHeader) → parse_frame_header buffer ≡ ok h → 28 ≤ length buffer
unfolding parse_frame_header
parsed_length buffer h e = ground arith

-- So too where more bytes follow.
pub total_frame_len-append :
    (buffer rest : Bytes) (h : FrameHeader)
    → parse_frame_header buffer ≡ ok h
    → total_frame_len (buffer ++ rest) ≡ ok (length buffer)
total_frame_len-append buffer rest h e = front ∙ total_frame_len-parse buffer h e
  where
    long : 28 ≤ length buffer
    long = parsed_length buffer h e

    front : total_frame_len (buffer ++ rest) ≡ total_frame_len buffer
    front =
        unfold total_frame_len in
        ground (
          arith,
          long,
          length-append buffer rest,
          read_u32_le-append buffer rest (omega (arith, long)),
        )

-- A length that is read counts at least the prefix itself.
pub total_frame_len_bounds :
    (buffer : Bytes) {n : ℕ} → total_frame_len buffer ≡ ok n → (4 ≤ n) × (4 ≤ length buffer)
unfolding total_frame_len
total_frame_len_bounds buffer h = ground arith
