-- ===== src/Core/Frame/Encode.antt =====
-- The frame layout that the protocol describes, as an encoder: the independent side of the theorems
-- about `parse_frame_header`.
use vectorseam.Base.{ℕ, ◌+◌, ◌≤◌, ◌≡◌, ◌++◌, arith, length, length-append, Bytes, u32_max, some}
use vectorseam.Core.Endian.{to_le_bytes}
use vectorseam.Core.Utf8.{from_utf8}
use vectorseam.Core.Frame.{FrameHeader, frame_magic, frame_version}

-- The header of a frame over a name and a vector.
abbrev pub header_of : ℕ → ℕ → Bytes → Bytes → FrameHeader
header_of dtype dimension name vector = record {
  frame_len = 24 + length name + length vector;
  dtype = dtype;
  name_len = length name;
  dimension = dimension;
  vector_len = length vector;
  name = name;
}

-- The bytes of a frame: seven little-endian words, the name, the vector.
unfoldable pub encode : FrameHeader → Bytes → Bytes
encode h vector =
    to_le_bytes 4 h.frame_len
    ++ (frame_magic
        ++ (to_le_bytes 4 frame_version
            ++ (to_le_bytes 4 h.dtype
                ++ (to_le_bytes 4 h.name_len
                    ++ (to_le_bytes 4 h.dimension
                        ++ (to_le_bytes 4 h.vector_len ++ (h.name ++ vector)))))))

-- A header whose words fit and agree with one another, over a name that is text.
pub record IsFrame (h : FrameHeader) (vector : Bytes) : Type 0 where
  pub frame_len : h.frame_len ≡ 24 + h.name_len + h.vector_len
  pub fits : h.frame_len ≤ u32_max
  pub dtype : h.dtype ≤ u32_max
  pub dimension : h.dimension ≤ u32_max
  pub name_len : h.name_len ≡ length h.name
  pub vector_len : h.vector_len ≡ length vector
  pub name : from_utf8 h.name ≡ some h.name

pub length-encode :
    (h : FrameHeader) (vector : Bytes)
    → length (encode h vector) ≡ 28 + length h.name + length vector
unfolding encode
length-encode h vector = omega (arith, length-append h.name vector)
