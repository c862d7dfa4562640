-- ===== src/Core/Frame.antt =====
-- crates/vectorseam-core/src/frame.rs: the protocol v1 frame envelope.
pub mod Encode
pub mod RoundTrip
pub mod Sound
use vectorseam.Base.{
  ℕ, ◌+◌, ◌-◌, Bool, true, false, not, Option, none, some, List, [], ◌∷◌, length, slice, ltb, leb,
  ◌==◌, Bytes, codes, bytes_eq, Result, ok, err, ◌>>=◌, ◌>>◌, fail_if, map_err, ok_or, checked_add,
  try_from, usize_max,
}
use vectorseam.Core.Binary.{ByteReadError, read_u32_le}
use vectorseam.Core.Utf8.{from_utf8}

abbrev pub frame_magic : Bytes
frame_magic = codes "VQS1"

abbrev pub frame_version : ℕ
frame_version = 1

abbrev pub fixed_frame_header_len : ℕ
fixed_frame_header_len = 28

abbrev pub frame_len_field_len : ℕ
frame_len_field_len = 4

abbrev pub frame_len_remaining_header : ℕ
frame_len_remaining_header = fixed_frame_header_len - frame_len_field_len

pub data FrameError : Type 0 where
  truncated : ℕ → ℕ → FrameError
  bad_magic : FrameError
  bad_version : ℕ → FrameError
  name_len_exceeds_frame : FrameError
  frame_len_mismatch : ℕ → ℕ → FrameError
  invalid_name_utf8 : FrameError
  length_overflow : FrameError

-- `impl From<ByteReadError> for FrameError`
abbrev pub from_read_error : ByteReadError → FrameError
from_read_error (ByteReadError.truncated needed actual) = FrameError.truncated needed actual
from_read_error ByteReadError.length_overflow = FrameError.length_overflow

pub record FrameHeader : Type 0 where
  pub frame_len : ℕ
  pub dtype : ℕ
  pub name_len : ℕ
  pub dimension : ℕ
  pub vector_len : ℕ
  pub name : Bytes

abbrev to_usize : ℕ → Result FrameError ℕ
to_usize n = ok_or (try_from usize_max n) FrameError.length_overflow

abbrev plus : ℕ → ℕ → Result FrameError ℕ
plus a b = ok_or (checked_add usize_max a b) FrameError.length_overflow

abbrev read_u32 : Bytes → ℕ → Result FrameError ℕ
read_u32 buffer offset = map_err from_read_error (read_u32_le buffer offset)

unfoldable pub parse_frame_header : Bytes → Result FrameError FrameHeader
parse_frame_header buffer = do
  fail_if (ltb (length buffer) fixed_frame_header_len)
      (FrameError.truncated fixed_frame_header_len (length buffer))
  frame_len ← read_u32 buffer 0
  frame_len_usize ← to_usize frame_len
  declared_total ← plus frame_len_usize frame_len_field_len
  fail_if (not (declared_total == length buffer))
      (FrameError.frame_len_mismatch declared_total (length buffer))
  fail_if (ltb frame_len_usize frame_len_remaining_header)
      (FrameError.truncated fixed_frame_header_len declared_total)
  fail_if (not (bytes_eq (slice buffer 4 8) frame_magic)) bad_magic
  version ← read_u32 buffer 8
  fail_if (not (version == frame_version)) (bad_version version)
  dtype ← read_u32 buffer 12
  name_len ← read_u32 buffer 16
  dimension ← read_u32 buffer 20
  vector_len ← read_u32 buffer 24
  name_len_usize ← to_usize name_len
  vector_len_usize ← to_usize vector_len
  vector_start ← plus fixed_frame_header_len name_len_usize
  fail_if (ltb declared_total vector_start) name_len_exceeds_frame
  expected_total ← plus vector_start vector_len_usize
  fail_if (not (expected_total == declared_total))
      (FrameError.frame_len_mismatch declared_total expected_total)
  name ← ok_or (from_utf8 (slice buffer fixed_frame_header_len vector_start)) invalid_name_utf8
  ok (record {
    frame_len = frame_len;
    dtype = dtype;
    name_len = name_len;
    dimension = dimension;
    vector_len = vector_len;
    name = name;
  })

unfoldable pub total_frame_len : Bytes → Result FrameError ℕ
total_frame_len buffer = do
  fail_if (ltb (length buffer) frame_len_field_len)
      (FrameError.truncated frame_len_field_len (length buffer))
  frame_len ← read_u32 buffer 0
  frame_len_usize ← to_usize frame_len
  plus frame_len_usize frame_len_field_len
