-- ===== src/Core/Segment/Loop.antt =====
-- The record loop of `read_segment`: it reads back what was put, and its fuel suffices.
use vectorseam.Base.{
  ℕ, zero, suc, ◌+◌, ◌-◌, ◌≤◌, ◌<◌, ◌≡◌, ◌≢◌, ◌∙◌, sym, ap, refl, List, [], ◌∷◌, ◌++◌, arith,
  length, length-append, length-drop, take, drop, slice, drop-drop, drop-append, take-append, All,
  Bytes, usize_max, ok, err, Result,
}
use vectorseam.Core.Endian.{to_le_bytes}
use vectorseam.Core.Binary.{read_u64_le, read_u64_at}
use vectorseam.Core.Frame.{total_frame_len}
use vectorseam.Core.Frame.Sound.{total_frame_len_bounds, total_frame_len-append}
use vectorseam.Core.Segment.{
  SegmentRecord, SegmentError, out_of_fuel, put_records, read_record, read_records,
}
use vectorseam.Core.Segment.Layout.{IsRecord}

module _ (buffer : Bytes) (small : length buffer ≤ usize_max) where
  read_record_put :
      (offset : ℕ) (r : SegmentRecord) (rest : Bytes)
      → IsRecord r
      → drop offset buffer ≡ to_le_bytes 8 r.receive_time ++ (r.frame ++ rest)
      → (read_record buffer offset ≡ ok (r, offset + 8 + length r.frame))
        × (drop (offset + 8 + length r.frame) buffer ≡ rest)
        × (offset + 8 + length r.frame ≤ length buffer)
  unfolding read_record
  read_record_put offset r rest g e =
      (ground (arith, time, total, framed, g.frame, size), after, size)
    where
      behind : drop (offset + 8) buffer ≡ r.frame ++ rest
      behind = sym (drop-drop offset 8 buffer) ∙ ap (drop 8) e

      after : drop (offset + 8 + length r.frame) buffer ≡ rest
      after =
          sym (drop-drop (offset + 8) (length r.frame) buffer)
          ∙ ap (drop (length r.frame)) behind
          ∙ drop-append (length r.frame) r.frame rest refl

      size : offset + 8 + length r.frame ≤ length buffer
      size = omega (arith, length-drop offset buffer, ap length e, length-append r.frame rest)

      time : read_u64_le buffer offset ≡ ok r.receive_time
      time = read_u64_at buffer (r.frame ++ rest) offset r.receive_time small e g.receive_time

      total : total_frame_len (drop (offset + 8) buffer) ≡ ok (length r.frame)
      total = ap total_frame_len behind ∙ total_frame_len-append r.frame rest g.header g.frame

      framed : slice buffer (offset + 8) (offset + 8 + length r.frame) ≡ r.frame
      framed =
          ap (take (offset + 8 + length r.frame - (offset + 8))) behind
          ∙ take-append _ r.frame rest (omega arith)

  -- From an offset where put records stand, the loop reads those records.
  pub read_records_put :
      (fuel offset : ℕ) (rs : List SegmentRecord)
      → offset ≤ length buffer
      → length buffer < fuel + offset
      → drop offset buffer ≡ put_records rs
      → All IsRecord rs
      → read_records fuel buffer offset ≡ ok rs
  unfolding read_records put_records
  read_records_put zero offset rs o f e g = absurd (omega arith)
  read_records_put (suc fuel) offset [] o f e g =
      let done : length buffer ≤ offset = omega (arith, length-drop offset buffer, ap length e) in
      ground arith
  read_records_put (suc fuel) offset (r ∷ rs) o f e g =
      let (step, after, size) = read_record_put offset r (put_records rs) g.0 e in
      let more : offset < length buffer = omega (arith, length-drop offset buffer, ap length e) in
      ground (
        arith,
        step,
        read_records_put fuel (offset + 8 + length r.frame) rs size (omega arith) after g.1,
      )

-- A round that succeeds moves the offset on, within the buffer.
read_record_advances :
    (buffer : Bytes) (offset : ℕ) (step : SegmentRecord × ℕ)
    → read_record buffer offset ≡ ok step
    → (offset + 12 ≤ step.1) × (step.1 ≤ length buffer)
unfolding read_record
read_record_advances buffer offset step h = grind (arith, total_frame_len_bounds)

-- Nor is it ever the model's own error.
read_record_fueled : (buffer : Bytes) (offset : ℕ) → read_record buffer offset ≢ err out_of_fuel
unfolding read_record
read_record_fueled buffer offset h = ground arith

-- With fuel for every byte behind the offset the loop ends by its test.
pub read_records_fueled :
    (fuel : ℕ) (buffer : Bytes) (offset : ℕ)
    → offset ≤ length buffer
    → length buffer < fuel + offset
    → read_records fuel buffer offset ≢ err out_of_fuel
unfolding read_records
read_records_fueled zero buffer offset o f h = absurd (omega arith)
read_records_fueled (suc fuel) buffer offset o f h =
    after (read_record buffer offset) refl (read_records_fueled fuel buffer)
  where
    after :
        (r : Result SegmentError (SegmentRecord × ℕ))
        → read_record buffer offset ≡ r
        → ((next : ℕ)
            → next ≤ length buffer
            → length buffer < fuel + next
            → read_records fuel buffer next ≢ err out_of_fuel)
        → ⊥
    after (err e) p ih = ground (arith, read_record_fueled buffer offset)
    after (ok step) p ih =
        let (far, within) = read_record_advances buffer offset step p in
        ground (arith, ih step.1 within (omega arith))
