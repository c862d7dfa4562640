-- ===== src/Core/Segment/Parsed.antt =====
-- The frames of a segment that was read are frames.
use vectorseam.Recommend.Handler.{step}
use vectorseam.Core.Binary.{read_u64_le}
use vectorseam.Core.Frame.{FrameHeader, parse_frame_header, total_frame_len}
use vectorseam.Core.Segment.{
  Segment, SegmentRecord, from_read_error, invalid_frame, read_header, read_record, read_records,
  read_segment, record_time_len,
}
use vectorseam.Base.{
  >>=-eq-ok, All, Bool-cases, Bytes, List, checked_add, drop, fail_if_then-eq-ok, inl, inr, length,
  ltb, map_err, map_err-eq-ok, ok, ok-injective, ok_or_then-eq-ok, slice, subst, suc, usize_max,
  zero, ◌≡◌, ℕ,
}

-- A record with a frame whose header parses.
abbrev pub IsParsed : SegmentRecord → Type 0
IsParsed r = (header : FrameHeader) × (parse_frame_header r.frame ≡ ok header)

read_record-IsParsed :
    (buffer : Bytes) (offset : ℕ) (step : SegmentRecord × ℕ)
    → read_record buffer offset ≡ ok step
    → IsParsed step.0
unfolding read_record
read_record-IsParsed buffer offset step h =
    let (receive_time_end, _, h1) =
      ok_or_then-eq-ok (checked_add usize_max offset record_time_len) _ _ h in
    let (_, h2) = fail_if_then-eq-ok (ltb (length buffer) receive_time_end) _ _ h1 in
    let (receive_time, _, h3) =
      >>=-eq-ok (map_err from_read_error (read_u64_le buffer offset)) _ h2 in
    let (frame_total_len, _, h4) =
      >>=-eq-ok (map_err invalid_frame (total_frame_len (drop receive_time_end buffer))) _ h3 in
    let (frame_end, _, h5) =
      ok_or_then-eq-ok (checked_add usize_max receive_time_end frame_total_len) _ _ h4 in
    let (_, h6) = fail_if_then-eq-ok (ltb (length buffer) frame_end) _ _ h5 in
    let (header, parsed, h7) =
      >>=-eq-ok
        (map_err invalid_frame (parse_frame_header (slice buffer receive_time_end frame_end))) _
        h6 in
    subst (λ (s : SegmentRecord × ℕ). IsParsed s.0) (ok-injective h7)
      (
        header,
        map_err-eq-ok invalid_frame (parse_frame_header (slice buffer receive_time_end frame_end))
            parsed,
      )

read_records-IsParsed :
    (fuel : ℕ) (buffer : Bytes) (offset : ℕ) (records : List SegmentRecord)
    → read_records fuel buffer offset ≡ ok records
    → All IsParsed records
unfolding read_records
read_records-IsParsed zero buffer offset records h = cc
read_records-IsParsed (suc fuel) buffer offset records h =
    elim (Bool-cases (ltb offset (length buffer))) [
      | inr e ↦ subst (All IsParsed) (ok-injective (rw (e, read_records) at h)) tt
      | inl e ↦
          let (step, a, h1) = >>=-eq-ok (read_record buffer offset) _ (rw (e, read_records) at h) in
          let (rest, b, h2) = >>=-eq-ok (read_records fuel buffer step.1) _ h1 in
          subst (All IsParsed) (ok-injective h2) (
            read_record-IsParsed buffer offset step a,
            read_records-IsParsed fuel buffer step.1 rest b,
          )
    ]

pub read_segment-IsParsed :
    (buffer : Bytes) (segment : Segment)
    → read_segment buffer ≡ ok segment
    → All IsParsed segment.records
unfolding read_segment
read_segment-IsParsed buffer segment h =
    let ((header, header_end), _, h1) = >>=-eq-ok (read_header buffer) _ h in
    let (records, taken, h2) =
      >>=-eq-ok (read_records (suc (length buffer)) buffer header_end) _ h1 in
    subst (λ (s : Segment). All IsParsed s.records) (ok-injective h2)
      (read_records-IsParsed (suc (length buffer)) buffer header_end records taken)
