-- ===== src/Core/Segment/RoundTrip.antt =====
-- A written segment is read back, also where a later version has put more bytes into its header.
use vectorseam.Base.{
  suc, drop-drop, ℕ, ◌+◌, ◌-◌, ◌≤◌, ◌≡◌, ◌≢◌, ◌∙◌, sym, ap, refl, List, [], ◌∷◌, ◌++◌, arith,
  length, length-append, drop, slice, drop-append, take-append, All, Bytes, map_err, >>=-eq-ok,
  u32_max, u64_max, usize_max, some, ok, err, true, bytes_eq, Result,
}
use vectorseam.Core.Binary.{
  read_u16_le, read_u32_le, read_u64_le, read_u16_at, read_u32_at, read_u64_at,
}
use vectorseam.Core.Utf8.{from_utf8, from_utf8-is_ascii}
use vectorseam.Core.Cohort
use vectorseam.Core.Cohort.{validate_cohort_name}
use vectorseam.Core.Cohort.Grammar.{cohort_ascii, cohort_short}
use vectorseam.Core.Frame.{FrameHeader, parse_frame_header}
use vectorseam.Core.Segment.{
  add_record_len, invalid_frame, SegmentHeader, SegmentRecord, SegmentError, out_of_fuel,
  segment_magic, put_records, put_header, records_len, write_segment, read_header, read_segment,
}
use vectorseam.Core.Segment.Layout.{IsHeader, IsRecord, layout, length-layout}
use vectorseam.Core.Segment.Loop.{read_records_put, read_records_fueled}

module _ (h : SegmentHeader) (tail : Bytes) (rs : List SegmentRecord) (g : IsHeader h)
    (small : length (layout h tail rs) ≤ usize_max)
    (headed : 46 + length h.cohort + length tail ≤ u32_max) where
  short : length h.cohort ≤ 255
  short = cohort_short h.cohort g.cohort

  magic_matches : bytes_eq (slice (layout h tail rs) 0 4) segment_magic ≡ true
  unfolding layout bytes_eq
  magic_matches = refl

  word_header_len : read_u32_le (layout h tail rs) 4 ≡ ok (46 + length h.cohort + length tail)
  unfolding layout
  word_header_len = read_u32_at (layout h tail rs) _ 4 _ small refl headed

  word_window_start : read_u64_le (layout h tail rs) 8 ≡ ok h.window_start
  unfolding layout
  word_window_start = read_u64_at (layout h tail rs) _ 8 _ small refl g.window_start

  word_window_seconds : read_u32_le (layout h tail rs) 16 ≡ ok h.window_seconds
  unfolding layout
  word_window_seconds = read_u32_at (layout h tail rs) _ 16 _ small refl g.window_seconds

  word_first_receive : read_u64_le (layout h tail rs) 20 ≡ ok h.first_receive
  unfolding layout
  word_first_receive = read_u64_at (layout h tail rs) _ 20 _ small refl g.first_receive

  word_last_receive : read_u64_le (layout h tail rs) 28 ≡ ok h.last_receive
  unfolding layout
  word_last_receive = read_u64_at (layout h tail rs) _ 28 _ small refl g.last_receive

  word_received : read_u64_le (layout h tail rs) 36 ≡ ok h.received_frame_count
  unfolding layout
  word_received = read_u64_at (layout h tail rs) _ 36 _ small refl g.received_frame_count

  word_record_count : read_u64_le (layout h tail rs) 44 ≡ ok h.record_count
  unfolding layout
  word_record_count = read_u64_at (layout h tail rs) _ 44 _ small refl g.record_count

  word_cohort_len : read_u16_le (layout h tail rs) 52 ≡ ok (length h.cohort)
  unfolding layout
  word_cohort_len = read_u16_at (layout h tail rs) _ 52 _ small refl (omega (arith, short))

  cohort_slice : slice (layout h tail rs) 54 (54 + length h.cohort) ≡ h.cohort
  unfolding layout
  cohort_slice = take-append (54 + length h.cohort - 54) h.cohort _ (omega arith)

  cohort_text : from_utf8 h.cohort ≡ some h.cohort
  cohort_text = from_utf8-is_ascii h.cohort (cohort_ascii h.cohort g.cohort)

  cohort_named : Cohort.try_from h.cohort ≡ ok h.cohort
  unfolding Cohort.try_from
  cohort_named = rw g.cohort

  read_header-layout : read_header (layout h tail rs) ≡ ok (h, 54 + length h.cohort + length tail)
  unfolding read_header
  read_header-layout = ground (
    arith,
    length-layout h tail rs,
    magic_matches,
    word_header_len,
    word_window_start,
    word_window_seconds,
    word_first_receive,
    word_last_receive,
    word_received,
    word_record_count,
    word_cohort_len,
    cohort_slice,
    cohort_text,
    cohort_named,
    short,
  )

  behind_cohort : drop 54 (layout h tail rs) ≡ h.cohort ++ (tail ++ put_records rs)
  unfolding layout
  behind_cohort = refl

  body : drop (54 + length h.cohort + length tail) (layout h tail rs) ≡ put_records rs
  body =
      sym (drop-drop (54 + length h.cohort) (length tail) (layout h tail rs))
      ∙ ap (drop (length tail)) (
          sym (drop-drop 54 (length h.cohort) (layout h tail rs))
          ∙ ap (drop (length h.cohort)) behind_cohort
          ∙ drop-append (length h.cohort) h.cohort (tail ++ put_records rs) refl)
      ∙ drop-append (length tail) tail (put_records rs) refl

  -- Whatever the header carries behind its known fields, the segment reads as its header and records.
  pub read_segment-layout :
      All IsRecord rs → read_segment (layout h tail rs) ≡ ok (record { header = h; records = rs })
  unfolding read_segment
  read_segment-layout good = rw (
    read_header-layout,
    read_records_put (layout h tail rs) small (suc (length (layout h tail rs)))
        (54 + length h.cohort + length tail) rs (omega (arith, length-layout h tail rs))
        (omega arith) body good,
  )

-- The time of a record is a `u64`, as its type says.
abbrev pub IsTimed : SegmentRecord → Type 0
IsTimed r = r.receive_time ≤ u64_max

added :
    (sum : ℕ) (r : SegmentRecord) (next : ℕ)
    → add_record_len sum r ≡ ok next
    → (next ≡ sum + 8 + length r.frame)
      × (next ≤ usize_max)
      × (header : FrameHeader) × (parse_frame_header r.frame ≡ ok header)
added sum r next e =
    let (header, p, _) = >>=-eq-ok (map_err invalid_frame (parse_frame_header r.frame)) _ e in
    (ground arith, ground arith, header, ground arith)

-- What the sum over the records says of them.
records_len-put :
    (sum : ℕ) (rs : List SegmentRecord) (n : ℕ)
    → All IsTimed rs
    → records_len sum rs ≡ ok n
    → (n ≡ sum + length (put_records rs)) × All IsRecord rs
unfolding records_len put_records
records_len-put sum [] n t e = (ground arith, tt)
records_len-put sum (r ∷ rs) n t e =
    let (next, a, b) = >>=-eq-ok (add_record_len sum r) (λ m. records_len m rs) e in
    let (moved, _, header, parsed) = added sum r next a in
    let (total, good) = records_len-put next rs n t.1 b in
    (
      omega (arith, length-append r.frame (put_records rs)),
      (record { receive_time = t.0; header = header; frame = parsed }, good),
    )

-- The successes of `write_segment`.
record Succeeds (h : SegmentHeader) (rs : List SegmentRecord) (out : Bytes) : Type 0 where
  body_len : ℕ
  summed : records_len 0 rs ≡ ok body_len
  fits : 8 + (46 + length h.cohort) + body_len ≤ usize_max
  bytes : out ≡ put_header h (46 + length h.cohort) (length h.cohort) ++ put_records rs

write-Succeeds :
    (h : SegmentHeader) (rs : List SegmentRecord) (out : Bytes)
    → write_segment h rs ≡ ok out
    → Succeeds h rs out
unfolding write_segment
write-Succeeds h rs out e = after (records_len 0 rs) refl
  where
    after : (r : Result SegmentError ℕ) → records_len 0 rs ≡ r → Succeeds h rs out
    after (err x) p = absurd (ground arith)
    after (ok n) p = record { body_len = n; summed = p; fits = ground arith; bytes = ground arith }

put-layout :
    (h : SegmentHeader) (rs : List SegmentRecord) (k : ℕ)
    → k ≡ 46 + length h.cohort + 0
    → put_header h k (length h.cohort) ++ put_records rs ≡ layout h [] rs
unfolding put_header layout
put-layout h rs k e = ap (λ j. put_header h j (length h.cohort) ++ put_records rs) e

-- What a successful write has written: the layout with nothing behind the cohort.
written :
    (h : SegmentHeader) (rs : List SegmentRecord) (out : Bytes)
    → All IsTimed rs
    → write_segment h rs ≡ ok out
    → (out ≡ layout h [] rs) × (length (layout h [] rs) ≤ usize_max) × All IsRecord rs
written h rs out t e =
    let s = write-Succeeds h rs out e in
    let (total, good) = records_len-put 0 rs s.body_len t s.summed in
    (
      s.bytes ∙ put-layout h rs (46 + length h.cohort) (omega arith),
      omega (arith, length-layout h [] rs, s.fits),
      good,
    )

-- A segment that is written is read back: the same header, and the same records in the same order. The
-- fields of the header and the times fit their machine types, and the cohort is valid.
pub read-write_segment :
    (h : SegmentHeader) (rs : List SegmentRecord) (out : Bytes)
    → IsHeader h
    → All IsTimed rs
    → write_segment h rs ≡ ok out
    → read_segment out ≡ ok (record { header = h; records = rs })
read-write_segment h rs out g t e =
    let (laid, small, good) = written h rs out t e in
    let short : length h.cohort ≤ 255 = cohort_short h.cohort g.cohort in
    rw laid (read_segment-layout h [] rs g small (omega arith) good)

read_header_bounds :
    (buffer : Bytes) (step : SegmentHeader × ℕ)
    → read_header buffer ≡ ok step
    → step.1 ≤ length buffer
unfolding read_header
read_header_bounds buffer step h = ground arith

read_header_fueled : (buffer : Bytes) → read_header buffer ≢ err out_of_fuel
unfolding read_header
read_header_fueled buffer h = ground arith

-- Reading ends on every input: the loop never runs out of fuel.
pub read_segment_total : (buffer : Bytes) → read_segment buffer ≢ err out_of_fuel
unfolding read_segment
read_segment_total buffer h = after (read_header buffer) refl
  where
    after : (r : Result SegmentError (SegmentHeader × ℕ)) → read_header buffer ≡ r → ⊥
    after (err e) p = ground (arith, read_header_fueled buffer)
    after (ok step) p =
        let within : step.1 ≤ length buffer = read_header_bounds buffer step p in
        ground (arith, read_records_fueled (suc (length buffer)) buffer step.1 within (omega arith))
