-- ===== src/Core/Binary.antt =====
-- crates/vectorseam-core/src/binary.rs: little-endian reads at an offset.
use vectorseam.Base.{
  take-append_le, drop-drop, ℕ, ◌+◌, ◌-◌, ◌^◌, ◌≤◌, ◌<◌, ◌≡◌, refl, ap, ◌++◌, arith, length, take,
  drop, slice, leb, length-take, take-append-drop, All-take, All-drop, >>=-eq-ok, sym, ap₂, subst,
  ◌∙◌, le→leb, if◌then◌else◌, Bytes, AreBytes, Result, ok, err, ◌>>=◌, ok_or, checked_add,
  usize_max, u16_max, u32_max, u64_max, length-drop, take-append, length-append,
}
use vectorseam.Core.Endian.{
  to_le_bytes, from_le_bytes, from-to_le_bytes, to-from_le_bytes, from_le_bytes-lt,
}

pub data ByteReadError : Type 0 where
  truncated : ℕ → ℕ → ByteReadError
  length_overflow : ByteReadError

-- `buffer.get(offset..end)` with `end = offset + len`, so that the range is never reversed.
unfoldable pub read_exact : Bytes → ℕ → ℕ → Result ByteReadError Bytes
read_exact buffer offset len = do
  end ← ok_or (checked_add usize_max offset len) length_overflow
  if leb end (length buffer)
      then ok (slice buffer offset end)
      else err (truncated end (length buffer))

unfoldable pub read_u16_le : Bytes → ℕ → Result ByteReadError ℕ
unfolding read_exact
read_u16_le buffer offset = do bytes ← read_exact buffer offset 2; ok (from_le_bytes bytes)

unfoldable pub read_u32_le : Bytes → ℕ → Result ByteReadError ℕ
unfolding read_exact
read_u32_le buffer offset = do bytes ← read_exact buffer offset 4; ok (from_le_bytes bytes)

unfoldable pub read_u64_le : Bytes → ℕ → Result ByteReadError ℕ
unfolding read_exact
read_u64_le buffer offset = do bytes ← read_exact buffer offset 8; ok (from_le_bytes bytes)

-- A read is in bounds where the rest of the buffer begins with what is read.
pub read_exact_at :
    (buffer xs rest : Bytes) (offset len : ℕ)
    → drop offset buffer ≡ xs ++ rest
    → length xs ≡ len
    → 0 < len
    → length buffer ≤ usize_max
    → read_exact buffer offset len ≡ ok xs
unfolding read_exact
read_exact_at buffer xs rest offset len e l p h = rw (
  le→leb (offset + len) usize_max (omega (arith, fits)),
  le→leb (offset + len) (length buffer) fits,
  e,
  take-append (offset + len - offset) xs rest (omega arith),
)
  where
    fits : offset + len ≤ length buffer
    fits = omega (arith, length-drop offset buffer, ap length e, length-append xs rest)

module _ (buffer rest : Bytes) (offset n : ℕ) (small : length buffer ≤ usize_max) where
  pub read_u16_at :
      drop offset buffer ≡ to_le_bytes 2 n ++ rest → n ≤ u16_max → read_u16_le buffer offset ≡ ok n
  unfolding read_u16_le
  read_u16_at e h = rw (
    read_exact_at buffer (to_le_bytes 2 n) rest offset 2 e refl (omega arith) small,
    from-to_le_bytes 2 n (omega arith),
  )

  pub read_u32_at :
      drop offset buffer ≡ to_le_bytes 4 n ++ rest → n ≤ u32_max → read_u32_le buffer offset ≡ ok n
  unfolding read_u32_le
  read_u32_at e h = rw (
    read_exact_at buffer (to_le_bytes 4 n) rest offset 4 e refl (omega arith) small,
    from-to_le_bytes 4 n (omega arith),
  )

  pub read_u64_at :
      drop offset buffer ≡ to_le_bytes 8 n ++ rest → n ≤ u64_max → read_u64_le buffer offset ≡ ok n
  unfolding read_u64_le
  read_u64_at e h = rw (
    read_exact_at buffer (to_le_bytes 8 n) rest offset 8 e refl (omega arith) small,
    from-to_le_bytes 8 n (omega arith),
  )

-- Every successful read names the bytes that it read.
pub read_exact-eq-ok :
    (buffer : Bytes) (offset len : ℕ) {xs : Bytes}
    → read_exact buffer offset len ≡ ok xs
    → (offset + len ≤ length buffer) × (xs ≡ slice buffer offset (offset + len))
unfolding read_exact
read_exact-eq-ok buffer offset len h = ground arith

-- The number that a read returns stands in the buffer, in front of what follows.
read_number :
    (buffer : Bytes) (offset k : ℕ) {xs : Bytes}
    → AreBytes buffer
    → read_exact buffer offset k ≡ ok xs
    → (drop offset buffer ≡ to_le_bytes k (from_le_bytes xs) ++ drop (offset + k) buffer)
      × (from_le_bytes xs < 256 ^ k)
read_number buffer offset k {xs} b h = (
  sym (take-append-drop k (drop offset buffer))
      ∙ ap₂ ◌++◌ (sym whole ∙ sym coded) (drop-drop offset k buffer),
  rw size at (from_le_bytes-lt xs bytes),
)
  where
    facts : (offset + k ≤ length buffer) × (xs ≡ slice buffer offset (offset + k))
    facts = read_exact-eq-ok buffer offset k h

    whole : xs ≡ take k (drop offset buffer)
    whole = facts.1 ∙ ap (λ j. take j (drop offset buffer)) (omega arith)

    size : length xs ≡ k
    size =
        ap length whole
        ∙ length-take k (drop offset buffer) (omega (arith, facts.0, length-drop offset buffer))

    bytes : AreBytes xs
    bytes = rw whole (All-take _ k (drop offset buffer) (All-drop _ offset buffer b))

    coded : to_le_bytes k (from_le_bytes xs) ≡ xs
    coded = ap (λ j. to_le_bytes j (from_le_bytes xs)) (sym size) ∙ to-from_le_bytes xs bytes

pub read_u32_le-eq-ok :
    (buffer : Bytes) (offset n : ℕ)
    → AreBytes buffer
    → read_u32_le buffer offset ≡ ok n
    → (drop offset buffer ≡ to_le_bytes 4 n ++ drop (offset + 4) buffer) × (n ≤ u32_max)
unfolding read_u32_le
read_u32_le-eq-ok buffer offset n b h =
    let (xs, e, v) = >>=-eq-ok (read_exact buffer offset 4) (λ bytes. ok (from_le_bytes bytes)) h in
    let value : from_le_bytes xs ≡ n = cc v in
    let (word, bound) = read_number buffer offset 4 b e in
    (
      subst (λ m. drop offset buffer ≡ to_le_bytes 4 m ++ drop (offset + 4) buffer) value word,
      omega arith,
    )

-- A read at the front does not see what is appended.
pub read_u32_le-append :
    (buffer rest : Bytes)
    → 4 ≤ length buffer
    → read_u32_le (buffer ++ rest) 0 ≡ read_u32_le buffer 0
unfolding read_u32_le
read_u32_le-append buffer rest h =
    ground (arith, length-append buffer rest, take-append_le 4 buffer rest h)
