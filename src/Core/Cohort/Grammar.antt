-- ===== src/Core/Cohort/Grammar.antt =====
-- The grammar that the comment on `validate_cohort_name` describes, and its equivalence with the code.
use vectorseam.Base.{
  split_nonempty, ge→ltb_false, NoSeparator, join-split, split-join, length-append, ltb_false→ge,
  ltb, ◌==◌, ==→≡, ap₂, &&-eq-true, Bool, ℕ, ◌≤◌, ◌<◌, ◌≡◌, ◌≢◌, ◌⊎◌, ◌↔◌, ◌∙◌, sym, ap, refl, List,
  [], ◌∷◌, ◌++◌, arith, length, Bytes, codes, All, all, split, join, starts_with, bytes_eq, ok,
  true, false, bytes_eq_iff,
}
use vectorseam.Core.Utf8.{is_ascii}
use vectorseam.Core.Cohort.{
  slash, is_allowed_segment_byte, validate_segment, validate_segments, validate_cohort_name,
  try_from,
}

abbrev In : ℕ → ℕ → ℕ → Type 0
In lo hi b = (lo ≤ b) × (b ≤ hi)

-- Letters, digits, `.`, `_`, `-` and `=`.
abbrev pub IsAllowed : ℕ → Type 0
IsAllowed b =
    In b'0' b'9' b
    ⊎ In b'A' b'Z' b
    ⊎ In b'a' b'z' b
    ⊎ (b ≡ b'.')
    ⊎ (b ≡ b'_')
    ⊎ (b ≡ b'-')
    ⊎ (b ≡ b'=')

pub record IsSegment (s : Bytes) : Type 0 where
  pub nonempty : 0 < length s
  pub short : length s ≤ 63
  pub not_dot : s ≢ codes "."
  pub not_dots : s ≢ codes ".."
  pub not_reserved : (rest : Bytes) → s ≢ codes "window=" ++ rest
  pub allowed : All IsAllowed s

pub record IsCohortName (name : Bytes) : Type 0 where
  pub segments : List Bytes
  pub joined : name ≡ join slash segments
  pub nonempty : 0 < length segments
  pub few : length segments ≤ 8
  pub each : All IsSegment segments
  pub short : length name ≤ 255

IsAllowed-iff : (b : ℕ) → (is_allowed_segment_byte b ≡ true) ↔ IsAllowed b
unfolding is_allowed_segment_byte
IsAllowed-iff b = (λ h. ground arith, λ h. ground arith)

all_iff : (s : Bytes) → (all is_allowed_segment_byte s ≡ true) ↔ All IsAllowed s
all_iff [] = (λ h. tt, λ h. refl)
all_iff (b ∷ bs) = (
  λ h. ground (arith, (IsAllowed-iff b).0, (all_iff bs).0),
  λ h. ground (arith, (IsAllowed-iff b).1, (all_iff bs).1),
)

starts_with_reserved : (s p : Bytes) → starts_with s p ≡ true → (rest : Bytes) × (s ≡ p ++ rest)
unfolding starts_with
starts_with_reserved s [] h = (s, refl)
starts_with_reserved [] (p ∷ ps) h = cc
starts_with_reserved (x ∷ xs) (p ∷ ps) h =
    let (e, t) = &&-eq-true h in
    let (rest, q) = starts_with_reserved xs ps t in (rest, ap₂ ◌∷◌ (==→≡ x p e) q)

starts_with-append : (p rest : Bytes) → starts_with (p ++ rest) p ≡ true
unfolding starts_with
starts_with-append [] rest = refl
starts_with-append (p ∷ ps) rest = ground (arith, starts_with-append ps rest)

-- The five tests of `validate_segment`.
record Passes (s : Bytes) : Type 0 where
  nonempty : (length s == 0) ≡ false
  short : ltb 63 (length s) ≡ false
  not_dot : bytes_eq s (codes ".") ≡ false
  not_dots : bytes_eq s (codes "..") ≡ false
  not_reserved : starts_with s (codes "window=") ≡ false
  allowed : all is_allowed_segment_byte s ≡ true

segment-Passes : (s : Bytes) → (validate_segment s ≡ ok tt) ↔ Passes s
unfolding validate_segment
segment-Passes s = (λ h. ground arith, λ p. ground (arith, p.nonempty, p.short))

differs : (s t : Bytes) → (bytes_eq s t ≡ false) ↔ (s ≢ t)
differs s t = (λ h e. cc ((bytes_eq_iff s t).1 e), λ n. ground (arith, (bytes_eq_iff s t).0))

-- The code's verdict on a segment is the grammar's.
IsSegment-iff : (s : Bytes) → (validate_segment s ≡ ok tt) ↔ IsSegment s
IsSegment-iff s = (λ h. forth ((segment-Passes s).0 h), λ g. (segment-Passes s).1 (back g))
  where
    forth : Passes s → IsSegment s
    forth p = record {
      nonempty = let e = p.nonempty in ground arith;
      short = let e = p.short in ground arith;
      not_dot = (differs s (codes ".")).0 p.not_dot;
      not_dots = (differs s (codes "..")).0 p.not_dots;
      not_reserved = λ rest e. cc (
        p.not_reserved,
        ap (λ t. starts_with t (codes "window=")) e,
        starts_with-append (codes "window=") rest,
      );
      allowed = (all_iff s).0 p.allowed;
    }

    unreserved : (b : Bool) → starts_with s (codes "window=") ≡ b → IsSegment s → b ≡ false
    unreserved false e g = refl
    unreserved true e g =
        let (rest, q) = starts_with_reserved s (codes "window=") e in absurd (g.not_reserved rest q)

    back : IsSegment s → Passes s
    back g = record {
      nonempty = let h = g.nonempty in ground arith;
      short = let h = g.short in ground arith;
      not_dot = (differs s (codes ".")).1 g.not_dot;
      not_dots = (differs s (codes "..")).1 g.not_dots;
      not_reserved = unreserved (starts_with s (codes "window=")) refl g;
      allowed = (all_iff s).1 g.allowed;
    }

segments_iff : (ss : List Bytes) → (validate_segments ss ≡ ok tt) ↔ All IsSegment ss
unfolding validate_segments
segments_iff [] = (λ h. tt, λ h. refl)
segments_iff (s ∷ ss) = (
  λ h. ground (arith, (IsSegment-iff s).0, (segments_iff ss).0),
  λ h. ground (arith, (IsSegment-iff s).1, (segments_iff ss).1),
)

-- An allowed byte is ASCII, and no slash.
allowed_ascii : (b : ℕ) → IsAllowed b → (b < 128) × (b ≢ slash)
allowed_ascii b h = (ground arith, λ e. ground arith)

segment_no_slash : (s : Bytes) → All IsAllowed s → NoSeparator slash s
segment_no_slash [] h = tt
segment_no_slash (b ∷ bs) h = ((allowed_ascii b h.0).1, segment_no_slash bs h.1)

segments_no_slash : (ss : List Bytes) → All IsSegment ss → All (NoSeparator slash) ss
segments_no_slash [] h = tt
segments_no_slash (s ∷ ss) h = (segment_no_slash s h.0.allowed, segments_no_slash ss h.1)

is_ascii_allowed : (s : Bytes) → All IsAllowed s → is_ascii s ≡ true
is_ascii_allowed [] h = refl
is_ascii_allowed (b ∷ bs) h = ground (arith, (allowed_ascii b h.0).0, is_ascii_allowed bs h.1)

is_ascii-append : (s t : Bytes) → is_ascii s ≡ true → is_ascii t ≡ true → is_ascii (s ++ t) ≡ true
is_ascii-append [] t h k = k
is_ascii-append (b ∷ bs) t h k = ground (arith, is_ascii-append bs t)

is_ascii-join : (ss : List Bytes) → All IsSegment ss → is_ascii (join slash ss) ≡ true
unfolding join
is_ascii-join [] h = refl
is_ascii-join (s ∷ []) h = is_ascii_allowed s h.0.allowed
is_ascii-join (s ∷ t ∷ ss) h =
    is_ascii-append s (slash ∷ join slash (t ∷ ss)) (is_ascii_allowed s h.0.allowed)
      (is_ascii-join (t ∷ ss) h.1)

join_nonempty : (ss : List Bytes) → 0 < length ss → All IsSegment ss → 0 < length (join slash ss)
unfolding join
join_nonempty [] n h = absurd (omega arith)
join_nonempty (s ∷ []) n h = h.0.nonempty
join_nonempty (s ∷ t ∷ ss) n h = omega (arith, length-append s (slash ∷ join slash (t ∷ ss)))

-- The tests of `validate_cohort_name`.
record Valid (name : Bytes) : Type 0 where
  nonempty : (length name == 0) ≡ false
  short : ltb 255 (length name) ≡ false
  ascii : is_ascii name ≡ true
  few : ltb 8 (length (split slash name)) ≡ false
  each : validate_segments (split slash name) ≡ ok tt

Valid-iff : (name : Bytes) → (validate_cohort_name name ≡ ok tt) ↔ Valid name
unfolding validate_cohort_name
Valid-iff name =
    (λ h. ground arith, λ p. ground (arith, p.nonempty, p.short, p.ascii, p.few, p.each))

accepted : (name : Bytes) → Valid name → IsCohortName name
accepted name p = record {
  segments = split slash name;
  joined = sym (join-split slash name);
  nonempty = split_nonempty slash name;
  few = ltb_false→ge 8 _ p.few;
  each = (segments_iff (split slash name)).0 p.each;
  short = ltb_false→ge 255 _ p.short;
}

in_grammar : (name : Bytes) → IsCohortName name → Valid name
in_grammar name g = record {
  nonempty =
      let n : 0 < length name =
        omega (arith, ap length g.joined, join_nonempty g.segments g.nonempty g.each) in
      ground arith;
  short = ge→ltb_false 255 _ g.short;
  ascii = rw g.joined (is_ascii-join g.segments g.each);
  few = rw segments (ge→ltb_false 8 _ g.few);
  each = rw segments ((segments_iff g.segments).1 g.each);
}
  where
    segments : split slash name ≡ g.segments
    segments =
        ap (split slash) g.joined
        ∙ split-join slash g.segments g.nonempty (segments_no_slash g.segments g.each)

-- A name is accepted exactly when it is in the grammar: one to eight segments joined by slashes, each
-- of 1 to 63 allowed bytes, none `.`, `..` or beginning with `window=`, and at most 255 bytes in all.
pub validate_cohort_name_iff :
    (name : Bytes) → (validate_cohort_name name ≡ ok tt) ↔ IsCohortName name
validate_cohort_name_iff name =
    (λ h. accepted name ((Valid-iff name).0 h), λ g. (Valid-iff name).1 (in_grammar name g))

-- What an accepted name satisfies, for its users.
pub cohort_ascii : (name : Bytes) → validate_cohort_name name ≡ ok tt → is_ascii name ≡ true
cohort_ascii name h = ((Valid-iff name).0 h).ascii

pub cohort_short : (name : Bytes) → validate_cohort_name name ≡ ok tt → length name ≤ 255
cohort_short name h = ltb_false→ge 255 _ ((Valid-iff name).0 h).short

pub try_from-eq-ok :
    (name : Bytes) {cohort : Bytes}
    → try_from name ≡ ok cohort
    → (cohort ≡ name) × (validate_cohort_name name ≡ ok tt)
unfolding try_from
try_from-eq-ok name h = ground arith
