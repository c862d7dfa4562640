-- ===== src/Core/Cohort.antt =====
-- crates/vectorseam-core/src/cohort.rs: the grammar of cohort names.
pub mod Grammar
use vectorseam.Base.{
  ℕ, Bool, true, false, not, ◌&&◌, ◌||◌, List, [], ◌∷◌, length, ltb, leb, ◌==◌, all, if◌then◌else◌,
  Bytes, codes, bytes_eq, starts_with, split, Result, ok, err, ◌>>=◌, ◌>>◌, fail_if, is_ok,
}
use vectorseam.Core.Utf8.{is_ascii}

abbrev pub max_cohort_name_bytes : ℕ
max_cohort_name_bytes = 255

abbrev pub max_cohort_segments : ℕ
max_cohort_segments = 8

abbrev pub max_cohort_segment_bytes : ℕ
max_cohort_segment_bytes = 63

pub data CohortNameError : Type 0 where
  empty name_too_long non_ascii too_many_segments empty_segment segment_too_long : CohortNameError
  dot_segment reserved_window_segment invalid_segment : CohortNameError

-- The text of a name that the constructor has let through.
abbrev pub CohortName : Type 0
CohortName = Bytes

abbrev pub slash : ℕ
slash = b'/'

abbrev pub between : ℕ → ℕ → ℕ → Bool
between lo hi b = leb lo b && leb b hi

-- `u8::is_ascii_alphanumeric`
abbrev pub is_ascii_alphanumeric : ℕ → Bool
is_ascii_alphanumeric b = between b'0' b'9' b || (between b'A' b'Z' b || between b'a' b'z' b)

unfoldable pub is_allowed_segment_byte : ℕ → Bool
is_allowed_segment_byte b =
    is_ascii_alphanumeric b || (b == b'.' || (b == b'_' || (b == b'-' || b == b'=')))

unfoldable pub validate_segment : Bytes → Result CohortNameError (Unit {0})
validate_segment segment = do
  fail_if (length segment == 0) empty_segment
  fail_if (ltb max_cohort_segment_bytes (length segment)) segment_too_long
  fail_if (bytes_eq segment (codes ".") || bytes_eq segment (codes "..")) dot_segment
  fail_if (starts_with segment (codes "window=")) reserved_window_segment
  if all is_allowed_segment_byte segment then ok tt else err invalid_segment

-- `for segment in segments { validate_segment(segment)?; }`
unfoldable pub validate_segments : List Bytes → Result CohortNameError (Unit {0})
validate_segments [] = ok tt
validate_segments (s ∷ ss) = let rest = validate_segments ss in validate_segment s >> rest

unfoldable pub validate_cohort_name : Bytes → Result CohortNameError (Unit {0})
validate_cohort_name name = do
  fail_if (length name == 0) empty
  fail_if (ltb max_cohort_name_bytes (length name)) name_too_long
  fail_if (not (is_ascii name)) non_ascii
  let segments = split slash name
  fail_if (ltb max_cohort_segments (length segments)) too_many_segments
  validate_segments segments

unfoldable pub is_valid_cohort_name : Bytes → Bool
is_valid_cohort_name name = is_ok (validate_cohort_name name)

-- `CohortName::new`, which the `TryFrom` and `FromStr` implementations call.
unfoldable pub try_from : Bytes → Result CohortNameError CohortName
try_from name = do validate_cohort_name name; ok name
