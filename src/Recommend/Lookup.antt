-- ===== src/Recommend/Lookup.antt =====
-- crates/vectorseam-recommendation-server/src/lib.rs: one look-up of `latest.json`. What the store does
-- in a look-up is an argument, and `serde_json::from_slice` a parameter.
pub mod Published
pub mod Diagnostic
use vectorseam.Core.Recommendation.{max_ef_search, min_ef_search}
use vectorseam.Core.Cohort.{CohortName, max_cohort_name_bytes}
use vectorseam.Base.{
  ℤ, Bool, Bytes, Option, Result, [], bytes_eq, codes, err, false, if◌then◌else◌, leb, length, ltb,
  negsuc, none, not, ok, pos, some, suc, take, true, zero, ◌&&◌, ◌*◌, ◌++◌, ◌/◌, ◌==◌, ◌||◌, ◌∷◌, ℕ,
}

abbrev pub latest_json_max_bytes : ℕ
latest_json_max_bytes = 256 * 1024

pub record LatestEffective : Type 0 where
  pub recommended_ef : ℤ

pub record LatestRound : Type 0 where
  pub format_version : ℕ
  pub cohort : Bytes
  pub effective : Option LatestEffective

-- The path is that of the cohort, in every case; the reasons of the store and of serde are left out.
pub data TransientLookupError : Type 0 where
  get body timeout : Bytes → TransientLookupError

pub data PermanentDefect : Type 0 where
  too_large : Bytes → ℕ → PermanentDefect
  malformed : Bytes → PermanentDefect
  unsupported_format : Bytes → ℕ → PermanentDefect
  cohort_mismatch : Bytes → Bytes → Bytes → PermanentDefect
  invalid_ef : Bytes → ℤ → PermanentDefect

pub data NegativeLookup : Type 0 where
  missing : NegativeLookup
  defect : PermanentDefect → NegativeLookup

pub data CachedLookup : Type 0 where
  found : ℤ → CachedLookup
  negative : NegativeLookup → CachedLookup

-- What `store.get` and then `bytes` answer: the object's size, and its body unless reading it fails; or
-- nothing before the deadline.
pub data StoreAnswer : Type 0 where
  object : ℕ → Option Bytes → StoreAnswer
  not_found get_failed late : StoreAnswer

unfoldable pub latest_path : CohortName → Bytes
latest_path cohort = codes "calibrations/" ++ (cohort ++ codes "/latest.json")

-- `is_char_boundary(end)`: the byte at `end`, if there is one, continues no character.
unfoldable pub is_char_boundary : Bytes → ℕ → Bool
is_char_boundary text zero = true
is_char_boundary [] (suc end) = false
is_char_boundary (b ∷ []) (suc zero) = true
is_char_boundary (b ∷ c ∷ text) (suc zero) = ltb c 128 || leb 192 c
is_char_boundary (b ∷ text) (suc (suc end)) = is_char_boundary text (suc end)

-- The loop that goes down to a boundary.
unfoldable pub boundary_below : Bytes → ℕ → ℕ
unfolding is_char_boundary
boundary_below text zero = zero
boundary_below text (suc end) =
    let below = boundary_below text end in
    if is_char_boundary text (suc end) then suc end else below

unfoldable pub truncate_cohort_diagnostic : Bytes → Bytes
unfolding boundary_below
truncate_cohort_diagnostic cohort =
    if leb (length cohort) max_cohort_name_bytes
    then cohort
    else take (boundary_below cohort max_cohort_name_bytes) cohort

-- `(MIN_EF_SEARCH..=MAX_EF_SEARCH).contains(&ef)`
abbrev pub is_ef : ℤ → Bool
is_ef (pos ef) = leb min_ef_search ef && leb ef max_ef_search
is_ef (negsuc n) = false

module _ (from_slice : Bytes → Option LatestRound) where
  -- The checks of a document that was parsed.
  unfoldable pub effective_of : CohortName → LatestRound → CachedLookup
  unfolding latest_path truncate_cohort_diagnostic
  effective_of cohort latest =
      if not (latest.format_version == 1)
      then negative (defect (unsupported_format (latest_path cohort) latest.format_version))
      else if not (bytes_eq latest.cohort cohort)
      then negative (
          defect (
            cohort_mismatch (latest_path cohort) cohort (truncate_cohort_diagnostic latest.cohort)))
      else elim latest.effective [
        | none ↦ negative missing
        | some effective ↦
            if not (is_ef effective.recommended_ef)
            then negative (defect (invalid_ef (latest_path cohort) effective.recommended_ef))
            else found effective.recommended_ef
      ]

  unfoldable pub parse_latest : CohortName → Bytes → CachedLookup
  unfolding effective_of latest_path
  parse_latest cohort bytes = elim (from_slice bytes) [
    | none ↦ negative (defect (malformed (latest_path cohort)))
    | some latest ↦ effective_of cohort latest
  ]

  unfoldable pub load_with_timeout :
      CohortName → StoreAnswer → Result TransientLookupError CachedLookup
  unfolding parse_latest latest_path
  load_with_timeout cohort late = err (timeout (latest_path cohort))
  load_with_timeout cohort not_found = ok (negative missing)
  load_with_timeout cohort get_failed = err (get (latest_path cohort))
  load_with_timeout cohort (object size content) =
      if ltb latest_json_max_bytes size
      then ok (negative (defect (too_large (latest_path cohort) size)))
      else elim content [
        | none ↦ err (body (latest_path cohort))
        | some bytes ↦ ok (parse_latest cohort bytes)
      ]
