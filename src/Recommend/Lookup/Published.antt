-- ===== src/Recommend/Lookup/Published.antt =====
-- What a look-up finds.

use vectorseam.Recommend.Lookup.{
  LatestEffective, LatestRound, StoreAnswer, effective_of, found, get_failed, is_ef, late,
  latest_json_max_bytes, load_with_timeout, not_found, object, parse_latest,
}
use vectorseam.Base.{
  ==→≡, Bool-cases, Bytes, Option, Option-cases, ap, bytes_eq, bytes_eq_refl, bytes_eq→≡,
  ge→ltb_false, inl, inr, ltb, ltb_false→ge, none, ok, ok-injective, refl, some, subst, true, ℤ,
  ◌==◌, ◌∙◌, ◌≡◌, ◌≤◌, ℕ,
}

-- The document of a cohort that offers an ef.
pub record IsPublished (from_slice : Bytes → Option LatestRound) (cohort : Bytes)
    (answer : StoreAnswer) (ef : ℤ) : Type 0 where
  pub size : ℕ
  pub bytes : Bytes
  pub latest : LatestRound
  pub effective : LatestEffective
  pub stored : answer ≡ object size (some bytes)
  pub small : size ≤ latest_json_max_bytes
  pub parsed : from_slice bytes ≡ some latest
  pub version : latest.format_version ≡ 1
  pub same_cohort : latest.cohort ≡ cohort
  pub offered : latest.effective ≡ some effective
  pub recommended : effective.recommended_ef ≡ ef
  pub in_range : is_ef ef ≡ true

found-injective : {a b : ℤ} → found a ≡ found b → a ≡ b
found-injective e = cc e

module _ (from_slice : Bytes → Option LatestRound) where
  -- What `effective_of` checks.
  record IsOffered (cohort : Bytes) (latest : LatestRound) (ef : ℤ) : Type 0 where
    effective : LatestEffective
    version : latest.format_version ≡ 1
    same_cohort : latest.cohort ≡ cohort
    offered : latest.effective ≡ some effective
    recommended : effective.recommended_ef ≡ ef
    in_range : is_ef ef ≡ true

  effective_of-IsOffered :
      (cohort : Bytes) (latest : LatestRound) (ef : ℤ)
      → effective_of from_slice cohort latest ≡ found ef
      → IsOffered cohort latest ef
  unfolding effective_of
  effective_of-IsOffered cohort latest ef h = elim (Bool-cases (latest.format_version == 1)) [
    | inr a ↦ absurd (cc (rw (a, effective_of) at h))
    | inl a ↦ elim (Bool-cases (bytes_eq latest.cohort cohort)) [
      | inr b ↦ absurd (cc (rw (a, b, effective_of) at h))
      | inl b ↦ elim (Option-cases latest.effective) [
        | inl c ↦ absurd (cc (rw (a, b, c, effective_of) at h))
        | inr (effective, c) ↦ elim (Bool-cases (is_ef effective.recommended_ef)) [
          | inr d ↦ absurd (cc (rw (a, b, c, d, effective_of) at h))
          | inl d ↦
              let same = found-injective (rw (a, b, c, d, effective_of) at h) in
              record {
                effective = effective;
                version = ==→≡ latest.format_version 1 a;
                same_cohort = bytes_eq→≡ latest.cohort cohort b;
                offered = c;
                recommended = same;
                in_range = subst (λ n. is_ef n ≡ true) same d;
              }
        ]
      ]
    ]
  ]

  pub load_with_timeout-IsPublished :
      (cohort : Bytes) (answer : StoreAnswer) (ef : ℤ)
      → load_with_timeout from_slice cohort answer ≡ ok (found ef)
      → IsPublished from_slice cohort answer ef
  unfolding load_with_timeout parse_latest
  load_with_timeout-IsPublished cohort late ef h = cc
  load_with_timeout-IsPublished cohort not_found ef h = cc
  load_with_timeout-IsPublished cohort get_failed ef h = cc
  load_with_timeout-IsPublished cohort (object size none) ef h =
      elim (Bool-cases (ltb latest_json_max_bytes size)) [
        | inl a ↦ absurd (cc (rw (a, load_with_timeout) at h))
        | inr a ↦ absurd (cc (rw (a, load_with_timeout) at h))
      ]
  load_with_timeout-IsPublished cohort (object size (some bytes)) ef h =
      elim (Bool-cases (ltb latest_json_max_bytes size)) [
        | inl a ↦ absurd (cc (rw (a, load_with_timeout) at h))
        | inr a ↦ elim (Option-cases (from_slice bytes)) [
          | inl b ↦ absurd (cc (rw (a, b, load_with_timeout, parse_latest) at h))
          | inr (latest, b) ↦
              let o =
                effective_of-IsOffered cohort latest ef
                  (ok-injective (rw (a, b, load_with_timeout, parse_latest) at h)) in
              record {
                size = size;
                bytes = bytes;
                latest = latest;
                effective = o.effective;
                stored = refl;
                small = ltb_false→ge latest_json_max_bytes size a;
                parsed = b;
                version = o.version;
                same_cohort = o.same_cohort;
                offered = o.offered;
                recommended = o.recommended;
                in_range = o.in_range;
              }
        ]
      ]

  pub IsPublished-load_with_timeout :
      (cohort : Bytes) (answer : StoreAnswer) (ef : ℤ)
      → IsPublished from_slice cohort answer ef
      → load_with_timeout from_slice cohort answer ≡ ok (found ef)
  unfolding load_with_timeout parse_latest effective_of
  IsPublished-load_with_timeout cohort answer ef k =
      let small = ge→ltb_false latest_json_max_bytes k.size k.small in
      let named = ap (λ c. bytes_eq c cohort) k.same_cohort ∙ bytes_eq_refl cohort in
      let accepted = ap is_ef k.recommended ∙ k.in_range in
      rw
        (
          k.stored, small, k.parsed, parse_latest, effective_of, k.version, named, k.offered,
          accepted, k.recommended,
        )
        refl
