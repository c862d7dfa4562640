-- ===== src/Recommend/Lookup/Diagnostic.antt =====
-- The cohort that a diagnostic repeats is cut between characters.
use vectorseam.Core.Cohort.{max_cohort_name_bytes}
use vectorseam.Recommend.Lookup.{boundary_below, is_char_boundary, truncate_cohort_diagnostic}
use vectorseam.Base.{
  ==→≡, Bool-cases, Bytes, [], ap, arith, inl, inr, leb, leb_false→lt, leb→le, length, refl, suc,
  sym, take, take_all, true, zero, ◌==◌, ◌∙◌, ◌∷◌, ◌≡◌, ◌≤◌, ℕ,
}

boundary_below-boundary :
    (text : Bytes) (end : ℕ) → is_char_boundary text (boundary_below text end) ≡ true
unfolding boundary_below
boundary_below-boundary text zero = refl
boundary_below-boundary text (suc end) = elim (Bool-cases (is_char_boundary text (suc end))) [
  | inl e ↦ rw e e
  | inr e ↦ rw e (boundary_below-boundary text end)
]

boundary_below_le : (text : Bytes) (end : ℕ) → boundary_below text end ≤ end
unfolding boundary_below
boundary_below_le text zero = omega arith
boundary_below_le text (suc end) = elim (Bool-cases (is_char_boundary text (suc end))) [
  | inl e ↦ rw e (omega arith)
  | inr e ↦ rw e (omega (arith, boundary_below_le text end))
]

-- No boundary lies between the one that is found and the start of the search.
boundary_below_last :
    (text : Bytes) (end n : ℕ)
    → n ≤ end
    → is_char_boundary text n ≡ true
    → n ≤ boundary_below text end
unfolding boundary_below
boundary_below_last text zero n h b = omega arith
boundary_below_last text (suc end) n h b = elim (Bool-cases (is_char_boundary text (suc end))) [
  | inl e ↦ rw e h
  | inr e ↦ rw e (elim (Bool-cases (n == suc end)) [
    | inl same ↦ absurd (cc (e, ap (is_char_boundary text) (sym (==→≡ n (suc end) same)) ∙ b))
    | inr other ↦ boundary_below_last text end n (ground arith) b
  ])
]

-- The diagnostic is the longest prefix of the cohort that a name could be as long as and that ends
-- between two characters.
pub record IsDiagnostic (cohort shown : Bytes) : Type 0 where
  pub end : ℕ
  pub prefix : shown ≡ take end cohort
  pub whole : length cohort ≤ max_cohort_name_bytes → shown ≡ cohort
  pub short : length shown ≤ max_cohort_name_bytes
  pub boundary : is_char_boundary cohort end ≡ true
  pub longest :
      (n : ℕ)
      → n ≤ max_cohort_name_bytes
      → n ≤ length cohort
      → is_char_boundary cohort n ≡ true
      → n ≤ end

length_boundary : (text : Bytes) → is_char_boundary text (length text) ≡ true
unfolding is_char_boundary
length_boundary [] = refl
length_boundary (b ∷ []) = refl
length_boundary (b ∷ c ∷ text) = length_boundary (c ∷ text)

length-take_le : (n : ℕ) (text : Bytes) → length (take n text) ≤ n
length-take_le zero text = omega arith
length-take_le (suc n) [] = omega arith
length-take_le (suc n) (b ∷ text) = omega (arith, length-take_le n text)

pub truncate_cohort_diagnostic-IsDiagnostic :
    (cohort : Bytes) → IsDiagnostic cohort (truncate_cohort_diagnostic cohort)
unfolding truncate_cohort_diagnostic
truncate_cohort_diagnostic-IsDiagnostic cohort =
    elim (Bool-cases (leb (length cohort) max_cohort_name_bytes)) [
      | inl e ↦
          rw (e, truncate_cohort_diagnostic)
            (record {
              end = length cohort;
              prefix = sym (take_all (length cohort) cohort (omega arith));
              whole = λ short. refl;
              short = leb→le (length cohort) max_cohort_name_bytes e;
              boundary = length_boundary cohort;
              longest = λ n low high b. high;
            })
      | inr e ↦
          let end = boundary_below cohort max_cohort_name_bytes in
          let low = boundary_below_le cohort max_cohort_name_bytes in
          let cut = length-take_le end cohort in
          let long = leb_false→lt (length cohort) max_cohort_name_bytes e in
          rw (e, truncate_cohort_diagnostic)
            (record {
              end = end;
              prefix = refl;
              whole = λ short. absurd (omega (arith, long, short));
              short = omega (arith, low, cut);
              boundary = boundary_below-boundary cohort max_cohort_name_bytes;
              longest =
                  λ n below inside b. boundary_below_last cohort max_cohort_name_bytes n below b;
            })
    ]
