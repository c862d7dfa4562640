-- ===== src/Seam/Math/Selection.antt =====
-- What `select_ef` of crates/seam/src/math.rs chooses.
use vectorseam.Seam.Accounting.{contains}
use vectorseam.Seam.Math.{
  empty_ef_grid, invalid_selection_input, panicked, EfSelection, RoundStatus, insufficient_samples,
  is_bad_score, is_bad_threshold, ok_status, select_ef, target_unmet, any, last, find,
}
use vectorseam.Base.{
  ||-eq-false, not-eq-false, fail_if_then-eq-ok, ok_or_then-eq-ok, ok, ok-injective, subst, ap,
  some-injective, sym, ◌∙◌, arith, length, ◌<◌, ==_refl, Bool, Bool-cases, List, [], false, inl,
  inr, refl, some, true, ◌==◌, ◌||◌, ◌∷◌, ◌≡◌, ◌⊎◌, ℕ,
}
use vectorseam.Seam.Floats.{Floats, IsOrdered}

-- The efs of the scores.
abbrev pub efs_of {ℓ} : {A : Type ℓ} → List (ℕ × A) → List ℕ
efs_of [] = []
efs_of ((ef, score) ∷ scores) = ef ∷ efs_of scores

pub contains-tail : (n x : ℕ) (xs : List ℕ) → contains n xs ≡ true → contains n (x ∷ xs) ≡ true
contains-tail n x xs h = elim (Bool-cases (x == n)) [ inl e ↦ rw e refl | inr e ↦ rw e h ]

pub contains-head : (n : ℕ) (xs : List ℕ) → contains n (n ∷ xs) ≡ true
contains-head n xs = rw (==_refl n) refl

module _ (fl : Floats) where
  open fl use {Float, lt, le, is_finite}

  abbrev pub Scores : Type 0
  Scores = List (ℕ × Float)

  abbrev pub clears : Float → ℕ × Float → Bool
  clears threshold entry = le threshold entry.1

  -- The scores before the entry do not clear the threshold, and the entry does.
  abbrev pub IsLeastClearing : Float → ℕ → Scores → Type 0
  IsLeastClearing threshold ef [] = ⊥
  IsLeastClearing threshold ef ((e, score) ∷ scores) =
      ((e ≡ ef) × (le threshold score ≡ true))
      ⊎ ((le threshold score ≡ false) × IsLeastClearing threshold ef scores)

  find-IsLeastClearing :
      (threshold : Float) (scores : Scores) (entry : ℕ × Float)
      → find (clears threshold) scores ≡ some entry
      → IsLeastClearing threshold entry.0 scores
  unfolding find
  find-IsLeastClearing threshold [] entry h = cc
  find-IsLeastClearing threshold ((e, score) ∷ scores) entry h =
      elim (Bool-cases (le threshold score)) [
        | inl p ↦ inl (ap (λ x. x.0) (some-injective (rw p at h)), p)
        | inr p ↦ inr (p, find-IsLeastClearing threshold scores entry (rw p at h))
      ]

  -- An entry that clears is found.
  find_clearing :
      (threshold : Float) (scores : Scores) (entry : ℕ × Float)
      → last scores ≡ some entry
      → le threshold entry.1 ≡ true
      → (found : ℕ × Float) × (find (clears threshold) scores ≡ some found)
  unfolding find last
  find_clearing threshold [] entry h q = cc
  find_clearing threshold (x ∷ []) entry h q =
      (x, rw (ap (λ e. le threshold e.1) (some-injective h) ∙ q))
  find_clearing threshold (x ∷ y ∷ scores) entry h q = elim (Bool-cases (le threshold x.1)) [
    | inl p ↦ (x, rw p refl)
    | inr p ↦ let (found, e) = find_clearing threshold (y ∷ scores) entry h q in (found, rw p e)
  ]

  contains-at :
      (x entry : ℕ × Float) (efs : List ℕ) → x ≡ entry → contains entry.0 (x.0 ∷ efs) ≡ true
  contains-at x entry efs e = rw (sym e) (rw (==_refl x.0) refl)

  find-contains :
      (threshold : Float) (scores : Scores) (entry : ℕ × Float)
      → find (clears threshold) scores ≡ some entry
      → contains entry.0 (efs_of scores) ≡ true
  unfolding find
  find-contains threshold [] entry h = cc
  find-contains threshold ((e, score) ∷ scores) entry h = elim (Bool-cases (le threshold score)) [
    | inl p ↦ contains-at (e, score) entry (efs_of scores) (some-injective (rw p at h))
    | inr p ↦
        contains-tail entry.0 e (efs_of scores) (find-contains threshold scores entry (rw p at h))
  ]

  last-contains :
      (scores : Scores) (entry : ℕ × Float)
      → last scores ≡ some entry
      → contains entry.0 (efs_of scores) ≡ true
  unfolding last
  last-contains [] entry h = cc
  last-contains (x ∷ []) entry h = contains-at x entry [] (some-injective h)
  last-contains (x ∷ y ∷ scores) entry h =
      contains-tail entry.0 x.0 (efs_of (y ∷ scores)) (last-contains (y ∷ scores) entry h)

  last-any :
      (test : ℕ × Float → Bool) (scores : Scores) (entry : ℕ × Float)
      → last scores ≡ some entry
      → any test scores ≡ false
      → test entry ≡ false
  unfolding last any
  last-any test [] entry h q = cc
  last-any test (x ∷ []) entry h q = ap test (sym (some-injective h)) ∙ (||-eq-false q).0
  last-any test (x ∷ y ∷ scores) entry h q = last-any test (y ∷ scores) entry h ((||-eq-false q).1)

  last_some :
      (scores : Scores) → 0 < length scores → (entry : ℕ × Float) × (last scores ≡ some entry)
  unfolding last
  last_some [] n = absurd (omega arith)
  last_some (x ∷ []) n = (x, refl)
  last_some (x ∷ y ∷ scores) n = last_some (y ∷ scores) (omega arith)

  -- Either the score of the last ef, the largest one, is below the threshold, or the ef is the first one
  -- whose score clears it.
  abbrev pub IsChosen : Float → Scores → RoundStatus → ℕ → Type 0
  IsChosen threshold scores ok_status ef = IsLeastClearing threshold ef scores
  IsChosen threshold scores target_unmet ef =
      (entry : ℕ × Float) × (last scores ≡ some entry)
      × (entry.0 ≡ ef)
      × (lt entry.1 threshold ≡ true)
  IsChosen threshold scores insufficient_samples ef = ⊥

  pub record IsSelection (threshold : Float) (scores : Scores) (selection : EfSelection)
      : Type 0 where
    pub listed : contains selection.recommended_ef (efs_of scores) ≡ true
    pub chosen : IsChosen threshold scores selection.status selection.recommended_ef

  pub select_ef-eq-ok :
      (scores : Scores) (threshold : Float) (selection : EfSelection)
      → select_ef fl scores threshold ≡ ok selection
      → IsSelection threshold scores selection
  unfolding select_ef
  select_ef-eq-ok scores threshold selection h =
      let (valid, rest) =
        fail_if_then-eq-ok (is_bad_threshold fl threshold || any (is_bad_score fl) scores)
          invalid_selection_input _ h in
      let (maximum, e, result) = ok_or_then-eq-ok (last scores) empty_ef_grid _ rest in
      elim (Bool-cases (lt maximum.1 threshold)) [
        | inl p ↦
            subst (IsSelection threshold scores) (ok-injective (rw p at result))
              (record { listed = last-contains scores maximum e; chosen = (maximum, e, refl, p) })
        | inr p ↦
            let (entry, f, last_step) =
              ok_or_then-eq-ok (find (clears threshold) scores) panicked _ (rw p at result) in
            subst (IsSelection threshold scores) (ok-injective last_step) (record {
              listed = find-contains threshold scores entry f;
              chosen = find-IsLeastClearing threshold scores entry f;
            })
      ]

  valid_succeeds :
      (ordered : IsOrdered fl) (scores : Scores) (threshold : Float)
      → is_bad_threshold fl threshold ≡ false
      → any (is_bad_score fl) scores ≡ false
      → 0 < length scores
      → (selection : EfSelection) × (select_ef fl scores threshold ≡ ok selection)
  unfolding select_ef
  valid_succeeds ordered scores threshold valid_threshold valid_scores n =
      let (maximum, e) = last_some scores n in
      let finite = not-eq-false (||-eq-false valid_threshold).0 in
      let bounded =
        not-eq-false (||-eq-false (last-any (is_bad_score fl) scores maximum e valid_scores)).0 in
      elim (Bool-cases (lt maximum.1 threshold)) [
        | inl p ↦ (
          record { recommended_ef = maximum.0; status = target_unmet },
          rw (valid_threshold, valid_scores, e, p) refl,
        )
        | inr p ↦
            let clear = ordered.le_of_not_lt maximum.1 threshold bounded finite p in
            let (found, f) = find_clearing threshold scores maximum e clear in
            (
              record { recommended_ef = found.0; status = ok_status },
              rw (valid_threshold, valid_scores, e, p, f) refl,
            )
      ]

  -- Where finite numbers are ordered, for a threshold in (0, 1] and one or more scores in [0, 1] the
  -- selection succeeds without an error or a panic, and its ef is the last one, whose score is then below
  -- the threshold, or the first whose score clears it.
  pub select_ef-selects :
      (ordered : IsOrdered fl) (scores : Scores) (threshold : Float)
      → is_bad_threshold fl threshold ≡ false
      → any (is_bad_score fl) scores ≡ false
      → 0 < length scores
      → (selection : EfSelection) × (select_ef fl scores threshold ≡ ok selection)
        × IsSelection threshold scores selection
  select_ef-selects ordered scores threshold valid_threshold valid_scores n =
      let (selection, e) = valid_succeeds ordered scores threshold valid_threshold valid_scores n in
      (selection, e, select_ef-eq-ok scores threshold selection e)
