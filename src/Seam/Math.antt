-- ===== src/Seam/Math.antt =====
-- crates/seam/src/math.rs: the numeric primitives of the tuner.
pub mod Selection
use vectorseam.Base.{
  ℕ, zero, suc, ◌+◌, ◌-◌, ◌%◌, Bool, true, false, not, ◌&&◌, ◌||◌, Option, none, some, List, [],
  ◌∷◌, ◌++◌, length, ltb, ◌==◌, if◌then◌else◌, Bytes, codes, Result, ok, err, ◌>>=◌, ◌>>◌, fail_if,
  ok_or, i32_max,
}
use vectorseam.Core.Window.{digits}
use vectorseam.Seam.Floats.{Floats, zero_f64, one_f64, within}
use vectorseam.Seam.Hash.{fnv1a64}

abbrev pub split_buckets : ℕ
split_buckets = 10000

-- `panicked` is the model's own: an `expect` or an index that fails.
pub data MathError : Type 0 where
  zero_k empty_quantile invalid_quantile_probability non_finite_quantile_value : MathError
  empty_ef_grid invalid_selection_input invalid_confidence_input invalid_train_fraction : MathError
  panicked : MathError

-- The status of a round. `RoundStatus` stands in model.rs.
pub data RoundStatus : Type 0 where
  ok_status target_unmet insufficient_samples : RoundStatus

pub record EfSelection : Type 0 where
  pub recommended_ef : ℕ
  pub status : RoundStatus

-- `values.get(index)`
unfoldable pub nth {ℓ} : {A : Type ℓ} → List A → ℕ → Option A
nth [] index = none
nth (x ∷ xs) zero = some x
nth (x ∷ xs) (suc index) = nth xs index

-- The last entry of a `BTreeMap`, and the first that passes a test.
unfoldable pub last {ℓ} : {A : Type ℓ} → List A → Option A
last [] = none
last (x ∷ []) = some x
last (x ∷ y ∷ xs) = last (y ∷ xs)

unfoldable pub find {ℓ} : {A : Type ℓ} → (A → Bool) → List A → Option A
find test [] = none
find test (x ∷ xs) = let later = find test xs in if test x then some x else later

unfoldable pub any {ℓ} : {A : Type ℓ} → (A → Bool) → List A → Bool
any test [] = false
any test (x ∷ xs) = test x || any test xs

module _ (fl : Floats) where
  open fl use {
    Float, of_nat, to_nat, add, sub, mul, div, floor, round, lt, le, eq, total_le, is_finite,
    beta_reg,
  }

  unfoldable pub split_threshold : Float → Result MathError ℕ
  split_threshold train_fraction = do
    fail_if (not (is_finite train_fraction)) invalid_train_fraction
    let rounded = round (mul train_fraction (of_nat split_buckets))
    fail_if (not (within fl (of_nat 1) (of_nat 9999) rounded)) invalid_train_fraction
    ok (to_nat rounded)

  unfoldable pub is_train_member : ℕ → ℕ → Float → Result MathError Bool
  unfolding digits
  is_train_member vector_hash split_seed train_fraction = do
    threshold ← split_threshold train_fraction
    let split_key = codes "s:" ++ (digits 20 split_seed ++ (codes ":" ++ digits 20 vector_hash))
    ok (ltb (fnv1a64 split_key % split_buckets) threshold)

  -- `sorted.sort_by(f64::total_cmp)`: the order of equal values cannot be seen.
  unfoldable pub insert_sorted : Float → List Float → List Float
  insert_sorted x [] = x ∷ []
  insert_sorted x (y ∷ ys) =
      let later = insert_sorted x ys in if total_le x y then x ∷ y ∷ ys else y ∷ later

  unfoldable pub sort_by_total_cmp : List Float → List Float
  sort_by_total_cmp [] = []
  sort_by_total_cmp (x ∷ xs) = insert_sorted x (sort_by_total_cmp xs)

  -- The interpolation at `h`.
  unfoldable pub interpolate : List Float → Float → Result MathError Float
  interpolate sorted h = do
    let lower = to_nat (floor h)
    let fraction = sub h (of_nat lower)
    low ← ok_or (nth sorted lower) panicked
    if eq fraction (zero_f64 fl)
        then ok low
        else (ok_or (nth sorted (lower + 1)) panicked >>= λ high.
            ok (add low (mul fraction (sub high low))))

  unfoldable pub quantile_type7 : List Float → Float → Result MathError Float
  quantile_type7 values q = do
    fail_if (length values == 0) empty_quantile
    fail_if (not (is_finite q) || not (within fl (zero_f64 fl) (one_f64 fl) q))
        invalid_quantile_probability
    fail_if (any (λ value. not (is_finite value)) values) non_finite_quantile_value
    let sorted = sort_by_total_cmp values
    if length sorted == 1
        then ok_or (nth sorted 0) panicked
        else interpolate sorted (mul (of_nat (length sorted - 1)) q)

  -- A threshold or score that `select_ef` refuses.
  abbrev pub is_bad_threshold : Float → Bool
  is_bad_threshold threshold =
      not (is_finite threshold)
      || (not (within fl (zero_f64 fl) (one_f64 fl) threshold) || eq threshold (zero_f64 fl))

  abbrev pub is_bad_score : ℕ × Float → Bool
  is_bad_score entry = not (is_finite entry.1) || not (within fl (zero_f64 fl) (one_f64 fl) entry.1)

  -- `scores` in ascending order of the ef.
  unfoldable pub select_ef : List (ℕ × Float) → Float → Result MathError EfSelection
  select_ef scores threshold = do
    fail_if (is_bad_threshold threshold || any is_bad_score scores) invalid_selection_input
    maximum ← ok_or (last scores) empty_ef_grid
    if lt maximum.1 threshold
        then ok (record { recommended_ef = maximum.0; status = target_unmet })
        else (ok_or (find (λ entry. le threshold entry.1) scores) panicked >>= λ entry.
            ok (record { recommended_ef = entry.0; status = ok_status }))

  unfoldable pub compliance_confidence : ℕ → ℕ → Float → Result MathError Float
  compliance_confidence n m percentile = do
    fail_if
        (ltb n m
          || (not (is_finite percentile)
              || (le percentile (zero_f64 fl) || le (one_f64 fl) percentile)))
        invalid_confidence_input
    let successes = add (of_nat m) (one_f64 fl)
    let failures = add (of_nat (n - m)) (one_f64 fl)
    ok (beta_reg failures successes (sub (one_f64 fl) percentile))
