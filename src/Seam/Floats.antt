-- ===== src/Seam/Floats.antt =====
-- `f64` as an interface: the type, its operations and tests as crates/seam uses them, and the Beta
-- distribution of the crate statrs. Every definition that computes with floats takes it as a parameter.
use vectorseam.Base.{ℕ, Bool, true, false, ◌≡◌, ◌&&◌}

-- `lt` and `le` are `<` and `<=`, both false on a NaN; `total_le` says that `total_cmp` is not `Greater`;
-- `of_nat` and `to_nat` are the casts from and to unsigned integers.
pub record Floats : Type 1 where
  pub Float : Type 0
  pub of_nat : ℕ → Float
  pub to_nat : Float → ℕ
  pub add : Float → Float → Float
  pub sub : Float → Float → Float
  pub mul : Float → Float → Float
  pub div : Float → Float → Float
  pub floor : Float → Float
  pub round : Float → Float
  pub lt : Float → Float → Bool
  pub le : Float → Float → Bool
  pub eq : Float → Float → Bool
  pub total_le : Float → Float → Bool
  pub is_finite : Float → Bool
  pub beta_reg : Float → Float → Float → Float

-- What IEEE 754 says of comparisons and the code relies on: finite numbers are ordered, and what lies
-- between two numbers is neither infinite nor a NaN.
pub record IsOrdered (fl : Floats) : Type 0 where
  pub le_of_not_lt :
      (a b : fl.Float)
      → fl.is_finite a ≡ true
      → fl.is_finite b ≡ true
      → fl.lt a b ≡ false
      → fl.le b a ≡ true
  pub finite_between :
      (x : fl.Float)
      → fl.lt (fl.of_nat 0) x ≡ true
      → fl.lt x (fl.of_nat 1) ≡ true
      → fl.is_finite x ≡ true

module _ (fl : Floats) where
  abbrev pub zero_f64 : fl.Float
  zero_f64 = fl.of_nat 0

  abbrev pub one_f64 : fl.Float
  one_f64 = fl.of_nat 1

  -- `(low..=high).contains(&x)`
  abbrev pub within : fl.Float → fl.Float → fl.Float → Bool
  within low high x = fl.le low x && fl.le x high
