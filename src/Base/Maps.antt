-- ===== src/Base/Maps.antt =====
-- Rust's `HashMap` and `BTreeMap` with byte-string keys, as association lists without repeated keys.
-- The order of the entries stands for the order, unknown in a `HashMap`, in which a map is iterated.
use Prim.Native.Nat.{ℕ, ◌+◌, ◌≤◌}
use mathlib.Core.Path.{◌≡◌, refl, subst, ap}
use mathlib.Core.Logic.{inl, inr}
use mathlib.Core.Bool.{true, false}
use mathlib.Core.Option.{Option, none, some}
use mathlib.Core.List.{List, [], ◌∷◌}
use native.Mathlib.Omega.{arith}
use vectorseam.Base.Tests.{if◌then◌else◌, Bool-cases}
use vectorseam.Base.Text.{Bytes, bytes_eq, bytes_eq→≡, bytes_eq_refl, bytes_eq_iff, bytes_eq_sym}

abbrev pub Assoc {ℓ} : Type ℓ → Type ℓ
Assoc V = List (Bytes × V)

module _ {ℓ} {V : Type ℓ} where
  -- `map.get(key)`
  unfoldable pub lookup : Bytes → Assoc V → Option V
  lookup k [] = none
  lookup k ((j, v) ∷ m) = if bytes_eq j k then some v else lookup k m

  -- The map after `map.remove(key)`.
  unfoldable pub without : Bytes → Assoc V → Assoc V
  without k [] = []
  without k ((j, v) ∷ m) = let rest = without k m in if bytes_eq j k then rest else (j, v) ∷ rest

  -- The map after `map.insert(key, value)`.
  abbrev pub insert : Bytes → V → Assoc V → Assoc V
  insert k v m = (k, v) ∷ without k m

  -- `map.entry(key).or_default()`, then an update in place.
  unfoldable pub upsert : Bytes → V → (V → V) → Assoc V → Assoc V
  upsert k d f [] = (k, f d) ∷ []
  upsert k d f ((j, v) ∷ m) =
      let rest = upsert k d f m in if bytes_eq j k then (j, f v) ∷ m else (j, v) ∷ rest

  -- `map.keys()`
  abbrev pub keys : Assoc V → List Bytes
  keys [] = []
  keys ((j, v) ∷ m) = j ∷ keys m

  -- The key does not occur.
  abbrev pub Absent : Bytes → Assoc V → Type 0
  Absent k [] = Unit
  Absent k ((j, v) ∷ m) = (bytes_eq j k ≡ false) × Absent k m

  -- No key occurs twice.
  abbrev pub Distinct : Assoc V → Type 0
  Distinct [] = Unit
  Distinct ((j, v) ∷ m) = Absent j m × Distinct m

  pub lookup-Absent : (k : Bytes) (m : Assoc V) → Absent k m → lookup k m ≡ none
  unfolding lookup
  lookup-Absent k [] a = refl
  lookup-Absent k ((j, v) ∷ m) a = rw a.0 (lookup-Absent k m a.1)

  pub without-Absent : (k : Bytes) (m : Assoc V) → Absent k m → without k m ≡ m
  unfolding without
  without-Absent k [] a = refl
  without-Absent k ((j, v) ∷ m) a = rw a.0 (ap (λ r. (j, v) ∷ r) (without-Absent k m a.1))

  pub Absent-without : (k : Bytes) (m : Assoc V) → Absent k (without k m)
  unfolding without
  Absent-without k [] = tt
  Absent-without k ((j, v) ∷ m) = elim (Bool-cases (bytes_eq j k)) [
    | inl e ↦ rw e (Absent-without k m)
    | inr e ↦ rw e (e, Absent-without k m)
  ]

  pub Absent-without_other : (i k : Bytes) (m : Assoc V) → Absent i m → Absent i (without k m)
  unfolding without
  Absent-without_other i k [] a = tt
  Absent-without_other i k ((j, v) ∷ m) a = elim (Bool-cases (bytes_eq j k)) [
    | inl e ↦ rw e (Absent-without_other i k m a.1)
    | inr e ↦ rw e (a.0, Absent-without_other i k m a.1)
  ]

  pub Distinct-without : (k : Bytes) (m : Assoc V) → Distinct m → Distinct (without k m)
  unfolding without
  Distinct-without k [] d = tt
  Distinct-without k ((j, v) ∷ m) d = elim (Bool-cases (bytes_eq j k)) [
    | inl e ↦ rw e (Distinct-without k m d.1)
    | inr e ↦ rw e (Absent-without_other j k m d.0, Distinct-without k m d.1)
  ]

  pub Absent-upsert :
      (i k : Bytes) (d : V) (f : V → V) (m : Assoc V)
      → bytes_eq k i ≡ false
      → Absent i m
      → Absent i (upsert k d f m)
  unfolding upsert
  Absent-upsert i k d f [] n a = (n, tt)
  Absent-upsert i k d f ((j, v) ∷ m) n a = elim (Bool-cases (bytes_eq j k)) [
    | inl e ↦ rw e a
    | inr e ↦ rw e (a.0, Absent-upsert i k d f m n a.1)
  ]

  pub Distinct-upsert :
      (k : Bytes) (d : V) (f : V → V) (m : Assoc V) → Distinct m → Distinct (upsert k d f m)
  unfolding upsert
  Distinct-upsert k d f [] h = (tt, tt)
  Distinct-upsert k d f ((j, v) ∷ m) h = elim (Bool-cases (bytes_eq j k)) [
    | inl e ↦ rw e h
    | inr e ↦ rw e (Absent-upsert j k d f m (bytes_eq_sym j k e) h.0, Distinct-upsert k d f m h.1)
  ]

  pub lookup-without :
      (k i : Bytes) (m : Assoc V)
      → lookup i (without k m) ≡ (if bytes_eq k i then none else lookup i m)
  unfolding lookup without
  lookup-without k i [] = ground arith
  lookup-without k i ((j, v) ∷ m) =
      ground (arith, lookup-without k i m, bytes_eq_iff j k, bytes_eq_iff j i, bytes_eq_iff k i)

  -- `entry.or_insert(default)`
  abbrev pub or_default : V → Option V → V
  or_default d none = d
  or_default d (some v) = v

  pub lookup-upsert_same :
      (k : Bytes) (d : V) (f : V → V) (m : Assoc V)
      → lookup k (upsert k d f m) ≡ some (f (or_default d (lookup k m)))
  unfolding lookup upsert
  lookup-upsert_same k d f [] = rw (bytes_eq_refl k) refl
  lookup-upsert_same k d f ((j, v) ∷ m) = elim (Bool-cases (bytes_eq j k)) [
    | inl e ↦ rw (e, e) refl
    | inr e ↦ rw (e, e) (lookup-upsert_same k d f m)
  ]

  pub lookup-upsert_other :
      (k i : Bytes) (d : V) (f : V → V) (m : Assoc V)
      → bytes_eq k i ≡ false
      → lookup i (upsert k d f m) ≡ lookup i m
  unfolding lookup upsert
  lookup-upsert_other k i d f [] n = rw n refl
  lookup-upsert_other k i d f ((j, v) ∷ m) n = elim (Bool-cases (bytes_eq j k)) [
    | inl e ↦ rw (e, bytes_eq→≡ j k e, n) refl
    | inr e ↦ rw e (elim (Bool-cases (bytes_eq j i)) [
      | inl p ↦ rw p refl
      | inr p ↦ rw p (lookup-upsert_other k i d f m n)
    ])
  ]

  pub Absent-same : (j k : Bytes) (m : Assoc V) → bytes_eq j k ≡ true → Absent j m → Absent k m
  Absent-same j k m e a = rw (← bytes_eq→≡ j k e) a

  -- A weight of the values, summed over the map.
  abbrev pub total : (V → ℕ) → Assoc V → ℕ
  total w [] = 0
  total w ((j, v) ∷ m) = w v + total w m

  abbrev pub weight_of : (V → ℕ) → Option V → ℕ
  weight_of w none = 0
  weight_of w (some v) = w v

  -- Taking an entry out takes its weight off.
  pub total-without :
      (w : V → ℕ) (k : Bytes) (m : Assoc V)
      → Distinct m
      → total w m ≡ weight_of w (lookup k m) + total w (without k m)
  unfolding lookup without
  total-without w k [] d = refl
  total-without w k ((j, v) ∷ m) d = elim (Bool-cases (bytes_eq j k)) [
    | inl e ↦ rw (e, without-Absent k m (Absent-same j k m e d.0))
    | inr e ↦ rw e (omega (arith, total-without w k m d.1))
  ]

  -- An update in place changes the total by what it changes the entry; it need only do so for values
  -- whose weight is within the bound of the total.
  pub total-upsert :
      (w : V → ℕ) (k : Bytes) (d : V) (f : V → V) (m : Assoc V) (gain bound : ℕ)
      → w (f d) ≡ gain
      → ((v : V) → w v ≤ bound → w (f v) ≡ w v + gain)
      → total w m ≤ bound
      → total w (upsert k d f m) ≡ total w m + gain
  unfolding upsert
  total-upsert w k d f [] gain bound z g h = omega (arith, z)
  total-upsert w k d f ((j, v) ∷ m) gain bound z g h = elim (Bool-cases (bytes_eq j k)) [
    | inl e ↦ rw e (omega (arith, g v (omega arith)))
    | inr e ↦ rw e (omega (arith, total-upsert w k d f m gain bound z g (omega arith)))
  ]

  -- A predicate of the values.
  abbrev pub AllValues {κ} : (V → Type κ) → Assoc V → Type κ
  AllValues P [] = Unit
  AllValues P ((j, v) ∷ m) = P v × AllValues P m

  -- An update that keeps the weights, and the default's is none, keeps every entry's weight.
  pub weight_of-upsert :
      (w : V → ℕ) (k : Bytes) (d : V) (f : V → V) (i : Bytes) (m : Assoc V)
      → w (f d) ≡ 0
      → ((v : V) → w (f v) ≡ w v)
      → weight_of w (lookup i (upsert k d f m)) ≡ weight_of w (lookup i m)
  unfolding lookup upsert
  weight_of-upsert w k d f i [] z g = elim (Bool-cases (bytes_eq k i)) [
    | inl e ↦ rw e z
    | inr e ↦ rw e
  ]
  weight_of-upsert w k d f i ((j, v) ∷ m) z g = elim (Bool-cases (bytes_eq j k)) [
    | inl e ↦ rw e (elim (Bool-cases (bytes_eq j i)) [ inl p ↦ rw p (g v) | inr p ↦ rw p ])
    | inr e ↦ rw e (elim (Bool-cases (bytes_eq j i)) [
      | inl p ↦ rw p
      | inr p ↦ rw p (weight_of-upsert w k d f i m z g)
    ])
  ]

  -- Entries that all weigh nothing weigh nothing together.
  pub total_zero :
      (w : V → ℕ) (m : Assoc V)
      → Distinct m
      → ((i : Bytes) → weight_of w (lookup i m) ≡ 0)
      → total w m ≡ 0
  unfolding lookup
  total_zero w [] d h = refl
  total_zero w ((j, v) ∷ m) d h = omega (arith, head, total_zero w m d.1 tail)
    where
      head : w v ≡ 0
      head = rw (bytes_eq_refl j) at (h j)

      tail : (i : Bytes) → weight_of w (lookup i m) ≡ 0
      tail i = elim (Bool-cases (bytes_eq j i)) [
        | inl e ↦ rw (lookup-Absent i m (Absent-same j i m e d.0))
        | inr e ↦ rw e at (h i)
      ]

  -- A predicate of the entries, and what keeps it.
  abbrev pub AllEntries {κ} : (Bytes → V → Type κ) → Assoc V → Type κ
  AllEntries P [] = Unit
  AllEntries P ((j, v) ∷ m) = P j v × AllEntries P m

module _ {ℓ κ} {V : Type ℓ} (P : Bytes → V → Type κ) where
  pub AllEntries-without : (k : Bytes) (m : Assoc V) → AllEntries P m → AllEntries P (without k m)
  unfolding without
  AllEntries-without k [] h = tt
  AllEntries-without k ((j, v) ∷ m) h = elim (Bool-cases (bytes_eq j k)) [
    | inl e ↦ rw e (AllEntries-without k m h.1)
    | inr e ↦ rw e (h.0, AllEntries-without k m h.1)
  ]

  pub AllEntries-upsert :
      (k : Bytes) (d : V) (f : V → V) (m : Assoc V)
      → P k (f d)
      → ((j : Bytes) (v : V) → P j v → P j (f v))
      → AllEntries P m
      → AllEntries P (upsert k d f m)
  unfolding upsert
  AllEntries-upsert k d f [] z g h = (z, tt)
  AllEntries-upsert k d f ((j, v) ∷ m) z g h = elim (Bool-cases (bytes_eq j k)) [
    | inl e ↦ rw e (g j v h.0, h.1)
    | inr e ↦ rw e (h.0, AllEntries-upsert k d f m z g h.1)
  ]

  pub AllEntries-lookup :
      (k : Bytes) (m : Assoc V) (v : V) → AllEntries P m → lookup k m ≡ some v → P k v
  unfolding lookup
  AllEntries-lookup k [] v h p = cc
  AllEntries-lookup k ((j, u) ∷ m) v h p = elim (Bool-cases (bytes_eq j k)) [
    | inl e ↦
        let q : some u ≡ some v = rw e at p in
        let same : u ≡ v = cc q in subst (P k) same (subst (λ x. P x u) (bytes_eq→≡ j k e) h.0)
    | inr e ↦ AllEntries-lookup k m v h.1 (rw e at p)
  ]
