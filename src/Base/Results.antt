-- ===== src/Base/Results.antt =====
-- Rust's `Result` as a type of the model's own, its `?` as bind, and machine arithmetic that is checked.
use Prim.Native.Nat.{ℕ, ◌+◌, ◌-◌, ◌%◌, ◌^◌}
use mathlib.Core.Path.{◌≡◌, refl, ap, sym}
use mathlib.Core.Logic.{◌⊎◌, inl, inr}
use mathlib.Core.Bool.{Bool, true, false}
use mathlib.Core.Option.{Option, none, some}
use vectorseam.Base.Tests.{Bool-cases, some-injective, leb, if◌then◌else◌}

pub data Result {ℓ κ} (E : Type ℓ) (A : Type κ) : Type (ℓ ⊔ κ) where
  ok : A → Result E A
  err : E → Result E A

module _ {ℓ κ} {E : Type ℓ} {A : Type κ} where
  abbrev pub is_ok : Result E A → Bool
  is_ok (err failure) = false
  is_ok (ok value) = true

  -- `option.ok_or(failure)`
  abbrev pub ok_or : Option A → E → Result E A
  ok_or (some value) failure = ok value
  ok_or none failure = err failure

  -- `result.map_err(convert)`
  abbrev pub map_err {μ} : {F : Type μ} → (E → F) → Result E A → Result F A
  map_err convert (err failure) = err (convert failure)
  map_err convert (ok value) = ok value

-- `if bad { return Err(failure) }`
abbrev pub fail_if {ℓ} : {E : Type ℓ} → Bool → E → Result E (Unit {0})
fail_if false failure = ok tt
fail_if true failure = err failure

-- `?`
infixl 5 ◌>>=◌ ◌>>◌
abbrev pub ◌>>=◌ {ℓ κ μ} :
    {E : Type ℓ} {A : Type κ} {B : Type μ} → Result E A → (A → Result E B) → Result E B
err failure >>= next = err failure
ok value >>= next = next value

abbrev pub ◌>>◌ {ℓ κ μ} :
    {E : Type ℓ} {A : Type κ} {B : Type μ} → Result E A → Result E B → Result E B
first >> second = first >>= λ value. second

pub Result-cases {ℓ κ} :
    {E : Type ℓ} {A : Type κ} (result : Result E A)
    → ((value : A) × (result ≡ ok value)) ⊎ ((failure : E) × (result ≡ err failure))
Result-cases (ok value) = inl (value, refl)
Result-cases (err failure) = inr (failure, refl)

pub >>=-eq-ok {ℓ κ μ} :
    {E : Type ℓ} {A : Type κ} {B : Type μ} (first : Result E A) (next : A → Result E B) {result : B}
    → (first >>= next) ≡ ok result
    → (value : A) × (first ≡ ok value) × (next value ≡ ok result)
>>=-eq-ok (err failure) next e = cc
>>=-eq-ok (ok value) next e = (value, refl, e)

pub ok-injective {ℓ κ} :
    {E : Type ℓ} {A : Type κ} {a b : A} → ◌≡◌ {A = Result E A} (ok a) (ok b) → a ≡ b
ok-injective e = cc e

pub ok_or-eq-ok {ℓ κ} :
    {E : Type ℓ} {A : Type κ} (option : Option A) (failure : E) {value : A}
    → ok_or option failure ≡ ok value
    → option ≡ some value
ok_or-eq-ok none failure e = cc
ok_or-eq-ok (some a) failure e = ap some (ok-injective e)

pub map_err-eq-ok {ℓ κ μ} :
    {E : Type ℓ} {F : Type κ} {A : Type μ} (convert : E → F) (result : Result E A) {value : A}
    → map_err convert result ≡ ok value
    → result ≡ ok value
map_err-eq-ok convert (err failure) e = cc
map_err-eq-ok convert (ok a) e = ap ok (ok-injective e)

pub fail_if-eq-ok {ℓ} :
    {E : Type ℓ} (b : Bool) (e : E) {u : Unit {0}} → fail_if b e ≡ ok u → b ≡ false
fail_if-eq-ok true e h = cc
fail_if-eq-ok false e h = refl

-- A chain that begins with a check, or with an option, and succeeds.
pub fail_if_then-eq-ok {ℓ κ} :
    {E : Type ℓ} {B : Type κ} (b : Bool) (e : E) (next : Unit {0} → Result E B) {result : B}
    → (fail_if b e >>= next) ≡ ok result
    → (b ≡ false) × (next tt ≡ ok result)
fail_if_then-eq-ok true e next h = cc
fail_if_then-eq-ok false e next h = (refl, h)

pub ok_or_then-eq-ok {ℓ κ μ} :
    {E : Type ℓ} {A : Type κ} {B : Type μ} (option : Option A) (e : E) (next : A → Result E B)
    {result : B}
    → (ok_or option e >>= next) ≡ ok result
    → (value : A) × (option ≡ some value) × (next value ≡ ok result)
ok_or_then-eq-ok none e next h = cc
ok_or_then-eq-ok (some value) e next h = (value, refl, h)

-- The largest `usize` and `u64` (a 64-bit platform), and the largest `u32` and `u16`.
abbrev pub usize_max : ℕ
usize_max = 2 ^ 64 - 1

abbrev pub u64_max : ℕ
u64_max = 2 ^ 64 - 1

abbrev pub u32_max : ℕ
u32_max = 2 ^ 32 - 1

abbrev pub u16_max : ℕ
u16_max = 2 ^ 16 - 1

-- `fetch_add(1)` of an `AtomicU64`, which wraps.
abbrev pub bump : ℕ → ℕ
bump n = (n + 1) % 2 ^ 64

abbrev pub i32_max : ℕ
i32_max = 2 ^ 31 - 1

abbrev pub i64_max : ℕ
i64_max = 2 ^ 63 - 1

-- `try_from` into a type whose values end at `limit`.
abbrev pub try_from : ℕ → ℕ → Option ℕ
try_from limit n = if leb n limit then some n else none

pub try_from-eq-some : (limit n value : ℕ) → try_from limit n ≡ some value → n ≡ value
try_from-eq-some limit n value h = elim (Bool-cases (leb n limit)) [
  | inl e ↦ some-injective (rw e at h)
  | inr e ↦ absurd (cc (rw e at h))
]

-- `checked_add` of a type whose values end at `limit`.
abbrev pub checked_add : ℕ → ℕ → ℕ → Option ℕ
checked_add limit a b = if leb (a + b) limit then some (a + b) else none

pub checked_add-eq-some : (limit a b value : ℕ) → checked_add limit a b ≡ some value → value ≡ a + b
checked_add-eq-some limit a b value h = elim (Bool-cases (leb (a + b) limit)) [
  | inl e ↦ sym (some-injective (rw e at h))
  | inr e ↦ absurd (cc (rw e at h))
]

-- `checked_sub` of an unsigned type.
abbrev pub checked_sub : ℕ → ℕ → Option ℕ
checked_sub a b = if leb b a then some (a - b) else none

-- `saturating_add` of a type whose values end at `limit`.
abbrev pub saturating_add : ℕ → ℕ → ℕ → ℕ
saturating_add limit a b = if leb (a + b) limit then a + b else limit
