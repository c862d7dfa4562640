-- ===== src/Base/Split.antt =====
-- `split` and `join` of Rust's `str`, at a separator of one byte, and their laws.
use vectorseam.Base.Lists.{All, length}
use vectorseam.Base.Tests.{◌==◌, if◌then◌else◌, Bool-cases, ==→≡}
use vectorseam.Base.Text.{Bytes}
use Prim.Native.Nat.{ℕ, ◌<◌}
use mathlib.Core.Path.{◌≡◌, refl, ap, sym, ◌∙◌}
use mathlib.Core.Logic.{◌≢◌, inl, inr}
use mathlib.Core.List.{List, [], ◌∷◌, ◌++◌}
use native.Mathlib.Omega.{arith}

abbrev cons_head : ℕ → List Bytes → List Bytes
cons_head b [] = (b ∷ []) ∷ []
cons_head b (s ∷ ss) = (b ∷ s) ∷ ss

-- `text.split(separator)`, for a separator of one byte: never empty.
unfoldable pub split : ℕ → Bytes → List Bytes
split c [] = [] ∷ []
split c (b ∷ bs) = let rest = split c bs in if b == c then [] ∷ rest else cons_head b rest

-- `segments.join(separator)`
unfoldable pub join : ℕ → List Bytes → Bytes
join c [] = []
join c (s ∷ []) = s
join c (s ∷ t ∷ ss) = s ++ (c ∷ join c (t ∷ ss))

-- No byte of the text is the separator.
abbrev pub NoSeparator : ℕ → Bytes → Type 0
NoSeparator c = All (λ b. b ≢ c)

cons_head_nonempty : (b : ℕ) (ss : List Bytes) → 0 < length (cons_head b ss)
cons_head_nonempty b [] = omega arith
cons_head_nonempty b (s ∷ ss) = omega arith

pub split_nonempty : (c : ℕ) (bs : Bytes) → 0 < length (split c bs)
unfolding split
split_nonempty c [] = omega arith
split_nonempty c (b ∷ bs) = elim (Bool-cases (b == c)) [
  | inl e ↦ rw e (omega arith)
  | inr e ↦ rw e (cons_head_nonempty b (split c bs))
]

join-cons_head :
    (c b : ℕ) (ss : List Bytes) → 0 < length ss → join c (cons_head b ss) ≡ b ∷ join c ss
unfolding join
join-cons_head c b [] h = absurd (omega arith)
join-cons_head c b (s ∷ []) h = refl
join-cons_head c b (s ∷ t ∷ ss) h = refl

join-nil_cons : (c : ℕ) (ss : List Bytes) → 0 < length ss → join c ([] ∷ ss) ≡ c ∷ join c ss
unfolding join
join-nil_cons c [] h = absurd (omega arith)
join-nil_cons c (s ∷ ss) h = refl

-- Joining what was split gives the text back.
pub join-split : (c : ℕ) (bs : Bytes) → join c (split c bs) ≡ bs
unfolding split
join-split c [] = unfold join in refl
join-split c (b ∷ bs) = elim (Bool-cases (b == c)) [
  | inl e ↦ rw e (
      join-nil_cons c (split c bs) (split_nonempty c bs)
      ∙ ap (◌∷◌ c) (join-split c bs)
      ∙ ap (λ x. x ∷ bs) (sym (==→≡ b c e)))
  | inr e ↦
      rw e (join-cons_head c b (split c bs) (split_nonempty c bs) ∙ ap (◌∷◌ b) (join-split c bs))
]

-- A text without separators is one segment.
pub split_one : (c : ℕ) (s : Bytes) → NoSeparator c s → split c s ≡ s ∷ []
unfolding split
split_one c [] h = refl
split_one c (b ∷ bs) h = ground (arith, split_one c bs h.1)

-- A separator ends the first segment.
pub split-append : (c : ℕ) (s t : Bytes) → NoSeparator c s → split c (s ++ (c ∷ t)) ≡ s ∷ split c t
unfolding split
split-append c [] t h = ground arith
split-append c (b ∷ bs) t h = ground (arith, split-append c bs t h.1)

-- Segments without separators come back from their join.
pub split-join :
    (c : ℕ) (ss : List Bytes) → 0 < length ss → All (NoSeparator c) ss → split c (join c ss) ≡ ss
unfolding join
split-join c [] n h = absurd (omega arith)
split-join c (s ∷ []) n h = split_one c s h.0
split-join c (s ∷ t ∷ ss) n h =
    split-append c s (join c (t ∷ ss)) h.0 ∙ ap (◌∷◌ s) (split-join c (t ∷ ss) (omega arith) h.1)
