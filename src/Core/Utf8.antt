-- ===== src/Core/Utf8.antt =====
-- `str::from_utf8` of Rust's standard library, as the automaton of the Unicode table of well-formed
-- byte sequences: the bytes that a leading byte still asks for are ranges that wait.
use vectorseam.Base.{
  ℕ, ◌≡◌, refl, Bool, true, false, ◌&&◌, Option, none, some, List, [], ◌∷◌, arith, leb, ltb, ◌==◌,
  all, if◌then◌else◌, Bytes,
}

abbrev Ranges : Type 0
Ranges = List (ℕ × ℕ)

abbrev between : ℕ → ℕ → ℕ → Bool
between lo hi b = leb lo b && leb b hi

abbrev tail_range : ℕ × ℕ
tail_range = (0x80, 0xbf)

-- What must follow a leading byte.
following : ℕ → Option Ranges
following b =
    if leb b 0x7f
    then some []
    else if between 0xc2 0xdf b
    then some (tail_range ∷ [])
    else if b == 0xe0
    then some ((0xa0, 0xbf) ∷ tail_range ∷ [])
    else if b == 0xed
    then some ((0x80, 0x9f) ∷ tail_range ∷ [])
    else if between 0xe1 0xef b
    then some (tail_range ∷ tail_range ∷ [])
    else if b == 0xf0
    then some ((0x90, 0xbf) ∷ tail_range ∷ tail_range ∷ [])
    else if between 0xf1 0xf3 b
    then some (tail_range ∷ tail_range ∷ tail_range ∷ [])
    else if b == 0xf4
    then some ((0x80, 0x8f) ∷ tail_range ∷ tail_range ∷ [])
    else none

valid_from : Ranges → Bytes → Bool
unfolding following
valid_from [] [] = true
valid_from (r ∷ rs) [] = false
valid_from ((lo, hi) ∷ rs) (b ∷ bs) = between lo hi b && valid_from rs bs
valid_from [] (b ∷ bs) = elim (following b) [ none ↦ false | some rs ↦ valid_from rs bs ]

-- `str::from_utf8(bytes)`; the error's position is never looked at.
unfoldable pub from_utf8 : Bytes → Option Bytes
unfolding valid_from
from_utf8 bs = if valid_from [] bs then some bs else none

abbrev pub is_ascii : Bytes → Bool
is_ascii = all (λ b. ltb b 128)

ascii_valid : (bs : Bytes) → is_ascii bs ≡ true → valid_from [] bs ≡ true
unfolding valid_from
ascii_valid [] h = refl
ascii_valid (b ∷ bs) h = ground (arith, ascii_valid bs)

pub from_utf8-is_ascii : (bs : Bytes) → is_ascii bs ≡ true → from_utf8 bs ≡ some bs
unfolding from_utf8
from_utf8-is_ascii bs h = rw (ascii_valid bs h)

pub from_utf8-eq-some : (bs : Bytes) {s : Bytes} → from_utf8 bs ≡ some s → s ≡ bs
unfolding from_utf8
from_utf8-eq-some bs h = ground arith
