-- ===== src/Base/Ordered.antt =====
-- Rust's `BTreeMap` with byte-string keys: association lists in the order of the keys.
use mathlib.Core.Bool.{Bool, true, false, ◌&&◌, ◌||◌}
use mathlib.Core.List.{List, [], ◌∷◌}
use vectorseam.Base.Tests.{ltb, ◌==◌, if◌then◌else◌}
use vectorseam.Base.Text.{Bytes, bytes_eq}
use vectorseam.Base.Maps.{Assoc}

-- `<` of `str`
unfoldable pub bytes_lt : Bytes → Bytes → Bool
bytes_lt xs [] = false
bytes_lt [] (y ∷ ys) = true
bytes_lt (x ∷ xs) (y ∷ ys) = let later = bytes_lt xs ys in ltb x y || ((x == y) && later)

-- The map after `map.insert(key, value)`.
unfoldable pub btree_insert {ℓ} : {V : Type ℓ} → Bytes → V → Assoc V → Assoc V
btree_insert k v [] = (k, v) ∷ []
btree_insert k v ((j, u) ∷ m) =
    let later = btree_insert k v m in
    if bytes_eq j k
    then (k, v) ∷ m
    else (if bytes_lt k j then (k, v) ∷ (j, u) ∷ m else (j, u) ∷ later)

-- `map.values()`
abbrev pub values {ℓ} : {V : Type ℓ} → Assoc V → List V
values [] = []
values ((j, v) ∷ m) = v ∷ values m
