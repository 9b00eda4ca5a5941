-- ===== src/Prelude/Utf8.antt =====
-- `str::from_utf8`: which bytes are UTF-8.
use Prim.Native.Nat.{ℕ, zero, suc, ◌<◌}
use mathlib.Core.Path.{◌≡◌, refl}
use mathlib.Core.Bool.{Bool, true, false, ◌&&◌}
use mathlib.Core.Option.{Option, none, some}
use mathlib.Core.List.{List, [], ◌∷◌, ◌++◌}
use native.Mathlib.Omega.{arith}
use bonded.Prelude.Tests.{ltb, leb, ◌==◌, if◌then◌else◌}
use bonded.Prelude.Lists.{All}

-- After a first byte: how many bytes follow, and the range of the next.
unfoldable pub follow : ℕ → Option (ℕ × ℕ × ℕ)
follow b =
    if ltb b 128
    then some (0, 0, 0)
    else if ltb b 194
    then none
    else if ltb b 224
    then some (1, 128, 191)
    else if b == 224
    then some (2, 160, 191)
    else if b == 237
    then some (2, 128, 159)
    else if ltb b 240
    then some (2, 128, 191)
    else if b == 240
    then some (3, 144, 191)
    else if ltb b 244
    then some (3, 128, 191)
    else if b == 244
    then some (3, 128, 143)
    else none

unfoldable pub valid_from : ℕ → ℕ → ℕ → List ℕ → Bool
unfolding follow
valid_from zero low high [] = true
valid_from (suc n) low high [] = false
valid_from zero low high (b ∷ bs) = elim (follow b) [
  | none ↦ false
  | some (n, l, h) ↦ valid_from n l h bs
]
valid_from (suc n) low high (b ∷ bs) = elim (leb low b && leb b high) [
  | true ↦ valid_from n 128 191 bs
  | false ↦ false
]

unfoldable pub is_utf8 : List ℕ → Bool
unfolding valid_from
is_utf8 = valid_from zero 0 0

abbrev pub IsAscii : List ℕ → Type 0
IsAscii = All (λ c. c < 128)

pub is_utf8-append : (xs ys : List ℕ) → IsAscii xs → is_utf8 (xs ++ ys) ≡ is_utf8 ys
unfolding is_utf8
is_utf8-append [] ys w = refl
is_utf8-append (x ∷ xs) ys w = ground (arith, is_utf8-append xs ys w.1)
