-- ===== src/Prelude/Decimal.antt =====
-- Numbers in decimal: `to_string` and `parse` of the unsigned integers.
use Prim.Native.Nat.{ℕ, zero, suc, ◌+◌, ◌-◌, ◌*◌, ◌/◌, ◌%◌, ◌≤◌, ◌<◌}
use mathlib.Core.Path.{◌≡◌, refl, ap, ◌∙◌}
use mathlib.Core.Logic.{inl, inr}
use mathlib.Core.Bool.{Bool, ◌&&◌}
use mathlib.Core.Option.{Option, none, some}
use mathlib.Core.List.{[], ◌∷◌, ◌++◌}
use native.Mathlib.Omega.{arith}
use bonded.Prelude.Tests.{Text, ltb, leb, ◌==◌, if◌then◌else◌, Bool-cases}
use bonded.Prelude.Lists.{All}

pub is_digit : ℕ → Bool
is_digit c = leb 48 c && leb c 57

-- The digits of a number, last digit last. One more than the number is fuel enough.
unfoldable pub print_with : ℕ → ℕ → Text
print_with zero n = []
print_with (suc fuel) n =
    let front = print_with fuel (n / 10) in
    if ltb n 10 then (48 + n) ∷ [] else front ++ (48 + n % 10) ∷ []

unfoldable pub print : ℕ → Text
unfolding print_with
print n = print_with (suc n) n

-- The digits from the left; a value from `bound` on is an overflow.
unfoldable pub parse_digits : ℕ → ℕ → Text → Option ℕ
unfolding is_digit
parse_digits bound acc [] = some acc
parse_digits bound acc (c ∷ cs) =
    let rest = parse_digits bound (acc * 10 + (c - 48)) cs in
    if is_digit c && ltb (acc * 10 + (c - 48)) bound then rest else none

-- `parse`: digits, at least one, after a plus sign or none.
unfoldable pub parse : ℕ → Text → Option ℕ
unfolding parse_digits
parse bound [] = none
parse bound (c ∷ []) = parse_digits bound 0 (c ∷ [])
parse bound (c ∷ d ∷ ds) =
    if c == 43 then parse_digits bound 0 (d ∷ ds) else parse_digits bound 0 (c ∷ d ∷ ds)

parse_digits-append :
    (bound acc : ℕ) (xs ys : Text) (n : ℕ)
    → parse_digits bound acc xs ≡ some n
    → parse_digits bound acc (xs ++ ys) ≡ parse_digits bound n ys
unfolding parse_digits
parse_digits-append bound acc [] ys n h = ground arith
parse_digits-append bound acc (x ∷ xs) ys n h =
    ground (arith, parse_digits-append bound (acc * 10 + (x - 48)) xs ys n)

parse_digit :
    (bound acc d : ℕ)
    → d < 10
    → acc * 10 + d < bound
    → parse_digits bound acc ((48 + d) ∷ []) ≡ some (acc * 10 + d)
unfolding parse_digits is_digit
parse_digit bound acc d h l = ground arith

parse_digits-print :
    (bound fuel n : ℕ) → n < fuel → n < bound → parse_digits bound 0 (print_with fuel n) ≡ some n
unfolding print_with
parse_digits-print bound zero n h l = absurd (omega arith)
parse_digits-print bound (suc fuel) n h l = elim (Bool-cases (ltb n 10)) [
  | inl small ↦
      let one : 0 * 10 + n ≡ n = omega arith in
      rw small (parse_digit bound 0 n (ground arith) (omega arith) ∙ ap (λ k. some k) one)
  | inr large ↦
      let front = parse_digits-print bound fuel (n / 10) (ground arith) (omega arith) in
      let back = parse_digit bound (n / 10) (n % 10) (omega arith) (omega arith) in
      let whole : n / 10 * 10 + n % 10 ≡ n = omega arith in
      rw large (
        parse_digits-append bound 0 (print_with fuel (n / 10)) ((48 + n % 10) ∷ []) (n / 10) front
        ∙ back
        ∙ ap (λ k. some k) whole)
]

-- Every character is a digit, and there is one.
abbrev pub IsDigits : Text → Type 0
IsDigits = All (λ c. (48 ≤ c) × (c ≤ 57))

IsDigits-append : (xs : Text) (d : ℕ) → d < 10 → IsDigits xs → IsDigits (xs ++ (48 + d) ∷ [])
IsDigits-append [] d h w = omega arith
IsDigits-append (x ∷ xs) d h w = (w.0, IsDigits-append xs d h w.1)

print_with-IsDigits : (fuel n : ℕ) → IsDigits (print_with fuel n)
unfolding print_with
print_with-IsDigits zero n = tt
print_with-IsDigits (suc fuel) n = elim (Bool-cases (ltb n 10)) [
  | inl small ↦ rw small (ground arith)
  | inr large ↦ rw large (
      IsDigits-append (print_with fuel (n / 10)) (n % 10) (omega arith)
        (print_with-IsDigits fuel (n / 10)))
]

pub print-IsDigits : (n : ℕ) → IsDigits (print n)
unfolding print
print-IsDigits n = print_with-IsDigits (suc n) n

parse_unsigned :
    (bound : ℕ) (xs : Text) (n : ℕ)
    → IsDigits xs
    → parse_digits bound 0 xs ≡ some n
    → ([] ≡ xs → ⊥)
    → parse bound xs ≡ some n
unfolding parse
parse_unsigned bound [] n w h ne = absurd (ne refl)
parse_unsigned bound (c ∷ []) n w h ne = h
parse_unsigned bound (c ∷ d ∷ ds) n w h ne = ground arith

append-ne : (xs : Text) (d : ℕ) → [] ≡ xs ++ d ∷ [] → ⊥
append-ne [] d h = ground arith
append-ne (x ∷ xs) d h = ground arith

print_with-ne : (fuel n : ℕ) → [] ≡ print_with (suc fuel) n → ⊥
unfolding print_with
print_with-ne fuel n h = elim (Bool-cases (ltb n 10)) [
  | inl small ↦ ground arith
  | inr large ↦ append-ne (print_with fuel (n / 10)) (48 + n % 10) (ground arith)
]

-- A number below the bound is printed and parsed back.
pub parse-print : (bound n : ℕ) → n < bound → parse bound (print n) ≡ some n
unfolding print
parse-print bound n h =
    parse_unsigned bound (print_with (suc n) n) n (print_with-IsDigits (suc n) n)
      (parse_digits-print bound (suc n) n (omega arith) h) (print_with-ne n n)
