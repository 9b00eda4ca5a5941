-- ===== src/Bytes.antt =====
-- Big-endian integers (`to_be_bytes`, `from_be_bytes`, `put_u32`, `get_u64`, ...) and the bit tests
-- of the packet code. A byte is a number below 256, a slice a list of them.
use bonded.Prelude.{ℕ, ◌+◌, ◌*◌, ◌/◌, ◌%◌, ◌^◌, ◌<◌, ◌≡◌, Bool, List, [], ◌∷◌, ◌==◌, arith, IsBytes}

-- `v as u16`.to_be_bytes()`: what does not fit in the width is cut off.
unfoldable pub be16 : ℕ → List ℕ
be16 v = v / 256 % 256 ∷ v % 256 ∷ []

unfoldable pub be32 : ℕ → List ℕ
be32 v = v / 2 ^ 24 % 256 ∷ v / 2 ^ 16 % 256 ∷ v / 256 % 256 ∷ v % 256 ∷ []

unfoldable pub be64 : ℕ → List ℕ
be64 v =
    v / 2 ^ 56 % 256
    ∷ v / 2 ^ 48 % 256
    ∷ v / 2 ^ 40 % 256
    ∷ v / 2 ^ 32 % 256
    ∷ v / 2 ^ 24 % 256
    ∷ v / 2 ^ 16 % 256
    ∷ v / 256 % 256
    ∷ v % 256
    ∷ []

unfoldable pub from_be16 : ℕ → ℕ → ℕ
from_be16 a b = a * 256 + b

unfoldable pub from_be32 : ℕ → ℕ → ℕ → ℕ → ℕ
from_be32 a b c d = a * 2 ^ 24 + b * 2 ^ 16 + c * 256 + d

unfoldable pub from_be64 : (a b c d e f g h : ℕ) → ℕ
from_be64 a b c d e f g h =
    a * 2 ^ 56 + b * 2 ^ 48 + c * 2 ^ 40 + d * 2 ^ 32 + e * 2 ^ 24 + f * 2 ^ 16 + g * 256 + h

-- `x & (2^k - 1)`, `x >> k` and `x & 2^k != 0`.
abbrev pub low_bits : ℕ → ℕ → ℕ
low_bits x k = x % 2 ^ k

abbrev pub shr : ℕ → ℕ → ℕ
shr x k = x / 2 ^ k

abbrev pub has_bit : ℕ → ℕ → Bool
has_bit x k = x / 2 ^ k % 2 == 1

pub from_be16-be16 : (v : ℕ) → v < 2 ^ 16 → from_be16 (v / 256 % 256) (v % 256) ≡ v
unfolding from_be16
from_be16-be16 v h = omega arith

pub from_be32-be32 :
    (v : ℕ)
    → v < 2 ^ 32
    → from_be32 (v / 2 ^ 24 % 256) (v / 2 ^ 16 % 256) (v / 256 % 256) (v % 256) ≡ v
unfolding from_be32
from_be32-be32 v h = omega arith

pub from_be64-be64 :
    (v : ℕ)
    → v < 2 ^ 64
    → from_be64
        (v / 2 ^ 56 % 256)
        (v / 2 ^ 48 % 256)
        (v / 2 ^ 40 % 256)
        (v / 2 ^ 32 % 256)
        (v / 2 ^ 24 % 256)
        (v / 2 ^ 16 % 256)
        (v / 256 % 256)
        (v % 256)
      ≡ v
unfolding from_be64
from_be64-be64 v h = omega arith

pub be16-from_be16 : (a b : ℕ) → a < 256 → b < 256 → be16 (from_be16 a b) ≡ a ∷ b ∷ []
unfolding be16 from_be16
be16-from_be16 a b p q = ground arith

pub be32-from_be32 :
    (a b c d : ℕ) → IsBytes (a ∷ b ∷ c ∷ d ∷ []) → be32 (from_be32 a b c d) ≡ a ∷ b ∷ c ∷ d ∷ []
unfolding be32 from_be32
be32-from_be32 a b c d w = ground arith

pub be64-from_be64 :
    (a b c d e f g h : ℕ)
    → IsBytes (a ∷ b ∷ c ∷ d ∷ e ∷ f ∷ g ∷ h ∷ [])
    → be64 (from_be64 a b c d e f g h) ≡ a ∷ b ∷ c ∷ d ∷ e ∷ f ∷ g ∷ h ∷ []
unfolding be64 from_be64
be64-from_be64 a b c d e f g h w = ground arith

pub from_be32-lt : (a b c d : ℕ) → IsBytes (a ∷ b ∷ c ∷ d ∷ []) → from_be32 a b c d < 2 ^ 32
unfolding from_be32
from_be32-lt a b c d w = omega arith

pub from_be64-lt :
    (a b c d e f g h : ℕ)
    → IsBytes (a ∷ b ∷ c ∷ d ∷ e ∷ f ∷ g ∷ h ∷ [])
    → from_be64 a b c d e f g h < 2 ^ 64
unfolding from_be64
from_be64-lt a b c d e f g h w = omega arith

pub be16-IsBytes : (v : ℕ) → IsBytes (be16 v)
unfolding be16
be16-IsBytes v = omega arith

pub be32-IsBytes : (v : ℕ) → IsBytes (be32 v)
unfolding be32
be32-IsBytes v = omega arith

pub be64-IsBytes : (v : ℕ) → IsBytes (be64 v)
unfolding be64
be64-IsBytes v = omega arith
