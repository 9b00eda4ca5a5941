-- ===== src/Packet/Checksum.antt =====
-- The internet checksum: `ones_complement_sum`, and what its value is.
use bonded.Bytes.{from_be16, shr, low_bits}
use bonded.Prelude.{
  ℕ, zero, suc, ◌+◌, ◌-◌, ◌*◌, ◌%◌, ◌^◌, ◌<◌, ◌≤◌, ◌≡◌, List, [], ◌∷◌, length, ◌==◌, if◌then◌else◌,
  arith, IsBytes,
}

-- The loop over the words of the slice, in a u32; an odd byte at the end is a high byte.
sum_words : ℕ → List ℕ → ℕ
unfolding from_be16
sum_words sum [] = sum
sum_words sum (x ∷ []) = (sum + x * 2 ^ 8) % 2 ^ 32
sum_words sum (x ∷ y ∷ bs) = sum_words ((sum + from_be16 x y) % 2 ^ 32) bs

-- `while sum >> 16 != 0 { sum = (sum & 0xffff) + (sum >> 16) }`, with at most `fuel` rounds.
unfoldable pub fold : ℕ → ℕ → ℕ
fold zero sum = sum
fold (suc fuel) sum =
    let rest = fold fuel (low_bits sum 16 + shr sum 16) in if shr sum 16 == 0 then sum else rest

-- Two rounds are enough for a u32.
unfoldable pub ones_complement_sum : List ℕ → ℕ
unfolding sum_words fold
ones_complement_sum bytes = 65535 - low_bits (fold 2 (sum_words 0 bytes)) 16

-- The sum of the words as a number.
unfoldable pub word_sum : List ℕ → ℕ
word_sum [] = 0
word_sum (x ∷ []) = x * 256
word_sum (x ∷ y ∷ bs) = x * 256 + y + word_sum bs

-- The residue of a positive number modulo 65535, from 1 to 65535.
abbrev pub residue : ℕ → ℕ
residue s = if s == 0 then 0 else (s - 1) % 65535 + 1

pub fold-residue : (sum : ℕ) → sum < 2 ^ 32 → fold 2 sum ≡ residue sum
unfolding fold
fold-residue sum h = ground arith

sum_words-word_sum :
    (sum : ℕ) (bs : List ℕ) → sum < 2 ^ 32 → sum_words sum bs ≡ (sum + word_sum bs) % 2 ^ 32
unfolding sum_words word_sum
sum_words-word_sum sum [] h = omega arith
sum_words-word_sum sum (x ∷ []) h = omega arith
sum_words-word_sum sum (x ∷ y ∷ bs) h =
    omega (arith, sum_words-word_sum ((sum + (x * 256 + y)) % 2 ^ 32) bs (omega arith))

-- The sum fits a u32 for slices of up to 65537 words, which are longer than any IPv4 packet.
pub word_sum-le : (bs : List ℕ) → IsBytes bs → word_sum bs ≤ 65535 * length bs
unfolding word_sum
word_sum-le [] w = omega arith
word_sum-le (x ∷ []) w = omega arith
word_sum-le (x ∷ y ∷ bs) w = omega (arith, word_sum-le bs w.1.1)

-- On slices whose words sum to a u32, no round is left over: the checksum is the complement of the
-- residue of the sum modulo 65535, where a positive multiple of 65535 has residue 65535.
pub ones_complement_sum-residue :
    (bs : List ℕ) → word_sum bs < 2 ^ 32 → ones_complement_sum bs ≡ 65535 - residue (word_sum bs)
unfolding ones_complement_sum
ones_complement_sum-residue bs h =
    let s = sum_words-word_sum 0 bs (omega arith) in
    let same : sum_words 0 bs ≡ word_sum bs = omega arith in
    rw same (ground (arith, fold-residue (word_sum bs) h))
