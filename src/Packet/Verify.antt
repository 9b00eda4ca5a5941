-- ===== src/Packet/Verify.antt =====
-- The checksums of the packets that are built.
use bonded.Bytes.{be16}
use bonded.Packet.{Ipv4Addr, octets}
use bonded.Packet.Checksum.{
  word_sum, residue, ones_complement_sum, ones_complement_sum-residue, word_sum-le,
}
use bonded.Packet.Build.{
  ipv4_header, with_header_checksum, ipv4_checksum, pseudo, padded, tcp_udp_checksum_ipv4,
  udp_segment,
}
use bonded.Prelude.{
  subst, ℕ, ◌+◌, ◌-◌, ◌*◌, ◌%◌, ◌^◌, ◌<◌, ◌≤◌, ◌≡◌, refl, sym, ap, ◌∙◌, List, [], ◌∷◌, ◌++◌, length,
  ◌==◌, if◌then◌else◌, arith, IsBytes, Bool-cases, inl, inr,
}

abbrev pub IsAddr : Ipv4Addr → Type 0
IsAddr ip = (ip.a < 256) × (ip.b < 256) × (ip.c < 256) × (ip.d < 256)

pub complement_sums : (s : ℕ) → residue (s + (65535 - residue s)) ≡ 65535
complement_sums s = ground arith

-- What a receiver asks of the sum of the 16-bit words: in one's complement it is all ones, so it is a
-- positive multiple of 65535.
abbrev pub IsAllOnes : ℕ → Type 0
IsAllOnes s = (0 < s) × (s % 65535 ≡ 0)

residue-IsAllOnes : (s : ℕ) → residue s ≡ 65535 → IsAllOnes s
residue-IsAllOnes s h = (ground arith, ground arith)

-- Adding the checksum to the words completes the sum.
pub completed :
    (bs bs' : List ℕ)
    → word_sum bs + 65535 < 2 ^ 32
    → word_sum bs' ≡ word_sum bs + ones_complement_sum bs
    → IsAllOnes (word_sum bs')
completed bs bs' b e =
    let r = ones_complement_sum-residue bs (omega arith) in
    residue-IsAllOnes (word_sum bs') (rw (e, r) (complement_sums (word_sum bs)))

pub ones_complement_sum-lt : (bs : List ℕ) → ones_complement_sum bs < 2 ^ 16
unfolding ones_complement_sum
ones_complement_sum-lt bs = omega arith

header_word_sum :
    (t i f p c : ℕ) (src dst : Ipv4Addr)
    → c < 2 ^ 16
    → word_sum (ipv4_header t i f p c (octets src) (octets dst))
      ≡ word_sum (ipv4_header t i f p 0 (octets src) (octets dst)) + c
unfolding word_sum ipv4_header octets be16
header_word_sum t i f p c src dst h = omega arith

header_small :
    (t i f p : ℕ) (src dst : Ipv4Addr)
    → p < 256
    → IsAddr src
    → IsAddr dst
    → let s = word_sum (ipv4_header t i f p 0 (octets src) (octets dst)) in s + 65535 < 2 ^ 32
unfolding word_sum ipv4_header octets be16
header_small t i f p src dst hp hs hd = omega arith

-- The header that the builders write, of any lengths, fields and addresses, has a valid checksum.
pub with_header_checksum-valid :
    (total_len identification fragment protocol : ℕ) (src dst : Ipv4Addr)
    → protocol < 256
    → IsAddr src
    → IsAddr dst
    → IsAllOnes (
        word_sum (
          with_header_checksum total_len identification fragment protocol
            (octets src)
            (octets dst)))
unfolding with_header_checksum ipv4_checksum
with_header_checksum-valid t i f p src dst hp hs hd =
    let zeroed = ipv4_header t i f p 0 (octets src) (octets dst) in
    let small = header_small t i f p src dst hp hs hd in
    completed zeroed (with_header_checksum t i f p (octets src) (octets dst)) small
      (header_word_sum t i f p (ones_complement_sum zeroed) src dst (ones_complement_sum-lt zeroed))

-- Padding leaves the sum as it is.
padded_word_sum : (bs : List ℕ) → word_sum (bs ++ 0 ∷ []) ≡ word_sum bs
unfolding word_sum
padded_word_sum [] = refl
padded_word_sum (x ∷ []) = omega arith
padded_word_sum (x ∷ y ∷ bs) = ap (λ s. x * 256 + y + s) (padded_word_sum bs)

pub word_sum-padded : (n : ℕ) (bs : List ℕ) → word_sum (padded n bs) ≡ word_sum bs
unfolding padded
word_sum-padded n bs = elim (Bool-cases (n % 2 == 1)) [
  | inl odd ↦ rw odd (padded_word_sum bs)
  | inr even ↦ rw even refl
]

-- What a receiver of a UDP datagram sums: the words of the two addresses, the protocol, the datagram's
-- length, and the words of the datagram.
abbrev pub udp_words : Ipv4Addr → Ipv4Addr → List ℕ → ℕ
udp_words src dst segment =
    (src.a * 256 + src.b)
    + (src.c * 256 + src.d)
    + (dst.a * 256 + dst.b)
    + (dst.c * 256 + dst.d)
    + 17
    + length segment
    + word_sum segment

pseudo-udp_words :
    (src dst : Ipv4Addr) (segment : List ℕ)
    → length segment < 2 ^ 16
    → word_sum (pseudo (octets src) (octets dst) 17 segment) ≡ udp_words src dst segment
unfolding word_sum pseudo octets be16
pseudo-udp_words src dst segment h = omega arith

udp_word_sum :
    (src dst : Ipv4Addr) (sp dp c : ℕ) (payload : List ℕ)
    → c < 2 ^ 16
    → word_sum (pseudo (octets src) (octets dst) 17 (udp_segment sp dp c payload))
      ≡ word_sum (pseudo (octets src) (octets dst) 17 (udp_segment sp dp 0 payload)) + c
unfolding word_sum pseudo octets be16 udp_segment
udp_word_sum src dst sp dp c payload h = omega arith

udp_small :
    (src dst : Ipv4Addr) (sp dp : ℕ) (payload : List ℕ)
    → IsAddr src
    → IsAddr dst
    → IsBytes payload
    → length payload ≤ 65507
    → let s = word_sum (pseudo (octets src) (octets dst) 17 (udp_segment sp dp 0 payload)) in
      s + 65535 < 2 ^ 32
unfolding word_sum pseudo octets be16 udp_segment
udp_small src dst sp dp payload hs hd hb hl = let bound = word_sum-le payload hb in omega arith

-- A checksum of 0 is sent as 65535, which completes the sum as well.
never_zero_sums :
    (s : ℕ) → residue (s + (if (65535 - residue s) == 0 then 65535 else 65535 - residue s)) ≡ 65535
never_zero_sums s = ground arith

completed_nonzero :
    (bs bs' : List ℕ)
    → word_sum bs + 65535 < 2 ^ 32
    → word_sum bs'
      ≡ word_sum bs + (if ones_complement_sum bs == 0 then 65535 else ones_complement_sum bs)
    → IsAllOnes (word_sum bs')
completed_nonzero bs bs' b e =
    let r = ones_complement_sum-residue bs (omega arith) in
    residue-IsAllOnes (word_sum bs') (rw (e, r) (never_zero_sums (word_sum bs)))

-- The checksum of a UDP datagram that fits an IPv4 packet is valid and never 0, which would say that
-- there is none; this holds of payloads of odd length too.
pub tcp_udp_checksum_ipv4-valid :
    (src dst : Ipv4Addr) (src_port dst_port : ℕ) (payload : List ℕ)
    → IsAddr src
    → IsAddr dst
    → IsBytes payload
    → length payload ≤ 65507
    → let ck =
        tcp_udp_checksum_ipv4
          (octets src)
          (octets dst)
          17
          (udp_segment src_port dst_port 0 payload) in
      IsAllOnes (udp_words src dst (udp_segment src_port dst_port ck payload))
      × (0 < ck)
      × (ck < 2 ^ 16)
unfolding tcp_udp_checksum_ipv4 udp_segment be16
tcp_udp_checksum_ipv4-valid src dst sp dp payload hs hd hb hl =
    let zeroed = udp_segment sp dp 0 payload in
    let bs = padded (length zeroed) (pseudo (octets src) (octets dst) 17 zeroed) in
    let ck = if ones_complement_sum bs == 0 then 65535 else ones_complement_sum bs in
    let lt : ck < 2 ^ 16 = ground (arith, ones_complement_sum-lt bs) in
    let filled = udp_segment sp dp ck payload in
    let bs' = padded (length filled) (pseudo (octets src) (octets dst) 17 filled) in
    let base = word_sum-padded (length zeroed) (pseudo (octets src) (octets dst) 17 zeroed) in
    let small = udp_small src dst sp dp payload hs hd hb hl in
    let unpadded = word_sum-padded (length filled) (pseudo (octets src) (octets dst) 17 filled) in
    let summed =
      completed_nonzero bs bs' (rw base small)
        (unpadded ∙ udp_word_sum src dst sp dp ck payload lt ∙ ap (λ s. s + ck) (sym base)) in
    (
      subst IsAllOnes (unpadded ∙ pseudo-udp_words src dst filled (omega arith)) summed,
      ground arith,
      lt,
    )
