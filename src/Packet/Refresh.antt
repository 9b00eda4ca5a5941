-- ===== src/Packet/Refresh.antt =====
-- The checksum that is written into the header of a packet on its way.
use bonded.Bytes.{be16, be16-IsBytes}
use bonded.Packet.{byte}
use bonded.Packet.Checksum.{word_sum, ones_complement_sum, word_sum-le}
use bonded.Packet.Build.{ipv4_checksum}
use bonded.Packet.Verify.{IsAllOnes, completed, ones_complement_sum-lt}
use bonded.Packet.Rewrite.{}
use bonded.Prelude.{
  ℕ, suc, zero, ◌+◌, ◌-◌, ◌^◌, ◌<◌, ◌≤◌, ◌≡◌, refl, List, [], ◌∷◌, length, take, drop, write_at,
  arith, IsBytes, length-take,
}

next_byte : (i : ℕ) (xs : List ℕ) → i < length xs → drop i xs ≡ byte xs i ∷ drop (suc i) xs
next_byte i [] h = absurd (omega arith)
next_byte zero (x ∷ xs) h = refl
next_byte (suc i) (x ∷ xs) h = next_byte i xs (omega arith)

-- A packet with at least the 20 bytes of a header, by its bytes.
pub twenty :
    (xs : List ℕ)
    → 20 ≤ length xs
    → xs
      ≡ byte xs 0
        ∷ byte xs 1
        ∷ byte xs 2
        ∷ byte xs 3
        ∷ byte xs 4
        ∷ byte xs 5
        ∷ byte xs 6
        ∷ byte xs 7
        ∷ byte xs 8
        ∷ byte xs 9
        ∷ byte xs 10
        ∷ byte xs 11
        ∷ byte xs 12
        ∷ byte xs 13
        ∷ byte xs 14
        ∷ byte xs 15
        ∷ byte xs 16
        ∷ byte xs 17
        ∷ byte xs 18
        ∷ byte xs 19
        ∷ drop 20 xs
twenty xs h =
    let e0 = next_byte 0 xs (omega arith) in
    let e1 = next_byte 1 xs (omega arith) in
    let e2 = next_byte 2 xs (omega arith) in
    let e3 = next_byte 3 xs (omega arith) in
    let e4 = next_byte 4 xs (omega arith) in
    let e5 = next_byte 5 xs (omega arith) in
    let e6 = next_byte 6 xs (omega arith) in
    let e7 = next_byte 7 xs (omega arith) in
    let e8 = next_byte 8 xs (omega arith) in
    let e9 = next_byte 9 xs (omega arith) in
    let e10 = next_byte 10 xs (omega arith) in
    let e11 = next_byte 11 xs (omega arith) in
    let e12 = next_byte 12 xs (omega arith) in
    let e13 = next_byte 13 xs (omega arith) in
    let e14 = next_byte 14 xs (omega arith) in
    let e15 = next_byte 15 xs (omega arith) in
    let e16 = next_byte 16 xs (omega arith) in
    let e17 = next_byte 17 xs (omega arith) in
    let e18 = next_byte 18 xs (omega arith) in let e19 = next_byte 19 xs (omega arith) in cc

take-IsBytes : (n : ℕ) (xs : List ℕ) → IsBytes xs → IsBytes (take n xs)
take-IsBytes zero xs w = tt
take-IsBytes (suc n) [] w = tt
take-IsBytes (suc n) (x ∷ xs) w = (w.0, take-IsBytes n xs w.1)

abbrev past_header : ℕ → ℕ
past_header n = suc (
    suc (
      suc (
        suc (
          suc (
            suc (
              suc (
                suc (suc (suc (suc (suc (suc (suc (suc (suc (suc (suc (suc (suc n)))))))))))))))))))

refreshed_sum_at :
    (n : ℕ) (b0 b1 b2 b3 b4 b5 b6 b7 b8 b9 b10 b11 b12 b13 b14 b15 b16 b17 b18 b19 : ℕ)
    (rest : List ℕ) (c : ℕ)
    → c < 2 ^ 16
    → word_sum (
        take (past_header n) (
          write_at 10 (be16 c) (
            b0 ∷ b1 ∷ b2 ∷ b3 ∷ b4 ∷ b5 ∷ b6 ∷ b7 ∷ b8 ∷ b9 ∷ b10 ∷ b11 ∷ b12 ∷ b13 ∷ b14 ∷ b15
            ∷ b16 ∷ b17 ∷ b18 ∷ b19 ∷ rest)))
      ≡ word_sum (
          take (past_header n) (
            write_at 10 (be16 0) (
              b0 ∷ b1 ∷ b2 ∷ b3 ∷ b4 ∷ b5 ∷ b6 ∷ b7 ∷ b8 ∷ b9 ∷ b10 ∷ b11 ∷ b12 ∷ b13 ∷ b14 ∷ b15
              ∷ b16 ∷ b17 ∷ b18 ∷ b19 ∷ rest)))
        + c
unfolding word_sum be16
refreshed_sum_at n b0 b1 b2 b3 b4 b5 b6 b7 b8 b9 b10 b11 b12 b13 b14 b15 b16 b17 b18 b19 rest c h =
    omega arith

pub rewritten_twice :
    (c : ℕ) (xs : List ℕ)
    → 20 ≤ length xs
    → write_at 10 (be16 c) (write_at 10 (be16 0) xs) ≡ write_at 10 (be16 c) xs
unfolding be16
rewritten_twice c xs h = let e = twenty xs h in rw e refl

refreshed_sum :
    (k : ℕ) (xs : List ℕ) (c : ℕ)
    → 20 ≤ length xs
    → 20 ≤ k
    → c < 2 ^ 16
    → word_sum (take k (write_at 10 (be16 c) xs)) ≡ word_sum (take k (write_at 10 (be16 0) xs)) + c
refreshed_sum k xs c hx hk hc =
    let e = twenty xs hx in
    let n : k ≡ past_header (k - 20) = omega arith in
    rw (e, n)
      (refreshed_sum_at (k - 20) (byte xs 0) (byte xs 1) (byte xs 2) (byte xs 3) (byte xs 4)
        (byte xs 5) (byte xs 6) (byte xs 7) (byte xs 8) (byte xs 9) (byte xs 10) (byte xs 11)
        (byte xs 12) (byte xs 13) (byte xs 14) (byte xs 15) (byte xs 16) (byte xs 17) (byte xs 18)
        (byte xs 19) (drop 20 xs) c hc)

pub All-write_at :
    (i : ℕ) (src xs : List ℕ) → IsBytes src → IsBytes xs → IsBytes (write_at i src xs)
All-write_at i src [] hs hx = tt
All-write_at (suc i) src (x ∷ xs) hs hx = (hx.0, All-write_at i src xs hs hx.1)
All-write_at zero [] (x ∷ xs) hs hx = hx
All-write_at zero (s ∷ src) (x ∷ xs) hs hx = (hs.0, All-write_at zero src xs hs.1 hx.1)

-- Whatever stood in the checksum field, the header's checksum is valid afterwards.
pub refresh_ip_checksum-valid :
    (xs : List ℕ) (n : ℕ)
    → IsBytes xs
    → 20 ≤ length xs
    → 20 ≤ n
    → n ≤ 60
    → let c = ipv4_checksum (take n (write_at 10 (be16 0) xs)) in
      IsAllOnes (word_sum (take n (write_at 10 (be16 c) xs)))
unfolding ipv4_checksum
refresh_ip_checksum-valid xs n w hx hn hm =
    let zeroed = take n (write_at 10 (be16 0) xs) in
    let c = ones_complement_sum zeroed in
    let bytes =
      take-IsBytes n (write_at 10 (be16 0) xs) (All-write_at 10 (be16 0) xs (be16-IsBytes 0) w) in
    let bound = word_sum-le zeroed bytes in
    let len = length-take n (write_at 10 (be16 0) xs) in
    completed zeroed (take n (write_at 10 (be16 c) xs)) (omega arith)
      (refreshed_sum n xs c hx hn (ones_complement_sum-lt zeroed))
