-- ===== src/Packet/Build.antt =====
-- `build_ipv4_udp_packet`, `build_ipv4_icmp_packet` and `wrap_in_ipv4`: packets that are filled in
-- field by field, and their checksums last.
use bonded.Bytes.{be16, low_bits}
use bonded.Packet.{Ipv4Addr, octets, byte}
use bonded.Packet.Checksum.{ones_complement_sum}
use bonded.Prelude.{
  ℕ, ◌+◌, ◌*◌, ◌%◌, List, [], ◌∷◌, ◌++◌, length, ltb, ◌==◌, if◌then◌else◌, Outcome, ok, err, drop,
  take,
}

-- The 20 bytes of a header with no options.
unfoldable pub ipv4_header :
    (total_len identification fragment protocol checksum : ℕ) → List ℕ → List ℕ → List ℕ
unfolding be16
ipv4_header total_len identification fragment protocol checksum src dst =
    69 ∷ 0 ∷ be16 total_len
    ++ be16 identification
    ++ be16 fragment
    ++ 64 ∷ protocol ∷ be16 checksum
    ++ src
    ++ dst

-- The header with its checksum, which is taken over the header with a checksum of 0.
unfoldable pub with_header_checksum :
    (total_len identification fragment protocol : ℕ) → List ℕ → List ℕ → List ℕ
unfolding ipv4_header
with_header_checksum total_len identification fragment protocol src dst =
    ipv4_header total_len identification fragment protocol
      (ones_complement_sum (ipv4_header total_len identification fragment protocol 0 src dst)) src
      dst

-- An IPv4 header's checksum is `ones_complement_sum` of it.
unfoldable pub ipv4_checksum : List ℕ → ℕ
ipv4_checksum header = ones_complement_sum header

-- The pseudo-header; a segment of odd length is padded, which leaves the sum as it is.
unfoldable pub pseudo : List ℕ → List ℕ → ℕ → List ℕ → List ℕ
unfolding be16
pseudo src dst proto segment = src ++ dst ++ 0 ∷ proto ∷ be16 (length segment) ++ segment

unfoldable pub padded : ℕ → List ℕ → List ℕ
padded len bytes = if len % 2 == 1 then bytes ++ 0 ∷ [] else bytes

unfoldable pub tcp_udp_checksum_ipv4 : List ℕ → List ℕ → ℕ → List ℕ → ℕ
unfolding pseudo padded
tcp_udp_checksum_ipv4 src dst proto segment =
    let ck = ones_complement_sum (padded (length segment) (pseudo src dst proto segment)) in
    if ck == 0 then 65535 else ck

pub data BuildError : Type 0 where
  too_large too_short : BuildError

unfoldable pub udp_segment : (src_port dst_port checksum : ℕ) → List ℕ → List ℕ
unfolding be16
udp_segment src_port dst_port checksum payload =
    be16 src_port ++ be16 dst_port ++ be16 (8 + length payload) ++ be16 checksum ++ payload

unfoldable pub build_ipv4_udp_packet :
    Ipv4Addr
    → Ipv4Addr
    → (src_port dst_port identification : ℕ) → List ℕ
    → Outcome BuildError (List ℕ)
unfolding with_header_checksum tcp_udp_checksum_ipv4 udp_segment octets
build_ipv4_udp_packet src dst src_port dst_port identification payload =
    let total_len = 20 + 8 + length payload in
    if ltb 65535 total_len
    then err too_large
    else (let checksum =
          tcp_udp_checksum_ipv4 (octets src) (octets dst) 17
            (udp_segment src_port dst_port 0 payload) in
        ok (
          with_header_checksum total_len identification 16384 17 (octets src) (octets dst)
          ++ udp_segment src_port dst_port checksum payload))

-- A segment with its bytes 2 and 3, the checksum, replaced.
unfoldable pub with_icmp_checksum : ℕ → List ℕ → List ℕ
unfolding be16
with_icmp_checksum checksum segment = take 2 segment ++ be16 checksum ++ drop 4 segment

unfoldable pub build_ipv4_icmp_packet :
    Ipv4Addr → Ipv4Addr → (identification : ℕ) → List ℕ → Outcome BuildError (List ℕ)
unfolding with_header_checksum with_icmp_checksum octets
build_ipv4_icmp_packet src dst identification segment =
    let total_len = 20 + length segment in
    if ltb (length segment) 8
    then err too_short
    else if ltb 65535 total_len
    then err too_large
    else ok (
        with_header_checksum total_len identification 16384 1 (octets src) (octets dst)
        ++ with_icmp_checksum (ones_complement_sum (with_icmp_checksum 0 segment)) segment)

abbrev pub wg_fake_src_ip : List ℕ
wg_fake_src_ip = 100 ∷ 64 ∷ 0 ∷ 1 ∷ []

abbrev pub wg_fake_dst_ip : List ℕ
wg_fake_dst_ip = 100 ∷ 64 ∷ 0 ∷ 2 ∷ []

-- `wrap_in_ipv4`: protocol 253; the length is cut to a u16.
unfoldable pub wrap_in_ipv4 : List ℕ → List ℕ
unfolding with_header_checksum
wrap_in_ipv4 payload =
    with_header_checksum (20 + length payload) 0 0 253 wg_fake_src_ip wg_fake_dst_ip ++ payload

pub data UnwrapError : Type 0 where
  packet_too_short : UnwrapError
  malformed : ℕ → UnwrapError

unfoldable pub unwrap_from_ipv4 : List ℕ → Outcome UnwrapError (List ℕ)
unwrap_from_ipv4 ip_packet =
    let ihl = low_bits (byte ip_packet 0) 4 * 4 in
    if ltb (length ip_packet) 20
    then err packet_too_short
    else if ltb (length ip_packet) ihl
    then err (malformed ihl)
    else ok (drop ihl ip_packet)
