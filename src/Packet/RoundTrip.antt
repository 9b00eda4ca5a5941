-- ===== src/Packet/RoundTrip.antt =====
-- Building and parsing UDP datagrams, and wrapping frames.
use bonded.Bytes.{be16, from_be16, from_be16-be16}
use bonded.Packet.{
  Ipv4Addr, octets, word, addr_at, transport_at, is_whole, parse_udp_at, parse_ipv4_udp_packet,
}
use bonded.Packet.Checksum.{word_sum, ones_complement_sum}
use bonded.Packet.Build.{
  ipv4_header, with_header_checksum, wrap_in_ipv4, unwrap_from_ipv4, build_ipv4_udp_packet,
  udp_segment, tcp_udp_checksum_ipv4, too_large,
}
use bonded.Packet.Verify.{
  IsAddr, IsAllOnes, udp_words, with_header_checksum-valid, tcp_udp_checksum_ipv4-valid,
}
use bonded.Prelude.{
  ℕ, ◌+◌, ◌^◌, ◌<◌, ◌≤◌, ◌≡◌, refl, ap, some, List, [], ◌∷◌, ◌++◌, length, ltb, arith, ok, err,
  take, drop, IsBytes, Bool-cases, inl, inr, ◌⊎◌,
}

-- A frame that is wrapped in an IPv4 packet is unwrapped unchanged.
pub unwrap_from_ipv4-wrap_in_ipv4 :
    (payload : List ℕ) → unwrap_from_ipv4 (wrap_in_ipv4 payload) ≡ ok payload
unfolding unwrap_from_ipv4 wrap_in_ipv4 with_header_checksum ipv4_header be16
unwrap_from_ipv4-wrap_in_ipv4 payload = ground arith

take_all : (xs : List ℕ) → take (length xs) xs ≡ xs
take_all [] = refl
take_all (x ∷ xs) = ap (λ ys. x ∷ ys) (take_all xs)

-- A datagram with a header of 20 bytes and any checksums is parsed to its fields.
parse_segment :
    (src dst : Ipv4Addr) (sp dp id ck uck : ℕ) (payload : List ℕ)
    → sp < 2 ^ 16
    → dp < 2 ^ 16
    → id < 2 ^ 16
    → length payload ≤ 65507
    → parse_ipv4_udp_packet (
        ipv4_header (28 + length payload) id 16384 17 ck (octets src) (octets dst)
        ++ udp_segment sp dp uck payload)
      ≡ some (record {
        src_ip = src;
        dst_ip = dst;
        src_port = sp;
        dst_port = dp;
        payload = payload;
        identification = id;
      })
unfolding parse_ipv4_udp_packet transport_at parse_udp_at is_whole word addr_at ipv4_header octets
    be16 from_be16 udp_segment
parse_segment src dst sp dp id ck uck payload h1 h2 h3 hl =
    let total = from_be16-be16 (28 + length payload) (omega arith) in
    ground
      (arith, take_all payload, from_be16-be16 sp h1, from_be16-be16 dp h2, from_be16-be16 id h3)

-- What `build_ipv4_udp_packet` gives for a payload that fits: both checksums are valid, the UDP one is
-- not 0, and the parser reads the fields back.
pub record Carries (src dst : Ipv4Addr) (src_port dst_port id : ℕ) (payload packet : List ℕ)
    : Type 0 where
  pub header_valid : IsAllOnes (word_sum (take 20 packet))
  pub udp_valid : IsAllOnes (udp_words src dst (drop 20 packet))
  pub udp_checksum_present : 0 < word packet 26
  pub parsed :
      parse_ipv4_udp_packet packet
      ≡ some (record {
        src_ip = src;
        dst_ip = dst;
        src_port = src_port;
        dst_port = dst_port;
        payload = payload;
        identification = id;
      })

take_header :
    (t i f p c : ℕ) (src dst : Ipv4Addr) (rest : List ℕ)
    → (take 20 (ipv4_header t i f p c (octets src) (octets dst) ++ rest)
        ≡ ipv4_header t i f p c (octets src) (octets dst))
      × (drop 20 (ipv4_header t i f p c (octets src) (octets dst) ++ rest) ≡ rest)
unfolding ipv4_header octets be16
take_header t i f p c src dst rest = (refl, refl)

udp_checksum_word :
    (t i f p c : ℕ) (src dst : Ipv4Addr) (sp dp ck : ℕ) (payload : List ℕ)
    → ck < 2 ^ 16
    → word (ipv4_header t i f p c (octets src) (octets dst) ++ udp_segment sp dp ck payload) 26 ≡ ck
unfolding word ipv4_header octets be16 udp_segment
udp_checksum_word t i f p c src dst sp dp ck payload h = from_be16-be16 ck h

-- A UDP payload of at most 65507 bytes is built into a packet whose checksums are valid: the words of
-- the header, and those of the datagram with the addresses, the protocol and the length, have a sum
-- that is a positive multiple of 65535. The UDP checksum is not 0, and the parser reads the fields
-- back. A longer payload is refused.
pub build_ipv4_udp_packet-Carries :
    (src dst : Ipv4Addr) (src_port dst_port id : ℕ) (payload : List ℕ)
    → IsAddr src
    → IsAddr dst
    → src_port < 2 ^ 16
    → dst_port < 2 ^ 16
    → id < 2 ^ 16
    → IsBytes payload
    → ((length payload ≤ 65507)
        × ((packet : List ℕ) × (build_ipv4_udp_packet src dst src_port dst_port id payload
              ≡ ok packet)
            × Carries src dst src_port dst_port id payload packet))
      ⊎ ((65507 < length payload)
          × (build_ipv4_udp_packet src dst src_port dst_port id payload ≡ err too_large))
unfolding build_ipv4_udp_packet with_header_checksum
build_ipv4_udp_packet-Carries src dst sp dp id payload hs hd h1 h2 h3 hb =
    elim (Bool-cases (ltb 65535 (20 + 8 + length payload))) [
      | inl large ↦ inr (ground arith, rw large refl)
      | inr fits ↦
          let small : length payload ≤ 65507 = ground arith in
          let ck =
            tcp_udp_checksum_ipv4 (octets src) (octets dst) 17 (udp_segment sp dp 0 payload) in
          let (sums, positive, lt) =
            tcp_udp_checksum_ipv4-valid src dst sp dp payload hs hd hb small in
          let hck =
            ones_complement_sum
              (ipv4_header (28 + length payload) id 16384 17 0 (octets src) (octets dst)) in
          let cut =
            take_header (28 + length payload) id 16384 17 hck src dst
              (udp_segment sp dp ck payload) in
          inl (
            small,
            (
              ipv4_header (28 + length payload) id 16384 17 hck (octets src) (octets dst)
                  ++ udp_segment sp dp ck payload,
              rw fits refl,
              record {
                header_valid = rw cut.0 (
                    with_header_checksum-valid (28 + length payload) id 16384 17 src dst
                      (omega arith) hs hd);
                udp_valid = rw cut.1 sums;
                udp_checksum_present =
                    rw
                      (udp_checksum_word (28 + length payload) id 16384 17 hck src dst sp dp ck
                        payload lt)
                      positive;
                parsed = parse_segment src dst sp dp id hck ck payload h1 h2 h3 small;
              },
            ),
          )
    ]
