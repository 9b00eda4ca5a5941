-- ===== src/Packet.antt =====
-- IPv4 packets of the server: the parsers, builders and rewriters of
-- crates/bonded-server/src/smoltcp_forwarder.rs, and the wrapping of frames in IPv4 packets of
-- crates/bonded-server/src/wireguard.rs. A packet is the list of its bytes.
pub mod Checksum
pub mod Build
pub mod Rewrite
pub mod Refresh
pub mod Redirect
pub mod Verify
pub mod RoundTrip
mod Tests
use bonded.Bytes.{from_be16, low_bits, shr, has_bit}
use bonded.Prelude.{
  ℕ, ◌+◌, ◌-◌, ◌*◌, ◌/◌, ◌%◌, ◌^◌, Bool, true, false, not, ◌&&◌, ◌||◌, Option, none, some, List, [],
  ◌∷◌, length, take, drop, get_or, ltb, ◌==◌, if◌then◌else◌,
}

pub record Ipv4Addr : Type 0 where
  pub a : ℕ
  pub b : ℕ
  pub c : ℕ
  pub d : ℕ

unfoldable pub octets : Ipv4Addr → List ℕ
octets ip = ip.a ∷ ip.b ∷ ip.c ∷ ip.d ∷ []

-- `packet[i]`; the parsers read within the packet only.
abbrev pub byte : List ℕ → ℕ → ℕ
byte packet i = get_or packet i 0

unfoldable pub word : List ℕ → ℕ → ℕ
word packet i = from_be16 (byte packet i) (byte packet (i + 1))

unfoldable pub addr_at : List ℕ → ℕ → Ipv4Addr
addr_at packet i = record {
  a = byte packet i;
  b = byte packet (i + 1);
  c = byte packet (i + 2);
  d = byte packet (i + 3);
}

-- The guards that the parsers start with: where the transport header starts, when the packet is IPv4,
-- carries the protocol and is long enough for the transport header's fixed part.
unfoldable pub transport_at : ℕ → ℕ → List ℕ → Option ℕ
transport_at protocol fixed packet =
    if ltb (length packet) (20 + fixed)
    then none
    else if not (shr (byte packet 0) 4 == 4)
        || ltb (low_bits (byte packet 0) 4) 5
        || not (byte packet 9 == protocol)
    then none
    else if ltb (length packet) (low_bits (byte packet 0) 4 * 4 + fixed)
    then none
    else some (low_bits (byte packet 0) 4 * 4)

-- The guards on the total length and on fragments.
unfoldable pub is_whole : ℕ → List ℕ → Bool
unfolding word
is_whole hlen packet =
    not (ltb (word packet 2) (hlen + 8) || ltb (length packet) (word packet 2))
    && (low_bits (word packet 6) 14 == 0)

pub record TcpTuple : Type 0 where
  pub src_ip : Ipv4Addr
  pub src_port : ℕ
  pub dst_ip : Ipv4Addr
  pub dst_port : ℕ

unfoldable pub tcp_tuple : ℕ → List ℕ → TcpTuple
unfolding addr_at word
tcp_tuple at packet = record {
  src_ip = addr_at packet 12;
  src_port = word packet at;
  dst_ip = addr_at packet 16;
  dst_port = word packet (at + 2);
}

-- With whether SYN is set and ACK clear.
unfoldable pub parse_tcp_header : List ℕ → Option (TcpTuple × Bool)
unfolding transport_at tcp_tuple
parse_tcp_header packet = elim (transport_at 6 20 packet) [
  | none ↦ none
  | some at ↦ some (
    tcp_tuple at packet,
    has_bit (byte packet (at + 13)) 1 && not (has_bit (byte packet (at + 13)) 4),
  )
]

unfoldable pub parse_ipv4_tcp_tuple_flags : List ℕ → Option (TcpTuple × ℕ)
unfolding transport_at tcp_tuple
parse_ipv4_tcp_tuple_flags packet = elim (transport_at 6 20 packet) [
  | none ↦ none
  | some at ↦ some (tcp_tuple at packet, byte packet (at + 13))
]

pub record Ipv4UdpPacket : Type 0 where
  pub src_ip : Ipv4Addr
  pub dst_ip : Ipv4Addr
  pub src_port : ℕ
  pub dst_port : ℕ
  pub payload : List ℕ
  pub identification : ℕ

unfoldable pub parse_udp_at : ℕ → List ℕ → Option Ipv4UdpPacket
unfolding is_whole addr_at word
parse_udp_at hlen packet =
    let udp_len = word packet (hlen + 4) in
    if is_whole hlen packet
    then (if ltb udp_len 8 || ltb (word packet 2) (hlen + udp_len)
        then none
        else some (record {
          src_ip = addr_at packet 12;
          dst_ip = addr_at packet 16;
          src_port = word packet hlen;
          dst_port = word packet (hlen + 2);
          payload = drop 8 (take udp_len (drop hlen packet));
          identification = word packet 4;
        }))
    else none

unfoldable pub parse_ipv4_udp_packet : List ℕ → Option Ipv4UdpPacket
unfolding transport_at parse_udp_at
parse_ipv4_udp_packet packet = elim (transport_at 17 8 packet) [
  | none ↦ none
  | some hlen ↦ parse_udp_at hlen packet
]

pub record Ipv4IcmpEchoPacket : Type 0 where
  pub src_ip : Ipv4Addr
  pub dst_ip : Ipv4Addr
  pub identification : ℕ
  pub echo_identifier : ℕ
  pub echo_sequence : ℕ
  pub icmp_segment : List ℕ

unfoldable pub parse_icmp_at : ℕ → List ℕ → Option Ipv4IcmpEchoPacket
unfolding is_whole addr_at word
parse_icmp_at hlen packet =
    if is_whole hlen packet
    then (if not (byte packet hlen == 8) || not (byte packet (hlen + 1) == 0)
        then none
        else some (record {
          src_ip = addr_at packet 12;
          dst_ip = addr_at packet 16;
          identification = word packet 4;
          echo_identifier = word packet (hlen + 4);
          echo_sequence = word packet (hlen + 6);
          icmp_segment = take (word packet 2 - hlen) (drop hlen packet);
        }))
    else none

unfoldable pub parse_ipv4_icmp_echo_packet : List ℕ → Option Ipv4IcmpEchoPacket
unfolding transport_at parse_icmp_at
parse_ipv4_icmp_echo_packet packet = elim (transport_at 1 8 packet) [
  | none ↦ none
  | some hlen ↦ parse_icmp_at hlen packet
]
