-- ===== src/Packet/Rewrite.antt =====
-- `rewrite_dst_ip_inbound`, `rewrite_src_ip_outbound` and `dispatch_tcp`: packets on their way to and
-- from the TCP stack. A slice out of range is a panic.
use bonded.Bytes.{be16, low_bits, shr}
use bonded.Packet.{Ipv4Addr, octets, byte, word, addr_at, TcpTuple, parse_tcp_header}
use bonded.Packet.Build.{ipv4_checksum, tcp_udp_checksum_ipv4}
use bonded.Prelude.{
  ℕ, ◌-◌, ◌*◌, not, ◌&&◌, ◌||◌, Option, none, some, List, [], ◌∷◌, ◌++◌, length, take, drop,
  write_at, ltb, ◌==◌, if◌then◌else◌, Outcome, ok, err,
}

abbrev pub smoltcp_ip : List ℕ
smoltcp_ip = 10 ∷ 200 ∷ 0 ∷ 1 ∷ []

pub data Panic : Type 0 where
  out_of_range : Panic

-- The header's length in bytes, as its first byte says.
abbrev pub ihl : List ℕ → ℕ
ihl packet = low_bits (byte packet 0) 4 * 4

-- The checksum field is zeroed, and the sum of the header is written into it.
unfoldable pub refresh_ip_checksum : List ℕ → Outcome Panic (List ℕ)
unfolding be16
refresh_ip_checksum packet =
    let zeroed = write_at 10 (0 ∷ 0 ∷ []) packet in
    if ltb (length packet) (ihl packet)
    then err out_of_range
    else ok (write_at 10 (be16 (ipv4_checksum (take (ihl packet) zeroed))) zeroed)

unfoldable pub rewrite_dst_ip_inbound : List ℕ → Outcome Panic (Option (List ℕ))
unfolding refresh_ip_checksum
rewrite_dst_ip_inbound packet =
    if ltb (length packet) 20 || not (shr (byte packet 0) 4 == 4)
    then ok none
    else elim (refresh_ip_checksum (write_at 16 smoltcp_ip packet)) [
      | ok pkt ↦ ok (some pkt)
      | err p ↦ err p
    ]

-- The transport segment with its checksum, at `field`, recomputed.
unfoldable pub refresh_segment : Ipv4Addr → Ipv4Addr → (protocol field : ℕ) → List ℕ → List ℕ
unfolding octets be16
refresh_segment src dst protocol field segment =
    let zeroed = write_at field (0 ∷ 0 ∷ []) segment in
    write_at field (be16 (tcp_udp_checksum_ipv4 (octets src) (octets dst) protocol zeroed)) zeroed

unfoldable pub refresh_transport : List ℕ → List ℕ
unfolding word addr_at refresh_segment
refresh_transport pkt =
    let total_len = word pkt 2 in
    let transport = take (total_len - ihl pkt) (drop (ihl pkt) pkt) in
    let fix : ℕ → ℕ → List ℕ = λ protocol field.
      write_at (ihl pkt)
        (refresh_segment (addr_at pkt 12) (addr_at pkt 16) protocol field transport) pkt in
    if ltb (length pkt) total_len || ltb total_len (ihl pkt)
    then pkt
    else if byte pkt 9 == 6 && not (ltb (length transport) 20)
    then fix 6 16
    else if byte pkt 9 == 17 && not (ltb (length transport) 8)
    then fix 17 6
    else pkt

unfoldable pub rewrite_src_ip_outbound : List ℕ → Ipv4Addr → Outcome Panic (List ℕ)
unfolding refresh_ip_checksum refresh_transport octets
rewrite_src_ip_outbound pkt original_src =
    if ltb (length pkt) 20
    then ok pkt
    else elim (refresh_ip_checksum (write_at 12 (octets original_src) pkt)) [
      | ok pkt' ↦ ok (refresh_transport pkt')
      | err p ↦ err p
    ]

-- What is sent to the poll thread. (A full channel drops it.)
pub data PollCommand : Type 0 where
  create_tcp_socket : TcpTuple → PollCommand
  inject_packet : List ℕ → PollCommand

unfoldable pub syn_commands : List ℕ → List PollCommand
unfolding parse_tcp_header
syn_commands payload = elim (parse_tcp_header payload) [
  | none ↦ []
  | some parsed ↦ if parsed.1 then create_tcp_socket parsed.0 ∷ [] else []
]

unfoldable pub dispatch_tcp : List ℕ → Outcome Panic (List PollCommand)
unfolding syn_commands rewrite_dst_ip_inbound
dispatch_tcp payload = elim (rewrite_dst_ip_inbound payload) [
  | ok none ↦ ok (syn_commands payload)
  | ok (some rewritten) ↦ ok (syn_commands payload ++ inject_packet rewritten ∷ [])
  | err p ↦ err p
]
