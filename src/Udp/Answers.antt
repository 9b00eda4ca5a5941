-- ===== src/Udp/Answers.antt =====
-- Answers to the datagrams of the client.
use bonded.Bytes.{from_be16}
use bonded.Packet.{
  Ipv4UdpPacket, byte, word, addr_at, transport_at, parse_udp_at, parse_ipv4_udp_packet,
}
use bonded.Packet.Verify.{IsAddr}
use bonded.Packet.RoundTrip.{build_ipv4_udp_packet-Carries}
use bonded.Session.{SessionHeader, SessionFrame}
use bonded.Prelude.Map.{lookup, insert, lookup-insert}
use bonded.Udp.{
  UdpFlowKey, flow_key, key_numbers, UdpFlowState, FlowMap, ensure_flow, refresh_flow, new_flow,
  forward_udp_packet, is_idle, answer_datagram, pump,
}
use bonded.Prelude.{
  ℕ, zero, suc, ◌+◌, ◌^◌, ◌<◌, ◌≤◌, ◌≡◌, refl, ap, ◌∙◌, true, Option, some, List, [], ◌∷◌, text_eq,
  text_beq_iff, length, arith, IsBytes, Option-cases, inl, inr,
}

byte-lt : (xs : List ℕ) (i : ℕ) → IsBytes xs → byte xs i < 256
byte-lt [] i w = omega arith
byte-lt (x ∷ xs) zero w = w.0
byte-lt (x ∷ xs) (suc i) w = byte-lt xs i w.1

addr_at-IsAddr : (xs : List ℕ) (i : ℕ) → IsBytes xs → IsAddr (addr_at xs i)
unfolding addr_at
addr_at-IsAddr xs i w =
    (byte-lt xs i w, byte-lt xs (i + 1) w, byte-lt xs (i + 2) w, byte-lt xs (i + 3) w)

word-lt : (xs : List ℕ) (i : ℕ) → IsBytes xs → word xs i < 2 ^ 16
unfolding word from_be16
word-lt xs i w = omega (arith, byte-lt xs i w, byte-lt xs (i + 1) w)

-- The fields of a packet that was parsed are in their ranges.
record IsUdp (pkt : Ipv4UdpPacket) : Type 0 where
  src_addr : IsAddr pkt.src_ip
  dst_addr : IsAddr pkt.dst_ip
  src_lt : pkt.src_port < 2 ^ 16
  dst_lt : pkt.dst_port < 2 ^ 16
  identification_lt : pkt.identification < 2 ^ 16

parse_udp_at-fields :
    (hlen : ℕ) (raw : List ℕ) (pkt : Ipv4UdpPacket)
    → parse_udp_at hlen raw ≡ some pkt
    → (pkt.src_ip ≡ addr_at raw 12)
      × (pkt.dst_ip ≡ addr_at raw 16)
      × (pkt.src_port ≡ word raw hlen)
      × (pkt.dst_port ≡ word raw (hlen + 2))
      × (pkt.identification ≡ word raw 4)
unfolding parse_udp_at
parse_udp_at-fields hlen raw pkt h =
    (ground arith, ground arith, ground arith, ground arith, ground arith)

parsed-IsUdp :
    (raw : List ℕ) (pkt : Ipv4UdpPacket)
    → IsBytes raw
    → parse_ipv4_udp_packet raw ≡ some pkt
    → IsUdp pkt
unfolding parse_ipv4_udp_packet
parsed-IsUdp raw pkt w h = elim (Option-cases (transport_at 17 8 raw)) [
  | inl none_there ↦ absurd (ground arith)
  | inr (hlen, found) ↦
      let (s, d, sp, dp, id) = parse_udp_at-fields hlen raw pkt (ground arith) in
      record {
        src_addr = rw s (addr_at-IsAddr raw 12 w);
        dst_addr = rw d (addr_at-IsAddr raw 16 w);
        src_lt = rw sp (word-lt raw hlen w);
        dst_lt = rw dp (word-lt raw (hlen + 2) w);
        identification_lt = rw id (word-lt raw 4 w);
      }
]

-- A flow after a packet of the client.
flow_after :
    (header : SessionHeader) (pkt : Ipv4UdpPacket) (now : ℕ) (flows : FlowMap)
    → (state : UdpFlowState) × (lookup
          (key_numbers (flow_key pkt))
          (forward_udp_packet true header pkt now flows).1
        ≡ some state)
      × ((forward_udp_packet true header pkt now flows).0 ≡ some pkt.payload)
      × (state.connection_id ≡ header.connection_id)
      × (header.sequence ≤ state.next_sequence)
      × (state.identification ≡ pkt.identification)
      × (state.last_client_at ≡ now)
unfolding forward_udp_packet ensure_flow refresh_flow new_flow
flow_after header pkt now flows =
    let key = key_numbers (flow_key pkt) in
    elim (Option-cases (lookup key flows)) [
      | inr (old, there) ↦
          let state = refresh_flow header pkt now old in
          let found = lookup-insert key key state flows in
          (
            state,
            ground (arith, text_beq_iff key key),
            ground arith,
            refl,
            ground arith,
            refl,
            refl,
          )
      | inl fresh ↦
          let start = new_flow header pkt now in
          let state = refresh_flow header pkt now start in
          let found = lookup-insert key key state (insert key start flows) in
          (
            state,
            ground (arith, text_beq_iff key key),
            ground arith,
            refl,
            ground arith,
            refl,
            refl,
          )
    ]

-- The answer's packet, as the client's own parser would read it.
abbrev pub answer_to : Ipv4UdpPacket → List ℕ → Ipv4UdpPacket
answer_to pkt datagram = record {
  src_ip = pkt.dst_ip;
  dst_ip = pkt.src_ip;
  src_port = pkt.dst_port;
  dst_port = pkt.src_port;
  payload = datagram;
  identification = pkt.identification;
}

-- A frame that answers a packet of the client which came under `header`.
pub record Answers (header : SessionHeader) (pkt : Ipv4UdpPacket) (datagram : List ℕ)
    (sent : Option SessionFrame) : Type 0 where
  pub frame : SessionFrame
  pub was_sent : sent ≡ some frame
  pub same_connection : frame.header.connection_id ≡ header.connection_id
  pub not_before : header.sequence ≤ frame.header.sequence
  pub reads_back : parse_ipv4_udp_packet frame.payload ≡ some (answer_to pkt datagram)

pumped :
    (key : UdpFlowKey) (now b : ℕ) (bs : List ℕ) (flows : FlowMap) (state : UdpFlowState)
    → lookup (key_numbers key) flows ≡ some state
    → now < state.last_client_at + 240
    → (pump key now (b ∷ bs) flows).0 ≡ (answer_datagram key (b ∷ bs) state).0
unfolding pump is_idle
pumped key now b bs flows state there fresh = ground arith

answered :
    (header : SessionHeader) (pkt : Ipv4UdpPacket) (datagram : List ℕ) (state : UdpFlowState)
    → IsUdp pkt
    → IsBytes datagram
    → length datagram ≤ 65507
    → state.connection_id ≡ header.connection_id
    → header.sequence ≤ state.next_sequence
    → state.identification ≡ pkt.identification
    → Answers header pkt datagram (answer_datagram (flow_key pkt) datagram state).0
unfolding answer_datagram flow_key
answered header pkt datagram state u w l conn seq id =
    let lt : state.identification < 2 ^ 16 = omega (arith, id, u.identification_lt) in
    elim (build_ipv4_udp_packet-Carries pkt.dst_ip pkt.src_ip pkt.dst_port pkt.src_port
      state.identification datagram u.dst_addr u.src_addr u.dst_lt u.src_lt lt w) [
        | inr (large, _) ↦ absurd (omega arith)
        | inl (_, (packet, built, carries)) ↦ record {
          frame = record {
            header = record {
              connection_id = state.connection_id;
              sequence = state.next_sequence;
              flags = 0;
            };
            payload = packet;
          };
          was_sent = rw (built, answer_datagram) refl;
          same_connection = conn;
          not_before = seq;
          reads_back =
              carries.parsed
              ∙ ap
                  (λ (i : ℕ). some (record {
                    src_ip = pkt.dst_ip;
                    dst_ip = pkt.src_ip;
                    src_port = pkt.dst_port;
                    dst_port = pkt.src_port;
                    payload = datagram;
                    identification = i;
                  }))
                  id;
        }
      ]

-- A UDP packet of the client is forwarded to its flow's socket, and a datagram that the socket receives
-- less than 240 seconds later, before any other packet, goes back in a frame of the same connection,
-- numbered no lower than the client's own, whose packet has valid fields: the addresses and ports
-- turned around, the client's identification, and the datagram whole.
pub pump-Answers :
    (header : SessionHeader) (raw : List ℕ) (pkt : Ipv4UdpPacket) (now later b : ℕ) (bs : List ℕ)
    (flows : FlowMap)
    → IsBytes raw
    → parse_ipv4_udp_packet raw ≡ some pkt
    → later < now + 240
    → IsBytes (b ∷ bs)
    → length (b ∷ bs) ≤ 65507
    → let (forwarded, flows') = forward_udp_packet true header pkt now flows in
      (forwarded ≡ some pkt.payload)
      × Answers header pkt (b ∷ bs) (pump (flow_key pkt) later (b ∷ bs) flows').0
pump-Answers header raw pkt now later b bs flows wr parsed soon w l =
    let (state, there, sent, conn, seq, id, at) = flow_after header pkt now flows in
    let fresh : later < state.last_client_at + 240 = omega arith in
    (
      sent,
      rw (pumped (flow_key pkt) later b bs _ state there fresh)
          (answered header pkt (b ∷ bs) state (parsed-IsUdp raw pkt wr parsed) w l conn seq id),
    )
