-- ===== src/Udp.antt =====
-- `UdpSessionManager` of crates/bonded-server/src/smoltcp_forwarder.rs: one socket for each UDP flow of a
-- session, and the answers that go back to the client. The lock of a flow's state makes each change one
-- step; times are in seconds, and the session's channel for answers is open.
pub mod Answers
mod Tests
use bonded.Packet.{Ipv4UdpPacket, Ipv4Addr, octets}
use bonded.Packet.Build.{BuildError, build_ipv4_udp_packet}
use bonded.Session.{SessionHeader, SessionFrame}
use bonded.Prelude.Map.{Map, lookup, insert, remove}
use bonded.Prelude.{
  ℕ, ◌+◌, ◌-◌, ◌%◌, ◌^◌, Bool, true, false, Option, none, some, List, [], ◌∷◌, ◌++◌, Text, text_eq,
  ltb, leb, if◌then◌else◌, Outcome, ok, err,
}

pub record UdpFlowKey : Type 0 where
  pub src_ip : Ipv4Addr
  pub dst_ip : Ipv4Addr
  pub src_port : ℕ
  pub dst_port : ℕ

unfoldable pub flow_key : Ipv4UdpPacket → UdpFlowKey
flow_key pkt = record {
  src_ip = pkt.src_ip;
  dst_ip = pkt.dst_ip;
  src_port = pkt.src_port;
  dst_port = pkt.dst_port;
}

-- The key as the map compares it: its numbers in a row.
unfoldable pub key_numbers : UdpFlowKey → Text
unfolding octets
key_numbers key = octets key.src_ip ++ octets key.dst_ip ++ key.src_port ∷ key.dst_port ∷ []

pub record UdpFlowState : Type 0 where
  pub connection_id : ℕ
  pub next_sequence : ℕ
  pub identification : ℕ
  pub last_client_at : ℕ

-- The flows, each with the state that its tasks share.
abbrev pub FlowMap : Type 0
FlowMap = Map Text UdpFlowState

unfoldable pub new_flow : SessionHeader → Ipv4UdpPacket → ℕ → UdpFlowState
new_flow header pkt now = record {
  connection_id = header.connection_id;
  next_sequence = header.sequence;
  identification = pkt.identification;
  last_client_at = now;
}

-- `ensure_flow`, where `bound` says whether a new socket could be bound and connected.
unfoldable pub ensure_flow :
    Bool → SessionHeader → Ipv4UdpPacket → ℕ → FlowMap → Option UdpFlowState × FlowMap
unfolding new_flow flow_key key_numbers
ensure_flow bound header pkt now flows = elim (lookup (key_numbers (flow_key pkt)) flows) [
  | some handle ↦ (some handle, flows)
  | none ↦
      if bound
      then (
        some (new_flow header pkt now),
        insert (key_numbers (flow_key pkt)) (new_flow header pkt now) flows,
      )
      else (none, flows)
]

-- The state after a packet of the client.
unfoldable pub refresh_flow : SessionHeader → Ipv4UdpPacket → ℕ → UdpFlowState → UdpFlowState
refresh_flow header pkt now state = record {
  connection_id = header.connection_id;
  next_sequence =
      if ltb state.next_sequence header.sequence then header.sequence else state.next_sequence;
  identification = pkt.identification;
  last_client_at = now;
}

-- `forward_udp_packet`: the payload that is sent on the flow's socket, if there is one, and the flows.
unfoldable pub forward_udp_packet :
    Bool → SessionHeader → Ipv4UdpPacket → ℕ → FlowMap → Option (List ℕ) × FlowMap
unfolding ensure_flow refresh_flow flow_key key_numbers
forward_udp_packet bound header pkt now flows =
    let ensured = ensure_flow bound header pkt now flows in
    elim ensured.0 [
      | none ↦ (none, ensured.1)
      | some state ↦ (
        some pkt.payload,
        insert (key_numbers (flow_key pkt)) (refresh_flow header pkt now state) ensured.1,
      )
    ]

-- A flow without a packet of the client for 240 seconds ends.
unfoldable pub is_idle : ℕ → UdpFlowState → Bool
is_idle now state = leb 240 (now - state.last_client_at)

-- What the flow's task does with a datagram that its socket received: the frame for the client, if the
-- packet can be built, and the state.
unfoldable pub answer_datagram :
    UdpFlowKey → List ℕ → UdpFlowState → Option SessionFrame × UdpFlowState
answer_datagram key datagram state =
    let state' : UdpFlowState = record state {
      next_sequence = (state.next_sequence + 1) % 2 ^ 64;
    } in
    elim (build_ipv4_udp_packet key.dst_ip key.src_ip key.dst_port key.src_port state.identification
      datagram) [
        | err e ↦ (none, state')
        | ok packet ↦ (
          some (record {
            header = record {
              connection_id = state.connection_id;
              sequence = state.next_sequence;
              flags = 0;
            };
            payload = packet;
          }),
          state',
        )
      ]

-- One round of the flow's task on a datagram (one of no bytes is passed over): the frame sent, and the
-- flows. A flow that is idle is removed.
unfoldable pub pump : UdpFlowKey → ℕ → List ℕ → FlowMap → Option SessionFrame × FlowMap
unfolding is_idle answer_datagram key_numbers
pump key now datagram flows = elim (lookup (key_numbers key) flows) [
  | none ↦ (none, flows)
  | some state ↦
      if is_idle now state then (none, remove (key_numbers key) flows) else elim datagram [
        | [] ↦ (none, flows)
        | b ∷ bs ↦
            let r = answer_datagram key (b ∷ bs) state in (r.0, insert (key_numbers key) r.1 flows)
      ]
]
