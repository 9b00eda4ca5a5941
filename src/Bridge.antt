-- ===== src/Bridge.antt =====
-- crates/bonded-server/src/tun_bridge.rs: packets between the sessions and a TUN device. The lock makes
-- the body of each of the two loops one step; a session's channel is what has been sent on it, and
-- whether its receiver is gone.
pub mod Routes
pub mod Replies
mod Tests
use bonded.Bytes.{low_bits, shr}
use bonded.Packet.{Ipv4Addr, octets, byte, word, addr_at}
use bonded.Session.{SessionFrame}
use bonded.Prelude.Map.{Map, lookup, insert, remove, retain}
use bonded.Prelude.{
  ℕ, ◌+◌, ◌*◌, ◌%◌, ◌^◌, Bool, true, false, not, ◌||◌, Option, none, some, List, [], ◌∷◌, ◌++◌,
  Text, text_eq, nat_eq, length, ltb, ◌==◌, if◌then◌else◌, Outcome, ok, err,
}

pub record Channel : Type 0 where
  pub sent : List SessionFrame
  pub receiver_gone : Bool

pub record SessionRoute : Type 0 where
  pub tx : Channel
  pub connection_id : ℕ
  pub next_server_sequence : ℕ

pub record OutboundPacket : Type 0 where
  pub session_id : ℕ
  pub connection_id : ℕ
  pub payload : List ℕ

-- An address is its four octets here.
pub record TunBridgeState : Type 0 where
  pub sessions : Map ℕ SessionRoute
  pub ip_to_session : Map Text ℕ

unfoldable pub parse_ipv4_src_dst : List ℕ → Option (Ipv4Addr × Ipv4Addr)
unfolding word addr_at
parse_ipv4_src_dst packet =
    let header_len = low_bits (byte packet 0) 4 * 4 in
    if ltb (length packet) 20
    then none
    else if not (shr (byte packet 0) 4 == 4) || ltb (low_bits (byte packet 0) 4) 5
    then none
    else if ltb (length packet) header_len
    then none
    else if ltb (word packet 2) header_len || ltb (length packet) (word packet 2)
    then none
    else some (addr_at packet 12, addr_at packet 16)

unfoldable pub register_session : ℕ → Channel → TunBridgeState → TunBridgeState
register_session session_id tx s = record s {
  sessions =
      insert session_id (record { tx = tx; connection_id = 1; next_server_sequence = 0 })
        s.sessions;
}

unfoldable pub unregister_session : ℕ → TunBridgeState → TunBridgeState
unregister_session session_id s = record {
  sessions = remove session_id s.sessions;
  ip_to_session = retain (λ ip mapped. not (mapped == session_id)) s.ip_to_session;
}

-- `submit_client_frame`: the packet for the writer's queue.
unfoldable pub submit_client_frame : ℕ → SessionFrame → OutboundPacket
submit_client_frame session_id frame = record {
  session_id = session_id;
  connection_id = frame.header.connection_id;
  payload = frame.payload;
}

unfoldable pub learn : OutboundPacket → Ipv4Addr → TunBridgeState → TunBridgeState
unfolding octets
learn pkt src_ip s = elim (lookup pkt.session_id s.sessions) [
  | none ↦ s
  | some route ↦ record {
    sessions =
        insert pkt.session_id (record route { connection_id = pkt.connection_id }) s.sessions;
    ip_to_session = insert (octets src_ip) pkt.session_id s.ip_to_session;
  }
]

-- The body of the writer's loop: the state, and the packet to write to the device, if any.
unfoldable pub write_outbound : OutboundPacket → TunBridgeState → Option (List ℕ) × TunBridgeState
unfolding parse_ipv4_src_dst learn
write_outbound pkt s = elim (parse_ipv4_src_dst pkt.payload) [
  | none ↦ (none, s)
  | some ips ↦ (some pkt.payload, learn pkt ips.0 s)
]

-- `route.tx.send(frame)`, which fails once the receiver is gone.
unfoldable pub deliver : ℕ → SessionRoute → List ℕ → TunBridgeState → TunBridgeState
unfolding unregister_session
deliver session_id route packet s =
    let frame : SessionFrame = record {
      header = record {
        connection_id = route.connection_id;
        sequence = route.next_server_sequence;
        flags = 0;
      };
      payload = packet;
    } in
    let numbered : SessionRoute = record route {
      next_server_sequence = (route.next_server_sequence + 1) % 2 ^ 64;
    } in
    if route.tx.receiver_gone then unregister_session session_id s else record s {
      sessions =
          insert session_id
            (record numbered {
              tx = record { sent = route.tx.sent ++ frame ∷ []; receiver_gone = false };
            })
            s.sessions;
    }

unfoldable pub route_to : Text → List ℕ → ℕ → TunBridgeState → TunBridgeState
unfolding deliver
route_to dst_ip packet session_id s = elim (lookup session_id s.sessions) [
  | none ↦ record s { ip_to_session = remove dst_ip s.ip_to_session }
  | some route ↦ deliver session_id route packet s
]

unfoldable pub route_return : Text → List ℕ → TunBridgeState → TunBridgeState
unfolding route_to
route_return dst_ip packet s = elim (lookup dst_ip s.ip_to_session) [
  | none ↦ s
  | some session_id ↦ route_to dst_ip packet session_id s
]

-- The body of the reader's loop, for a packet that was read.
unfoldable pub read_inbound : List ℕ → TunBridgeState → TunBridgeState
unfolding parse_ipv4_src_dst route_return octets
read_inbound packet s = elim (parse_ipv4_src_dst packet) [
  | none ↦ s
  | some ips ↦ route_return (octets ips.1) packet s
]
