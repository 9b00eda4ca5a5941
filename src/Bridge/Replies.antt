-- ===== src/Bridge/Replies.antt =====
-- Packets that come back for a session.
use bonded.Packet.{Ipv4Addr, octets}
use bonded.Prelude.Map.{Map, lookup, insert, lookup-insert}
use bonded.Bridge.{
  SessionRoute, OutboundPacket, TunBridgeState, learn, write_outbound, deliver, route_to,
  route_return, read_inbound, parse_ipv4_src_dst,
}
use bonded.Prelude.{
  ℕ, ◌+◌, ◌%◌, ◌^◌, ◌≡◌, refl, false, some, List, [], ◌∷◌, ◌++◌, Text, text_eq, nat_eq, arith,
  text_beq_iff, ==_iff,
}

-- The route of a session after the frame that carries `packet` was sent to it.
abbrev pub sent_on : SessionRoute → ℕ → List ℕ → SessionRoute
sent_on route connection_id packet = record {
  tx = record {
    sent =
        route.tx.sent
        ++ record {
          header = record {
            connection_id = connection_id;
            sequence = route.next_server_sequence;
            flags = 0;
          };
          payload = packet;
        }
          ∷ [];
    receiver_gone = false;
  };
  connection_id = connection_id;
  next_server_sequence = (route.next_server_sequence + 1) % 2 ^ 64;
}

inserted_at : {V : Type 0} (k : ℕ) (v : V) (m : Map ℕ V) → lookup k (insert k v m) ≡ some v
inserted_at k v m = ground (arith, lookup-insert k k v m, ==_iff k k)

inserted_for : (ip : Text) (v : ℕ) (m : Map Text ℕ) → lookup ip (insert ip v m) ≡ some v
inserted_for ip v m = ground (arith, lookup-insert ip ip v m, text_beq_iff ip ip)

learned :
    (pkt : OutboundPacket) (ips : Ipv4Addr × Ipv4Addr) (s : TunBridgeState) (route : SessionRoute)
    → parse_ipv4_src_dst pkt.payload ≡ some ips
    → lookup pkt.session_id s.sessions ≡ some route
    → let s' = (write_outbound pkt s).1 in
      (lookup (octets ips.0) s'.ip_to_session ≡ some pkt.session_id)
      × (lookup pkt.session_id s'.sessions
          ≡ some (record route { connection_id = pkt.connection_id }))
      × ((write_outbound pkt s).0 ≡ some pkt.payload)
unfolding write_outbound learn
learned pkt ips s route good there =
    rw (good, write_outbound)
      (rw (there, learn)
        (
          inserted_for (octets ips.0) pkt.session_id s.ip_to_session,
          inserted_at pkt.session_id (record route { connection_id = pkt.connection_id })
              s.sessions,
          refl,
        ))

returned :
    (packet : List ℕ) (ips : Ipv4Addr × Ipv4Addr) (s : TunBridgeState) (key : ℕ)
    (route : SessionRoute)
    → parse_ipv4_src_dst packet ≡ some ips
    → lookup (octets ips.1) s.ip_to_session ≡ some key
    → lookup key s.sessions ≡ some route
    → route.tx.receiver_gone ≡ false
    → lookup key (read_inbound packet s).sessions ≡ some (sent_on route route.connection_id packet)
unfolding read_inbound route_return route_to deliver
returned packet ips s key route good known there alive =
    rw (good, read_inbound)
      (rw (known, route_return)
        (rw (there, route_to)
          (rw (alive, deliver)
            (inserted_at key (sent_on route route.connection_id packet) s.sessions))))

-- A packet of a registered session goes out to the device unchanged; and a packet that then comes
-- back for the address it was sent from is sent to that session, whole, in a frame with the connection
-- of the packet that went out and the session's next number. (The session's receiver is there.)
pub reply_reaches :
    (pkt : OutboundPacket) (packet : List ℕ) (out back : Ipv4Addr × Ipv4Addr) (s : TunBridgeState)
    (route : SessionRoute)
    → parse_ipv4_src_dst pkt.payload ≡ some out
    → parse_ipv4_src_dst packet ≡ some back
    → back.1 ≡ out.0
    → lookup pkt.session_id s.sessions ≡ some route
    → route.tx.receiver_gone ≡ false
    → let (written, s') = write_outbound pkt s in
      (written ≡ some pkt.payload)
      × (lookup pkt.session_id (read_inbound packet s').sessions
          ≡ some (sent_on route pkt.connection_id packet))
reply_reaches pkt packet out back s route good good' same there alive =
    let (known, now, written) = learned pkt out s route good there in
    let known' : lookup (octets back.1) (write_outbound pkt s).1.ip_to_session
        ≡ some pkt.session_id =
      rw same known in
    (
      written,
      returned packet back (write_outbound pkt s).1 pkt.session_id
          (record route { connection_id = pkt.connection_id }) good' known' now alive,
    )
