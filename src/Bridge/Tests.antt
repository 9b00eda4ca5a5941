-- ===== src/Bridge/Tests.antt =====
-- The bridge's theorems at inputs that meet their hypotheses.
use bonded.Bytes.{from_be16}
use bonded.Packet.{Ipv4Addr, word, addr_at}
use bonded.Prelude.Map.{lookup}
use bonded.Bridge.{
  Channel, SessionRoute, OutboundPacket, TunBridgeState, write_outbound, read_inbound,
  parse_ipv4_src_dst,
}
use bonded.Bridge.Routes.{IsRouted, unregisters, writes, reads, run, run-IsRouted}
use bonded.Bridge.Replies.{sent_on, reply_reaches}
use bonded.Prelude.{ℕ, ◌≡◌, refl, List, [], ◌∷◌, false, some, nat_eq, text_eq}

-- From 10.0.0.2 to 10.0.0.9, and back; a header and nothing more.
abbrev outward : List ℕ
outward = 69 ∷ 0 ∷ 0 ∷ 20 ∷ 0 ∷ 0 ∷ 0 ∷ 0 ∷ 64 ∷ 17 ∷ 0 ∷ 0 ∷ 10 ∷ 0 ∷ 0 ∷ 2 ∷ 10 ∷ 0 ∷ 0 ∷ 9 ∷ []

abbrev homeward : List ℕ
homeward = 69 ∷ 0 ∷ 0 ∷ 20 ∷ 0 ∷ 0 ∷ 0 ∷ 0 ∷ 64 ∷ 17 ∷ 0 ∷ 0 ∷ 10 ∷ 0 ∷ 0 ∷ 9 ∷ 10 ∷ 0 ∷ 0 ∷ 2 ∷ []

abbrev near : Ipv4Addr
near = record { a = 10; b = 0; c = 0; d = 2 }

abbrev far : Ipv4Addr
far = record { a = 10; b = 0; c = 0; d = 9 }

abbrev channel : Channel
channel = record { sent = []; receiver_gone = false }

abbrev route_of_5 : SessionRoute
route_of_5 = record { tx = channel; connection_id = 1; next_server_sequence = 0 }

abbrev one_session : TunBridgeState
one_session = record { sessions = (5, route_of_5) ∷ []; ip_to_session = [] }

abbrev packet_of_5 : OutboundPacket
packet_of_5 = record { session_id = 5; connection_id = 77; payload = outward }

run-IsRouted_example :
    IsRouted
      (run one_session (writes packet_of_5 ∷ reads homeward ∷ unregisters 5 ∷ reads homeward ∷ []))
run-IsRouted_example =
    run-IsRouted one_session
      (writes packet_of_5 ∷ reads homeward ∷ unregisters 5 ∷ reads homeward ∷ []) tt

reply_reaches_example :
    let (written, s') = write_outbound packet_of_5 one_session in
    (written ≡ some outward)
    × (lookup 5 (read_inbound homeward s').sessions ≡ some (sent_on route_of_5 77 homeward))
unfolding parse_ipv4_src_dst word addr_at from_be16 lookup
reply_reaches_example =
    reply_reaches packet_of_5 homeward (near, far) (far, near) one_session route_of_5 refl refl refl
      refl refl
