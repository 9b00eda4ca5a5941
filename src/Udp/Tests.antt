-- ===== src/Udp/Tests.antt =====
-- A UDP flow of the client, and its theorem at an input that meets its hypotheses.
use bonded.Bytes.{from_be16}
use bonded.Packet.{Ipv4UdpPacket, word, addr_at, parse_ipv4_udp_packet}
use bonded.Session.{SessionHeader}
use bonded.Udp.{flow_key, forward_udp_packet, pump}
use bonded.Udp.Answers.{Answers, pump-Answers}
use bonded.Prelude.{ℕ, ◌≡◌, refl, List, [], ◌∷◌, some, true, arith}

-- From 10.0.0.2 port 4000 to 10.0.0.9 port 53, with two bytes.
abbrev query : List ℕ
query =
    69 ∷ 0 ∷ 0 ∷ 30 ∷ 0 ∷ 7 ∷ 64 ∷ 0 ∷ 64 ∷ 17 ∷ 0 ∷ 0 ∷ 10 ∷ 0 ∷ 0 ∷ 2 ∷ 10 ∷ 0 ∷ 0 ∷ 9 ∷ 15 ∷ 160
    ∷ 0 ∷ 53 ∷ 0 ∷ 10 ∷ 0 ∷ 0 ∷ 1 ∷ 2 ∷ []

abbrev parsed_query : Ipv4UdpPacket
parsed_query = record {
  src_ip = record { a = 10; b = 0; c = 0; d = 2 };
  dst_ip = record { a = 10; b = 0; c = 0; d = 9 };
  src_port = 4000;
  dst_port = 53;
  payload = 1 ∷ 2 ∷ [];
  identification = 7;
}

abbrev query_header : SessionHeader
query_header = record { connection_id = 3; sequence = 12; flags = 0 }

pump-Answers_example :
    let (forwarded, flows) = forward_udp_packet true query_header parsed_query 100 [] in
    (forwarded ≡ some (1 ∷ 2 ∷ []))
    × Answers query_header parsed_query
        (8 ∷ 9 ∷ [])
        (pump (flow_key parsed_query) 101 (8 ∷ 9 ∷ []) flows).0
unfolding parse_ipv4_udp_packet word addr_at from_be16
pump-Answers_example =
    pump-Answers query_header query parsed_query 100 101 8 (9 ∷ []) [] (omega arith) refl
      (omega arith) (omega arith) (omega arith)
