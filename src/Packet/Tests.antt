-- ===== src/Packet/Tests.antt =====
-- Packets that are built, parsed and redirected, and the theorems at inputs that meet their hypotheses.
use bonded.Packet.{TcpTuple, Ipv4Addr}
use bonded.Packet.Build.{too_large, build_ipv4_udp_packet}
use bonded.Packet.Verify.{IsAddr}
use bonded.Packet.RoundTrip.{Carries, build_ipv4_udp_packet-Carries, unwrap_from_ipv4-wrap_in_ipv4}
use bonded.Packet.Build.{wrap_in_ipv4, unwrap_from_ipv4}
use bonded.Packet.Rewrite.{create_tcp_socket, ihl, dispatch_tcp, out_of_range, inject_packet}
use bonded.Packet.Redirect.{Redirected, dispatch_tcp-Redirected, dispatch_tcp-panics}
use bonded.Prelude.{
  ℕ, ◌<◌, ◌≤◌, ◌≡◌, ◌↔◌, ◌⊎◌, refl, List, [], ◌∷◌, ◌++◌, length, ok, err, arith, replicate,
}

abbrev near : Ipv4Addr
near = record { a = 10; b = 0; c = 0; d = 2 }

abbrev far : Ipv4Addr
far = record { a = 192; b = 168; c = 1; d = 9 }

near-IsAddr : IsAddr near
near-IsAddr = (omega arith, omega arith, omega arith, omega arith)

far-IsAddr : IsAddr far
far-IsAddr = (omega arith, omega arith, omega arith, omega arith)

abbrev odd_payload : List ℕ
odd_payload = 1 ∷ 2 ∷ 255 ∷ []

build_ipv4_udp_packet-Carries_example :
    ((length odd_payload ≤ 65507)
      × ((packet : List ℕ) × (build_ipv4_udp_packet near far 53 4000 7 odd_payload ≡ ok packet)
          × Carries near far 53 4000 7 odd_payload packet))
    ⊎ ((65507 < length odd_payload)
        × (build_ipv4_udp_packet near far 53 4000 7 odd_payload ≡ err too_large))
build_ipv4_udp_packet-Carries_example =
    build_ipv4_udp_packet-Carries near far 53 4000 7 odd_payload near-IsAddr far-IsAddr
      (omega arith) (omega arith) (omega arith) (omega arith)

unwrap_from_ipv4-wrap_in_ipv4_example : unwrap_from_ipv4 (wrap_in_ipv4 odd_payload) ≡ ok odd_payload
unwrap_from_ipv4-wrap_in_ipv4_example = unwrap_from_ipv4-wrap_in_ipv4 odd_payload

-- A SYN from port 4000 of 10.0.0.2 to port 80 of 10.0.0.9.
abbrev syn_packet : List ℕ
syn_packet =
    (69 ∷ 0 ∷ 0 ∷ 40 ∷ 0 ∷ 0 ∷ 0 ∷ 0 ∷ 64 ∷ 6 ∷ 0 ∷ 0 ∷ 10 ∷ 0 ∷ 0 ∷ 2 ∷ 10 ∷ 0 ∷ 0 ∷ 9 ∷ [])
    ++ 15 ∷ 160 ∷ 0 ∷ 80 ∷ 0 ∷ 0 ∷ 0 ∷ 1 ∷ 0 ∷ 0 ∷ 0 ∷ 0 ∷ 80 ∷ 2 ∷ 255 ∷ 255 ∷ 0 ∷ 0 ∷ 0 ∷ 0 ∷ []

abbrev near_to_far : TcpTuple
near_to_far = record {
  src_ip = record { a = 10; b = 0; c = 0; d = 2 };
  src_port = 4000;
  dst_ip = record { a = 10; b = 0; c = 0; d = 9 };
  dst_port = 80;
}

dispatch_tcp-Redirected_example :
    (packet : List ℕ) × (dispatch_tcp syn_packet
      ≡ ok (create_tcp_socket near_to_far ∷ inject_packet packet ∷ []))
    × Redirected syn_packet packet
dispatch_tcp-Redirected_example =
    dispatch_tcp-Redirected syn_packet (omega arith) refl (omega arith) (omega arith)

-- A packet of 20 bytes with a header length of 60.
abbrev short_packet : List ℕ
short_packet = 79 ∷ replicate 19 0

dispatch_tcp-panics_example :
    (dispatch_tcp short_packet ≡ err out_of_range) ↔ (length short_packet < ihl short_packet)
dispatch_tcp-panics_example = dispatch_tcp-panics short_packet (omega arith) refl
