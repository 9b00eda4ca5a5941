-- ===== src/Packet/Redirect.antt =====
-- What `dispatch_tcp` hands to the TCP stack.
use bonded.Bytes.{from_be16, be16, shr}
use bonded.Packet.{byte, word, addr_at, tcp_tuple, transport_at, TcpTuple, parse_tcp_header}
use bonded.Packet.Checksum.{word_sum}
use bonded.Packet.Build.{ipv4_checksum}
use bonded.Packet.Verify.{IsAllOnes}
use bonded.Packet.Rewrite.{
  smoltcp_ip, out_of_range, ihl, refresh_ip_checksum, rewrite_dst_ip_inbound, dispatch_tcp,
  syn_commands, PollCommand, create_tcp_socket, inject_packet,
}
use bonded.Prelude.{
  Bool, ◌*◌, ◌/◌, ◌%◌, ◌==◌, ◌&&◌, leb, ℕ, ◌+◌, ◌<◌, ◌≤◌, ◌≡◌, refl, ◌∙◌, List, [], ◌∷◌, ◌++◌,
  length, take, drop, write_at, ltb, if◌then◌else◌, ok, err, arith, IsBytes, ◌↔◌, length-write_at,
}
use bonded.Packet.Refresh.{twenty, rewritten_twice, All-write_at, refresh_ip_checksum-valid}

-- The packet with the two bytes of its checksum and the four of its destination replaced.
abbrev pub redirected : ℕ → List ℕ → List ℕ
redirected checksum packet = write_at 10 (be16 checksum) (write_at 16 smoltcp_ip packet)

-- The packet is the one that came, but for its destination, which is the TCP stack's address, and its
-- header's checksum, which is valid.
pub record Redirected (payload packet : List ℕ) : Type 0 where
  pub same_size : length packet ≡ length payload
  pub destination : take 4 (drop 16 packet) ≡ smoltcp_ip
  pub header_valid : IsAllOnes (word_sum (take (ihl packet) packet))
  pub before_checksum : take 10 packet ≡ take 10 payload
  pub source : take 4 (drop 12 packet) ≡ take 4 (drop 12 payload)
  pub behind_header : drop 20 packet ≡ drop 20 payload

write_at_nil : (xs : List ℕ) → write_at 0 [] xs ≡ xs
write_at_nil [] = refl
write_at_nil (x ∷ xs) = refl

redirected_parts :
    (c : ℕ) (xs : List ℕ)
    → 20 ≤ length xs
    → (ihl (redirected c xs) ≡ ihl xs)
      × (take 4 (drop 16 (redirected c xs)) ≡ smoltcp_ip)
      × (take 10 (redirected c xs) ≡ take 10 xs)
      × (take 4 (drop 12 (redirected c xs)) ≡ take 4 (drop 12 xs))
      × (drop 20 (redirected c xs) ≡ drop 20 xs)
unfolding be16
redirected_parts c xs h =
    let e = twenty xs h in rw e (refl, refl, refl, refl, write_at_nil (drop 20 xs))

redirected-Redirected :
    (xs : List ℕ)
    → IsBytes xs
    → 20 ≤ length xs
    → 20 ≤ ihl xs
    → Redirected xs (
        redirected
          (ipv4_checksum (take (ihl xs) (write_at 10 (be16 0) (write_at 16 smoltcp_ip xs))))
          xs)
redirected-Redirected xs w h hi =
    let at_stack = write_at 16 smoltcp_ip xs in
    let size = length-write_at 16 smoltcp_ip xs in
    let c = ipv4_checksum (take (ihl xs) (write_at 10 (be16 0) at_stack)) in
    let (first, destination, before, source, behind) = redirected_parts c xs h in
    record {
      same_size = length-write_at 10 (be16 c) at_stack ∙ size;
      destination = destination;
      header_valid = rw first (
          refresh_ip_checksum-valid at_stack (ihl xs)
            (All-write_at 16 smoltcp_ip xs (omega arith) w) (omega (arith, size)) hi (omega arith));
      before_checksum = before;
      source = source;
      behind_header = behind;
    }

at_stack_ihl : (xs : List ℕ) → 20 ≤ length xs → ihl (write_at 16 smoltcp_ip xs) ≡ ihl xs
at_stack_ihl xs h = let e = twenty xs h in rw e refl

dispatched :
    (xs : List ℕ)
    → 20 ≤ length xs
    → shr (byte xs 0) 4 ≡ 4
    → dispatch_tcp xs ≡ (
        if ltb (length xs) (ihl xs)
        then err out_of_range
        else ok (
            syn_commands xs
            ++ inject_packet (
                redirected
                  (ipv4_checksum (take (ihl xs) (write_at 10 (be16 0) (write_at 16 smoltcp_ip xs))))
                  xs)
              ∷ []))
unfolding dispatch_tcp rewrite_dst_ip_inbound refresh_ip_checksum be16
dispatched xs h v =
    let size = length-write_at 16 smoltcp_ip xs in
    let c = ipv4_checksum (take (ihl xs) (write_at 10 (be16 0) (write_at 16 smoltcp_ip xs))) in
    let twice = rewritten_twice c (write_at 16 smoltcp_ip xs) (omega (arith, size)) in
    let first = (redirected_parts 0 xs h).0 in ground (arith, at_stack_ihl xs h)

-- The packet opens a TCP connection: it has protocol 6 and a whole TCP header, in which SYN is set and
-- ACK is not.
abbrev pub starts_connection : List ℕ → Bool
starts_connection payload =
    let flags = byte payload (ihl payload + 13) in
    (byte payload 9 == 6)
    && leb (ihl payload + 20) (length payload)
    && (flags / 2 % 2 == 1)
    && (flags / 16 % 2 == 0)

-- The connection it opens: the addresses of the IPv4 header and the ports of the TCP header.
abbrev pub connection_of : List ℕ → TcpTuple
connection_of payload =
    let at = ihl payload in
    record {
      src_ip = record {
        a = byte payload 12;
        b = byte payload 13;
        c = byte payload 14;
        d = byte payload 15;
      };
      src_port = byte payload at * 256 + byte payload (at + 1);
      dst_ip = record {
        a = byte payload 16;
        b = byte payload 17;
        c = byte payload 18;
        d = byte payload 19;
      };
      dst_port = byte payload (at + 2) * 256 + byte payload (at + 3);
    }

-- The socket that must be opened for a packet.
abbrev pub sockets_for : List ℕ → List PollCommand
sockets_for payload =
    if starts_connection payload then create_tcp_socket (connection_of payload) ∷ [] else []

syn_commands-sockets_for :
    (payload : List ℕ)
    → shr (byte payload 0) 4 ≡ 4
    → 20 ≤ ihl payload
    → syn_commands payload ≡ sockets_for payload
unfolding syn_commands parse_tcp_header transport_at tcp_tuple addr_at word from_be16
syn_commands-sockets_for payload v hi = ground arith

-- An IPv4 packet whose header, of at least 20 bytes, lies within it is handed on redirected to the TCP
-- stack. If it opens a TCP connection, which is protocol 6 and a whole TCP header with SYN and without
-- ACK, the command that opens a socket for its addresses and ports goes before it; if not, nothing else
-- is sent.
pub dispatch_tcp-Redirected :
    (payload : List ℕ)
    → IsBytes payload
    → shr (byte payload 0) 4 ≡ 4
    → 20 ≤ ihl payload
    → ihl payload ≤ length payload
    → (packet : List ℕ) × (dispatch_tcp payload
        ≡ ok (sockets_for payload ++ inject_packet packet ∷ []))
      × Redirected payload packet
dispatch_tcp-Redirected payload w v hi hl =
    let e = dispatched payload (omega arith) v in
    let opened = syn_commands-sockets_for payload v hi in
    (
      redirected
          (ipv4_checksum
            (take (ihl payload) (write_at 10 (be16 0) (write_at 16 smoltcp_ip payload))))
          payload,
      ground arith,
      redirected-Redirected payload w (omega arith) hi,
    )

-- An IPv4 packet of at least 20 bytes makes the dispatch panic exactly when its header claims to be
-- longer than the packet is.
pub dispatch_tcp-panics :
    (payload : List ℕ)
    → 20 ≤ length payload
    → shr (byte payload 0) 4 ≡ 4
    → (dispatch_tcp payload ≡ err out_of_range) ↔ (length payload < ihl payload)
dispatch_tcp-panics payload h v = let e = dispatched payload h v in ground arith
