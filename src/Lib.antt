-- ===== src/Lib.antt =====
-- Bonded: a tunnel that spreads a client's traffic over several paths. A client authenticates with a
-- device key, sends its IP packets in numbered session frames over one or more transports, and the
-- server puts the frames in order and forwards the packets.
--
-- The parts and their files:
--   Session    crates/bonded-core/src/session.rs: frames (encode, decode) and SessionState (new,
--              create_outbound_frame, ingest_inbound). The loop of ingest_inbound takes an entry out
--              of the reorder buffer in each round; its fuel is the buffer's length and one more.
--   Scheduler  crates/bonded-core/src/scheduler.rs: the choice of a path.
--   Transport  crates/bonded-core/src/transport.rs: frames over TCP, QUIC and WebSocket streams, and
--              PrependedStream. A stream is the list of what its reads give; its end is the stream's.
--   Auth       crates/bonded-core/src/auth.rs, and crates/bonded-server/src/{invite_tokens,
--              authorized_keys, auth_handshake}.rs: key pairs and signatures (Auth/Signature), invite
--              tokens (Auth/Invites), the authorized devices, their store and its watcher
--              (Auth/Devices), and the handshake over all of these (Auth/Handshake).
--   Registry   crates/bonded-server/src/session_registry.rs: the session of each client.
--   Packet     crates/bonded-server/src/smoltcp_forwarder.rs: checksums (Packet/Checksum), parsers
--              (Packet), builders (Packet/Build), address rewriting and the dispatch of TCP packets
--              (Packet/Rewrite); and wrap_in_ipv4, unwrap_from_ipv4 of
--              crates/bonded-server/src/wireguard.rs. Two rounds of folding are enough for a u32.
--   Udp        UdpSessionManager of crates/bonded-server/src/smoltcp_forwarder.rs: UDP flows.
--   Peers      WireGuardPeerRegistry of crates/bonded-server/src/wireguard.rs: leased addresses.
--   Bridge     crates/bonded-server/src/tun_bridge.rs: packets between sessions and a TUN device.
--   Pcap       crates/bonded-server/src/tunnel_pcap.rs: the log of packets and its size limit.
--   PeerShare  crates/bonded-core/src/peer_share.rs, crates/bonded-server/src/peer_relay.rs and
--              crates/bonded-client/src/{peer_listener, peer_runtime}.rs: announcements and control
--              frames (PeerShare), introductions (PeerShare/Introduce) and their checks
--              (PeerShare/Verify).
--   Serve      the loop that serves a client: run_server of crates/bonded-server/src/main.rs,
--              handle_websocket_session of bootstrap.rs, handle_quic_connection of quic.rs and
--              handle_decoded_frames of wireguard.rs. A run is a list of arrivals and of the branches
--              that select! takes. Serve is the loop over TCP, with or without a bridge; Serve/Loops
--              has those over WebSocket and QUIC as they are written. Serve/Lifecycle is the set-up
--              and tear-down around the loop.
--   Bootstrap  crates/bonded-server/src/bootstrap.rs: reading a request (Bootstrap), the answers
--              (Bootstrap/Answer), the advertised endpoints (Bootstrap/Routes) and the handlers
--              (Bootstrap/Handlers); the client's requests in crates/bonded-client/src/lib.rs
--              (Bootstrap/Client), and both sides of the certificate proof, with
--              crates/bonded-client/src/cert_proof.rs (Bootstrap/CertProof).
--   Network    crates/bonded-server/src/network_runtime.rs: CIDR arithmetic (Network), and the firewall
--              rules that are ensured at the start and removed at the drop (Network/Rules), over a
--              parameter for the operating system, whose documented behaviour is IsOs;
--              CanDelete says that its checks can be launched and listed rules be deleted.
--   Prelude    shared names: tests, lists, maps (association lists) and results; texts (Texts),
--              decimal numbers (Decimal) and UTF-8 (Utf8). Bytes: big-endian integers and bit tests.
--
-- How code becomes definitions: a method that changes its object returns the new state beside its
-- answer; an error is a value; an object behind a lock is changed in one step. Integers are natural
-- numbers with the wrap-around of their width written out. A text is the list of its UTF-8 bytes.
--
-- Third-party code is not defined here: ed25519 and base64 are the parameter Ed25519, whose
-- documented behaviour is IsEd25519; TOML and JSON documents appear as what their parsers give,
-- SHA-256, reason phrases and URI authorities as functions that are arguments; so are the clock and
-- random values. Reads, writes and sends fail where an argument says so.
--
-- Not modelled: the asynchronous tasks around the modelled steps, accepting connections, TLS, ACME,
-- QUIC and WebSocket connections, the smoltcp poll thread, the sockets themselves, the trackers of
-- flows and probes, the noise tunnel of WireGuard, the other steps of the network set-up, the
-- client's dialling, discovery over mDNS, the client's bindings and the applications. White space
-- around the parts of a header is that of ASCII. Failed allocations and poisoned locks are not
-- modelled either: where a file of the WireGuard peers cannot be written the code panics with the
-- lock held, and the model has an error and goes on with the next call; where the end of a request
-- would overflow, it wraps around.
pub mod Prelude
pub mod Bytes
pub mod Session
pub mod Scheduler
pub mod Registry
pub mod Auth
pub mod Transport
pub mod Packet
pub mod Peers
pub mod Bootstrap
pub mod Bridge
pub mod Pcap
pub mod Udp
pub mod PeerShare
pub mod Serve
pub mod Network
