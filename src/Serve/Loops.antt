-- ===== src/Serve/Loops.antt =====
-- The loops of the sessions that know no bridge: `handle_websocket_session` of
-- crates/bonded-server/src/bootstrap.rs and `handle_quic_connection` of quic.rs, round by round.
use bonded.Bytes.{has_bit}
use bonded.Session.{SessionFrame, flag_pong}
use bonded.Serve.{forwarded, pong, Loop, transmit}
use bonded.Prelude.{
  ℕ, zero, suc, Bool, true, false, ◌&&◌, none, some, List, [], ◌∷◌, ◌++◌, if◌then◌else◌,
}

-- `MAX_DRAIN` of both loops.
abbrev pub max_drain : ℕ
max_drain = 256

-- The branches of `select!`: `forward_rx.recv()` with a frame or without one, and `transport.recv()`.
pub data DirectChoice : Type 0 where
  forward_rx_frame forward_rx_closed transport_recv : DirectChoice

unfoldable pub log_tunnel_packet : Bool → List ℕ → Loop → Loop
log_tunnel_packet logs [] l = l
log_tunnel_packet logs (b ∷ bs) l =
    if logs then record l { logged = l.logged ++ (b ∷ bs) ∷ [] } else l

-- `forwarder.ingest_packet(frame)`.
unfoldable pub ingest_packet : SessionFrame → Loop → Loop
ingest_packet frame l = record l { submitted = l.submitted ++ frame ∷ [] }

-- A frame that is bound or received, once it is logged: whether the session goes on.
unfoldable pub ping_or_packet : SessionFrame → Loop → Bool × Loop
unfolding transmit ingest_packet
ping_or_packet frame l =
    let is_empty : Bool = elim frame.payload [ [] ↦ true | b ∷ bs ↦ false ] in
    let answer : SessionFrame = record {
      header = record {
        connection_id = frame.header.connection_id;
        sequence = frame.header.sequence;
        flags = flag_pong;
      };
      payload = frame.payload;
    } in
    if has_bit frame.header.flags 0 && is_empty
    then transmit (pong answer) l
    else (true, ingest_packet frame l)

-- A failed send leaves the inner loop only.
unfoldable pub websocket_drain : Bool → ℕ → Loop → Loop
unfolding log_tunnel_packet transmit
websocket_drain logs zero l = l
websocket_drain logs (suc n) l = elim l.forward_queue [
  | [] ↦ l
  | frame ∷ queue ↦
      let taken = log_tunnel_packet logs frame.payload (record l { forward_queue = queue }) in
      let (went, sent) = transmit (forwarded frame) taken in
      let later = websocket_drain logs n sent in if went then later else sent
]

unfoldable pub websocket_select : Bool → DirectChoice → Loop → Bool × Loop
unfolding log_tunnel_packet transmit ping_or_packet
websocket_select logs forward_rx_closed l = (false, l)
websocket_select logs forward_rx_frame l = elim l.forward_queue [
  | [] ↦ (true, l)
  | frame ∷ queue ↦
      transmit (forwarded frame)
        (log_tunnel_packet logs frame.payload (record l { forward_queue = queue }))
]
websocket_select logs transport_recv l = elim l.incoming [
  | [] ↦ (false, l)
  | frame ∷ frames ↦
      ping_or_packet frame (log_tunnel_packet logs frame.payload (record l { incoming = frames }))
]

unfoldable pub websocket_round : Bool → DirectChoice → Loop → Bool × Loop
unfolding websocket_drain websocket_select log_tunnel_packet ping_or_packet
websocket_round logs choice l =
    let drained = websocket_drain logs max_drain l in
    elim drained.pending_frame [
      | some frame ↦
          ping_or_packet frame
            (log_tunnel_packet logs frame.payload (record drained { pending_frame = none }))
      | none ↦ websocket_select logs choice drained
    ]

-- Nothing is logged over QUIC, and a failed send ends the session.
unfoldable pub quic_drain : ℕ → Loop → Bool × Loop
unfolding transmit
quic_drain zero l = (true, l)
quic_drain (suc n) l = elim l.forward_queue [
  | [] ↦ (true, l)
  | frame ∷ queue ↦
      let (went, sent) = transmit (forwarded frame) (record l { forward_queue = queue }) in
      let later = quic_drain n sent in if went then later else (false, sent)
]

unfoldable pub quic_select : DirectChoice → Loop → Bool × Loop
unfolding transmit ping_or_packet
quic_select forward_rx_closed l = (false, l)
quic_select forward_rx_frame l = elim l.forward_queue [
  | [] ↦ (true, l)
  | frame ∷ queue ↦ transmit (forwarded frame) (record l { forward_queue = queue })
]
quic_select transport_recv l = elim l.incoming [
  | [] ↦ (false, l)
  | frame ∷ frames ↦ ping_or_packet frame (record l { incoming = frames })
]

unfoldable pub quic_round : DirectChoice → Loop → Bool × Loop
unfolding quic_drain quic_select ping_or_packet
quic_round choice l =
    let (went, drained) = quic_drain max_drain l in
    if went
    then (elim drained.pending_frame [
      | some frame ↦ ping_or_packet frame (record drained { pending_frame = none })
      | none ↦ quic_select choice drained
    ])
    else (false, drained)

-- A response comes into the forwarder's queue, or the loop makes a round.
pub data DirectEvent : Type 0 where
  response_arrives : SessionFrame → DirectEvent
  direct_turn : DirectChoice → DirectEvent

-- The session over its events, by the round of its loop.
unfoldable pub direct_serve :
    (DirectChoice → Loop → Bool × Loop) → List DirectEvent → Loop → Bool × Loop
direct_serve one_round [] l = (true, l)
direct_serve one_round (response_arrives frame ∷ es) l =
    direct_serve one_round es (record l { forward_queue = l.forward_queue ++ frame ∷ [] })
direct_serve one_round (direct_turn choice ∷ es) l =
    let (went, after) = one_round choice l in
    let later = direct_serve one_round es after in if went then later else (false, after)
