-- ===== src/Serve/DirectRuns.antt =====
-- The sessions over WebSocket and QUIC against the one over TCP.
use bonded.Session.{SessionFrame}
use bonded.Serve.{
  Sent, Loop, Service, round, serve, step, Event, turn, forward_arrives, transmit,
  websocket_service, quic_service, forwarded,
}
use bonded.Serve.Loops.{
  DirectEvent, response_arrives, direct_turn, direct_serve, max_drain, DirectChoice,
  forward_rx_frame, forward_rx_closed, transport_recv, log_tunnel_packet, ingest_packet,
  ping_or_packet, websocket_drain, websocket_select, websocket_round, quic_drain, quic_select,
  quic_round,
}
use bonded.Prelude.{
  List-cases, map, Option-cases, none, some, ℕ, zero, suc, ◌≡◌, refl, ◌∙◌, Bool, List, [], ◌∷◌,
  ◌++◌, arith, Bool-cases, inl, inr,
}
use bonded.Serve.Direct.{branch_of, round-websocket_round, round-quic_round}

-- None of this touches the queue of the bridge.
transmit-tun : (x : Sent) (l : Loop) → (transmit x l).1.tun_queue ≡ l.tun_queue
unfolding transmit
transmit-tun x l = ground arith

log_tunnel_packet-tun :
    (logs : Bool) (payload : List ℕ) (l : Loop)
    → (log_tunnel_packet logs payload l).tun_queue ≡ l.tun_queue
unfolding log_tunnel_packet
log_tunnel_packet-tun logs payload l = ground arith

sent-tun :
    (logs : Bool) (x : Sent) (payload : List ℕ) (l : Loop)
    → (transmit x (log_tunnel_packet logs payload l)).1.tun_queue ≡ l.tun_queue
sent-tun logs x payload l =
    transmit-tun x (log_tunnel_packet logs payload l) ∙ log_tunnel_packet-tun logs payload l

ping_or_packet-tun :
    (frame : SessionFrame) (l : Loop) → (ping_or_packet frame l).1.tun_queue ≡ l.tun_queue
unfolding ping_or_packet ingest_packet transmit
ping_or_packet-tun frame l = ground arith

websocket_drain-tun :
    (logs : Bool) (n : ℕ) (l : Loop) → (websocket_drain logs n l).tun_queue ≡ l.tun_queue
unfolding websocket_drain
websocket_drain-tun logs zero l = refl
websocket_drain-tun logs (suc n) l = elim (List-cases l.forward_queue) [
  | inl none_left ↦ ground arith
  | inr (frame, queue, left) ↦
      let taken = record l { forward_queue = queue } in
      let went = sent-tun logs (forwarded frame) frame.payload taken in
      let later =
        websocket_drain-tun logs n
          (transmit (forwarded frame) (log_tunnel_packet logs frame.payload taken)).1 in
      ground arith
]

quic_drain-tun : (n : ℕ) (l : Loop) → (quic_drain n l).1.tun_queue ≡ l.tun_queue
unfolding quic_drain
quic_drain-tun zero l = refl
quic_drain-tun (suc n) l = elim (List-cases l.forward_queue) [
  | inl none_left ↦ ground arith
  | inr (frame, queue, left) ↦
      let taken = record l { forward_queue = queue } in
      let went = transmit-tun (forwarded frame) taken in
      let later = quic_drain-tun n (transmit (forwarded frame) taken).1 in ground arith
]

websocket_select-tun :
    (logs : Bool) (choice : DirectChoice) (l : Loop)
    → (websocket_select logs choice l).1.tun_queue ≡ l.tun_queue
unfolding websocket_select
websocket_select-tun logs forward_rx_closed l = refl
websocket_select-tun logs forward_rx_frame l = elim (List-cases l.forward_queue) [
  | inl none_left ↦ ground arith
  | inr (frame, queue, left) ↦
      let went =
        sent-tun logs (forwarded frame) frame.payload (record l { forward_queue = queue }) in
      ground arith
]
websocket_select-tun logs transport_recv l = elim (List-cases l.incoming) [
  | inl none_left ↦ ground arith
  | inr (frame, frames, left) ↦
      let heard = record l { incoming = frames } in
      let logged = log_tunnel_packet-tun logs frame.payload heard in
      let handled = ping_or_packet-tun frame (log_tunnel_packet logs frame.payload heard) in
      ground arith
]

quic_select-tun :
    (choice : DirectChoice) (l : Loop) → (quic_select choice l).1.tun_queue ≡ l.tun_queue
unfolding quic_select
quic_select-tun forward_rx_closed l = refl
quic_select-tun forward_rx_frame l = elim (List-cases l.forward_queue) [
  | inl none_left ↦ ground arith
  | inr (frame, queue, left) ↦
      let went = transmit-tun (forwarded frame) (record l { forward_queue = queue }) in ground arith
]
quic_select-tun transport_recv l = elim (List-cases l.incoming) [
  | inl none_left ↦ ground arith
  | inr (frame, frames, left) ↦
      let handled = ping_or_packet-tun frame (record l { incoming = frames }) in ground arith
]

websocket_round-tun :
    (logs : Bool) (choice : DirectChoice) (l : Loop)
    → (websocket_round logs choice l).1.tun_queue ≡ l.tun_queue
unfolding websocket_round
websocket_round-tun logs choice l =
    let drained = websocket_drain logs max_drain l in
    let kept = websocket_drain-tun logs max_drain l in
    elim (Option-cases drained.pending_frame) [
      | inl free ↦ let selected = websocket_select-tun logs choice drained in ground arith
      | inr (frame, held) ↦
          let freed = record drained { pending_frame = none } in
          let logged = log_tunnel_packet-tun logs frame.payload freed in
          let handled = ping_or_packet-tun frame (log_tunnel_packet logs frame.payload freed) in
          ground arith
    ]

quic_rest-tun :
    (choice : DirectChoice) (l : Loop)
    → (elim l.pending_frame as (λ p. Bool × Loop) [
      | some frame ↦ ping_or_packet frame (record l { pending_frame = none })
      | none ↦ quic_select choice l
    ]).1.tun_queue
      ≡ l.tun_queue
quic_rest-tun choice l = elim (Option-cases l.pending_frame) [
  | inl free ↦ let selected = quic_select-tun choice l in ground arith
  | inr (frame, held) ↦
      let handled = ping_or_packet-tun frame (record l { pending_frame = none }) in ground arith
]

quic_round-tun :
    (choice : DirectChoice) (l : Loop) → (quic_round choice l).1.tun_queue ≡ l.tun_queue
unfolding quic_round
quic_round-tun choice l =
    let drained = (quic_drain max_drain l).1 in
    let kept = quic_drain-tun max_drain l in
    elim (Bool-cases (quic_drain max_drain l).0) [
      | inl on ↦ rw on (quic_rest-tun choice drained ∙ kept)
      | inr off ↦ rw off kept
    ]

-- The events of the loop over TCP that those of the others are.
abbrev pub event_of : DirectEvent → Event
event_of (response_arrives frame) = forward_arrives frame
event_of (direct_turn choice) = turn (branch_of choice)

-- Rounds that agree while the bridge's queue is empty, and leave it so, make runs that agree.
serve-direct_serve :
    (s : Service) (one_round : DirectChoice → Loop → Bool × Loop)
    → ((choice : DirectChoice) (l : Loop)
        → l.tun_queue ≡ []
        → round s (branch_of choice) l ≡ one_round choice l)
    → ((choice : DirectChoice) (l : Loop) → (one_round choice l).1.tun_queue ≡ l.tun_queue)
    → (es : List DirectEvent) (l : Loop) → l.tun_queue ≡ []
    → serve s (map event_of es) l ≡ direct_serve one_round es l
unfolding serve step direct_serve
serve-direct_serve s one_round agree keeps [] l empty = refl
serve-direct_serve s one_round agree keeps (response_arrives frame ∷ es) l empty =
    serve-direct_serve s one_round agree keeps es
      (record l { forward_queue = l.forward_queue ++ frame ∷ [] }) empty
serve-direct_serve s one_round agree keeps (direct_turn choice ∷ es) l empty =
    let same = agree choice l empty in
    let later =
      serve-direct_serve s one_round agree keeps es (one_round choice l).1
        (keeps choice l ∙ empty) in
    elim (Bool-cases (one_round choice l).0) [
      | inl on ↦ rw (same, on) later
      | inr off ↦ ground arith
    ]

-- The loops of WebSocket and QUIC, which are written for themselves and know no bridge, do over any
-- events what the loop over TCP does as their services, which have no bridge, log the same and differ
-- in what a failed send of a drain does: the same frames are sent, submitted, logged and left, and the
-- session ends at the same event. (Nothing waits in the bridge's queue at the start.)
pub serve-websocket_quic :
    (logs : Bool) (es : List DirectEvent) (l : Loop)
    → l.tun_queue ≡ []
    → (serve (websocket_service logs) (map event_of es) l
        ≡ direct_serve (websocket_round logs) es l)
      × (serve quic_service (map event_of es) l ≡ direct_serve quic_round es l)
serve-websocket_quic logs es l empty = (
  serve-direct_serve (websocket_service logs) (websocket_round logs) (round-websocket_round logs)
      (websocket_round-tun logs) es l empty,
  serve-direct_serve quic_service quic_round round-quic_round quic_round-tun es l empty,
)
