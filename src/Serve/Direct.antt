-- ===== src/Serve/Direct.antt =====
-- A round of the loops of WebSocket and QUIC against one of the loop over TCP.
use bonded.Session.{SessionFrame}
use bonded.Serve.{
  Loop, Service, is_heartbeat, pong_of, handle_frame, Choice, drain_forward, drain_rest,
  then_unless, next_frame, round, select, log_payload, send_logged, handle_frame, submit,
  websocket_service, quic_service, take_forward, hear, forward_closed,
}
use bonded.Serve.Loops.{
  max_drain, DirectChoice, forward_rx_frame, forward_rx_closed, transport_recv, log_tunnel_packet,
  ingest_packet, ping_or_packet, websocket_select, websocket_round, quic_drain, quic_select,
  quic_round,
}
use bonded.Prelude.{
  if◌then◌else◌, Option-cases, none, some, ℕ, ◌≡◌, refl, ap, ◌∙◌, Bool, true, false, List, [], ◌∷◌,
  arith, inl, inr,
}
use bonded.Serve.Drains.{
  nothing_drained, went_on, drain_forward-websocket_drain, drain_forward-quic_drain,
}

-- The branch of the loop over TCP that a branch of the others is.
abbrev pub branch_of : DirectChoice → Choice
branch_of forward_rx_frame = take_forward
branch_of forward_rx_closed = forward_closed
branch_of transport_recv = hear

handle_frame-ping_or_packet :
    (s : Service) (frame : SessionFrame) (l : Loop)
    → s.use_tun_bridge ≡ false
    → handle_frame s frame l ≡ ping_or_packet frame (log_tunnel_packet s.logs frame.payload l)
unfolding handle_frame is_heartbeat pong_of ping_or_packet submit ingest_packet log_tunnel_packet
    log_payload
handle_frame-ping_or_packet s frame l e = ground arith

select-websocket_select :
    (s : Service) (choice : DirectChoice) (l : Loop)
    → s.use_tun_bridge ≡ false
    → select s (branch_of choice) l ≡ websocket_select s.logs choice l
unfolding select websocket_select send_logged log_payload log_tunnel_packet
select-websocket_select s forward_rx_frame l e = ground arith
select-websocket_select s forward_rx_closed l e = ground arith
select-websocket_select s transport_recv l e = ground (arith, handle_frame-ping_or_packet s)

unlogged : (payload : List ℕ) (l : Loop) → log_tunnel_packet false payload l ≡ l
unfolding log_tunnel_packet
unlogged [] l = refl
unlogged (b ∷ bs) l = refl

websocket_select-quic_select :
    (choice : DirectChoice) (l : Loop) → websocket_select false choice l ≡ quic_select choice l
unfolding websocket_select quic_select
websocket_select-quic_select forward_rx_frame l = grind (arith, unlogged)
websocket_select-quic_select forward_rx_closed l = refl
websocket_select-quic_select transport_recv l = grind (arith, unlogged)

rest_drained :
    (s : Service) (l : Loop) → s.use_tun_bridge ≡ false → drain_rest s l ≡ drain_forward s l
unfolding drain_rest
rest_drained s l e = rw (e, drain_rest) refl

-- With no bridge and nothing from it, a round drains the forwarder's queue and goes on from there.
round-drain_forward :
    (s : Service) (choice : Choice) (l : Loop)
    → s.use_tun_bridge ≡ false
    → l.tun_queue ≡ []
    → round s choice l ≡ then_unless s.drain_failure_ends (drain_forward s l) (next_frame s choice)
unfolding round
round-drain_forward s choice l bridgeless empty =
    let rest : Loop → Bool × Loop =
      λ l₁. then_unless s.drain_failure_ends (drain_rest s l₁) (next_frame s choice) in
    ap (λ d. then_unless s.drain_failure_ends d rest) (nothing_drained s l empty)
    ∙ went_on s.drain_failure_ends l rest
    ∙ ap (λ d. then_unless s.drain_failure_ends d (next_frame s choice))
        (rest_drained s l bridgeless)

-- After the drain.
rest_of_round : Bool → DirectChoice → Loop → Bool × Loop
rest_of_round logs choice l = elim l.pending_frame [
  | some frame ↦
      ping_or_packet frame
        (log_tunnel_packet logs frame.payload (record l { pending_frame = none }))
  | none ↦ websocket_select logs choice l
]

next_frame-rest_of_round :
    (s : Service) (choice : DirectChoice) (l : Loop)
    → s.use_tun_bridge ≡ false
    → next_frame s (branch_of choice) l ≡ rest_of_round s.logs choice l
unfolding next_frame rest_of_round
next_frame-rest_of_round s choice l e =
    let selected = select-websocket_select s choice l e in
    elim (Option-cases l.pending_frame) [
      | inl free ↦ ground arith
      | inr (frame, held) ↦
          let handled = handle_frame-ping_or_packet s frame (record l { pending_frame = none }) e in
          ground arith
    ]

pub round-websocket_round :
    (logs : Bool) (choice : DirectChoice) (l : Loop)
    → l.tun_queue ≡ []
    → round (websocket_service logs) (branch_of choice) l ≡ websocket_round logs choice l
unfolding then_unless websocket_round websocket_service rest_of_round
round-websocket_round logs choice l empty =
    let s = websocket_service logs in
    round-drain_forward s (branch_of choice) l refl empty
    ∙ next_frame-rest_of_round s choice (drain_forward s l).1 refl
    ∙ ap (rest_of_round logs choice) (drain_forward-websocket_drain s l)

rest_of_round-quic :
    (choice : DirectChoice) (l : Loop)
    → rest_of_round false choice l ≡ (elim l.pending_frame [
      | some frame ↦ ping_or_packet frame (record l { pending_frame = none })
      | none ↦ quic_select choice l
    ])
unfolding rest_of_round
rest_of_round-quic choice l =
    let selected = websocket_select-quic_select choice l in
    elim (Option-cases l.pending_frame) [
      | inl free ↦ ground arith
      | inr (frame, held) ↦
          let same = unlogged frame.payload (record l { pending_frame = none }) in ground arith
    ]

quic_finish :
    (choice : DirectChoice) (d : Bool × Loop)
    → then_unless true d (next_frame quic_service (branch_of choice)) ≡ (
        if d.0
        then (elim d.1.pending_frame [
          | some frame ↦ ping_or_packet frame (record d.1 { pending_frame = none })
          | none ↦ quic_select choice d.1
        ])
        else (false, d.1))
unfolding then_unless quic_service
quic_finish choice (true, l) =
    next_frame-rest_of_round quic_service choice l refl ∙ rest_of_round-quic choice l
quic_finish choice (false, l) = refl

pub round-quic_round :
    (choice : DirectChoice) (l : Loop)
    → l.tun_queue ≡ []
    → round quic_service (branch_of choice) l ≡ quic_round choice l
unfolding quic_round quic_service
round-quic_round choice l empty =
    round-drain_forward quic_service (branch_of choice) l refl empty
    ∙ ap (λ d. then_unless true d (next_frame quic_service (branch_of choice)))
        (drain_forward-quic_drain l)
    ∙ quic_finish choice (quic_drain max_drain l)
