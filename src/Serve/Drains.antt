-- ===== src/Serve/Drains.antt =====
-- The drains of WebSocket and QUIC against the drain of the forwarder's queue over TCP.
use bonded.Session.{SessionFrame}
use bonded.Serve.{
  Sent, Loop, Service, drain_queue, drain_tun, drain_forward, then_unless, transmit, log_payload,
  send_logged, quic_service, forwarded, max_response_drain_per_cycle, tun_return,
}
use bonded.Serve.Loops.{max_drain, log_tunnel_packet, websocket_drain, quic_drain}
use bonded.Prelude.{
  ℕ, zero, suc, ◌≡◌, refl, sym, ap, ◌∙◌, Bool, true, false, List, [], ◌∷◌, arith, Bool-cases, inl,
  inr,
}

empty_drained :
    (s : Service) (n : ℕ) (tag : SessionFrame → Sent) (l : Loop)
    → drain_queue s n tag [] l ≡ (true, [], l)
unfolding drain_queue
empty_drained s zero tag l = refl
empty_drained s (suc n) tag l = refl

-- The TUN queue after a drain.
abbrev left_in_tun : Bool × List SessionFrame × Loop → Bool × Loop
left_in_tun d = (d.0, record d.2 { tun_queue = d.1 })

drained_from :
    (s : Service) (n : ℕ) (l : Loop)
    → l.tun_queue ≡ []
    → left_in_tun (drain_queue s n tun_return l.tun_queue l) ≡ (true, l)
drained_from s n l e =
    ap (λ q. left_in_tun (drain_queue s n tun_return q l)) e
    ∙ ap left_in_tun (empty_drained s n tun_return l)
    ∙ ap (λ q. (true, record l { tun_queue = q })) (sym e)

pub nothing_drained : (s : Service) (l : Loop) → l.tun_queue ≡ [] → drain_tun s l ≡ (true, l)
unfolding drain_tun
nothing_drained s l e = drained_from s max_response_drain_per_cycle l e

pub went_on : (ends : Bool) (l : Loop) (k : Loop → Bool × Loop) → then_unless ends (true, l) k ≡ k l
unfolding then_unless
went_on true l k = refl
went_on false l k = refl

-- A loop whose forwarder's queue is this one.
abbrev with_queue : List SessionFrame → Loop → Loop
with_queue queue l = record l { forward_queue = queue }

pub log_payload-log_tunnel_packet :
    (s : Service) (frame : SessionFrame) (queue : List SessionFrame) (l : Loop)
    → log_tunnel_packet s.logs frame.payload (with_queue queue l)
      ≡ with_queue queue (log_payload s frame l)
unfolding log_tunnel_packet log_payload
log_payload-log_tunnel_packet s frame queue l = ground arith

transmit-with_queue :
    (x : Sent) (queue : List SessionFrame) (l : Loop)
    → transmit x (with_queue queue l) ≡ ((transmit x l).0, with_queue queue (transmit x l).1)
unfolding transmit
transmit-with_queue x queue l = ground arith

sent_logged :
    (s : Service) (frame : SessionFrame) (queue : List SessionFrame) (l : Loop)
    → transmit (forwarded frame) (log_tunnel_packet s.logs frame.payload (with_queue queue l))
      ≡ ((send_logged s forwarded frame l).0, with_queue queue (send_logged s forwarded frame l).1)
unfolding send_logged
sent_logged s frame queue l =
    ap (transmit (forwarded frame)) (log_payload-log_tunnel_packet s frame queue l)
    ∙ transmit-with_queue (forwarded frame) queue (log_payload s frame l)

drain_queue-websocket_drain :
    (s : Service) (n : ℕ) (queue : List SessionFrame) (l : Loop)
    → let d = drain_queue s n forwarded queue l in
      websocket_drain s.logs n (with_queue queue l) ≡ with_queue d.1 d.2
unfolding drain_queue websocket_drain
drain_queue-websocket_drain s zero queue l = refl
drain_queue-websocket_drain s (suc n) [] l = refl
drain_queue-websocket_drain s (suc n) (frame ∷ queue) l =
    let sent = sent_logged s frame queue l in
    let later = drain_queue-websocket_drain s n queue (send_logged s forwarded frame l).1 in
    elim (Bool-cases (send_logged s forwarded frame l).0) [
      | inl on ↦ rw (sent, on) later
      | inr off ↦ rw (sent, off) refl
    ]

nothing_logged : (frame : SessionFrame) (l : Loop) → log_payload quic_service frame l ≡ l
unfolding log_payload quic_service
nothing_logged frame l = ground arith

sent_unlogged :
    (frame : SessionFrame) (queue : List SessionFrame) (l : Loop)
    → transmit (forwarded frame) (with_queue queue l) ≡ (
      (send_logged quic_service forwarded frame l).0,
      with_queue queue (send_logged quic_service forwarded frame l).1,
    )
unfolding send_logged
sent_unlogged frame queue l =
    rw (nothing_logged frame l) (transmit-with_queue (forwarded frame) queue l)

drain_queue-quic_drain :
    (n : ℕ) (queue : List SessionFrame) (l : Loop)
    → let d = drain_queue quic_service n forwarded queue l in
      quic_drain n (with_queue queue l) ≡ (d.0, with_queue d.1 d.2)
unfolding drain_queue quic_drain
drain_queue-quic_drain zero queue l = refl
drain_queue-quic_drain (suc n) [] l = refl
drain_queue-quic_drain (suc n) (frame ∷ queue) l =
    let sent = sent_unlogged frame queue l in
    let later = drain_queue-quic_drain n queue (send_logged quic_service forwarded frame l).1 in
    elim (Bool-cases (send_logged quic_service forwarded frame l).0) [
      | inl on ↦ rw (sent, on) later
      | inr off ↦ rw (sent, off) refl
    ]

pub drain_forward-websocket_drain :
    (s : Service) (l : Loop) → (drain_forward s l).1 ≡ websocket_drain s.logs max_drain l
unfolding drain_forward
drain_forward-websocket_drain s l =
    sym (drain_queue-websocket_drain s max_response_drain_per_cycle l.forward_queue l)

pub drain_forward-quic_drain : (l : Loop) → drain_forward quic_service l ≡ quic_drain max_drain l
unfolding drain_forward
drain_forward-quic_drain l =
    sym (drain_queue-quic_drain max_response_drain_per_cycle l.forward_queue l)
