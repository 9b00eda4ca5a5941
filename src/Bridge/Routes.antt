-- ===== src/Bridge/Routes.antt =====
-- The routes of addresses to sessions.
use bonded.Packet.{Ipv4Addr, octets}
use bonded.Prelude.Map.{
  Map, lookup, insert, remove, retain, contains_key, contains_key-insert, lookup-remove,
}
use bonded.Bridge.{
  Channel, SessionRoute, OutboundPacket, TunBridgeState, register_session, unregister_session,
  learn, write_outbound, deliver, route_to, route_return, read_inbound, parse_ipv4_src_dst,
}
use bonded.Prelude.{
  ℕ, ◌≡◌, true, not, List, [], ◌∷◌, Text, text_eq, nat_eq, ◌==◌, arith, All, Option-cases,
  Bool-cases, inl, inr, ==_iff,
}

-- Every address is routed to a session that is registered.
abbrev pub IsRouted : TunBridgeState → Type 0
IsRouted s = All (λ (e : Text × ℕ). contains_key e.1 s.sessions ≡ true) s.ip_to_session

more_sessions :
    (m m' : Map ℕ SessionRoute) (ips : Map Text ℕ)
    → ((k : ℕ) → contains_key k m ≡ true → contains_key k m' ≡ true)
    → All (λ (e : Text × ℕ). contains_key e.1 m ≡ true) ips
    → All (λ (e : Text × ℕ). contains_key e.1 m' ≡ true) ips
more_sessions m m' [] f w = tt
more_sessions m m' ((ip, k) ∷ ips) f w = (f k w.0, more_sessions m m' ips f w.1)

insert-more :
    (key : ℕ) (r : SessionRoute) (m : Map ℕ SessionRoute) (k : ℕ)
    → contains_key k m ≡ true
    → contains_key k (insert key r m) ≡ true
insert-more key r m k h = ground (arith, contains_key-insert key k r m)

remove-All :
    (P : Text × ℕ → Type 0) (ip : Text) (ips : Map Text ℕ) → All P ips → All P (remove ip ips)
unfolding remove
remove-All P ip [] w = tt
remove-All P ip ((j, k) ∷ ips) w = elim (Bool-cases (text_eq.beq j ip)) [
  | inl same ↦ rw (same, remove) (remove-All P ip ips w.1)
  | inr other ↦ rw (other, remove) (w.0, remove-All P ip ips w.1)
]

unregistered :
    (key : ℕ) (m : Map ℕ SessionRoute) (ips : Map Text ℕ)
    → All (λ (e : Text × ℕ). contains_key e.1 m ≡ true) ips
    → All
        (λ (e : Text × ℕ). contains_key e.1 (remove key m) ≡ true)
        (retain (λ ip mapped. not (mapped == key)) ips)
unfolding retain contains_key
unregistered key m [] w = tt
unregistered key m ((ip, k) ∷ ips) w = elim (Bool-cases (k == key)) [
  | inl same ↦ rw (same, retain) (unregistered key m ips w.1)
  | inr other ↦
      rw (other, retain)
        (ground (arith, lookup-remove key k m, ==_iff k key), unregistered key m ips w.1)
]

unregister_session-IsRouted :
    (key : ℕ) (s : TunBridgeState) → IsRouted s → IsRouted (unregister_session key s)
unfolding unregister_session
unregister_session-IsRouted key s w = unregistered key s.sessions s.ip_to_session w

register_session-IsRouted :
    (key : ℕ) (tx : Channel) (s : TunBridgeState)
    → IsRouted s
    → IsRouted (register_session key tx s)
unfolding register_session
register_session-IsRouted key tx s w =
    let route : SessionRoute = record { tx = tx; connection_id = 1; next_server_sequence = 0 } in
    more_sessions s.sessions (insert key route s.sessions) s.ip_to_session
      (insert-more key route s.sessions) w

learn-IsRouted :
    (pkt : OutboundPacket) (ip : Ipv4Addr) (s : TunBridgeState)
    → IsRouted s
    → IsRouted (learn pkt ip s)
unfolding learn insert
learn-IsRouted pkt ip s w = elim (Option-cases (lookup pkt.session_id s.sessions)) [
  | inl gone ↦ rw (gone, learn) w
  | inr (route, there) ↦
      let updated : SessionRoute = record route { connection_id = pkt.connection_id } in
      rw (there, learn)
        (
          ground (
            arith,
            contains_key-insert pkt.session_id pkt.session_id updated s.sessions,
            ==_iff pkt.session_id pkt.session_id,
          ),
          remove-All _ (octets ip) s.ip_to_session (
              more_sessions s.sessions (insert pkt.session_id updated s.sessions) s.ip_to_session
                (insert-more pkt.session_id updated s.sessions) w),
        )
]

write_outbound-IsRouted :
    (pkt : OutboundPacket) (s : TunBridgeState) → IsRouted s → IsRouted (write_outbound pkt s).1
unfolding write_outbound
write_outbound-IsRouted pkt s w = elim (Option-cases (parse_ipv4_src_dst pkt.payload)) [
  | inl bad ↦ rw (bad, write_outbound) w
  | inr (ips, good) ↦ rw (good, write_outbound) (learn-IsRouted pkt ips.0 s w)
]

deliver-IsRouted :
    (key : ℕ) (route : SessionRoute) (packet : List ℕ) (s : TunBridgeState)
    → IsRouted s
    → IsRouted (deliver key route packet s)
unfolding deliver
deliver-IsRouted key route packet s w = elim (Bool-cases route.tx.receiver_gone) [
  | inl gone ↦ rw (gone, deliver) (unregister_session-IsRouted key s w)
  | inr alive ↦
      rw (alive, deliver)
        (more_sessions s.sessions _ s.ip_to_session (insert-more key _ s.sessions) w)
]

read_inbound-IsRouted :
    (packet : List ℕ) (s : TunBridgeState) → IsRouted s → IsRouted (read_inbound packet s)
unfolding read_inbound route_return route_to
read_inbound-IsRouted packet s w = elim (Option-cases (parse_ipv4_src_dst packet)) [
  | inl bad ↦ rw (bad, read_inbound) w
  | inr (ips, good) ↦ elim (Option-cases (lookup (octets ips.1) s.ip_to_session)) [
    | inl unknown ↦ rw (good, read_inbound) (rw (unknown, route_return) w)
    | inr (key, known) ↦ elim (Option-cases (lookup key s.sessions)) [
      | inl gone ↦
          rw (good, read_inbound)
            (rw (known, route_return)
              (rw (gone, route_to) (remove-All _ (octets ips.1) s.ip_to_session w)))
      | inr (route, there) ↦
          rw (good, read_inbound)
            (rw (known, route_return)
              (rw (there, route_to) (deliver-IsRouted key route packet s w)))
    ]
  ]
]

pub data Event : Type 0 where
  registers : ℕ → Channel → Event
  unregisters : ℕ → Event
  writes : OutboundPacket → Event
  reads : List ℕ → Event

unfoldable pub step : TunBridgeState → Event → TunBridgeState
unfolding register_session unregister_session write_outbound read_inbound
step s (registers key tx) = register_session key tx s
step s (unregisters key) = unregister_session key s
step s (writes pkt) = (write_outbound pkt s).1
step s (reads packet) = read_inbound packet s

unfoldable pub run : TunBridgeState → List Event → TunBridgeState
unfolding step
run s [] = s
run s (e ∷ es) = run (step s e) es

step-IsRouted : (s : TunBridgeState) (e : Event) → IsRouted s → IsRouted (step s e)
unfolding step
step-IsRouted s (registers key tx) w = register_session-IsRouted key tx s w
step-IsRouted s (unregisters key) w = unregister_session-IsRouted key s w
step-IsRouted s (writes pkt) w = write_outbound-IsRouted pkt s w
step-IsRouted s (reads packet) w = read_inbound-IsRouted packet s w

-- However registrations, removals, client packets and packets from the device follow each other, no
-- address is ever routed to a session that is not registered.
pub run-IsRouted : (s : TunBridgeState) (es : List Event) → IsRouted s → IsRouted (run s es)
unfolding run
run-IsRouted s [] w = w
run-IsRouted s (e ∷ es) w = run-IsRouted (step s e) es (step-IsRouted s e w)
