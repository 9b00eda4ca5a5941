-- ===== src/Serve/Tests.antt =====
-- The loop at concrete frames.
use bonded.Session.{SessionFrame, flag_ping}
use bonded.Serve.{
  Loop, Service, Event, tun_arrives, forward_arrives, turn, hear, tcp_service, quic_service,
  websocket_service, serve, tun_return, pong, pong_of,
}
use bonded.Serve.Conserve.{returns_sent, client_data, answers, returns}
use bonded.Serve.Rounds.{can_submit}
use bonded.Serve.Runs.{tun_arrivals, serve-client_data, serve-answers, serve-returns}
use bonded.Prelude.Map.{lookup}
use bonded.Registry.{default, contains_client}
use bonded.Registry.Unique.{Call, registers, run}
use bonded.Bridge.{Channel}
use bonded.Serve.Loops.{
  DirectEvent, response_arrives, direct_turn, transport_recv, direct_serve, websocket_round,
  quic_round,
}
use bonded.Serve.DirectRuns.{event_of, serve-websocket_quic}
use bonded.Serve.Lifecycle.{Server, open_session, close_session, second_connection_orphaned}
use bonded.Prelude.{
  map, ℕ, ◌≡◌, refl, Bool, true, false, none, some, List, [], ◌∷◌, ◌++◌, inl, Text, text_eq, nat_eq,
}

abbrev frame_of : ℕ → ℕ → List ℕ → SessionFrame
frame_of sequence flags payload = record {
  header = record { connection_id = 7; sequence = sequence; flags = flags };
  payload = payload;
}

-- A bound frame, then a heartbeat and data; the first write fails.
abbrev busy : List Bool → Loop
busy accepts = record {
  sent = [];
  accepts = accepts;
  incoming = frame_of 1 flag_ping [] ∷ frame_of 2 0 (6 ∷ []) ∷ [];
  pending_frame = some (frame_of 0 0 (5 ∷ []));
  tun_queue = [];
  forward_queue = [];
  submitted = [];
  logged = [];
}

abbrev events : List Event
events =
    tun_arrives (frame_of 9 0 (1 ∷ []))
    ∷ forward_arrives (frame_of 8 0 (2 ∷ []))
    ∷ turn hear
    ∷ turn hear
    ∷ turn hear
    ∷ []

unfoldable open_tcp : Service
unfolding tcp_service
open_tcp = tcp_service true true true

busy_run :
    (serve open_tcp events (busy [])).1.sent
    ≡ tun_return (frame_of 9 0 (1 ∷ [])) ∷ pong (pong_of (frame_of 1 flag_ping [])) ∷ []
unfolding serve open_tcp
busy_run = refl

-- Over TCP a frame whose write fails in a drain is gone, and the session goes on.
drained_away :
    ((serve open_tcp events (busy (false ∷ []))).0 ≡ true)
    × (returns (serve open_tcp events (busy (false ∷ []))).1 ≡ [])
unfolding serve open_tcp returns_sent
drained_away = (refl, refl)

serve-client_data_example :
    client_data (serve open_tcp events (busy (false ∷ []))).1 ≡ client_data (busy (false ∷ []))
unfolding can_submit open_tcp
serve-client_data_example = serve-client_data open_tcp events (busy (false ∷ [])) refl

serve-answers_example :
    answers (serve open_tcp events (busy (false ∷ []))).1 ≡ answers (busy (false ∷ []))
unfolding serve open_tcp
serve-answers_example = serve-answers open_tcp events (busy (false ∷ [])) refl

serve-returns_example :
    returns (serve quic_service events (busy [])).1 ≡ returns (busy []) ++ tun_arrivals events
unfolding serve quic_service
serve-returns_example = serve-returns quic_service events (busy []) (inl refl) refl

abbrev calm : Loop
calm = record (busy (true ∷ false ∷ [])) { tun_queue = [] }

-- A response comes, whose send goes through, a frame of the client is taken, and another response comes,
-- whose send fails.
abbrev responses : List DirectEvent
responses =
    response_arrives (frame_of 5 0 (7 ∷ []))
    ∷ direct_turn transport_recv
    ∷ response_arrives (frame_of 6 0 (8 ∷ []))
    ∷ direct_turn transport_recv
    ∷ []

serve-websocket_quic_example :
    (serve (websocket_service true) (map event_of responses) calm
      ≡ direct_serve (websocket_round true) responses calm)
    × (serve quic_service (map event_of responses) calm ≡ direct_serve quic_round responses calm)
serve-websocket_quic_example = serve-websocket_quic true responses calm refl

-- The failed send of the second drain ends the session over QUIC.
quic_ends : (direct_serve quic_round responses calm).0 ≡ false
unfolding direct_serve quic_round
quic_ends = refl

abbrev alice : Text
alice = 97 ∷ []

abbrev bob : Text
bob = 98 ∷ []

abbrev both : List Call
both = registers alice ∷ registers bob ∷ []

abbrev live : Channel
live = record { sent = []; receiver_gone = false }

unfoldable two_clients : Server
two_clients = record {
  registry = run default both;
  bridge = record {
    sessions = (0, record { tx = live; connection_id = 1; next_server_sequence = 0 }) ∷ [];
    ip_to_session = (10 ∷ 0 ∷ 0 ∷ 2 ∷ [], 1) ∷ (10 ∷ 0 ∷ 0 ∷ 1 ∷ [], 0) ∷ [];
  };
  forwarders = [];
}

second_connection_orphaned_example :
    let (session_id, one) = open_session true bob 5 live two_clients in
    let (second_id, two) = open_session true bob 6 live one in
    let closed = close_session true bob session_id two in
    (second_id ≡ session_id)
    × (lookup session_id two.bridge.sessions
        ≡ some (record { tx = live; connection_id = 1; next_server_sequence = 0 }))
    × (lookup session_id closed.bridge.sessions ≡ none)
    × (contains_client closed.registry bob ≡ false)
second_connection_orphaned_example = second_connection_orphaned bob 5 6 live live two_clients
