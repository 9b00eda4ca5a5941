-- ===== src/Serve.antt =====
-- The loop that serves one authenticated client: `run_server` of crates/bonded-server/src/main.rs over
-- TCP, `handle_websocket_session` of bootstrap.rs, `handle_quic_connection` of quic.rs, and
-- `handle_decoded_frames` of wireguard.rs. The queues hold what the TUN bridge and the forwarder have
-- for the client; `select!` takes any of the branches that are ready, so a run is a list of choices.
pub mod Conserve
pub mod Rounds
pub mod Frames
pub mod Branches
pub mod Runs
pub mod Loops
pub mod Drains
pub mod Direct
pub mod DirectRuns
pub mod Datagrams
pub mod Lifecycle
mod Tests
use bonded.Bytes.{has_bit}
use bonded.Session.{SessionFrame, flag_pong}
use bonded.Prelude.{
  ℕ, zero, suc, Bool, true, false, not, ◌&&◌, Option, none, some, List, [], ◌∷◌, ◌++◌,
  if◌then◌else◌,
}

-- What is sent to the client, by where it comes from.
pub data Sent : Type 0 where
  tun_return forwarded pong : SessionFrame → Sent

pub record Loop : Type 0 where
  -- The transport: frames written, whether each of the coming writes goes through (all do at the end of
  -- the list), and the frames that it will receive before it fails.
  pub sent : List Sent
  pub accepts : List Bool
  pub incoming : List SessionFrame
  pub pending_frame : Option SessionFrame
  pub tun_queue : List SessionFrame
  pub forward_queue : List SessionFrame
  -- What went to the TUN bridge, or to the forwarder.
  pub submitted : List SessionFrame
  -- The payloads handed to the packet log.
  pub logged : List (List ℕ)

pub record Service : Type 0 where
  pub use_tun_bridge : Bool
  -- The bridge's writer still takes packets.
  pub bridge_open : Bool
  -- The tunnel's packets are logged.
  pub logs : Bool
  -- A write that fails while the queues are drained ends the session.
  pub drain_failure_ends : Bool

unfoldable pub is_heartbeat : SessionFrame → Bool
is_heartbeat frame =
    has_bit frame.header.flags 0 && (elim frame.payload [ [] ↦ true | b ∷ bs ↦ false ])

unfoldable pub pong_of : SessionFrame → SessionFrame
pong_of frame = record {
  header = record {
    connection_id = frame.header.connection_id;
    sequence = frame.header.sequence;
    flags = flag_pong;
  };
  payload = frame.payload;
}

-- `maybe_log_tunnel_packet`.
unfoldable pub log_payload : Service → SessionFrame → Loop → Loop
log_payload s frame l = elim frame.payload [
  | [] ↦ l
  | b ∷ bs ↦ if s.logs then record l { logged = l.logged ++ (b ∷ bs) ∷ [] } else l
]

-- `transport.send`: whether it went through.
unfoldable pub transmit : Sent → Loop → Bool × Loop
transmit x l = elim l.accepts [
  | [] ↦ (true, record l { sent = l.sent ++ x ∷ [] })
  | ok_now ∷ rest ↦
      if ok_now
      then (true, record l { sent = l.sent ++ x ∷ []; accepts = rest })
      else (false, record l { accepts = rest })
]

unfoldable pub send_logged : Service → (SessionFrame → Sent) → SessionFrame → Loop → Bool × Loop
unfolding log_payload transmit
send_logged s tag frame l = transmit (tag frame) (log_payload s frame l)

-- `for _ in 0..MAX { try_recv, send }`: whether all sends went through, the queue, and the rest.
unfoldable pub drain_queue :
    Service → ℕ → (SessionFrame → Sent) → List SessionFrame → Loop → Bool × List SessionFrame × Loop
unfolding send_logged
drain_queue s zero tag queue l = (true, queue, l)
drain_queue s (suc n) tag [] l = (true, [], l)
drain_queue s (suc n) tag (frame ∷ queue) l =
    let r = send_logged s tag frame l in
    let later = drain_queue s n tag queue r.1 in if r.0 then later else (false, queue, r.1)

abbrev pub max_response_drain_per_cycle : ℕ
max_response_drain_per_cycle = 256

unfoldable pub drain_tun : Service → Loop → Bool × Loop
unfolding drain_queue
drain_tun s l =
    let d = drain_queue s max_response_drain_per_cycle tun_return l.tun_queue l in
    (d.0, record d.2 { tun_queue = d.1 })

unfoldable pub drain_forward : Service → Loop → Bool × Loop
unfolding drain_queue
drain_forward s l =
    let d = drain_queue s max_response_drain_per_cycle forwarded l.forward_queue l in
    (d.0, record d.2 { forward_queue = d.1 })

-- The frame goes to the bridge, or to the forwarder, which takes every frame.
unfoldable pub submit : Service → SessionFrame → Loop → Bool × Loop
submit s frame l =
    if s.use_tun_bridge && not s.bridge_open
    then (false, l)
    else (true, record l { submitted = l.submitted ++ frame ∷ [] })

-- A frame of the client: a heartbeat is answered, everything else submitted. Whether the session goes
-- on.
unfoldable pub handle_frame : Service → SessionFrame → Loop → Bool × Loop
unfolding is_heartbeat pong_of log_payload transmit submit
handle_frame s frame l =
    let logged = log_payload s frame l in
    if is_heartbeat frame then transmit (pong (pong_of frame)) logged else submit s frame logged

-- The branches of `select!`, of which the closing ones end the session.
pub data Choice : Type 0 where
  take_tun take_forward hear : Choice
  tun_closed forward_closed : Choice

-- A branch waits while it has nothing to take; the transport fails at its end.
unfoldable pub select : Service → Choice → Loop → Bool × Loop
unfolding send_logged handle_frame
select s take_tun l = elim l.tun_queue [
  | [] ↦ (true, l)
  | frame ∷ queue ↦ send_logged s tun_return frame (record l { tun_queue = queue })
]
select s take_forward l = elim l.forward_queue [
  | [] ↦ (true, l)
  | frame ∷ queue ↦
      if s.use_tun_bridge
      then (true, record l { forward_queue = queue })
      else send_logged s forwarded frame (record l { forward_queue = queue })
]
select s hear l = elim l.incoming [
  | [] ↦ (false, l)
  | frame ∷ frames ↦ handle_frame s frame (record l { incoming = frames })
]
select s tun_closed l = (false, l)
select s forward_closed l = (s.use_tun_bridge, l)

-- The frame that the session was bound with goes first.
unfoldable pub next_frame : Service → Choice → Loop → Bool × Loop
unfolding handle_frame select
next_frame s choice l = elim l.pending_frame [
  | some frame ↦ handle_frame s frame (record l { pending_frame = none })
  | none ↦ select s choice l
]

unfoldable pub then_unless : Bool → (Bool × Loop) → (Loop → Bool × Loop) → Bool × Loop
then_unless ends (went, l) k = if ends && not went then (false, l) else k l

-- The forwarder's queue is drained only where there is no bridge.
unfoldable pub drain_rest : Service → Loop → Bool × Loop
unfolding drain_forward
drain_rest s l = if s.use_tun_bridge then (true, l) else drain_forward s l

-- One round of the loop: whether it goes on.
unfoldable pub round : Service → Choice → Loop → Bool × Loop
unfolding drain_tun drain_rest then_unless next_frame
round s choice l =
    then_unless s.drain_failure_ends (drain_tun s l)
      (λ l₁. then_unless s.drain_failure_ends (drain_rest s l₁) (next_frame s choice))

-- A frame comes into a queue, or the loop makes a round.
pub data Event : Type 0 where
  tun_arrives forward_arrives : SessionFrame → Event
  turn : Choice → Event

unfoldable pub step : Service → Event → Loop → Bool × Loop
unfolding round
step s (tun_arrives frame) l = (true, record l { tun_queue = l.tun_queue ++ frame ∷ [] })
step s (forward_arrives frame) l =
    (true, record l { forward_queue = l.forward_queue ++ frame ∷ [] })
step s (turn choice) l = round s choice l

unfoldable pub serve : Service → List Event → Loop → Bool × Loop
unfolding step
serve s [] l = (true, l)
serve s (e ∷ es) l = let r = step s e l in let later = serve s es r.1 in if r.0 then later else r

-- The services: over TCP with a bridge or without, over WebSocket and over QUIC. The last two have no
-- bridge, whose queue stays empty, and QUIC logs nothing.
unfoldable pub tcp_service : Bool → Bool → Bool → Service
tcp_service use_tun_bridge bridge_open logs = record {
  use_tun_bridge = use_tun_bridge;
  bridge_open = bridge_open;
  logs = logs;
  drain_failure_ends = false;
}

unfoldable pub websocket_service : Bool → Service
websocket_service logs = record {
  use_tun_bridge = false;
  bridge_open = false;
  logs = logs;
  drain_failure_ends = false;
}

unfoldable pub quic_service : Service
quic_service = record {
  use_tun_bridge = false;
  bridge_open = false;
  logs = false;
  drain_failure_ends = true;
}

-- `handle_decoded_frames` of WireGuard, which goes on whatever fails.
unfoldable pub handle_decoded_frames : Service → List SessionFrame → Loop → Loop
unfolding handle_frame
handle_decoded_frames s [] l = l
handle_decoded_frames s (frame ∷ frames) l =
    handle_decoded_frames s frames (handle_frame s frame l).1
