-- ===== src/Serve/Lifecycle.antt =====
-- How a session is set up before the loop and taken down after it, in the session registry, the TUN
-- bridge and the forwarder registry (`run_server`; `handle_websocket_session` and
-- `handle_quic_connection` do the same without a bridge, `cleanup_wireguard_peer` takes down the same).
use bonded.Prelude.Map.{Map, lookup, insert, remove, lookup-insert, lookup-remove}
use bonded.Registry.{SessionRegistry, register_client, unregister_client, contains_client}
use bonded.Registry.Unique.{register_client_again}
use bonded.Bridge.{Channel, TunBridgeState, register_session, unregister_session}
use bonded.Prelude.{
  ℕ, ◌≡◌, ap, Bool, true, false, none, some, Text, text_eq, text_beq_iff, nat_eq, ==_iff, arith,
  if◌then◌else◌,
}

-- Of a forwarder only the connection it works for is kept.
pub record Server : Type 0 where
  pub registry : SessionRegistry
  pub bridge : TunBridgeState
  pub forwarders : Map ℕ ℕ

unfoldable pub open_session : Bool → Text → ℕ → Channel → Server → ℕ × Server
unfolding register_client register_session
open_session use_tun_bridge client connection tun_tx server =
    let handle = register_client server.registry client in
    (
      handle.0,
      record {
        registry = handle.1;
        bridge =
            if use_tun_bridge
            then register_session handle.0 tun_tx server.bridge
            else server.bridge;
        forwarders =
            if use_tun_bridge
            then server.forwarders
            else insert handle.0 connection server.forwarders;
      },
    )

unfoldable pub close_session : Bool → Text → ℕ → Server → Server
unfolding unregister_client unregister_session
close_session use_tun_bridge client session_id server = record {
  registry = unregister_client server.registry client;
  bridge = if use_tun_bridge then unregister_session session_id server.bridge else server.bridge;
  forwarders = if use_tun_bridge then server.forwarders else remove session_id server.forwarders;
}

-- A client's second connection gets the session of the first, and takes its route over. When the first
-- connection then ends, the session is taken down under the second: it has no route in the bridge, and
-- the client is no longer registered.
pub second_connection_orphaned :
    (client : Text) (first second : ℕ) (first_tx second_tx : Channel) (server : Server)
    → let (session_id, one) = open_session true client first first_tx server in
      let (second_id, two) = open_session true client second second_tx one in
      let closed = close_session true client session_id two in
      (second_id ≡ session_id)
      × (lookup session_id two.bridge.sessions
          ≡ some (record { tx = second_tx; connection_id = 1; next_server_sequence = 0 }))
      × (lookup session_id closed.bridge.sessions ≡ none)
      × (contains_client closed.registry client ≡ false)
unfolding open_session close_session register_session unregister_session unregister_client
    contains_client
second_connection_orphaned client first second first_tx second_tx server =
    let handle = register_client server.registry client in
    let (found, known, same) = register_client_again server.registry client in
    let same_id : (register_client handle.1 client).0 ≡ handle.0 = ap (λ r. r.0) same in
    let same_registry : (register_client handle.1 client).1 ≡ handle.1 = ap (λ r. r.1) same in
    (
      same_id,
      grind (arith, lookup-insert, ==_iff handle.0 handle.0),
      grind (arith, lookup-remove, ==_iff handle.0 handle.0),
      grind (arith, lookup-remove, text_beq_iff client client),
    )
