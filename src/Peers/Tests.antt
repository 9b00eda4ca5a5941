-- ===== src/Peers/Tests.antt =====
-- Runs of the peer registry, and its theorems at inputs that meet their hypotheses.
use bonded.Prelude.Map.{lookup, insert, remove, retain, values}
use bonded.Peers.{
  RegisteredWireGuardPeer, WireGuardPeerRegistry, new_with_lease, register_peer_lease,
  unix_timestamp_after,
}
use bonded.Peers.Leases.{IsLeased, register_peer_lease-IsLeased}
use bonded.Peers.Leases.Grants.{Granted, register_peer_lease-Granted}
use bonded.Prelude.{refl, ascii, arith, true, Text, text_eq, text_beq}

abbrev phone : Text
phone = ascii "phone"

abbrev tablet : Text
tablet = ascii "tablet"

abbrev one_peer : WireGuardPeerRegistry
one_peer = (register_peer_lease true 1000 phone (ascii "wg1") (new_with_lease 60)).1

new-IsLeased : IsLeased (new_with_lease 60).peers
unfolding new_with_lease lookup
new-IsLeased = record { keyed = tt; distinct = λ k j p q h g e. ground arith }

register_peer_lease-IsLeased_example :
    IsLeased (register_peer_lease true 1000 phone (ascii "wg1") (new_with_lease 60)).1.peers
register_peer_lease-IsLeased_example =
    register_peer_lease-IsLeased true 1000 phone (ascii "wg1") (new_with_lease 60) new-IsLeased

abbrev given : RegisteredWireGuardPeer
given = record { peer_ip = record { a = 100; b = 64; c = 1; d = 1 }; lease_expires_at = 1060 }

register_peer_lease-Granted_example :
    Granted phone (ascii "wg1") (unix_timestamp_after 1000 60) given one_peer
unfolding register_peer_lease new_with_lease lookup insert remove retain values text_beq
register_peer_lease-Granted_example =
    register_peer_lease-Granted true 1000 phone (ascii "wg1") (new_with_lease 60) given one_peer
      refl
