-- ===== src/Peers/Leases/Grants.antt =====
-- What a registration that succeeds has granted.
use bonded.Peers.Leases.{Peers}
use bonded.Prelude.Map.{lookup, insert, lookup-insert}
use bonded.Peers.{
  WireGuardPeer, RegisteredWireGuardPeer, WireGuardPeerRegistry, persist_locked,
  prune_expired_locked, renew, enter, answer, register_peer_lease, unix_timestamp_after,
}
use bonded.Peers.Allocation.{allocate_peer_ip-Allocates}
use bonded.Prelude.{
  ℕ, ◌≡◌, refl, sym, ap, ◌∙◌, Bool, ◌&&◌, some, Text, text_eq, text_beq, text_beq_iff, ◌==◌, ok,
  arith, Bool-cases, inl, inr, Option-cases, Outcome-cases,
}

-- What a lease that was granted says of the registry.
abbrev pub Granted : Text → Text → ℕ → RegisteredWireGuardPeer → WireGuardPeerRegistry → Type 0
Granted device wg expires given r =
    (p : WireGuardPeer) × (lookup device r.peers ≡ some p)
    × (p.wg_public_key ≡ wg)
    × (p.peer_ip ≡ given.peer_ip)
    × (p.lease_expires_at ≡ expires)
    × (given.lease_expires_at ≡ expires)

inserted_own : (key : Text) (p : WireGuardPeer) (m : Peers) → lookup key (insert key p m) ≡ some p
inserted_own key p m = ground (arith, lookup-insert key key p m, text_beq_iff key key)

persisted-ok :
    (writable : Bool) (r : WireGuardPeerRegistry) (given g : RegisteredWireGuardPeer)
    (r' : WireGuardPeerRegistry)
    → answer given (persist_locked writable r) ≡ (ok g, r')
    → (g ≡ given) × (r'.peers ≡ r.peers)
unfolding answer persist_locked
persisted-ok writable r given g r' h = (ground arith, ground arith)

renew-Granted :
    (writable : Bool) (expires : ℕ) (key wg : Text) (existing : WireGuardPeer)
    (r : WireGuardPeerRegistry) (given : RegisteredWireGuardPeer) (r' : WireGuardPeerRegistry)
    → lookup key r.peers ≡ some existing
    → renew writable expires key wg existing r ≡ (ok given, r')
    → Granted key wg expires given r' × (given.peer_ip ≡ existing.peer_ip)
unfolding renew
renew-Granted writable expires key wg existing r given r' held h =
    let renewed : WireGuardPeer = record existing {
      wg_public_key = wg;
      lease_expires_at = expires;
    } in
    let peers = insert key renewed r.peers in
    let want : RegisteredWireGuardPeer = record {
      peer_ip = existing.peer_ip;
      lease_expires_at = expires;
    } in
    elim (Bool-cases
      (text_beq existing.wg_public_key wg && (existing.lease_expires_at == expires))) [
        | inl unchanged ↦ (
          (
            existing,
            ground arith,
            ground (arith, text_beq_iff existing.wg_public_key wg),
            ground arith,
            ground arith,
            ground arith,
          ),
          ground arith,
        )
        | inr changed ↦
            let (given_e, peers_e) =
              persisted-ok writable (record r { peers = peers }) want given r' (ground arith) in
            (
              (
                renewed,
                ground (arith, lookup-insert key key renewed r.peers, text_beq_iff key key),
                refl,
                ground arith,
                refl,
                ground arith,
              ),
              ground arith,
            )
      ]

enter-Granted :
    (writable : Bool) (expires : ℕ) (key wg : Text) (r : WireGuardPeerRegistry)
    (given : RegisteredWireGuardPeer) (r' : WireGuardPeerRegistry)
    → enter writable expires key wg r ≡ (ok given, r')
    → Granted key wg expires given r'
unfolding enter
enter-Granted writable expires key wg r given r' h =
    elim (allocate_peer_ip-Allocates r.peers r.next_octet) [
      | inr (full, _) ↦ absurd (ground arith)
      | inl (ip, next, found, a) ↦
          let peer : WireGuardPeer = record {
            device_public_key = key;
            wg_public_key = wg;
            peer_ip = ip;
            lease_expires_at = expires;
          } in
          let want : RegisteredWireGuardPeer = record {
            peer_ip = ip;
            lease_expires_at = expires;
          } in
          let (given_e, peers_e) =
            persisted-ok writable (record r { peers = insert key peer r.peers; next_octet = next })
              want given r' (ground arith) in
          (
            peer,
            ap (lookup key) peers_e ∙ inserted_own key peer r.peers,
            refl,
            ap (λ g. g.peer_ip) (sym given_e),
            refl,
            ap (λ g. g.lease_expires_at) given_e,
          )
    ]

-- A registration that succeeds has put the device on record, with the WireGuard key and the address
-- that it answers, and with a lease that runs from now.
pub register_peer_lease-Granted :
    (writable : Bool) (now : ℕ) (device wg : Text) (r : WireGuardPeerRegistry)
    (given : RegisteredWireGuardPeer) (r' : WireGuardPeerRegistry)
    → register_peer_lease writable now device wg r ≡ (ok given, r')
    → Granted device wg (unix_timestamp_after now r.peer_lease) given r'
unfolding register_peer_lease
register_peer_lease-Granted writable now device wg r given r' h =
    let pruned = (prune_expired_locked writable now r).1 in
    let expires = unix_timestamp_after now r.peer_lease in
    elim (Outcome-cases (prune_expired_locked writable now r).0) [
      | inr (e, failed) ↦ absurd (ground arith)
      | inl (u, went) ↦ elim (Option-cases (lookup device pruned.peers)) [
        | inl free ↦ enter-Granted writable expires device wg pruned given r' (ground arith)
        | inr (p, held) ↦
            (renew-Granted writable expires device wg p pruned given r' held (ground arith)).0
      ]
    ]
