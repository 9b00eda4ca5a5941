-- ===== src/Peers/Leases.antt =====
-- The addresses of the registered peers.
pub mod Grants
use bonded.Prelude.Map.{
  Map, lookup, insert, retain, values, IsKeyedBy, lookup-IsKeyedBy, insert-IsKeyedBy, lookup-insert,
}
use bonded.Peers.{
  WireGuardPeer, RegisteredWireGuardPeer, WireGuardPeerRegistry, in_use, persist_locked,
  prune_expired_locked, renew, enter, answer, register_peer_lease, unix_timestamp_after, is_live,
  PeerResult,
}
use bonded.Peers.Allocation.{allocate_peer_ip-Allocates}
use bonded.Prelude.{
  ℕ, ◌≡◌, ◌≢◌, refl, sym, ap, ◌∙◌, Bool, false, ◌&&◌, none, some, [], ◌∷◌, Text, text_eq, text_beq,
  text_beq_iff, ◌==◌, ok, err, arith, Bool-cases, inl, inr, Option-cases, Outcome-cases, length,
}

abbrev Peers : Type 0
Peers = Map Text WireGuardPeer

-- Each peer stands under its own key, and no two peers have the same last octet.
pub record IsLeased (peers : Map Text WireGuardPeer) : Type 0 where
  pub keyed : IsKeyedBy (λ (p : WireGuardPeer). p.device_public_key) peers
  pub distinct :
      (k j : Text) (p q : WireGuardPeer)
      → lookup k peers ≡ some p
      → lookup j peers ≡ some q
      → p.peer_ip.d ≡ q.peer_ip.d
      → k ≡ j

-- Keeping some entries of a map finds nothing new.
retain-none :
    (keep : Text → WireGuardPeer → Bool) (k : Text) (m : Peers)
    → lookup k m ≡ none
    → lookup k (retain keep m) ≡ none
unfolding lookup retain
retain-none keep k [] h = refl
retain-none keep k ((j, v) ∷ m) h = ground (arith, retain-none keep k m)

retain-some :
    (keep : Text → WireGuardPeer → Bool) (k : Text) (m : Peers) (p : WireGuardPeer)
    → IsKeyedBy (λ (p : WireGuardPeer). p.device_public_key) m
    → lookup k (retain keep m) ≡ some p
    → lookup k m ≡ some p
unfolding lookup retain
retain-some keep k [] p w h = h
retain-some keep k ((j, v) ∷ m) p w h =
    ground (arith, w.1, retain-some keep k m p w.2, retain-none keep k m, text_beq_iff j k)

retain-IsKeyedBy :
    (keep : Text → WireGuardPeer → Bool) (m : Peers)
    → IsKeyedBy (λ (p : WireGuardPeer). p.device_public_key) m
    → IsKeyedBy (λ (p : WireGuardPeer). p.device_public_key) (retain keep m)
unfolding retain
retain-IsKeyedBy keep [] w = tt
retain-IsKeyedBy keep ((j, v) ∷ m) w = elim (Bool-cases (keep j v)) [
  | inl kept ↦ rw (kept, retain) (w.0, retain-none keep j m w.1, retain-IsKeyedBy keep m w.2)
  | inr dropped ↦ rw (dropped, retain) (retain-IsKeyedBy keep m w.2)
]

retain-IsLeased :
    (keep : Text → WireGuardPeer → Bool) (m : Peers) → IsLeased m → IsLeased (retain keep m)
retain-IsLeased keep m w = record {
  keyed = retain-IsKeyedBy keep m w.keyed;
  distinct = λ k j p q hp hq e.
      w.distinct k j p q (retain-some keep k m p w.keyed hp) (retain-some keep j m q w.keyed hq) e;
}

-- A free octet is that of no peer.
in_use-lookup :
    (m : Peers) (octet : ℕ) (k : Text) (p : WireGuardPeer)
    → in_use m octet ≡ false
    → lookup k m ≡ some p
    → p.peer_ip.d ≢ octet
unfolding in_use lookup values
in_use-lookup [] octet k p h g = λ e. ground arith
in_use-lookup ((j, v) ∷ m) octet k p h g = λ e. ground (arith, in_use-lookup m octet k p)

insert-IsLeased :
    (m : Peers) (key : Text) (peer : WireGuardPeer)
    → IsLeased m
    → peer.device_public_key ≡ key
    → ((j : Text) (q : WireGuardPeer)
        → lookup j m ≡ some q
        → q.peer_ip.d ≡ peer.peer_ip.d
        → key ≡ j)
    → IsLeased (insert key peer m)
insert-IsLeased m key peer w own alone = record {
  keyed = insert-IsKeyedBy (λ (p : WireGuardPeer). p.device_public_key) key peer m own w.keyed;
  distinct = λ k j p q hp hq e. grind (
    arith,
    lookup-insert key k peer m,
    lookup-insert key j peer m,
    alone k p,
    alone j q,
    w.distinct k j p q,
    text_beq_iff key k,
    text_beq_iff key j,
  );
}

persist_locked-peers :
    (writable : Bool) (r : WireGuardPeerRegistry) → (persist_locked writable r).1.peers ≡ r.peers
unfolding persist_locked
persist_locked-peers writable r = ground arith

answer-registry : {A : Type 0} (a : A) (o : PeerResult (Unit {0})) → (answer a o).1 ≡ o.1
unfolding answer
answer-registry a (ok _, r) = refl
answer-registry a (err e, r) = refl

prune-IsLeased :
    (writable : Bool) (now : ℕ) (r : WireGuardPeerRegistry)
    → IsLeased r.peers
    → IsLeased (prune_expired_locked writable now r).1.peers
unfolding prune_expired_locked
prune-IsLeased writable now r w =
    let keep : Text → WireGuardPeer → Bool = λ key peer. is_live now peer in
    let kept = retain-IsLeased keep r.peers w in
    let peers = retain keep r.peers in
    elim (Bool-cases (length peers == length r.peers)) [
      | inl same ↦ rw same kept
      | inr fewer ↦ rw (fewer, persist_locked-peers writable (record r { peers = peers })) kept
    ]

pub renew-IsLeased :
    (writable : Bool) (expires : ℕ) (key wg : Text) (existing : WireGuardPeer)
    (r : WireGuardPeerRegistry)
    → IsLeased r.peers
    → lookup key r.peers ≡ some existing
    → existing.device_public_key ≡ key
    → IsLeased (renew writable expires key wg existing r).1.peers
unfolding renew
renew-IsLeased writable expires key wg existing r w held own =
    let renewed : WireGuardPeer = record existing {
      wg_public_key = wg;
      lease_expires_at = expires;
    } in
    let peers = insert key renewed r.peers in
    let given : RegisteredWireGuardPeer = record {
      peer_ip = existing.peer_ip;
      lease_expires_at = expires;
    } in
    let same = answer-registry given (persist_locked writable (record r { peers = peers })) in
    let inserted =
      insert-IsLeased r.peers key renewed w own
        (λ j q h e. w.distinct key j existing q held h (sym e)) in
    elim (Bool-cases
      (text_beq existing.wg_public_key wg && (existing.lease_expires_at == expires))) [
        | inl unchanged ↦ rw unchanged w
        | inr changed ↦
            rw (changed, same, persist_locked-peers writable (record r { peers = peers })) inserted
      ]

pub enter-IsLeased :
    (writable : Bool) (expires : ℕ) (key wg : Text) (r : WireGuardPeerRegistry)
    → IsLeased r.peers
    → IsLeased (enter writable expires key wg r).1.peers
unfolding enter
enter-IsLeased writable expires key wg r w =
    elim (allocate_peer_ip-Allocates r.peers r.next_octet) [
      | inr (full, _) ↦ rw (full, enter) w
      | inl (ip, next, found, a) ↦
          let peer : WireGuardPeer = record {
            device_public_key = key;
            wg_public_key = wg;
            peer_ip = ip;
            lease_expires_at = expires;
          } in
          let r' : WireGuardPeerRegistry = record r {
            peers = insert key peer r.peers;
            next_octet = next;
          } in
          let given : RegisteredWireGuardPeer = record {
            peer_ip = ip;
            lease_expires_at = expires;
          } in
          rw (found, enter)
            (rw
              (answer-registry given (persist_locked writable r'), persist_locked-peers writable r')
              (insert-IsLeased r.peers key peer w refl
                (λ j q h e. absurd (in_use-lookup r.peers ip.d j q a.free h e))))
    ]

-- A registration leaves every peer under its own key and no two peers with the same address, whether
-- it renews a lease, allocates a new address, or fails.
pub register_peer_lease-IsLeased :
    (writable : Bool) (now : ℕ) (device wg : Text) (r : WireGuardPeerRegistry)
    → IsLeased r.peers
    → IsLeased (register_peer_lease writable now device wg r).1.peers
unfolding register_peer_lease
register_peer_lease-IsLeased writable now device wg r w =
    let pruned = (prune_expired_locked writable now r).1 in
    let kept = prune-IsLeased writable now r w in
    let expires = unix_timestamp_after now r.peer_lease in
    elim (Outcome-cases (prune_expired_locked writable now r).0) [
      | inr (e, failed) ↦ rw (failed, register_peer_lease) kept
      | inl (u, went) ↦ elim (Option-cases (lookup device pruned.peers)) [
        | inl free ↦
            rw (went, register_peer_lease)
              (rw (free, register_peer_lease)
                (enter-IsLeased writable expires device wg pruned kept))
        | inr (p, held) ↦
            let own =
              lookup-IsKeyedBy (λ (p : WireGuardPeer). p.device_public_key) device pruned.peers p
                kept.keyed held in
            rw (went, register_peer_lease)
              (rw (held, register_peer_lease)
                (renew-IsLeased writable expires device wg p pruned kept held own))
      ]
    ]
