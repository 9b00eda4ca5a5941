-- ===== src/Peers.antt =====
-- `WireGuardPeerRegistry` of crates/bonded-server/src/wireguard.rs: the addresses that WireGuard peers
-- lease, with their file. The clock gives the seconds of each call; TOML is third-party code, so the
-- file is missing, cannot be parsed, or holds a list of peers (whose order nothing reads).
pub mod Allocation
pub mod Leases
mod Tests
use bonded.Packet.{Ipv4Addr}
use bonded.Prelude.Map.{Map, lookup, insert, retain, values}
use bonded.Prelude.{
  ℕ, zero, suc, ◌+◌, ◌-◌, ◌%◌, ◌^◌, Bool, true, false, not, ◌||◌, ◌&&◌, Option, none, some, List,
  [], ◌∷◌, Text, text_eq, text_beq, length, any, find, ltb, leb, ◌==◌, if◌then◌else◌, min, Outcome,
  ok, err,
}

pub record WireGuardPeer : Type 0 where
  pub device_public_key : Text
  pub wg_public_key : Text
  pub peer_ip : Ipv4Addr
  pub lease_expires_at : ℕ

-- The address is printed as `{peer_ip}/32`.
pub record RegisteredWireGuardPeer : Type 0 where
  pub peer_ip : Ipv4Addr
  pub lease_expires_at : ℕ

pub data PeersFile : Type 0 where
  missing : PeersFile
  unparsed : PeersFile
  listing : List WireGuardPeer → PeersFile

-- `path` is the file's content, if the registry has a file.
pub record WireGuardPeerRegistry : Type 0 where
  pub peers : Map Text WireGuardPeer
  pub next_octet : ℕ
  pub peer_lease : ℕ
  pub path : Option PeersFile

-- The failures that the registry's calls end on. Those of `register_peer_lease` are panics with the lock
-- held, which poison it: the code answers no later call, so what later calls do is of a registry none
-- of whose calls has failed.
pub data PeersError : Type 0 where
  exhausted : PeersError
  persist_failed : PeersError
  unreadable : PeersError

unfoldable pub new_with_lease : ℕ → WireGuardPeerRegistry
new_with_lease peer_lease = record {
  peers = [];
  next_octet = 1;
  peer_lease = peer_lease;
  path = none;
}

-- A u8's saturating successor, and a maximum.
abbrev pub next_u8 : ℕ → ℕ
next_u8 octet = min 255 (octet + 1)

abbrev pub max_u8 : ℕ → ℕ → ℕ
max_u8 a b = if ltb a b then b else a

unfoldable pub normalize_octet : ℕ → ℕ
normalize_octet octet = if octet == 0 || octet == 255 then 1 else min octet 254

unfoldable pub in_use : Map Text WireGuardPeer → ℕ → Bool
in_use peers candidate = any (λ (peer : WireGuardPeer). peer.peer_ip.d == candidate) (values peers)

-- The loop over the offsets, `left` of them to go.
unfoldable pub first_free : (left offset start : ℕ) → Map Text WireGuardPeer → Option ℕ
unfolding in_use
first_free zero offset start peers = none
first_free (suc left) offset start peers =
    let candidate = (start - 1 + offset) % 254 + 1 in
    let later = first_free left (offset + 1) start peers in
    if in_use peers candidate then later else some candidate

-- The address and the next octet to try.
unfoldable pub allocate_peer_ip : Map Text WireGuardPeer → ℕ → Outcome PeersError (Ipv4Addr × ℕ)
unfolding first_free normalize_octet
allocate_peer_ip peers next_octet = elim (first_free 254 0 (normalize_octet next_octet) peers) [
  | none ↦ err exhausted
  | some candidate ↦
      ok (record { a = 100; b = 64; c = 1; d = candidate }, normalize_octet (next_u8 candidate))
]

-- `now.saturating_add(duration).as_secs()`.
unfoldable pub unix_timestamp_after : ℕ → ℕ → ℕ
unix_timestamp_after now lease = min (2 ^ 64 - 1) (now + lease)

-- `writable` says whether the file system lets the file be written.
unfoldable pub persist_locked :
    Bool → WireGuardPeerRegistry → Outcome PeersError (Unit {0}) × WireGuardPeerRegistry
persist_locked writable r = elim r.path [
  | none ↦ (ok tt, r)
  | some file ↦
      if writable
      then (ok tt, record r { path = some (listing (values r.peers)) })
      else (err persist_failed, r)
]

abbrev pub is_live : ℕ → WireGuardPeer → Bool
is_live now peer = peer.lease_expires_at == 0 || ltb now peer.lease_expires_at

unfoldable pub prune_expired_locked :
    Bool → ℕ → WireGuardPeerRegistry → Outcome PeersError (Unit {0}) × WireGuardPeerRegistry
unfolding persist_locked
prune_expired_locked writable now r =
    let kept = retain (λ key peer. is_live now peer) r.peers in
    if length kept == length r.peers
    then (ok tt, record r { peers = kept })
    else persist_locked writable (record r { peers = kept })

abbrev pub PeerResult : Type 0 → Type 0
PeerResult A = Outcome PeersError A × WireGuardPeerRegistry

-- The answer, once the registry is persisted.
unfoldable pub answer : {A : Type 0} → A → PeerResult (Unit {0}) → PeerResult A
answer a (ok _, r) = (ok a, r)
answer a (err e, r) = (err e, r)

unfoldable pub renew :
    Bool
    → ℕ
    → Text
    → Text
    → WireGuardPeer
    → WireGuardPeerRegistry
    → PeerResult RegisteredWireGuardPeer
unfolding persist_locked answer
renew writable expires device_public_key wg_public_key existing r =
    let renewed : WireGuardPeer = record existing {
      wg_public_key = wg_public_key;
      lease_expires_at = expires;
    } in
    let given : RegisteredWireGuardPeer = record {
      peer_ip = existing.peer_ip;
      lease_expires_at = expires;
    } in
    let unchanged =
      text_beq existing.wg_public_key wg_public_key && (existing.lease_expires_at == expires) in
    if unchanged
    then (ok given, r)
    else answer given
        (persist_locked writable (record r { peers = insert device_public_key renewed r.peers }))

unfoldable pub enter :
    Bool → ℕ → Text → Text → WireGuardPeerRegistry → PeerResult RegisteredWireGuardPeer
unfolding persist_locked answer allocate_peer_ip
enter writable expires device_public_key wg_public_key r =
    elim (allocate_peer_ip r.peers r.next_octet) [
      | err e ↦ (err e, r)
      | ok allocated ↦
          let peer : WireGuardPeer = record {
            device_public_key = device_public_key;
            wg_public_key = wg_public_key;
            peer_ip = allocated.0;
            lease_expires_at = expires;
          } in
          answer (record { peer_ip = allocated.0; lease_expires_at = expires })
            (persist_locked writable (record r {
              peers = insert device_public_key peer r.peers;
              next_octet = allocated.1;
            }))
    ]

unfoldable pub register_peer_lease :
    Bool → ℕ → Text → Text → WireGuardPeerRegistry → PeerResult RegisteredWireGuardPeer
unfolding prune_expired_locked unix_timestamp_after renew enter
register_peer_lease writable now device_public_key wg_public_key r =
    let pruned = prune_expired_locked writable now r in
    let expires = unix_timestamp_after now r.peer_lease in
    elim pruned.0 [
      | err e ↦ (err e, pruned.1)
      | ok _ ↦ elim (lookup device_public_key pruned.1.peers) [
        | some existing ↦ renew writable expires device_public_key wg_public_key existing pruned.1
        | none ↦ enter writable expires device_public_key wg_public_key pruned.1
      ]
    ]

unfoldable pub find_by_wg_key :
    Bool → ℕ → Text → WireGuardPeerRegistry → PeerResult (Option WireGuardPeer)
unfolding prune_expired_locked answer
find_by_wg_key writable now wg_public_key r =
    let pruned = prune_expired_locked writable now r in
    answer
      (find (λ (p : WireGuardPeer). text_beq p.wg_public_key wg_public_key) (values pruned.1.peers))
      pruned

unfoldable pub all_peers : Bool → ℕ → WireGuardPeerRegistry → PeerResult (List WireGuardPeer)
unfolding prune_expired_locked answer
all_peers writable now r =
    let pruned = prune_expired_locked writable now r in answer (values pruned.1.peers) pruned

-- What the loop over the parsed peers has built up.
pub record Loading : Type 0 where
  pub loaded : Map Text WireGuardPeer
  pub max_octet : ℕ
  pub normalized : Bool

unfoldable pub load_peer : (now default_expiry : ℕ) → Loading → WireGuardPeer → Loading
load_peer now default_expiry l peer =
    let unset = peer.lease_expires_at == 0 in
    let expires = if unset then default_expiry else peer.lease_expires_at in
    if leb expires now then record l { normalized = true } else record {
      loaded = insert peer.device_public_key (record peer { lease_expires_at = expires }) l.loaded;
      max_octet = max_u8 l.max_octet peer.peer_ip.d;
      normalized = unset || l.normalized;
    }

unfoldable pub load_all : (now default_expiry : ℕ) → Loading → List WireGuardPeer → Loading
unfolding load_peer
load_all now default_expiry l [] = l
load_all now default_expiry l (peer ∷ rest) =
    load_all now default_expiry (load_peer now default_expiry l peer) rest

-- `load_peers_file`: the peers, the next octet, and whether the file is out of date.
unfoldable pub load_peers_file :
    ℕ → ℕ → PeersFile → Outcome PeersError (Map Text WireGuardPeer × ℕ × Bool)
unfolding load_all normalize_octet unix_timestamp_after
load_peers_file now peer_lease missing = ok ([], 1, false)
load_peers_file now peer_lease unparsed = err unreadable
load_peers_file now peer_lease (listing ps) =
    let l =
      load_all now (unix_timestamp_after now peer_lease)
        (record { loaded = []; max_octet = 0; normalized = false }) ps in
    ok (l.loaded, normalize_octet (next_u8 l.max_octet), l.normalized)

unfoldable pub load_with_lease : Bool → ℕ → ℕ → PeersFile → Outcome PeersError WireGuardPeerRegistry
unfolding load_peers_file persist_locked
load_with_lease writable now peer_lease file = elim (load_peers_file now peer_lease file) [
  | err e ↦ err e
  | ok l ↦
      let r : WireGuardPeerRegistry = record {
        peers = l.0;
        next_octet = l.1;
        peer_lease = peer_lease;
        path = some file;
      } in
      let saved = persist_locked writable r in
      if l.2 then (elim saved.0 [ ok _ ↦ ok saved.1 | err e ↦ err e ]) else ok r
]
