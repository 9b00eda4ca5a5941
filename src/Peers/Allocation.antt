-- ===== src/Peers/Allocation.antt =====
-- The octets that `allocate_peer_ip` gives.
use bonded.Packet.{Ipv4Addr}
use bonded.Prelude.Map.{Map}
use bonded.Peers.{
  WireGuardPeer, exhausted, normalize_octet, in_use, first_free, allocate_peer_ip, next_u8,
}
use bonded.Prelude.{
  ℕ, zero, suc, ◌+◌, ◌-◌, ◌%◌, ◌<◌, ◌≤◌, ◌≡◌, refl, sym, ap, ◌∙◌, true, false, none, some, Text,
  ◌==◌, ok, err, arith, Bool-cases, inl, inr, ◌⊎◌, Option-cases,
}

pub normalize_octet-range :
    (octet : ℕ) → (1 ≤ normalize_octet octet) × (normalize_octet octet ≤ 254)
unfolding normalize_octet
normalize_octet-range octet = (ground arith, ground arith)

first_free-free :
    (left offset start : ℕ) (peers : Map Text WireGuardPeer) (octet : ℕ)
    → first_free left offset start peers ≡ some octet
    → (1 ≤ octet) × (octet ≤ 254) × (in_use peers octet ≡ false)
unfolding first_free
first_free-free zero offset start peers octet h = absurd (ground arith)
first_free-free (suc left) offset start peers octet h =
    elim (Bool-cases (in_use peers ((start - 1 + offset) % 254 + 1))) [
      | inl taken ↦ first_free-free left (offset + 1) start peers octet (ground arith)
      | inr free ↦ (ground arith, ground arith, ground arith)
    ]

-- The scan passes over taken octets only.
first_free-taken :
    (left offset start : ℕ) (peers : Map Text WireGuardPeer) (i : ℕ)
    → first_free left offset start peers ≡ none
    → offset ≤ i
    → i < offset + left
    → in_use peers ((start - 1 + i) % 254 + 1) ≡ true
unfolding first_free
first_free-taken zero offset start peers i h lo hi = absurd (omega arith)
first_free-taken (suc left) offset start peers i h lo hi = elim (Bool-cases (i == offset)) [
  | inl here ↦ ground arith
  | inr later ↦
      first_free-taken left (offset + 1) start peers i (ground arith) (ground arith) (omega arith)
]

-- Every octet from 1 to 254 is tried.
tried :
    (start octet : ℕ)
    → 1 ≤ start
    → start ≤ 254
    → 1 ≤ octet
    → octet ≤ 254
    → (i : ℕ) × (i < 254) × ((start - 1 + i) % 254 + 1 ≡ octet)
tried start octet h1 h2 h3 h4 = ((octet + 254 - start) % 254, omega arith, omega arith)

-- An allocation gives an address of 100.64.1.1 to 100.64.1.254 that no peer has, and an octet of that
-- range to go on with.
pub record Allocates (peers : Map Text WireGuardPeer) (ip : Ipv4Addr) (next : ℕ) : Type 0 where
  pub network : (ip.a ≡ 100) × (ip.b ≡ 64) × (ip.c ≡ 1)
  pub above : 1 ≤ ip.d
  pub below : ip.d ≤ 254
  pub free : in_use peers ip.d ≡ false
  pub next_above : 1 ≤ next
  pub next_below : next ≤ 254

-- What `in_use` says of every octet from 1 to 254.
abbrev pub IsFull : Map Text WireGuardPeer → Type 0
IsFull peers = (octet : ℕ) → 1 ≤ octet → octet ≤ 254 → in_use peers octet ≡ true

-- Wherever the search starts, it finds an address that is free if there is one; it fails when all 254
-- are taken.
pub allocate_peer_ip-Allocates :
    (peers : Map Text WireGuardPeer) (next_octet : ℕ)
    → ((ip : Ipv4Addr) × (next : ℕ) × (allocate_peer_ip peers next_octet ≡ ok (ip, next))
        × Allocates peers ip next)
      ⊎ ((allocate_peer_ip peers next_octet ≡ err exhausted) × IsFull peers)
unfolding allocate_peer_ip
allocate_peer_ip-Allocates peers next_octet =
    let start = normalize_octet next_octet in
    let (lo, hi) = normalize_octet-range next_octet in
    elim (Option-cases (first_free 254 0 start peers)) [
      | inl none_free ↦ inr (
        rw (none_free, allocate_peer_ip) refl,
        λ octet h1 h2.
            let (i, small, e) = tried start octet lo hi h1 h2 in
            let taken =
              first_free-taken 254 0 start peers i none_free (omega arith) (omega arith) in
            ap (in_use peers) (sym e) ∙ taken,
      )
      | inr (octet, found) ↦
          let (above, below, free) = first_free-free 254 0 start peers octet found in
          let (next_above, next_below) = normalize_octet-range (next_u8 octet) in
          inl (
            record { a = 100; b = 64; c = 1; d = octet },
            normalize_octet (next_u8 octet),
            rw (found, allocate_peer_ip) refl,
            record {
              network = (refl, refl, refl);
              above = above;
              below = below;
              free = free;
              next_above = next_above;
              next_below = next_below;
            },
          )
    ]
