-- ===== src/Network.antt =====
-- The TUN forwarding set-up of crates/bonded-server/src/network_runtime.rs: CIDR parsing, and the
-- firewall rules and the forwarding switch, set up at the start and taken down when the runtime is
-- dropped. The operating system and its commands are a parameter.
pub mod Rules
pub mod Restore
pub mod Dropped
mod Tests
use bonded.Packet.{Ipv4Addr}
use bonded.Prelude.Decimal.{parse}
use bonded.Prelude.Texts.{split_once}
use bonded.Prelude.{
  ℕ, ◌+◌, ◌*◌, ◌/◌, ◌%◌, ◌-◌, ◌^◌, ◌≡◌, Bool, true, false, Option, none, some, List, [], ◌∷◌, ◌++◌,
  Text, text_beq, ascii, ◌==◌, leb, Outcome, ok, err, ensure, or_fail, ◌>>=◌, ◌>>◌, if◌then◌else◌,
}

pub data CidrError : Type 0 where
  invalid_format invalid_address invalid_prefix prefix_too_long : CidrError

-- `parse::<Ipv4Addr>` is the standard library's and is given.
unfoldable pub parse_cidr : (Text → Option Ipv4Addr) → Text → Outcome CidrError (Ipv4Addr × ℕ)
unfolding split_once parse
parse_cidr parse_address cidr = do
  halves ← or_fail (split_once 47 cidr) invalid_format
  addr ← or_fail (parse_address halves.0) invalid_address
  prefix ← or_fail (parse (2 ^ 8) halves.1) invalid_prefix
  ensure (leb prefix 32) prefix_too_long
  ok (addr, prefix)

-- `Ipv4Addr::from(u32)` and back.
unfoldable pub from_u32 : ℕ → Ipv4Addr
from_u32 n = record { a = n / 2 ^ 24 % 256; b = n / 2 ^ 16 % 256; c = n / 2 ^ 8 % 256; d = n % 256 }

unfoldable pub to_u32 : Ipv4Addr → ℕ
to_u32 ip = ip.a * 2 ^ 24 + ip.b * 2 ^ 16 + ip.c * 2 ^ 8 + ip.d

-- `u32::MAX << (32 - prefix)`, for a prefix from 1 to 32.
unfoldable pub mask_of : ℕ → ℕ
mask_of prefix = (2 ^ 32 - 1) * 2 ^ (32 - prefix) % 2 ^ 32

unfoldable pub prefix_to_netmask : ℕ → Ipv4Addr
unfolding from_u32 mask_of
prefix_to_netmask prefix = if prefix == 0 then from_u32 0 else from_u32 (mask_of prefix)

-- The mask keeps the bits above the prefix's end.
unfoldable pub cidr_network : Ipv4Addr → ℕ → Ipv4Addr
unfolding from_u32 to_u32
cidr_network addr prefix =
    if prefix == 0
    then from_u32 0
    else from_u32 (to_u32 addr / 2 ^ (32 - prefix) * 2 ^ (32 - prefix))
