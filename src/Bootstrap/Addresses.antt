-- ===== src/Bootstrap/Addresses.antt =====
-- Addresses of a host and a port, as the client splits them.
use bonded.Prelude.Decimal.{print, parse-print, print-IsDigits}
use bonded.Prelude.Texts.{Lacks, split_once-append, rsplit_once-append}
use bonded.Bootstrap.Client.{
  parse_port, with_port, split_bracketed, split_plain_address, split_host_port,
}
use bonded.Prelude.{
  ℕ, ◌≤◌, ◌<◌, ◌^◌, ◌≡◌, refl, ◌∙◌, false, [], ◌∷◌, ◌++◌, Text, All-weaken, arith, ok, ◌==◌,
}

-- How an address is written: a host with a colon in brackets.
abbrev pub host_port : Text → ℕ → Text
host_port host port = host ++ 58 ∷ print port

abbrev pub bracketed_host_port : Text → ℕ → Text
bracketed_host_port host port = 91 ∷ host ++ 93 ∷ 58 ∷ print port

-- The address does not start with a bracket.
abbrev pub StartsPlain : Text → Type 0
StartsPlain [] = Unit
StartsPlain (c ∷ cs) = (c == 91) ≡ false

with_port-print :
    (host : Text) (port : ℕ) → port < 2 ^ 16 → with_port host (print port) ≡ ok (host, port)
unfolding with_port parse_port
with_port-print host port b = rw (parse-print (2 ^ 16) port b, with_port) refl

digits_lack : (n : ℕ) → Lacks 58 (print n)
digits_lack n =
    All-weaken (λ c. (48 ≤ c) × (c ≤ 57)) (λ c. (c == 58) ≡ false) (print n) (λ c d. ground arith)
      (print-IsDigits n)

plain_split :
    (host : Text) (port : ℕ)
    → port < 2 ^ 16
    → split_plain_address (host_port host port) ≡ ok (host, port)
unfolding split_plain_address
plain_split host port b =
    rw (rsplit_once-append 58 host (print port) (digits_lack port), split_plain_address)
      (with_port-print host port b)

unbracketed :
    (host : Text) (port : ℕ)
    → StartsPlain host
    → split_host_port (host_port host port) ≡ split_plain_address (host_port host port)
unfolding split_host_port
unbracketed [] port w = refl
unbracketed (c ∷ cs) port w = rw (w, split_host_port) refl

-- For a host that neither starts with an opening bracket nor has a closing one, and a port below 2^16,
-- the address is split into the two again, both where it is written as host and port with a colon
-- between them and where the host stands in brackets. The host may have colons in it.
pub split_host_port-host_port :
    (host : Text) (port : ℕ)
    → port < 2 ^ 16
    → StartsPlain host
    → Lacks 93 host
    → (split_host_port (host_port host port) ≡ ok (host, port))
      × (split_host_port (bracketed_host_port host port) ≡ ok (host, port))
unfolding split_host_port split_bracketed
split_host_port-host_port host port b w v = (
  unbracketed host port w ∙ plain_split host port b,
  rw (split_once-append 93 host (58 ∷ print port) v, split_bracketed) (with_port-print host port b),
)
