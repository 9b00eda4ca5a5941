-- ===== src/Bootstrap/Routes.antt =====
-- What the bootstrap service answers: `route_bootstrap_request` and its handlers, and the endpoints it
-- advertises. JSON, SHA-256 and the parsing of URI authorities are third-party code and parameters.
use bonded.Auth.Signature.{DeviceKeypair}
use bonded.Auth.Devices.{AuthorizedKeysStore}
use bonded.Peers.{WireGuardPeerRegistry, RegisteredWireGuardPeer}
use bonded.PeerShare.{SignedPeerShareIntroduction}
use bonded.PeerShare.Introduce.{is_empty}
use bonded.Prelude.Decimal.{print}
use bonded.Prelude.Texts.{trim, contains, starts_with}
use bonded.Prelude.{
  ℕ, Bool, true, false, not, ◌&&◌, Option, none, some, List, [], ◌∷◌, ◌++◌, Text, if◌then◌else◌,
}

pub record AdvertisedBootstrapEndpoints : Type 0 where
  pub server_public_address : Text
  pub wireguard_public_addr : Option Text

pub record BootstrapContext : Type 0 where
  pub server_identity : DeviceKeypair
  pub tls_cert_der : Option (List ℕ)
  pub server_public_address : Text
  -- The public key of `wireguard_keypair`.
  pub wireguard_public_key : Option Text
  pub wireguard_peers : Option WireGuardPeerRegistry
  pub wireguard_public_addr : Option Text
  pub wireguard_peer_lease_secs : ℕ
  pub authorized_keys : AuthorizedKeysStore

unfoldable pub quic_enabled : BootstrapContext → Bool
quic_enabled ctx = elim ctx.tls_cert_der [ none ↦ false | some der ↦ true ]

unfoldable pub wireguard_enabled : BootstrapContext → Bool
wireguard_enabled ctx = elim ctx.wireguard_public_key [ none ↦ false | some key ↦ true ]

-- `http::uri::Authority`: the host and the port of a text that is an authority.
abbrev pub Authority : Type 0
Authority = Text → Option (Text × Option ℕ)

unfoldable pub nonempty_host : Option (Text × Option ℕ) → Text → Text
nonempty_host none default = default
nonempty_host (some ([], port)) default = default
nonempty_host (some (c ∷ cs, port)) default = c ∷ cs

abbrev port_in : Option (Text × Option ℕ) → Option ℕ
port_in none = none
port_in (some (host, port)) = port

unfoldable pub format_authority : Text → Option ℕ → Text
unfolding contains starts_with print
format_authority host port =
    let bare : Bool = contains (58 ∷ []) host && not (starts_with (91 ∷ []) host) in
    let shown : Text = if bare then 91 ∷ host ++ 93 ∷ [] else host in
    elim port [ none ↦ shown | some n ↦ shown ++ 58 ∷ print n ]

unfoldable pub rewrite_endpoint_authority : Authority → Text → Text → Text
unfolding nonempty_host format_authority
rewrite_endpoint_authority parse_authority configured_endpoint requested_authority =
    let requested = parse_authority requested_authority in
    let configured = parse_authority configured_endpoint in
    let port : Option ℕ = elim (port_in requested) [
      | some n ↦ some n
      | none ↦ port_in configured
    ] in
    format_authority (nonempty_host requested configured_endpoint) port

unfoldable pub advertised_endpoints :
    (Text → Text) → BootstrapContext → AdvertisedBootstrapEndpoints
advertised_endpoints f ctx = record {
  server_public_address = f ctx.server_public_address;
  wireguard_public_addr = elim ctx.wireguard_public_addr [
    | none ↦ none
    | some endpoint ↦ some (f endpoint)
  ];
}

unfoldable pub advertised_endpoints_for_request :
    Authority → BootstrapContext → Option Text → AdvertisedBootstrapEndpoints
unfolding advertised_endpoints rewrite_endpoint_authority trim
advertised_endpoints_for_request parse_authority ctx none =
    advertised_endpoints (λ endpoint. endpoint) ctx
advertised_endpoints_for_request parse_authority ctx (some authority) =
    if is_empty (trim authority)
    then advertised_endpoints (λ endpoint. endpoint) ctx
    else advertised_endpoints
        (λ endpoint. rewrite_endpoint_authority parse_authority endpoint authority) ctx

-- The JSON documents of the answers.
pub record WireGuardCapability : Type 0 where
  pub endpoint : Text
  pub provision_endpoint : Text
  pub server_public_key : Text
  pub peer_lease_seconds : ℕ

pub record Capabilities : Type 0 where
  pub transports : List Text
  -- The endpoints of `wss` and `h3`.
  pub wss : Text
  pub h3 : Option Text
  pub wireguard : Option WireGuardCapability

pub data Document : Type 0 where
  error_message : Text → Document
  proof : Text → Text → Document
  capabilities : Capabilities → Document
  peer_lease : Text → RegisteredWireGuardPeer → Document
  introduction : SignedPeerShareIntroduction → Document
  -- Of an introduction, by any of its error texts.
  introduction_refused : Document
