-- ===== src/Bootstrap/Handlers.antt =====
-- The handlers of the bootstrap service: `cert_proof_response`, `capabilities_response`,
-- `wireguard_peer_response`, the answers of `peer_share_introduction_response`, and
-- `route_bootstrap_request`. A call that panics gives no answer.
use bonded.Auth.Signature.{Ed25519}
use bonded.Peers.{WireGuardPeerRegistry, RegisteredWireGuardPeer, register_peer_lease, PeersError}
use bonded.PeerShare.{Json, PeerShareIntroductionRequest}
use bonded.PeerShare.Introduce.{
  IntroductionResponse, introduced, server_error, is_empty, peer_share_introduction_response,
}
use bonded.Prelude.Texts.{split, trim}
use bonded.Bootstrap.{
  StatusCode, status_ok, bad_request, unauthorized, forbidden, not_found, internal_server_error,
  not_implemented,
}
use bonded.Bootstrap.CertProof.{cert_proof}
use bonded.Bootstrap.Routes.{
  AdvertisedBootstrapEndpoints, BootstrapContext, quic_enabled, wireguard_enabled, Authority,
  advertised_endpoints_for_request, WireGuardCapability, Capabilities, Document, error_message,
  proof, capabilities, peer_lease, introduction, introduction_refused,
}
use bonded.Prelude.{
  ℕ, Bool, ◌&&◌, ◌||◌, Option, none, some, List, [], ◌∷◌, ◌++◌, Text, text_beq, ascii, get_or,
  Outcome, ok, err, if◌then◌else◌,
}

-- What the answers' bodies are parsed from: the two keys of a provisioning request, each empty where
-- the JSON has no such string, and an introduction request.
pub record Requests : Type 0 where
  pub read_provisioning : Text → Option (Text × Text)
  pub read_introduction : Text → Option PeerShareIntroductionRequest

abbrev pub Answer : Type 0
Answer = StatusCode × Document

-- An answer and the context after it, or the panic that a handler ends on.
abbrev pub Handled : Type 0
Handled = Outcome PeersError Answer × BootstrapContext

unfoldable pub wireguard_capability :
    AdvertisedBootstrapEndpoints → ℕ → Option Text → Option WireGuardCapability
wireguard_capability endpoints lease none = none
wireguard_capability endpoints lease (some key) = some (record {
  endpoint = elim endpoints.wireguard_public_addr [
    | none ↦ endpoints.server_public_address
    | some endpoint ↦ endpoint
  ];
  provision_endpoint =
      ascii "https://" ++ endpoints.server_public_address ++ ascii "/v1/bootstrap/wireguard/peer";
  server_public_key = key;
  peer_lease_seconds = lease;
})

unfoldable pub capabilities_of : BootstrapContext → AdvertisedBootstrapEndpoints → Capabilities
unfolding quic_enabled wireguard_enabled wireguard_capability
capabilities_of ctx endpoints = record {
  transports =
      ascii "wss" ∷ (if quic_enabled ctx then ascii "h3" ∷ [] else [])
      ++ (if wireguard_enabled ctx then ascii "wireguard" ∷ [] else []);
  wss = endpoints.server_public_address;
  h3 = if quic_enabled ctx then some endpoints.server_public_address else none;
  wireguard = wireguard_capability endpoints ctx.wireguard_peer_lease_secs ctx.wireguard_public_key;
}

unfoldable pub capabilities_response :
    Authority → BootstrapContext → Option AdvertisedBootstrapEndpoints → Answer
unfolding capabilities_of advertised_endpoints_for_request
capabilities_response authority ctx none = (
  status_ok,
  capabilities (capabilities_of ctx (advertised_endpoints_for_request authority ctx none)),
)
capabilities_response authority ctx (some endpoints) =
    (status_ok, capabilities (capabilities_of ctx endpoints))

unfoldable pub leased :
    Text
    → BootstrapContext
    → Outcome PeersError RegisteredWireGuardPeer × WireGuardPeerRegistry
    → Handled
leased key ctx (ok peer, peers) =
    (ok (status_ok, peer_lease key peer), record ctx { wireguard_peers = some peers })
leased key ctx (err e, peers) = (err e, record ctx { wireguard_peers = some peers })

unfoldable pub provision :
    Bool → ℕ → Text → WireGuardPeerRegistry → BootstrapContext → Option (Text × Text) → Handled
unfolding leased register_peer_lease
provision writable now key peers ctx none =
    (ok (bad_request, error_message (ascii "invalid JSON body")), ctx)
provision writable now key peers ctx (some (device_pk, wg_pk)) =
    if is_empty device_pk || is_empty wg_pk
    then (
      ok (bad_request, error_message (ascii "device_public_key and wg_public_key are required")),
      ctx,
    )
    else leased key ctx (register_peer_lease writable now device_pk wg_pk peers)

-- The clock and whether the peers' file can be written are given.
unfoldable pub wireguard_peer_response : Requests → Bool → ℕ → BootstrapContext → Text → Handled
unfolding provision trim
wireguard_peer_response requests writable now ctx body =
    let off : Handled = (
      ok (not_implemented, error_message (ascii "WireGuard is not enabled on this server")),
      ctx,
    ) in
    elim ctx.wireguard_public_key [
      | none ↦ off
      | some key ↦ elim ctx.wireguard_peers [
        | none ↦ off
        | some peers ↦ provision writable now key peers ctx (requests.read_provisioning (trim body))
      ]
    ]

unfoldable pub cert_proof_response : Ed25519 → (List ℕ → List ℕ) → BootstrapContext → Answer
unfolding cert_proof
cert_proof_response e sha256 ctx = elim (cert_proof e sha256 ctx.server_identity ctx.tls_cert_der) [
  | none ↦ (
    not_implemented,
    error_message (ascii "TLS not configured on this server; cert-proof requires TLS"),
  )
  | some (err x) ↦ (internal_server_error, error_message (ascii "failed to generate cert proof"))
  | some (ok (fingerprint, signature)) ↦ (status_ok, proof fingerprint signature)
]

unfoldable pub introduction_answer : IntroductionResponse → Answer
introduction_answer (introduced signed) = (status_ok, introduction signed)
introduction_answer IntroductionResponse.bad_request = (bad_request, introduction_refused)
introduction_answer IntroductionResponse.forbidden = (forbidden, introduction_refused)
introduction_answer IntroductionResponse.unauthorized = (unauthorized, introduction_refused)
introduction_answer server_error = (internal_server_error, introduction_refused)

-- What the handlers use besides the context.
pub record Environment : Type 0 where
  pub ed25519 : Ed25519
  pub sha256 : List ℕ → List ℕ
  pub json : Json
  pub requests : Requests
  pub authority : Authority
  pub writable : Bool
  pub now : ℕ

abbrev pub post : Text
post = ascii "POST"

abbrev pub wireguard_peer_path : Text
wireguard_peer_path = ascii "/v1/bootstrap/wireguard/peer"

abbrev pub path_no_query : Text → Text
path_no_query path = get_or (split 63 path) 0 path

unfoldable pub route_bootstrap_request :
    Environment
    → Text
    → Text
    → Text
    → BootstrapContext
    → Option AdvertisedBootstrapEndpoints
    → Handled
unfolding cert_proof_response capabilities_response wireguard_peer_response introduction_answer
    peer_share_introduction_response trim
route_bootstrap_request env method path body ctx endpoints =
    if text_beq (path_no_query path) (ascii "/v1/bootstrap/cert-proof")
    then (ok (cert_proof_response env.ed25519 env.sha256 ctx), ctx)
    else if text_beq (path_no_query path) (ascii "/v1/bootstrap/capabilities")
    then (ok (capabilities_response env.authority ctx endpoints), ctx)
    else if text_beq method post && text_beq (path_no_query path) wireguard_peer_path
    then wireguard_peer_response env.requests env.writable env.now ctx body
    else if text_beq method post
        && text_beq (path_no_query path) (ascii "/v1/bootstrap/peer-share/introduction")
    then (
      ok (
          introduction_answer (
            peer_share_introduction_response env.ed25519 env.json ctx.server_identity
              ctx.authorized_keys env.now (env.requests.read_introduction (trim body)))),
      ctx,
    )
    else (ok (not_found, error_message (ascii "not found")), ctx)
