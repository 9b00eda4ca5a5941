-- ===== src/PeerShare/Introduce.antt =====
-- The introduction: what the consumer asks for (crates/bonded-client/src/peer_runtime.rs) and what the
-- server answers (`peer_share_introduction_response` of crates/bonded-server/src/bootstrap.rs).
use bonded.Auth.Signature.{Ed25519, AuthError, DeviceKeypair, sign_bytes, verify_signature}
use bonded.Auth.Devices.{AuthorizedKeysStore, is_authorized}
use bonded.PeerShare.{
  signed_payload, signing_payload, PeerShareIntroductionRequest, PeerShareIntroductionClaims,
  SignedPeerShareIntroduction, PeerShareAdvertisement, Json,
}
use bonded.Peers.{unix_timestamp_after}
use bonded.Prelude.Texts.{eq_ignore_ascii_case}
use bonded.Prelude.{
  ℕ, Bool, true, false, not, ◌&&◌, ◌||◌, Option, none, some, [], ◌∷◌, Text, text_eq, text_beq,
  ascii, any, Outcome, ok, err, ◌>>=◌, if◌then◌else◌,
}

-- `should_accept_discovered_peer`.
unfoldable pub should_accept_discovered_peer : PeerShareAdvertisement → Text → Text → Bool
should_accept_discovered_peer ad expected_server_public_key self_public_key =
    text_beq ad.server_public_key expected_server_public_key
    && not (text_beq ad.device_public_key self_public_key)

pub data RequestError : Type 0 where
  no_transport : RequestError
  unsigned : AuthError → RequestError

unfoldable pub advertised_listener_transport : PeerShareAdvertisement → Outcome RequestError Text
unfolding eq_ignore_ascii_case
advertised_listener_transport ad =
    if any (λ capability. eq_ignore_ascii_case capability (ascii "quic")) ad.capabilities
    then ok (ascii "quic")
    else err no_transport

unfoldable pub unsigned_request :
    DeviceKeypair → PeerShareAdvertisement → Text → PeerShareIntroductionRequest
unsigned_request consumer ad listener_transport = record {
  consumer_device_public_key = consumer.public_key_b64;
  provider_device_public_key = ad.device_public_key;
  provider_instance_nonce = ad.instance_nonce;
  provider_endpoint = ad.endpoint;
  listener_transport = listener_transport;
  listener_cert_fingerprint = ad.listener_cert_fingerprint;
  consumer_signature = [];
}

-- The answers of the server: their status codes, and the introduction of a success.
pub data IntroductionResponse : Type 0 where
  bad_request forbidden unauthorized server_error : IntroductionResponse
  introduced : SignedPeerShareIntroduction → IntroductionResponse

abbrev pub is_empty : Text → Bool
is_empty [] = true
is_empty (c ∷ cs) = false

-- A field of the request is empty.
unfoldable pub lacks_a_field : PeerShareIntroductionRequest → Bool
lacks_a_field r =
    is_empty r.consumer_device_public_key
    || is_empty r.provider_device_public_key
    || is_empty r.provider_instance_nonce
    || is_empty r.provider_endpoint
    || is_empty r.listener_transport
    || is_empty r.listener_cert_fingerprint
    || is_empty r.consumer_signature

-- `expires_at` is 300 seconds from now.
unfoldable pub claims_of : ℕ → PeerShareIntroductionRequest → PeerShareIntroductionClaims
unfolding unix_timestamp_after
claims_of now r = record {
  consumer_device_public_key = r.consumer_device_public_key;
  provider_device_public_key = r.provider_device_public_key;
  provider_instance_nonce = r.provider_instance_nonce;
  provider_endpoint = r.provider_endpoint;
  listener_transport = r.listener_transport;
  listener_cert_fingerprint = r.listener_cert_fingerprint;
  expires_at = unix_timestamp_after now 300;
}

module _ (e : Ed25519) (j : Json) where
  unfoldable pub build_peer_introduction_request :
      DeviceKeypair → PeerShareAdvertisement → Outcome RequestError PeerShareIntroductionRequest
  unfolding advertised_listener_transport unsigned_request
  build_peer_introduction_request consumer ad = do
    listener_transport ← advertised_listener_transport ad
    let request = unsigned_request consumer ad listener_transport
    elim (sign_bytes e consumer (signed_payload j request)) [
      | err x ↦ err (unsigned x)
      | ok signature ↦ ok (record request { consumer_signature = signature })
    ]

  unfoldable pub sign_claims : DeviceKeypair → PeerShareIntroductionClaims → IntroductionResponse
  sign_claims identity claims = elim (sign_bytes e identity (signing_payload j claims)) [
    | err x ↦ server_error
    | ok signature ↦ introduced (record { introduction = claims; server_signature = signature })
  ]

  -- The response to a request body, given what its JSON parses to.
  unfoldable pub peer_share_introduction_response :
      DeviceKeypair
      → AuthorizedKeysStore
      → ℕ
      → Option PeerShareIntroductionRequest
      → IntroductionResponse
  unfolding lacks_a_field claims_of sign_claims
  peer_share_introduction_response identity store now none = bad_request
  peer_share_introduction_response identity store now (some r) =
      if lacks_a_field r
      then bad_request
      else if not (is_authorized store r.consumer_device_public_key)
          || not (is_authorized store r.provider_device_public_key)
      then forbidden
      else elim (verify_signature e r.consumer_device_public_key (signed_payload j r)
          r.consumer_signature) [
            | err x ↦ unauthorized
            | ok _ ↦ sign_claims identity (claims_of now r)
          ]
