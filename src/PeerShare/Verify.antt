-- ===== src/PeerShare/Verify.antt =====
-- Who accepts an introduction: the consumer and the provider (crates/bonded-client/src/peer_listener.rs)
-- and the server on a relayed session (crates/bonded-server/src/peer_relay.rs).
use bonded.Auth.Signature.{Ed25519, AuthError, DeviceKeypair, verify_signature}
use bonded.PeerShare.{
  signing_payload, SignedPeerShareIntroduction, Json, RegistrationError, is_registration,
  from_control_frame,
}
use bonded.Session.{SessionFrame}
use bonded.Prelude.{
  ℕ, Bool, true, false, not, Option, none, some, Text, text_eq, text_beq, leb, Outcome, ok, err,
  ensure, ◌>>◌, if◌then◌else◌,
}

pub data IntroductionError : Type 0 where
  bad_signature : AuthError → IntroductionError
  other_provider other_nonce other_transport other_fingerprint expired : IntroductionError

pub record PeerListenerIdentity : Type 0 where
  pub provider_device_public_key : Text
  pub instance_nonce : Text
  pub listener_transport : Text
  pub listener_cert_fingerprint : Text

unfoldable pub ensure_not_expired : ℕ → ℕ → Outcome IntroductionError (Unit {0})
ensure_not_expired now expires_at = ensure (not (leb expires_at now)) expired

pub data BindingError : Type 0 where
  no_frame : BindingError
  bad_frame : RegistrationError → BindingError
  refused : IntroductionError → BindingError

pub record SessionBinding : Type 0 where
  pub client_public_key : Text
  pub initial_frame : Option SessionFrame
  pub relayed_via_provider : Bool

module _ (e : Ed25519) (j : Json) where
  unfoldable pub verify_server_signature :
      Text → SignedPeerShareIntroduction → Outcome IntroductionError (Unit {0})
  verify_server_signature server_public_key signed =
      elim (verify_signature e server_public_key (signing_payload j signed.introduction)
        signed.server_signature) [ err x ↦ err (bad_signature x) | ok _ ↦ ok tt ]

  unfoldable pub verify_consumer_introduction :
      Text → ℕ → Text → SignedPeerShareIntroduction → Outcome IntroductionError (Unit {0})
  unfolding verify_server_signature ensure_not_expired
  verify_consumer_introduction server_public_key now expected_provider signed = do
    verify_server_signature server_public_key signed
    ensure (text_beq signed.introduction.provider_device_public_key expected_provider)
        other_provider
    ensure_not_expired now signed.introduction.expires_at

  unfoldable pub verify_provider_introduction :
      Text
      → ℕ
      → PeerListenerIdentity
      → SignedPeerShareIntroduction
      → Outcome IntroductionError (Unit {0})
  unfolding verify_server_signature ensure_not_expired
  verify_provider_introduction server_public_key now listener signed = do
    let claims = signed.introduction
    verify_server_signature server_public_key signed
    ensure (text_beq claims.provider_device_public_key listener.provider_device_public_key)
        other_provider
    ensure (text_beq claims.provider_instance_nonce listener.instance_nonce) other_nonce
    ensure (text_beq claims.listener_transport listener.listener_transport) other_transport
    ensure (text_beq claims.listener_cert_fingerprint listener.listener_cert_fingerprint)
        other_fingerprint
    ensure_not_expired now claims.expires_at

  -- On the server, whose own identity signed.
  unfoldable pub verify_relay_registration :
      SignedPeerShareIntroduction → ℕ → Text → DeviceKeypair → Outcome IntroductionError (Unit {0})
  unfolding verify_server_signature ensure_not_expired
  verify_relay_registration signed now authenticated_provider_key identity = do
    let claims = signed.introduction
    verify_server_signature identity.public_key_b64 signed
    ensure (text_beq claims.provider_device_public_key authenticated_provider_key) other_provider
    ensure_not_expired now claims.expires_at

  unfoldable pub bind_relay :
      ℕ → Text → DeviceKeypair → SessionFrame → Outcome BindingError SessionBinding
  unfolding verify_relay_registration
  bind_relay now authenticated identity first = elim (from_control_frame j first) [
    | err x ↦ err (bad_frame x)
    | ok registration ↦ elim (verify_relay_registration registration now authenticated identity) [
      | err x ↦ err (refused x)
      | ok _ ↦ ok (record {
        client_public_key = registration.introduction.consumer_device_public_key;
        initial_frame = none;
        relayed_via_provider = true;
      })
    ]
  ]

  -- `resolve_session_binding`, given the first frame that the transport receives.
  unfoldable pub resolve_session_binding :
      ℕ → Option SessionFrame → Text → DeviceKeypair → Outcome BindingError SessionBinding
  unfolding bind_relay is_registration
  resolve_session_binding now none authenticated identity = err no_frame
  resolve_session_binding now (some first) authenticated identity =
      if not (is_registration first)
      then ok (record {
        client_public_key = authenticated;
        initial_frame = some first;
        relayed_via_provider = false;
      })
      else bind_relay now authenticated identity first
