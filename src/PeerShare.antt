-- ===== src/PeerShare.antt =====
-- Peer sharing: a client (the consumer) reaches the server through another (the provider), on an
-- introduction that the server signs. crates/bonded-core/src/peer_share.rs here; the server's and the
-- clients' parts in the children. JSON is third-party code: the texts that are signed and sent are
-- parameters.
pub mod Introduce
pub mod Verify
pub mod Records
pub mod Chain
pub mod Binding
mod Tests
use bonded.Bytes.{has_bit}
use bonded.Session.{SessionFrame, flag_peer_relay_registration}
use bonded.Prelude.Map.{Map, lookup, insert}
use bonded.Prelude.Decimal.{print, parse}
use bonded.Prelude.Texts.{split, join}
use bonded.Prelude.{
  ℕ, ◌^◌, ◌<◌, ◌≡◌, Bool, true, false, not, Option, none, some, List, [], ◌∷◌, Text, text_eq, ascii,
  Outcome, ok, err, ensure, or_fail, ◌>>=◌, ◌>>◌, if◌then◌else◌,
}

pub record PeerShareIntroductionRequest : Type 0 where
  pub consumer_device_public_key : Text
  pub provider_device_public_key : Text
  pub provider_instance_nonce : Text
  pub provider_endpoint : Text
  pub listener_transport : Text
  pub listener_cert_fingerprint : Text
  pub consumer_signature : Text

pub record PeerShareIntroductionClaims : Type 0 where
  pub consumer_device_public_key : Text
  pub provider_device_public_key : Text
  pub provider_instance_nonce : Text
  pub provider_endpoint : Text
  pub listener_transport : Text
  pub listener_cert_fingerprint : Text
  pub expires_at : ℕ

pub record SignedPeerShareIntroduction : Type 0 where
  pub introduction : PeerShareIntroductionClaims
  pub server_signature : Text

-- A `PeerRelayRegistration` holds an introduction and nothing else.
abbrev pub PeerRelayRegistration : Type 0
PeerRelayRegistration = SignedPeerShareIntroduction

pub record PeerShareAdvertisement : Type 0 where
  pub version : ℕ
  pub device_public_key : Text
  pub server_public_key : Text
  pub instance_nonce : Text
  pub endpoint : Text
  pub listener_cert_fingerprint : Text
  pub capabilities : List Text

-- `serde_json`: an object with fields that are texts, claims, and a registration as the payload of a
-- frame, written as bytes.
pub record Json : Type 0 where
  pub write_object : List (Text × Text) → List ℕ
  pub write_claims : PeerShareIntroductionClaims → List ℕ
  pub write_registration : PeerRelayRegistration → List ℕ
  pub read_registration : List ℕ → Option PeerRelayRegistration

-- What it documents: a value is read back.
pub record IsJson (j : Json) : Type 0 where
  pub read_back :
      (r : PeerRelayRegistration) → j.read_registration (j.write_registration r) ≡ some r

-- The bytes that a consumer signs: the request without its signature.
unfoldable pub signed_payload : Json → PeerShareIntroductionRequest → List ℕ
signed_payload j r = j.write_object (
    (ascii "consumer_device_public_key", r.consumer_device_public_key)
    ∷ (ascii "provider_device_public_key", r.provider_device_public_key)
    ∷ (ascii "provider_instance_nonce", r.provider_instance_nonce)
    ∷ (ascii "provider_endpoint", r.provider_endpoint)
    ∷ (ascii "listener_transport", r.listener_transport)
    ∷ (ascii "listener_cert_fingerprint", r.listener_cert_fingerprint)
    ∷ [])

-- The bytes that the server signs.
unfoldable pub signing_payload : Json → PeerShareIntroductionClaims → List ℕ
signing_payload j claims = j.write_claims claims

pub data RecordError : Type 0 where
  missing_record : Text → RecordError
  bad_version : RecordError

unfoldable pub txt_records : PeerShareAdvertisement → List (Text × Text)
txt_records ad =
    (ascii "version", print ad.version)
    ∷ (ascii "device_key", ad.device_public_key)
    ∷ (ascii "server_key", ad.server_public_key)
    ∷ (ascii "instance_nonce", ad.instance_nonce)
    ∷ (ascii "endpoint", ad.endpoint)
    ∷ (ascii "cert_fingerprint", ad.listener_cert_fingerprint)
    ∷ (ascii "capabilities", join (ascii ",") ad.capabilities)
    ∷ []

unfoldable pub required_txt_record : Map Text Text → Text → Outcome RecordError Text
required_txt_record records key = or_fail (lookup key records) (missing_record key)

-- `filter(|value| !value.is_empty())`.
unfoldable pub nonempty : List Text → List Text
nonempty [] = []
nonempty ([] ∷ parts) = nonempty parts
nonempty ((c ∷ cs) ∷ parts) = (c ∷ cs) ∷ nonempty parts

unfoldable pub from_txt_record_map : Map Text Text → Outcome RecordError PeerShareAdvertisement
unfolding required_txt_record nonempty
from_txt_record_map records = do
  version_text ← required_txt_record records (ascii "version")
  version ← or_fail (parse (2 ^ 16) version_text) bad_version
  device ← required_txt_record records (ascii "device_key")
  server ← required_txt_record records (ascii "server_key")
  nonce ← required_txt_record records (ascii "instance_nonce")
  endpoint ← required_txt_record records (ascii "endpoint")
  fingerprint ← required_txt_record records (ascii "cert_fingerprint")
  capabilities ← required_txt_record records (ascii "capabilities")
  ok (record {
    version = version;
    device_public_key = device;
    server_public_key = server;
    instance_nonce = nonce;
    endpoint = endpoint;
    listener_cert_fingerprint = fingerprint;
    capabilities = nonempty (split 44 capabilities);
  })

pub data RegistrationError : Type 0 where
  not_a_registration bad_registration : RegistrationError

-- The test of the flag on a frame.
unfoldable pub is_registration : SessionFrame → Bool
is_registration frame = has_bit frame.header.flags 2

module _ (j : Json) where
  unfoldable pub into_control_frame : PeerRelayRegistration → SessionFrame
  into_control_frame registration = record {
    header = record { connection_id = 0; sequence = 0; flags = flag_peer_relay_registration };
    payload = j.write_registration registration;
  }

  unfoldable pub from_control_frame : SessionFrame → Outcome RegistrationError PeerRelayRegistration
  unfolding is_registration
  from_control_frame frame = do
    ensure (is_registration frame) not_a_registration
    or_fail (j.read_registration frame.payload) bad_registration
