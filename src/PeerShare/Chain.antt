-- ===== src/PeerShare/Chain.antt =====
-- An introduction on its way: asked for, signed, checked by both clients, and bound by the server.
use bonded.Auth.Signature.{Ed25519, IsEd25519, DeviceKeypair, from_signing_key, verify_signature}
use bonded.Auth.Signature.Verify.{verify-sign}
use bonded.Auth.Devices.{AuthorizedKeysStore, is_authorized}
use bonded.Peers.{unix_timestamp_after}
use bonded.PeerShare.{
  signed_payload, signing_payload, PeerShareIntroductionRequest, PeerShareIntroductionClaims,
  SignedPeerShareIntroduction, PeerShareAdvertisement, Json, IsJson, into_control_frame,
  from_control_frame, is_registration,
}
use bonded.PeerShare.Introduce.{
  advertised_listener_transport, unsigned_request, IntroductionResponse, introduced, lacks_a_field,
  claims_of, sign_claims, build_peer_introduction_request, peer_share_introduction_response,
}
use bonded.PeerShare.Verify.{
  PeerListenerIdentity, ensure_not_expired, verify_server_signature, verify_consumer_introduction,
  verify_provider_introduction, verify_relay_registration, bind_relay, resolve_session_binding,
}
use bonded.Prelude.{
  ℕ, ◌+◌, ◌^◌, ◌<◌, ◌≡◌, refl, ap, ◌∙◌, true, false, none, some, List, [], length, Text, text_eq,
  text_beq, text_beq_iff, ascii, ok, arith, IsBytes, Outcome-cases, inl, inr,
}

-- The identity that a provider listens under, as its advertisement says it.
unfoldable pub listener_of : PeerShareAdvertisement → Text → PeerListenerIdentity
listener_of ad transport = record {
  provider_device_public_key = ad.device_public_key;
  instance_nonce = ad.instance_nonce;
  listener_transport = transport;
  listener_cert_fingerprint = ad.listener_cert_fingerprint;
}

text_beq_self : (t : Text) → text_beq t t ≡ true
text_beq_self t = (text_beq_iff t t).1 refl

-- What a request that was built holds.
built_request :
    (e : Ed25519) (j : Json) (k : List ℕ) (ad : PeerShareAdvertisement)
    (r : PeerShareIntroductionRequest)
    → IsEd25519 e
    → IsBytes k
    → length k ≡ 32
    → build_peer_introduction_request e j (from_signing_key e k) ad ≡ ok r
    → (verify_signature e r.consumer_device_public_key (signed_payload j r) r.consumer_signature
        ≡ ok tt)
      × (r.consumer_device_public_key ≡ (from_signing_key e k).public_key_b64)
      × (r.provider_device_public_key ≡ ad.device_public_key)
      × (r.provider_instance_nonce ≡ ad.instance_nonce)
      × (r.listener_transport ≡ ascii "quic")
      × (r.listener_cert_fingerprint ≡ ad.listener_cert_fingerprint)
unfolding build_peer_introduction_request unsigned_request signed_payload
    advertised_listener_transport
built_request e j k ad r we kb kl h = elim (Outcome-cases (advertised_listener_transport ad)) [
  | inr (x, none_there) ↦ absurd (ground arith)
  | inl (t, found) ↦
      let request = unsigned_request (from_signing_key e k) ad t in
      let (_, (s, signed, verified), _) =
        verify-sign e k (signed_payload j request) [] we kb kl tt in
      let r_e : r ≡ record request { consumer_signature = s } = ground arith in
      (
        rw r_e verified,
        ap (λ r. r.consumer_device_public_key) r_e,
        ap (λ r. r.provider_device_public_key) r_e,
        ap (λ r. r.provider_instance_nonce) r_e,
        ap (λ r. r.listener_transport) r_e ∙ ground arith,
        ap (λ r. r.listener_cert_fingerprint) r_e,
      )
]

-- What the server signs verifies under its key.
signed_claims :
    (e : Ed25519) (j : Json) (k : List ℕ) (claims : PeerShareIntroductionClaims)
    → IsEd25519 e
    → IsBytes k
    → length k ≡ 32
    → (signed : SignedPeerShareIntroduction) × (sign_claims e j (from_signing_key e k) claims
        ≡ introduced signed)
      × (signed.introduction ≡ claims)
      × (verify_server_signature e j (from_signing_key e k).public_key_b64 signed ≡ ok tt)
unfolding sign_claims verify_server_signature
signed_claims e j k claims we kb kl =
    let (_, (s, signed, verified), _) = verify-sign e k (signing_payload j claims) [] we kb kl tt in
    (
      record { introduction = claims; server_signature = s },
      rw (signed, sign_claims) refl,
      refl,
      rw (verified, verify_server_signature) refl,
    )

introduced_by :
    (e : Ed25519) (j : Json) (identity : DeviceKeypair) (store : AuthorizedKeysStore) (now : ℕ)
    (r : PeerShareIntroductionRequest)
    → lacks_a_field r ≡ false
    → is_authorized store r.consumer_device_public_key ≡ true
    → is_authorized store r.provider_device_public_key ≡ true
    → verify_signature e r.consumer_device_public_key (signed_payload j r) r.consumer_signature
      ≡ ok tt
    → peer_share_introduction_response e j identity store now (some r)
      ≡ sign_claims e j identity (claims_of now r)
unfolding peer_share_introduction_response
introduced_by e j identity store now r full c p v = ground arith

verified_by_all :
    (e : Ed25519) (j : Json) (identity : DeviceKeypair) (later : ℕ)
    (listener : PeerListenerIdentity) (signed : SignedPeerShareIntroduction)
    → verify_server_signature e j identity.public_key_b64 signed ≡ ok tt
    → signed.introduction.provider_device_public_key ≡ listener.provider_device_public_key
    → signed.introduction.provider_instance_nonce ≡ listener.instance_nonce
    → signed.introduction.listener_transport ≡ listener.listener_transport
    → signed.introduction.listener_cert_fingerprint ≡ listener.listener_cert_fingerprint
    → later < signed.introduction.expires_at
    → (verify_consumer_introduction e j identity.public_key_b64 later
          listener.provider_device_public_key signed
        ≡ ok tt)
      × (verify_provider_introduction e j identity.public_key_b64 later listener signed ≡ ok tt)
      × (verify_relay_registration e j signed later listener.provider_device_public_key identity
          ≡ ok tt)
unfolding verify_consumer_introduction verify_provider_introduction verify_relay_registration
    ensure_not_expired
verified_by_all e j identity later listener signed v p n t f fresh =
    let tp =
      text_beq_iff signed.introduction.provider_device_public_key
        listener.provider_device_public_key in
    let tn = text_beq_iff signed.introduction.provider_instance_nonce listener.instance_nonce in
    let tt' = text_beq_iff signed.introduction.listener_transport listener.listener_transport in
    let tf =
      text_beq_iff signed.introduction.listener_cert_fingerprint
        listener.listener_cert_fingerprint in
    (ground arith, ground arith, ground arith)

bound :
    (e : Ed25519) (j : Json) (identity : DeviceKeypair) (later : ℕ) (provider : Text)
    (signed : SignedPeerShareIntroduction)
    → IsJson j
    → verify_relay_registration e j signed later provider identity ≡ ok tt
    → resolve_session_binding e j later (some (into_control_frame j signed)) provider identity
      ≡ ok (record {
        client_public_key = signed.introduction.consumer_device_public_key;
        initial_frame = none;
        relayed_via_provider = true;
      })
unfolding resolve_session_binding bind_relay is_registration into_control_frame from_control_frame
bound e j identity later provider signed wj v =
    let back = wj.read_back signed in rw (back, bind_relay) (rw (v, bind_relay) refl)

-- What an introduction leads to: its signature, its claims, and that all three parties go along.
pub record Introduces (e : Ed25519) (j : Json) (identity : DeviceKeypair) (later : ℕ)
    (ad : PeerShareAdvertisement) (consumer : Text) (response : IntroductionResponse) : Type 0 where
  pub signed : SignedPeerShareIntroduction
  pub answered : response ≡ introduced signed
  pub consumer_accepts :
      verify_consumer_introduction e j identity.public_key_b64 later ad.device_public_key signed
      ≡ ok tt
  pub provider_accepts :
      verify_provider_introduction e j identity.public_key_b64 later
        (listener_of ad (ascii "quic"))
        signed
      ≡ ok tt
  pub server_binds :
      resolve_session_binding e j later
        (some (into_control_frame j signed))
        ad.device_public_key
        identity
      ≡ ok (record {
        client_public_key = consumer;
        initial_frame = none;
        relayed_via_provider = true;
      })

-- The chain of a peer introduction. A consumer whose key pair was made from a private key of 32 bytes
-- builds a request from an advertisement; no field of the request is empty, and both devices are
-- authorized. Then the server answers with an introduction; and, less than 300 seconds later, the
-- consumer accepts it, so does the provider that the advertisement describes and that listens over QUIC, and a session that the
-- provider opens with the introduction's control frame is bound by the server to the consumer's key.
pub introduction-Introduces :
    (e : Ed25519) (j : Json) (k sk : List ℕ) (ad : PeerShareAdvertisement)
    (r : PeerShareIntroductionRequest) (store : AuthorizedKeysStore) (now later : ℕ)
    → IsEd25519 e
    → IsJson j
    → IsBytes k
    → length k ≡ 32
    → IsBytes sk
    → length sk ≡ 32
    → build_peer_introduction_request e j (from_signing_key e k) ad ≡ ok r
    → lacks_a_field r ≡ false
    → is_authorized store r.consumer_device_public_key ≡ true
    → is_authorized store r.provider_device_public_key ≡ true
    → now + 300 < 2 ^ 64
    → later < now + 300
    → Introduces e j
        (from_signing_key e sk)
        later
        ad
        (from_signing_key e k).public_key_b64
        (peer_share_introduction_response e j (from_signing_key e sk) store now (some r))
unfolding listener_of claims_of unix_timestamp_after
introduction-Introduces e j k sk ad r store now later we wj kb kl sb sl built full c p fits soon =
    let (verified, own, provider, nonce, transport, fingerprint) =
      built_request e j k ad r we kb kl built in
    let (signed, answered, claims, valid) = signed_claims e j sk (claims_of now r) we sb sl in
    let listener = listener_of ad (ascii "quic") in
    let fresh : later < signed.introduction.expires_at = rw claims (omega arith) in
    let (consumer_ok, provider_ok, relay_ok) =
      verified_by_all e j (from_signing_key e sk) later listener signed valid
        (ap (λ c. c.provider_device_public_key) claims ∙ provider)
        (ap (λ c. c.provider_instance_nonce) claims ∙ nonce)
        (ap (λ c. c.listener_transport) claims ∙ transport)
        (ap (λ c. c.listener_cert_fingerprint) claims ∙ fingerprint) fresh in
    let consumer : signed.introduction.consumer_device_public_key
        ≡ (from_signing_key e k).public_key_b64 =
      ap (λ c. c.consumer_device_public_key) claims ∙ own in
    record {
      signed = signed;
      answered = introduced_by e j (from_signing_key e sk) store now r full c p verified ∙ answered;
      consumer_accepts = consumer_ok;
      provider_accepts = provider_ok;
      server_binds =
          bound e j (from_signing_key e sk) later ad.device_public_key signed wj relay_ok
          ∙ ap
              (λ (key : Text). ok (record {
                client_public_key = key;
                initial_frame = none;
                relayed_via_provider = true;
              }))
              consumer;
    }
