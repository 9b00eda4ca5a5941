-- ===== src/PeerShare/Binding.antt =====
-- What `resolve_session_binding` binds a session to.
use bonded.Auth.Signature.{Ed25519, DeviceKeypair, verify_signature}
use bonded.Auth.Signature.Verify.{Verified, verify_signature-Verified}
use bonded.Session.{SessionFrame}
use bonded.PeerShare.{
  signing_payload, SignedPeerShareIntroduction, Json, from_control_frame, is_registration,
}
use bonded.PeerShare.Verify.{
  ensure_not_expired, SessionBinding, verify_server_signature, verify_relay_registration,
  bind_relay, resolve_session_binding,
}
use bonded.Prelude.{
  ℕ, ◌<◌, ◌≡◌, subst, true, false, none, some, Text, text_eq, text_beq_iff, ok, arith, Bool-cases,
  Outcome-cases, inl, inr,
}

-- What a binding of a session to a client rests on.
pub data Binds (e : Ed25519) (j : Json) (now : ℕ) (first : SessionFrame) (authenticated : Text)
    (identity : DeviceKeypair) : SessionBinding → Type 0 where
  own_session :
      is_registration first ≡ false
      → Binds e j now first authenticated identity (record {
        client_public_key = authenticated;
        initial_frame = some first;
        relayed_via_provider = false;
      })
  relayed_session :
      (signed : SignedPeerShareIntroduction)
      → from_control_frame j first ≡ ok signed
      → Verified e identity.public_key_b64
          (signing_payload j signed.introduction)
          signed.server_signature
      → signed.introduction.provider_device_public_key ≡ authenticated
      → now < signed.introduction.expires_at
      → Binds e j now first authenticated identity (record {
        client_public_key = signed.introduction.consumer_device_public_key;
        initial_frame = none;
        relayed_via_provider = true;
      })

server_signature-Verified :
    (e : Ed25519) (j : Json) (key : Text) (signed : SignedPeerShareIntroduction)
    → verify_server_signature e j key signed ≡ ok tt
    → Verified e key (signing_payload j signed.introduction) signed.server_signature
unfolding verify_server_signature
server_signature-Verified e j key signed h =
    let v : verify_signature e key (signing_payload j signed.introduction) signed.server_signature
        ≡ ok tt =
      ground arith in
    verify_signature-Verified e key (signing_payload j signed.introduction) signed.server_signature
      v

relay_parts :
    (e : Ed25519) (j : Json) (signed : SignedPeerShareIntroduction) (now : ℕ) (provider : Text)
    (identity : DeviceKeypair)
    → verify_relay_registration e j signed now provider identity ≡ ok tt
    → (verify_server_signature e j identity.public_key_b64 signed ≡ ok tt)
      × (signed.introduction.provider_device_public_key ≡ provider)
      × (now < signed.introduction.expires_at)
unfolding verify_relay_registration ensure_not_expired
relay_parts e j signed now provider identity h =
    let tp = text_beq_iff signed.introduction.provider_device_public_key provider in
    (ground arith, ground arith, ground arith)

relay-Binds :
    (e : Ed25519) (j : Json) (now : ℕ) (first : SessionFrame) (authenticated : Text)
    (identity : DeviceKeypair) (b : SessionBinding)
    → bind_relay e j now authenticated identity first ≡ ok b
    → Binds e j now first authenticated identity b
unfolding bind_relay
relay-Binds e j now first authenticated identity b h =
    elim (Outcome-cases (from_control_frame j first)) [
      | inr (x, bad) ↦ absurd (ground arith)
      | inl (signed, good) ↦
          elim (Outcome-cases (verify_relay_registration e j signed now authenticated identity)) [
            | inr (x, bad) ↦ absurd (ground arith)
            | inl (u, verified) ↦
                let (v, own, fresh) = relay_parts e j signed now authenticated identity verified in
                let b_e : record {
                  client_public_key = signed.introduction.consumer_device_public_key;
                  initial_frame = none;
                  relayed_via_provider = true;
                }
                    ≡ b =
                  ground arith in
                subst (Binds e j now first authenticated identity) b_e (
                  relayed_session signed good
                    (server_signature-Verified e j identity.public_key_b64 signed v) own fresh)
          ]
    ]

-- A session is bound to the key that authenticated, with its first frame kept, unless that frame is a
-- relay registration; then it is bound to the consumer of an introduction that the frame carries, that
-- verifies under the server's own key, that names the authenticated client as its provider and that has
-- not expired.
pub resolve_session_binding-Binds :
    (e : Ed25519) (j : Json) (now : ℕ) (first : SessionFrame) (authenticated : Text)
    (identity : DeviceKeypair) (b : SessionBinding)
    → resolve_session_binding e j now (some first) authenticated identity ≡ ok b
    → Binds e j now first authenticated identity b
unfolding resolve_session_binding
resolve_session_binding-Binds e j now first authenticated identity b h =
    elim (Bool-cases (is_registration first)) [
      | inr plain ↦
          let b_e : record {
            client_public_key = authenticated;
            initial_frame = some first;
            relayed_via_provider = false;
          }
              ≡ b =
            ground arith in
          subst (Binds e j now first authenticated identity) b_e (own_session plain)
      | inl relay ↦ relay-Binds e j now first authenticated identity b (ground arith)
    ]
