-- ===== src/Auth/Signature/Verify.antt =====
-- Signing and verifying.
use bonded.Auth.Signature.{
  Ed25519, IsEd25519, from_signing_key, signing_key, from_private_key_b64, sign_bytes,
  sign_auth_challenge, verify_signature, verify_auth_challenge,
}
use bonded.Prelude.{
  ℕ, ◌≡◌, Bool, true, some, List, length, Text, ok, IsBytes, arith, ensure, Option-cases, inl, inr,
}

-- A key pair that is made from a private key of 32 bytes is read back from its private half, its
-- signature over any message is accepted under its public half, and so is its answer to any
-- challenge.
pub verify-sign :
    (e : Ed25519) (k m c : List ℕ)
    → IsEd25519 e
    → IsBytes k
    → length k ≡ 32
    → IsBytes c
    → let kp = from_signing_key e k in
      (from_private_key_b64 e kp.private_key_b64 ≡ ok kp)
      × ((s : Text) × (sign_bytes e kp m ≡ ok s)
          × (verify_signature e kp.public_key_b64 m s ≡ ok tt))
      × ((s : Text) × (sign_auth_challenge e kp (e.url_safe_encode c) ≡ ok s)
          × (verify_auth_challenge e kp.public_key_b64 (e.url_safe_encode c) s ≡ ok tt))
unfolding from_signing_key signing_key from_private_key_b64 sign_bytes sign_auth_challenge
    verify_signature verify_auth_challenge
verify-sign e k m c w kb l cb =
    let private = w.standard_inverse k kb in
    let public = w.standard_inverse (e.verifying_key k) (w.key_bytes k) in
    let challenge = w.url_safe_inverse c cb in
    let size = w.key_length k in
    let point = w.key_point k in
    (
      ground arith,
      (
        e.standard_encode (e.sign k m),
        ground arith,
        ground (
          arith,
          w.standard_inverse (e.sign k m) (w.signature_bytes k m),
          w.signature_length k m,
          w.signature_valid k m,
        ),
      ),
      (
        e.standard_encode (e.sign k c),
        ground arith,
        ground (
          arith,
          w.standard_inverse (e.sign k c) (w.signature_bytes k c),
          w.signature_length k c,
          w.signature_valid k c,
        ),
      ),
    )

-- What an accepted signature says: both texts are base64, of a valid key of 32 bytes and of a
-- signature of 64 bytes, and the signature verifies over the message.
pub record Verified (e : Ed25519) (public_key_b64 : Text) (message : List ℕ) (signature_b64 : Text)
    : Type 0 where
  pub public_key : List ℕ
  pub signature : List ℕ
  pub key_decodes : e.standard_decode public_key_b64 ≡ some public_key
  pub key_length : length public_key ≡ 32
  pub key_point : e.is_point public_key ≡ true
  pub signature_decodes : e.standard_decode signature_b64 ≡ some signature
  pub signature_length : length signature ≡ 64
  pub verifies : e.verify public_key message signature ≡ true

ensure-ok : {E : Type 0} (b : Bool) (e : E) → ensure b e ≡ ok tt → b ≡ true
ensure-ok b e h = ground arith

-- `verify_signature` accepts only a signature that verifies.
pub verify_signature-Verified :
    (e : Ed25519) (public_key_b64 : Text) (message : List ℕ) (signature_b64 : Text)
    → verify_signature e public_key_b64 message signature_b64 ≡ ok tt
    → Verified e public_key_b64 message signature_b64
unfolding verify_signature
verify_signature-Verified e pk m sig h = elim (Option-cases (e.standard_decode pk)) [
  | inl bad ↦ absurd (ground arith)
  | inr (k, good) ↦ elim (Option-cases (e.standard_decode sig)) [
    | inl bad ↦ absurd (ground arith)
    | inr (s, signed) ↦ record {
      public_key = k;
      signature = s;
      key_decodes = good;
      key_length = ground arith;
      key_point = ground arith;
      signature_decodes = signed;
      signature_length = ground arith;
      verifies = ground arith;
    }
  ]
]

challenge_as_message :
    (e : Ed25519) (pk c sig : Text) (m : List ℕ)
    → e.url_safe_decode c ≡ some m
    → verify_auth_challenge e pk c sig ≡ ok tt
    → verify_signature e pk m sig ≡ ok tt
unfolding verify_auth_challenge verify_signature
challenge_as_message e pk c sig m decoded h = ground arith

-- `verify_auth_challenge` accepts only a signature that verifies over the decoded challenge.
pub verify_auth_challenge-Verified :
    (e : Ed25519) (public_key_b64 challenge_b64 signature_b64 : Text)
    → verify_auth_challenge e public_key_b64 challenge_b64 signature_b64 ≡ ok tt
    → (c : List ℕ) × (e.url_safe_decode challenge_b64 ≡ some c)
      × Verified e public_key_b64 c signature_b64
unfolding verify_auth_challenge
verify_auth_challenge-Verified e pk c sig h = elim (Option-cases (e.url_safe_decode c)) [
  | inl bad ↦ absurd (ground arith)
  | inr (m, decoded) ↦ (
    m,
    decoded,
    verify_signature-Verified e pk m sig (challenge_as_message e pk c sig m decoded h),
  )
]
