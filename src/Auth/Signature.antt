-- ===== src/Auth/Signature.antt =====
-- crates/bonded-core/src/auth.rs: device key pairs and signatures. The base64 engines and the
-- ed25519 implementation are third-party code and enter as a parameter.
pub mod Verify
use bonded.Prelude.{
  ℕ, ◌≡◌, ◌<◌, Bool, true, Option, none, some, List, length, Text, ◌==◌, Outcome, ok, err, ensure,
  or_fail, ◌>>=◌, ◌>>◌, IsBytes,
}

pub record Ed25519 : Type 0 where
  -- `general_purpose::STANDARD` and `URL_SAFE_NO_PAD`.
  pub standard_encode : List ℕ → Text
  pub standard_decode : Text → Option (List ℕ)
  pub url_safe_encode : List ℕ → Text
  pub url_safe_decode : Text → Option (List ℕ)
  -- `SigningKey::verifying_key`, over the 32 bytes of each.
  pub verifying_key : List ℕ → List ℕ
  -- `VerifyingKey::from_bytes(..).is_ok()`.
  pub is_point : List ℕ → Bool
  pub sign : List ℕ → List ℕ → List ℕ
  pub verify : List ℕ → List ℕ → List ℕ → Bool

-- What the crates document: decoding undoes encoding; the public key of a private key is a valid
-- key of 32 bytes; signatures have 64 bytes, and a key's signature verifies under its public key.
pub record IsEd25519 (e : Ed25519) : Type 0 where
  pub standard_inverse :
      (bs : List ℕ) → IsBytes bs → e.standard_decode (e.standard_encode bs) ≡ some bs
  pub url_safe_inverse :
      (bs : List ℕ) → IsBytes bs → e.url_safe_decode (e.url_safe_encode bs) ≡ some bs
  pub key_bytes : (k : List ℕ) → IsBytes (e.verifying_key k)
  pub key_length : (k : List ℕ) → length (e.verifying_key k) ≡ 32
  pub key_point : (k : List ℕ) → e.is_point (e.verifying_key k) ≡ true
  pub signature_bytes : (k m : List ℕ) → IsBytes (e.sign k m)
  pub signature_length : (k m : List ℕ) → length (e.sign k m) ≡ 64
  pub signature_valid : (k m : List ℕ) → e.verify (e.verifying_key k) m (e.sign k m) ≡ true

pub data AuthError : Type 0 where
  invalid_base64 : AuthError
  invalid_private_key_length : ℕ → AuthError
  invalid_public_key_length : ℕ → AuthError
  invalid_signature_length : ℕ → AuthError
  signature_verification_failed : AuthError

pub record DeviceKeypair : Type 0 where
  pub private_key_b64 : Text
  pub public_key_b64 : Text

module _ (e : Ed25519) where
  -- `from_signing_key`, of the 32 bytes of the signing key.
  unfoldable pub from_signing_key : List ℕ → DeviceKeypair
  from_signing_key k = record {
    private_key_b64 = e.standard_encode k;
    public_key_b64 = e.standard_encode (e.verifying_key k);
  }

  unfoldable pub signing_key : DeviceKeypair → Outcome AuthError (List ℕ)
  signing_key kp = do
    private_key ← or_fail (e.standard_decode kp.private_key_b64) invalid_base64
    ensure (length private_key == 32) (invalid_private_key_length (length private_key))
    ok private_key

  unfoldable pub from_private_key_b64 : Text → Outcome AuthError DeviceKeypair
  unfolding from_signing_key
  from_private_key_b64 private_key_b64 = do
    private_key ← or_fail (e.standard_decode private_key_b64) invalid_base64
    ensure (length private_key == 32) (invalid_private_key_length (length private_key))
    ok (from_signing_key private_key)

  unfoldable pub sign_bytes : DeviceKeypair → List ℕ → Outcome AuthError Text
  unfolding signing_key
  sign_bytes kp message = do key ← signing_key kp; ok (e.standard_encode (e.sign key message))

  unfoldable pub sign_auth_challenge : DeviceKeypair → Text → Outcome AuthError Text
  unfolding signing_key
  sign_auth_challenge kp challenge_b64 = do
    key ← signing_key kp
    challenge ← or_fail (e.url_safe_decode challenge_b64) invalid_base64
    ok (e.standard_encode (e.sign key challenge))

  unfoldable pub verify_signature : Text → List ℕ → Text → Outcome AuthError (Unit {0})
  verify_signature public_key_b64 message signature_b64 = do
    public_key ← or_fail (e.standard_decode public_key_b64) invalid_base64
    ensure (length public_key == 32) (invalid_public_key_length (length public_key))
    ensure (e.is_point public_key) (invalid_public_key_length (length public_key))
    signature ← or_fail (e.standard_decode signature_b64) invalid_base64
    ensure (length signature == 64) (invalid_signature_length (length signature))
    ensure (e.verify public_key message signature) signature_verification_failed

  -- It decodes the challenge before the signature, else as `verify_signature`.
  unfoldable pub verify_auth_challenge : Text → Text → Text → Outcome AuthError (Unit {0})
  verify_auth_challenge public_key_b64 challenge_b64 signature_b64 = do
    public_key ← or_fail (e.standard_decode public_key_b64) invalid_base64
    ensure (length public_key == 32) (invalid_public_key_length (length public_key))
    ensure (e.is_point public_key) (invalid_public_key_length (length public_key))
    challenge ← or_fail (e.url_safe_decode challenge_b64) invalid_base64
    signature ← or_fail (e.standard_decode signature_b64) invalid_base64
    ensure (length signature == 64) (invalid_signature_length (length signature))
    ensure (e.verify public_key challenge signature) signature_verification_failed
