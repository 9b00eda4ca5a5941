-- ===== src/Bootstrap/CertProof.antt =====
-- The proof that ties the server's TLS certificate to its identity key: `cert_proof` of
-- crates/bonded-server/src/bootstrap.rs, and `verify_cert_proof_response`, `compute_fingerprint` and the
-- pinned verifier of crates/bonded-client/src/cert_proof.rs. SHA-256 is third-party code and a parameter.
use bonded.Auth.Signature.{
  Ed25519, IsEd25519, DeviceKeypair, AuthError, from_signing_key, sign_bytes, verify_signature,
}
use bonded.Auth.Signature.Verify.{Verified, verify-sign, verify_signature-Verified}
use bonded.Prelude.{
  ℕ, ◌+◌, ◌/◌, ◌%◌, ◌≡◌, refl, Bool, true, Option, none, some, List, [], ◌∷◌, ◌++◌, Text, text_beq,
  text_beq_iff, ascii, length, IsBytes, ltb, Outcome, ok, err, if◌then◌else◌, arith, Outcome-cases,
  inl, inr,
}

unfoldable pub hex_digit : ℕ → ℕ
hex_digit d = if ltb d 10 then 48 + d else 87 + d

-- `{b:02x}` of each byte.
unfoldable pub hex_text : List ℕ → Text
unfolding hex_digit
hex_text [] = []
hex_text (b ∷ bs) = hex_digit (b / 16) ∷ hex_digit (b % 16) ∷ hex_text bs

unfoldable pub compute_fingerprint : (List ℕ → List ℕ) → List ℕ → Text
unfolding hex_text
compute_fingerprint sha256 der = ascii "sha256:" ++ hex_text (sha256 der)

pub data CertProofError : Type 0 where
  invalid_json missing_cert_fingerprint missing_ed25519_signature : CertProofError
  signature_failed : AuthError → CertProofError
  fingerprint_mismatch : CertProofError

-- What a response's JSON holds: nothing, or the two fields where they are strings.
abbrev pub Parsed : Type 0
Parsed = Option (Option Text × Option Text)

module _ (e : Ed25519) (sha256 : List ℕ → List ℕ) where
  unfoldable pub cert_proof :
      DeviceKeypair → Option (List ℕ) → Option (Outcome AuthError (Text × Text))
  unfolding compute_fingerprint
  cert_proof server_identity none = none
  cert_proof server_identity (some der) =
      some (elim (sign_bytes e server_identity (compute_fingerprint sha256 der)) [
        | err x ↦ err x
        | ok signature ↦ ok (compute_fingerprint sha256 der, signature)
      ])

  -- The fingerprint that the signature is for is the presented certificate's.
  unfoldable pub check_proof : List ℕ → Text → Text → Text → Outcome CertProofError Text
  unfolding compute_fingerprint
  check_proof presented_cert_der server_public_key_b64 fingerprint signature =
      elim (verify_signature e server_public_key_b64 fingerprint signature) [
        | err x ↦ err (signature_failed x)
        | ok _ ↦
            if text_beq (compute_fingerprint sha256 presented_cert_der) fingerprint
            then ok fingerprint
            else err fingerprint_mismatch
      ]

  unfoldable pub verify_cert_proof_response : List ℕ → Text → Parsed → Outcome CertProofError Text
  unfolding check_proof
  verify_cert_proof_response presented_cert_der key none = err invalid_json
  verify_cert_proof_response presented_cert_der key (some (none, signature)) =
      err missing_cert_fingerprint
  verify_cert_proof_response presented_cert_der key (some (some fingerprint, none)) =
      err missing_ed25519_signature
  verify_cert_proof_response presented_cert_der key (some (some fingerprint, some signature)) =
      check_proof presented_cert_der key fingerprint signature

  -- `verify_server_cert` of the pinned verifier: whether the certificate is taken.
  unfoldable pub pinned : Text → List ℕ → Bool
  unfolding compute_fingerprint
  pinned expected end_entity = text_beq (compute_fingerprint sha256 end_entity) expected

checked :
    (e : Ed25519) (sha256 : List ℕ → List ℕ) (der : List ℕ) (key fingerprint signature f : Text)
    → check_proof e sha256 der key fingerprint signature ≡ ok f
    → (verify_signature e key fingerprint signature ≡ ok tt)
      × (compute_fingerprint sha256 der ≡ f)
      × (fingerprint ≡ f)
unfolding check_proof
checked e sha256 der key fingerprint signature f h =
    elim (Outcome-cases (verify_signature e key fingerprint signature)) [
      | inr (x, bad) ↦ absurd (ground arith)
      | inl (u, good) ↦
          let same = text_beq_iff (compute_fingerprint sha256 der) fingerprint in
          (ground arith, ground arith, ground arith)
    ]

-- What the client takes as a proof is one: the fingerprint it pins is that of the certificate that was
-- presented, and is signed with the server's key; and a later connection takes that certificate.
pub verify_cert_proof_response-Verified :
    (e : Ed25519) (sha256 : List ℕ → List ℕ) (der : List ℕ) (key f : Text)
    (fingerprint signature : Text)
    → verify_cert_proof_response e sha256 der key (some (some fingerprint, some signature)) ≡ ok f
    → (compute_fingerprint sha256 der ≡ f)
      × Verified e key f signature
      × (pinned e sha256 f der ≡ true)
unfolding verify_cert_proof_response pinned
verify_cert_proof_response-Verified e sha256 der key f fingerprint signature h =
    let (good, mine, same) = checked e sha256 der key fingerprint signature f h in
    let v : verify_signature e key f signature ≡ ok tt = ground arith in
    (
      mine,
      verify_signature-Verified e key f signature v,
      ground (arith, text_beq_iff (compute_fingerprint sha256 der) f),
    )

-- The proof of a server with a TLS certificate is accepted by a client that knows the server's key and
-- is presented with that certificate. (The key has 32 bytes.)
pub cert_proof-verify_cert_proof_response :
    (e : Ed25519) (sha256 : List ℕ → List ℕ) (k der : List ℕ)
    → IsEd25519 e
    → IsBytes k
    → length k ≡ 32
    → let identity = from_signing_key e k in
      (fingerprint : Text) × (signature : Text) × (cert_proof e sha256 identity (some der)
        ≡ some (ok (fingerprint, signature)))
      × (verify_cert_proof_response e sha256 der identity.public_key_b64
            (some (some fingerprint, some signature))
          ≡ ok fingerprint)
unfolding cert_proof verify_cert_proof_response check_proof
cert_proof-verify_cert_proof_response e sha256 k der w kb l =
    let f = compute_fingerprint sha256 der in
    let (restored, signed, answered) = verify-sign e k f [] w kb l tt in
    let (s, made, good) = signed in
    (f, s, rw (made, cert_proof) refl, rw (good, check_proof) (ground (arith, text_beq_iff f f)))
