-- ===== src/Auth/Handshake/Admission.antt =====
-- Whom the handshake lets in.
use bonded.Auth.Signature.{Ed25519, verify_auth_challenge}
use bonded.Auth.Signature.Verify.{Verified, verify_auth_challenge-Verified}
use bonded.Auth.Invites.{redeem_invite_token, unparsed as unparsed_tokens}
use bonded.Auth.Invites.Uses.{redeem_invite_token-Spends, uses, success-uses, refused_file}
use bonded.Auth.Devices.Reload.{
  authorize_device_key-listed, listed, reload-listed, authorized-listed,
}
use bonded.Auth.Devices.{unparsed as unparsed_devices, is_authorized, authorize_device_key, reload}
use bonded.Auth.Handshake.{
  no_proof, ClientHello, Incoming, hello, proof, unparsed, closed, unauthorized, challenge, welcome,
  Server, perform_auth_handshake, enroll, not_authorized,
}
use bonded.Prelude.{
  ◌<◌, ℕ, ◌+◌, Outcome-cases, ◌≡◌, ◌≢◌, refl, Bool, true, false, some, List, [], ◌∷◌, ◌++◌, Text,
  arith, ok, err, Bool-cases, inl, inr, all_blank, ◌⊎◌,
}

-- The key is in the store, or the token was spent and the key put on file and reloaded.
record Enrolled (h : ClientHello) (s s' : Server) : Type 0 where
  blank : all_blank h.invite_token ≡ false
  spent :
      redeem_invite_token s.tokens_writable s.tokens_file h.invite_token ≡ (ok true, s'.tokens_file)
  added :
      (b : Bool) × (authorize_device_key s.devices_writable s.devices_file h.public_key_b64
        ≡ (ok b, s'.devices_file))
  reloaded : reload s.store s'.devices_file ≡ (ok tt, s'.store)

enroll-Enrolled :
    (h : ClientHello) (s s' : Server) → enroll h false s ≡ (ok tt, s') → Enrolled h s s'
unfolding enroll
enroll-Enrolled h s s' e = record {
  blank = ground arith;
  spent = ground arith;
  added =
      elim (Outcome-cases
        (authorize_device_key s.devices_writable s.devices_file h.public_key_b64).0) [
          | inl (b, q) ↦ (b, ground arith)
          | inr (x, q) ↦ absurd (ground arith)
        ];
  reloaded = ground arith;
}

proved :
    (e : Ed25519) (c : Text) (h : ClientHello) (sig : Text) (s s' : Server) (key : Text)
    → perform_auth_handshake e c (hello h) (proof sig) s ≡ (ok key, s')
    → (key ≡ h.public_key_b64)
      × (verify_auth_challenge e key c sig ≡ ok tt)
      × (s'.replies ≡ (s.replies ++ challenge c ∷ []) ++ welcome ∷ [])
unfolding perform_auth_handshake
proved e c h sig s s' key q = ground arith

-- What the server did for a client that it lets in.
pub record Admits (e : Ed25519) (c : Text) (first second : Incoming) (s s' : Server) (key : Text)
    : Type 0 where
  pub said : ClientHello
  pub signature_b64 : Text
  pub first_hello : first ≡ hello said
  pub second_proof : second ≡ proof signature_b64
  pub own_key : key ≡ said.public_key_b64
  pub challenge_bytes : List ℕ
  pub challenge_decodes : e.url_safe_decode c ≡ some challenge_bytes
  pub verified : Verified e key challenge_bytes signature_b64
  pub replied : s'.replies ≡ (s.replies ++ challenge c ∷ []) ++ welcome ∷ []
  pub authorized : is_authorized s'.store key ≡ true
  pub paid :
      ((is_authorized s.store key ≡ true)
        × (s'.store ≡ s.store)
        × (s'.devices_file ≡ s.devices_file)
        × (s'.tokens_file ≡ s.tokens_file))
      ⊎ ((is_authorized s.store key ≡ false)
          × (listed key s'.devices_file ≡ true)
          × (uses said.invite_token s.tokens_file ≡ uses said.invite_token s'.tokens_file + 1))

Enrolled-authorized :
    (h : ClientHello) (s s' : Server)
    → Enrolled h s s'
    → (is_authorized s'.store h.public_key_b64 ≡ true)
      × (listed h.public_key_b64 s'.devices_file ≡ true)
      × (uses h.invite_token s.tokens_file ≡ uses h.invite_token s'.tokens_file + 1)
Enrolled-authorized h s s' r =
    let (b, added) = r.added in
    let (on_file, parsed) =
      authorized-listed s.devices_writable b s.devices_file s'.devices_file h.public_key_b64
        added in
    let spent =
      success-uses s.tokens_writable s.tokens_file s'.tokens_file h.invite_token r.spent in
    let in_store : is_authorized s'.store h.public_key_b64 ≡ true =
      elim (reload-listed s.store s'.devices_file h.public_key_b64) [
        | inl (_, _, same) ↦ ground (arith, r.reloaded)
        | inr (bad, _) ↦ absurd (parsed bad)
      ] in
    (in_store, on_file, spent)

kept_state :
    (e : Ed25519) (c : Text) (h : ClientHello) (sig : Text) (s s' : Server) (key : Text)
    → perform_auth_handshake e c (hello h) (proof sig) s ≡ (ok key, s')
    → is_authorized s.store h.public_key_b64 ≡ true
    → (s'.store ≡ s.store) × (s'.devices_file ≡ s.devices_file) × (s'.tokens_file ≡ s.tokens_file)
unfolding perform_auth_handshake
kept_state e c h sig s s' key q before = (ground arith, ground arith, ground arith)

-- The state between the enrolment and the end, whose replies alone change.
enrolled_state :
    (e : Ed25519) (c : Text) (h : ClientHello) (sig : Text) (s s' : Server) (key : Text)
    → perform_auth_handshake e c (hello h) (proof sig) s ≡ (ok key, s')
    → is_authorized s.store h.public_key_b64 ≡ false
    → (t : Server) × (enroll h false s ≡ (ok tt, t))
      × (t.store ≡ s'.store)
      × (t.devices_file ≡ s'.devices_file)
      × (t.tokens_file ≡ s'.tokens_file)
unfolding perform_auth_handshake
enrolled_state e c h sig s s' key q out =
    ((enroll h false s).1, ground arith, ground arith, ground arith, ground arith)

admitted_key :
    (e : Ed25519) (c : Text) (h : ClientHello) (sig : Text) (s s' : Server) (key : Text)
    → perform_auth_handshake e c (hello h) (proof sig) s ≡ (ok key, s')
    → key ≡ h.public_key_b64
    → (is_authorized s'.store key ≡ true)
      × (((is_authorized s.store key ≡ true)
            × (s'.store ≡ s.store)
            × (s'.devices_file ≡ s.devices_file)
            × (s'.tokens_file ≡ s.tokens_file))
          ⊎ ((is_authorized s.store key ≡ false)
              × (listed key s'.devices_file ≡ true)
              × (uses h.invite_token s.tokens_file ≡ uses h.invite_token s'.tokens_file + 1)))
admitted_key e c h sig s s' key q own = elim (Bool-cases (is_authorized s.store h.public_key_b64)) [
  | inl before ↦
      let same = kept_state e c h sig s s' key q before in
      (ground arith, inl (ground arith, same.0, same.1, same.2))
  | inr out ↦
      let (t, enrolled, st, df, tf) = enrolled_state e c h sig s s' key q out in
      let (now, on_file, spent) = Enrolled-authorized h s t (enroll-Enrolled h s t enrolled) in
      (ground arith, inr (ground arith, ground arith, ground arith))
]

admitted_hello :
    (e : Ed25519) (c : Text) (h : ClientHello) (sig : Text) (s s' : Server) (key : Text)
    → perform_auth_handshake e c (hello h) (proof sig) s ≡ (ok key, s')
    → Admits e c (hello h) (proof sig) s s' key
admitted_hello e c h sig s s' key q =
    let (own, accepted, replied) = proved e c h sig s s' key q in
    let (bytes, decodes, verified) = verify_auth_challenge-Verified e key c sig accepted in
    let (authorized, paid) = admitted_key e c h sig s s' key q own in
    record {
      said = h;
      signature_b64 = sig;
      first_hello = refl;
      second_proof = refl;
      own_key = own;
      challenge_bytes = bytes;
      challenge_decodes = decodes;
      verified = verified;
      replied = replied;
      authorized = authorized;
      paid = paid;
    }

-- A handshake that succeeds was a hello and then a proof; it
-- returns the key of the hello; the proof is a signature of that key over the challenge that was
-- sent; the replies were the challenge and the welcome; and the key is authorized in the store
-- afterwards. Either it was before, and nothing changed, or it was not, and then it has been put on
-- file and one use has been taken off the invite token of the hello, which had one.
pub perform_auth_handshake-Admits :
    (e : Ed25519) (c : Text) (first second : Incoming) (s s' : Server) (key : Text)
    → perform_auth_handshake e c first second s ≡ (ok key, s')
    → Admits e c first second s s' key
unfolding perform_auth_handshake
perform_auth_handshake-Admits e c (hello h) (proof sig) s s' key q =
    admitted_hello e c h sig s s' key q
perform_auth_handshake-Admits e c (hello h) (hello g) s s' key q = absurd (ground arith)
perform_auth_handshake-Admits e c (hello h) unparsed s s' key q = absurd (ground arith)
perform_auth_handshake-Admits e c (hello h) closed s s' key q = absurd (ground arith)
perform_auth_handshake-Admits e c (proof p) second s s' key q = absurd (ground arith)
perform_auth_handshake-Admits e c unparsed second s s' key q = absurd (ground arith)
perform_auth_handshake-Admits e c closed second s s' key q = absurd (ground arith)

-- A client whose key is not authorized and whose token is blank or has no use left is turned away
-- before any challenge: the store and both files stay as they were, and nothing but the refusal is
-- sent. (The send goes through, and the tokens file can be parsed and written.)
pub perform_auth_handshake-refuses :
    (e : Ed25519) (c : Text) (h : ClientHello) (second : Incoming) (s : Server)
    → is_authorized s.store h.public_key_b64 ≡ false
    → (all_blank h.invite_token ≡ true) ⊎ (uses h.invite_token s.tokens_file ≡ 0)
    → s.tokens_file ≢ unparsed_tokens
    → s.tokens_writable ≡ true
    → s.sends ≡ []
    → perform_auth_handshake e c (hello h) second s
      ≡ (err not_authorized, record s { replies = s.replies ++ unauthorized ∷ [] })
unfolding perform_auth_handshake
perform_auth_handshake-refuses e c h second s out refused parsed writable up =
    elim (Bool-cases (all_blank h.invite_token)) [
      | inl blank ↦ ground arith
      | inr given ↦ elim refused [
        | inl blank ↦ absurd (ground arith)
        | inr none_left ↦
            let unchanged = refused_file s.tokens_file h.invite_token parsed none_left in
            ground arith
      ]
    ]

spent-enroll :
    (h : ClientHello) (s : Server)
    → all_blank h.invite_token ≡ false
    → 0 < uses h.invite_token s.tokens_file
    → s.tokens_file ≢ unparsed_tokens
    → s.devices_file ≢ unparsed_devices
    → s.tokens_writable ≡ true
    → s.devices_writable ≡ true
    → ((enroll h false s).0 ≡ ok tt)
      × ((enroll h false s).1.replies ≡ s.replies)
      × ((enroll h false s).1.sends ≡ s.sends)
unfolding enroll
spent-enroll h s given left parsed readable tw dw =
    let (answer, _) =
      redeem_invite_token-Spends s.tokens_file h.invite_token h.invite_token parsed in
    let (added, stored, _, _) =
      authorize_device_key-listed s.devices_file h.public_key_b64 h.public_key_b64 readable in
    elim (reload-listed s.store (authorize_device_key true s.devices_file h.public_key_b64).1
      h.public_key_b64) [
        | inr (bad, _) ↦ absurd (stored bad)
        | inl (_, reloaded, _) ↦ (ground arith, ground arith, ground arith)
      ]

-- The enrolment comes before the proof: a client that names an unknown key and a token with a use left,
-- and then ends the connection, has spent the use and has its key authorized, although it has not shown
-- that it holds the key. (The files can be read and written, and the sends go through.)
pub enrolled_without_proof :
    (e : Ed25519) (c : Text) (h : ClientHello) (s : Server)
    → is_authorized s.store h.public_key_b64 ≡ false
    → all_blank h.invite_token ≡ false
    → 0 < uses h.invite_token s.tokens_file
    → s.tokens_file ≢ unparsed_tokens
    → s.devices_file ≢ unparsed_devices
    → s.tokens_writable ≡ true
    → s.devices_writable ≡ true
    → s.sends ≡ []
    → let (result, s') = perform_auth_handshake e c (hello h) closed s in
      (result ≡ err no_proof)
      × (is_authorized s'.store h.public_key_b64 ≡ true)
      × (uses h.invite_token s.tokens_file ≡ uses h.invite_token s'.tokens_file + 1)
unfolding perform_auth_handshake
enrolled_without_proof e c h s out given left parsed readable tw dw up =
    let (done, _, still) = spent-enroll h s given left parsed readable tw dw in
    let t = (enroll h false s).1 in
    let (now, _, spent) = Enrolled-authorized h s t (enroll-Enrolled h s t (ground arith)) in
    (ground arith, ground arith, ground arith)
