-- ===== src/Auth/Handshake.antt =====
-- crates/bonded-server/src/auth_handshake.rs: the challenge handshake of the three transports. The
-- JSON of the messages is third-party code: a message arrives as what its parse gives, and a reply
-- is the message that is serialized. A reply that cannot be sent ends the handshake.
pub mod Admission
use bonded.Auth.Signature.{Ed25519, verify_auth_challenge}
use bonded.Auth.Invites.{TokensFile, redeem_invite_token}
use bonded.Auth.Devices.{
  AuthorizedKeysStore, DevicesFile, is_authorized, authorize_device_key, reload,
}
use bonded.Prelude.{
  ℕ, Bool, true, false, Option, none, some, List, [], ◌∷◌, ◌++◌, Text, ◌==◌, ◌||◌, leb, ◌&&◌,
  if◌then◌else◌, Outcome, ok, err, all_blank,
}

pub record ClientHello : Type 0 where
  pub public_key_b64 : Text
  pub invite_token : Text

-- What the client sends, as the reads of the server find it.
pub data Incoming : Type 0 where
  hello : ClientHello → Incoming
  proof : Text → Incoming
  unparsed : Incoming
  closed : Incoming

pub data Reply : Type 0 where
  unauthorized : Reply
  challenge : Text → Reply
  welcome : Reply

pub data HandshakeError : Type 0 where
  no_hello no_proof : HandshakeError
  redeem_failed persist_failed reload_failed : HandshakeError
  send_failed : HandshakeError
  not_authorized : HandshakeError
  bad_signature : HandshakeError

-- The server's files and store, the connection's replies so far, and the file system and connection
-- that they live on.
pub record Server : Type 0 where
  pub store : AuthorizedKeysStore
  pub devices_file : DevicesFile
  pub tokens_file : TokensFile
  pub devices_writable : Bool
  pub tokens_writable : Bool
  -- Whether each of the coming sends goes through; all do at the end of the list.
  pub sends : List Bool
  pub replies : List Reply

abbrev Step : Type 0 → Type 0
Step A = Server → Outcome HandshakeError A × Server

infixl 5 ◌>>=◌ ◌>>◌
abbrev ◌>>=◌ : {A B : Type 0} → Step A → (A → Step B) → Step B
◌>>=◌ m f s = elim (m s).0 [ ok a ↦ f a (m s).1 | err e ↦ (err e, (m s).1) ]

abbrev ◌>>◌ : {A B : Type 0} → Step A → Step B → Step B
m >> k = m >>= λ _. k

abbrev give : {A : Type 0} → A → Step A
give a s = (ok a, s)

abbrev fail : {A : Type 0} → HandshakeError → Step A
fail e s = (err e, s)

reply : Reply → Step (Unit {0})
reply r s =
    let written = s.replies ++ r ∷ [] in
    elim s.sends [
      | [] ↦ (ok tt, record s { replies = written })
      | went ∷ later ↦
          if went
          then (ok tt, record s { replies = written; sends = later })
          else (err send_failed, record s { sends = later })
    ]

as_hello : Incoming → Step ClientHello
as_hello (hello h) = give h
as_hello _ = fail no_hello

as_proof : Incoming → Step Text
as_proof (proof p) = give p
as_proof _ = fail no_proof

-- `is_authorized`, over the state.
known : Text → Step Bool
known key s = (ok (is_authorized s.store key), s)

-- The redemption; an empty token (after trimming) is not looked up.
redeemed : Text → Step Bool
redeemed token s =
    if all_blank token
    then (ok false, s)
    else (let r = redeem_invite_token s.tokens_writable s.tokens_file token in
        (
          elim r.0 [ ok spent ↦ ok spent | err e ↦ err redeem_failed ],
          record s { tokens_file = r.1 },
        ))

persist_key : Text → Step Bool
persist_key key s =
    let r = authorize_device_key s.devices_writable s.devices_file key in
    (elim r.0 [ ok added ↦ ok added | err e ↦ err persist_failed ], record s { devices_file = r.1 })

reload_keys : Step (Unit {0})
reload_keys s =
    let r = reload s.store s.devices_file in
    (elim r.0 [ ok u ↦ ok tt | err e ↦ err reload_failed ], record s { store = r.1 })

-- The branches of `if redeemed`.
admit : ClientHello → Bool → Step (Unit {0})
unfolding reply persist_key reload_keys
admit h true = persist_key h.public_key_b64 >>= λ added. reload_keys
admit h false = reply unauthorized >> fail not_authorized

-- The block under `if !authorized_keys.is_authorized(..)`.
enroll : ClientHello → Bool → Step (Unit {0})
unfolding redeemed admit
enroll h true = give tt
enroll h false = redeemed h.invite_token >>= admit h

module _ (e : Ed25519) where
  check_proof : Text → Text → Text → Step (Unit {0})
  check_proof key challenge_b64 signature_b64 s = (
    elim (verify_auth_challenge e key challenge_b64 signature_b64) [
      | ok _ ↦ ok tt
      | err x ↦ err bad_signature
    ],
    s,
  )

  -- The handshake: the client's key, given the two messages it sends and the challenge that is drawn.
  unfoldable pub perform_auth_handshake : Text → Incoming → Incoming → Step Text
  unfolding as_hello as_proof known enroll reply check_proof
  perform_auth_handshake challenge_b64 first second = do
    h ← as_hello first
    authorized ← known h.public_key_b64
    enroll h authorized
    reply (challenge challenge_b64)
    signature_b64 ← as_proof second
    check_proof h.public_key_b64 challenge_b64 signature_b64
    reply welcome
    give h.public_key_b64

  -- The WebSocket and QUIC handshakes make the same steps over their own transports.
  unfoldable pub perform_websocket_auth_handshake : Text → Incoming → Incoming → Step Text
  unfolding perform_auth_handshake
  perform_websocket_auth_handshake = perform_auth_handshake

  unfoldable pub perform_quic_auth_handshake : Text → Incoming → Incoming → Step Text
  unfolding perform_auth_handshake
  perform_quic_auth_handshake = perform_auth_handshake
