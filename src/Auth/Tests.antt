-- ===== src/Auth/Tests.antt =====
-- Authentication theorems at inputs that meet their hypotheses. The signature scheme of the tests
-- accepts every signature of 64 bytes; its texts are the bytes they stand for.
use bonded.Prelude.Map.{lookup, insert, remove, collect, contains_key, values}
use bonded.Auth.Signature.{Ed25519, IsEd25519, verify_auth_challenge}
use bonded.Auth.Invites.{InviteToken, TokensFile, tokens, redeem_invite_token, redeem, from_tokens}
use bonded.Auth.Invites.Uses.{uses, Spends, redeem_invite_token-Spends}
use bonded.Auth.Devices.{
  missing, reload, is_authorized, authorize_device_key, modify_data, Watcher, on_event,
}
use bonded.Auth.Devices.Reload.{Handled, on_event-listed}
use bonded.Auth.Handshake.{
  no_proof, ClientHello, hello, proof, closed, unauthorized, not_authorized, Server,
  perform_auth_handshake,
}
use bonded.Auth.Handshake.Admission.{
  enrolled_without_proof, Admits, enrolled_without_proof, perform_auth_handshake-Admits,
  perform_auth_handshake-refuses,
}
use bonded.Prelude.{
  inl, ◌+◌, ◌≡◌, refl, [], ◌∷◌, some, err, true, arith, replicate, Text, ascii, text_beq, text_eq,
}

abbrev toy : Ed25519
toy = record {
  standard_encode = λ bs. bs;
  standard_decode = λ t. some t;
  url_safe_encode = λ bs. bs;
  url_safe_decode = λ t. some t;
  verifying_key = λ k. replicate 32 7;
  is_point = λ k. true;
  sign = λ k m. replicate 64 1;
  verify = λ k m s. true;
}

toy-IsEd25519 : IsEd25519 toy
toy-IsEd25519 = record {
  standard_inverse = λ bs h. refl;
  url_safe_inverse = λ bs h. refl;
  key_bytes = λ k. omega arith;
  key_length = λ k. refl;
  key_point = λ k. refl;
  signature_bytes = λ k m. omega arith;
  signature_length = λ k m. refl;
  signature_valid = λ k m. refl;
}

abbrev key : Text
key = replicate 32 7

abbrev signature : Text
signature = replicate 64 1

abbrev invite : InviteToken
invite = record { token = ascii "t"; expires_at = ascii "2001"; uses_remaining = 2 }

abbrev invites : TokensFile
invites = tokens (invite ∷ [])

redeem_invite_token-Spends_example :
    Spends invites (ascii "t") (ascii "t") (redeem_invite_token true invites (ascii "t"))
redeem_invite_token-Spends_example =
    redeem_invite_token-Spends invites (ascii "t") (ascii "t") (ground arith)

two_uses : uses (ascii "t") invites ≡ 2
unfolding uses collect insert remove lookup text_beq
two_uses = refl

abbrev fresh_watcher : Watcher
fresh_watcher = record { store = []; last_reload_at = some 1000 }

on_event-listed_example :
    Handled key modify_data 1200 missing fresh_watcher
      (on_event fresh_watcher modify_data 1200 missing)
on_event-listed_example = on_event-listed fresh_watcher modify_data 1200 missing key (ground arith)

abbrev newcomer : ClientHello
newcomer = record { public_key_b64 = key; invite_token = ascii "t" }

abbrev server : Server
server = record {
  store = [];
  devices_file = missing;
  tokens_file = invites;
  devices_writable = true;
  tokens_writable = true;
  sends = [];
  replies = [];
}

perform_auth_handshake-Admits_example :
    Admits toy
      (9 ∷ [])
      (hello newcomer)
      (proof signature)
      server
      (perform_auth_handshake toy (9 ∷ []) (hello newcomer) (proof signature) server).1
      key
unfolding perform_auth_handshake redeem_invite_token lookup insert remove collect values text_beq
    is_authorized contains_key redeem from_tokens authorize_device_key reload verify_auth_challenge
perform_auth_handshake-Admits_example =
    perform_auth_handshake-Admits toy (9 ∷ []) (hello newcomer) (proof signature) server
      (perform_auth_handshake toy (9 ∷ []) (hello newcomer) (proof signature) server).1 key refl

abbrev stranger : ClientHello
stranger = record { public_key_b64 = key; invite_token = ascii "u" }

-- A token of one space.
abbrev uninvited : ClientHello
uninvited = record stranger { invite_token = 32 ∷ [] }

perform_auth_handshake-refuses_example :
    perform_auth_handshake toy (9 ∷ []) (hello uninvited) closed server
    ≡ (err not_authorized, record server { replies = unauthorized ∷ [] })
unfolding is_authorized contains_key uses lookup collect insert remove text_beq
perform_auth_handshake-refuses_example =
    perform_auth_handshake-refuses toy (9 ∷ []) uninvited closed server refl (inl refl)
      (ground arith) refl refl

enrolled_without_proof_example :
    let (result, after) = perform_auth_handshake toy (9 ∷ []) (hello newcomer) closed server in
    (result ≡ err no_proof)
    × (is_authorized after.store key ≡ true)
    × (uses (ascii "t") invites ≡ uses (ascii "t") after.tokens_file + 1)
unfolding is_authorized contains_key uses from_tokens lookup collect insert remove text_beq
enrolled_without_proof_example =
    enrolled_without_proof toy (9 ∷ []) newcomer server refl refl (omega arith) (ground arith)
      (ground arith) refl refl refl
