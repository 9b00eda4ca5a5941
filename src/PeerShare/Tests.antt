-- ===== src/PeerShare/Tests.antt =====
-- The peer-sharing theorems at inputs that meet their hypotheses. The JSON of the tests writes a
-- registration as its texts, each behind its length.
use bonded.Prelude.Map.{lookup, contains_key}
use bonded.Prelude.Texts.{to_ascii_lowercase}
use bonded.Auth.Signature.{
  Ed25519, IsEd25519, DeviceKeypair, from_signing_key, sign_bytes, verify_signature,
}
use bonded.Auth.Devices.{AuthorizedKeysStore, is_authorized}
use bonded.Session.{SessionFrame}
use bonded.PeerShare.{
  PeerShareIntroductionRequest, SignedPeerShareIntroduction, PeerShareAdvertisement, Json, IsJson,
  txt_records, from_txt_record_map, from_control_frame, is_registration,
}
use bonded.PeerShare.Introduce.{
  build_peer_introduction_request, peer_share_introduction_response, lacks_a_field,
}
use bonded.PeerShare.Verify.{
  SessionBinding, verify_relay_registration, bind_relay, resolve_session_binding,
}
use bonded.PeerShare.Records.{from_txt_record_map-txt_records}
use bonded.PeerShare.Chain.{Introduces, introduction-Introduces}
use bonded.PeerShare.Binding.{Binds, resolve_session_binding-Binds}
use bonded.Prelude.{
  concat, map, ℕ, ◌≡◌, refl, List, [], ◌∷◌, ◌++◌, some, none, ok, true, arith, replicate, Text,
  ascii, text_eq, text_beq, length, take, drop, take-append, drop-append, get_or,
}

abbrev toy : Ed25519
toy = record {
  standard_encode = λ bs. bs;
  standard_decode = λ t. some t;
  url_safe_encode = λ bs. bs;
  url_safe_decode = λ t. some t;
  verifying_key = λ k. replicate 32 7;
  is_point = λ k. true;
  sign = λ k m. replicate 64 1;
  verify = λ k m s. true;
}

toy-IsEd25519 : IsEd25519 toy
toy-IsEd25519 = record {
  standard_inverse = λ bs h. refl;
  url_safe_inverse = λ bs h. refl;
  key_bytes = λ k. omega arith;
  key_length = λ k. refl;
  key_point = λ k. refl;
  signature_bytes = λ k m. omega arith;
  signature_length = λ k m. refl;
  signature_valid = λ k m. refl;
}

abbrev put : Text → Text → Text
put t rest = length t ∷ t ++ rest

abbrev front : Text → Text
front s = take (get_or s 0 0) (drop 1 s)

abbrev back : Text → Text
back s = drop (get_or s 0 0) (drop 1 s)

front-put : (t rest : Text) → front (put t rest) ≡ t
front-put t rest = take-append t rest

back-put : (t rest : Text) → back (put t rest) ≡ rest
back-put t rest = drop-append t rest

abbrev write : SignedPeerShareIntroduction → List ℕ
write r =
    let c = r.introduction in
    c.expires_at
    ∷ put c.consumer_device_public_key (
        put c.provider_device_public_key (
          put c.provider_instance_nonce (
            put c.provider_endpoint (
              put c.listener_transport
                (put c.listener_cert_fingerprint (put r.server_signature []))))))

abbrev read : List ℕ → SignedPeerShareIntroduction
read bytes =
    let a = drop 1 bytes in
    let b = back a in
    let c = back b in
    let d = back c in
    let e = back d in
    let f = back e in
    let g = back f in
    record {
      introduction = record {
        consumer_device_public_key = front a;
        provider_device_public_key = front b;
        provider_instance_nonce = front c;
        provider_endpoint = front d;
        listener_transport = front e;
        listener_cert_fingerprint = front f;
        expires_at = get_or bytes 0 0;
      };
      server_signature = front g;
    }

abbrev json : Json
json = record {
  write_object = λ fields. concat (map (λ field. field.1) fields);
  write_claims = λ c. c.consumer_device_public_key;
  write_registration = write;
  read_registration = λ bytes. some (read bytes);
}

json-IsJson : IsJson json
json-IsJson = record { read_back = λ r. simp (take-append, drop-append) }

abbrev key : Text
key = replicate 32 7

abbrev ad : PeerShareAdvertisement
ad = record {
  version = 1;
  device_public_key = key;
  server_public_key = key;
  instance_nonce = ascii "n";
  endpoint = ascii "10.0.0.2:9";
  listener_cert_fingerprint = ascii "ff";
  capabilities = ascii "quic" ∷ ascii "x" ∷ [];
}

from_txt_record_map-txt_records_example : from_txt_record_map (txt_records ad) ≡ ok ad
from_txt_record_map-txt_records_example =
    from_txt_record_map-txt_records ad (omega arith) (ground arith, ground arith)

abbrev request : PeerShareIntroductionRequest
request = record {
  consumer_device_public_key = key;
  provider_device_public_key = key;
  provider_instance_nonce = ascii "n";
  provider_endpoint = ascii "10.0.0.2:9";
  listener_transport = ascii "quic";
  listener_cert_fingerprint = ascii "ff";
  consumer_signature = replicate 64 1;
}

abbrev store : AuthorizedKeysStore
store = (key, record { device_id = []; public_key = key; added_at = none }) ∷ []

introduction-Introduces_example :
    Introduces toy json
      (from_signing_key toy (replicate 32 4))
      1200
      ad
      (from_signing_key toy (replicate 32 3)).public_key_b64
      (peer_share_introduction_response toy json
        (from_signing_key toy (replicate 32 4))
        store
        1000
        (some request))
unfolding build_peer_introduction_request from_signing_key to_ascii_lowercase sign_bytes
    is_authorized contains_key lookup text_beq lacks_a_field
introduction-Introduces_example =
    introduction-Introduces toy json (replicate 32 3) (replicate 32 4) ad request store 1000 1200
      toy-IsEd25519 json-IsJson (omega arith) refl (omega arith) refl refl refl refl refl
      (omega arith) (omega arith)

abbrev signed : SignedPeerShareIntroduction
signed = record {
  introduction = record {
    consumer_device_public_key = ascii "c";
    provider_device_public_key = ascii "p";
    provider_instance_nonce = [];
    provider_endpoint = [];
    listener_transport = [];
    listener_cert_fingerprint = [];
    expires_at = 50;
  };
  server_signature = replicate 64 1;
}

abbrev identity : DeviceKeypair
identity = record { private_key_b64 = replicate 32 4; public_key_b64 = key }

abbrev relay_frame : SessionFrame
relay_frame = record {
  header = record { connection_id = 0; sequence = 0; flags = 4 };
  payload = write signed;
}

abbrev to_consumer : SessionBinding
to_consumer = record {
  client_public_key = ascii "c";
  initial_frame = none;
  relayed_via_provider = true;
}

resolve_session_binding-Binds_example :
    Binds toy json 40 relay_frame (ascii "p") identity to_consumer
unfolding resolve_session_binding bind_relay from_control_frame verify_relay_registration
    verify_signature is_registration text_beq
resolve_session_binding-Binds_example =
    resolve_session_binding-Binds toy json 40 relay_frame (ascii "p") identity to_consumer refl
