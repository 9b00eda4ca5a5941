-- ===== src/Bootstrap/Tests.antt =====
-- The bootstrap service at concrete requests.
use bonded.Auth.Signature.{Ed25519, IsEd25519, from_signing_key, verify_signature}
use bonded.Auth.Signature.Verify.{Verified}
use bonded.Prelude.Map.{lookup}
use bonded.Prelude.Utf8.{is_utf8}
use bonded.Prelude.Texts.{trim}
use bonded.Peers.{new_with_lease}
use bonded.Bootstrap.{
  chunk, StatusCode, status_ok, is_websocket_upgrade, parse_request_parts, parse_host_header,
}
use bonded.Bootstrap.Client.{build_http_request, extract_http_json_body, split_host_port}
use bonded.Bootstrap.Answer.{Respond, answered, handle_plain_connection, reason_of}
use bonded.Bootstrap.Response.{AreReasons}
use bonded.Bootstrap.Addresses.{host_port, bracketed_host_port, split_host_port-host_port}
use bonded.Bootstrap.RoundTrip.{handle_plain_connection-extract}
use bonded.Bootstrap.CertProof.{
  compute_fingerprint, cert_proof, verify_cert_proof_response, pinned,
  verify_cert_proof_response-Verified, cert_proof-verify_cert_proof_response,
}
use bonded.Bootstrap.Routes.{BootstrapContext, AdvertisedBootstrapEndpoints}
use bonded.Bootstrap.Handlers.{Environment, route_bootstrap_request, post}
use bonded.Bootstrap.Leasing.{Asks, LacksSomething, Answers, route_bootstrap_request-leases}
use bonded.Bootstrap.Provisioning.{AreLeased}
use bonded.Prelude.{
  ◌⊎◌, ℕ, ◌≡◌, refl, List, [], ◌∷◌, ◌++◌, map, some, none, ok, true, arith, replicate, Text, ascii,
  take, drop, Option, text_beq,
}

abbrev peer_path : Text
peer_path = ascii "/v1"

abbrev server_host : Text
server_host = ascii "a:8443"

-- A body whose second line looks like a header is taken for an upgrade.
abbrev sly_body : Text
sly_body = 123 ∷ 10 ∷ ascii "Upgrade: websocket"

sly_upgrade :
    is_websocket_upgrade (build_http_request post server_host peer_path (some sly_body)) ≡ true
unfolding is_websocket_upgrade build_http_request text_beq
sly_upgrade = refl

abbrev small_request : Text
small_request = build_http_request post server_host peer_path (some (ascii "{}"))

small_read :
    let whole = small_request in
    (parse_request_parts whole ≡ (post, peer_path, ascii "{}"))
    × (parse_host_header whole ≡ some server_host)
unfolding build_http_request parse_request_parts parse_host_header text_beq
small_read = (refl, refl)

abbrev pieces : List (List ℕ)
pieces = take 10 small_request ∷ drop 10 small_request ∷ []

-- Echoes the body in spaces.
abbrev echo : Respond
echo method path body host = (status_ok, 32 ∷ body ++ 32 ∷ [])

abbrev short_reasons : StatusCode → Option Text
short_reasons code = some (ascii "OK")

short_reasons-AreReasons : AreReasons short_reasons
unfolding reason_of
short_reasons-AreReasons code = ground arith

handle_plain_connection-extract_example :
    (answer : List ℕ) × (handle_plain_connection short_reasons echo (map chunk pieces)
      ≡ answered answer)
    × (extract_http_json_body answer ≡ ok (trim (ascii " {} ")))
unfolding build_http_request is_utf8 trim is_websocket_upgrade text_beq
handle_plain_connection-extract_example =
    handle_plain_connection-extract short_reasons echo post server_host peer_path
      (some (ascii "{}")) pieces short_reasons-AreReasons (ground arith) (ground arith)
      (ground arith) refl (omega arith) (omega arith) (ground arith) refl refl refl

split_host_port-host_port_example :
    (split_host_port (host_port (ascii "fe80::1") 8443) ≡ ok (ascii "fe80::1", 8443))
    × (split_host_port (bracketed_host_port (ascii "fe80::1") 8443) ≡ ok (ascii "fe80::1", 8443))
split_host_port-host_port_example =
    split_host_port-host_port (ascii "fe80::1") 8443 (omega arith) refl (ground arith)

abbrev toy : Ed25519
toy = record {
  standard_encode = λ bs. bs;
  standard_decode = λ t. some t;
  url_safe_encode = λ bs. bs;
  url_safe_decode = λ t. some t;
  verifying_key = λ k. replicate 32 7;
  is_point = λ k. true;
  sign = λ k m. replicate 64 1;
  verify = λ k m s. true;
}

toy-IsEd25519 : IsEd25519 toy
toy-IsEd25519 = record {
  standard_inverse = λ bs h. refl;
  url_safe_inverse = λ bs h. refl;
  key_bytes = λ k. omega arith;
  key_length = λ k. refl;
  key_point = λ k. refl;
  signature_bytes = λ k m. omega arith;
  signature_length = λ k m. refl;
  signature_valid = λ k m. refl;
}

abbrev same_bytes : List ℕ → List ℕ
same_bytes bytes = bytes

abbrev small_der : List ℕ
small_der = 48 ∷ 130 ∷ []

cert_proof-verify_cert_proof_response_example :
    let identity = from_signing_key toy (replicate 32 5) in
    (fingerprint : Text) × (signature : Text) × (cert_proof toy same_bytes identity (some small_der)
      ≡ some (ok (fingerprint, signature)))
    × (verify_cert_proof_response toy same_bytes small_der identity.public_key_b64
          (some (some fingerprint, some signature))
        ≡ ok fingerprint)
cert_proof-verify_cert_proof_response_example =
    cert_proof-verify_cert_proof_response toy same_bytes (replicate 32 5) small_der toy-IsEd25519
      (omega arith) refl

verify_cert_proof_response-Verified_example :
    let f = compute_fingerprint same_bytes small_der in
    (compute_fingerprint same_bytes small_der ≡ f)
    × Verified toy (replicate 32 7) f (replicate 64 1)
    × (pinned toy same_bytes f small_der ≡ true)
unfolding verify_cert_proof_response compute_fingerprint text_beq verify_signature
verify_cert_proof_response-Verified_example =
    verify_cert_proof_response-Verified toy same_bytes small_der (replicate 32 7)
      (compute_fingerprint same_bytes small_der) (compute_fingerprint same_bytes small_der)
      (replicate 64 1) refl

abbrev small_context : BootstrapContext
small_context = record {
  server_identity = from_signing_key toy (replicate 32 5);
  tls_cert_der = some small_der;
  server_public_address = server_host;
  wireguard_public_key = some (ascii "wg");
  wireguard_peers = some (new_with_lease 60);
  wireguard_public_addr = none;
  wireguard_peer_lease_secs = 60;
  authorized_keys = [];
}

abbrev small_env : Environment
small_env = record {
  ed25519 = toy;
  sha256 = same_bytes;
  json = record {
    write_object = λ fields. [];
    write_claims = λ r. [];
    write_registration = λ r. [];
    read_registration = λ b. none;
  };
  requests = record {
    read_provisioning = λ t. some (ascii "phone", ascii "key");
    read_introduction = λ t. none;
  };
  authority = λ t. none;
  writable = true;
  now = 1000;
}

new-AreLeased : AreLeased small_context.wireguard_peers
unfolding new_with_lease lookup
new-AreLeased = record { keyed = tt; distinct = λ k j p q h g e. ground arith }

abbrev asked_path : Text
asked_path = ascii "/v1/bootstrap/wireguard/peer?retry=1"

route_bootstrap_request-leases_example :
    let h = route_bootstrap_request small_env post asked_path (ascii "{}") small_context none in
    (((asks : Asks small_env post asked_path (ascii "{}") small_context) × Answers small_env post
          asked_path
          (ascii "{}")
          small_context
          asks
          h)
      ⊎ (LacksSomething small_env post asked_path (ascii "{}") small_context
          × (h.1 ≡ small_context)))
    × AreLeased h.1.wireguard_peers
route_bootstrap_request-leases_example =
    route_bootstrap_request-leases small_env post asked_path (ascii "{}") small_context none
      new-AreLeased

small_endpoints : AdvertisedBootstrapEndpoints
small_endpoints = record { server_public_address = server_host; wireguard_public_addr = none }
