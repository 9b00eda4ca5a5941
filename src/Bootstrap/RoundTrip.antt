-- ===== src/Bootstrap/RoundTrip.antt =====
-- A client's request through the server's reading, and the server's answer back at the client.
use bonded.Prelude.Utf8.{is_utf8}
use bonded.Prelude.Texts.{trim}
use bonded.Bootstrap.{
  StatusCode, chunk, terminator, max_header_bytes, parse_request_parts, parse_host_header,
  is_websocket_upgrade, content_length_of, read_until_end_of_headers,
}
use bonded.Bootstrap.Client.{
  length_line, build_http_request, extract_http_json_body, request_failed,
}
use bonded.Bootstrap.Answer.{
  status_line, rest_response, Respond, answered, answer_parts, answer_request, dispatch,
  handle_plain_connection,
}
use bonded.Bootstrap.Response.{AreReasons, is_ok, rest_response-extract}
use bonded.Bootstrap.Headers.{lines_before, lines_before-append}
use bonded.Bootstrap.Request.{IsWord, IsHost, length_line_in, length-length_line}
use bonded.Bootstrap.Reading.{AllGive, read_until_end_of_headers-whole}
use bonded.Bootstrap.Parsed.{
  LineFit, head_lines, request_of, terminator_found, content_length_parsed, host_parsed,
  parts_parsed,
}
use bonded.Prelude.{
  ℕ, ◌+◌, ◌≤◌, ◌<◌, ◌^◌, ◌≡◌, refl, sym, ap, ◌∙◌, true, false, Option, none, some, List, [], ◌∷◌,
  ◌++◌, Text, text_beq, ascii, length, length-append, map, concat, All, find_map, arith, ok, err,
  if◌then◌else◌,
}

-- What the request carries as its body.
abbrev pub body_text : Option Text → Text
body_text none = []
body_text (some body) = body

abbrev last_line : Text
last_line = ascii "Connection: close"

-- The header lines after the host's.
abbrev pub more_lines : Option Text → List Text
more_lines none = []
more_lines (some body) = ascii "Content-Type: application/json" ∷ length_line (length body) ∷ []

abbrev pub head_of : Text → Text → Text → Option Text → Text
head_of method host path body =
    lines_before (head_lines method path host (more_lines body)) last_line

build_http_request-request_of :
    (method host path : Text) (body : Option Text)
    → build_http_request method host path body
      ≡ request_of (head_lines method path host (more_lines body)) last_line (body_text body)
unfolding build_http_request
build_http_request-request_of method host path none =
    lines_before-append (head_lines method path host []) last_line terminator
build_http_request-request_of method host path (some body) =
    lines_before-append (head_lines method path host (more_lines (some body))) last_line
      (terminator ++ body)

last-LineFit : LineFit last_line
last-LineFit = ground arith

more-LineFit : (body : Option Text) → All LineFit (more_lines body)
unfolding length_line
more-LineFit none = tt
more-LineFit (some body) = (ground arith, ((omega arith, length_line_in (length body)), tt))

announced :
    (body : Option Text)
    → length (body_text body) < 2 ^ 64
    → (elim (find_map content_length_of (more_lines body ++ last_line ∷ [])) [
      | none ↦ 0
      | some n ↦ n
    ])
      ≡ length (body_text body)
unfolding content_length_of text_beq
announced none b = refl
announced (some body) b = rw (length-length_line (length body) b, find_map) refl

-- A request that the client builds is read whole by the server, in however many pieces it comes, and
-- taken apart again into the client's method, path, body and host. (The method and the path are ASCII
-- without spaces, colons and line ends; the host is ASCII of one line, trimmed and not empty; the body
-- is UTF-8 text; the head fits the limit, the request is shorter than 2^64 bytes, and no read gives
-- nothing.)
pub build_http_request-read :
    (method host path : Text) (body : Option Text) (chunks : List (List ℕ))
    → IsWord method
    → IsWord path
    → IsHost host
    → is_utf8 (body_text body) ≡ true
    → length (head_of method host path body) + 4 ≤ max_header_bytes
    → length (build_http_request method host path body) < 2 ^ 64
    → AllGive chunks
    → concat chunks ≡ build_http_request method host path body
    → let whole = build_http_request method host path body in
      (read_until_end_of_headers (map chunk chunks) ≡ (ok (whole, is_websocket_upgrade whole), []))
      × (parse_request_parts whole ≡ (method, path, body_text body))
      × (parse_host_header whole ≡ some host)
build_http_request-read method host path body chunks m p h valid fits small give e =
    let ls = head_lines method path host (more_lines body) in
    let head = lines_before ls last_line in
    let text = body_text body in
    let fit = more-LineFit body in
    let built = build_http_request-request_of method host path body in
    let size = length-append head (terminator ++ text) in
    let whole_size : length (build_http_request method host path body)
        ≡ length (head ++ (terminator ++ text)) =
      ap length built in
    let promised =
      content_length_parsed method path host (more_lines body) last_line text m p h fit last-LineFit
      ∙ announced body (omega arith) in
    let found =
      terminator_found method path host (more_lines body) last_line text m p h fit last-LineFit in
    let read =
      read_until_end_of_headers-whole head text chunks found promised fits (omega arith) give
        (e ∙ built) in
    (
      read ∙ ap (λ w. (ok (w, is_websocket_upgrade w), [])) (sym built),
      ap parse_request_parts built
          ∙ parts_parsed method path host (more_lines body) last_line text m p h fit last-LineFit
              valid,
      ap parse_host_header built
          ∙ host_parsed method path host (more_lines body) last_line text m p h fit last-LineFit,
    )

answered_with :
    (canonical_reason : StatusCode → Option Text) (respond : Respond) (whole : List ℕ)
    (method path body : Text) (host : Option Text)
    → parse_request_parts whole ≡ (method, path, body)
    → parse_host_header whole ≡ host
    → answer_request canonical_reason respond whole
      ≡ rest_response canonical_reason
          (respond method path body host).0
          (respond method path body host).1
unfolding answer_request answer_parts
answered_with canonical_reason respond whole method path body host parts named =
    ap (λ p. answer_parts canonical_reason respond p (parse_host_header whole)) parts
    ∙ ap (answer_parts canonical_reason respond (method, path, body)) named

-- A client that sends a request over a connection and reads the answer to its end gets the trimmed body
-- that the server's handler responds with to the client's own method, path, body and host where the
-- status is 200, and otherwise an error with the status line and the body. (Conditions as for the
-- reading of a request; the request is not taken for a WebSocket's; the reason phrases are lines of
-- ASCII without the digit 2, and the handler's body is UTF-8.)
pub handle_plain_connection-extract :
    (canonical_reason : StatusCode → Option Text) (respond : Respond) (method host path : Text)
    (body : Option Text) (chunks : List (List ℕ))
    → AreReasons canonical_reason
    → IsWord method
    → IsWord path
    → IsHost host
    → is_utf8 (body_text body) ≡ true
    → length (head_of method host path body) + 4 ≤ max_header_bytes
    → length (build_http_request method host path body) < 2 ^ 64
    → AllGive chunks
    → concat chunks ≡ build_http_request method host path body
    → is_websocket_upgrade (build_http_request method host path body) ≡ false
    → is_utf8 (respond method path (body_text body) (some host)).1 ≡ true
    → let (code, response) = respond method path (body_text body) (some host) in
      (answer : List ℕ) × (handle_plain_connection canonical_reason respond (map chunk chunks)
        ≡ answered answer)
      × (extract_http_json_body answer ≡ (
          if is_ok code
          then ok (trim response)
          else err (request_failed (status_line canonical_reason code) response)))
unfolding handle_plain_connection dispatch answer_request
handle_plain_connection-extract canonical_reason respond method host path body chunks reasons m p h
      valid fits small give e plain v =
    let whole = build_http_request method host path body in
    let (read, parts, named) =
      build_http_request-read method host path body chunks m p h valid fits small give e in
    let (code, response) = respond method path (body_text body) (some host) in
    (
      rest_response canonical_reason code response,
      ap (dispatch canonical_reason respond) read
          ∙ ap (λ b. dispatch canonical_reason respond (ok (whole, b), [])) plain
          ∙ ap answered (
              answered_with canonical_reason respond whole method path (body_text body) (some host)
                parts named),
      rest_response-extract canonical_reason code response reasons v,
    )
