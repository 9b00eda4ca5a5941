-- ===== src/Bootstrap.antt =====
-- The bootstrap service of crates/bonded-server/src/bootstrap.rs: how a connection's HTTP request is
-- read and taken apart. Texts are their UTF-8 bytes; white space at the ends of a header's parts is that
-- of ASCII.
pub mod Client
pub mod Answer
pub mod Addresses
pub mod Reading
pub mod Headers
pub mod Request
pub mod Parsed
pub mod Response
pub mod RoundTrip
pub mod CertProof
pub mod Routes
pub mod Handlers
pub mod Provisioning
pub mod Leasing
mod Tests
use bonded.Prelude.Decimal.{parse}
use bonded.Prelude.Utf8.{is_utf8}
use bonded.Prelude.Texts.{
  lines, trim, split_once, splitn, find_text, contains, starts_with, eq_ignore_ascii_case,
  to_ascii_lowercase,
}
use bonded.Prelude.{
  ℕ, suc, ◌+◌, ◌*◌, ◌%◌, ◌^◌, Bool, true, false, ◌&&◌, Option, none, some, List, [], ◌∷◌, ◌++◌,
  Text, ascii, length, take, drop, get_or, find_map, any, Outcome, ok, err, ltb, leb, if◌then◌else◌,
}

abbrev pub max_header_bytes : ℕ
max_header_bytes = 16 * 1024

-- What a read of the stream gives; at the end of a list of reads the peer has closed, and so it has
-- when a read gives nothing.
pub data Read : Type 0 where
  chunk : List ℕ → Read
  read_fails : Read

pub data HttpError : Type 0 where
  headers_exceeded error_reading_headers closed_in_headers missing_terminator : HttpError
  error_reading_body : HttpError
  closed_in_body : ℕ → HttpError

-- The statuses that the service answers with, by their numbers.
pub data StatusCode : Type 0 where
  status_ok bad_request unauthorized forbidden not_found internal_server_error not_implemented :
      StatusCode

unfoldable pub as_u16 : StatusCode → ℕ
as_u16 status_ok = 200
as_u16 bad_request = 400
as_u16 unauthorized = 401
as_u16 forbidden = 403
as_u16 not_found = 404
as_u16 internal_server_error = 500
as_u16 not_implemented = 501

abbrev pub terminator : List ℕ
terminator = 13 ∷ 10 ∷ 13 ∷ 10 ∷ []

unfoldable pub find_header_terminator : List ℕ → Option ℕ
find_header_terminator = find_text terminator

-- `from_utf8(bytes).unwrap_or("")`.
unfoldable pub text_of : List ℕ → Text
unfolding is_utf8
text_of bytes = if is_utf8 bytes then bytes else []

-- A header's trimmed value, if the line is this header.
unfoldable pub header_value : Text → Text → Option Text
unfolding split_once trim eq_ignore_ascii_case
header_value wanted line = elim (split_once 58 line) [
  | none ↦ none
  | some (name, value) ↦ if eq_ignore_ascii_case (trim name) wanted then some (trim value) else none
]

unfoldable pub content_length_of : Text → Option ℕ
unfolding header_value parse
content_length_of line = elim (header_value (ascii "content-length") line) [
  | none ↦ none
  | some value ↦ parse (2 ^ 64) value
]

unfoldable pub parse_content_length : List ℕ → ℕ
unfolding content_length_of text_of lines
parse_content_length headers = elim (find_map content_length_of (lines (text_of headers))) [
  | none ↦ 0
  | some n ↦ n
]

unfoldable pub upgrade_line : Text → Bool
unfolding to_ascii_lowercase starts_with contains
upgrade_line line =
    let lower = to_ascii_lowercase line in
    starts_with (ascii "upgrade:") lower && contains (ascii "websocket") lower

unfoldable pub is_websocket_upgrade : List ℕ → Bool
unfolding upgrade_line text_of lines
is_websocket_upgrade headers = any upgrade_line (lines (text_of headers))

unfoldable pub body_of : Text → Text
unfolding find_text
body_of text = elim (find_text terminator text) [ none ↦ [] | some i ↦ drop (i + 4) text ]

-- The method, the path and the body.
unfoldable pub parse_request_parts : List ℕ → Text × Text × Text
unfolding text_of lines splitn body_of
parse_request_parts headers =
    let text = text_of headers in
    let parts = splitn 3 32 (get_or (lines text) 0 []) in
    (get_or parts 0 (ascii "GET"), get_or parts 1 (ascii "/"), body_of text)

-- `Some(authority)` unless it is empty.
unfoldable pub authority_of : Text → Option Text
unfolding header_value
authority_of line = elim (header_value (ascii "host") line) [
  | none ↦ none
  | some authority ↦ elim authority [ [] ↦ none | c ∷ cs ↦ some (c ∷ cs) ]
]

unfoldable pub parse_host_header : List ℕ → Option Text
unfolding find_header_terminator authority_of lines is_utf8
parse_host_header request = elim (find_header_terminator request) [
  | none ↦ none
  | some header_end ↦
      let headers = take header_end request in
      if is_utf8 headers then find_map authority_of (lines headers) else none
]

-- The first loop of `read_until_end_of_headers`: the bytes read once the terminator is among them, and
-- the reads that are left.
unfoldable pub read_headers : List ℕ → List Read → Outcome HttpError (List ℕ) × List Read
unfolding contains
read_headers buf [] =
    (err (if leb max_header_bytes (length buf) then headers_exceeded else closed_in_headers), [])
read_headers buf (read_fails ∷ reads) =
    if leb max_header_bytes (length buf)
    then (err headers_exceeded, read_fails ∷ reads)
    else (err error_reading_headers, reads)
read_headers buf (chunk [] ∷ reads) =
    if leb max_header_bytes (length buf)
    then (err headers_exceeded, chunk [] ∷ reads)
    else (err closed_in_headers, reads)
read_headers buf (chunk (b ∷ bs) ∷ reads) =
    let read = buf ++ b ∷ bs in
    let later = read_headers read reads in
    if leb max_header_bytes (length buf)
    then (err headers_exceeded, chunk (b ∷ bs) ∷ reads)
    else if contains terminator read
    then (ok read, reads)
    else later

-- The second loop: reads up to the end of the body.
unfoldable pub read_body : ℕ → ℕ → List ℕ → List Read → Outcome HttpError (List ℕ) × List Read
read_body content_length target_len buf [] =
    if ltb (length buf) target_len then (err (closed_in_body content_length), []) else (ok buf, [])
read_body content_length target_len buf (read_fails ∷ reads) =
    if ltb (length buf) target_len
    then (err error_reading_body, reads)
    else (ok buf, read_fails ∷ reads)
read_body content_length target_len buf (chunk [] ∷ reads) =
    if ltb (length buf) target_len
    then (err (closed_in_body content_length), reads)
    else (ok buf, chunk [] ∷ reads)
read_body content_length target_len buf (chunk (b ∷ bs) ∷ reads) =
    let later = read_body content_length target_len (buf ++ b ∷ bs) reads in
    if ltb (length buf) target_len then later else (ok buf, chunk (b ∷ bs) ∷ reads)

-- The end of the request wraps around where it overflows.
unfoldable pub read_rest : List ℕ → List Read → Outcome HttpError (List ℕ) × List Read
unfolding find_header_terminator parse_content_length read_body
read_rest buf reads = elim (find_header_terminator buf) [
  | none ↦ (err missing_terminator, reads)
  | some header_end ↦
      let content_length = parse_content_length (take header_end buf) in
      read_body content_length ((header_end + 4 + content_length) % 2 ^ 64) buf reads
]

unfoldable pub mark_upgrade :
    Outcome HttpError (List ℕ) × List Read → Outcome HttpError (List ℕ × Bool) × List Read
unfolding is_websocket_upgrade
mark_upgrade (err e, reads) = (err e, reads)
mark_upgrade (ok whole, reads) = (ok (whole, is_websocket_upgrade whole), reads)

unfoldable pub then_rest :
    Outcome HttpError (List ℕ) × List Read → Outcome HttpError (List ℕ × Bool) × List Read
unfolding read_rest mark_upgrade
then_rest (err e, reads) = (err e, reads)
then_rest (ok buf, reads) = mark_upgrade (read_rest buf reads)

-- The bytes read and whether they ask for a WebSocket, and the reads that are left.
unfoldable pub read_until_end_of_headers : List Read → Outcome HttpError (List ℕ × Bool) × List Read
unfolding read_headers then_rest
read_until_end_of_headers reads = then_rest (read_headers [] reads)
