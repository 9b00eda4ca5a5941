-- ===== src/Bootstrap/Client.antt =====
-- The client's side of the bootstrap requests, crates/bonded-client/src/lib.rs: `build_http_request`,
-- `extract_http_json_body` and `split_host_port`.
use bonded.Prelude.Decimal.{print, parse}
use bonded.Prelude.Utf8.{is_utf8}
use bonded.Prelude.Texts.{lines, trim, contains, split_once, rsplit_once, split_once_text}
use bonded.Bootstrap.{terminator}
use bonded.Prelude.{
  ℕ, ◌^◌, Option, none, some, List, [], ◌∷◌, ◌++◌, Text, ascii, length, Outcome, ok, err, or_fail,
  ◌>>=◌, if◌then◌else◌, ◌==◌,
}

abbrev pub crlf : Text
crlf = 13 ∷ 10 ∷ []

abbrev pub request_line : Text → Text → Text
request_line method path = method ++ (32 ∷ path ++ ascii " HTTP/1.1")

abbrev pub host_line : Text → Text
host_line host = ascii "Host: " ++ host

unfoldable pub length_line : ℕ → Text
unfolding print
length_line n = ascii "Content-Length: " ++ print n

-- `build_http_request`.
unfoldable pub build_http_request : Text → Text → Text → Option Text → Text
unfolding length_line
build_http_request method host path (some body) =
    request_line method path
    ++ (crlf
        ++ (host_line host
            ++ (crlf
                ++ (ascii "Content-Type: application/json"
                    ++ (crlf
                        ++ (length_line (length body)
                            ++ (crlf ++ (ascii "Connection: close" ++ (terminator ++ body)))))))))
build_http_request method host path none =
    request_line method path
    ++ (crlf ++ (host_line host ++ (crlf ++ (ascii "Connection: close" ++ terminator))))

pub data ResponseError : Type 0 where
  not_utf8 missing_header_terminator missing_status_line : ResponseError
  request_failed : Text → Text → ResponseError

-- What the client takes from a response: its body, of a response with status 200.
unfoldable pub extract_http_json_body : List ℕ → Outcome ResponseError Text
unfolding is_utf8 split_once_text lines contains trim
extract_http_json_body raw =
    if is_utf8 raw
    then (elim (split_once_text terminator raw) [
      | none ↦ err missing_header_terminator
      | some (headers, body) ↦ elim (lines headers) [
        | [] ↦ err missing_status_line
        | status_line ∷ _ ↦
            if contains (ascii " 200 ") status_line
            then ok (trim body)
            else err (request_failed status_line body)
      ]
    ])
    else err not_utf8

pub data AddressError : Type 0 where
  invalid_bracketed_address missing_port not_host_port bad_port : AddressError

unfoldable pub parse_port : Text → Outcome AddressError ℕ
unfolding parse
parse_port text = or_fail (parse (2 ^ 16) text) bad_port

unfoldable pub with_port : Text → Text → Outcome AddressError (Text × ℕ)
unfolding parse_port
with_port host digits = do port ← parse_port digits; ok (host, port)

-- `split_host_port`, of `host:port` or `[host]:port`.
unfoldable pub split_bracketed : Text → Outcome AddressError (Text × ℕ)
unfolding split_once with_port
split_bracketed stripped = elim (split_once 93 stripped) [
  | none ↦ err invalid_bracketed_address
  | some (host, rest) ↦ elim rest [
    | [] ↦ err missing_port
    | c ∷ digits ↦ if c == 58 then with_port host digits else err missing_port
  ]
]

unfoldable pub split_plain_address : Text → Outcome AddressError (Text × ℕ)
unfolding rsplit_once with_port
split_plain_address address = elim (rsplit_once 58 address) [
  | none ↦ err not_host_port
  | some (host, digits) ↦ with_port host digits
]

unfoldable pub split_host_port : Text → Outcome AddressError (Text × ℕ)
unfolding split_bracketed split_plain_address
split_host_port [] = err not_host_port
split_host_port (c ∷ cs) = if c == 91 then split_bracketed cs else split_plain_address (c ∷ cs)
