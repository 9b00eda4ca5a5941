-- ===== src/Bootstrap/Answer.antt =====
-- How a bootstrap connection is answered: `handle_rest_request`, `handle_plain_connection` and
-- `handle_tls_stream` of crates/bonded-server/src/bootstrap.rs.
use bonded.Prelude.Decimal.{print}
use bonded.Bootstrap.{
  StatusCode, as_u16, terminator, Read, HttpError, parse_request_parts, parse_host_header,
  read_until_end_of_headers,
}
use bonded.Prelude.{
  ℕ, Bool, true, false, Option, none, some, List, ◌∷◌, ◌++◌, Text, ascii, length, Outcome, ok, err,
}
use bonded.Bootstrap.Client.{crlf}

-- What `handle_rest_request` writes. `canonical_reason` is the `http` library's.
unfoldable pub reason_of : (StatusCode → Option Text) → StatusCode → Text
reason_of canonical_reason status = elim (canonical_reason status) [
  | none ↦ ascii "Unknown"
  | some reason ↦ reason
]

unfoldable pub status_line : (StatusCode → Option Text) → StatusCode → Text
unfolding reason_of as_u16 print
status_line canonical_reason status =
    ascii "HTTP/1.1 " ++ (print (as_u16 status) ++ 32 ∷ reason_of canonical_reason status)

unfoldable pub rest_response : (StatusCode → Option Text) → StatusCode → Text → Text
unfolding status_line print
rest_response canonical_reason status body =
    status_line canonical_reason status
    ++ (crlf
        ++ (ascii "content-type: application/json"
            ++ (crlf
                ++ ((ascii "content-length: " ++ print (length body))
                    ++ (crlf ++ (ascii "connection: close" ++ (terminator ++ body)))))))

-- What becomes of a connection: it goes on as a WebSocket with the bytes read put back, it is answered,
-- or it fails. `handle_plain_connection` and `handle_tls_stream`, on the reads of a stream.
pub data Connection : Type 0 where
  upgraded : List ℕ → List Read → Connection
  answered : List ℕ → Connection
  failed : HttpError → Connection

-- The status and the body for a method, a path, a body and the requested host.
abbrev pub Respond : Type 0
Respond = Text → Text → Text → Option Text → StatusCode × Text

unfoldable pub answer_parts :
    (StatusCode → Option Text) → Respond → Text × Text × Text → Option Text → List ℕ
unfolding rest_response
answer_parts canonical_reason respond (method, path, body) host =
    let (code, response) = respond method path body host in
    rest_response canonical_reason code response

unfoldable pub answer_request : (StatusCode → Option Text) → Respond → List ℕ → List ℕ
unfolding parse_request_parts parse_host_header answer_parts
answer_request canonical_reason respond request =
    answer_parts canonical_reason respond (parse_request_parts request) (parse_host_header request)

unfoldable pub dispatch :
    (StatusCode → Option Text)
    → Respond
    → Outcome HttpError (List ℕ × Bool) × List Read
    → Connection
unfolding answer_request
dispatch canonical_reason respond (err e, left) = failed e
dispatch canonical_reason respond (ok (request, true), left) = upgraded request left
dispatch canonical_reason respond (ok (request, false), left) =
    answered (answer_request canonical_reason respond request)

unfoldable pub handle_plain_connection :
    (StatusCode → Option Text) → Respond → List Read → Connection
unfolding read_until_end_of_headers dispatch
handle_plain_connection canonical_reason respond reads =
    dispatch canonical_reason respond (read_until_end_of_headers reads)
