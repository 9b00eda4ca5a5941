-- ===== src/Bootstrap/Response.antt =====
-- The server's answers at the client.
use bonded.Prelude.Decimal.{print, print-IsDigits}
use bonded.Prelude.Utf8.{is_utf8, is_utf8-append}
use bonded.Prelude.Texts.{trim, find_text, starts_with, contains, split_once_text, lines, Lacks}
use bonded.Bootstrap.{
  terminator, StatusCode, as_u16, status_ok, bad_request, unauthorized, forbidden, not_found,
  internal_server_error, not_implemented,
}
use bonded.Bootstrap.Answer.{reason_of, status_line, rest_response}
use bonded.Bootstrap.Client.{extract_http_json_body, request_failed}
use bonded.Bootstrap.Headers.{
  lines_before, IsLine, lines_before-append, lines-lines_before, find_terminator,
}
use bonded.Bootstrap.Request.{InLine}
use bonded.Bootstrap.Parsed.{LineFit, fit-IsLine, head-IsAscii, request_of, body_dropped}
use bonded.Prelude.{
  ℕ, ◌≤◌, ◌≡◌, refl, sym, ap, ◌∙◌, Bool, true, false, Option, none, some, List, [], ◌∷◌, ◌++◌, Text,
  ascii, length, take-append, All, All-append, All-weaken, arith, ok, err, ◌==◌, if◌then◌else◌,
}

-- What the `http` library documents of its reason phrases, as far as it is used: one line of ASCII
-- without digits.
abbrev pub AreReasons : (StatusCode → Option Text) → Type 0
AreReasons canonical_reason =
    (code : StatusCode)
    → All InLine (reason_of canonical_reason code) × Lacks 50 (reason_of canonical_reason code)

not_200 : (s : Text) → Lacks 50 s → starts_with (ascii "200 ") s ≡ false
unfolding starts_with
not_200 [] w = refl
not_200 (c ∷ cs) w = ground arith

no_200 : (s : Text) → Lacks 50 s → find_text (ascii " 200 ") s ≡ none
unfolding find_text starts_with
no_200 [] w = refl
no_200 (c ∷ cs) w = let here = not_200 cs w.1 in let later = no_200 cs w.1 in ground arith

-- Which statuses the client takes.
abbrev pub is_ok : StatusCode → Bool
is_ok status_ok = true
is_ok bad_request = false
is_ok unauthorized = false
is_ok forbidden = false
is_ok not_found = false
is_ok internal_server_error = false
is_ok not_implemented = false

unseen :
    (a b c : ℕ) (r : Text)
    → (50 == a) ≡ false
    → (32 == a) ≡ false
    → (32 == b) ≡ false
    → (32 == c) ≡ false
    → Lacks 50 r
    → contains (ascii " 200 ") (ascii "HTTP/1.1 " ++ a ∷ b ∷ c ∷ 32 ∷ r) ≡ false
unfolding contains find_text starts_with
unseen a b c r ha ha' hb hc w = let here = not_200 r w in let later = no_200 r w in ground arith

status_seen :
    (canonical_reason : StatusCode → Option Text) (code : StatusCode)
    → AreReasons canonical_reason
    → contains (ascii " 200 ") (status_line canonical_reason code) ≡ is_ok code
unfolding contains status_line
status_seen canonical_reason status_ok w = refl
status_seen canonical_reason bad_request w =
    unseen 52 48 48 (reason_of canonical_reason bad_request) refl refl refl refl (w bad_request).1
status_seen canonical_reason unauthorized w =
    unseen 52 48 49 (reason_of canonical_reason unauthorized) refl refl refl refl (w unauthorized).1
status_seen canonical_reason forbidden w =
    unseen 52 48 51 (reason_of canonical_reason forbidden) refl refl refl refl (w forbidden).1
status_seen canonical_reason not_found w =
    unseen 52 48 52 (reason_of canonical_reason not_found) refl refl refl refl (w not_found).1
status_seen canonical_reason internal_server_error w =
    unseen 53 48 48 (reason_of canonical_reason internal_server_error) refl refl refl refl
      (w internal_server_error).1
status_seen canonical_reason not_implemented w =
    unseen 53 48 49 (reason_of canonical_reason not_implemented) refl refl refl refl
      (w not_implemented).1

in_digits : (n : ℕ) → All InLine (print n)
in_digits n =
    All-weaken (λ c. (48 ≤ c) × (c ≤ 57)) InLine (print n) (λ c d. ground arith) (print-IsDigits n)

status_line_fit :
    (canonical_reason : StatusCode → Option Text) (code : StatusCode)
    → AreReasons canonical_reason
    → LineFit (status_line canonical_reason code)
unfolding status_line
status_line_fit canonical_reason code w =
    let digits =
      All-append InLine (print (as_u16 code)) (32 ∷ reason_of canonical_reason code)
        (in_digits (as_u16 code)) (ground arith, (w code).0) in
    (
      omega arith,
      All-append InLine (ascii "HTTP/1.1 ")
          (print (as_u16 code) ++ 32 ∷ reason_of canonical_reason code) (ground arith) digits,
    )

-- The header lines of an answer.
abbrev answer_lines : (StatusCode → Option Text) → StatusCode → Text → List Text
answer_lines canonical_reason code body =
    status_line canonical_reason code
    ∷ ascii "content-type: application/json"
    ∷ (ascii "content-length: " ++ print (length body))
    ∷ []

answer_lines-LineFit :
    (canonical_reason : StatusCode → Option Text) (code : StatusCode) (body : Text)
    → AreReasons canonical_reason
    → All LineFit (answer_lines canonical_reason code body)
answer_lines-LineFit canonical_reason code body w = (
  status_line_fit canonical_reason code w,
  (
    ground arith,
    (
      (
        omega arith,
        All-append InLine (ascii "content-length: ") (print (length body)) (ground arith)
            (in_digits (length body)),
      ),
      tt,
    ),
  ),
)

rest_response-request_of :
    (canonical_reason : StatusCode → Option Text) (code : StatusCode) (body : Text)
    → rest_response canonical_reason code body
      ≡ request_of (answer_lines canonical_reason code body) (ascii "connection: close") body
unfolding rest_response
rest_response-request_of canonical_reason code body =
    lines_before-append (answer_lines canonical_reason code body) (ascii "connection: close")
      (terminator ++ body)

extracted :
    (raw : List ℕ) (head body line : Text) (rest : List Text) (good : Bool)
    → is_utf8 raw ≡ true
    → split_once_text terminator raw ≡ some (head, body)
    → lines head ≡ line ∷ rest
    → contains (ascii " 200 ") line ≡ good
    → extract_http_json_body raw ≡ (if good then ok (trim body) else err (request_failed line body))
unfolding extract_http_json_body
extracted raw head body line rest good valid halves lined seen =
    rw (valid, extract_http_json_body) (rw halves (rw lined (rw seen refl)))

split_head :
    (head body : Text)
    → find_text terminator (head ++ (terminator ++ body)) ≡ some (length head)
    → split_once_text terminator (head ++ (terminator ++ body)) ≡ some (head, body)
unfolding split_once_text
split_head head body found =
    rw (found, split_once_text)
      (rw (take-append head (terminator ++ body), body_dropped head body) refl)

-- The client takes the trimmed body out of an answer of the server with status 200, and refuses every
-- other answer with its status line and its body. (The reason phrases are lines of ASCII without the
-- digit 2, and the body is UTF-8.)
pub rest_response-extract :
    (canonical_reason : StatusCode → Option Text) (code : StatusCode) (body : Text)
    → AreReasons canonical_reason
    → is_utf8 body ≡ true
    → extract_http_json_body (rest_response canonical_reason code body) ≡ (
        if is_ok code
        then ok (trim body)
        else err (request_failed (status_line canonical_reason code) body))
rest_response-extract canonical_reason code body w v =
    let ls = answer_lines canonical_reason code body in
    let last = ascii "connection: close" in
    let head = lines_before ls last in
    let fit = answer_lines-LineFit canonical_reason code body w in
    let end : LineFit (ascii "connection: close") = ground arith in
    let each = All-weaken LineFit IsLine ls fit-IsLine fit in
    let found : find_text terminator (head ++ (terminator ++ body)) ≡ some (length head) =
      ap (find_text terminator) (sym (lines_before-append ls last (terminator ++ body)))
      ∙ find_terminator ls last body each (fit-IsLine last end) in
    let valid =
      is_utf8-append head (terminator ++ body) (head-IsAscii ls last fit end)
      ∙ is_utf8-append terminator body (ground arith)
      ∙ v in
    ap extract_http_json_body (rest_response-request_of canonical_reason code body)
    ∙ extracted (head ++ (terminator ++ body)) head body (status_line canonical_reason code) _
        (is_ok code) valid (split_head head body found)
        (lines-lines_before ls last each (fit-IsLine last end))
        (status_seen canonical_reason code w)
