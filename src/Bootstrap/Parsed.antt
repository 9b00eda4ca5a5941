-- ===== src/Bootstrap/Parsed.antt =====
-- A request with a head of lines, as the server takes it apart.
use bonded.Prelude.Utf8.{is_utf8, IsAscii, is_utf8-append}
use bonded.Prelude.Texts.{find_text, lines, splitn, split_once-append}
use bonded.Bootstrap.{
  terminator, text_of, content_length_of, parse_content_length, parse_request_parts, body_of,
  authority_of, parse_host_header, find_header_terminator,
}
use bonded.Bootstrap.Client.{crlf, request_line, host_line}
use bonded.Bootstrap.Headers.{
  lines_before, IsLine, lines_before-append, lines-lines_before, first_line, find_terminator,
}
use bonded.Bootstrap.Request.{
  InLine, IsWord, IsHost, in-IsLine, in-IsAscii, request_line_in, host_line_in, value-request_line,
  other-host_line, authority-host_line, word-Lacks_space,
}
use mathlib.Core.List.{append_assoc, append-nil}
use bonded.Prelude.{
  ℕ, ◌+◌, ◌≤◌, ◌<◌, ◌≡◌, refl, sym, ap, ◌∙◌, true, none, some, List, [], ◌∷◌, ◌++◌, Text, ascii,
  length, length-append, take, drop, take-append, drop-append, All, All-append, All-weaken,
  find_map, arith,
}

abbrev pub LineFit : Text → Type 0
LineFit l = (1 ≤ length l) × All InLine l

pub fit-IsLine : (l : Text) → LineFit l → IsLine l
fit-IsLine l w = in-IsLine l w.0 w.1

pub head-IsAscii :
    (ls : List Text) (last : Text) → All LineFit ls → LineFit last → IsAscii (lines_before ls last)
head-IsAscii [] last w v = in-IsAscii last v.1
head-IsAscii (l ∷ ls) last w v =
    All-append (λ c. c < 128) l (crlf ++ lines_before ls last) (in-IsAscii l w.0.1)
      (omega arith, (omega arith, head-IsAscii ls last w.1 v))

-- What follows ASCII text is UTF-8 if the whole is.
text-append :
    (head rest : List ℕ)
    → IsAscii head
    → is_utf8 rest ≡ true
    → text_of (head ++ rest) ≡ head ++ rest
unfolding text_of
text-append head rest w v = rw (is_utf8-append head rest w, v, text_of) refl

text_alone : (head : List ℕ) → IsAscii head → (is_utf8 head ≡ true) × (text_of head ≡ head)
unfolding text_of is_utf8
text_alone head w =
    let v : is_utf8 head ≡ true = ap is_utf8 (sym (append-nil head)) ∙ is_utf8-append head [] w in
    (v, rw (v, text_of) refl)

no_length :
    (method path : Text)
    → IsWord method
    → IsWord path
    → content_length_of (request_line method path) ≡ none
unfolding content_length_of
no_length method path m p =
    rw (value-request_line (ascii "content-length") method path m p, content_length_of) refl

no_authority :
    (method path : Text)
    → IsWord method
    → IsWord path
    → authority_of (request_line method path) ≡ none
unfolding authority_of
no_authority method path m p =
    rw (value-request_line (ascii "host") method path m p, authority_of) refl

host_found :
    (line named : Text) (host : Text) (rest : List Text)
    → authority_of line ≡ none
    → authority_of named ≡ some host
    → find_map authority_of (line ∷ named ∷ rest) ≡ some host
host_found line named host rest no_host has = rw (no_host, has, find_map) refl

host_of :
    (request : List ℕ) (end : ℕ) (head : List ℕ) (ls : List Text) (host : Text)
    → find_text terminator request ≡ some end
    → take end request ≡ head
    → is_utf8 head ≡ true
    → lines head ≡ ls
    → find_map authority_of ls ≡ some host
    → parse_host_header request ≡ some host
unfolding parse_host_header find_header_terminator
host_of request end head ls host found taken valid lined named =
    rw (found, parse_host_header) (rw (taken, valid, lined) named)

parts_of :
    (bytes text line : List ℕ) (rest : List Text) (method path : Text) (more : List Text)
    (body : Text)
    → text_of bytes ≡ text
    → lines text ≡ line ∷ rest
    → splitn 3 32 line ≡ method ∷ path ∷ more
    → body_of text ≡ body
    → parse_request_parts bytes ≡ (method, path, body)
unfolding parse_request_parts
parts_of bytes text line rest method path more body decoded lined parted bodied =
    rw (decoded, parse_request_parts) (rw (lined, bodied) (rw parted refl))

body_found :
    (text : Text) (i : ℕ) (body : Text)
    → find_text terminator text ≡ some i
    → drop (i + 4) text ≡ body
    → body_of text ≡ body
unfolding body_of
body_found text i body found dropped = rw (found, body_of) dropped

pub body_dropped : (head body : Text) → drop (length head + 4) (head ++ (terminator ++ body)) ≡ body
body_dropped head body =
    let size : length head + 4 ≡ length (head ++ terminator) =
      omega (arith, length-append head terminator) in
    ap (drop (length head + 4)) (sym (append_assoc head terminator body))
    ∙ ap (λ n. drop n ((head ++ terminator) ++ body)) size
    ∙ drop-append (head ++ terminator) body

request_line_parts :
    (method path : Text)
    → IsWord method
    → IsWord path
    → splitn 3 32 (request_line method path) ≡ method ∷ path ∷ ascii "HTTP/1.1" ∷ []
unfolding splitn
request_line_parts method path m p =
    rw
      (
        split_once-append 32 method (path ++ ascii " HTTP/1.1") (word-Lacks_space method m),
        split_once-append 32 path (ascii "HTTP/1.1") (word-Lacks_space path p),
        splitn,
      )
      refl

abbrev pub head_lines : Text → Text → Text → List Text → List Text
head_lines method path host more = request_line method path ∷ host_line host ∷ more

abbrev pub request_of : List Text → Text → Text → Text
request_of ls last body = lines_before ls last ++ (terminator ++ body)

module _ (method path host : Text) (more : List Text) (last body : Text) (m : IsWord method)
    (p : IsWord path) (h : IsHost host) (fit : All LineFit more) (end : LineFit last) where
  head_fits : All LineFit (head_lines method path host more)
  head_fits = (
    (
      omega (arith, length-append method (32 ∷ path ++ ascii " HTTP/1.1")),
      request_line_in method path m p,
    ),
    ((omega arith, host_line_in host h), fit),
  )

  pub terminator_found :
      let head = lines_before (head_lines method path host more) last in
      find_text terminator (head ++ (terminator ++ body)) ≡ some (length head)
  terminator_found =
      let ls = head_lines method path host more in
      ap (find_text terminator) (sym (lines_before-append ls last (terminator ++ body)))
      ∙ find_terminator ls last body (All-weaken LineFit IsLine ls fit-IsLine head_fits)
          (fit-IsLine last end)

  lines_of_head :
      lines (lines_before (head_lines method path host more) last)
      ≡ head_lines method path host more ++ last ∷ []
  lines_of_head =
      let ls = head_lines method path host more in
      lines-lines_before ls last (All-weaken LineFit IsLine ls fit-IsLine head_fits)
        (fit-IsLine last end)

  pub content_length_parsed :
      parse_content_length (lines_before (head_lines method path host more) last)
      ≡ (elim (find_map content_length_of (more ++ last ∷ [])) [ none ↦ 0 | some n ↦ n ])
  unfolding parse_content_length
  content_length_parsed =
      let head = lines_before (head_lines method path host more) last in
      let (v, same) =
        text_alone head (head-IsAscii (head_lines method path host more) last head_fits end) in
      let first : content_length_of (request_line method path) ≡ none = no_length method path m p in
      rw (same, parse_content_length) (rw (lines_of_head, first, other-host_line host) refl)

  pub host_parsed :
      parse_host_header (request_of (head_lines method path host more) last body) ≡ some host
  host_parsed =
      let head = lines_before (head_lines method path host more) last in
      let (v, same) =
        text_alone head (head-IsAscii (head_lines method path host more) last head_fits end) in
      let first : authority_of (request_line method path) ≡ none = no_authority method path m p in
      let named =
        host_found (request_line method path) (host_line host) host (more ++ last ∷ []) first
          (authority-host_line host h) in
      host_of (request_of (head_lines method path host more) last body) (length head) head _ host
        terminator_found (take-append head (terminator ++ body)) v lines_of_head named

  pub parts_parsed :
      is_utf8 body ≡ true
      → parse_request_parts (request_of (head_lines method path host more) last body)
        ≡ (method, path, body)
  parts_parsed v =
      let ls = head_lines method path host more in
      let head = lines_before ls last in
      let rest = crlf ++ lines_before (host_line host ∷ more) last in
      let line = request_line method path in
      let (others, lined) =
        first_line line (lines_before (host_line host ∷ more) last ++ (terminator ++ body))
          (fit-IsLine line head_fits.0).2 in
      parts_of (request_of ls last body) (request_of ls last body) line others method path
        (ascii "HTTP/1.1" ∷ []) body
        (text-append head (terminator ++ body) (head-IsAscii ls last head_fits end)
          (is_utf8-append terminator body (ground arith) ∙ v))
        (ap lines (append_assoc line rest (terminator ++ body)) ∙ lined)
        (request_line_parts method path m p)
        (body_found (request_of ls last body) (length head) body terminator_found
          (body_dropped head body))
