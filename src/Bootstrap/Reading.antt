-- ===== src/Bootstrap/Reading.antt =====
-- Reading a request that comes in any number of pieces.
use bonded.Prelude.Texts.{find_text, contains, find_text-append, find_text-le, find_text_short}
use bonded.Bootstrap.{
  Read, chunk, HttpError, terminator, max_header_bytes, find_header_terminator,
  parse_content_length, is_websocket_upgrade, read_headers, read_body, read_rest, mark_upgrade,
  then_rest, read_until_end_of_headers,
}
use mathlib.Core.List.{append_assoc, append-nil}
use bonded.Prelude.{
  ℕ, ◌+◌, ◌≤◌, ◌<◌, ◌%◌, ◌^◌, ◌≡◌, refl, sym, ap, ◌∙◌, true, false, some, List, [], ◌∷◌, ◌++◌, map,
  concat, length, length-append, take, take-append, take-append_left, All, arith, Bool-cases,
  Option-cases, inl, inr, Outcome, ok, leb, ltb,
}

-- No read gives nothing.
abbrev pub AllGive : List (List ℕ) → Type 0
AllGive = All (λ c. 1 ≤ length c)

-- What the first loop leaves: the terminator is read, and the rest of the request is to come.
record Headers (whole : List ℕ) (h : ℕ) (r : Outcome HttpError (List ℕ) × List Read) : Type 0 where
  buf : List ℕ
  chunks : List (List ℕ)
  result : r ≡ (ok buf, map chunk chunks)
  rest : buf ++ concat chunks ≡ whole
  found : find_text terminator buf ≡ some h
  give : AllGive chunks

found_contains : (p s : List ℕ) → contains p s ≡ true → (i : ℕ) × (find_text p s ≡ some i)
unfolding contains
found_contains p s h = elim (Option-cases (find_text p s)) [
  | inl nowhere ↦ absurd (ground arith)
  | inr found ↦ found
]

same_place :
    (buf t : List ℕ) (whole : List ℕ) (h : ℕ)
    → buf ++ t ≡ whole
    → find_text terminator whole ≡ some h
    → contains terminator buf ≡ true
    → find_text terminator buf ≡ some h
same_place buf t whole h e f c =
    let (i, here) = found_contains terminator buf c in
    let there = find_text-append terminator buf t i here in
    let both : find_text terminator (buf ++ t) ≡ some h = ap (find_text terminator) e ∙ f in
    grind arith

not_yet :
    (buf t whole : List ℕ) (h : ℕ)
    → buf ++ t ≡ whole
    → find_text terminator whole ≡ some h
    → contains terminator buf ≡ false
    → length buf < h + 4
unfolding contains
not_yet buf t whole h e f c =
    let both : find_text terminator (buf ++ t) ≡ some h = ap (find_text terminator) e ∙ f in
    let short = find_text_short terminator buf t h both in ground arith

read_headers-Headers :
    (buf : List ℕ) (chunks : List (List ℕ)) (whole : List ℕ) (h : ℕ)
    → AllGive chunks
    → buf ++ concat chunks ≡ whole
    → find_text terminator whole ≡ some h
    → h + 4 ≤ max_header_bytes
    → contains terminator buf ≡ false
    → Headers whole h (read_headers buf (map chunk chunks))
unfolding read_headers
read_headers-Headers buf [] whole h give e f m c =
    let short = not_yet buf [] whole h e f c in
    let long = find_text-le terminator whole h f in
    let all : length whole ≡ length buf = ap length (sym e ∙ append-nil buf) in absurd (omega arith)
read_headers-Headers buf ([] ∷ chunks) whole h give e f m c = absurd (ground arith)
read_headers-Headers buf ((b ∷ bs) ∷ chunks) whole h give e f m c =
    let short = not_yet buf _ whole h e f c in
    let read = buf ++ b ∷ bs in
    let same : read ++ concat chunks ≡ whole = append_assoc buf (b ∷ bs) (concat chunks) ∙ e in
    let fits : leb max_header_bytes (length buf) ≡ false = ground arith in
    elim (Bool-cases (contains terminator read)) [
      | inl there ↦ record {
        buf = read;
        chunks = chunks;
        result = ground arith;
        rest = same;
        found = same_place read (concat chunks) whole h same f there;
        give = give.1;
      }
      | inr more ↦
          let later = read_headers-Headers read chunks whole h give.1 same f m more in
          record {
            buf = later.buf;
            chunks = later.chunks;
            result = rw (fits, read_headers) (rw (more, read_headers) later.result);
            rest = later.rest;
            found = later.found;
            give = later.give;
          }
    ]

body_read :
    (content_length : ℕ) (buf : List ℕ) (chunks : List (List ℕ)) (whole : List ℕ)
    → AllGive chunks
    → buf ++ concat chunks ≡ whole
    → read_body content_length (length whole) buf (map chunk chunks) ≡ (ok whole, [])
unfolding read_body
body_read content_length buf [] whole give e =
    let all : buf ≡ whole = sym (append-nil buf) ∙ e in ground arith
body_read content_length buf ([] ∷ chunks) whole give e = absurd (ground arith)
body_read content_length buf ((b ∷ bs) ∷ chunks) whole give e =
    let size : length buf + length ((b ∷ bs) ++ concat chunks) ≡ length whole =
      sym (length-append buf ((b ∷ bs) ++ concat chunks)) ∙ ap length e in
    let short : ltb (length buf) (length whole) ≡ true = ground arith in
    let later =
      body_read content_length (buf ++ b ∷ bs) chunks whole give.1
        (append_assoc buf (b ∷ bs) (concat chunks) ∙ e) in
    rw (short, read_body) later

-- The headers stand at the start of what the first loop has read.
taken_headers :
    (buf t head rest : List ℕ)
    → buf ++ t ≡ head ++ rest
    → length head ≤ length buf
    → take (length head) buf ≡ head
taken_headers buf t head rest e l =
    sym (take-append_left (length head) buf t l) ∙ ap (take (length head)) e ∙ take-append head rest

rest_read :
    (head body : List ℕ) (r : Outcome HttpError (List ℕ) × List Read)
    → let whole = head ++ (terminator ++ body) in
      (parse_content_length head ≡ length body)
      → length (head ++ (terminator ++ body)) < 2 ^ 64
      → (w : Headers (head ++ (terminator ++ body)) (length head) r)
      → read_rest w.buf (map chunk w.chunks) ≡ (ok (head ++ (terminator ++ body)), [])
unfolding read_rest find_header_terminator
rest_read head body r promised small w =
    let whole = head ++ (terminator ++ body) in
    let long = find_text-le terminator w.buf (length head) w.found in
    let headers =
      taken_headers w.buf (concat w.chunks) head (terminator ++ body) w.rest (omega arith) in
    let size = length-append head (terminator ++ body) in
    let target : (length head + 4 + length body) % 2 ^ 64 ≡ length whole = omega arith in
    rw (w.found, read_rest)
      (rw (headers, promised, target) (body_read (length body) w.buf w.chunks whole w.give w.rest))

-- A request whose headers announce the length of its body is read whole, in however many pieces it
-- comes. (The headers with their end fit the limit, the request is shorter than
-- 2^64 bytes, and no read gives nothing.)
pub read_until_end_of_headers-whole :
    (head body : List ℕ) (chunks : List (List ℕ))
    → find_text terminator (head ++ (terminator ++ body)) ≡ some (length head)
    → parse_content_length head ≡ length body
    → length head + 4 ≤ max_header_bytes
    → length (head ++ (terminator ++ body)) < 2 ^ 64
    → AllGive chunks
    → concat chunks ≡ head ++ (terminator ++ body)
    → let whole = head ++ (terminator ++ body) in
      read_until_end_of_headers (map chunk chunks) ≡ (ok (whole, is_websocket_upgrade whole), [])
unfolding read_until_end_of_headers then_rest mark_upgrade
read_until_end_of_headers-whole head body chunks found promised fits small give e =
    let whole = head ++ (terminator ++ body) in
    let w = read_headers-Headers [] chunks whole (length head) give e found fits refl in
    let rest = rest_read head body (read_headers [] (map chunk chunks)) promised small w in
    ap then_rest w.result ∙ ap mark_upgrade rest
