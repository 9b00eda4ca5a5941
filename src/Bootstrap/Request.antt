-- ===== src/Bootstrap/Request.antt =====
-- The requests of `build_http_request`, as the server takes them apart.
use bonded.Prelude.Decimal.{print, print-IsDigits, parse-print}
use bonded.Prelude.Utf8.{IsAscii}
use bonded.Prelude.Texts.{is_space, trim, Lacks, split_once_plain, trim_plain}
use bonded.Bootstrap.{header_value, content_length_of, authority_of}
use bonded.Bootstrap.Client.{request_line, host_line, length_line}
use bonded.Bootstrap.Headers.{IsLine}
use bonded.Prelude.{
  ℕ, ◌≤◌, ◌<◌, ◌^◌, ◌≡◌, refl, ap, ◌∙◌, false, none, some, [], ◌∷◌, ◌++◌, Text, ascii, length, All,
  All-append, All-weaken, arith, text_beq, ◌==◌,
}

-- A character that stays within a line.
abbrev pub InLine : ℕ → Type 0
InLine c = (c < 128) × ((c == 13) ≡ false) × ((c == 10) ≡ false)

-- A character of a method or a path: no space and no colon.
abbrev pub InWord : ℕ → Type 0
InWord c = InLine c × ((c == 32) ≡ false) × ((c == 58) ≡ false)

abbrev pub IsWord : Text → Type 0
IsWord = All InWord

-- A host as a header carries it, with or without a port.
abbrev pub IsHost : Text → Type 0
IsHost s = (1 ≤ length s) × All InLine s × (trim s ≡ s)

word_line : (s : Text) → IsWord s → All InLine s
word_line s = All-weaken InWord InLine s (λ c w. w.0)

pub word-Lacks_space : (s : Text) → IsWord s → Lacks 32 s
word-Lacks_space s = All-weaken InWord (λ c. (c == 32) ≡ false) s (λ c w. w.1)

word-Lacks_colon : (s : Text) → IsWord s → Lacks 58 s
word-Lacks_colon s = All-weaken InWord (λ c. (c == 58) ≡ false) s (λ c w. w.2)

pub in-IsLine : (s : Text) → 1 ≤ length s → All InLine s → IsLine s
in-IsLine s l w = (
  l,
  All-weaken InLine (λ c. (c == 13) ≡ false) s (λ c v. v.1) w,
  All-weaken InLine (λ c. (c == 10) ≡ false) s (λ c v. v.2) w,
)

pub in-IsAscii : (s : Text) → All InLine s → IsAscii s
in-IsAscii s = All-weaken InLine (λ c. c < 128) s (λ c v. v.0)

pub request_line_in :
    (method path : Text) → IsWord method → IsWord path → All InLine (request_line method path)
request_line_in method path m p =
    All-append InLine method (32 ∷ path ++ ascii " HTTP/1.1") (word_line method m)
      (ground arith, All-append InLine path (ascii " HTTP/1.1") (word_line path p) (ground arith))

pub request_line-Lacks_colon :
    (method path : Text) → IsWord method → IsWord path → Lacks 58 (request_line method path)
request_line-Lacks_colon method path m p =
    All-append (λ c. (c == 58) ≡ false) method (32 ∷ path ++ ascii " HTTP/1.1")
      (word-Lacks_colon method m)
      (
        refl,
        All-append (λ c. (c == 58) ≡ false) path (ascii " HTTP/1.1") (word-Lacks_colon path p)
            (ground arith),
      )

pub host_line_in : (host : Text) → IsHost host → All InLine (host_line host)
host_line_in host h = All-append InLine (ascii "Host: ") host (ground arith) h.1

pub length_line_in : (n : ℕ) → All InLine (length_line n)
unfolding length_line
length_line_in n = All-append InLine (ascii "Content-Length: ") (print n) (ground arith) (
    All-weaken (λ c. (48 ≤ c) × (c ≤ 57)) InLine (print n) (λ c d. ground arith) (print-IsDigits n))

trim-print : (n : ℕ) → trim (print n) ≡ print n
unfolding is_space
trim-print n = trim_plain (print n) (
    All-weaken (λ c. (48 ≤ c) × (c ≤ 57)) (λ c. is_space c ≡ false) (print n) (λ c d. ground arith)
      (print-IsDigits n))

-- What the headers say.
pub value-request_line :
    (wanted method path : Text)
    → IsWord method
    → IsWord path
    → header_value wanted (request_line method path) ≡ none
unfolding header_value
value-request_line wanted method path m p =
    rw
      (
        split_once_plain 58 (request_line method path) (request_line-Lacks_colon method path m p),
        header_value,
      )
      refl

value-host_line : (host : Text) → header_value (ascii "host") (host_line host) ≡ some (trim host)
unfolding header_value text_beq trim
value-host_line host = refl

value-length_line :
    (s : Text)
    → header_value (ascii "content-length") (ascii "Content-Length: " ++ s) ≡ some (trim s)
unfolding header_value text_beq trim
value-length_line s = refl

pub other-host_line : (host : Text) → content_length_of (host_line host) ≡ none
unfolding content_length_of text_beq
other-host_line host = refl

authority_given :
    (line host : Text)
    → 1 ≤ length host
    → header_value (ascii "host") line ≡ some host
    → authority_of line ≡ some host
unfolding authority_of
authority_given line [] l h = absurd (ground arith)
authority_given line (c ∷ cs) l h = rw (h, authority_of) refl

pub authority-host_line : (host : Text) → IsHost host → authority_of (host_line host) ≡ some host
authority-host_line host h =
    authority_given (host_line host) host h.0 (value-host_line host ∙ ap some h.2)

pub length-length_line : (n : ℕ) → n < 2 ^ 64 → content_length_of (length_line n) ≡ some n
unfolding content_length_of length_line
length-length_line n b =
    rw (value-length_line (print n), content_length_of)
      (rw (trim-print n) (parse-print (2 ^ 64) n b))
