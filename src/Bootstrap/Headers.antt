-- ===== src/Bootstrap/Headers.antt =====
-- A head of lines that end in a carriage return and a line feed each, but the last.
use bonded.Prelude.Texts.{find_text, starts_with, lines, Lacks, lines-append, lines_plain}
use bonded.Bootstrap.{terminator}
use bonded.Bootstrap.Client.{crlf}
use mathlib.Core.List.{append_assoc}
use bonded.Prelude.{
  ℕ, ◌+◌, ◌≤◌, ◌≡◌, refl, sym, ap, ◌∙◌, false, some, List, [], ◌∷◌, ◌++◌, length, length-append,
  All, All-append, arith, Text, ◌==◌,
}

abbrev pub lines_before : List Text → Text → Text
lines_before [] t = t
lines_before (l ∷ ls) t = l ++ (crlf ++ lines_before ls t)

abbrev pub IsLine : Text → Type 0
IsLine l = (1 ≤ length l) × Lacks 13 l × Lacks 10 l

pub lines_before-append :
    (ls : List Text) (s t : Text) → lines_before ls (s ++ t) ≡ lines_before ls s ++ t
lines_before-append [] s t = refl
lines_before-append (l ∷ ls) s t =
    ap (λ u. l ++ (crlf ++ u)) (lines_before-append ls s t)
    ∙ sym (append_assoc l (crlf ++ lines_before ls s) t)

line-append : (l t : Text) → Lacks 10 l → lines (l ++ (crlf ++ t)) ≡ l ∷ lines t
line-append l t w =
    ap lines (sym (append_assoc l (13 ∷ []) (10 ∷ t)))
    ∙ lines-append l t (All-append (λ c. (c == 10) ≡ false) l (13 ∷ []) w (refl, tt))

pub lines-lines_before :
    (ls : List Text) (last : Text)
    → All IsLine ls
    → IsLine last
    → lines (lines_before ls last) ≡ ls ++ last ∷ []
lines-lines_before [] [] w v = absurd (ground arith)
lines-lines_before [] (c ∷ last) w v = lines_plain c last v.2
lines-lines_before (l ∷ ls) last w v =
    line-append l (lines_before ls last) w.0.2
    ∙ ap (λ xs. l ∷ xs) (lines-lines_before ls last w.1 v)

-- The first line is all of the text before the first line feed.
pub first_line :
    (l t : Text) → Lacks 10 l → (rest : List Text) × (lines (l ++ (crlf ++ t)) ≡ l ∷ rest)
first_line l t w = (lines t, line-append l t w)

find_after :
    (l s : Text) (i : ℕ)
    → Lacks 13 l
    → find_text terminator s ≡ some i
    → find_text terminator (l ++ s) ≡ some (length l + i)
unfolding find_text starts_with
find_after [] s i w h = h ∙ ap some (omega arith)
find_after (c ∷ l) s i w h = let later = find_after l s i w.1 h in ground arith

find_past_crlf :
    (d : ℕ) (s : Text) (i : ℕ)
    → (d == 13) ≡ false
    → find_text terminator (d ∷ s) ≡ some i
    → find_text terminator (crlf ++ d ∷ s) ≡ some (2 + i)
unfolding find_text starts_with
find_past_crlf d s i w h = ground arith

find_past_line :
    (l s : Text) (i : ℕ)
    → IsLine l
    → find_text terminator (l ++ s) ≡ some i
    → find_text terminator (crlf ++ (l ++ s)) ≡ some (2 + i)
find_past_line [] s i w h = absurd (ground arith)
find_past_line (c ∷ l) s i w h = find_past_crlf c (l ++ s) i w.1.0 h

-- The end of the head is where the terminator first stands.
pub find_terminator :
    (ls : List Text) (last body : Text)
    → All IsLine ls
    → IsLine last
    → find_text terminator (lines_before ls (last ++ (terminator ++ body)))
      ≡ some (length (lines_before ls last))
unfolding find_text
find_terminator [] last body w v =
    find_after last (terminator ++ body) 0 v.1 refl ∙ ap some (omega arith)
find_terminator (l ∷ []) last body w v =
    let here = find_terminator [] last body tt v in
    let past = find_past_line last (terminator ++ body) (length last) v here in
    find_after l (crlf ++ (last ++ (terminator ++ body))) (2 + length last) w.0.1 past
    ∙ ap some (omega (arith, length-append l (crlf ++ last)))
find_terminator (l ∷ m ∷ ls) last body w v =
    let here = find_terminator (m ∷ ls) last body w.1 v in
    let rest = lines_before ls (last ++ (terminator ++ body)) in
    let n = length (lines_before (m ∷ ls) last) in
    let past = find_past_line m (crlf ++ rest) n w.1.0 here in
    find_after l (crlf ++ (m ++ (crlf ++ rest))) (2 + n) w.0.1 past
    ∙ ap some (omega (arith, length-append l (crlf ++ lines_before (m ∷ ls) last)))
