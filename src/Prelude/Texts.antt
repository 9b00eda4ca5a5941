-- ===== src/Prelude/Texts.antt =====
-- Texts as the programs that read headers and records see them: `split`, `join`, `lines`, `trim`,
-- `split_once`, `find` and the ASCII case. White space is that of ASCII.
use Prim.Native.Nat.{ℕ, zero, suc, ◌+◌, ◌≤◌}
use mathlib.Core.Path.{◌≡◌, refl, ap, ◌∙◌}
use mathlib.Core.Logic.{inl, inr}
use mathlib.Core.Bool.{Bool, true, false, ◌&&◌, ◌||◌}
use mathlib.Core.Option.{Option, none, some}
use mathlib.Core.List.{List, [], ◌∷◌, ◌++◌, map}
use native.Mathlib.Omega.{arith}
use bonded.Prelude.Tests.{Text, leb, ◌==◌, if◌then◌else◌, Bool-cases, Option-cases, text_beq}
use bonded.Prelude.Lists.{All, take, drop, length}

unfoldable pub is_space : ℕ → Bool
is_space c = c == 32 || (leb 9 c && leb c 13)

unfoldable pub trim_start : Text → Text
unfolding is_space
trim_start [] = []
trim_start (c ∷ cs) = if is_space c then trim_start cs else c ∷ cs

-- `trim_end`: what is kept is what stands before or is no white space.
unfoldable pub trim_end : Text → Text
unfolding is_space
trim_end [] = []
trim_end (c ∷ cs) =
    let rest = trim_end cs in
    elim rest [ [] ↦ (if is_space c then [] else c ∷ []) | d ∷ ds ↦ c ∷ d ∷ ds ]

unfoldable pub trim : Text → Text
unfolding trim_start trim_end
trim s = trim_end (trim_start s)

pub lower : ℕ → ℕ
lower c = if leb 65 c && leb c 90 then c + 32 else c

unfoldable pub to_ascii_lowercase : Text → Text
unfolding lower
to_ascii_lowercase = map lower

unfoldable pub eq_ignore_ascii_case : Text → Text → Bool
unfolding to_ascii_lowercase
eq_ignore_ascii_case a b = text_beq (to_ascii_lowercase a) (to_ascii_lowercase b)

unfoldable pub starts_with : Text → Text → Bool
starts_with [] s = true
starts_with (p ∷ ps) [] = false
starts_with (p ∷ ps) (c ∷ cs) = p == c && starts_with ps cs

-- `find(pattern)`: where the pattern first starts.
unfoldable pub find_text : Text → Text → Option ℕ
unfolding starts_with
find_text pattern [] = if starts_with pattern [] then some 0 else none
find_text pattern (c ∷ cs) =
    let later = find_text pattern cs in
    if starts_with pattern (c ∷ cs)
    then some 0
    else elim later [ none ↦ none | some i ↦ some (suc i) ]

unfoldable pub contains : Text → Text → Bool
unfolding find_text
contains pattern s = elim (find_text pattern s) [ none ↦ false | some i ↦ true ]

-- `split(c)`: the parts between the separators, always at least one.
unfoldable pub split : ℕ → Text → List Text
split sep [] = [] ∷ []
split sep (c ∷ cs) =
    let rest = split sep cs in
    if c == sep
    then [] ∷ rest
    else elim rest [ [] ↦ (c ∷ []) ∷ [] | part ∷ parts ↦ (c ∷ part) ∷ parts ]

unfoldable pub join : Text → List Text → Text
join sep [] = []
join sep (part ∷ []) = part
join sep (part ∷ next ∷ parts) = part ++ (sep ++ join sep (next ∷ parts))

-- `split_once(c)`, at the first separator.
unfoldable pub split_once : ℕ → Text → Option (Text × Text)
split_once sep [] = none
split_once sep (c ∷ cs) =
    let later = split_once sep cs in
    if c == sep then some ([], cs) else elim later [ none ↦ none | some (a, b) ↦ some (c ∷ a, b) ]

-- `rsplit_once(c)`, at the last separator.
unfoldable pub rsplit_once : ℕ → Text → Option (Text × Text)
rsplit_once sep [] = none
rsplit_once sep (c ∷ cs) =
    let later = rsplit_once sep cs in
    elim later [ some (a, b) ↦ some (c ∷ a, b) | none ↦ if c == sep then some ([], cs) else none ]

-- A line's carriage return at its end is dropped.
unfoldable pub strip_cr : Text → Text
strip_cr [] = []
strip_cr (c ∷ []) = if c == 13 then [] else c ∷ []
strip_cr (c ∷ d ∷ cs) = c ∷ strip_cr (d ∷ cs)

-- `lines()` on the parts between line feeds: an empty part at the end is no line, and the last part
-- keeps its carriage return.
unfoldable pub lines_of : List Text → List Text
unfolding strip_cr
lines_of [] = []
lines_of ([] ∷ []) = []
lines_of ((c ∷ cs) ∷ []) = (c ∷ cs) ∷ []
lines_of (part ∷ next ∷ parts) = strip_cr part ∷ lines_of (next ∷ parts)

unfoldable pub lines : Text → List Text
unfolding split lines_of
lines s = lines_of (split 10 s)

-- No character is this one.
abbrev pub Lacks : ℕ → Text → Type 0
Lacks sep = All (λ c. (c == sep) ≡ false)

pub split_plain : (sep : ℕ) (s : Text) → Lacks sep s → split sep s ≡ s ∷ []
unfolding split
split_plain sep [] w = refl
split_plain sep (c ∷ cs) w = ground (arith, split_plain sep cs w.1)

pub split-append : (sep : ℕ) (s t : Text) → Lacks sep s → split sep (s ++ sep ∷ t) ≡ s ∷ split sep t
unfolding split
split-append sep [] t w = ground arith
split-append sep (c ∷ cs) t w = ground (arith, split-append sep cs t w.1)

-- Parts that are joined are split again.
pub split-join :
    (sep : ℕ) (part : Text) (parts : List Text)
    → All (Lacks sep) (part ∷ parts)
    → split sep (join (sep ∷ []) (part ∷ parts)) ≡ part ∷ parts
unfolding join
split-join sep part [] w = split_plain sep part w.0
split-join sep part (next ∷ parts) w =
    split-append sep part (join (sep ∷ []) (next ∷ parts)) w.0
    ∙ ap (λ ps. part ∷ ps) (split-join sep next parts w.1)

pub split_once-append :
    (sep : ℕ) (s t : Text) → Lacks sep s → split_once sep (s ++ sep ∷ t) ≡ some (s, t)
unfolding split_once
split_once-append sep [] t w = ground arith
split_once-append sep (c ∷ cs) t w = ground (arith, split_once-append sep cs t w.1)

-- `splitn(n, c)`: at most so many parts.
unfoldable pub splitn : ℕ → ℕ → Text → List Text
unfolding split_once
splitn zero sep s = []
splitn (suc zero) sep s = s ∷ []
splitn (suc (suc n)) sep s = elim (split_once sep s) [
  | none ↦ s ∷ []
  | some (a, b) ↦ a ∷ splitn (suc n) sep b
]

-- `split_once("...")` on a text, at its first occurrence.
unfoldable pub split_once_text : Text → Text → Option (Text × Text)
unfolding find_text
split_once_text pattern s = elim (find_text pattern s) [
  | none ↦ none
  | some i ↦ some (take i s, drop (i + length pattern) s)
]

pub split_once_plain : (sep : ℕ) (s : Text) → Lacks sep s → split_once sep s ≡ none
unfolding split_once
split_once_plain sep [] w = refl
split_once_plain sep (c ∷ cs) w = ground (arith, split_once_plain sep cs w.1)

split-cons :
    (sep : ℕ) (s : Text) → (part : Text) × (parts : List Text) × (split sep s ≡ part ∷ parts)
unfolding split
split-cons sep [] = ([], [], refl)
split-cons sep (c ∷ cs) =
    let (part, parts, e) = split-cons sep cs in
    elim (Bool-cases (c == sep)) [
      | inl same ↦ ([], split sep cs, ground arith)
      | inr other ↦ (c ∷ part, parts, ground arith)
    ]

pub strip_cr-append : (s : Text) → strip_cr (s ++ 13 ∷ []) ≡ s
unfolding strip_cr
strip_cr-append [] = refl
strip_cr-append (c ∷ []) = refl
strip_cr-append (c ∷ d ∷ cs) = ap (λ xs. c ∷ xs) (strip_cr-append (d ∷ cs))

-- A line that ends in a carriage return and a line feed, and what follows.
pub lines-append :
    (s t : Text) → Lacks 10 (s ++ 13 ∷ []) → lines ((s ++ 13 ∷ []) ++ 10 ∷ t) ≡ s ∷ lines t
unfolding lines lines_of
lines-append s t w =
    let (part, parts, e) = split-cons 10 t in
    rw (split-append 10 (s ++ 13 ∷ []) t w, e, strip_cr-append s) refl

pub lines_plain : (c : ℕ) (s : Text) → Lacks 10 (c ∷ s) → lines (c ∷ s) ≡ (c ∷ s) ∷ []
unfolding lines lines_of
lines_plain c s w = rw (split_plain 10 (c ∷ s) w) refl

starts_with-append : (p s t : Text) → starts_with p s ≡ true → starts_with p (s ++ t) ≡ true
unfolding starts_with
starts_with-append [] s t h = refl
starts_with-append (c ∷ p) [] t h = ground arith
starts_with-append (c ∷ p) (d ∷ s) t h = ground (arith, starts_with-append p s t)

starts_with_short :
    (p s t : Text) → length p ≤ length s → starts_with p (s ++ t) ≡ true → starts_with p s ≡ true
unfolding starts_with
starts_with_short [] s t l h = refl
starts_with_short (c ∷ p) [] t l h = ground arith
starts_with_short (c ∷ p) (d ∷ s) t l h = ground (arith, starts_with_short p s t)

starts_with-length : (p s : Text) → starts_with p s ≡ true → length p ≤ length s
unfolding starts_with
starts_with-length [] s h = omega arith
starts_with-length (c ∷ p) [] h = ground arith
starts_with-length (c ∷ p) (d ∷ s) h = ground (arith, starts_with-length p s)

pub find_text-le : (p s : Text) (i : ℕ) → find_text p s ≡ some i → i + length p ≤ length s
unfolding find_text
find_text-le p [] i h = ground (arith, starts_with-length p [])
find_text-le p (c ∷ s) i h = elim (Bool-cases (starts_with p (c ∷ s))) [
  | inl here ↦ ground (arith, starts_with-length p (c ∷ s))
  | inr later ↦ elim (Option-cases (find_text p s)) [
    | inl nowhere ↦ ground arith
    | inr (j, e) ↦ let le = find_text-le p s j e in ground arith
  ]
]

-- What is found is found again when more text follows.
pub find_text-append :
    (p s t : Text) (i : ℕ) → find_text p s ≡ some i → find_text p (s ++ t) ≡ some i
unfolding find_text starts_with
find_text-append [] [] [] i h = h
find_text-append [] [] (d ∷ t) i h = h
find_text-append (c ∷ p) [] t i h = ground arith
find_text-append p (c ∷ s) t i h = elim (Bool-cases (starts_with p (c ∷ s))) [
  | inl here ↦ let there = starts_with-append p (c ∷ s) t here in ground arith
  | inr later ↦ elim (Option-cases (find_text p s)) [
    | inl nowhere ↦ ground arith
    | inr (j, e) ↦
        let le = find_text-le p s j e in
        let there = find_text-append p s t j e in
        let short = starts_with_short p (c ∷ s) t in ground arith
  ]
]

-- What is found in a text is found in its beginning, if that is long enough.
pub find_text_short :
    (p s t : Text) (i : ℕ)
    → find_text p (s ++ t) ≡ some i
    → i + length p ≤ length s
    → find_text p s ≡ some i
unfolding find_text starts_with
find_text_short [] [] [] i h l = h
find_text_short [] [] (d ∷ t) i h l = h
find_text_short (c ∷ p) [] t i h l = ground arith
find_text_short p (c ∷ s) t i h l = elim (Bool-cases (starts_with p (c ∷ s ++ t))) [
  | inl here ↦ let there = starts_with_short p (c ∷ s) t in ground arith
  | inr later ↦ elim (Option-cases (find_text p (s ++ t))) [
    | inl nowhere ↦ ground arith
    | inr (j, e) ↦
        let there = find_text_short p s t j e in
        let short = starts_with-append p (c ∷ s) t in ground arith
  ]
]

trim_end_plain : (s : Text) → All (λ c. is_space c ≡ false) s → trim_end s ≡ s
unfolding trim_end
trim_end_plain [] w = refl
trim_end_plain (c ∷ []) w = ground arith
trim_end_plain (c ∷ d ∷ cs) w = let rest = trim_end_plain (d ∷ cs) w.1 in ground arith

pub trim_plain : (s : Text) → All (λ c. is_space c ≡ false) s → trim s ≡ s
unfolding trim trim_start
trim_plain [] w = refl
trim_plain (c ∷ cs) w = let rest = trim_end_plain (c ∷ cs) w in ground arith

rsplit_once_plain : (sep : ℕ) (s : Text) → Lacks sep s → rsplit_once sep s ≡ none
unfolding rsplit_once
rsplit_once_plain sep [] w = refl
rsplit_once_plain sep (c ∷ cs) w = ground (arith, rsplit_once_plain sep cs w.1)

pub rsplit_once-append :
    (sep : ℕ) (s t : Text) → Lacks sep t → rsplit_once sep (s ++ sep ∷ t) ≡ some (s, t)
unfolding rsplit_once
rsplit_once-append sep [] t w = ground (arith, rsplit_once_plain sep t w)
rsplit_once-append sep (c ∷ cs) t w = ground (arith, rsplit_once-append sep cs t w)
