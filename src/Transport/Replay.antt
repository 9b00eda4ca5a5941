-- ===== src/Transport/Replay.antt =====
-- `PrependedStream`: what a reader sees.
use bonded.Transport.{Arrival, bytes, failed, PrependedStream, prepend, read_inner, poll_read}
use bonded.Transport.Framing.{content}
use bonded.Prelude.{
  ℕ, zero, suc, ◌+◌, ◌-◌, subst, length-take, length-drop, ◌≤◌, ◌≡◌, refl, sym, ap, ◌∙◌, List, [],
  ◌∷◌, ◌++◌, arith, length, take, drop, min, ltb, Bool-cases, inl, inr, take-append-drop, ltb_ge,
  concat, true, false, map,
}
use mathlib.Core.List.{append_assoc}
use native.Mathlib.Nat.{zero-add}

-- What a reader is still to see.
abbrev pub unread : PrependedStream → List ℕ
unread s = drop s.pos s.prefix ++ content s.inner

abbrev pub got : Arrival → List ℕ
got (bytes bs) = bs
got failed = []

-- Polls with buffers of the given sizes.
unfoldable pub polls : List ℕ → PrependedStream → List Arrival × PrependedStream
polls [] s = ([], s)
polls (n ∷ ns) s = let later = polls ns (poll_read n s).1 in ((poll_read n s).0 ∷ later.0, later.1)

drop-nil : (n : ℕ) → drop {A = ℕ} n [] ≡ []
drop-nil zero = refl
drop-nil (suc n) = refl

take-nil : (n : ℕ) → take {A = ℕ} n [] ≡ []
take-nil zero = refl
take-nil (suc n) = refl

drop-add : (n k : ℕ) (xs : List ℕ) → drop (n + k) xs ≡ drop k (drop n xs)
drop-add zero k xs = rw zero-add
drop-add (suc n) k [] = rw (drop-nil (suc n + k), drop-nil k)
drop-add (suc n) k (x ∷ xs) =
    let e : suc n + k ≡ suc (n + k) = omega arith in rw e (drop-add n k xs)

take-drop : (n k : ℕ) (xs : List ℕ) → take k (drop n xs) ++ drop (n + k) xs ≡ drop n xs
take-drop n k xs = rw (drop-add n k xs) (take-append-drop k (drop n xs))

drop_all : (n : ℕ) (xs : List ℕ) → length xs ≤ n → drop n xs ≡ []
drop_all zero [] h = refl
drop_all zero (x ∷ xs) h = absurd (omega arith)
drop_all (suc n) [] h = refl
drop_all (suc n) (x ∷ xs) h = drop_all n xs (omega arith)

poll_replay :
    (n : ℕ) (s : PrependedStream)
    → ltb s.pos (length s.prefix) ≡ true
    → got (poll_read n s).0 ++ unread (poll_read n s).1 ≡ unread s
unfolding poll_read
poll_replay n s h =
    let k = min (length (drop s.pos s.prefix)) n in
    let joined =
      append_assoc (take k (drop s.pos s.prefix)) (drop (s.pos + k) s.prefix) (content s.inner) in
    rw h (sym joined ∙ ap (λ bs. bs ++ content s.inner) (take-drop s.pos k s.prefix))

take_all : (n : ℕ) (xs : List ℕ) → length xs ≤ n → take n xs ≡ xs
take_all n [] h = take-nil n
take_all zero (x ∷ xs) h = absurd (omega arith)
take_all (suc n) (x ∷ xs) h = ap (λ ys. x ∷ ys) (take_all n xs (omega arith))

read_inner-content :
    (n : ℕ) (inner : List Arrival)
    → got (read_inner n inner).0 ++ content (read_inner n inner).1 ≡ content inner
unfolding read_inner
read_inner-content n [] = refl
read_inner-content n (failed ∷ rest) = refl
read_inner-content n (bytes bs ∷ rest) = elim (Bool-cases (ltb n (length bs))) [
  | inl more ↦ rw more (
      sym (append_assoc (take n bs) (drop n bs) (content rest))
      ∙ ap (λ xs. xs ++ content rest) (take-append-drop n bs))
  | inr all ↦ rw all (ap (λ xs. xs ++ content rest) (take_all n bs (ltb_ge n (length bs) all)))
]

poll_inner :
    (n : ℕ) (s : PrependedStream)
    → ltb s.pos (length s.prefix) ≡ false
    → got (poll_read n s).0 ++ unread (poll_read n s).1 ≡ unread s
unfolding poll_read
poll_inner n s h =
    let gone = drop_all s.pos s.prefix (ltb_ge s.pos (length s.prefix) h) in
    let same = read_inner-content n s.inner in rw (h, gone) same

-- One poll takes its bytes off the front of what is unread.
poll_read-unread :
    (n : ℕ) (s : PrependedStream) → got (poll_read n s).0 ++ unread (poll_read n s).1 ≡ unread s
poll_read-unread n s = elim (Bool-cases (ltb s.pos (length s.prefix))) [
  | inl replaying ↦ poll_replay n s replaying
  | inr done ↦ poll_inner n s done
]

polls_from :
    (ns : List ℕ) (s : PrependedStream)
    → concat (map got (polls ns s).0) ++ unread (polls ns s).1 ≡ unread s
unfolding polls
polls_from [] s = refl
polls_from (n ∷ ns) s =
    let s' = (poll_read n s).1 in
    append_assoc (got (poll_read n s).0) (concat (map got (polls ns s').0)) (unread (polls ns s').1)
    ∙ ap (λ bs. got (poll_read n s).0 ++ bs) (polls_from ns s')
    ∙ poll_read-unread n s

-- How far one poll fills its buffer.
record Fills (n left : ℕ) (a : Arrival) (s : PrependedStream) : Type 0 where
  fits : length (got a) ≤ n
  filled : min left n ≤ length (got a)
  rest : length s.prefix - s.pos ≡ left - n

read_inner-fits : (n : ℕ) (inner : List Arrival) → length (got (read_inner n inner).0) ≤ n
unfolding read_inner
read_inner-fits n [] = omega arith
read_inner-fits n (failed ∷ rest) = omega arith
read_inner-fits n (bytes bs ∷ rest) = omega (arith, length-take n bs)

poll_read-Fills :
    (n : ℕ) (s : PrependedStream)
    → Fills n (length s.prefix - s.pos) (poll_read n s).0 (poll_read n s).1
unfolding poll_read
poll_read-Fills n s = elim (Bool-cases (ltb s.pos (length s.prefix))) [
  | inl replaying ↦
      let left = drop s.pos s.prefix in
      let size = length-drop s.pos s.prefix in
      let taken = length-take (min (length left) n) left in
      rw replaying (record { fits = ground arith; filled = ground arith; rest = ground arith })
  | inr done ↦
      let fits = read_inner-fits n s.inner in
      rw done (record { fits = fits; filled = ground arith; rest = ground arith })
]

-- Of polls with buffers of these sizes, while so many bytes of the prefix are left: each gives no more
-- than its buffer takes, and fills it as far as the prefix goes.
abbrev pub AreFilled : ℕ → List ℕ → List Arrival → Type 0
AreFilled left [] [] = Unit
AreFilled left [] (a ∷ arrivals) = ⊥
AreFilled left (n ∷ ns) [] = ⊥
AreFilled left (n ∷ ns) (a ∷ arrivals) =
    (length (got a) ≤ n) × (min left n ≤ length (got a)) × AreFilled (left - n) ns arrivals

polls-AreFilled :
    (ns : List ℕ) (s : PrependedStream) → AreFilled (length s.prefix - s.pos) ns (polls ns s).0
unfolding polls
polls-AreFilled [] s = tt
polls-AreFilled (n ∷ ns) s =
    let w = poll_read-Fills n s in
    let later = polls-AreFilled ns (poll_read n s).1 in
    (
      w.fits,
      w.filled,
      subst (λ left. AreFilled left ns (polls ns (poll_read n s).1).0) w.rest later,
    )

-- Polls with buffers of any sizes give the replayed bytes followed by those of the inner stream: what
-- the polls gave and what is still unread make up the whole. No poll gives more than its buffer takes,
-- and each fills its buffer as far as the replayed bytes that are left go.
pub polls-unread :
    (prefix : List ℕ) (inner : List Arrival) (ns : List ℕ)
    → let r = polls ns (prepend prefix inner) in
      (concat (map got r.0) ++ unread r.1 ≡ prefix ++ content inner)
      × AreFilled (length prefix) ns r.0
unfolding prepend
polls-unread prefix inner ns =
    let s : PrependedStream = record { prefix = prefix; pos = 0; inner = inner } in
    let start : length prefix - 0 ≡ length prefix = omega arith in
    (polls_from ns s, subst (λ left. AreFilled left ns (polls ns s).0) start (polls-AreFilled ns s))
