-- ===== src/Transport/Framing.antt =====
-- One frame over a byte stream.
use bonded.Bytes.{be32, from_be32-be32}
use bonded.Session.{SessionFrame, IsFrame, encode, decode}
use bonded.Session.Codec.{decode-encode, length-encode}
use bonded.Transport.{
  Arrival, bytes, failed, RecvError, closed_in_prefix, closed_in_payload, Reader, fill, prefix_len,
  frame_result, take_frame, recv_payload, recv,
}
use bonded.Prelude.{
  ℕ, ◌+◌, ◌≤◌, ◌<◌, ◌^◌, ◌≡◌, refl, sym, ap, ◌∙◌, List, [], ◌∷◌, ◌++◌, ok, arith, length, take,
  drop, false, ltb, ltb_ge, ltb→lt, Bool-cases, inl, inr, length-append, take-append_left,
  drop-append_left, get_or-append_left, length-drop, take-append, drop-append, Outcome,
}
use mathlib.Core.List.{append_assoc}

-- The bytes that a stream will give.
abbrev pub content : List Arrival → List ℕ
content [] = []
content (bytes bs ∷ rest) = bs ++ content rest
content (failed ∷ rest) = content rest

-- No read fails, and none but the last says that the stream is at its end.
abbrev pub IsFlowing : List Arrival → Type 0
IsFlowing [] = Unit {0}
IsFlowing (bytes bs ∷ rest) = (0 < length bs) × IsFlowing rest
IsFlowing (failed ∷ rest) = ⊥

-- All bytes of a receiving half, read or still to come.
abbrev pub pending : Reader → List ℕ
pending r = r.read_buf ++ content r.incoming

-- Filling the buffer loses no byte, whether it succeeds or not.
fill-pending :
    (n : ℕ) (closed : RecvError) (buf : List ℕ) (incoming : List Arrival)
    → pending (fill n closed buf incoming).1 ≡ buf ++ content incoming
unfolding fill
fill-pending n closed buf [] = refl
fill-pending n closed buf (failed ∷ rest) = ground arith
fill-pending n closed buf (bytes [] ∷ rest) = ground arith
fill-pending n closed buf (bytes (b ∷ bs) ∷ rest) =
    ground
      (arith, fill-pending n closed (buf ++ b ∷ bs) rest, append_assoc buf (b ∷ bs) (content rest))

record Filled (n : ℕ) (buf : List ℕ) (incoming : List Arrival)
    (o : Outcome RecvError (Unit {0}) × Reader) : Type 0 where
  succeeds : o.0 ≡ ok tt
  enough : n ≤ length o.1.read_buf
  flows : IsFlowing o.1.incoming
  same : pending o.1 ≡ buf ++ content incoming

-- It succeeds when the stream has the bytes.
fill-Filled :
    (n : ℕ) (closed : RecvError) (buf : List ℕ) (incoming : List Arrival)
    → IsFlowing incoming
    → n ≤ length (buf ++ content incoming)
    → Filled n buf incoming (fill n closed buf incoming)
unfolding fill
fill-Filled n closed buf [] w h = elim (Bool-cases (ltb (length buf) n)) [
  | inl short ↦ absurd (omega (arith, ltb→lt (length buf) n short, length-append buf []))
  | inr full ↦
      rw full (record { succeeds = refl; enough = ltb_ge _ _ full; flows = tt; same = refl })
]
fill-Filled n closed buf (failed ∷ rest) w h = absurd w
fill-Filled n closed buf (bytes [] ∷ rest) w h = absurd (omega arith)
fill-Filled n closed buf (bytes (b ∷ bs) ∷ rest) w h = elim (Bool-cases (ltb (length buf) n)) [
  | inl short ↦
      let same = append_assoc buf (b ∷ bs) (content rest) in
      let later = fill-Filled n closed (buf ++ b ∷ bs) rest w.1 (rw same h) in
      rw short (record {
        succeeds = later.succeeds;
        enough = later.enough;
        flows = later.flows;
        same = later.same ∙ same;
      })
  | inr full ↦
      rw full (record { succeeds = refl; enough = ltb_ge _ _ full; flows = w; same = refl })
]

-- The bytes that carry a frame: its length and its encoding.
abbrev pub frame_bytes : SessionFrame → List ℕ
frame_bytes f = be32 (length (encode f)) ++ encode f

prefix_len-append : (xs ys : List ℕ) → 4 ≤ length xs → prefix_len (xs ++ ys) ≡ prefix_len xs
unfolding prefix_len
prefix_len-append xs ys h = rw (
  get_or-append_left 0 xs ys 0 (omega arith),
  get_or-append_left 1 xs ys 0 (omega arith),
  get_or-append_left 2 xs ys 0 (omega arith),
  get_or-append_left 3 xs ys 0 (omega arith),
)

prefix_len-be32 : (n : ℕ) (ys : List ℕ) → n < 2 ^ 32 → prefix_len (be32 n ++ ys) ≡ n
unfolding prefix_len be32
prefix_len-be32 n ys h = from_be32-be32 n h

drop_prefix : (n : ℕ) (ys : List ℕ) → drop 4 (be32 n ++ ys) ≡ ys
unfolding be32
drop_prefix n ys = refl

length-be32 : (n : ℕ) → length (be32 n) ≡ 4
unfolding be32
length-be32 n = refl

-- What one frame's reception leaves behind.
pub record Receives (f : SessionFrame) (rest : List ℕ) (o : Outcome RecvError SessionFrame × Reader)
    : Type 0 where
  pub received : o.0 ≡ ok f
  pub flows : IsFlowing o.1.incoming
  pub left : pending o.1 ≡ rest

take_frame-Receives :
    (f : SessionFrame) (rest : List ℕ) (r : Reader)
    → IsFrame f
    → IsFlowing r.incoming
    → 4 + length (encode f) ≤ length r.read_buf
    → pending r ≡ frame_bytes f ++ rest
    → Receives f rest (take_frame (length (encode f)) r)
unfolding take_frame
take_frame-Receives f rest r w flows h e =
    let front : drop 4 r.read_buf ++ content r.incoming ≡ encode f ++ rest =
      sym (drop-append_left 4 r.read_buf (content r.incoming) (omega arith))
      ∙ ap (drop 4) (e ∙ append_assoc (be32 (length (encode f))) (encode f) rest)
      ∙ drop_prefix (length (encode f)) (encode f ++ rest) in
    let fits : length (encode f) ≤ length (drop 4 r.read_buf) =
      omega (arith, length-drop 4 r.read_buf) in
    let frame : take (length (encode f)) (drop 4 r.read_buf) ≡ encode f =
      sym (take-append_left (length (encode f)) (drop 4 r.read_buf) (content r.incoming) fits)
      ∙ ap (take (length (encode f))) front
      ∙ take-append (encode f) rest in
    record {
      received = ap frame_result (ap decode frame ∙ decode-encode f w);
      flows = flows;
      left =
          sym (drop-append_left (length (encode f)) (drop 4 r.read_buf) (content r.incoming) fits)
          ∙ ap (drop (length (encode f))) front
          ∙ drop-append (encode f) rest;
    }

-- The length of a frame that fits the u32 of its prefix.
abbrev pub IsSendable : SessionFrame → Type 0
IsSendable f = IsFrame f × (length (encode f) < 2 ^ 32)

recv_payload-Receives :
    (f : SessionFrame) (rest : List ℕ) (r : Reader)
    → IsFrame f
    → IsFlowing r.incoming
    → pending r ≡ frame_bytes f ++ rest
    → Receives f rest (recv_payload (length (encode f)) r)
unfolding recv_payload
recv_payload-Receives f rest r w flows e =
    let total : 4 + length (encode f) ≤ length (pending r) = omega (
      arith,
      ap length e,
      length-append (frame_bytes f) rest,
      length-append (be32 (length (encode f))) (encode f),
      length-be32 (length (encode f)),
    ) in
    let filled =
      fill-Filled (4 + length (encode f)) closed_in_payload r.read_buf r.incoming flows total in
    let long : ltb (length (encode f)) 16 ≡ false = ground (arith, length-encode f) in
    rw (long, filled.succeeds, recv_payload)
      (take_frame-Receives f rest _ w filled.flows filled.enough (filled.same ∙ e))

recv_filled :
    (r : Reader)
    → let o = fill 4 closed_in_prefix r.read_buf r.incoming in
      o.0 ≡ ok tt → recv r ≡ recv_payload (prefix_len o.1.read_buf) o.1
unfolding recv
recv_filled r e = rw (e, recv)

-- A frame that stands next in the stream, partly in the buffer and cut up in any way, is received
-- whole, and the bytes behind it are left for the next call.
pub recv-Receives :
    (f : SessionFrame) (rest : List ℕ) (r : Reader)
    → IsSendable f
    → IsFlowing r.incoming
    → pending r ≡ frame_bytes f ++ rest
    → Receives f rest (recv r)
recv-Receives f rest r w flows e =
    let whole = append_assoc (be32 (length (encode f))) (encode f) rest in
    let total : 4 ≤ length (pending r) = omega (
      arith,
      ap length e,
      length-append (frame_bytes f) rest,
      length-append (be32 (length (encode f))) (encode f),
      length-be32 (length (encode f)),
    ) in
    let filled = fill-Filled 4 closed_in_prefix r.read_buf r.incoming flows total in
    let r' = (fill 4 closed_in_prefix r.read_buf r.incoming).1 in
    let len : prefix_len r'.read_buf ≡ length (encode f) =
      sym (prefix_len-append r'.read_buf (content r'.incoming) filled.enough)
      ∙ ap prefix_len (filled.same ∙ e ∙ whole)
      ∙ prefix_len-be32 (length (encode f)) (encode f ++ rest) w.1 in
    rw (recv_filled r filled.succeeds)
      (rw len (recv_payload-Receives f rest r' w.0 filled.flows (filled.same ∙ e)))
