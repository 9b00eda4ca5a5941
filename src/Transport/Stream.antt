-- ===== src/Transport/Stream.antt =====
-- Many frames over one connection.
use bonded.Bytes.{be32}
use bonded.Session.{SessionFrame, encode}
use bonded.Transport.{
  Arrival, RecvError, Reader, Writer, SendError, write_failed, frame_too_large, recv, send,
  quic_send, write_all, then_write,
}
use bonded.Transport.Framing.{content, IsFlowing, pending, frame_bytes, IsSendable, recv-Receives}
use bonded.Prelude.{
  ℕ, zero, suc, ◌≤◌, ◌<◌, ◌^◌, ◌≡◌, refl, ap, ◌∙◌, List, [], ◌∷◌, ◌++◌, ok, err, arith, length,
  Bool, ltb, ltb→lt, ltb_ge, ◌⊎◌, false, true, Bool-cases, inl, inr, All, Outcome,
}
use mathlib.Core.List.{append-nil, append_assoc}

-- Sends one frame after another, up to the first error.
unfoldable pub send_frames : List SessionFrame → Writer → Outcome SendError (Unit {0}) × Writer
send_frames [] w = (ok tt, w)
send_frames (f ∷ fs) w = elim (send f w).0 [
  | ok _ ↦ send_frames fs (send f w).1
  | err e ↦ (err e, (send f w).1)
]

-- Receives as many frames as asked for, up to the first error.
unfoldable pub recv_frames : ℕ → Reader → Outcome RecvError (List SessionFrame) × Reader
recv_frames zero r = (ok [], r)
recv_frames (suc n) r = elim (recv r).0 [
  | err e ↦ (err e, (recv r).1)
  | ok f ↦
      let later = recv_frames n (recv r).1 in
      (elim later.0 [ ok fs ↦ ok (f ∷ fs) | err e ↦ err e ], later.1)
]

abbrev pub frames_bytes : List SessionFrame → List ℕ
frames_bytes [] = []
frames_bytes (f ∷ fs) = frame_bytes f ++ frames_bytes fs

-- What a call of `send` has written, on each of its outcomes.
abbrev pub Written : SessionFrame → Writer → Outcome SendError (Unit {0}) × Writer → Type 0
Written f w (ok _, w') = (length (encode f) < 2 ^ 32) × (w'.written ≡ w.written ++ frame_bytes f)
Written f w (err (frame_too_large n), w') =
    (2 ^ 32 ≤ length (encode f)) × (n ≡ length (encode f)) × (w'.written ≡ w.written)
Written f w (err write_failed, w') =
    (w'.written ≡ w.written)
    ⊎ (w'.written ≡ w.written ++ be32 (length (encode f)))
    ⊎ (w'.written ≡ w.written ++ frame_bytes f)

writes-Written :
    (f : SessionFrame) (written : List ℕ) (accepts : List Bool)
    → length (encode f) < 2 ^ 32
    → let w : Writer = record { written = written; accepts = accepts } in
      Written f w (
        then_write
          (then_write (write_all (be32 (length (encode f))) w) (write_all (encode f)))
          (write_all []))
      × Written f w (then_write (write_all (be32 (length (encode f))) w) (write_all (encode f)))
unfolding write_all then_write
writes-Written f written [] h =
    let whole = append_assoc written (be32 (length (encode f))) (encode f) in
    let flushed = append-nil ((written ++ be32 (length (encode f))) ++ encode f) in ground arith
writes-Written f written (false ∷ a) h =
    let whole = append_assoc written (be32 (length (encode f))) (encode f) in
    let flushed = append-nil ((written ++ be32 (length (encode f))) ++ encode f) in ground arith
writes-Written f written (true ∷ []) h =
    let whole = append_assoc written (be32 (length (encode f))) (encode f) in
    let flushed = append-nil ((written ++ be32 (length (encode f))) ++ encode f) in ground arith
writes-Written f written (true ∷ false ∷ a) h =
    let whole = append_assoc written (be32 (length (encode f))) (encode f) in
    let flushed = append-nil ((written ++ be32 (length (encode f))) ++ encode f) in ground arith
writes-Written f written (true ∷ true ∷ []) h =
    let whole = append_assoc written (be32 (length (encode f))) (encode f) in
    let flushed = append-nil ((written ++ be32 (length (encode f))) ++ encode f) in ground arith
writes-Written f written (true ∷ true ∷ false ∷ a) h =
    let whole = append_assoc written (be32 (length (encode f))) (encode f) in
    let flushed = append-nil ((written ++ be32 (length (encode f))) ++ encode f) in ground arith
writes-Written f written (true ∷ true ∷ true ∷ a) h =
    let whole = append_assoc written (be32 (length (encode f))) (encode f) in
    let flushed = append-nil ((written ++ be32 (length (encode f))) ++ encode f) in ground arith

-- `Ok` says that the frame fits the u32 of the prefix and that exactly its length and its encoding
-- were written behind what was there. A frame that does not fit is refused with nothing written. A
-- failed write leaves nothing, the length, or (where the flush failed) the whole frame. The same
-- holds of QUIC.
pub send-Written :
    (f : SessionFrame) (w : Writer) → Written f w (send f w) × Written f w (quic_send f w)
unfolding send quic_send
send-Written f w = elim (Bool-cases (ltb (length (encode f)) (2 ^ 32))) [
  | inl fits ↦ rw fits (writes-Written f w.written w.accepts (ltb→lt _ _ fits))
  | inr large ↦ rw large ((ltb_ge _ _ large, refl, refl), (ltb_ge _ _ large, refl, refl))
]

-- A stream that accepts every write carries a sendable frame.
send_accepted :
    (f : SessionFrame) (written : List ℕ)
    → IsSendable f
    → send f (record { written = written; accepts = [] })
      ≡ (ok tt, record { written = written ++ frame_bytes f; accepts = [] })
unfolding send
send_accepted f written h =
    let whole = append_assoc written (be32 (length (encode f))) (encode f) in
    let flushed = append-nil ((written ++ be32 (length (encode f))) ++ encode f) in
    ground (arith, h.1)

send_frames_accepted :
    (fs : List SessionFrame) (written : List ℕ)
    → All IsSendable fs
    → send_frames fs (record { written = written; accepts = [] })
      ≡ (ok tt, record { written = written ++ frames_bytes fs; accepts = [] })
unfolding send_frames
send_frames_accepted [] written h = rw (append-nil written)
send_frames_accepted (f ∷ fs) written h =
    let rest = send_frames_accepted fs (written ++ frame_bytes f) h.1 in
    let whole = append_assoc written (frame_bytes f) (frames_bytes fs) in
    ground (arith, send_accepted f written h.0, rest)

recv_frames_lem :
    (fs : List SessionFrame) (r : Reader)
    → All IsSendable fs
    → IsFlowing r.incoming
    → pending r ≡ frames_bytes fs
    → (recv_frames (length fs) r).0 ≡ ok fs
unfolding recv_frames
recv_frames_lem [] r h flows e = refl
recv_frames_lem (f ∷ fs) r h flows e =
    let first = recv-Receives f (frames_bytes fs) r h.0 flows e in
    let later = recv_frames_lem fs (recv r).1 h.1 first.flows first.left in
    rw (first.received, recv_frames) (rw later)

-- Frames sent over a connection that accepts every write are received, whatever pieces the bytes
-- arrive in: the same frames in the same order.
pub recv_frames-send_frames :
    (fs : List SessionFrame) (incoming : List Arrival)
    → All IsSendable fs
    → IsFlowing incoming
    → content incoming ≡ (send_frames fs (record { written = []; accepts = [] })).1.written
    → (recv_frames (length fs) (record { read_buf = []; incoming = incoming })).0 ≡ ok fs
recv_frames-send_frames fs incoming h flows e =
    recv_frames_lem fs (record { read_buf = []; incoming = incoming }) h flows
      (e ∙ ap (λ o. o.1.written) (send_frames_accepted fs [] h))
