-- ===== src/Serve/Datagrams.antt =====
-- The frames of a WireGuard datagram (`handle_decoded_frames`).
use mathlib.Core.List.{append_assoc, append-nil}
use bonded.Session.{SessionFrame}
use bonded.Serve.{
  pong, Loop, Service, is_heartbeat, handle_frame, handle_frame, handle_decoded_frames,
}
use bonded.Serve.Conserve.{
  is_heartbeat-asks_for_pong, due_pong, data_frames, pongs_due, pongs_sent, pongs_sent-append,
}
use bonded.Serve.Rounds.{can_submit}
use bonded.Serve.Frames.{handle_ping, handle_data}
use bonded.Prelude.{◌≡◌, sym, ◌∙◌, true, List, [], ◌∷◌, ◌++◌, arith, Bool-cases, inl, inr}

-- The frames of a WireGuard datagram are handled like those of a session: the heartbeats are answered,
-- each once and in order, and the rest is submitted, in order. (No write fails, and the bridge, where
-- there is one, takes packets.)
pub handle_decoded_frames-handled :
    (s : Service) (frames : List SessionFrame) (l : Loop)
    → can_submit s ≡ true
    → l.accepts ≡ []
    → let after = handle_decoded_frames s frames l in
      (after.submitted ≡ l.submitted ++ data_frames frames)
      × (pongs_sent after.sent ≡ pongs_sent l.sent ++ pongs_due frames)
unfolding handle_decoded_frames data_frames pongs_due pongs_sent
handle_decoded_frames-handled s [] l open_bridge sure =
    (sym (append-nil l.submitted), sym (append-nil (pongs_sent l.sent)))
handle_decoded_frames-handled s (frame ∷ frames) l open_bridge sure =
    elim (Bool-cases (is_heartbeat frame)) [
      | inl ping ↦
          let w = handle_ping s frame l ping in
          let asks = is_heartbeat-asks_for_pong frame in
          let (went, left) = w.sure sure in
          let (submitted, answered) =
            handle_decoded_frames-handled s frames (handle_frame s frame l).1 open_bridge left in
          (
            grind arith,
            grind (arith, pongs_sent-append l.sent (pong (due_pong frame) ∷ []), append_assoc),
          )
      | inr plain ↦
          let w = handle_data s frame l plain in
          let asks = is_heartbeat-asks_for_pong frame in
          let (submitted, answered) =
            handle_decoded_frames-handled s frames (handle_frame s frame l).1 open_bridge
              (w.accepts ∙ sure) in
          (grind (arith, append_assoc), grind arith)
    ]
