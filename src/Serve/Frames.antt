-- ===== src/Serve/Frames.antt =====
-- What handling one frame of the client keeps.
use mathlib.Core.List.{append_assoc, append-nil}
use bonded.Session.{SessionFrame}
use bonded.Serve.{
  pong, Loop, Service, is_heartbeat, pong_of, log_payload, send_logged, submit, handle_frame,
}
use bonded.Serve.Conserve.{
  due_pong, is_heartbeat-asks_for_pong, pong_of-due_pong, waiting, data_frames, pongs_due,
  pongs_sent, returns_sent, forwards_sent, pongs_sent-append, returns_sent-append,
  forwards_sent-append, Written, send_logged-Written,
}
use bonded.Prelude.{subst, ◌≡◌, Bool, true, false, [], ◌∷◌, ◌++◌, arith, Bool-cases, inl, inr}
use bonded.Serve.Rounds.{can_submit, Balance}

answer_heartbeat :
    (s : Service) (frame : SessionFrame) (l : Loop)
    → is_heartbeat frame ≡ true
    → Written (pong (pong_of frame)) l (handle_frame s frame l)
unfolding handle_frame pong_of send_logged log_payload
answer_heartbeat s frame l h = rw (h, handle_frame) (send_logged-Written s pong (pong_of frame) l)

pub handle_ping :
    (s : Service) (frame : SessionFrame) (l : Loop)
    → is_heartbeat frame ≡ true
    → Written (pong (due_pong frame)) l (handle_frame s frame l)
handle_ping s frame l h =
    subst (λ p. Written (pong p) l (handle_frame s frame l)) (pong_of-due_pong frame h)
      (answer_heartbeat s frame l h)

-- What becomes of a frame that is not a heartbeat.
pub record Submits (s : Service) (frame : SessionFrame) (l : Loop) (r : Bool × Loop) : Type 0 where
  pub submitted : can_submit s ≡ true → r.1.submitted ≡ l.submitted ++ frame ∷ []
  pub waiting_kept : waiting r.1 ≡ waiting l
  pub sent : r.1.sent ≡ l.sent
  pub tun_kept : r.1.tun_queue ≡ l.tun_queue
  pub forward_kept : r.1.forward_queue ≡ l.forward_queue
  pub accepts : r.1.accepts ≡ l.accepts

pub handle_data :
    (s : Service) (frame : SessionFrame) (l : Loop)
    → is_heartbeat frame ≡ false
    → Submits s frame l (handle_frame s frame l)
unfolding handle_frame log_payload submit can_submit
handle_data s frame l h =
    rw (h, handle_frame)
      (record {
        submitted = λ g. ground arith;
        waiting_kept = ground arith;
        sent = ground arith;
        tun_kept = ground arith;
        forward_kept = ground arith;
        accepts = ground arith;
      })

-- `l₁` is `l` with the client's first frame taken off.
pub record Heard (frame : SessionFrame) (l l₁ : Loop) : Type 0 where
  pub heard : waiting l ≡ frame ∷ waiting l₁
  pub submitted : l₁.submitted ≡ l.submitted
  pub sent : l₁.sent ≡ l.sent
  pub tun : l₁.tun_queue ≡ l.tun_queue
  pub forward : l₁.forward_queue ≡ l.forward_queue
  pub accepts : l₁.accepts ≡ l.accepts

handle_ping-Balance :
    (s : Service) (frame : SessionFrame) (l l₁ : Loop)
    → Heard frame l l₁
    → is_heartbeat frame ≡ true
    → Balance s [] [] l (handle_frame s frame l₁)
unfolding data_frames pongs_due pongs_sent returns_sent forwards_sent
handle_ping-Balance s frame l l₁ took ping =
    let w = handle_ping s frame l₁ ping in
    let asks = is_heartbeat-asks_for_pong frame in
    record {
      client = λ h. grind arith;
      answered =
          λ h. grind (arith, pongs_sent-append l₁.sent (pong (due_pong frame) ∷ []), append_assoc);
      returned = λ h g.
          grind (arith, returns_sent-append l₁.sent (pong (due_pong frame) ∷ []), append-nil);
      passed = λ h g f.
          grind (arith, forwards_sent-append l₁.sent (pong (due_pong frame) ∷ []), append-nil);
      sure = λ h. grind arith;
    }

handle_data-Balance :
    (s : Service) (frame : SessionFrame) (l l₁ : Loop)
    → Heard frame l l₁
    → is_heartbeat frame ≡ false
    → Balance s [] [] l (handle_frame s frame l₁)
unfolding data_frames pongs_due
handle_data-Balance s frame l l₁ took plain =
    let w = handle_data s frame l₁ plain in
    let asks = is_heartbeat-asks_for_pong frame in
    record {
      client = λ h. grind (arith, append_assoc);
      answered = λ h. grind arith;
      returned = λ h g. grind (arith, append-nil);
      passed = λ h g f. grind (arith, append-nil);
      sure = λ h. grind arith;
    }

pub handle_frame-Balance :
    (s : Service) (frame : SessionFrame) (l l₁ : Loop)
    → Heard frame l l₁
    → Balance s [] [] l (handle_frame s frame l₁)
handle_frame-Balance s frame l l₁ took = elim (Bool-cases (is_heartbeat frame)) [
  | inl ping ↦ handle_ping-Balance s frame l l₁ took ping
  | inr plain ↦ handle_data-Balance s frame l l₁ took plain
]
