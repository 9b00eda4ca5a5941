-- ===== src/Serve/Conserve.antt =====
-- What the loop does to the frames that wait, on either side of it.
use bonded.Session.{SessionFrame}
use mathlib.Core.List.{append_assoc, append-nil}
use bonded.Serve.{
  Sent, tun_return, forwarded, pong, Loop, Service, is_heartbeat, pong_of, log_payload, transmit,
  send_logged, drain_queue,
}
use bonded.Prelude.{
  ◌&&◌, ◌%◌, ◌==◌, length, ℕ, zero, suc, ◌≡◌, refl, sym, ap, ◌∙◌, Bool, true, false, none, some,
  List, [], ◌∷◌, ◌++◌, map, if◌then◌else◌, arith, Bool-cases, inl, inr,
}

-- The client's frames that the loop has not handled.
abbrev pub waiting : Loop → List SessionFrame
waiting l = elim l.pending_frame [ none ↦ l.incoming | some frame ↦ frame ∷ l.incoming ]

-- What a heartbeat is: its flags have the lowest bit, and it has no payload.
unfoldable pub asks_for_pong : SessionFrame → Bool
asks_for_pong frame = (frame.header.flags % 2 == 1) && (length frame.payload == 0)

-- The pong that a heartbeat is due: of its connection and number, with flag 2 and no payload.
unfoldable pub due_pong : SessionFrame → SessionFrame
due_pong frame = record {
  header = record {
    connection_id = frame.header.connection_id;
    sequence = frame.header.sequence;
    flags = 2;
  };
  payload = [];
}

pub is_heartbeat-asks_for_pong : (frame : SessionFrame) → is_heartbeat frame ≡ asks_for_pong frame
unfolding is_heartbeat asks_for_pong
is_heartbeat-asks_for_pong frame = ground arith

pub pong_of-due_pong :
    (frame : SessionFrame) → is_heartbeat frame ≡ true → pong_of frame ≡ due_pong frame
unfolding is_heartbeat pong_of due_pong
pong_of-due_pong frame h = ground arith

unfoldable pub data_frames : List SessionFrame → List SessionFrame
unfolding asks_for_pong
data_frames [] = []
data_frames (frame ∷ frames) =
    if asks_for_pong frame then data_frames frames else frame ∷ data_frames frames

unfoldable pub pongs_due : List SessionFrame → List SessionFrame
unfolding asks_for_pong due_pong
pongs_due [] = []
pongs_due (frame ∷ frames) =
    if asks_for_pong frame then due_pong frame ∷ pongs_due frames else pongs_due frames

-- What was sent, by where it comes from.
unfoldable pub pongs_sent : List Sent → List SessionFrame
pongs_sent [] = []
pongs_sent (pong frame ∷ xs) = frame ∷ pongs_sent xs
pongs_sent (tun_return frame ∷ xs) = pongs_sent xs
pongs_sent (forwarded frame ∷ xs) = pongs_sent xs

unfoldable pub returns_sent : List Sent → List SessionFrame
returns_sent [] = []
returns_sent (tun_return frame ∷ xs) = frame ∷ returns_sent xs
returns_sent (pong frame ∷ xs) = returns_sent xs
returns_sent (forwarded frame ∷ xs) = returns_sent xs

unfoldable pub forwards_sent : List Sent → List SessionFrame
forwards_sent [] = []
forwards_sent (forwarded frame ∷ xs) = frame ∷ forwards_sent xs
forwards_sent (pong frame ∷ xs) = forwards_sent xs
forwards_sent (tun_return frame ∷ xs) = forwards_sent xs

-- Handled or waiting, in order.
abbrev pub client_data : Loop → List SessionFrame
client_data l = l.submitted ++ data_frames (waiting l)

abbrev pub answers : Loop → List SessionFrame
answers l = pongs_sent l.sent ++ pongs_due (waiting l)

abbrev pub returns : Loop → List SessionFrame
returns l = returns_sent l.sent ++ l.tun_queue

abbrev pub forwards : Loop → List SessionFrame
forwards l = forwards_sent l.sent ++ l.forward_queue

pub pongs_sent-append : (xs ys : List Sent) → pongs_sent (xs ++ ys) ≡ pongs_sent xs ++ pongs_sent ys
unfolding pongs_sent
pongs_sent-append [] ys = refl
pongs_sent-append (pong frame ∷ xs) ys = ap (λ zs. frame ∷ zs) (pongs_sent-append xs ys)
pongs_sent-append (tun_return frame ∷ xs) ys = pongs_sent-append xs ys
pongs_sent-append (forwarded frame ∷ xs) ys = pongs_sent-append xs ys

pub returns_sent-append :
    (xs ys : List Sent) → returns_sent (xs ++ ys) ≡ returns_sent xs ++ returns_sent ys
unfolding returns_sent
returns_sent-append [] ys = refl
returns_sent-append (tun_return frame ∷ xs) ys = ap (λ zs. frame ∷ zs) (returns_sent-append xs ys)
returns_sent-append (pong frame ∷ xs) ys = returns_sent-append xs ys
returns_sent-append (forwarded frame ∷ xs) ys = returns_sent-append xs ys

pub forwards_sent-append :
    (xs ys : List Sent) → forwards_sent (xs ++ ys) ≡ forwards_sent xs ++ forwards_sent ys
unfolding forwards_sent
forwards_sent-append [] ys = refl
forwards_sent-append (forwarded frame ∷ xs) ys = ap (λ zs. frame ∷ zs) (forwards_sent-append xs ys)
forwards_sent-append (pong frame ∷ xs) ys = forwards_sent-append xs ys
forwards_sent-append (tun_return frame ∷ xs) ys = forwards_sent-append xs ys

-- What one write does: only `sent`, `accepts` and `logged` can change.
pub record Written (x : Sent) (l : Loop) (r : Bool × Loop) : Type 0 where
  pub submitted_kept : r.1.submitted ≡ l.submitted
  pub waiting_kept : waiting r.1 ≡ waiting l
  pub tun_kept : r.1.tun_queue ≡ l.tun_queue
  pub forward_kept : r.1.forward_queue ≡ l.forward_queue
  pub writes : r.0 ≡ true → r.1.sent ≡ l.sent ++ x ∷ []
  pub fails : r.0 ≡ false → r.1.sent ≡ l.sent
  pub sure : l.accepts ≡ [] → (r.0 ≡ true) × (r.1.accepts ≡ [])

pub transmit-Written : (x : Sent) (l : Loop) → Written x l (transmit x l)
unfolding transmit
transmit-Written x l = record {
  submitted_kept = ground arith;
  waiting_kept = ground arith;
  tun_kept = ground arith;
  forward_kept = ground arith;
  writes = λ h. ground arith;
  fails = λ h. ground arith;
  sure = λ h. ground arith;
}

pub send_logged-Written :
    (s : Service) (tag : SessionFrame → Sent) (frame : SessionFrame) (l : Loop)
    → Written (tag frame) l (send_logged s tag frame l)
unfolding send_logged log_payload transmit
send_logged-Written s tag frame l = record {
  submitted_kept = ground arith;
  waiting_kept = ground arith;
  tun_kept = ground arith;
  forward_kept = ground arith;
  writes = λ h. ground arith;
  fails = λ h. ground arith;
  sure = λ h. ground arith;
}

-- What a drain does: it sends the frames it takes off the queue, and a frame is lost only with a write
-- that fails.
pub record Drained (tag : SessionFrame → Sent) (queue : List SessionFrame) (l : Loop)
    (r : Bool × List SessionFrame × Loop) : Type 0 where
  pub taken : List SessionFrame
  pub submitted_kept : r.2.submitted ≡ l.submitted
  pub waiting_kept : waiting r.2 ≡ waiting l
  pub tun_kept : r.2.tun_queue ≡ l.tun_queue
  pub forward_kept : r.2.forward_queue ≡ l.forward_queue
  pub writes : r.2.sent ≡ l.sent ++ map tag taken
  pub keeps : r.0 ≡ true → queue ≡ taken ++ r.1
  pub sure : l.accepts ≡ [] → (r.0 ≡ true) × (r.2.accepts ≡ [])

drained_on :
    (s : Service) (n : ℕ) (tag : SessionFrame → Sent) (frame : SessionFrame)
    (queue : List SessionFrame) (l : Loop)
    → (send_logged s tag frame l).0 ≡ true
    → Written (tag frame) l (send_logged s tag frame l)
    → Drained tag queue
        (send_logged s tag frame l).1
        (drain_queue s n tag queue (send_logged s tag frame l).1)
    → Drained tag (frame ∷ queue) l (drain_queue s (suc n) tag (frame ∷ queue) l)
unfolding drain_queue
drained_on s n tag frame queue l went w later =
    let sent = w.writes went in
    let same = append_assoc l.sent (tag frame ∷ []) (map tag later.taken) in
    rw (went, drain_queue)
      (record {
        taken = frame ∷ later.taken;
        submitted_kept = later.submitted_kept ∙ w.submitted_kept;
        waiting_kept = later.waiting_kept ∙ w.waiting_kept;
        tun_kept = later.tun_kept ∙ w.tun_kept;
        forward_kept = later.forward_kept ∙ w.forward_kept;
        writes = later.writes ∙ ap (λ xs. xs ++ map tag later.taken) sent ∙ same;
        keeps = λ h. ap (λ xs. frame ∷ xs) (later.keeps h);
        sure = λ h. later.sure (w.sure h).1;
      })

drained_off :
    (s : Service) (n : ℕ) (tag : SessionFrame → Sent) (frame : SessionFrame)
    (queue : List SessionFrame) (l : Loop)
    → (send_logged s tag frame l).0 ≡ false
    → Written (tag frame) l (send_logged s tag frame l)
    → Drained tag (frame ∷ queue) l (drain_queue s (suc n) tag (frame ∷ queue) l)
unfolding drain_queue
drained_off s n tag frame queue l failed w =
    rw (failed, drain_queue)
      (record {
        taken = [];
        submitted_kept = w.submitted_kept;
        waiting_kept = w.waiting_kept;
        tun_kept = w.tun_kept;
        forward_kept = w.forward_kept;
        writes = w.fails failed ∙ sym (append-nil l.sent);
        keeps = λ h. ground arith;
        sure = λ h. let (went, rest) = w.sure h in ground arith;
      })

pub drain_queue-Drained :
    (s : Service) (n : ℕ) (tag : SessionFrame → Sent) (queue : List SessionFrame) (l : Loop)
    → Drained tag queue l (drain_queue s n tag queue l)
unfolding drain_queue
drain_queue-Drained s zero tag queue l = record {
  taken = [];
  submitted_kept = refl;
  waiting_kept = refl;
  tun_kept = refl;
  forward_kept = refl;
  writes = sym (append-nil l.sent);
  keeps = λ h. refl;
  sure = λ h. (refl, h);
}
drain_queue-Drained s (suc n) tag [] l = record {
  taken = [];
  submitted_kept = refl;
  waiting_kept = refl;
  tun_kept = refl;
  forward_kept = refl;
  writes = sym (append-nil l.sent);
  keeps = λ h. refl;
  sure = λ h. (refl, h);
}
drain_queue-Drained s (suc n) tag (frame ∷ queue) l =
    let w = send_logged-Written s tag frame l in
    let later = drain_queue-Drained s n tag queue (send_logged s tag frame l).1 in
    elim (Bool-cases (send_logged s tag frame l).0) [
      | inl went ↦ drained_on s n tag frame queue l went w later
      | inr failed ↦ drained_off s n tag frame queue l failed w
    ]
