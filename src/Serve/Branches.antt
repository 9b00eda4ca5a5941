-- ===== src/Serve/Branches.antt =====
-- What the branches of a round keep.
use mathlib.Core.List.{append_assoc, append-nil}
use bonded.Session.{SessionFrame}
use bonded.Serve.{
  tun_return, forwarded, Loop, Service, send_logged, handle_frame, Choice, take_tun, take_forward,
  hear, tun_closed, forward_closed, select, next_frame,
}
use bonded.Serve.Conserve.{
  pongs_sent, returns_sent, forwards_sent, returns, forwards, pongs_sent-append,
  returns_sent-append, forwards_sent-append, send_logged-Written,
}
use bonded.Prelude.{
  ◌≡◌, refl, sym, subst, Bool, true, false, none, List, [], ◌∷◌, arith, Bool-cases, inl, inr,
  List-cases, Option-cases,
}
use bonded.Serve.Rounds.{Balance}
use bonded.Serve.Frames.{Heard, handle_frame-Balance}

-- Nothing has happened.
pub idle_Balance : (s : Service) (l : Loop) (on : Bool) → Balance s [] [] l (on, l)
idle_Balance s l on = record {
  client = λ h. refl;
  answered = λ h. refl;
  returned = λ h g. sym (append-nil (returns l));
  passed = λ h g f. sym (append-nil (forwards l));
  sure = λ h. h;
}

take_tun-Balance :
    (s : Service) (frame : SessionFrame) (queue : List SessionFrame) (l : Loop)
    → l.tun_queue ≡ frame ∷ queue
    → Balance s [] [] l (send_logged s tun_return frame (record l { tun_queue = queue }))
unfolding pongs_sent returns_sent forwards_sent
take_tun-Balance s frame queue l there =
    let w = send_logged-Written s tun_return frame (record l { tun_queue = queue }) in
    let sent = tun_return frame ∷ [] in
    record {
      client = λ h. grind arith;
      answered = λ h. grind (arith, pongs_sent-append l.sent sent, append-nil (pongs_sent l.sent));
      returned = λ h g. grind (arith, returns_sent-append l.sent sent, append-nil, append_assoc);
      passed = λ h g f. grind (arith, forwards_sent-append l.sent sent, append-nil);
      sure = λ h. grind arith;
    }

take_forward-Balance :
    (s : Service) (frame : SessionFrame) (queue : List SessionFrame) (l : Loop)
    → l.forward_queue ≡ frame ∷ queue
    → Balance s [] [] l (send_logged s forwarded frame (record l { forward_queue = queue }))
unfolding pongs_sent returns_sent forwards_sent
take_forward-Balance s frame queue l there =
    let w = send_logged-Written s forwarded frame (record l { forward_queue = queue }) in
    let sent = forwarded frame ∷ [] in
    record {
      client = λ h. grind arith;
      answered = λ h. grind (arith, pongs_sent-append l.sent sent, append-nil (pongs_sent l.sent));
      returned = λ h g. grind (arith, returns_sent-append l.sent sent, append-nil);
      passed = λ h g f. grind (arith, forwards_sent-append l.sent sent, append-nil, append_assoc);
      sure = λ h. grind arith;
    }

-- With a bridge, what comes to the forwarder's queue is dropped.
drop_forward-Balance :
    (s : Service) (queue : List SessionFrame) (l : Loop)
    → s.use_tun_bridge ≡ true
    → Balance s [] [] l (true, record l { forward_queue = queue })
drop_forward-Balance s queue l bridged = record {
  client = λ h. refl;
  answered = λ h. refl;
  returned = λ h g. sym (append-nil (returns l));
  passed = λ h g f. ground arith;
  sure = λ h. h;
}

-- To go over to the result that a branch computes to.
by_result :
    (s : Service) (l : Loop) (r r' : Bool × Loop)
    → r ≡ r'
    → Balance s [] [] l r'
    → Balance s [] [] l r
by_result s l r r' e b = subst (Balance s [] [] l) (sym e) b

select-Balance :
    (s : Service) (choice : Choice) (l : Loop)
    → l.pending_frame ≡ none
    → Balance s [] [] l (select s choice l)
unfolding select
select-Balance s take_tun l empty = elim (List-cases l.tun_queue) [
  | inl nothing ↦
      by_result s l (select s take_tun l) (true, l) (ground arith) (idle_Balance s l true)
  | inr (frame, queue, there) ↦
      by_result s l (select s take_tun l)
        (send_logged s tun_return frame (record l { tun_queue = queue })) (ground arith)
        (take_tun-Balance s frame queue l there)
]
select-Balance s take_forward l empty = elim (List-cases l.forward_queue) [
  | inl nothing ↦
      by_result s l (select s take_forward l) (true, l) (ground arith) (idle_Balance s l true)
  | inr (frame, queue, there) ↦
      let rest : Loop = record l { forward_queue = queue } in
      elim (Bool-cases s.use_tun_bridge) [
        | inl bridged ↦
            by_result s l (select s take_forward l) (true, rest) (ground arith)
              (drop_forward-Balance s queue l bridged)
        | inr bridgeless ↦
            by_result s l (select s take_forward l) (send_logged s forwarded frame rest)
              (ground arith) (take_forward-Balance s frame queue l there)
      ]
]
select-Balance s hear l empty = elim (List-cases l.incoming) [
  | inl nothing ↦ by_result s l (select s hear l) (false, l) (ground arith) (idle_Balance s l false)
  | inr (frame, frames, there) ↦
      let rest : Loop = record l { incoming = frames } in
      let took : Heard frame l rest = record {
        heard = ground arith;
        submitted = refl;
        sent = refl;
        tun = refl;
        forward = refl;
        accepts = refl;
      } in
      by_result s l (select s hear l) (handle_frame s frame rest) (ground arith)
        (handle_frame-Balance s frame l rest took)
]
select-Balance s tun_closed l empty = idle_Balance s l false
select-Balance s forward_closed l empty = idle_Balance s l s.use_tun_bridge

pub next_frame-Balance :
    (s : Service) (choice : Choice) (l : Loop) → Balance s [] [] l (next_frame s choice l)
unfolding next_frame
next_frame-Balance s choice l = elim (Option-cases l.pending_frame) [
  | inl nothing ↦
      by_result s l (next_frame s choice l) (select s choice l) (ground arith)
        (select-Balance s choice l nothing)
  | inr (frame, there) ↦
      let rest : Loop = record l { pending_frame = none } in
      let took : Heard frame l rest = record {
        heard = ground arith;
        submitted = refl;
        sent = refl;
        tun = refl;
        forward = refl;
        accepts = refl;
      } in
      by_result s l (next_frame s choice l) (handle_frame s frame rest) (ground arith)
        (handle_frame-Balance s frame l rest took)
]
