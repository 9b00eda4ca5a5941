-- ===== src/Serve/Runs.antt =====
-- What a round and a run of the loop keep.
use mathlib.Core.List.{append_assoc, append-nil}
use bonded.Session.{SessionFrame}
use bonded.Serve.{
  Loop, Service, drain_tun, Choice, next_frame, drain_rest, round, Event, tun_arrives,
  forward_arrives, turn, step, serve,
}
use bonded.Serve.Conserve.{returns_sent, forwards_sent, client_data, answers, returns, forwards}
use bonded.Prelude.{
  ◌≡◌, refl, sym, ap, ◌∙◌, Bool, true, false, List, [], ◌∷◌, ◌++◌, arith, Bool-cases, inl, inr,
}
use bonded.Serve.Rounds.{
  can_submit, Lossless, Balance, drain_tun-Quiet, drain_rest-Quiet, after_drain,
}
use bonded.Serve.Branches.{idle_Balance, next_frame-Balance}

round-Balance : (s : Service) (choice : Choice) (l : Loop) → Balance s [] [] l (round s choice l)
unfolding round
round-Balance s choice l = after_drain s l (drain_tun s l) _ (drain_tun-Quiet s l) (λ l₁.
    after_drain s l₁ (drain_rest s l₁) (next_frame s choice) (drain_rest-Quiet s l₁)
      (next_frame-Balance s choice))

-- What comes into the queues in a run.
unfoldable pub tun_arrivals : List Event → List SessionFrame
tun_arrivals [] = []
tun_arrivals (tun_arrives frame ∷ es) = frame ∷ tun_arrivals es
tun_arrivals (forward_arrives frame ∷ es) = tun_arrivals es
tun_arrivals (turn choice ∷ es) = tun_arrivals es

unfoldable pub forward_arrivals : List Event → List SessionFrame
forward_arrivals [] = []
forward_arrivals (forward_arrives frame ∷ es) = frame ∷ forward_arrivals es
forward_arrivals (tun_arrives frame ∷ es) = forward_arrivals es
forward_arrivals (turn choice ∷ es) = forward_arrivals es

step-Balance :
    (s : Service) (e : Event) (l : Loop)
    → Balance s (tun_arrivals (e ∷ [])) (forward_arrivals (e ∷ [])) l (step s e l)
unfolding step tun_arrivals forward_arrivals
step-Balance s (turn choice) l = round-Balance s choice l
step-Balance s (tun_arrives frame) l = record {
  client = λ h. refl;
  answered = λ h. refl;
  returned = λ h g. sym (append_assoc (returns_sent l.sent) l.tun_queue (frame ∷ []));
  passed = λ h g f. sym (append-nil (forwards l));
  sure = λ h. h;
}
step-Balance s (forward_arrives frame) l = record {
  client = λ h. refl;
  answered = λ h. refl;
  returned = λ h g. sym (append-nil (returns l));
  passed = λ h g f. sym (append_assoc (forwards_sent l.sent) l.forward_queue (frame ∷ []));
  sure = λ h. h;
}

tun_arrivals-cons :
    (e : Event) (es : List Event) (fs : List SessionFrame)
    → (fs ++ tun_arrivals (e ∷ [])) ++ tun_arrivals es ≡ fs ++ tun_arrivals (e ∷ es)
unfolding tun_arrivals
tun_arrivals-cons (tun_arrives frame) es fs = append_assoc fs (frame ∷ []) (tun_arrivals es)
tun_arrivals-cons (forward_arrives frame) es fs = append_assoc fs [] (tun_arrivals es)
tun_arrivals-cons (turn choice) es fs = append_assoc fs [] (tun_arrivals es)

forward_arrivals-cons :
    (e : Event) (es : List Event) (fs : List SessionFrame)
    → (fs ++ forward_arrivals (e ∷ [])) ++ forward_arrivals es ≡ fs ++ forward_arrivals (e ∷ es)
unfolding forward_arrivals
forward_arrivals-cons (tun_arrives frame) es fs = append_assoc fs [] (forward_arrivals es)
forward_arrivals-cons (forward_arrives frame) es fs =
    append_assoc fs (frame ∷ []) (forward_arrivals es)
forward_arrivals-cons (turn choice) es fs = append_assoc fs [] (forward_arrivals es)

-- A run after a step that the session went on from.
then_on :
    (s : Service) (e : Event) (es : List Event) (l : Loop) (r r' : Bool × Loop)
    → r.0 ≡ true
    → Balance s (tun_arrivals (e ∷ [])) (forward_arrivals (e ∷ [])) l r
    → Balance s (tun_arrivals es) (forward_arrivals es) r.1 r'
    → Balance s (tun_arrivals (e ∷ es)) (forward_arrivals (e ∷ es)) l r'
then_on s e es l r r' on b c =
    let safe : Lossless s l → Lossless s r.1 =
      λ h. elim h [ inl ends ↦ inl ends | inr sure ↦ inr (b.sure sure) ] in
    record {
      client = λ h. c.client h ∙ b.client h;
      answered = λ h. c.answered h ∙ b.answered on;
      returned = λ h g.
          c.returned (safe h) g
          ∙ ap (λ xs. xs ++ tun_arrivals es) (b.returned h on)
          ∙ tun_arrivals-cons e es (returns l);
      passed = λ h g f.
          c.passed h (safe g) f
          ∙ ap (λ xs. xs ++ forward_arrivals es) (b.passed h g on)
          ∙ forward_arrivals-cons e es (forwards l);
      sure = λ h. c.sure (b.sure h);
    }

-- A step that ends the session, whose event brought nothing.
ended :
    (s : Service) (es : List Event) (l : Loop) (r : Bool × Loop)
    → r.0 ≡ false
    → {ta fa ta' fa' : List SessionFrame} → Balance s ta fa l r
    → Balance s ta' fa' l r
ended s es l r over b = record {
  client = b.client;
  answered = b.answered;
  returned = λ h g. ground arith;
  passed = λ h g f. ground arith;
  sure = b.sure;
}

serve-Balance :
    (s : Service) (es : List Event) (l : Loop)
    → Balance s (tun_arrivals es) (forward_arrivals es) l (serve s es l)
unfolding serve tun_arrivals forward_arrivals
serve-Balance s [] l =
    let b = idle_Balance s l true in
    record {
      client = b.client;
      answered = b.answered;
      returned = b.returned;
      passed = b.passed;
      sure = b.sure;
    }
serve-Balance s (e ∷ es) l =
    let b = step-Balance s e l in
    let later = serve-Balance s es (step s e l).1 in
    elim (Bool-cases (step s e l).0) [
      | inl on ↦ rw (on, serve) (then_on s e es l (step s e l) _ on b later)
      | inr over ↦ rw (over, serve) (ended s es l (step s e l) over b)
    ]

-- In a run of the loop, whatever its events and whichever writes fail, the client's frames that are not
-- heartbeats are submitted once each and in order: those submitted, followed by those still waiting
-- among the pending and the incoming frames, are the same list before and after. (The bridge, where
-- there is one, takes packets.)
pub serve-client_data :
    (s : Service) (es : List Event) (l : Loop)
    → can_submit s ≡ true
    → client_data (serve s es l).1 ≡ client_data l
serve-client_data s es l = (serve-Balance s es l).client

-- While a session goes on, every heartbeat of the client, which is a frame whose flags have the lowest
-- bit and whose payload is empty, is answered by one pong with its connection and sequence number, flag
-- 2 and no payload, in order, whichever writes failed: the pongs sent, followed by those due for the
-- frames still waiting, are the same list before and after.
pub serve-answers :
    (s : Service) (es : List Event) (l : Loop)
    → (serve s es l).0 ≡ true
    → answers (serve s es l).1 ≡ answers l
serve-answers s es l = (serve-Balance s es l).answered

-- While a session goes on, every frame that the bridge queues for the client is sent once and in order:
-- those sent, followed by those queued, are at the end the ones at the start followed by the arrivals.
-- (A write that fails in a drain ends the session, as over QUIC, or no write fails.)
pub serve-returns :
    (s : Service) (es : List Event) (l : Loop)
    → Lossless s l
    → (serve s es l).0 ≡ true
    → returns (serve s es l).1 ≡ returns l ++ tun_arrivals es
serve-returns s es l safe on = (serve-Balance s es l).returned safe on

-- Without a bridge the same holds of the frames that the forwarder queues for the client. (A write that
-- fails in a drain ends the session, as over QUIC, or no write fails.)
pub serve-forwards :
    (s : Service) (es : List Event) (l : Loop)
    → s.use_tun_bridge ≡ false
    → Lossless s l
    → (serve s es l).0 ≡ true
    → forwards (serve s es l).1 ≡ forwards l ++ forward_arrivals es
serve-forwards s es l bridgeless safe on = (serve-Balance s es l).passed bridgeless safe on
