-- ===== src/Serve/Rounds.antt =====
-- What a drain at the start of a round keeps.
use mathlib.Core.List.{append_assoc, append-nil}
use bonded.Session.{SessionFrame}
use bonded.Serve.{
  tun_return, forwarded, Loop, Service, drain_tun, drain_forward, then_unless, drain_rest,
  max_response_drain_per_cycle,
}
use bonded.Serve.Conserve.{
  pongs_sent, returns_sent, forwards_sent, client_data, answers, returns, forwards,
  pongs_sent-append, returns_sent-append, forwards_sent-append, drain_queue-Drained,
}
use bonded.Prelude.{
  ◌≡◌, refl, ap, ◌∙◌, Bool, true, false, not, ◌&&◌, List, [], ◌∷◌, ◌++◌, map, arith, Bool-cases,
  inl, inr, ◌⊎◌,
}

-- The bridge, where there is one, takes packets.
unfoldable pub can_submit : Service → Bool
can_submit s = not (s.use_tun_bridge && not s.bridge_open)

-- No frame is lost in a drain that goes on: a failed write ends the session, or all writes go through.
abbrev pub Lossless : Service → Loop → Type 0
Lossless s l = (s.drain_failure_ends ≡ true) ⊎ (l.accepts ≡ [])

-- What a stretch of the loop keeps, while `ta` and `fa` come into the queues.
pub record Balance (s : Service) (ta fa : List SessionFrame) (l : Loop) (r : Bool × Loop)
    : Type 0 where
  pub client : can_submit s ≡ true → client_data r.1 ≡ client_data l
  pub answered : r.0 ≡ true → answers r.1 ≡ answers l
  pub returned : Lossless s l → r.0 ≡ true → returns r.1 ≡ returns l ++ ta
  pub passed :
      s.use_tun_bridge ≡ false → Lossless s l → r.0 ≡ true → forwards r.1 ≡ forwards l ++ fa
  pub sure : l.accepts ≡ [] → r.1.accepts ≡ []

-- A drain changes nothing of the client's frames and answers, and where it does not fail, nothing of
-- what is sent or waits for the client.
pub record Quiet (l : Loop) (r : Bool × Loop) : Type 0 where
  pub client : client_data r.1 ≡ client_data l
  pub answered : answers r.1 ≡ answers l
  pub returned : r.0 ≡ true → returns r.1 ≡ returns l
  pub passed : r.0 ≡ true → forwards r.1 ≡ forwards l
  pub sure : l.accepts ≡ [] → (r.0 ≡ true) × (r.1.accepts ≡ [])

pongs-tun : (fs : List SessionFrame) → pongs_sent (map tun_return fs) ≡ []
unfolding pongs_sent
pongs-tun [] = refl
pongs-tun (f ∷ fs) = pongs-tun fs

pongs-forwarded : (fs : List SessionFrame) → pongs_sent (map forwarded fs) ≡ []
unfolding pongs_sent
pongs-forwarded [] = refl
pongs-forwarded (f ∷ fs) = pongs-forwarded fs

returns-tun : (fs : List SessionFrame) → returns_sent (map tun_return fs) ≡ fs
unfolding returns_sent
returns-tun [] = refl
returns-tun (f ∷ fs) = ap (λ xs. f ∷ xs) (returns-tun fs)

returns-forwarded : (fs : List SessionFrame) → returns_sent (map forwarded fs) ≡ []
unfolding returns_sent
returns-forwarded [] = refl
returns-forwarded (f ∷ fs) = returns-forwarded fs

forwards-tun : (fs : List SessionFrame) → forwards_sent (map tun_return fs) ≡ []
unfolding forwards_sent
forwards-tun [] = refl
forwards-tun (f ∷ fs) = forwards-tun fs

forwards-forwarded : (fs : List SessionFrame) → forwards_sent (map forwarded fs) ≡ fs
unfolding forwards_sent
forwards-forwarded [] = refl
forwards-forwarded (f ∷ fs) = ap (λ xs. f ∷ xs) (forwards-forwarded fs)

pub drain_tun-Quiet : (s : Service) (l : Loop) → Quiet l (drain_tun s l)
unfolding drain_tun
drain_tun-Quiet s l =
    let d = drain_queue-Drained s max_response_drain_per_cycle tun_return l.tun_queue l in
    let sent = map tun_return d.taken in
    record {
      client = grind arith;
      answered =
          grind (
            arith,
            pongs_sent-append l.sent sent,
            pongs-tun d.taken,
            append-nil (pongs_sent l.sent),
          );
      returned =
          λ h. grind (arith, returns_sent-append l.sent sent, returns-tun d.taken, append_assoc);
      passed = λ h. grind (
        arith,
        forwards_sent-append l.sent sent,
        forwards-tun d.taken,
        append-nil (forwards_sent l.sent),
      );
      sure = d.sure;
    }

drain_forward-Quiet : (s : Service) (l : Loop) → Quiet l (drain_forward s l)
unfolding drain_forward
drain_forward-Quiet s l =
    let d = drain_queue-Drained s max_response_drain_per_cycle forwarded l.forward_queue l in
    let sent = map forwarded d.taken in
    record {
      client = grind arith;
      answered = grind (
        arith,
        pongs_sent-append l.sent sent,
        pongs-forwarded d.taken,
        append-nil (pongs_sent l.sent),
      );
      returned = λ h. grind (
        arith,
        returns_sent-append l.sent sent,
        returns-forwarded d.taken,
        append-nil (returns_sent l.sent),
      );
      passed = λ h.
          grind (arith, forwards_sent-append l.sent sent, forwards-forwarded d.taken, append_assoc);
      sure = d.sure;
    }

pub drain_rest-Quiet : (s : Service) (l : Loop) → Quiet l (drain_rest s l)
unfolding drain_rest
drain_rest-Quiet s l = elim (Bool-cases s.use_tun_bridge) [
  | inr bridgeless ↦ rw (bridgeless, drain_rest) (drain_forward-Quiet s l)
  | inl bridged ↦
      rw (bridged, drain_rest)
        (record {
          client = refl;
          answered = refl;
          returned = λ h. refl;
          passed = λ h. refl;
          sure = λ h. (refl, h);
        })
]

-- A drain that does not end the session went through, where no frame may be lost.
goes_through :
    (s : Service) (l : Loop) (d : Bool × Loop)
    → Quiet l d
    → (s.drain_failure_ends && not d.0) ≡ false
    → Lossless s l
    → (d.0 ≡ true) × (Lossless s d.1)
goes_through s l d quiet on (inl ends) = (ground arith, inl ends)
goes_through s l d quiet on (inr none_fail) =
    let (went, rest) = quiet.sure none_fail in (went, inr rest)

-- A stretch that a drain comes before.
pub after_drain :
    (s : Service) (l : Loop) (d : Bool × Loop) (k : Loop → Bool × Loop)
    → Quiet l d
    → ((l₁ : Loop) → Balance s [] [] l₁ (k l₁))
    → Balance s [] [] l (then_unless s.drain_failure_ends d k)
unfolding then_unless
after_drain s l d k quiet later = elim (Bool-cases (s.drain_failure_ends && not d.0)) [
  | inl over ↦
      rw (over, then_unless)
        (record {
          client = λ h. quiet.client;
          answered = λ h. quiet.answered;
          returned = λ h g. ground arith;
          passed = λ h g f. ground arith;
          sure = λ h. (quiet.sure h).1;
        })
  | inr on ↦
      let b = later d.1 in
      rw (on, then_unless)
        (record {
          client = λ h. b.client h ∙ quiet.client;
          answered = λ h. b.answered h ∙ quiet.answered;
          returned = λ h g.
              let (went, safe) = goes_through s l d quiet on h in
              b.returned safe g ∙ ap (λ xs. xs ++ []) (quiet.returned went);
          passed = λ h g f.
              let (went, safe) = goes_through s l d quiet on g in
              b.passed h safe f ∙ ap (λ xs. xs ++ []) (quiet.passed went);
          sure = λ h. b.sure (quiet.sure h).1;
        })
]
