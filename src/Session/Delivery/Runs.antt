-- ===== src/Session/Delivery/Runs.antt =====
-- Whole runs of a receiving end.
use bonded.Session.Delivery.{
  absorb, receive, upto, Arrives, Sent, Received, Known, absorb-Received, absorb-stays,
  absorb-Known,
}
use bonded.Prelude.Map.{lookup}
use bonded.Session.{SessionFrame, SessionState, new}
use bonded.Prelude.{
  ℕ, ◌≤◌, ◌<◌, ◌≡◌, ◌⊎◌, refl, ap, ◌∙◌, List, [], ◌∷◌, ◌++◌, map, All, arith, none, ltb, ltb_ge,
  ltb→lt, Bool-cases, inl, inr, nat_eq,
}
use mathlib.Core.List.{append-nil, append_assoc}

-- The run: what is handed out after what was handed out before.
receive-Received :
    {connection limit : ℕ} {sent : ℕ → SessionFrame} (s : Sent connection limit sent)
    (st : SessionState) (out : List SessionFrame) (ks : List ℕ)
    → Received connection limit sent st out
    → All (λ k. k < limit) ks
    → let r = receive st (map sent ks) in
      Received connection limit sent r.1 (out ++ r.0)
      × ((j : ℕ) → (Known j st ⊎ Arrives j ks) → Known j r.1)
unfolding receive
receive-Received s st out [] r lt =
    (rw (append-nil out) r, (λ j. elim [ inl h ↦ h | inr h ↦ absurd h ]))
receive-Received {sent = sent} s st out (k ∷ ks) r lt =
    let (later, known) =
      receive-Received s (absorb st (sent k)).1 (out ++ (absorb st (sent k)).0) ks
        (absorb-Received s st out r k lt.0) lt.1 in
    (
      rw (← append_assoc out (absorb st (sent k)).0 _) later,
      (λ j. elim [
        | inl h ↦ known j (inl (absorb-stays s st out r k lt.0 j h))
        | inr (inl e) ↦ known j (inl (rw e (absorb-Known s st out r k lt.0)))
        | inr (inr h) ↦ known j (inr h)
      ]),
    )

new-Received :
    (connection limit : ℕ) (sent : ℕ → SessionFrame)
    → Received connection limit sent (new connection) []
unfolding new lookup
new-Received connection limit sent = record {
  connected = refl;
  prefix = refl;
  within = omega arith;
  waiting = λ k f h. cc;
  drained = refl;
}

-- Safety: whatever frames of the sender arrive, in whatever order and however often, what has been
-- handed out is exactly the frames 0, 1, ... below the expected number, in the order of sending.
pub receive-prefix :
    (connection limit : ℕ) (sent : ℕ → SessionFrame) (ks : List ℕ)
    → Sent connection limit sent
    → All (λ k. k < limit) ks
    → let r = receive (new connection) (map sent ks) in
      (r.0 ≡ map sent (upto r.1.next_rx_sequence)) × (r.1.next_rx_sequence ≤ limit)
receive-prefix connection limit sent ks s lt =
    let (r, _) =
      receive-Received s (new connection) [] ks (new-Received connection limit sent) lt in
    (r.prefix, r.within)

-- The expected number waits for nobody that has arrived.
not-Known-next :
    (st : SessionState)
    → lookup st.next_rx_sequence st.reorder_buffer ≡ none
    → ¬ Known st.next_rx_sequence st
not-Known-next st d (inl p) = omega arith
not-Known-next st d (inr (f, h)) = cc

reached :
    (st : SessionState) (limit : ℕ)
    → st.next_rx_sequence ≤ limit
    → lookup st.next_rx_sequence st.reorder_buffer ≡ none
    → ((j : ℕ) → j < limit → Known j st)
    → st.next_rx_sequence ≡ limit
reached st limit le d all = elim (Bool-cases (ltb st.next_rx_sequence limit)) [
  | inl lt ↦ absurd (not-Known-next st d (all st.next_rx_sequence (ltb→lt _ _ lt)))
  | inr ge ↦ omega (arith, ltb_ge st.next_rx_sequence limit ge)
]

-- Delivery: once each of the frames below `limit` has arrived, in whatever order, exactly these have been
-- handed out, once each and in the order of sending.
pub receive_complete :
    (connection limit : ℕ) (sent : ℕ → SessionFrame) (ks : List ℕ)
    → Sent connection limit sent
    → All (λ k. k < limit) ks
    → ((j : ℕ) → j < limit → Arrives j ks)
    → (receive (new connection) (map sent ks)).0 ≡ map sent (upto limit)
receive_complete connection limit sent ks s lt all =
    let (r, known) =
      receive-Received s (new connection) [] ks (new-Received connection limit sent) lt in
    r.prefix
    ∙ ap (λ n. map sent (upto n))
        (reached (receive (new connection) (map sent ks)).1 limit r.within r.drained
          (λ j p. known j (inr (all j p))))
