-- ===== src/Session/Delivery.antt =====
-- A session's receiving end over many frames: what one frame of a sender does to what has been handed
-- out and to what waits in the buffer.
pub mod Runs
use bonded.Prelude.Map.{
  Map, lookup, remove, or_insert, lookup-remove, lookup-or_insert, or_insert-has, or_insert-keeps,
}
use bonded.Session.{SessionFrame, SessionState, new, flush, ingest_inbound, u64_mod}
use bonded.Session.Ingest.{Drains, stop, next, flush-Drains}
use bonded.Prelude.{
  ℕ, zero, suc, ◌+◌, ◌≤◌, ◌<◌, ◌%◌, ◌≡◌, ◌⊎◌, refl, sym, ap, ◌∙◌, List, [], ◌∷◌, ◌++◌, map, All,
  true, false, ok, err, arith, some, none, ltb, ltb_ge, ltb→lt, Bool-cases, inl, inr, nat_eq, ◌==◌,
}
use mathlib.Core.List.{append-nil, append_assoc, map-append}

-- A frame that arrives; a refused frame hands nothing out and leaves the state as it was.
pub absorb : SessionState → SessionFrame → List SessionFrame × SessionState
unfolding ingest_inbound
absorb st f = elim (ingest_inbound st f) [ err e ↦ ([], st) | ok r ↦ r ]

-- Frames that arrive one after another.
unfoldable pub receive : SessionState → List SessionFrame → List SessionFrame × SessionState
unfolding absorb
receive st [] = ([], st)
receive st (f ∷ fs) =
    let later = receive (absorb st f).1 fs in ((absorb st f).0 ++ later.0, later.1)

-- 0, 1, ..., n - 1.
abbrev pub upto : ℕ → List ℕ
upto zero = []
upto (suc n) = upto n ++ n ∷ []

-- `k` is among the numbers of the frames that arrive.
abbrev pub Arrives : ℕ → List ℕ → Type 0
Arrives k [] = ⊥
Arrives k (j ∷ js) = (k ≡ j) ⊎ Arrives k js

-- A sender: frame `k` has number `k`, all of one connection; fewer than 2^64 frames.
pub record Sent (connection limit : ℕ) (sent : ℕ → SessionFrame) : Type 0 where
  pub numbered : (k : ℕ) → (sent k).header.sequence ≡ k
  pub connected : (k : ℕ) → (sent k).header.connection_id ≡ connection
  pub no_wrap : limit < u64_mod

-- The buffer holds sent frames whose number has not been reached.
abbrev Waiting : ℕ → (ℕ → SessionFrame) → ℕ → Map ℕ SessionFrame → Type 0
Waiting limit sent n m =
    (k : ℕ) (f : SessionFrame) → lookup k m ≡ some f → (n ≤ k) × (k < limit) × (f ≡ sent k)

record Delivers (limit : ℕ) (sent : ℕ → SessionFrame) (n : ℕ) (m : Map ℕ SessionFrame)
    (fs : List SessionFrame) (n' : ℕ) (m' : Map ℕ SessionFrame) : Type 0 where
  extends : map sent (upto n) ++ fs ≡ map sent (upto n')
  grows : n ≤ n'
  within : n' ≤ limit
  waiting : Waiting limit sent n' m'
  kept : (k : ℕ) (f : SessionFrame) → lookup k m ≡ some f → (k < n') ⊎ (lookup k m' ≡ some f)
  drained : lookup n' m' ≡ none

extends_step :
    (sent : ℕ → SessionFrame) (n : ℕ) (f : SessionFrame) (fs : List SessionFrame)
    → f ≡ sent n
    → map sent (upto n) ++ f ∷ fs ≡ map sent (upto (suc n)) ++ fs
extends_step sent n f fs e =
    rw (e, map-append sent (upto n) (n ∷ []), append_assoc (map sent (upto n)) (sent n ∷ []) fs)

remove-Waiting :
    (limit : ℕ) (sent : ℕ → SessionFrame) (n : ℕ) (m : Map ℕ SessionFrame)
    → Waiting limit sent n m
    → Waiting limit sent (suc n) (remove n m)
remove-Waiting limit sent n m w k f h = grind (arith, lookup-remove n k m, w k f)

keep_step :
    (n n' k : ℕ) (m m' : Map ℕ SessionFrame) (f : SessionFrame)
    → suc n ≤ n'
    → ((k : ℕ) (f : SessionFrame)
        → lookup k (remove n m) ≡ some f
        → (k < n') ⊎ (lookup k m' ≡ some f))
    → lookup k m ≡ some f
    → (k < n') ⊎ (lookup k m' ≡ some f)
keep_step n n' k m m' f lt kept h = elim (Bool-cases (n == k)) [
  | inl same ↦ inl (ground arith)
  | inr other ↦ kept k f (ground (arith, lookup-remove n k m))
]

Drains-Delivers :
    {limit n n' : ℕ} {sent : ℕ → SessionFrame} {m m' : Map ℕ SessionFrame} {fs : List SessionFrame}
    → limit < u64_mod
    → Drains n m fs n' m'
    → n ≤ limit
    → Waiting limit sent n m
    → Delivers limit sent n m fs n' m'
Drains-Delivers s (stop e) h w = record {
  extends = append-nil _;
  grows = omega arith;
  within = h;
  waiting = w;
  kept = λ k f p. inr p;
  drained = e;
}
Drains-Delivers {limit = limit} {n = n} {n' = n'} {sent = sent} {m = m} {m' = m'} s
      (next {f = f} {fs = fs} e d) h w =
    let here = w n f e in
    let step : (n + 1) % u64_mod ≡ suc n = omega arith in
    let rest : Delivers limit sent (suc n) (remove n m) fs n' m' = rw step at (
      Drains-Delivers {limit = limit} {sent = sent} s d (omega arith)
        (rw step (remove-Waiting limit sent n m w))) in
    record {
      extends = extends_step sent n f fs here.2 ∙ rest.extends;
      grows = omega arith;
      within = rest.within;
      waiting = rest.waiting;
      kept = λ k g p. keep_step n n' k m m' g rest.grows rest.kept p;
      drained = rest.drained;
    }

record Received (connection limit : ℕ) (sent : ℕ → SessionFrame) (st : SessionState)
    (out : List SessionFrame) : Type 0 where
  connected : st.connection_id ≡ connection
  prefix : out ≡ map sent (upto st.next_rx_sequence)
  within : st.next_rx_sequence ≤ limit
  waiting : Waiting limit sent st.next_rx_sequence st.reorder_buffer
  drained : lookup st.next_rx_sequence st.reorder_buffer ≡ none

-- A number has been handed out, or its frame waits in the buffer.
abbrev Known : ℕ → SessionState → Type 0
Known k st =
    (k < st.next_rx_sequence) ⊎ ((f : SessionFrame) × (lookup k st.reorder_buffer ≡ some f))

Known-of :
    (k : ℕ) (f : SessionFrame) (st : SessionState)
    → (k < st.next_rx_sequence) ⊎ (lookup k st.reorder_buffer ≡ some f)
    → Known k st
Known-of k f st (inl p) = inl p
Known-of k f st (inr h) = inr (f, h)

record Ingests (connection limit : ℕ) (sent : ℕ → SessionFrame) (st : SessionState)
    (out : List SessionFrame) (k : ℕ) (ready : List SessionFrame) (st' : SessionState)
    : Type 0 where
  received : Received connection limit sent st' (out ++ ready)
  known : Known k st'
  stays : (j : ℕ) → Known j st → Known j st'

absorb_old :
    (st : SessionState) (f : SessionFrame)
    → f.header.connection_id ≡ st.connection_id
    → ltb f.header.sequence st.next_rx_sequence ≡ true
    → absorb st f ≡ ([], st)
unfolding absorb
absorb_old st f same old = ground arith

absorb_fresh :
    (st : SessionState) (k : ℕ) (f : SessionFrame)
    → f.header.sequence ≡ k
    → f.header.connection_id ≡ st.connection_id
    → ltb k st.next_rx_sequence ≡ false
    → absorb st f ≡ flush st (or_insert k f st.reorder_buffer)
unfolding absorb
absorb_fresh st k f e same fresh = ground arith

module _ {connection limit : ℕ} {sent : ℕ → SessionFrame} (s : Sent connection limit sent)
    (st : SessionState) (out : List SessionFrame) (r : Received connection limit sent st out)
    (k : ℕ) (lt : k < limit) where
  abbrev buffer' : Map ℕ SessionFrame
  buffer' = or_insert k (sent k) st.reorder_buffer

  insert-Waiting : st.next_rx_sequence ≤ k → Waiting limit sent st.next_rx_sequence buffer'
  insert-Waiting new j f h =
      grind (arith, lookup-or_insert k j (sent k) st.reorder_buffer, r.waiting j f)

  flush-Ingests :
      st.next_rx_sequence ≤ k
      → Ingests connection limit sent st out k (flush st buffer').0 (flush st buffer').1
  flush-Ingests new =
      let (d, e, t) = flush-Drains st buffer' in
      let here =
        Drains-Delivers {limit = limit} {sent = sent} s.no_wrap d r.within (insert-Waiting new) in
      let st' = (flush st buffer').1 in
      record {
        received = record {
          connected = e ∙ r.connected;
          prefix = rw r.prefix here.extends;
          within = here.within;
          waiting = here.waiting;
          drained = here.drained;
        };
        known =
            let (f, h) = or_insert-has k (sent k) st.reorder_buffer in
            Known-of k f st' (here.kept k f h);
        stays = λ j. elim [
          | inl p ↦ inl (omega (arith, here.grows))
          | inr (f, h) ↦ Known-of j f st' (here.kept j f (or_insert-keeps k j (sent k) f _ h))
        ];
      }

  absorb-Ingests :
      Ingests connection limit sent st out k (absorb st (sent k)).0 (absorb st (sent k)).1
  absorb-Ingests =
      let same : (sent k).header.connection_id ≡ st.connection_id =
        s.connected k ∙ sym r.connected in
      elim (Bool-cases (ltb k st.next_rx_sequence)) [
        | inl old ↦ rw (absorb_old st (sent k) same (rw (s.numbered k) old)) (record {
          received = record {
            connected = r.connected;
            prefix = append-nil out ∙ r.prefix;
            within = r.within;
            waiting = r.waiting;
            drained = r.drained;
          };
          known = inl (ltb→lt _ _ old);
          stays = λ j h. h;
        })
        | inr fresh ↦
            rw (absorb_fresh st k (sent k) (s.numbered k) same fresh)
              (flush-Ingests (ltb_ge _ _ fresh))
      ]

  absorb-Received :
      Received connection limit sent (absorb st (sent k)).1 (out ++ (absorb st (sent k)).0)
  absorb-Received = absorb-Ingests.received

  absorb-Known : Known k (absorb st (sent k)).1
  absorb-Known = absorb-Ingests.known

  absorb-stays : (j : ℕ) → Known j st → Known j (absorb st (sent k)).1
  absorb-stays = absorb-Ingests.stays
