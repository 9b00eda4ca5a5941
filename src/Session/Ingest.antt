-- ===== src/Session/Ingest.antt =====
-- `ingest_inbound`: its loop, and what one call hands out.
use bonded.Prelude.Map.{
  Map, lookup, remove, or_insert, length-remove-lt, lookup-remove, lookup-or_insert,
}
use bonded.Session.{
  SessionFrame, SessionState, SessionStateError, connection_mismatch, stale_sequence, drain, flush,
  ingest_inbound, u64_mod,
}
use bonded.Prelude.{
  Outcome, ℕ, zero, suc, ◌+◌, ◌≤◌, ◌<◌, ◌%◌, ◌≡◌, ◌≢◌, refl, List, [], ◌∷◌, map, ok, err, arith,
  length, some, none, ltb, ltb_ge, Bool-cases, Option-cases, inl, inr, nat_eq, ==_iff, ◌==◌,
}

-- The sequence numbers that follow `n`, with the wrap of a u64.
abbrev pub following : ℕ → ℕ → List ℕ
following n zero = []
following n (suc k) = n ∷ following ((n + 1) % u64_mod) k

abbrev pub sequences : List SessionFrame → List ℕ
sequences = map (λ f. f.header.sequence)

abbrev pub advance : ℕ → ℕ → ℕ
advance n zero = n
advance n (suc k) = advance ((n + 1) % u64_mod) k

-- Every frame stands in the buffer under its own sequence number.
abbrev pub IsKeyed : Map ℕ SessionFrame → Type 0
IsKeyed m = (k : ℕ) (f : SessionFrame) → lookup k m ≡ some f → f.header.sequence ≡ k

remove-IsKeyed : (k : ℕ) (m : Map ℕ SessionFrame) → IsKeyed m → IsKeyed (remove k m)
remove-IsKeyed k m keyed j f h = keyed j f (ground (arith, lookup-remove k j m))

pub or_insert-IsKeyed :
    (f : SessionFrame) (m : Map ℕ SessionFrame)
    → IsKeyed m
    → IsKeyed (or_insert f.header.sequence f m)
or_insert-IsKeyed f m keyed j g h =
    grind (arith, keyed j g, lookup-or_insert f.header.sequence j f m)

abbrev pub Drained : Type 0
Drained = List SessionFrame × ℕ × Map ℕ SessionFrame

-- What the loop does, as a relation: it hands out the frame of the next number while there is one.
pub data Drains : ℕ → Map ℕ SessionFrame → List SessionFrame → ℕ → Map ℕ SessionFrame → Type 0 where
  stop : {n : ℕ} {m : Map ℕ SessionFrame} → lookup n m ≡ none → Drains n m [] n m
  next :
      {n n' : ℕ} {m m' : Map ℕ SessionFrame} {f : SessionFrame} {fs : List SessionFrame}
      → lookup n m ≡ some f
      → Drains ((n + 1) % u64_mod) (remove n m) fs n' m'
      → Drains n m (f ∷ fs) n' m'

-- With a fuel above the length of the buffer the loop ends.
drain-Drains :
    (fuel n : ℕ) (m : Map ℕ SessionFrame)
    → length m < fuel
    → (r : Drained) × (drain fuel n m ≡ some r) × Drains n m r.0 r.1 r.2
unfolding drain
drain-Drains zero n m h = absurd (omega arith)
drain-Drains (suc fuel) n m h = elim (Option-cases (lookup n m)) [
  | inl e ↦ (([], n, m), rw (e, drain), stop e)
  | inr (f, e) ↦
      let (r, p, d) =
        drain-Drains fuel ((n + 1) % u64_mod) (remove n m)
          (omega (arith, length-remove-lt n m f e)) in
      ((f ∷ r.0, r.1, r.2), rw (e, p, drain), next e d)
]

pub flush-Drains :
    (st : SessionState) (m : Map ℕ SessionFrame)
    → let (ready, st') = flush st m in
      Drains st.next_rx_sequence m ready st'.next_rx_sequence st'.reorder_buffer
      × (st'.connection_id ≡ st.connection_id)
      × (st'.next_tx_sequence ≡ st.next_tx_sequence)
unfolding flush
flush-Drains st m =
    let (r, p, d) = drain-Drains (suc (length m)) st.next_rx_sequence m (omega arith) in
    rw (p, flush) (d, refl, refl)

-- The numbers that a drain hands out.
pub record InOrder (n : ℕ) (fs : List SessionFrame) (n' : ℕ) (m' : Map ℕ SessionFrame)
    : Type 0 where
  pub consecutive : sequences fs ≡ following n (length fs)
  pub advanced : n' ≡ advance n (length fs)
  pub drained : lookup n' m' ≡ none
  pub keyed : IsKeyed m'

Drains-InOrder :
    {n n' : ℕ} {m m' : Map ℕ SessionFrame} {fs : List SessionFrame}
    → Drains n m fs n' m'
    → IsKeyed m
    → InOrder n fs n' m'
Drains-InOrder (stop e) k = record { consecutive = refl; advanced = refl; drained = e; keyed = k }
Drains-InOrder {n} {m = m} (next {f = f} e d) k =
    let rest = Drains-InOrder d (remove-IsKeyed n m k) in
    record {
      consecutive = cc (k n f e, rest.consecutive);
      advanced = rest.advanced;
      drained = rest.drained;
      keyed = rest.keyed;
    }

-- The outcome of `ingest_inbound` on each of its branches.
abbrev pub Ingested :
    SessionState
    → SessionFrame
    → Outcome SessionStateError (List SessionFrame × SessionState)
    → Type 0
Ingested st f (err (connection_mismatch expected found)) =
    (f.header.connection_id ≢ st.connection_id)
    × (expected ≡ st.connection_id)
    × (found ≡ f.header.connection_id)
Ingested st f (err (stale_sequence expected found)) =
    (f.header.connection_id ≡ st.connection_id)
    × (f.header.sequence < st.next_rx_sequence)
    × (expected ≡ st.next_rx_sequence)
    × (found ≡ f.header.sequence)
Ingested st f (ok (ready, st')) =
    (f.header.connection_id ≡ st.connection_id)
    × (st.next_rx_sequence ≤ f.header.sequence)
    × InOrder st.next_rx_sequence ready st'.next_rx_sequence st'.reorder_buffer
    × (st'.connection_id ≡ st.connection_id)
    × (st'.next_tx_sequence ≡ st.next_tx_sequence)

flush-Ingested :
    (st : SessionState) (f : SessionFrame)
    → IsKeyed st.reorder_buffer
    → f.header.connection_id ≡ st.connection_id
    → st.next_rx_sequence ≤ f.header.sequence
    → Ingested st f (ok (flush st (or_insert f.header.sequence f st.reorder_buffer)))
flush-Ingested st f keyed c h =
    let (d, e, t) = flush-Drains st (or_insert f.header.sequence f st.reorder_buffer) in
    (c, h, Drains-InOrder d (or_insert-IsKeyed f st.reorder_buffer keyed), e, t)

-- A frame of another connection and a frame below the expected number are refused with the two
-- numbers at fault, and no other frame is. An accepted frame hands out frames with consecutive
-- numbers (modulo 2^64) from the expected one on, the expected number moves past them, no frame of
-- the new expected number stays behind, and the connection and the outbound counter do not change.
-- The buffer has to hold each frame under its own number, and it does so afterwards.
pub ingest_inbound-Ingested :
    (st : SessionState) (f : SessionFrame)
    → IsKeyed st.reorder_buffer
    → Ingested st f (ingest_inbound st f)
unfolding ingest_inbound
ingest_inbound-Ingested st f keyed =
    elim (Bool-cases (f.header.connection_id == st.connection_id)) [
      | inr other ↦ rw other (grind arith)
      | inl same ↦ elim (Bool-cases (ltb f.header.sequence st.next_rx_sequence)) [
        | inl old ↦ rw (same, old) (grind arith)
        | inr new ↦
            rw (same, new) (flush-Ingested st f keyed ((==_iff _ _).0 same) (ltb_ge _ _ new))
      ]
    ]
