-- ===== src/Session/Outbound.antt =====
-- `create_outbound_frame` over a run of payloads.
use bonded.Session.{SessionFrame, SessionState, create_outbound_frame}
use bonded.Session.Ingest.{following, sequences, advance}
use bonded.Prelude.{ℕ, ◌≡◌, refl, List, [], ◌∷◌, length, map, All}

-- The frames of the payloads, one call after another.
pub send_all : SessionState → ℕ → List (List ℕ) → List SessionFrame × SessionState
unfolding create_outbound_frame
send_all st flags [] = ([], st)
send_all st flags (p ∷ ps) =
    let later = send_all (create_outbound_frame st p flags).1 flags ps in
    ((create_outbound_frame st p flags).0 ∷ later.0, later.1)

pub record Outbound (st : SessionState) (flags : ℕ) (ps : List (List ℕ)) (fs : List SessionFrame)
    (st' : SessionState) : Type 0 where
  pub numbered : sequences fs ≡ following st.next_tx_sequence (length ps)
  pub carried : map (λ f. f.payload) fs ≡ ps
  pub marked : All (λ f. (f.header.connection_id ≡ st.connection_id) × (f.header.flags ≡ flags)) fs
  pub advanced : st'.next_tx_sequence ≡ advance st.next_tx_sequence (length ps)
  pub same_connection : st'.connection_id ≡ st.connection_id
  pub same_expected : st'.next_rx_sequence ≡ st.next_rx_sequence
  pub same_buffer : st'.reorder_buffer ≡ st.reorder_buffer

-- Sending numbers the frames consecutively (modulo 2^64) from the outbound counter on, keeps the
-- payloads and their order, marks each frame with the session's connection and the given flags,
-- moves the counter past them, and leaves the connection and the receiving side as they were.
pub send_all-Outbound :
    (st : SessionState) (flags : ℕ) (ps : List (List ℕ))
    → Outbound st flags ps (send_all st flags ps).0 (send_all st flags ps).1
unfolding send_all
send_all-Outbound st flags [] = record {
  numbered = refl;
  carried = refl;
  marked = tt;
  advanced = refl;
  same_connection = refl;
  same_expected = refl;
  same_buffer = refl;
}
send_all-Outbound st flags (p ∷ ps) =
    let later = send_all-Outbound (create_outbound_frame st p flags).1 flags ps in
    record {
      numbered = cc (later.numbered);
      carried = cc (later.carried);
      marked = ((refl, refl), later.marked);
      advanced = later.advanced;
      same_connection = later.same_connection;
      same_expected = later.same_expected;
      same_buffer = later.same_buffer;
    }
