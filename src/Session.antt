-- ===== src/Session.antt =====
-- crates/bonded-core/src/session.rs: session frames, their wire format, and the per-session state
-- that numbers outbound frames and puts inbound frames back in order.
pub mod Codec
pub mod Ingest
pub mod Delivery
pub mod Outbound
mod Tests
use bonded.Prelude.Map.{Map, lookup, remove, or_insert}
use bonded.Bytes.{be32, be64, from_be32, from_be64}
use bonded.Prelude.{
  ℕ, zero, suc, ◌+◌, ◌%◌, ◌^◌, ◌<◌, Bool, not, Option, none, some, List, [], ◌∷◌, ◌++◌, ◌==◌, ltb,
  if◌then◌else◌, length, IsBytes, Outcome, ok, err, ensure, ◌>>=◌, ◌>>◌, nat_eq, drop,
}

abbrev pub header_len : ℕ
header_len = 16

abbrev pub u64_mod : ℕ
u64_mod = 2 ^ 64

abbrev pub flag_ping : ℕ
flag_ping = 1

abbrev pub flag_pong : ℕ
flag_pong = 2

abbrev pub flag_peer_relay_registration : ℕ
flag_peer_relay_registration = 4

pub record SessionHeader : Type 0 where
  pub connection_id : ℕ
  pub sequence : ℕ
  pub flags : ℕ

pub record SessionFrame : Type 0 where
  pub header : SessionHeader
  pub payload : List ℕ

pub data FrameError : Type 0 where
  buffer_too_small : (found minimum : ℕ) → FrameError

pub data SessionStateError : Type 0 where
  connection_mismatch : (expected found : ℕ) → SessionStateError
  stale_sequence : (expected found : ℕ) → SessionStateError

pub record SessionState : Type 0 where
  pub connection_id : ℕ
  pub next_tx_sequence : ℕ
  pub next_rx_sequence : ℕ
  pub reorder_buffer : Map ℕ SessionFrame

-- The widths of the fields: u32, u64, u32 and bytes.
pub record IsFrame (f : SessionFrame) : Type 0 where
  pub connection_id_lt : f.header.connection_id < 2 ^ 32
  pub sequence_lt : f.header.sequence < 2 ^ 64
  pub flags_lt : f.header.flags < 2 ^ 32
  pub payload_bytes : IsBytes f.payload

unfoldable pub encode : SessionFrame → List ℕ
encode f =
    be32 f.header.connection_id ++ (be64 f.header.sequence ++ (be32 f.header.flags ++ f.payload))

-- The reads of `get_u32`, `get_u64`, `get_u32` and the rest of the slice.
decode_header : List ℕ → Outcome FrameError SessionFrame
decode_header (c0 ∷ c1 ∷ c2 ∷ c3 ∷ s0 ∷ s1 ∷ s2 ∷ s3 ∷ s4 ∷ s5 ∷ s6 ∷ s7 ∷ g0 ∷ g1 ∷ g2 ∷ g3 ∷ p) =
    ok (record {
      header = record {
        connection_id = from_be32 c0 c1 c2 c3;
        sequence = from_be64 s0 s1 s2 s3 s4 s5 s6 s7;
        flags = from_be32 g0 g1 g2 g3;
      };
      payload = p;
    })
decode_header raw = err (buffer_too_small (length raw) header_len)

unfoldable pub decode : List ℕ → Outcome FrameError SessionFrame
unfolding decode_header
decode raw =
    if ltb (length raw) header_len
    then err (buffer_too_small (length raw) header_len)
    else decode_header raw

unfoldable pub new : ℕ → SessionState
new connection_id = record {
  connection_id = connection_id;
  next_tx_sequence = 0;
  next_rx_sequence = 0;
  reorder_buffer = [];
}

unfoldable pub create_outbound_frame : SessionState → List ℕ → ℕ → SessionFrame × SessionState
create_outbound_frame st payload flags = (
  record {
    header = record {
      connection_id = st.connection_id;
      sequence = st.next_tx_sequence;
      flags = flags;
    };
    payload = payload;
  },
  record st { next_tx_sequence = (st.next_tx_sequence + 1) % u64_mod },
)

-- The `while let` of `ingest_inbound`. A round takes an entry out of the buffer, so a fuel above
-- the buffer's length is enough (`drain_total`); `none` means that the fuel ran out.
pub drain : ℕ → ℕ → Map ℕ SessionFrame → Option (List SessionFrame × ℕ × Map ℕ SessionFrame)
drain zero next buffer = none
drain (suc fuel) next buffer = elim (lookup next buffer) [
  | none ↦ some ([], next, buffer)
  | some frame ↦ elim (drain fuel ((next + 1) % u64_mod) (remove next buffer)) [
    | none ↦ none
    | some (ready, next', buffer') ↦ some (frame ∷ ready, next', buffer')
  ]
]

-- What the loop leaves. `drain` never runs out of the fuel given here.
pub flush : SessionState → Map ℕ SessionFrame → List SessionFrame × SessionState
unfolding drain
flush st buffer = elim (drain (suc (length buffer)) st.next_rx_sequence buffer) [
  | none ↦ ([], st)
  | some (ready, next', buffer') ↦
      (ready, record st { next_rx_sequence = next'; reorder_buffer = buffer' })
]

unfoldable pub ingest_inbound :
    SessionState → SessionFrame → Outcome SessionStateError (List SessionFrame × SessionState)
unfolding flush
ingest_inbound st frame = do
  ensure (frame.header.connection_id == st.connection_id)
      (connection_mismatch st.connection_id frame.header.connection_id)
  ensure (not (ltb frame.header.sequence st.next_rx_sequence))
      (stale_sequence st.next_rx_sequence frame.header.sequence)
  ok (flush st (or_insert frame.header.sequence frame st.reorder_buffer))
