-- ===== src/Session/Codec.antt =====
-- The wire format of a session frame: `encode` and `decode`.
use bonded.Bytes.{
  be32, be64, from_be32, from_be64, from_be32-be32, from_be64-be64, be32-from_be32, be32-IsBytes,
  be64-IsBytes, be64-from_be64, from_be32-lt, from_be64-lt,
}
use bonded.Session.{SessionFrame, buffer_too_small, IsFrame, encode, decode}
use bonded.Prelude.{ℕ, ◌+◌, ◌≤◌, ◌<◌, ◌≡◌, List, ◌∷◌, ok, err, arith, length, IsBytes, All-append}

pub length-encode : (f : SessionFrame) → length (encode f) ≡ 16 + length f.payload
unfolding encode be32 be64
length-encode f = omega arith

-- Decoding what was encoded gives the frame back.
pub decode-encode : (f : SessionFrame) → IsFrame f → decode (encode f) ≡ ok f
unfolding encode decode be32 be64
decode-encode f w = ground (
  arith,
  from_be32-be32 f.header.connection_id w.connection_id_lt,
  from_be64-be64 f.header.sequence w.sequence_lt,
  from_be32-be32 f.header.flags w.flags_lt,
)

pub encode-IsBytes : (f : SessionFrame) → IsFrame f → IsBytes (encode f)
unfolding encode
encode-IsBytes f w = All-append _ (be32 _) _ (be32-IsBytes _) (
    All-append _ (be64 _) _ (be64-IsBytes _)
      (All-append _ (be32 _) _ (be32-IsBytes _) w.payload_bytes))

-- A slice shorter than a header is refused with its length.
pub decode_short :
    (raw : List ℕ) → length raw < 16 → decode raw ≡ err (buffer_too_small (length raw) 16)
unfolding decode
decode_short raw h = ground arith

-- A slice with a header is decoded, and what is decoded is well formed and encodes to the slice.
pub encode-decode :
    (raw : List ℕ)
    → 16 ≤ length raw
    → IsBytes raw
    → (f : SessionFrame) × (decode raw ≡ ok f) × IsFrame f × (encode f ≡ raw)
unfolding decode encode
encode-decode (c0 ∷ c1 ∷ c2 ∷ c3 ∷ s0 ∷ s1 ∷ s2 ∷ s3 ∷ s4 ∷ s5 ∷ s6 ∷ s7 ∷ g0 ∷ g1 ∷ g2 ∷ g3 ∷ p) l
      b =
    (
      record {
        header = record {
          connection_id = from_be32 c0 c1 c2 c3;
          sequence = from_be64 s0 s1 s2 s3 s4 s5 s6 s7;
          flags = from_be32 g0 g1 g2 g3;
        };
        payload = p;
      },
      ground arith,
      record {
        connection_id_lt = from_be32-lt c0 c1 c2 c3 (omega arith);
        sequence_lt = from_be64-lt s0 s1 s2 s3 s4 s5 s6 s7 (omega arith);
        flags_lt = from_be32-lt g0 g1 g2 g3 (omega arith);
        payload_bytes = b.1.1.1.1.1.1.1.1.1.1.1.1.1.1.1.1;
      },
      rw (
        be32-from_be32 c0 c1 c2 c3 (omega arith),
        be64-from_be64 s0 s1 s2 s3 s4 s5 s6 s7 (omega arith),
        be32-from_be32 g0 g1 g2 g3 (omega arith),
      ),
    )
encode-decode raw l b = absurd (omega arith)
