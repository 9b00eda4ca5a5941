-- ===== src/Transport/Tests.antt =====
-- The transports' theorems at inputs that meet their hypotheses.
use bonded.Bytes.{be32, be64}
use bonded.Session.{SessionFrame, encode, flag_ping}
use bonded.Transport.{bytes, Reader, Writer, send, prepend}
use bonded.Transport.Framing.{content, frame_bytes, IsSendable}
use bonded.Transport.Stream.{send_frames, recv_frames, recv_frames-send_frames}
use bonded.Transport.Replay.{AreFilled, polls, got, unread, polls-unread}
use bonded.Prelude.{
  ◌≡◌, ◌++◌, refl, List, [], ◌∷◌, ok, arith, map, concat, take, drop, length, true, false,
}

abbrev hail : SessionFrame
hail = record {
  header = record { connection_id = 1; sequence = 2; flags = flag_ping };
  payload = 104 ∷ 105 ∷ [];
}

hail-IsSendable : IsSendable hail
unfolding encode be32 be64
hail-IsSendable = (
  record {
    connection_id_lt = omega arith;
    sequence_lt = omega arith;
    flags_lt = omega arith;
    payload_bytes = omega arith;
  },
  omega arith,
)

-- The frame's bytes in three pieces, the first in the buffer.
abbrev pieces : Reader
pieces = record {
  read_buf = take 2 (frame_bytes hail);
  incoming =
      bytes (take 9 (drop 2 (frame_bytes hail)))
      ∷ bytes (drop 11 (frame_bytes hail) ++ 5 ∷ [])
      ∷ [];
}

abbrev broken_at_flush : Writer
broken_at_flush = record { written = []; accepts = true ∷ true ∷ false ∷ [] }

abbrev two_frames : List SessionFrame
two_frames = hail ∷ hail ∷ []

recv_frames-send_frames_example :
    (recv_frames (length two_frames) (record {
      read_buf = [];
      incoming = bytes (frame_bytes hail) ∷ bytes (frame_bytes hail) ∷ [];
    })).0
    ≡ ok two_frames
unfolding encode be32 be64 send_frames send
recv_frames-send_frames_example =
    recv_frames-send_frames two_frames (bytes (frame_bytes hail) ∷ bytes (frame_bytes hail) ∷ [])
      (hail-IsSendable, (hail-IsSendable, tt)) (omega arith, (omega arith, tt)) refl

polls-unread_example :
    let r = polls (2 ∷ 5 ∷ 3 ∷ []) (prepend (1 ∷ 2 ∷ 3 ∷ []) (bytes (4 ∷ 5 ∷ []) ∷ [])) in
    (concat (map got r.0) ++ unread r.1 ≡ (1 ∷ 2 ∷ 3 ∷ []) ++ content (bytes (4 ∷ 5 ∷ []) ∷ []))
    × AreFilled 3 (2 ∷ 5 ∷ 3 ∷ []) r.0
polls-unread_example = polls-unread (1 ∷ 2 ∷ 3 ∷ []) (bytes (4 ∷ 5 ∷ []) ∷ []) (2 ∷ 5 ∷ 3 ∷ [])
