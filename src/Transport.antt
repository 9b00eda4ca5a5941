-- ===== src/Transport.antt =====
-- crates/bonded-core/src/transport.rs: session frames over byte streams (TCP and QUIC), over
-- WebSocket messages, and the stream that replays routed bytes.
pub mod Framing
pub mod Stream
pub mod Replay
mod Tests
use bonded.Bytes.{be32, from_be32}
use bonded.Session.{SessionFrame, FrameError, encode, decode}
use bonded.Prelude.{
  ℕ, zero, suc, ◌+◌, ◌≤◌, ◌<◌, ◌^◌, ◌≡◌, Bool, true, false, Option, none, some, List, [], ◌∷◌, ◌++◌,
  length, take, drop, get_or, ltb, if◌then◌else◌, Outcome, ok, err, min,
}

abbrev pub min_session_frame_len : ℕ
min_session_frame_len = 16

-- What a `read` of the stream gives: bytes (at most the 4096 of `tmp`, none at the end of the
-- stream) or an I/O error. The end of a list of reads is the end of the stream.
pub data Arrival : Type 0 where
  bytes : List ℕ → Arrival
  failed : Arrival

pub data RecvError : Type 0 where
  io : RecvError
  closed_in_prefix : RecvError
  closed_in_payload : RecvError
  invalid_length : ℕ → RecvError
  bad_frame : FrameError → RecvError

-- The receiving half: `read_buf` and what the stream is still to give.
pub record Reader : Type 0 where
  pub read_buf : List ℕ
  pub incoming : List Arrival

-- `while read_buf.len() < n { read and extend }`.
pub fill : ℕ → RecvError → List ℕ → List Arrival → Outcome RecvError (Unit {0}) × Reader
fill n closed buf [] =
    (if ltb (length buf) n then err closed else ok tt, record { read_buf = buf; incoming = [] })
fill n closed buf (failed ∷ rest) =
    if ltb (length buf) n
    then (err io, record { read_buf = buf; incoming = rest })
    else (ok tt, record { read_buf = buf; incoming = failed ∷ rest })
fill n closed buf (bytes [] ∷ rest) =
    if ltb (length buf) n
    then (err closed, record { read_buf = buf; incoming = rest })
    else (ok tt, record { read_buf = buf; incoming = bytes [] ∷ rest })
fill n closed buf (bytes (b ∷ bs) ∷ rest) =
    let more = fill n closed (buf ++ b ∷ bs) rest in
    if ltb (length buf) n
    then more
    else (ok tt, record { read_buf = buf; incoming = bytes (b ∷ bs) ∷ rest })

prefix_len : List ℕ → ℕ
prefix_len buf = from_be32 (get_or buf 0 0) (get_or buf 1 0) (get_or buf 2 0) (get_or buf 3 0)

-- `SessionFrame::decode(..)?`.
frame_result : Outcome FrameError SessionFrame → Outcome RecvError SessionFrame
frame_result (ok f) = ok f
frame_result (err e) = err (bad_frame e)

-- Two `split_to` calls take the prefix and the frame off the buffer.
take_frame : ℕ → Reader → Outcome RecvError SessionFrame × Reader
unfolding frame_result
take_frame len r = (
  frame_result (decode (take len (drop 4 r.read_buf))),
  record r { read_buf = drop len (drop 4 r.read_buf) },
)

recv_payload : ℕ → Reader → Outcome RecvError SessionFrame × Reader
unfolding take_frame
recv_payload len r =
    if ltb len min_session_frame_len
    then (err (invalid_length len), r)
    else let (filled, r') = fill (4 + len) closed_in_payload r.read_buf r.incoming in
      elim filled [ ok _ ↦ take_frame len r' | err e ↦ (err e, r') ]

-- `NaiveTcpTransport::recv`.
unfoldable pub recv : Reader → Outcome RecvError SessionFrame × Reader
unfolding fill prefix_len recv_payload
recv r =
    let (filled, r') = fill 4 closed_in_prefix r.read_buf r.incoming in
    elim filled [ ok _ ↦ recv_payload (prefix_len r'.read_buf) r' | err e ↦ (err e, r') ]

-- `QuicTransport::recv`, which differs in the texts of its errors only: `None` and `Some(0)` are the
-- end of the stream.
unfoldable pub quic_recv : Reader → Outcome RecvError SessionFrame × Reader
unfolding recv
quic_recv r = recv r

-- The sending half: what has been written, and whether each of the coming writes and flushes goes
-- through (all do, once the list is at its end).
pub record Writer : Type 0 where
  pub written : List ℕ
  pub accepts : List Bool

pub data SendError : Type 0 where
  write_failed : SendError
  frame_too_large : ℕ → SendError

write_all : List ℕ → Writer → Outcome SendError (Unit {0}) × Writer
write_all bs w = elim w.accepts [
  | [] ↦ (ok tt, record w { written = w.written ++ bs })
  | ok_now ∷ rest ↦
      if ok_now
      then (ok tt, record { written = w.written ++ bs; accepts = rest })
      else (err write_failed, record w { accepts = rest })
]

-- `a; b` where each step may fail.
then_write :
    Outcome SendError (Unit {0}) × Writer
    → (Writer → Outcome SendError (Unit {0}) × Writer)
    → Outcome SendError (Unit {0}) × Writer
then_write (ok _, w) k = k w
then_write (err e, w) k = (err e, w)

-- `NaiveTcpTransport::send`: the length, the frame, a flush.
unfoldable pub send : SessionFrame → Writer → Outcome SendError (Unit {0}) × Writer
unfolding write_all then_write
send f w =
    let encoded = encode f in
    if ltb (length encoded) (2 ^ 32)
    then then_write (then_write (write_all (be32 (length encoded)) w) (write_all encoded))
        (write_all [])
    else (err (frame_too_large (length encoded)), w)

-- `QuicTransport::send`, with no flush.
unfoldable pub quic_send : SessionFrame → Writer → Outcome SendError (Unit {0}) × Writer
unfolding write_all then_write
quic_send f w =
    let encoded = encode f in
    if ltb (length encoded) (2 ^ 32)
    then then_write (write_all (be32 (length encoded)) w) (write_all encoded)
    else (err (frame_too_large (length encoded)), w)

-- A message that `stream.next()` gives on a WebSocket; the end of a list is the closed stream.
pub data Message : Type 0 where
  text : List ℕ → Message
  binary : List ℕ → Message
  close : Message
  other : Message
  broken : Message

pub data SocketError : Type 0 where
  websocket_closed : SocketError
  websocket_failed : SocketError
  unexpected_binary : SocketError
  undecodable : FrameError → SocketError

-- `WebSocketTlsTransport::recv`: text, pings and pongs are passed over.
unfoldable pub ws_recv : List Message → Outcome SocketError SessionFrame × List Message
ws_recv [] = (err websocket_closed, [])
ws_recv (binary raw ∷ rest) =
    (elim (decode raw) [ ok f ↦ ok f | err e ↦ err (undecodable e) ], rest)
ws_recv (close ∷ rest) = (err websocket_closed, rest)
ws_recv (broken ∷ rest) = (err websocket_failed, rest)
ws_recv (text t ∷ rest) = ws_recv rest
ws_recv (other ∷ rest) = ws_recv rest

-- `WebSocketTlsTransport::recv_text`.
unfoldable pub ws_recv_text : List Message → Outcome SocketError (List ℕ) × List Message
ws_recv_text [] = (err websocket_closed, [])
ws_recv_text (text t ∷ rest) = (ok t, rest)
ws_recv_text (binary raw ∷ rest) = (err unexpected_binary, rest)
ws_recv_text (close ∷ rest) = (err websocket_closed, rest)
ws_recv_text (broken ∷ rest) = (err websocket_failed, rest)
ws_recv_text (other ∷ rest) = ws_recv_text rest

-- `PrependedStream`, over an inner stream given by the reads that it will answer.
pub record PrependedStream : Type 0 where
  pub prefix : List ℕ
  pub pos : ℕ
  pub inner : List Arrival

unfoldable pub prepend : List ℕ → List Arrival → PrependedStream
prepend prefix inner = record { prefix = prefix; pos = 0; inner = inner }

-- A read of the inner stream into a buffer with `remaining` free bytes: what does not fit stays for the
-- next read.
unfoldable pub read_inner : ℕ → List Arrival → Arrival × List Arrival
read_inner remaining [] = (bytes [], [])
read_inner remaining (failed ∷ rest) = (failed, rest)
read_inner remaining (bytes bs ∷ rest) = (
  bytes (take remaining bs),
  if ltb remaining (length bs) then bytes (drop remaining bs) ∷ rest else rest,
)

-- `poll_read` of a buffer with `remaining` free bytes, where the inner stream is ready.
unfoldable pub poll_read : ℕ → PrependedStream → Arrival × PrependedStream
unfolding read_inner
poll_read remaining s =
    if ltb s.pos (length s.prefix)
    then (let left = drop s.pos s.prefix in
        let to_copy = min (length left) remaining in
        (bytes (take to_copy left), record s { pos = s.pos + to_copy }))
    else (let r = read_inner remaining s.inner in (r.0, record s { inner = r.1 }))
