-- ===== src/Pcap.antt =====
-- crates/bonded-server/src/tunnel_pcap.rs: the log of tunnel packets, with its limit on the file's size.
pub mod Log
mod Tests
use bonded.Prelude.{
  ℕ, ◌+◌, ◌-◌, ◌*◌, ◌/◌, ◌%◌, ◌^◌, Bool, true, false, List, [], ◌∷◌, ◌++◌, length, ltb,
  if◌then◌else◌, min,
}

unfoldable pub le16 : ℕ → List ℕ
le16 v = v % 256 ∷ v / 256 % 256 ∷ []

unfoldable pub le32 : ℕ → List ℕ
le32 v = v % 256 ∷ v / 256 % 256 ∷ v / 2 ^ 16 % 256 ∷ v / 2 ^ 24 % 256 ∷ []

unfoldable pub build_global_header : List ℕ
unfolding le16 le32
build_global_header =
    le32 2712847316 ++ le16 2 ++ le16 4 ++ le32 0 ++ le32 0 ++ le32 65535 ++ le32 101

unfoldable pub build_record_header : (ts_sec ts_usec incl_len orig_len : ℕ) → List ℕ
unfolding le32
build_record_header ts_sec ts_usec incl_len orig_len =
    le32 ts_sec ++ le32 ts_usec ++ le32 incl_len ++ le32 orig_len

pub record Inner : Type 0 where
  pub file : List ℕ
  pub bytes_written : ℕ
  pub max_bytes : ℕ
  pub stopped_at_limit : Bool

-- `from_env`, for a limit in megabytes that was parsed, is positive and does not overflow, and a file
-- that can be created.
unfoldable pub start : ℕ → Inner
unfolding build_global_header
start max_mb = record {
  file = build_global_header;
  bytes_written = 24;
  max_bytes = max_mb * (1024 * 1024);
  stopped_at_limit = false;
}

-- Which of the two writes of a record go through. (Half a write is not modelled.)
pub record Disk : Type 0 where
  pub header_written : Bool
  pub packet_written : Bool

unfoldable pub write_record : (secs usecs record_len : ℕ) → Disk → List ℕ → Inner → Inner
unfolding build_record_header
write_record secs usecs record_len disk packet inner =
    let head = build_record_header secs usecs (length packet % 2 ^ 32) (length packet % 2 ^ 32) in
    if disk.header_written
    then (if disk.packet_written
        then record inner {
          file = (inner.file ++ head) ++ packet;
          bytes_written = min (2 ^ 64 - 1) (inner.bytes_written + record_len);
        }
        else record inner { file = inner.file ++ head })
    else inner

-- `log_packet` at a time; a packet's length is far below the u64 limit.
unfoldable pub log_packet : (secs usecs : ℕ) → Disk → List ℕ → Inner → Inner
unfolding write_record
log_packet secs usecs disk [] inner = inner
log_packet secs usecs disk (b ∷ bs) inner =
    let record_len = 16 + length (b ∷ bs) in
    let logged = write_record secs usecs record_len disk (b ∷ bs) inner in
    if ltb inner.max_bytes (min (2 ^ 64 - 1) (inner.bytes_written + record_len))
    then record inner { stopped_at_limit = true }
    else logged
