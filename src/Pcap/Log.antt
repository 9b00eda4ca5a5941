-- ===== src/Pcap/Log.antt =====
-- The size of the log's file.
use bonded.Pcap.{
  Inner, Disk, start, build_global_header, build_record_header, write_record, log_packet, le16,
  le32,
}
use bonded.Prelude.{
  ℕ, ◌+◌, ◌*◌, ◌∙◌, ◌-◌, ◌%◌, ◌^◌, ◌<◌, ◌≤◌, ◌≡◌, refl, true, List, [], ◌∷◌, ◌++◌, length, ltb, min,
  arith, length-append, Bool-cases, inl, inr,
}

-- A packet with its time.
pub record Entry : Type 0 where
  pub secs : ℕ
  pub usecs : ℕ
  pub packet : List ℕ

abbrev pub working : Disk
working = record { header_written = true; packet_written = true }

unfoldable pub log_all : List Entry → Inner → Inner
unfolding log_packet
log_all [] inner = inner
log_all (e ∷ es) inner = log_all es (log_packet e.secs e.usecs working e.packet inner)

-- The count is the file's size and within the limit, which is below the largest u64.
pub record IsBounded (inner : Inner) : Type 0 where
  pub counted : length inner.file ≡ inner.bytes_written
  pub within : inner.bytes_written ≤ inner.max_bytes
  pub fits : inner.max_bytes < 2 ^ 64 - 1

length-build_record_header : (a b c d : ℕ) → length (build_record_header a b c d) ≡ 16
unfolding build_record_header le32
length-build_record_header a b c d = refl

log_packet-IsBounded :
    (secs usecs : ℕ) (packet : List ℕ) (inner : Inner)
    → IsBounded inner
    → IsBounded (log_packet secs usecs working packet inner)
unfolding log_packet write_record
log_packet-IsBounded secs usecs [] inner w = w
log_packet-IsBounded secs usecs (b ∷ bs) inner w =
    let head =
      build_record_header secs usecs (length (b ∷ bs) % 2 ^ 32) (length (b ∷ bs) % 2 ^ 32) in
    elim (Bool-cases
      (ltb inner.max_bytes (min (2 ^ 64 - 1) (inner.bytes_written + (16 + length (b ∷ bs)))))) [
        | inl over ↦ rw over (record { counted = w.counted; within = w.within; fits = w.fits })
        | inr fits ↦ rw fits (record {
          counted =
              let n = length-append (inner.file ++ head) (b ∷ bs) in
              let m = length-append inner.file head in
              let k =
                length-build_record_header secs usecs (length (b ∷ bs) % 2 ^ 32)
                  (length (b ∷ bs) % 2 ^ 32) in
              ground (arith, w.counted, w.fits);
          within = ground arith;
          fits = w.fits;
        })
      ]

log_all-IsBounded_from :
    (es : List Entry) (inner : Inner) → IsBounded inner → IsBounded (log_all es inner)
unfolding log_all
log_all-IsBounded_from [] inner w = w
log_all-IsBounded_from (e ∷ es) inner w =
    log_all-IsBounded_from es (log_packet e.secs e.usecs working e.packet inner)
      (log_packet-IsBounded e.secs e.usecs e.packet inner w)

log_packet-limit :
    (secs usecs : ℕ) (packet : List ℕ) (inner : Inner)
    → (log_packet secs usecs working packet inner).max_bytes ≡ inner.max_bytes
unfolding log_packet write_record
log_packet-limit secs usecs packet inner = ground arith

-- No packet moves the limit.
log_all-limit : (es : List Entry) (inner : Inner) → (log_all es inner).max_bytes ≡ inner.max_bytes
unfolding log_all log_packet write_record
log_all-limit [] inner = refl
log_all-limit (e ∷ es) inner =
    log_all-limit es (log_packet e.secs e.usecs working e.packet inner)
    ∙ log_packet-limit e.secs e.usecs e.packet inner

-- On a disk that takes every write, a log with a limit of 1 to 2^44 - 1 megabytes keeps that limit,
-- of 1048576 bytes to the megabyte, whatever packets it is given; its file is never larger, and the
-- count of its bytes is its size.
pub log_all-IsBounded :
    (max_mb : ℕ) (es : List Entry)
    → 0 < max_mb
    → max_mb < 2 ^ 44
    → let log = log_all es (start max_mb) in
      (log.max_bytes ≡ max_mb * 1048576)
      × (length log.file ≤ max_mb * 1048576)
      × (length log.file ≡ log.bytes_written)
unfolding start build_global_header le16 le32
log_all-IsBounded max_mb es h b =
    let kept = log_all-limit es (start max_mb) in
    let first : (start max_mb).max_bytes ≡ max_mb * 1048576 = omega arith in
    let bound =
      log_all-IsBounded_from es (start max_mb)
        (record { counted = refl; within = omega arith; fits = omega arith }) in
    (kept ∙ first, omega (arith, bound.counted, bound.within, kept, first), bound.counted)

-- The flag that the limit was reached stops nothing: a packet that still fits is logged after it.
pub log_packet-stopped :
    (secs usecs b : ℕ) (bs : List ℕ) (inner : Inner)
    → inner.stopped_at_limit ≡ true
    → inner.bytes_written + 16 + length (b ∷ bs) ≤ inner.max_bytes
    → inner.max_bytes < 2 ^ 64 - 1
    → (log_packet secs usecs working (b ∷ bs) inner).bytes_written
      ≡ inner.bytes_written + 16 + length (b ∷ bs)
unfolding log_packet write_record
log_packet-stopped secs usecs b bs inner stopped h f = ground arith
