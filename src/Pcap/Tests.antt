-- ===== src/Pcap/Tests.antt =====
-- The log's theorems at inputs that meet their hypotheses.
use bonded.Pcap.{Inner, start}
use bonded.Pcap.Log.{Entry, log_all, log_all-IsBounded}
use bonded.Prelude.{◌≡◌, ◌≤◌, length, List, [], ◌∷◌, true, arith}

abbrev entries : List Entry
entries =
    record { secs = 1; usecs = 2; packet = 69 ∷ 0 ∷ [] }
    ∷ record { secs = 3; usecs = 4; packet = [] }
    ∷ []

log_all-IsBounded_example :
    let log = log_all entries (start 1) in
    (log.max_bytes ≡ 1048576) × (length log.file ≤ 1048576) × (length log.file ≡ log.bytes_written)
log_all-IsBounded_example = log_all-IsBounded 1 entries (omega arith) (omega arith)

abbrev stopped : Inner
stopped = record { file = []; bytes_written = 100; max_bytes = 200; stopped_at_limit = true }
