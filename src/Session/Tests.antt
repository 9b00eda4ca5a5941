-- ===== src/Session/Tests.antt =====
-- Runs of the session code on small inputs, and its theorems at inputs that meet their hypotheses.
use bonded.Prelude.Map.{lookup, remove, or_insert}
use bonded.Session.{SessionFrame, IsFrame, encode, decode, new, ingest_inbound, flag_ping}
use bonded.Session.Codec.{decode-encode}
use bonded.Session.Ingest.{Ingested, ingest_inbound-Ingested}
use bonded.Session.Outbound.{Outbound, send_all, send_all-Outbound}
use bonded.Session.Delivery.{Sent, Arrives, receive, upto}
use bonded.Session.Delivery.Runs.{receive-prefix, receive_complete}
use bonded.Prelude.{ℕ, ◌≡◌, ◌≤◌, ◌<◌, refl, List, [], ◌∷◌, map, ok, arith, inl, inr, zero, suc}

abbrev numbered : ℕ → SessionFrame
numbered n = record {
  header = record { connection_id = 7; sequence = n; flags = flag_ping };
  payload = n ∷ [];
}

abbrev shuffled : List ℕ
shuffled = 2 ∷ 0 ∷ 2 ∷ 1 ∷ 0 ∷ []

shuffled_run : (receive (new 7) (map numbered shuffled)).0 ≡ map numbered (0 ∷ 1 ∷ 2 ∷ [])
unfolding receive new lookup remove or_insert
shuffled_run = refl

numbered-IsFrame : IsFrame (numbered 3)
numbered-IsFrame = record {
  connection_id_lt = omega arith;
  sequence_lt = omega arith;
  flags_lt = omega arith;
  payload_bytes = omega arith;
}

numbered-Sent : Sent 7 3 numbered
numbered-Sent = record { numbered = λ k. refl; connected = λ k. refl; no_wrap = omega arith }

decode-encode_example : decode (encode (numbered 3)) ≡ ok (numbered 3)
decode-encode_example = decode-encode (numbered 3) numbered-IsFrame

abbrev ping_bytes : List ℕ
ping_bytes = 0 ∷ 0 ∷ 0 ∷ 7 ∷ 0 ∷ 0 ∷ 0 ∷ 0 ∷ 0 ∷ 0 ∷ 0 ∷ 9 ∷ 0 ∷ 0 ∷ 0 ∷ 1 ∷ 255 ∷ []

ingest_inbound-Ingested_example :
    Ingested (new 7) (numbered 0) (ingest_inbound (new 7) (numbered 0))
unfolding new lookup
ingest_inbound-Ingested_example = ingest_inbound-Ingested (new 7) (numbered 0) (λ k f h. cc)

send_all-Outbound_example :
    Outbound
      (new 7)
      0
      ((1 ∷ []) ∷ (2 ∷ []) ∷ [])
      (send_all (new 7) 0 ((1 ∷ []) ∷ (2 ∷ []) ∷ [])).0
      (send_all (new 7) 0 ((1 ∷ []) ∷ (2 ∷ []) ∷ [])).1
send_all-Outbound_example = send_all-Outbound (new 7) 0 ((1 ∷ []) ∷ (2 ∷ []) ∷ [])

receive-prefix_example :
    let r = receive (new 7) (map numbered shuffled) in
    (r.0 ≡ map numbered (upto r.1.next_rx_sequence)) × (r.1.next_rx_sequence ≤ 3)
receive-prefix_example = receive-prefix 7 3 numbered shuffled numbered-Sent (omega arith)

shuffled-Arrives : (j : ℕ) → j < 3 → Arrives j shuffled
shuffled-Arrives zero h = inr (inl refl)
shuffled-Arrives (suc zero) h = inr (inr (inr (inl refl)))
shuffled-Arrives (suc (suc zero)) h = inl refl
shuffled-Arrives (suc (suc (suc j))) h = absurd (omega arith)

receive_complete_example : (receive (new 7) (map numbered shuffled)).0 ≡ map numbered (upto 3)
receive_complete_example =
    receive_complete 7 3 numbered shuffled numbered-Sent (omega arith) shuffled-Arrives
