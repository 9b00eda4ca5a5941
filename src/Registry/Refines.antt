-- ===== src/Registry/Refines.antt =====
-- The registry as a client of it sees it: a partial function from clients to session ids.
use bonded.Prelude.Map.{lookup, lookup-insert, lookup-remove}
use bonded.Registry.{SessionRegistry, register_client, unregister_client}
use bonded.Registry.Unique.{Call, registers, unregisters, step, run}
use bonded.Prelude.{
  ℕ, ◌+◌, ◌%◌, ◌^◌, ◌≡◌, ◌∙◌, Option, none, some, List, [], ◌∷◌, arith, Text, text_beq, text_eq,
  text_beq_iff, Option-cases, inl, inr, if◌then◌else◌,
}

-- What the registry promises: who has which session, and the next id.
pub record Sessions : Type 0 where
  pub next : ℕ
  pub session_of : Text → Option ℕ

unfoldable pub updated : (Text → Option ℕ) → Text → Option ℕ → Text → Option ℕ
updated f key value k = if text_beq key k then value else f k

-- A client without a session gets the next one; a client that leaves has none.
unfoldable pub promised : Sessions → Call → Sessions
unfolding updated
promised s (registers key) = elim (s.session_of key) [
  | some i ↦ s
  | none ↦ record {
    next = (s.next + 1) % 2 ^ 64;
    session_of = updated s.session_of key (some s.next);
  }
]
promised s (unregisters key) = record s { session_of = updated s.session_of key none }

unfoldable pub promised_run : Sessions → List Call → Sessions
unfolding promised
promised_run s [] = s
promised_run s (c ∷ cs) = promised_run (promised s c) cs

-- The registry stands for these sessions.
pub record Implements (r : SessionRegistry) (s : Sessions) : Type 0 where
  pub next : r.next_session_id ≡ s.next
  pub found : (k : Text) → lookup k r.sessions_by_client ≡ s.session_of k

-- The answer of a registration is the client's session afterwards.
abbrev pub Answers : SessionRegistry → Sessions → Call → Type 0
Answers r s (unregisters key) = Unit
Answers r s (registers key) =
    some (register_client r key).0 ≡ (promised s (registers key)).session_of key

step-Implements :
    (r : SessionRegistry) (s : Sessions) (c : Call)
    → Implements r s
    → Implements (step r c) (promised s c) × Answers r s c
unfolding step promised register_client unregister_client
step-Implements r s (unregisters key) w = (
  record {
    next = w.next;
    found = λ k. ground (arith, w.found k, lookup-remove key k r.sessions_by_client);
  },
  tt,
)
step-Implements r s (registers key) w = elim (Option-cases (s.session_of key)) [
  | inr (i, there) ↦
      let known = w.found key ∙ there in
      (record { next = ground arith; found = λ k. ground (arith, w.found k) }, ground arith)
  | inl free ↦
      let unknown = w.found key ∙ free in
      (
        record {
          next = ground (arith, w.next);
          found = λ k. ground (
            arith,
            w.next,
            w.found k,
            lookup-insert key k r.next_session_id r.sessions_by_client,
          );
        },
        ground (arith, w.next, text_beq_iff key key),
      )
]

-- Along any history of registrations and removals, each step of the registry implements the step of the
-- abstract partial function: the same clients are found with the same session ids afterwards, and a
-- registration answers the id that the function then has for the client.
pub run-Implements :
    (r : SessionRegistry) (s : Sessions) (cs : List Call) (c : Call)
    → Implements r s
    → Implements (run r cs) (promised_run s cs) × Answers (run r cs) (promised_run s cs) c
unfolding run promised_run
run-Implements r s [] c w = (w, (step-Implements r s c w).1)
run-Implements r s (d ∷ cs) c w =
    run-Implements (step r d) (promised s d) cs c (step-Implements r s d w).0
