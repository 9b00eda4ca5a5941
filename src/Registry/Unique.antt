-- ===== src/Registry/Unique.antt =====
-- Session ids over any history of the registry.
use bonded.Prelude.Map.{lookup, lookup-insert, lookup-remove}
use bonded.Registry.{SessionRegistry, default, register_client, unregister_client, contains_client}
use bonded.Prelude.{
  ℕ, ◌+◌, ◌≤◌, ◌<◌, ◌^◌, ◌≡◌, ◌≢◌, true, false, some, List, [], ◌∷◌, length, arith, Text,
  text_beq_iff, text_eq, Option-cases, inl, inr,
}

pub data Call : Type 0 where
  registers unregisters : Text → Call

unfoldable pub step : SessionRegistry → Call → SessionRegistry
unfolding register_client unregister_client
step r (registers key) = (register_client r key).1
step r (unregisters key) = unregister_client r key

unfoldable pub run : SessionRegistry → List Call → SessionRegistry
unfolding step
run r [] = r
run r (c ∷ cs) = run (step r c) cs

-- Ids are below the next one, and two clients never share one.
pub record IsUnique (r : SessionRegistry) : Type 0 where
  pub below : (k : Text) (i : ℕ) → lookup k r.sessions_by_client ≡ some i → i < r.next_session_id
  pub distinct :
      (k j : Text) (i : ℕ)
      → lookup k r.sessions_by_client ≡ some i
      → lookup j r.sessions_by_client ≡ some i
      → k ≡ j

register_client-IsUnique :
    (r : SessionRegistry) (key : Text)
    → r.next_session_id + 1 < 2 ^ 64
    → IsUnique r
    → IsUnique (register_client r key).1
unfolding register_client
register_client-IsUnique r key b u = elim (Option-cases (lookup key r.sessions_by_client)) [
  | inr (i, e) ↦ rw (e, register_client) u
  | inl e ↦
      rw (e, register_client)
        (record {
          below = λ k i h.
              grind
                (arith, lookup-insert key k r.next_session_id r.sessions_by_client, u.below k i);
          distinct = λ k j i h g. grind (
            arith,
            lookup-insert key k r.next_session_id r.sessions_by_client,
            lookup-insert key j r.next_session_id r.sessions_by_client,
            u.below k i,
            u.below j i,
            u.distinct k j i,
            text_beq_iff key k,
            text_beq_iff key j,
          );
        })
]

unregister_client-IsUnique :
    (r : SessionRegistry) (key : Text) → IsUnique r → IsUnique (unregister_client r key)
unfolding unregister_client
unregister_client-IsUnique r key u = record {
  below = λ k i h. grind (arith, lookup-remove key k r.sessions_by_client, u.below k i);
  distinct = λ k j i h g. grind (
    arith,
    lookup-remove key k r.sessions_by_client,
    lookup-remove key j r.sessions_by_client,
    u.distinct k j i,
  );
}

default-IsUnique : IsUnique default
unfolding default lookup
default-IsUnique = record { below = λ k i h. cc; distinct = λ k j i h g. cc }

next_id-le :
    (r : SessionRegistry) (c : Call)
    → r.next_session_id + 1 < 2 ^ 64
    → (step r c).next_session_id ≤ r.next_session_id + 1
unfolding step
next_id-le r (registers key) b = ground arith
next_id-le r (unregisters key) b = omega arith

step-IsUnique :
    (r : SessionRegistry) (c : Call)
    → r.next_session_id + 1 < 2 ^ 64
    → IsUnique r
    → IsUnique (step r c)
unfolding step
step-IsUnique r (registers key) b u = register_client-IsUnique r key b u
step-IsUnique r (unregisters key) b u = unregister_client-IsUnique r key u

run-IsUnique_from :
    (r : SessionRegistry) (cs : List Call)
    → r.next_session_id + length cs < 2 ^ 64
    → IsUnique r
    → IsUnique (run r cs)
unfolding run
run-IsUnique_from r [] b u = u
run-IsUnique_from r (c ∷ cs) b u =
    run-IsUnique_from (step r c) cs (omega (arith, next_id-le r c (omega arith)))
      (step-IsUnique r c (omega arith) u)

-- After any history of fewer than 2^64 registrations and removals, the clients that are registered
-- have session ids of their own, all below the next id to be given.
pub run-IsUnique : (cs : List Call) → length cs < 2 ^ 64 → IsUnique (run default cs)
unfolding default
run-IsUnique cs b = run-IsUnique_from default cs (omega arith) default-IsUnique

-- Registering gives the client an id under which it is found; registering again gives the same id
-- and changes nothing.
pub register_client_again :
    (r : SessionRegistry) (key : Text)
    → let (id, r') = register_client r key in
      (lookup key r'.sessions_by_client ≡ some id)
      × (contains_client r' key ≡ true)
      × (register_client r' key ≡ (id, r'))
unfolding register_client contains_client
register_client_again r key =
    ground
      (arith, lookup-insert key key r.next_session_id r.sessions_by_client, text_beq_iff key key)

-- Registering and removing a client leaves every other client's entry alone.
pub others_unchanged :
    (r : SessionRegistry) (key other : Text)
    → key ≢ other
    → (lookup other (register_client r key).1.sessions_by_client
        ≡ lookup other r.sessions_by_client)
      × (lookup other (unregister_client r key).sessions_by_client
          ≡ lookup other r.sessions_by_client)
unfolding register_client unregister_client
others_unchanged r key other ne = ground (
  arith,
  lookup-insert key other r.next_session_id r.sessions_by_client,
  lookup-remove key other r.sessions_by_client,
  text_beq_iff key other,
)

-- The registry keeps no count of a client's connections: two registrations of one client followed
-- by one removal, as when one of its two connections ends, leave the client unregistered.
pub register_twice_unregister_once :
    (r : SessionRegistry) (key : Text)
    → contains_client (run r (registers key ∷ registers key ∷ unregisters key ∷ [])) key ≡ false
unfolding run contains_client
register_twice_unregister_once r key = grind (arith, lookup-remove, text_beq_iff key key)
