-- ===== src/Registry.antt =====
-- crates/bonded-server/src/session_registry.rs: the session of each authenticated client. The lock
-- around the registry makes each operation one step; a poisoned lock is a panic and not modelled.
pub mod Unique
pub mod Refines
mod Tests
use bonded.Prelude.Map.{Map, lookup, insert, remove}
use bonded.Prelude.{
  ℕ, ◌+◌, ◌%◌, ◌^◌, Bool, true, false, Option, none, some, List, [], length, map, Text, text_eq,
}

pub record SessionSnapshot : Type 0 where
  pub client_key : Text
  pub session_id : ℕ

-- A `SessionHandle` is its session id.
pub record SessionRegistry : Type 0 where
  pub next_session_id : ℕ
  pub sessions_by_client : Map Text ℕ

unfoldable pub default : SessionRegistry
default = record { next_session_id = 0; sessions_by_client = [] }

unfoldable pub register_client : SessionRegistry → Text → ℕ × SessionRegistry
register_client r client_key = elim (lookup client_key r.sessions_by_client) [
  | some existing ↦ (existing, r)
  | none ↦ (
    r.next_session_id,
    record {
      next_session_id = (r.next_session_id + 1) % 2 ^ 64;
      sessions_by_client = insert client_key r.next_session_id r.sessions_by_client;
    },
  )
]

unfoldable pub unregister_client : SessionRegistry → Text → SessionRegistry
unregister_client r client_key = record r {
  sessions_by_client = remove client_key r.sessions_by_client;
}

unfoldable pub contains_client : SessionRegistry → Text → Bool
contains_client r client_key = elim (lookup client_key r.sessions_by_client) [
  | none ↦ false
  | some handle ↦ true
]

unfoldable pub active_sessions : SessionRegistry → ℕ
active_sessions r = length r.sessions_by_client

unfoldable pub snapshot : SessionRegistry → List SessionSnapshot
snapshot r =
    map (λ entry. record { client_key = entry.0; session_id = entry.1 }) r.sessions_by_client
