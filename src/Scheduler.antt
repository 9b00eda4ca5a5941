-- ===== src/Scheduler.antt =====
-- crates/bonded-core/src/scheduler.rs: which path carries the next frame.
pub mod Rotation
mod Tests
use bonded.Prelude.{ℕ, ◌+◌, ◌%◌, ◌^◌, Option, none, some, List, [], ◌∷◌, get_elem?, length}

abbrev pub PathId : Type 0
PathId = ℕ

-- `next_index` is a usize of 64 bits.
pub record RoundRobinScheduler : Type 0 where
  pub next_index : ℕ

unfoldable pub default : RoundRobinScheduler
default = record { next_index = 0 }

unfoldable pub choose_path : RoundRobinScheduler → List PathId → Option PathId × RoundRobinScheduler
choose_path s [] = (none, s)
choose_path s (p ∷ ps) =
    let idx = s.next_index % length (p ∷ ps) in
    (get_elem? (p ∷ ps) idx, record { next_index = (s.next_index + 1) % 2 ^ 64 })

-- `ActiveStandbyScheduler::choose_path`: the first path, with no state.
unfoldable pub choose_standby : List PathId → Option PathId
choose_standby [] = none
choose_standby (p ∷ ps) = some p
