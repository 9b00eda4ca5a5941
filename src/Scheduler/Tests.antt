-- ===== src/Scheduler/Tests.antt =====
-- Runs of the scheduler, and its theorems at inputs that meet their hypotheses.
use bonded.Scheduler.{PathId, default, choose_path}
use bonded.Scheduler.Rotation.{run, run_at}
use bonded.Prelude.{◌≡◌, refl, some, List, [], ◌∷◌, get_elem?, arith}

abbrev two_paths : List PathId
two_paths = 1 ∷ 2 ∷ []

rotates : run 3 default two_paths ≡ some 1 ∷ some 2 ∷ some 1 ∷ []
unfolding run default choose_path
rotates = refl

run_at_example :
    get_elem? (run 5 (record { next_index = 8 }) two_paths) 3 ≡ some (get_elem? two_paths 1)
run_at_example =
    run_at 5 3 (record { next_index = 8 }) two_paths (omega arith) (omega arith) (omega arith)
