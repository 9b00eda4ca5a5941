-- ===== src/Scheduler/Rotation.antt =====
-- The rotation of the round-robin scheduler.
use bonded.Scheduler.{PathId, RoundRobinScheduler, choose_path}
use bonded.Prelude.{
  ℕ, zero, suc, ◌+◌, ◌-◌, ◌<◌, ◌%◌, ◌^◌, ◌≡◌, refl, sym, ap, ◌∙◌, Option, some, List, [], ◌∷◌,
  get_elem?, length, arith,
}
use native.Mathlib.Nat.{add-zero, mod-add-mod, add-mod-mod, add-mod_right, mod-eq_of_lt}

get_elem?-some {ℓ} :
    {A : Type ℓ} (xs : List A) (i : ℕ) → i < length xs → (a : A) × (get_elem? xs i ≡ some a)
get_elem?-some [] i h = elim h [ ]
get_elem?-some (x ∷ xs) zero h = (x, refl)
get_elem?-some (x ∷ xs) (suc i) h = get_elem?-some xs i (omega arith)

-- The states and choices of a run over a fixed set of paths.
unfoldable pub run : ℕ → RoundRobinScheduler → List PathId → List (Option PathId)
run zero s paths = []
run (suc n) s paths = (choose_path s paths).0 ∷ run n (choose_path s paths).1 paths

-- Where there is a path, a choice is made, and it is one of the paths.
pub choose_path-some :
    (s : RoundRobinScheduler) (paths : List PathId)
    → 0 < length paths
    → (i : ℕ) × (p : PathId) × (i < length paths)
      × (get_elem? paths i ≡ some p)
      × ((choose_path s paths).0 ≡ some p)
unfolding choose_path
choose_path-some s [] h = elim h [ ]
choose_path-some s (p ∷ ps) h =
    let i = s.next_index % length (p ∷ ps) in
    let below : i < length (p ∷ ps) = omega arith in
    let (q, e) = get_elem?-some (p ∷ ps) i below in (i, q, below, e, e)

-- Until the counter wraps, call `i` takes the path at position `next_index + i` modulo the number of
-- paths: the paths have their turns in order.
pub run_at :
    (n i : ℕ) (s : RoundRobinScheduler) (paths : List PathId)
    → i < n
    → 0 < length paths
    → s.next_index + n < 2 ^ 64
    → get_elem? (run n s paths) i ≡ some (get_elem? paths ((s.next_index + i) % length paths))
unfolding run choose_path
run_at zero i s paths lt h b = elim lt [ ]
run_at (suc n) i s [] lt h b = elim h [ ]
run_at (suc n) zero s (p ∷ ps) lt h b = rw (add-zero s.next_index)
run_at (suc n) (suc i) s (p ∷ ps) lt h b =
    let step : (s.next_index + 1) % 2 ^ 64 + i ≡ s.next_index + suc i = omega arith in
    run_at n i (record { next_index = (s.next_index + 1) % 2 ^ 64 }) (p ∷ ps) (omega arith) h
      (omega arith)
    ∙ ap (λ k. some (get_elem? (p ∷ ps) (k % length (p ∷ ps)))) step

turn_of : (len next j : ℕ) → j < len → (next + (j + (len - next % len)) % len) % len ≡ j
turn_of len next j h =
    let below : next % len < len = omega arith in
    let sum : next % len + (j + (len - next % len)) ≡ j + len = omega arith in
    add-mod-mod next (j + (len - next % len)) len
    ∙ sym (mod-add-mod next len (j + (len - next % len)))
    ∙ ap (λ k. k % len) sum
    ∙ add-mod_right j len
    ∙ mod-eq_of_lt h

-- Within as many calls as there are paths, each path has its turn, while the counter does not wrap.
pub run_fair :
    (s : RoundRobinScheduler) (paths : List PathId) (j : ℕ)
    → j < length paths
    → s.next_index + length paths < 2 ^ 64
    → (i : ℕ) × (i < length paths)
      × (get_elem? (run (length paths) s paths) i ≡ some (get_elem? paths j))
run_fair s paths j h b =
    let i = (j + (length paths - s.next_index % length paths)) % length paths in
    let below : i < length paths = grind arith in
    (
      i,
      below,
      run_at (length paths) i s paths below (omega arith) b
          ∙ ap (λ k. some (get_elem? paths k)) (turn_of (length paths) s.next_index j h),
    )
