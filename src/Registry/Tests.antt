-- ===== src/Registry/Tests.antt =====
-- Runs of the registry, and its theorems at inputs that meet their hypotheses.
use bonded.Prelude.Map.{lookup, insert, remove}
use bonded.Registry.{default, register_client, unregister_client, active_sessions}
use bonded.Registry.Unique.{Call, registers, unregisters, run, IsUnique, run-IsUnique}
use bonded.Registry.Refines.{Sessions, Implements, Answers, promised_run, run-Implements}
use bonded.Prelude.{none, ◌≡◌, refl, List, [], ◌∷◌, ascii, arith, Text, text_beq, text_eq}

abbrev alice : Text
alice = ascii "alice"

abbrev bob : Text
bob = ascii "bob"

abbrev history : List Call
history = registers alice ∷ registers bob ∷ unregisters alice ∷ registers alice ∷ []

two_active : active_sessions (run default history) ≡ 2
unfolding active_sessions run default register_client unregister_client lookup insert remove
    text_beq
two_active = refl

run-IsUnique_example : IsUnique (run default history)
run-IsUnique_example = run-IsUnique history (omega arith)

empty : Sessions
empty = record { next = 0; session_of = λ k. none }

empty-Implements : Implements default empty
unfolding default lookup empty
empty-Implements = record { next = refl; found = λ k. refl }

run-Implements_example :
    Implements (run default history) (promised_run empty history)
    × Answers (run default history) (promised_run empty history) (registers bob)
run-Implements_example = run-Implements default empty history (registers bob) empty-Implements
