-- ===== src/Prelude/Map.antt =====
-- `HashMap` and `BTreeMap`: association lists. Only lookups are read, never the order.
use Prim.Native.Nat.{◌<◌, ◌≤◌}
use mathlib.Core.Path.{◌≡◌, refl}
use mathlib.Core.Logic.{inl, inr}
use mathlib.Core.Bool.{Bool, true, false}
use mathlib.Core.Option.{Option, none, some}
use mathlib.Core.List.{List, [], ◌∷◌, map}
use native.Mathlib.Omega.{arith}
use bonded.Prelude.Tests.{Eq, Bool-cases, Option-cases, if◌then◌else◌}
use bonded.Prelude.Lists.{length, any}

abbrev pub Map {ℓ κ} : Type ℓ → Type κ → Type (ℓ ⊔ κ)
Map K V = List (K × V)

pub beq_refl {ℓ} : {K : Type ℓ} ⦃e : Eq K⦄ (k : K) → e.beq k k ≡ true
beq_refl ⦃e⦄ k = (e.beq_iff k k).1 refl

module _ {ℓ κ} {K : Type ℓ} {V : Type κ} ⦃e : Eq K⦄ where
  unfoldable pub lookup : K → Map K V → Option V
  lookup k [] = none
  lookup k ((j, v) ∷ m) = if e.beq j k then some v else lookup k m

  unfoldable pub remove : K → Map K V → Map K V
  remove k [] = []
  remove k ((j, v) ∷ m) = if e.beq j k then remove k m else (j, v) ∷ remove k m

  unfoldable pub insert : K → V → Map K V → Map K V
  unfolding remove
  insert k v m = (k, v) ∷ remove k m

  -- `entry(k).or_insert(v)`.
  unfoldable pub or_insert : K → V → Map K V → Map K V
  unfolding lookup
  or_insert k v m = elim (lookup k m) [ none ↦ (k, v) ∷ m | some w ↦ m ]

  -- `retain(|k, v| keep(k, v))`.
  unfoldable pub retain : (K → V → Bool) → Map K V → Map K V
  retain keep [] = []
  retain keep ((j, v) ∷ m) = if keep j v then (j, v) ∷ retain keep m else retain keep m

  unfoldable pub values : Map K V → List V
  values = map (λ kv. kv.1)

  pub lookup-remove :
      (k j : K) (m : Map K V) → lookup j (remove k m) ≡ (if e.beq k j then none else lookup j m)
  unfolding lookup remove
  lookup-remove k j [] = ground arith
  lookup-remove k j ((i, v) ∷ m) =
      ground (arith, e.beq_iff k j, e.beq_iff i k, e.beq_iff i j, lookup-remove k j m)

  pub lookup-insert :
      (k j : K) (v : V) (m : Map K V)
      → lookup j (insert k v m) ≡ (if e.beq k j then some v else lookup j m)
  unfolding lookup insert
  lookup-insert k j v m = ground (arith, lookup-remove k j m)

  pub lookup-or_insert :
      (k j : K) (v : V) (m : Map K V)
      → lookup j (or_insert k v m) ≡ (
          if e.beq k j then (elim (lookup k m) [ none ↦ some v | some w ↦ some w ]) else lookup j m)
  unfolding lookup or_insert
  lookup-or_insert k j v m = elim (Bool-cases (e.beq k j)) [
    | inl same ↦ ground (arith, e.beq_iff k j)
    | inr other ↦ ground arith
  ]

  pub length-remove-le : (k : K) (m : Map K V) → length (remove k m) ≤ length m
  unfolding remove
  length-remove-le k [] = omega arith
  length-remove-le k ((j, v) ∷ m) = ground (arith, length-remove-le k m)

  pub length-remove-lt :
      (k : K) (m : Map K V) (v : V) → lookup k m ≡ some v → length (remove k m) < length m
  unfolding lookup remove
  length-remove-lt k [] v h = ground arith
  length-remove-lt k ((j, w) ∷ m) v h = ground (arith, length-remove-le k m, length-remove-lt k m v)

  pub lookup-retain :
      (keep : K → V → Bool) (k : K) (m : Map K V) (v : V)
      → lookup k m ≡ some v
      → keep k v ≡ true
      → lookup k (retain keep m) ≡ some v
  unfolding lookup retain
  lookup-retain keep k [] v h q = h
  lookup-retain keep k ((j, w) ∷ m) v h q = ground (arith, e.beq_iff j k, lookup-retain keep k m v)

  pub or_insert-has :
      (k : K) (v : V) (m : Map K V) → (w : V) × (lookup k (or_insert k v m) ≡ some w)
  unfolding lookup or_insert
  or_insert-has k v m = elim (Option-cases (lookup k m)) [
    | inl free ↦ (v, rw (free, or_insert) (ground (arith, e.beq_iff k k)))
    | inr (w, taken) ↦ (w, rw (taken, or_insert) taken)
  ]

  pub or_insert-keeps :
      (k j : K) (v w : V) (m : Map K V) → lookup j m ≡ some w → lookup j (or_insert k v m) ≡ some w
  unfolding lookup or_insert
  or_insert-keeps k j v w m h = ground (arith, e.beq_iff k j)

  -- `into_iter().map(|v| (key(v), v)).collect()`: a later value takes the place of an earlier one.
  unfoldable pub collect : (V → K) → Map K V → List V → Map K V
  collect key m [] = m
  collect key m (v ∷ vs) = collect key (insert (key v) v m) vs

  unfoldable pub contains_key : K → Map K V → Bool
  contains_key k m = elim (lookup k m) [ none ↦ false | some v ↦ true ]

  -- Each value stands once, under its own key.
  abbrev pub IsKeyedBy : (V → K) → Map K V → Type (ℓ ⊔ κ)
  IsKeyedBy key [] = Unit
  IsKeyedBy key ((j, v) ∷ m) = (key v ≡ j) × (lookup j m ≡ none) × IsKeyedBy key m

  pub remove-IsKeyedBy :
      (key : V → K) (k : K) (m : Map K V) → IsKeyedBy key m → IsKeyedBy key (remove k m)
  unfolding remove
  remove-IsKeyedBy key k [] w = tt
  remove-IsKeyedBy key k ((j, v) ∷ m) w = elim (Bool-cases (e.beq j k)) [
    | inl same ↦ rw (same, remove) (remove-IsKeyedBy key k m w.2)
    | inr other ↦
        rw (other, remove)
          (w.0, ground (arith, lookup-remove k j m, w.1), remove-IsKeyedBy key k m w.2)
  ]

  pub insert-IsKeyedBy :
      (key : V → K) (k : K) (v : V) (m : Map K V)
      → key v ≡ k
      → IsKeyedBy key m
      → IsKeyedBy key (insert k v m)
  unfolding insert
  insert-IsKeyedBy key k v m q w =
      (q, ground (arith, lookup-remove k k m, e.beq_iff k k), remove-IsKeyedBy key k m w)

  pub collect-IsKeyedBy :
      (key : V → K) (m : Map K V) (vs : List V) → IsKeyedBy key m → IsKeyedBy key (collect key m vs)
  unfolding collect
  collect-IsKeyedBy key m [] w = w
  collect-IsKeyedBy key m (v ∷ vs) w =
      collect-IsKeyedBy key (insert (key v) v m) vs (insert-IsKeyedBy key (key v) v m refl w)

  -- Writing a map's values out and collecting them again gives the map back, as lookups see it.
  pub lookup-collect-values :
      (key : V → K) (k : K) (m acc : Map K V)
      → IsKeyedBy key m
      → lookup k (collect key acc (values m))
        ≡ (elim (lookup k m) [ some v ↦ some v | none ↦ lookup k acc ])
  unfolding lookup collect values
  lookup-collect-values key k [] acc w = refl
  lookup-collect-values key k ((j, v) ∷ m) acc w = ground (
    arith,
    w.0,
    w.1,
    e.beq_iff j k,
    lookup-insert j k v acc,
    lookup-collect-values key k m (insert (key v) v acc) w.2,
  )

  pub lookup-IsKeyedBy :
      (key : V → K) (k : K) (m : Map K V) (v : V)
      → IsKeyedBy key m
      → lookup k m ≡ some v
      → key v ≡ k
  unfolding lookup
  lookup-IsKeyedBy key k [] v w h = cc
  lookup-IsKeyedBy key k ((j, u) ∷ m) v w h =
      ground (arith, w.0, e.beq_iff j k, lookup-IsKeyedBy key k m v w.2)

  pub contains_key-insert :
      (k j : K) (v : V) (m : Map K V)
      → contains_key j (insert k v m) ≡ (if e.beq k j then true else contains_key j m)
  unfolding contains_key
  contains_key-insert k j v m = ground (arith, lookup-insert k j v m)

  -- A collected map has the keys of its values and those it was started with.
  pub contains_key-collect :
      (key : V → K) (k : K) (m : Map K V) (vs : List V)
      → contains_key k (collect key m vs)
        ≡ (if any (λ v. e.beq (key v) k) vs then true else contains_key k m)
  unfolding collect
  contains_key-collect key k m [] = refl
  contains_key-collect key k m (v ∷ vs) =
      ground (
        arith,
        contains_key-insert (key v) k v m,
        contains_key-collect key k (insert (key v) v m) vs,
      )
