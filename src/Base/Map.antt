-- ===== src/Base/Map.antt =====
-- `std::unordered_map` with integer keys, as an association list. The list's order stands for the
-- iteration order, which the language leaves open; a new key is put at its end.
use Prim.Native.Nat.{ℕ}
use mathlib.Core.Path.{◌≡◌, refl}
use mathlib.Core.Bool.{Bool, true, false}
use mathlib.Core.Option.{Option, none, some}
use mathlib.Core.List.{List, [], ◌∷◌}
use native.Mathlib.Omega.{arith}
use cpp_game_room.Base.Tests.{◌==◌, if◌then◌else◌}

abbrev pub Map {ℓ} : Type ℓ → Type ℓ
Map V = List (ℕ × V)

pub some-inj {ℓ} : {A : Type ℓ} {x y : A} → ◌≡◌ {A = Option A} (some x) (some y) → x ≡ y
some-inj e = cc e

module _ {ℓ} {V : Type ℓ} where
  -- m.find(k)
  unfoldable pub lookup : ℕ → Map V → Option V
  lookup k [] = none
  lookup k ((j, a) ∷ rest) = if j == k then some a else lookup k rest

  -- m[k] = v
  unfoldable pub insert : ℕ → V → Map V → Map V
  insert k a [] = (k, a) ∷ []
  insert k a ((j, b) ∷ rest) = if j == k then (j, a) ∷ rest else (j, b) ∷ insert k a rest

  -- m.erase(k)
  unfoldable pub remove : ℕ → Map V → Map V
  remove k [] = []
  remove k ((j, a) ∷ rest) = let m' = remove k rest in if j == k then m' else (j, a) ∷ m'

  -- The keys in iteration order.
  unfoldable pub keys : Map V → List ℕ
  keys [] = []
  keys ((k, a) ∷ rest) = k ∷ keys rest

  -- m.find(k) != m.end()
  abbrev pub has : ℕ → Map V → Bool
  has k rest = elim (lookup k rest) [ none ↦ false | some a ↦ true ]

  -- `it->second = f(it->second)` for the entry of `k`, if there is one.
  unfoldable pub adjust : ℕ → (V → V) → Map V → Map V
  adjust k f [] = []
  adjust k f ((j, a) ∷ rest) = if j == k then (j, f a) ∷ rest else (j, a) ∷ adjust k f rest

  pub lookup-insert :
      (k j : ℕ) (a : V) (rest : Map V)
      → lookup j (insert k a rest) ≡ (if k == j then some a else lookup j rest)
  unfolding lookup insert
  lookup-insert k j a [] = refl
  lookup-insert k j a ((i, b) ∷ rest) = ground (arith, lookup-insert k j a rest)

  pub lookup-remove :
      (k j : ℕ) (rest : Map V) → lookup j (remove k rest) ≡ (if k == j then none else lookup j rest)
  unfolding lookup remove
  lookup-remove k j [] = ground arith
  lookup-remove k j ((i, a) ∷ rest) = ground (arith, lookup-remove k j rest)

  pub keys-adjust : (k : ℕ) (f : V → V) (rest : Map V) → keys (adjust k f rest) ≡ keys rest
  unfolding keys adjust
  keys-adjust k f [] = refl
  keys-adjust k f ((i, a) ∷ rest) = ground (arith, keys-adjust k f rest)

-- What the compiler's `lookup` gives after an update in place.
abbrev pub map_option {ℓ} : {V : Type ℓ} → (V → V) → Option V → Option V
map_option f none = none
map_option f (some a) = some (f a)

pub lookup-adjust {ℓ} :
    {V : Type ℓ} (k j : ℕ) (f : V → V) (rest : Map V)
    → lookup j (adjust k f rest) ≡ (if k == j then map_option f (lookup j rest) else lookup j rest)
unfolding lookup adjust
lookup-adjust k j f [] = ground arith
lookup-adjust k j f ((i, a) ∷ rest) = ground (arith, lookup-adjust k j f rest)

-- Every key has one entry.
abbrev pub DistinctKeys {ℓ} : {V : Type ℓ} → Map V → Type 0
DistinctKeys [] = Unit {0}
DistinctKeys ((k, a) ∷ rest) = (has k rest ≡ false) × DistinctKeys rest

pub ruleset map_laws = (lookup-insert, lookup-remove, lookup-adjust)
