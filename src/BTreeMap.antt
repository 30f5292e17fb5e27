-- ===== src/BTreeMap.antt =====
-- `std::collections::BTreeMap` with byte-string keys of one length, which are read as numbers: the
-- order of the map is then the order of the numbers. The entries stand in ascending order of the key.
pub mod Laws
pub mod Sums
pub mod Queues
use paqus_node.Base.{
  ℕ, ◌≡◌, ◌<◌, Bool, List, [], ◌∷◌, map, Option, none, some, ltb, ◌==◌, if◌then◌else◌,
}

abbrev pub BTreeMap {ℓ} : Type ℓ → Type ℓ
BTreeMap V = List (ℕ × V)

-- A `BTreeSet`, and a `HashSet` whose order is not read.
abbrev pub Set : Type 0
Set = BTreeMap (Unit {0})

module _ {ℓ} {V : Type ℓ} where
  unfoldable pub get : ℕ → BTreeMap V → Option V
  get k [] = none
  get k ((j, v) ∷ m) = if k == j then some v else get k m

  unfoldable pub insert : ℕ → V → BTreeMap V → BTreeMap V
  insert k v [] = (k, v) ∷ []
  insert k v ((j, w) ∷ m) =
      if ltb k j then (k, v) ∷ (j, w) ∷ m else if k == j then (k, v) ∷ m else (j, w) ∷ insert k v m

  unfoldable pub remove : ℕ → BTreeMap V → BTreeMap V
  remove k [] = []
  remove k ((j, w) ∷ m) = if k == j then m else (j, w) ∷ remove k m

  -- `retain`, with a test that reads the key and the value.
  unfoldable pub retain : (ℕ → V → Bool) → BTreeMap V → BTreeMap V
  retain p [] = []
  retain p ((j, w) ∷ m) = if p j w then (j, w) ∷ retain p m else retain p m

  -- `iter().find(..)`: the first entry that passes, in the order of the keys.
  unfoldable pub find : (ℕ → V → Bool) → BTreeMap V → Option (ℕ × V)
  find p [] = none
  find p ((j, w) ∷ m) = if p j w then some (j, w) else find p m

  abbrev pub values : BTreeMap V → List V
  values = map (λ e. e.1)

  -- The order of the representation, which every map built by the operations has.
  abbrev pub Above : ℕ → BTreeMap V → Type 0
  Above k [] = Unit
  Above k ((j, v) ∷ m) = (k < j) × Above k m

  abbrev pub IsSorted : BTreeMap V → Type 0
  IsSorted [] = Unit
  IsSorted ((j, v) ∷ m) = Above j m × IsSorted m
