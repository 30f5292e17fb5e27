-- ===== src/Storage/Fills.antt =====
-- A table of the storage after a sequence of writes, one for each element of a list: at a key stands the
-- entry of an element with that key, or what stood there before.
use paqus_node.Base.{
  ◌≡◌, refl, ◌∙◌, ap, List, [], ◌∷◌, ◌++◌, Option, some, if◌then◌else◌, Bytes, same_bytes,
  same_bytes_refl, same_bytes-eq, All, ◌⊎◌, inl, inr, Bool-cases,
}

abbrev pub Table : Type 0
Table = Bytes → Option Bytes

module _ {A : Type 0} (key : A → Bytes) (Encodes : A → Bytes → Type 0) where
  -- The writes for a list, in order, lead from one table to another.
  abbrev pub Fills : List A → Table → Table → Type 0
  Fills [] before after = (k : Bytes) → after k ≡ before k
  Fills (x ∷ xs) before after =
      (middle : Table) × (bytes : Bytes) × Encodes x bytes
      × ((k : Bytes) → middle k ≡ (if same_bytes k (key x) then some bytes else before k))
      × Fills xs middle after

  -- The writes start from any table with the same entries.
  pub Fills-from :
      (xs : List A) (other before after : Table)
      → ((k : Bytes) → before k ≡ other k)
      → Fills xs before after
      → Fills xs other after
  Fills-from [] other before after same rest = λ k. rest k ∙ same k
  Fills-from (x ∷ xs) other before after same (next, bytes, encodes, sets, rest) = (
    next,
    bytes,
    encodes,
    λ k. sets k ∙ ap (λ o. if same_bytes k (key x) then some bytes else o) (same k),
    rest,
  )

  -- The writes lead to any table with the same entries.
  pub Fills-to :
      (xs : List A) (before after other : Table)
      → ((k : Bytes) → other k ≡ after k)
      → Fills xs before after
      → Fills xs before other
  Fills-to [] before after other same rest = λ k. same k ∙ rest k
  Fills-to (x ∷ xs) before after other same (next, bytes, encodes, sets, rest) =
      (next, bytes, encodes, sets, Fills-to xs next after other same rest)

  -- The writes lead from any table to any table with the same entries.
  pub Fills-agree :
      (xs : List A) {before after : Table} (other other' : Table)
      → ((k : Bytes) → before k ≡ other k)
      → ((k : Bytes) → other' k ≡ after k)
      → Fills xs before after
      → Fills xs other other'
  Fills-agree xs {before = before} {after = after} other other' same same' fills =
      Fills-to xs other after other' same' (Fills-from xs other before after same fills)

  pub Fills-append :
      (xs ys : List A) (before middle after : Table)
      → Fills xs before middle
      → Fills ys middle after
      → Fills (xs ++ ys) before after
  Fills-append [] ys before middle after same rest = Fills-from ys before middle after same rest
  Fills-append (x ∷ xs) ys before middle after (next, bytes, encodes, sets, first) rest =
      (next, bytes, encodes, sets, Fills-append xs ys next middle after first rest)

  module _ (P : A → Type 0) where
    -- The table holds, at a key, the entry of an element that satisfies the predicate.
    abbrev pub Holds : Table → Bytes → Type 0
    Holds table k =
        (x : A) × P x × (k ≡ key x) × (bytes : Bytes) × Encodes x bytes × (table k ≡ some bytes)

    pub Fills-cases :
        (xs : List A) (before after : Table)
        → All P xs
        → Fills xs before after
        → (k : Bytes) → Holds after k ⊎ (after k ≡ before k)
    Fills-cases [] before after ps same k = inr (same k)
    Fills-cases (x ∷ xs) before after (p, ps) (middle, bytes, encodes, sets, rest) k =
        elim (Fills-cases xs middle after ps rest k) [
          | inl held ↦ inl held
          | inr kept ↦ elim (Bool-cases (same_bytes k (key x))) [
            | inr other ↦ inr (kept ∙ sets k ∙ (rw other refl))
            | inl same ↦
                inl (
                  x,
                  p,
                  same_bytes-eq k (key x) same,
                  bytes,
                  encodes,
                  kept ∙ sets k ∙ (rw same refl),
                )
          ]
        ]

    -- Every element of the list has an entry at its key, its own or that of a later element.
    pub Fills-All :
        (xs : List A) (before after : Table)
        → All P xs
        → Fills xs before after
        → All (λ x. Holds after (key x)) xs
    Fills-All [] before after ps same = tt
    Fills-All (x ∷ xs) before after (p, ps) (middle, bytes, encodes, sets, rest) = (
      elim (Fills-cases xs middle after ps rest (key x)) [
        | inl held ↦ held
        | inr kept ↦ (x, p, refl, bytes, encodes, kept ∙ sets (key x) ∙ (rw same_bytes_refl refl))
      ],
      Fills-All xs middle after ps rest,
    )
