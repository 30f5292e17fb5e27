-- ===== src/BTreeMap/Laws.antt =====
-- Reads after writes, and that the operations keep the order of the keys.
use paqus_node.Base.{
  ℕ, ◌≡◌, ◌<◌, ◌≤◌, refl, Bool, true, false, [], ◌∷◌, none, some, ◌==◌, if◌then◌else◌, arith,
  Bool-cases, inl, inr,
}
use paqus_node.BTreeMap.{BTreeMap, get, insert, remove, retain, find, Above, IsSorted}

module _ {ℓ} {V : Type ℓ} where
  pub Above-mono : (i k : ℕ) (m : BTreeMap V) → i ≤ k → Above k m → Above i m
  Above-mono i k [] h a = tt
  Above-mono i k ((j, v) ∷ m) h a = (omega arith, Above-mono i k m h a.1)

  Above-insert : (i k : ℕ) (v : V) (m : BTreeMap V) → i < k → Above i m → Above i (insert k v m)
  unfolding insert
  Above-insert i k v [] h a = (h, tt)
  Above-insert i k v ((j, w) ∷ m) h a = ground (arith, Above-insert i k v m h a.1)

  pub insert-IsSorted : (k : ℕ) (v : V) (m : BTreeMap V) → IsSorted m → IsSorted (insert k v m)
  unfolding insert
  insert-IsSorted k v [] s = (tt, tt)
  insert-IsSorted k v ((j, w) ∷ m) s =
      ground (arith, insert-IsSorted k v m s.1, Above-insert j k v m, Above-mono k j m)

  Above-remove : (i k : ℕ) (m : BTreeMap V) → Above i m → Above i (remove k m)
  unfolding remove
  Above-remove i k [] a = tt
  Above-remove i k ((j, w) ∷ m) a = ground (arith, Above-remove i k m a.1)

  pub remove-IsSorted : (k : ℕ) (m : BTreeMap V) → IsSorted m → IsSorted (remove k m)
  unfolding remove
  remove-IsSorted k [] s = tt
  remove-IsSorted k ((j, w) ∷ m) s = ground (arith, remove-IsSorted k m s.1, Above-remove j k m s.0)

  Above-retain : (i : ℕ) (p : ℕ → V → Bool) (m : BTreeMap V) → Above i m → Above i (retain p m)
  unfolding retain
  Above-retain i p [] a = tt
  Above-retain i p ((j, w) ∷ m) a = ground (arith, Above-retain i p m a.1)

  pub retain-IsSorted : (p : ℕ → V → Bool) (m : BTreeMap V) → IsSorted m → IsSorted (retain p m)
  unfolding retain
  retain-IsSorted p [] s = tt
  retain-IsSorted p ((j, w) ∷ m) s = ground (arith, retain-IsSorted p m s.1, Above-retain j p m s.0)

  -- A key at or below every key of the rest is absent from the rest.
  pub get-Above : (k i : ℕ) (m : BTreeMap V) → k ≤ i → Above i m → get k m ≡ none
  unfolding get
  get-Above k i [] h a = refl
  get-Above k i ((j, v) ∷ m) h a = ground (arith, get-Above k i m h a.1)

  get-Above_self : (k : ℕ) (m : BTreeMap V) → Above k m → get k m ≡ none
  get-Above_self k m a = get-Above k k m (omega arith) a

  -- A key that is found behind a smaller one is found.
  pub get-cons_of_get :
      (k j : ℕ) (v w : V) (m : BTreeMap V)
      → Above j m
      → get k m ≡ some v
      → get k ((j, w) ∷ m) ≡ some v
  unfolding get
  get-cons_of_get k j v w m a e = elim (Bool-cases (k == j)) [
    | inl same ↦ absurd (ground (arith, get-Above_self k m, get-Above k j m))
    | inr other ↦ rw (other, get) e
  ]

  pub get-insert :
      (j k : ℕ) (v : V) (m : BTreeMap V)
      → get j (insert k v m) ≡ (if j == k then some v else get j m)
  unfolding get insert
  get-insert j k v [] = refl
  get-insert j k v ((i, w) ∷ m) = ground (arith, get-insert j k v m)

  pub get-remove :
      (j k : ℕ) (m : BTreeMap V)
      → IsSorted m
      → get j (remove k m) ≡ (if j == k then none else get j m)
  unfolding get remove
  get-remove j k [] s = ground arith
  get-remove j k ((i, w) ∷ m) s = ground (arith, get-remove j k m s.1, get-Above j i m)

  -- What is retained reads as before, if it passes the test.
  pub get-retain-some :
      (p : ℕ → V → Bool) (k : ℕ) (v : V) (m : BTreeMap V)
      → IsSorted m
      → get k m ≡ some v
      → get k (retain p m) ≡ (if p k v then some v else none)
  unfolding get retain
  get-retain-some p k v [] s e = ground arith
  get-retain-some p k v ((i, w) ∷ m) s e =
      ground
        (arith, get-retain-some p k v m s.1, get-Above k i (retain p m), Above-retain i p m s.0)

  pub get-retain-none :
      (p : ℕ → V → Bool) (k : ℕ) (m : BTreeMap V) → get k m ≡ none → get k (retain p m) ≡ none
  unfolding get retain
  get-retain-none p k [] e = refl
  get-retain-none p k ((i, w) ∷ m) e = ground (arith, get-retain-none p k m)

  -- `find` reports an entry of the map that passes the test.
  pub find-some :
      (p : ℕ → V → Bool) (m : BTreeMap V) (k : ℕ) (v : V)
      → IsSorted m
      → find p m ≡ some (k, v)
      → (get k m ≡ some v) × (p k v ≡ true)
  unfolding get find
  find-some p [] k v s e = ground arith
  find-some p ((i, w) ∷ m) k v s e = ground (arith, find-some p m k v s.1, get-Above_self i m s.0)

  -- `find` fails only if no entry passes.
  pub find-none :
      (p : ℕ → V → Bool) (m : BTreeMap V) (k : ℕ) (v : V)
      → find p m ≡ none
      → get k m ≡ some v
      → p k v ≡ false
  unfolding get find
  find-none p [] k v e g = ground arith
  find-none p ((i, w) ∷ m) k v e g = ground (arith, find-none p m k v)
