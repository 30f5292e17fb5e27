-- ===== src/Mempool/Accounting.antt =====
-- The representation of the pool: keys are hashes, `total_bytes` counts the stored transactions, and
-- neither limit of the configuration is exceeded. Which operations keep that, and which do not.
use paqus_node.Base.{
  ℕ, ◌+◌, ◌-◌, ◌≡◌, ◌≤◌, ◌<◌, refl, [], ◌∷◌, Option, none, some, Result, ok, err, Option-cases, inl,
  inr, arith, length, u64_max, saturating_add,
}
use paqus_node.BTreeMap
use paqus_node.BTreeMap.{BTreeMap, retain, IsSorted}
use paqus_node.BTreeMap.Laws.{insert-IsSorted, remove-IsSorted, retain-IsSorted, get-remove}
use paqus_node.BTreeMap.Sums.{
  total, AllEntries, total-insert, length-insert, total-remove, length-remove, total-retain-le,
  length-retain-le, AllEntries-insert, AllEntries-remove, AllEntries-retain,
}
use paqus_node.Mempool.{
  MempoolEntry, Pool, Error, entry_size, is_fresh, remove, retained_bytes, prune_expired,
}
use paqus_node.Mempool.Insert.{
  replacement_size, remove_replaced, store, insert_unchecked, insert_if, insert_at, admission,
  insert_validated_at,
}
use paqus_node.Mempool.Admission.{replacement_candidate-some, admission-IsAdmitted}
use paqus_node.Mempool.Policy.{replacement_candidate}
use paqus_node.Paqus.{Paqus}

module _ ⦃paqus : Paqus⦄ where
  open paqus use {SignedTransaction, hash, serialized_size, Ledger}

  abbrev pub stored_bytes : BTreeMap (MempoolEntry SignedTransaction) → ℕ
  stored_bytes m = total entry_size m

  abbrev pub IsKeyed : BTreeMap (MempoolEntry SignedTransaction) → Type 0
  IsKeyed m = AllEntries (λ h e. hash e.transaction ≡ h) m

  -- The map is indexed by hash, the counter covers what is stored, and both limits hold.
  pub record IsSound (m : Pool) : Type 0 where
    pub sorted : IsSorted m.transactions
    pub keyed : IsKeyed m.transactions
    pub covered : stored_bytes m.transactions ≤ m.total_bytes
    pub within_bytes : m.total_bytes ≤ m.config.max_bytes
    pub within_count : length m.transactions ≤ m.config.max_transactions
    pub representable : m.config.max_bytes < u64_max

  -- A sound pool whose counter is exact.
  pub record IsValid (m : Pool) : Type 0 where
    pub sorted : IsSorted m.transactions
    pub keyed : IsKeyed m.transactions
    pub counted : m.total_bytes ≡ stored_bytes m.transactions
    pub within_bytes : m.total_bytes ≤ m.config.max_bytes
    pub within_count : length m.transactions ≤ m.config.max_transactions
    pub representable : m.config.max_bytes < u64_max

  pub IsValid-IsSound : (m : Pool) → IsValid m → IsSound m
  IsValid-IsSound m v = record {
    sorted = v.sorted;
    keyed = v.keyed;
    covered = omega arith;
    within_bytes = v.within_bytes;
    within_count = v.within_count;
    representable = v.representable;
  }

  retained_bytes-total :
      (bytes : ℕ) (m : BTreeMap (MempoolEntry SignedTransaction))
      → bytes + stored_bytes m ≤ u64_max
      → retained_bytes bytes m ≡ bytes + stored_bytes m
  unfolding retained_bytes
  retained_bytes-total bytes [] h = omega arith
  retained_bytes-total bytes ((k, e) ∷ m) h =
      omega (arith, retained_bytes-total (saturating_add bytes (entry_size e)) m (omega arith))

  -- Pruning a sound pool makes the counter exact.
  pub prune_expired-IsValid : (m : Pool) (now : ℕ) → IsSound m → IsValid (prune_expired m now).0
  unfolding prune_expired
  prune_expired-IsValid m now v =
      let p = λ (_ : ℕ) (e : MempoolEntry SignedTransaction). is_fresh m.config now e in
      let small = total-retain-le entry_size p m.transactions in
      let counted = retained_bytes-total 0 (retain p m.transactions) (omega (arith, small)) in
      record {
        sorted = retain-IsSorted p m.transactions v.sorted;
        keyed = AllEntries-retain _ p m.transactions v.keyed;
        counted = omega (arith, counted);
        within_bytes = omega (arith, counted, small);
        within_count = omega (arith, length-retain-le p m.transactions);
        representable = v.representable;
      }

  pub remove-IsValid : (m : Pool) (h : ℕ) → IsValid m → IsValid (remove m h).0
  unfolding remove
  remove-IsValid m h v = elim (Option-cases (BTreeMap.get h m.transactions)) [
    | inl e ↦ rw (e, remove) v
    | inr (entry, e) ↦
        let bytes = total-remove entry_size h entry m.transactions e in
        rw (e, remove)
          (record {
            sorted = remove-IsSorted h m.transactions v.sorted;
            keyed = AllEntries-remove _ h m.transactions v.keyed;
            counted = omega (arith, bytes);
            within_bytes = omega arith;
            within_count = omega (arith, length-remove h entry m.transactions e);
            representable = v.representable;
          })
  ]

  store-IsValid :
      (m : Pool) (t : SignedTransaction) (now : ℕ)
      → IsValid m
      → BTreeMap.get (hash t) m.transactions ≡ none
      → length m.transactions < m.config.max_transactions
      → saturating_add m.total_bytes (serialized_size t) ≤ m.config.max_bytes
      → IsValid (store m t now)
  unfolding store
  store-IsValid m t now v absent room fits =
      let e : MempoolEntry SignedTransaction = record { transaction = t; inserted_at = now } in
      record {
        sorted = insert-IsSorted (hash t) e m.transactions v.sorted;
        keyed = AllEntries-insert _ (hash t) e m.transactions refl v.keyed;
        counted = omega (arith, total-insert entry_size (hash t) e m.transactions absent);
        within_bytes = fits;
        within_count = omega (arith, length-insert (hash t) e m.transactions absent);
        representable = v.representable;
      }

  -- The transaction to replace, if there is one, is in the pool.
  abbrev pub IsPresent : Pool → Option ℕ → Type 0
  IsPresent m none = Unit
  IsPresent m (some r) =
      (e : MempoolEntry SignedTransaction) × (BTreeMap.get r m.transactions ≡ some e)

  -- What the branch of `insert_unchecked` that stores is reached with.
  replace-IsValid :
      (m : Pool) (t : SignedTransaction) (now r : ℕ) (entry : MempoolEntry SignedTransaction)
      → IsValid m
      → BTreeMap.get r m.transactions ≡ some entry
      → BTreeMap.get (hash t) m.transactions ≡ none
      → saturating_add (m.total_bytes - entry_size entry) (serialized_size t) ≤ m.config.max_bytes
      → IsValid (store (remove m r).0 t now)
  unfolding remove
  replace-IsValid m t now r entry v found absent fits =
      store-IsValid (remove m r).0 t now (remove-IsValid m r v)
        (rw (found, remove) (ground (arith, get-remove (hash t) r m.transactions v.sorted)))
        (rw (found, remove) (omega (arith, length-remove r entry m.transactions found)))
        (rw (found, remove) fits)

  pub insert_unchecked-IsValid :
      (m : Pool) (t : SignedTransaction) (now : ℕ) (replacement : Option ℕ)
      → IsValid m
      → IsPresent m replacement
      → IsValid (insert_unchecked m t now replacement).0
  unfolding insert_unchecked remove_replaced replacement_size
  insert_unchecked-IsValid m t now none v p = ground (arith, store-IsValid m t now v)
  insert_unchecked-IsValid m t now (some r) v (entry, found) =
      ground (arith, replace-IsValid m t now r entry v found)

  -- From a sound pool `insert_at` gives a valid one, whether it stores the transaction or refuses it:
  -- keys are hashes in ascending order, the byte counter is exact, and both limits hold.
  pub insert_at-IsValid :
      (m : Pool) (t : SignedTransaction) (now : ℕ) → IsSound m → IsValid (insert_at m t now).0
  unfolding insert_at
  insert_at-IsValid m t now s =
      let pruned = (prune_expired m now).0 in
      let v = prune_expired-IsValid m now s in
      ground (arith, insert_unchecked-IsValid pruned t now none v tt)

  candidate-IsPresent :
      (m : Pool) (t : SignedTransaction) (replacement : Option ℕ)
      → IsSorted m.transactions
      → replacement_candidate m t ≡ ok replacement
      → IsPresent m replacement
  candidate-IsPresent m t none s c = tt
  candidate-IsPresent m t (some r) s c =
      let found = replacement_candidate-some m t r s c in (found.0, found.1)

  insert_if-IsValid :
      (m : Pool) (ledger : Ledger) (t : SignedTransaction) (now : ℕ) (r : Result Error (Option ℕ))
      → IsValid m
      → admission m ledger t now ≡ r
      → IsValid (insert_if m t now r).0
  insert_if-IsValid m ledger t now (ok replacement) v e =
      let a = admission-IsAdmitted m ledger t now replacement e in
      insert_unchecked-IsValid m t now replacement v
        (candidate-IsPresent m t replacement v.sorted a.candidate)
  insert_if-IsValid m ledger t now (err x) v e = v

  -- From a sound pool `insert_validated_at` gives a valid one, whether it stores the transaction, with
  -- or without replacing another, or refuses it.
  pub insert_validated_at-IsValid :
      (m : Pool) (ledger : Ledger) (t : SignedTransaction) (now : ℕ)
      → IsSound m
      → IsValid (insert_validated_at m ledger t now).0
  unfolding insert_validated_at
  insert_validated_at-IsValid m ledger t now s =
      let pruned = (prune_expired m now).0 in
      insert_if-IsValid pruned ledger t now (admission pruned ledger t now)
        (prune_expired-IsValid m now s) refl
