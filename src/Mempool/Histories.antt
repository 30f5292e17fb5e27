-- ===== src/Mempool/Histories.antt =====
-- Every sequence of calls of the pool's public operations, from an empty pool.
use paqus_node.Base.{
  ℕ, ◌≡◌, ◌<◌, refl, List, [], ◌∷◌, Option, none, some, arith, u64_max, Option-cases, inl, inr,
  Result, ok, err, ◌∙◌,
}
use paqus_node.BTreeMap
use paqus_node.BTreeMap.{BTreeMap, IsSorted}
use paqus_node.BTreeMap.Laws.{remove-IsSorted}
use paqus_node.BTreeMap.Sums.{total-remove, length-remove, remove_absent, AllEntries-remove}
use paqus_node.Mempool.{
  MempoolConfig, Pool, Error, with_config, entry_size, remove, clear, prune_expired,
  remove_confirmed,
}
use paqus_node.Mempool.Accounting.{
  IsSound, IsValid-IsSound, prune_expired-IsValid, insert_at-IsValid, insert_validated_at-IsValid,
}
use paqus_node.Mempool.Insert.{
  remove_replaced, store, insert_unchecked, insert_if, insert_at, insert_validated_at,
}
use paqus_node.Paqus.{Paqus}

module _ ⦃paqus : Paqus⦄ where
  open paqus use {SignedTransaction, hash, Ledger}

  pub data Call : Type 0 where
    insert_at_call : SignedTransaction → ℕ → Call
    insert_validated_at_call : Ledger → SignedTransaction → ℕ → Call
    remove_call : ℕ → Call
    clear_call : Call
    prune_expired_call : ℕ → Call
    remove_confirmed_call : List SignedTransaction → Call

  unfoldable pub apply : Call → Pool → Pool
  apply (insert_at_call t now) m = (insert_at m t now).0
  apply (insert_validated_at_call ledger t now) m = (insert_validated_at m ledger t now).0
  apply (remove_call h) m = (remove m h).0
  apply clear_call m = clear m
  apply (prune_expired_call now) m = (prune_expired m now).0
  apply (remove_confirmed_call block_transactions) m = remove_confirmed m block_transactions

  unfoldable pub run : List Call → Pool → Pool
  run [] m = m
  run (c ∷ calls) m = run calls (apply c m)

  remove-IsSound : (m : Pool) (h : ℕ) → IsSound m → IsSound (remove m h).0
  unfolding remove
  remove-IsSound m h v = elim (Option-cases (BTreeMap.get h m.transactions)) [
    | inl e ↦ rw (e, remove) v
    | inr (entry, e) ↦
        let bytes = total-remove entry_size h entry m.transactions e in
        rw (e, remove)
          (record {
            sorted = remove-IsSorted h m.transactions v.sorted;
            keyed = AllEntries-remove _ h m.transactions v.keyed;
            covered = omega (arith, bytes);
            within_bytes = omega arith;
            within_count = omega (arith, length-remove h entry m.transactions e);
            representable = v.representable;
          })
  ]

  -- Removing a hash from the map alone.
  remove_hash-IsSound :
      (m : Pool) (h : ℕ)
      → IsSound m
      → IsSound (record m { transactions = BTreeMap.remove h m.transactions })
  remove_hash-IsSound m h v = elim (Option-cases (BTreeMap.get h m.transactions)) [
    | inl e ↦ rw (remove_absent h m.transactions e) v
    | inr (entry, e) ↦ record {
      sorted = remove-IsSorted h m.transactions v.sorted;
      keyed = AllEntries-remove _ h m.transactions v.keyed;
      covered = omega (arith, total-remove entry_size h entry m.transactions e);
      within_bytes = v.within_bytes;
      within_count = omega (arith, length-remove h entry m.transactions e);
      representable = v.representable;
    }
  ]

  pub remove_confirmed-IsSound :
      (ts : List SignedTransaction) (m : Pool) → IsSound m → IsSound (remove_confirmed m ts)
  unfolding remove_confirmed
  remove_confirmed-IsSound [] m v = v
  remove_confirmed-IsSound (t ∷ ts) m v =
      remove_confirmed-IsSound ts
        (record m { transactions = BTreeMap.remove (hash t) m.transactions })
        (remove_hash-IsSound m (hash t) v)

  clear-IsSound : (m : Pool) → IsSound m → IsSound (clear m)
  unfolding clear
  clear-IsSound m v = record {
    sorted = tt;
    keyed = tt;
    covered = omega arith;
    within_bytes = omega arith;
    within_count = omega arith;
    representable = v.representable;
  }

  apply-IsSound : (c : Call) (m : Pool) → IsSound m → IsSound (apply c m)
  unfolding apply
  apply-IsSound (insert_at_call t now) m v = IsValid-IsSound _ (insert_at-IsValid m t now v)
  apply-IsSound (insert_validated_at_call ledger t now) m v =
      IsValid-IsSound _ (insert_validated_at-IsValid m ledger t now v)
  apply-IsSound (remove_call h) m v = remove-IsSound m h v
  apply-IsSound clear_call m v = clear-IsSound m v
  apply-IsSound (prune_expired_call now) m v = IsValid-IsSound _ (prune_expired-IsValid m now v)
  apply-IsSound (remove_confirmed_call ts) m v = remove_confirmed-IsSound ts m v

  run-IsSound : (calls : List Call) (m : Pool) → IsSound m → IsSound (run calls m)
  unfolding run
  run-IsSound [] m v = v
  run-IsSound (c ∷ calls) m v = run-IsSound calls (apply c m) (apply-IsSound c m v)

  remove-config : (m : Pool) (h : ℕ) → (remove m h).0.config ≡ m.config
  unfolding remove
  remove-config m h = ground arith

  insert_unchecked-config :
      (m : Pool) (t : SignedTransaction) (now : ℕ) (r : Option ℕ)
      → (insert_unchecked m t now r).0.config ≡ m.config
  unfolding insert_unchecked remove_replaced store
  insert_unchecked-config m t now none = ground arith
  insert_unchecked-config m t now (some r) = ground (arith, remove-config m r)

  insert_if-config :
      (m : Pool) (t : SignedTransaction) (now : ℕ) (r : Result Error (Option ℕ))
      → (insert_if m t now r).0.config ≡ m.config
  insert_if-config m t now (ok r) = insert_unchecked-config m t now r
  insert_if-config m t now (err e) = refl

  prune_expired-config : (m : Pool) (now : ℕ) → (prune_expired m now).0.config ≡ m.config
  unfolding prune_expired
  prune_expired-config m now = refl

  apply-config : (c : Call) (m : Pool) → (apply c m).config ≡ m.config
  unfolding apply insert_at insert_validated_at clear remove_confirmed
  apply-config (insert_at_call t now) m = insert_if-config _ t now _ ∙ prune_expired-config m now
  apply-config (insert_validated_at_call ledger t now) m =
      insert_if-config _ t now _ ∙ prune_expired-config m now
  apply-config (remove_call h) m = remove-config m h
  apply-config clear_call m = refl
  apply-config (prune_expired_call now) m = prune_expired-config m now
  apply-config (remove_confirmed_call ts) m = refl

  run-config : (calls : List Call) (m : Pool) → (run calls m).config ≡ m.config
  unfolding run
  run-config [] m = refl
  run-config (c ∷ calls) m = run-config calls (apply c m) ∙ apply-config c m

  pub with_config-IsSound :
      (config : MempoolConfig) → config.max_bytes < u64_max → IsSound (with_config config)
  unfolding with_config
  with_config-IsSound config h = record {
    sorted = tt;
    keyed = tt;
    covered = omega arith;
    within_bytes = omega arith;
    within_count = omega arith;
    representable = h;
  }

  -- After any calls on a fresh pool whose byte limit is below the largest `usize`: the configuration
  -- is the one given, every transaction is stored under its hash in ascending order, the counter
  -- covers the stored bytes, and neither the number of transactions nor their bytes exceeds its limit.
  pub run-with_config-IsSound :
      (config : MempoolConfig) (calls : List Call)
      → config.max_bytes < u64_max
      → IsSound (run calls (with_config config))
        × ((run calls (with_config config)).config ≡ config)
  unfolding with_config
  run-with_config-IsSound config calls h =
      (run-IsSound calls _ (with_config-IsSound config h), run-config calls _)
