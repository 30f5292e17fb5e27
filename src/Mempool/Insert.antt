-- ===== src/Mempool/Insert.antt =====
-- src/runtime/mempool/mempool.rs: insertion, with and without the check against a ledger.
use paqus_node.Base.{
  ℕ, ◌-◌, not, ◌&&◌, Option, none, some, ltb, leb, if◌then◌else◌, is_some, Result, ok, err, ◌>>=◌,
  ◌>>◌, map_err, saturating_add,
}
use paqus_node.BTreeMap
use paqus_node.BTreeMap.{BTreeMap}
use paqus_node.Mempool.{
  duplicate_transaction, mempool_full, invalid_transaction, Pool, Error, entry_size, contains, len,
  remove, prune_expired,
}
use paqus_node.Mempool.Policy.{
  validate_fee_policy, validate_timestamp_policy, replacement_candidate,
  validate_against_ledger_excluding,
}
use paqus_node.Paqus.{Paqus}

module _ ⦃paqus : Paqus⦄ where
  open paqus use {SignedTransaction, hash, serialized_size, validate_signed_at, Ledger}

  unfoldable pub replacement_size : Pool → Option ℕ → ℕ
  replacement_size m none = 0
  replacement_size m (some r) = elim (BTreeMap.get r m.transactions) [
    | none ↦ 0
    | some e ↦ entry_size e
  ]

  -- `if let Some(replacement) = replacement { self.remove(&replacement); }`
  unfoldable pub remove_replaced : Pool → Option ℕ → Pool
  remove_replaced m none = m
  remove_replaced m (some r) = (remove m r).0

  unfoldable pub store : Pool → SignedTransaction → ℕ → Pool
  store m t inserted_at = record m {
    transactions =
        BTreeMap.insert (hash t) (record { transaction = t; inserted_at = inserted_at })
          m.transactions;
    total_bytes = saturating_add m.total_bytes (serialized_size t);
  }

  unfoldable pub insert_unchecked : Pool → SignedTransaction → ℕ → Option ℕ → Pool × Result Error ℕ
  insert_unchecked m t inserted_at replacement =
      if contains m (hash t)
      then (m, err duplicate_transaction)
      else if not (is_some replacement) && leb m.config.max_transactions (len m)
      then (m, err mempool_full)
      else if ltb m.config.max_bytes
          (saturating_add (m.total_bytes - replacement_size m replacement) (serialized_size t))
      then (m, err mempool_full)
      else (store (remove_replaced m replacement) t inserted_at, ok (hash t))

  -- What follows the checks: an error leaves the pool as it is.
  abbrev pub insert_if :
      Pool → SignedTransaction → ℕ → Result Error (Option ℕ) → Pool × Result Error ℕ
  insert_if m t now (ok replacement) = insert_unchecked m t now replacement
  insert_if m t now (err e) = (m, err e)

  unfoldable pub insert_at : Pool → SignedTransaction → ℕ → Pool × Result Error ℕ
  insert_at m t now =
      let pruned = (prune_expired m now).0 in
      insert_if pruned t now (do
        validate_timestamp_policy t now
        map_err invalid_transaction (validate_signed_at t now)
        validate_fee_policy pruned t
        ok none)

  -- The checks of `insert_validated_at`, with the transaction that the new one replaces.
  unfoldable pub admission : Pool → Ledger → SignedTransaction → ℕ → Result Error (Option ℕ)
  admission m ledger t now = do
    validate_timestamp_policy t now
    map_err invalid_transaction (validate_signed_at t now)
    validate_fee_policy m t
    replacement ← replacement_candidate m t
    validate_against_ledger_excluding m ledger t replacement
    ok replacement

  unfoldable pub insert_validated_at : Pool → Ledger → SignedTransaction → ℕ → Pool × Result Error ℕ
  insert_validated_at m ledger t now =
      let pruned = (prune_expired m now).0 in insert_if pruned t now (admission pruned ledger t now)
