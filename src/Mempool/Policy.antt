-- ===== src/Mempool/Policy.antt =====
-- src/runtime/mempool/mempool.rs: the checks that a transaction passes before it enters the pool.
use paqus_node.Base.{
  ℕ, ◌-◌, max, Bool, false, not, ◌&&◌, List, [], ◌∷◌, map, Option, none, some, ltb, leb, ◌==◌,
  if◌then◌else◌, Result, ok, err, ◌>>=◌, ◌>>◌, ok_or, map_err, reject_if, filter, sort_by,
  saturating_add, checked_add,
}
use paqus_node.BTreeMap.{retain, find, values}
use paqus_node.Mempool.{
  MempoolEntry, fee_too_low, replacement_fee_too_low, invalid_transaction, invalid_ledger_state,
  Pool, Error, min_relay_fee_floor, max_relay_transaction_age_secs,
}
use paqus_node.Paqus.{Paqus}

module _ ⦃paqus : Paqus⦄ where
  open paqus use {
    SignedTransaction, from, nonce, fee, amount, timestamp, from_future, expired, validate_signed,
    Ledger, account, account_nonce, available_balance_at, tip_height, account_not_found,
    invalid_nonce, balance_overflow, insufficient_balance, block_time,
  }

  unfoldable pub validate_fee_policy : Pool → SignedTransaction → Result Error (Unit {0})
  validate_fee_policy m t =
      reject_if (ltb (fee t) (max m.config.min_relay_fee min_relay_fee_floor)) fee_too_low

  unfoldable pub validate_timestamp_policy : SignedTransaction → ℕ → Result Error (Unit {0})
  validate_timestamp_policy t now = do
    reject_if (ltb (saturating_add now block_time) (timestamp t)) (invalid_transaction from_future)
    reject_if (ltb max_relay_transaction_age_secs (now - timestamp t)) (invalid_transaction expired)

  -- The closure of `replacement_candidate`: the same sender and the same nonce.
  abbrev pub same_slot : SignedTransaction → SignedTransaction → Bool
  same_slot t s = (from s == from t) && (nonce s == nonce t)

  unfoldable pub replacement_candidate : Pool → SignedTransaction → Result Error (Option ℕ)
  replacement_candidate m t = elim (find (λ _ e. same_slot t e.transaction) m.transactions) [
    | none ↦ ok none
    | some (h, e) ↦
        if leb (fee t) (fee e.transaction) then err replacement_fee_too_low else ok (some h)
  ]

  abbrev pub is_excluded : Option ℕ → ℕ → Bool
  is_excluded none h = false
  is_excluded (some r) h = h == r

  -- The pending transactions of a sender, all but the excluded one, by rising nonce.
  unfoldable pub pending_from_sender : Pool → ℕ → Option ℕ → List SignedTransaction
  pending_from_sender m sender excluded =
      sort_by (λ a b. leb (nonce a) (nonce b))
        (filter (λ t. from t == sender)
          (map (λ (e : MempoolEntry SignedTransaction). e.transaction)
            (values (retain (λ h _. not (is_excluded excluded h)) m.transactions))))

  -- One transaction against the nonce that is next and what can still be spent: what is left.
  unfoldable pub charge : SignedTransaction → ℕ → ℕ → Result Error ℕ
  charge t expected_nonce spendable = do
    reject_if (not (nonce t == expected_nonce)) (invalid_ledger_state invalid_nonce)
    total ← ok_or (checked_add (amount t) (fee t)) (invalid_ledger_state balance_overflow)
    reject_if (ltb spendable total) (invalid_ledger_state insufficient_balance)
    ok (spendable - total)

  -- The loop over the pending transactions: the next nonce, and what is left to spend.
  unfoldable pub charge_all : List SignedTransaction → ℕ → ℕ → Result Error (ℕ × ℕ)
  charge_all [] expected_nonce spendable = ok (expected_nonce, spendable)
  charge_all (t ∷ ts) expected_nonce spendable = do
    rest ← charge t expected_nonce spendable
    charge_all ts (saturating_add expected_nonce 1) rest

  abbrev pub height_or_zero : Option ℕ → ℕ
  height_or_zero none = 0
  height_or_zero (some h) = h

  unfoldable pub validate_against_ledger_excluding :
      Pool → Ledger → SignedTransaction → Option ℕ → Result Error (Unit {0})
  validate_against_ledger_excluding m ledger t excluded = do
    map_err invalid_transaction (validate_signed t)
    validate_fee_policy m t
    sender ← ok_or (account ledger (from t)) (invalid_ledger_state account_not_found)
    let current_height = height_or_zero (tip_height ledger)
    (expected_nonce, spendable) ←
        charge_all (pending_from_sender m (from t) excluded) (account_nonce sender)
          (available_balance_at sender current_height)
    _ ← charge t expected_nonce spendable
    ok tt

  unfoldable pub validate_against_ledger :
      Pool → Ledger → SignedTransaction → Result Error (Unit {0})
  validate_against_ledger m ledger t = do
    map_err invalid_transaction (validate_signed t)
    validate_fee_policy m t
    validate_against_ledger_excluding m ledger t none
