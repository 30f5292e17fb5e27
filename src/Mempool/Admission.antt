-- ===== src/Mempool/Admission.antt =====
-- What a transaction satisfies when the checks of src/runtime/mempool/mempool.rs let it in.
use paqus_node.Base.{
  ℕ, ◌+◌, ◌≡◌, ◌≢◌, ◌≤◌, ◌<◌, Option, none, some, ok, Option-cases, inl, inr, arith, saturating_add,
  ◌↔◌,
}
use paqus_node.BTreeMap
use paqus_node.BTreeMap.{find, IsSorted}
use paqus_node.BTreeMap.Laws.{find-some, find-none}
use paqus_node.Mempool.{MempoolEntry, Pool, min_relay_fee_floor, max_relay_transaction_age_secs}
use paqus_node.Mempool.Insert.{admission}
use paqus_node.Mempool.Policy.{
  validate_fee_policy, validate_timestamp_policy, same_slot, replacement_candidate,
  validate_against_ledger_excluding,
}
use paqus_node.Paqus.{Paqus}

module _ ⦃paqus : Paqus⦄ where
  open paqus use {
    SignedTransaction, from, nonce, fee, timestamp, validate_signed_at, Ledger, block_time,
  }

  -- Relayed within the window of `src/runtime/mod.rs`: not from too far ahead, and not too old.
  pub record IsTimely (t : SignedTransaction) (now : ℕ) : Type 0 where
    pub not_ahead : timestamp t ≤ saturating_add now block_time
    pub not_old : now ≤ timestamp t + max_relay_transaction_age_secs

  pub validate_timestamp_policy_iff :
      (t : SignedTransaction) (now : ℕ) → (validate_timestamp_policy t now ≡ ok tt) ↔ IsTimely t now
  unfolding validate_timestamp_policy
  validate_timestamp_policy_iff t now = (λ h. ground arith, λ v. ground arith)

  pub validate_fee_policy_iff :
      (m : Pool) (t : SignedTransaction)
      → (validate_fee_policy m t ≡ ok tt)
        ↔ ((m.config.min_relay_fee ≤ fee t) × (min_relay_fee_floor ≤ fee t))
  unfolding validate_fee_policy
  validate_fee_policy_iff m t = ground arith

  -- A candidate is an entry of the same sender and nonce, which pays less.
  pub replacement_candidate-some :
      (m : Pool) (t : SignedTransaction) (h : ℕ)
      → IsSorted m.transactions
      → replacement_candidate m t ≡ ok (some h)
      → (e : MempoolEntry SignedTransaction) × (BTreeMap.get h m.transactions ≡ some e)
        × (from e.transaction ≡ from t)
        × (nonce e.transaction ≡ nonce t)
        × (fee e.transaction < fee t)
  unfolding replacement_candidate
  replacement_candidate-some m t h s r =
      let p = λ (_ : ℕ) (e : MempoolEntry SignedTransaction). same_slot t e.transaction in
      elim (Option-cases (find p m.transactions)) [
        | inl e ↦ absurd (ground arith)
        | inr ((k, w), e) ↦
            let (here, slot) = find-some p m.transactions k w s e in
            (w, ground arith, ground arith, ground arith, ground arith)
      ]

  -- Without a candidate no entry of the pool has that sender and nonce.
  pub replacement_candidate-none :
      (m : Pool) (t : SignedTransaction) (h : ℕ) (e : MempoolEntry SignedTransaction)
      → replacement_candidate m t ≡ ok none
      → BTreeMap.get h m.transactions ≡ some e
      → from e.transaction ≡ from t
      → nonce e.transaction ≢ nonce t
  unfolding replacement_candidate
  replacement_candidate-none m t h e r g f =
      let p = λ (_ : ℕ) (e : MempoolEntry SignedTransaction). same_slot t e.transaction in
      ground (arith, find-none p m.transactions h e)

  -- What a successful `admission` has checked.
  pub record IsAdmitted (m : Pool) (ledger : Ledger) (t : SignedTransaction) (now : ℕ)
      (replacement : Option ℕ) : Type 0 where
    pub timely : IsTimely t now
    pub signed : validate_signed_at t now ≡ ok tt
    pub relay_fee : m.config.min_relay_fee ≤ fee t
    pub floor_fee : min_relay_fee_floor ≤ fee t
    pub candidate : replacement_candidate m t ≡ ok replacement
    pub fits_ledger : validate_against_ledger_excluding m ledger t replacement ≡ ok tt

  pub admission-IsAdmitted :
      (m : Pool) (ledger : Ledger) (t : SignedTransaction) (now : ℕ) (replacement : Option ℕ)
      → admission m ledger t now ≡ ok replacement
      → IsAdmitted m ledger t now replacement
  unfolding admission
  admission-IsAdmitted m ledger t now replacement h =
      ground (arith, validate_timestamp_policy_iff t now, validate_fee_policy_iff m t)
