-- ===== src/Mempool/Nonces.antt =====
-- What an accepted transaction means for the other pending transactions of its sender.
use paqus_node.Base.{
  ℕ, ◌≡◌, ◌≢◌, ◌≤◌, ◌<◌, true, Option, none, some, ok, Bool-cases, ◌⊎◌, inl, inr, arith,
}
use paqus_node.BTreeMap
use paqus_node.BTreeMap.{IsSorted}
use paqus_node.BTreeMap.Sums.{length-retain-le}
use paqus_node.Mempool.{MempoolEntry, Pool, is_fresh, prune_expired}
use paqus_node.Mempool.Accounting.{IsSound, prune_expired-IsValid}
use paqus_node.Mempool.Admission.{replacement_candidate-some}
use paqus_node.Mempool.Insert.{insert_validated_at}
use paqus_node.Mempool.Outcome.{get-prune_expired, insert_validated_at-IsInserted}
use paqus_node.Mempool.Policy.{is_excluded, replacement_candidate}
use paqus_node.Mempool.Solvency.{
  HasNonceRoom, IsSolvent, IsSolvent-nonce, validate_against_ledger_excluding-IsSolvent,
}
use paqus_node.Paqus.{Paqus}

module _ ⦃paqus : Paqus⦄ where
  open paqus use {SignedTransaction, from, nonce, Account, Ledger, account, account_nonce}

  -- A replaced entry has the new transaction's nonce.
  excluded-nonce :
      (m : Pool) (t : SignedTransaction) (r : Option ℕ) (k : ℕ) (e : MempoolEntry SignedTransaction)
      → IsSorted m.transactions
      → replacement_candidate m t ≡ ok r
      → BTreeMap.get k m.transactions ≡ some e
      → is_excluded r k ≡ true
      → nonce e.transaction ≡ nonce t
  excluded-nonce m t none k e s c g x = absurd (ground arith)
  excluded-nonce m t (some r) k e s c g x =
      let found = replacement_candidate-some m t r s c in ground (arith, found.1, found.3)

  prune_expired-HasNonceRoom :
      (m : Pool) (ledger : Ledger) (t : SignedTransaction) (now : ℕ)
      → HasNonceRoom m ledger t
      → HasNonceRoom (prune_expired m now).0 ledger t
  unfolding prune_expired
  prune_expired-HasNonceRoom m ledger t now room sender known = omega (
    arith,
    room sender known,
    length-retain-le (λ (_ : ℕ) (e : MempoolEntry SignedTransaction). is_fresh m.config now e)
        m.transactions,
  )

  -- What acceptance says of the sender's pending transactions.
  pub record IsNext (m : Pool) (ledger : Ledger) (t : SignedTransaction) : Type 0 where
    pub replacement : Option ℕ
    pub solvent : IsSolvent m ledger t replacement
    pub replaced : replacement_candidate m t ≡ ok replacement
    pub others :
        (k : ℕ) (e : MempoolEntry SignedTransaction)
        → BTreeMap.get k m.transactions ≡ some e
        → from e.transaction ≡ from t
        → nonce e.transaction ≢ nonce t
        → (account_nonce solvent.sender ≤ nonce e.transaction) × (nonce e.transaction < nonce t)

  -- If a sound pool accepts a transaction, and nonces have room below the largest `u64`, then the sender
  -- has an account; the sender's pending transactions, less the replaced one, carry the nonces from the
  -- account's nonce to just below the new one, without a gap; every pending transaction of the sender
  -- with another nonce has one in that range; and the available balance pays for all of them and the
  -- new one together.
  pub insert_validated_at-IsNext :
      (m : Pool) (ledger : Ledger) (t : SignedTransaction) (now h : ℕ)
      → IsSound m
      → HasNonceRoom m ledger t
      → (insert_validated_at m ledger t now).1 ≡ ok h
      → IsNext (prune_expired m now).0 ledger t
  insert_validated_at-IsNext m ledger t now h s room e =
      let pruned = (prune_expired m now).0 in
      let sorted = (prune_expired-IsValid m now s).sorted in
      let i = insert_validated_at-IsInserted m ledger t now h s e in
      let v =
        validate_against_ledger_excluding-IsSolvent pruned ledger t i.replacement
          (prune_expired-HasNonceRoom m ledger t now room) i.admitted.fits_ledger in
      record {
        replacement = i.replacement;
        solvent = v;
        replaced = i.admitted.candidate;
        others = λ k d g f n. elim (Bool-cases (is_excluded i.replacement k)) [
          | inl x ↦
              absurd (n (excluded-nonce pruned t i.replacement k d sorted i.admitted.candidate g x))
          | inr x ↦ IsSolvent-nonce pruned ledger t i.replacement k d sorted v g f x
        ];
      }

  -- The sender's account is past the nonce of a transaction.
  abbrev pub IsUsed : Ledger → SignedTransaction → Type 0
  IsUsed ledger t = (a : Account) × (account ledger (from t) ≡ some a) × (nonce t < account_nonce a)

  -- A fresh pending transaction of the same sender with another nonce, which is later than the new one
  -- or already used by the account, makes the submission fail (sound pool, nonces with room). So only
  -- the last pending transaction of a sender can be replaced, and a stale one blocks the sender.
  pub insert_validated_at-blocked :
      (m : Pool) (ledger : Ledger) (t : SignedTransaction) (now h k : ℕ)
      (e : MempoolEntry SignedTransaction)
      → IsSound m
      → HasNonceRoom m ledger t
      → BTreeMap.get k m.transactions ≡ some e
      → is_fresh m.config now e ≡ true
      → from e.transaction ≡ from t
      → nonce e.transaction ≢ nonce t
      → (nonce t < nonce e.transaction) ⊎ IsUsed ledger e.transaction
      → (insert_validated_at m ledger t now).1 ≢ ok h
  insert_validated_at-blocked m ledger t now h k e s room g fresh f n late accepted =
      let next = insert_validated_at-IsNext m ledger t now h s room accepted in
      let kept = next.others k e (ground (arith, get-prune_expired m now k s.sorted)) f n in
      ground (arith, kept, next.solvent.known)
