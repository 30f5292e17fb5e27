-- ===== src/Mempool/Solvency.antt =====
-- src/runtime/mempool/mempool.rs: what `validate_against_ledger_excluding` establishes about all the
-- pending transactions of a sender together.
use paqus_node.Base.{
  ℕ, suc, ◌+◌, ◌≡◌, ◌≤◌, ◌<◌, Bool, true, false, not, List, [], ◌∷◌, map, Option, some, ok, leb,
  ◌==◌, ==_iff, Option-cases, Result-cases, inl, inr, arith, length, length-map, length-filter-le,
  length-sort_by, sum_by, All, All-imp, filter, All-sort_by_inv, u64_max, u32_modulus,
  saturating_add,
}
use paqus_node.BTreeMap
use paqus_node.BTreeMap.{BTreeMap, retain, values, IsSorted}
use paqus_node.BTreeMap.Laws.{get-retain-some}
use paqus_node.BTreeMap.Sums.{length-retain-le}
use paqus_node.Mempool.{MempoolEntry, Pool}
use paqus_node.Mempool.Policy.{
  is_excluded, pending_from_sender, charge, charge_all, height_or_zero,
  validate_against_ledger_excluding,
}
use paqus_node.Paqus.{Paqus}

module _ ⦃paqus : Paqus⦄ where
  open paqus use {
    SignedTransaction, from, nonce, fee, amount, Account, Ledger, account, account_nonce,
    available_balance_at, tip_height,
  }

  abbrev pub cost : SignedTransaction → ℕ
  cost t = amount t + fee t

  -- The nonces count up from a start, without a gap.
  abbrev pub IsRun : ℕ → List SignedTransaction → Type 0
  IsRun n [] = Unit
  IsRun n (t ∷ ts) = (nonce t ≡ n) × IsRun (suc n) ts

  charge-ok :
      (t : SignedTransaction) (n s rest : ℕ)
      → charge t n s ≡ ok rest
      → (nonce t ≡ n) × (rest + cost t ≡ s) × (cost t < u32_modulus)
  unfolding charge
  charge-ok t n s rest h = ground arith

  charge_all-ok :
      (ts : List SignedTransaction) (n s n' s' : ℕ)
      → n + length ts ≤ u64_max
      → charge_all ts n s ≡ ok (n', s')
      → (n' ≡ n + length ts) × (s' + sum_by cost ts ≡ s) × IsRun n ts
  unfolding charge_all
  charge_all-ok [] n s n' s' b h = ground arith
  charge_all-ok (t ∷ ts) n s n' s' b h = elim (Result-cases (charge t n s)) [
    | inl (rest, e) ↦
        let next : saturating_add n 1 ≡ suc n = omega arith in
        let later : charge_all ts (suc n) rest ≡ ok (n', s') = ground arith in
        let c = charge-ok t n s rest e in
        let (n'', s'', r) = charge_all-ok ts (suc n) rest n' s' (omega arith) later in
        (omega arith, omega arith, (c.0, r))
    | inr (x, e) ↦ absurd (ground arith)
  ]

  IsRun-bounds :
      (n : ℕ) (ts : List SignedTransaction)
      → IsRun n ts
      → All (λ t. (n ≤ nonce t) × (nonce t < n + length ts)) ts
  IsRun-bounds n [] r = tt
  IsRun-bounds n (t ∷ ts) r = (
    (omega arith, omega arith),
    All-imp (λ x b. (omega arith, omega arith)) ts (IsRun-bounds (suc n) ts r.1),
  )

  All-filter :
      (p : SignedTransaction → Bool) (P : SignedTransaction → Type 0) (l : List SignedTransaction)
      → All P (filter p l)
      → All (λ t. p t ≡ true → P t) l
  All-filter p P [] a = tt
  All-filter p P (t ∷ ts) a = ground (arith, All-filter p P ts)

  All-values :
      (P : SignedTransaction → Type 0) (m : BTreeMap (MempoolEntry SignedTransaction)) (k : ℕ)
      (e : MempoolEntry SignedTransaction)
      → All P (map (λ (d : MempoolEntry SignedTransaction). d.transaction) (values m))
      → BTreeMap.get k m ≡ some e
      → P e.transaction
  unfolding BTreeMap.get
  All-values P [] k e a g = absurd (ground arith)
  All-values P ((j, d) ∷ m) k e a g = ground (arith, All-values P m k e a.1)

  -- What holds of the pending list holds of each entry of the sender that is not excluded.
  All-pending_from_sender :
      (P : SignedTransaction → Type 0) (m : Pool) (sender : ℕ) (excluded : Option ℕ) (k : ℕ)
      (e : MempoolEntry SignedTransaction)
      → IsSorted m.transactions
      → All P (pending_from_sender m sender excluded)
      → BTreeMap.get k m.transactions ≡ some e
      → from e.transaction ≡ sender
      → is_excluded excluded k ≡ false
      → P e.transaction
  unfolding pending_from_sender
  All-pending_from_sender P m sender excluded k e s a g f x =
      let kept = λ (h : ℕ) (_ : MempoolEntry SignedTransaction). not (is_excluded excluded h) in
      let matching = λ (t : SignedTransaction). from t == sender in
      let listed = All-filter matching P _ (All-sort_by_inv _ P _ a) in
      All-values (λ t. matching t ≡ true → P t) (retain kept m.transactions) k e listed
        (ground (arith, get-retain-some kept k e m.transactions s g)) ((==_iff _ _).1 f)

  -- What a successful check against the ledger establishes.
  pub record IsSolvent (m : Pool) (ledger : Ledger) (t : SignedTransaction) (excluded : Option ℕ)
      : Type 0 where
    pub sender : Account
    pub known : account ledger (from t) ≡ some sender
    pub run : IsRun (account_nonce sender) (pending_from_sender m (from t) excluded)
    pub next : nonce t ≡ account_nonce sender + length (pending_from_sender m (from t) excluded)
    pub affordable :
        sum_by cost (pending_from_sender m (from t) excluded) + cost t
        ≤ available_balance_at sender (height_or_zero (tip_height ledger))

  length-pending_from_sender :
      (m : Pool) (sender : ℕ) (excluded : Option ℕ)
      → length (pending_from_sender m sender excluded) ≤ length m.transactions
  unfolding pending_from_sender
  length-pending_from_sender m sender excluded =
      let kept = λ (h : ℕ) (_ : MempoolEntry SignedTransaction). not (is_excluded excluded h) in
      let entries = retain kept m.transactions in
      let listed = map (λ (e : MempoolEntry SignedTransaction). e.transaction) (values entries) in
      omega (
        arith,
        length-sort_by (λ a b. leb (nonce a) (nonce b)) (filter (λ t. from t == sender) listed),
        length-filter-le (λ t. from t == sender) listed,
        length-map (values entries) (λ (e : MempoolEntry SignedTransaction). e.transaction),
        length-map entries (λ (e : ℕ × MempoolEntry SignedTransaction). e.1),
        length-retain-le kept m.transactions,
      )

  -- The account's nonces cannot reach the largest `u64` while the pool is spent.
  abbrev pub HasNonceRoom : Pool → Ledger → SignedTransaction → Type 0
  HasNonceRoom m ledger t =
      (sender : Account)
      → account ledger (from t) ≡ some sender
      → account_nonce sender + length m.transactions ≤ u64_max

  pub validate_against_ledger_excluding-IsSolvent :
      (m : Pool) (ledger : Ledger) (t : SignedTransaction) (excluded : Option ℕ)
      → HasNonceRoom m ledger t
      → validate_against_ledger_excluding m ledger t excluded ≡ ok tt
      → IsSolvent m ledger t excluded
  unfolding validate_against_ledger_excluding
  validate_against_ledger_excluding-IsSolvent m ledger t excluded room h =
      elim (Option-cases (account ledger (from t))) [
        | inl missing ↦ absurd (ground arith)
        | inr (sender, known) ↦
            let pending = pending_from_sender m (from t) excluded in
            let start = account_nonce sender in
            let funds = available_balance_at sender (height_or_zero (tip_height ledger)) in
            elim (Result-cases (charge_all pending start funds)) [
              | inl ((n, s), e) ↦
                  let (counted, spent, run) =
                    charge_all-ok pending start funds n s
                      (omega
                        (arith, room sender known, length-pending_from_sender m (from t) excluded))
                      e in
                  elim (Result-cases (charge t n s)) [
                    | inl (rest, c) ↦
                        let last = charge-ok t n s rest c in
                        record {
                          sender = sender;
                          known = known;
                          run = run;
                          next = omega arith;
                          affordable = omega arith;
                        }
                    | inr (x, c) ↦ absurd (ground arith)
                  ]
              | inr (x, e) ↦ absurd (ground arith)
            ]
      ]

  -- Every other pending transaction of the sender has its nonce from the account's up to the new one.
  pub IsSolvent-nonce :
      (m : Pool) (ledger : Ledger) (t : SignedTransaction) (excluded : Option ℕ) (k : ℕ)
      (e : MempoolEntry SignedTransaction)
      → IsSorted m.transactions
      → (v : IsSolvent m ledger t excluded) → BTreeMap.get k m.transactions ≡ some e
      → from e.transaction ≡ from t
      → is_excluded excluded k ≡ false
      → (account_nonce v.sender ≤ nonce e.transaction) × (nonce e.transaction < nonce t)
  IsSolvent-nonce m ledger t excluded k e s v g f x =
      let pending = pending_from_sender m (from t) excluded in
      let b =
        All-pending_from_sender _ m (from t) excluded k e s
          (IsRun-bounds (account_nonce v.sender) pending v.run) g f x in
      (b.0, omega (arith, b.1, v.next))
