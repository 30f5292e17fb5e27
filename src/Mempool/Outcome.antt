-- ===== src/Mempool/Outcome.antt =====
-- src/runtime/mempool/mempool.rs: what the operations leave in the pool, key by key.
use paqus_node.Base.{
  ℕ, ◌+◌, ◌<◌, ◌≤◌, ◌≡◌, ◌↔◌, refl, sym, ◌∙◌, ap, Bool, true, false, ltb, Bool-cases, ◌||◌, List,
  [], ◌∷◌, Option, none, some, Result, ok, err, ◌==◌, Option-cases, inl, inr, arith, if◌then◌else◌,
}
use mathlib.Core.Path.{subst}
use paqus_node.BTreeMap
use paqus_node.BTreeMap.{BTreeMap, retain, IsSorted}
use paqus_node.BTreeMap.Laws.{
  get-insert, get-remove, get-retain-some, get-retain-none, remove-IsSorted,
}
use paqus_node.Mempool.{
  MempoolConfig, MempoolEntry, Pool, Error, ttl, is_fresh, remove, prune_expired, remove_hashes,
  remove_confirmed, contains,
}
use paqus_node.Mempool.Accounting.{IsSound, prune_expired-IsValid}
use paqus_node.Mempool.Admission.{IsAdmitted, admission-IsAdmitted}
use paqus_node.Mempool.Insert.{
  remove_replaced, store, insert_unchecked, insert_if, admission, insert_validated_at,
}
use paqus_node.Mempool.Policy.{is_excluded}
use paqus_node.Paqus.{Paqus}

module _ ⦃paqus : Paqus⦄ where
  open paqus use {SignedTransaction, fee, hash, Ledger}

  abbrev Entry : Type 0
  Entry = MempoolEntry SignedTransaction

  -- The entry under a key, if it is still fresh.
  abbrev pub fresh_entry : Pool → ℕ → Option Entry → Option Entry
  fresh_entry m now none = none
  fresh_entry m now (some e) = if is_fresh m.config now e then some e else none

  pub get-prune_expired :
      (m : Pool) (now h : ℕ)
      → IsSorted m.transactions
      → BTreeMap.get h (prune_expired m now).0.transactions
        ≡ fresh_entry m now (BTreeMap.get h m.transactions)
  unfolding prune_expired
  get-prune_expired m now h s =
      let p = λ (_ : ℕ) (e : Entry). is_fresh m.config now e in
      elim (Option-cases (BTreeMap.get h m.transactions)) [
        | inl e ↦ rw e (get-retain-none p h m.transactions e)
        | inr (w, e) ↦ rw e (get-retain-some p h w m.transactions s e)
      ]

  -- The time that an entry has in the pool, by its fee, has not run out.
  abbrev pub HasTime : MempoolConfig → ℕ → Entry → Type 0
  HasTime config now e =
      (fee e.transaction < config.market_fee → now ≤ e.inserted_at + config.low_fee_ttl_secs)
      × (config.market_fee ≤ fee e.transaction → now ≤ e.inserted_at + config.transaction_ttl_secs)

  fresh-HasTime :
      (config : MempoolConfig) (now : ℕ) (e : Entry)
      → (is_fresh config now e ≡ true) ↔ HasTime config now e
  unfolding ttl
  fresh-HasTime config now e = elim (Bool-cases (ltb (fee e.transaction) config.market_fee)) [
    | inl low ↦ (λ f. (λ below. ground arith, λ above. ground arith), λ t. ground (arith, t.0))
    | inr high ↦ (λ f. (λ below. ground arith, λ above. ground arith), λ t. ground (arith, t.1))
  ]

  -- Over sorted keys, an entry is in the pruned pool exactly if it was in the pool and its time has not run
  -- out: a fee below the market fee gives it the low-fee lifetime after its insertion, any other fee the full
  -- one, and the last second of it still counts.
  pub prune_expired_iff :
      (m : Pool) (now h : ℕ) (e : Entry)
      → IsSorted m.transactions
      → (BTreeMap.get h (prune_expired m now).0.transactions ≡ some e)
        ↔ ((BTreeMap.get h m.transactions ≡ some e) × HasTime m.config now e)
  prune_expired_iff m now h e s =
      let kept = get-prune_expired m now h s in
      (
        λ there. elim (Option-cases (BTreeMap.get h m.transactions)) [
          | inl missing ↦ absurd (cc (kept ∙ ap (fresh_entry m now) missing, there))
          | inr (w, found) ↦
              let read = sym there ∙ kept ∙ ap (fresh_entry m now) found in
              elim (Bool-cases (is_fresh m.config now w)) [
                | inr stale ↦ absurd (ground arith)
                | inl fresh ↦
                    let same : w ≡ e = ground arith in
                    (
                      found ∙ ap some same,
                      subst (HasTime m.config now) same ((fresh-HasTime m.config now w).0 fresh),
                    )
              ]
        ],
        λ (found, time).
            kept ∙ ap (fresh_entry m now) found ∙ (rw ((fresh-HasTime m.config now e).1 time) refl),
      )

  get-remove_replaced :
      (m : Pool) (r : Option ℕ) (h : ℕ)
      → IsSorted m.transactions
      → BTreeMap.get h (remove_replaced m r).transactions
        ≡ (if is_excluded r h then none else BTreeMap.get h m.transactions)
  unfolding remove_replaced remove
  get-remove_replaced m none h s = refl
  get-remove_replaced m (some r) h s = ground (arith, get-remove h r m.transactions s)

  -- The pool after a transaction went in under its hash and its predecessor went out.
  abbrev pub after_insert : Pool → SignedTransaction → ℕ → Option ℕ → ℕ → Option Entry
  after_insert m t now replacement h =
      if h == hash t
      then some (record { transaction = t; inserted_at = now })
      else if is_excluded replacement h
      then none
      else BTreeMap.get h m.transactions

  insert_unchecked-ok :
      (m : Pool) (t : SignedTransaction) (now : ℕ) (r : Option ℕ) (h k : ℕ)
      → IsSorted m.transactions
      → (insert_unchecked m t now r).1 ≡ ok h
      → (h ≡ hash t)
        × (contains m h ≡ false)
        × (BTreeMap.get k (insert_unchecked m t now r).0.transactions ≡ after_insert m t now r k)
  unfolding insert_unchecked store
  insert_unchecked-ok m t now r h k s e =
      let entry : Entry = record { transaction = t; inserted_at = now } in
      ground (
        arith,
        get-insert k (hash t) entry (remove_replaced m r).transactions,
        get-remove_replaced m r k s,
      )

  insert_unchecked-err :
      (m : Pool) (t : SignedTransaction) (now : ℕ) (r : Option ℕ) (x : Error)
      → (insert_unchecked m t now r).1 ≡ err x
      → (insert_unchecked m t now r).0 ≡ m
  unfolding insert_unchecked
  insert_unchecked-err m t now r x e = ground arith

  -- What a successful validated insertion has done.
  pub record IsInserted (m : Pool) (ledger : Ledger) (t : SignedTransaction) (now h : ℕ)
      (after : Pool) : Type 0 where
    pub replacement : Option ℕ
    pub key : h ≡ hash t
    pub admitted : IsAdmitted m ledger t now replacement
    pub was_absent : contains m h ≡ false
    pub reads : (k : ℕ) → BTreeMap.get k after.transactions ≡ after_insert m t now replacement k

  insert_if-IsInserted :
      (m : Pool) (ledger : Ledger) (t : SignedTransaction) (now h : ℕ) (r : Result Error (Option ℕ))
      → IsSorted m.transactions
      → admission m ledger t now ≡ r
      → (insert_if m t now r).1 ≡ ok h
      → IsInserted m ledger t now h (insert_if m t now r).0
  insert_if-IsInserted m ledger t now h (ok r) s a e = record {
    replacement = r;
    key = (insert_unchecked-ok m t now r h 0 s e).0;
    admitted = admission-IsAdmitted m ledger t now r a;
    was_absent = (insert_unchecked-ok m t now r h 0 s e).1;
    reads = λ k. (insert_unchecked-ok m t now r h k s e).2;
  }
  insert_if-IsInserted m ledger t now h (err x) s a e = absurd (ground arith)

  -- From a sound pool a successful validated insertion returns the transaction's hash, which was new to
  -- the pruned pool; the transaction passed every check against the pruned pool and the ledger; it is
  -- now stored under its hash with the current time, the transaction that it replaces is gone, and
  -- every other key reads as after the pruning.
  pub insert_validated_at-IsInserted :
      (m : Pool) (ledger : Ledger) (t : SignedTransaction) (now h : ℕ)
      → IsSound m
      → (insert_validated_at m ledger t now).1 ≡ ok h
      → IsInserted (prune_expired m now).0 ledger t now h (insert_validated_at m ledger t now).0
  unfolding insert_validated_at
  insert_validated_at-IsInserted m ledger t now h s e =
      let pruned = (prune_expired m now).0 in
      insert_if-IsInserted pruned ledger t now h (admission pruned ledger t now)
        (prune_expired-IsValid m now s).sorted refl e

  insert_if-err :
      (m : Pool) (t : SignedTransaction) (now : ℕ) (r : Result Error (Option ℕ)) (x : Error)
      → (insert_if m t now r).1 ≡ err x
      → (insert_if m t now r).0 ≡ m
  insert_if-err m t now (ok r) x e = insert_unchecked-err m t now r x e
  insert_if-err m t now (err y) x e = refl

  -- A refused insertion has pruned the pool and done nothing else.
  pub insert_validated_at-err :
      (m : Pool) (ledger : Ledger) (t : SignedTransaction) (now : ℕ) (x : Error)
      → (insert_validated_at m ledger t now).1 ≡ err x
      → (insert_validated_at m ledger t now).0 ≡ (prune_expired m now).0
  unfolding insert_validated_at
  insert_validated_at-err m ledger t now x e = insert_if-err _ t now _ x e

  -- Whether a list of transactions holds one with this hash.
  unfoldable pub confirms : List SignedTransaction → ℕ → Bool
  confirms [] h = false
  confirms (t ∷ ts) h = h == hash t || confirms ts h

  get-remove_hashes :
      (ts : List SignedTransaction) (m : BTreeMap Entry) (h : ℕ)
      → IsSorted m
      → BTreeMap.get h (remove_hashes ts m) ≡ (if confirms ts h then none else BTreeMap.get h m)
  unfolding remove_hashes confirms
  get-remove_hashes [] m h s = refl
  get-remove_hashes (t ∷ ts) m h s = ground (
    arith,
    get-remove_hashes ts (BTreeMap.remove (hash t) m) h (remove-IsSorted (hash t) m s),
    get-remove h (hash t) m s,
  )

  -- After a block is confirmed the pool holds what it held, less the transactions of the block.
  pub get-remove_confirmed :
      (ts : List SignedTransaction) (m : Pool) (h : ℕ)
      → IsSound m
      → BTreeMap.get h (remove_confirmed m ts).transactions
        ≡ (if confirms ts h then none else BTreeMap.get h m.transactions)
  unfolding remove_confirmed
  get-remove_confirmed ts m h s = get-remove_hashes ts m.transactions h s.sorted
