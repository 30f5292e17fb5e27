-- ===== src/Mempool/Slots.antt =====
-- At most one pending transaction for each sender and nonce (`replacement_candidate` of
-- src/runtime/mempool/mempool.rs), as long as transactions enter through `insert_validated_at`.
use paqus_node.Base.{ℕ, ◌≡◌, ◌≢◌, Option, none, some, ok, ==_iff, Result-cases, inl, inr, arith}
use paqus_node.BTreeMap
use paqus_node.Mempool.{MempoolEntry, Pool, prune_expired}
use paqus_node.Mempool.Accounting.{IsSound, IsValid, prune_expired-IsValid}
use paqus_node.Mempool.Admission.{replacement_candidate-some, replacement_candidate-none}
use paqus_node.Mempool.Insert.{insert_validated_at}
use paqus_node.Mempool.Outcome.{
  get-prune_expired, after_insert, IsInserted, insert_validated_at-IsInserted,
  insert_validated_at-err,
}
use paqus_node.Mempool.Policy.{replacement_candidate}
use paqus_node.Paqus.{Paqus}

module _ ⦃paqus : Paqus⦄ where
  open paqus use {SignedTransaction, from, nonce, hash, Ledger}

  abbrev Entry : Type 0
  Entry = MempoolEntry SignedTransaction

  -- Two entries of one sender with one nonce stand under one hash.
  abbrev pub HasUniqueSlots : Pool → Type 0
  HasUniqueSlots m =
      (h k : ℕ) (d e : Entry)
      → BTreeMap.get h m.transactions ≡ some d
      → BTreeMap.get k m.transactions ≡ some e
      → from d.transaction ≡ from e.transaction
      → nonce d.transaction ≡ nonce e.transaction
      → h ≡ k

  prune_expired-HasUniqueSlots :
      (m : Pool) (now : ℕ) → IsSound m → HasUniqueSlots m → HasUniqueSlots (prune_expired m now).0
  prune_expired-HasUniqueSlots m now s u h k d e gd ge f n =
      u h k d e (kept h d gd) (kept k e ge) f n
    where
      kept :
          (i : ℕ) (x : Entry)
          → BTreeMap.get i (prune_expired m now).0.transactions ≡ some x
          → BTreeMap.get i m.transactions ≡ some x
      kept i x g = ground (arith, get-prune_expired m now i s.sorted)

  -- An entry that an insertion leaves besides the new one does not have the new one's slot.
  other_slot :
      (m : Pool) (t : SignedTransaction) (now k : ℕ) (r : Option ℕ) (e : Entry)
      → IsValid m
      → HasUniqueSlots m
      → replacement_candidate m t ≡ ok r
      → k ≢ hash t
      → after_insert m t now r k ≡ some e
      → from e.transaction ≡ from t
      → nonce e.transaction ≢ nonce t
  other_slot m t now k none e v u c other g f n =
      replacement_candidate-none m t k e c (ground arith) f n
  other_slot m t now k (some r) e v u c other g f n =
      let found = replacement_candidate-some m t r v.sorted c in
      ground (arith, found.1, found.2, found.3, u k r e found.0)

  inserted-HasUniqueSlots :
      (m : Pool) (ledger : Ledger) (t : SignedTransaction) (now i : ℕ) (after : Pool)
      → IsValid m
      → HasUniqueSlots m
      → IsInserted m ledger t now i after
      → HasUniqueSlots after
  inserted-HasUniqueSlots m ledger t now i after v u a h k d e gd ge f n = ground (
    arith,
    a.reads h,
    a.reads k,
    u h k d e,
    other_slot m t now h a.replacement d v u a.admitted.candidate,
    other_slot m t now k a.replacement e v u a.admitted.candidate,
    ==_iff h (hash t),
  )

  -- If no two entries of a sound pool share sender and nonce, none do after a validated insertion,
  -- whether it succeeds or not.
  pub insert_validated_at-HasUniqueSlots :
      (m : Pool) (ledger : Ledger) (t : SignedTransaction) (now : ℕ)
      → IsSound m
      → HasUniqueSlots m
      → HasUniqueSlots (insert_validated_at m ledger t now).0
  insert_validated_at-HasUniqueSlots m ledger t now s u =
      let pruned = (prune_expired m now).0 in
      let v = prune_expired-IsValid m now s in
      let w = prune_expired-HasUniqueSlots m now s u in
      elim (Result-cases (insert_validated_at m ledger t now).1) [
        | inl (h, e) ↦
            inserted-HasUniqueSlots pruned ledger t now h (insert_validated_at m ledger t now).0 v w
              (insert_validated_at-IsInserted m ledger t now h s e)
        | inr (x, e) ↦ rw (insert_validated_at-err m ledger t now x e) w
      ]
