-- ===== src/Mempool/Select/Groups.antt =====
-- The groups that `select_for_block` chooses from: sorted by sender, each group of one sender and by
-- rising nonce.
use paqus_node.Base.{
  ℕ, ◌+◌, ◌≡◌, ◌≤◌, refl, List, [], ◌∷◌, ◌++◌, some, arith, sum_by, sum_by-append, sum_by-sort_by,
  All, All-append, All-sort_by, IsAscending, sort_by-IsAscending, Option-cases, inl, inr,
}
use paqus_node.BTreeMap
use paqus_node.BTreeMap.{BTreeMap, IsSorted, Above}
use paqus_node.BTreeMap.Laws.{insert-IsSorted, get-Above}
use paqus_node.BTreeMap.Sums.{total, AllEntries, AllEntries-insert, AllEntries-get, total-insert}
use paqus_node.Mempool.Select.{
  BySender, queue, push_transaction, group_by_sender, nonce_then_hash, sort_groups, groups,
}
use paqus_node.Paqus.{Paqus}

module _ ⦃paqus : Paqus⦄ where
  open paqus use {SignedTransaction, from, nonce}

  -- A weight, summed over all the groups.
  abbrev pub weight : (SignedTransaction → ℕ) → BySender → ℕ
  weight f g = total (sum_by f) g

  abbrev pub Precedes : SignedTransaction → SignedTransaction → Type 0
  Precedes t u = nonce t ≤ nonce u

  abbrev pub OfSender : ℕ → List SignedTransaction → Type 0
  OfSender s ts = All (λ t. from t ≡ s) ts

  pub record IsGrouped (g : BySender) : Type 0 where
    pub sorted : IsSorted g
    pub senders : AllEntries OfSender g
    pub rising : AllEntries (λ _ ts. IsAscending Precedes ts) g

  pub total-overwrite :
      (f : List SignedTransaction → ℕ) (k : ℕ) (v w : List SignedTransaction) (g : BySender)
      → IsSorted g
      → BTreeMap.get k g ≡ some w
      → total f (BTreeMap.insert k v g) + f w ≡ f v + total f g
  unfolding BTreeMap.get BTreeMap.insert
  total-overwrite f k v w [] s e = absurd (ground arith)
  total-overwrite f k v w ((j, x) ∷ g) s e =
      ground (arith, total-overwrite f k v w g s.1, get-Above k j g)

  weight-push_transaction :
      (f : SignedTransaction → ℕ) (g : BySender) (t : SignedTransaction)
      → IsSorted g
      → weight f (push_transaction g t) ≡ f t + weight f g
  unfolding push_transaction
  weight-push_transaction f g t s = elim (Option-cases (BTreeMap.get (from t) g)) [
    | inl e ↦ rw (e, queue) (omega (arith, total-insert (sum_by f) (from t) (t ∷ []) g e))
    | inr (ts, e) ↦
        rw (e, queue)
          (omega (
            arith,
            total-overwrite (sum_by f) (from t) (ts ++ t ∷ []) ts g s e,
            sum_by-append f ts (t ∷ []),
          ))
  ]

  queue-OfSender : (s : ℕ) (g : BySender) → AllEntries OfSender g → OfSender s (queue s g)
  queue-OfSender s g a = elim (Option-cases (BTreeMap.get s g)) [
    | inl e ↦ rw (e, queue) tt
    | inr (ts, e) ↦ rw (e, queue) (AllEntries-get OfSender s ts g a e)
  ]

  push_transaction-OfSender :
      (g : BySender) (t : SignedTransaction)
      → AllEntries OfSender g
      → AllEntries OfSender (push_transaction g t)
  unfolding push_transaction
  push_transaction-OfSender g t a =
      AllEntries-insert OfSender (from t) (queue (from t) g ++ t ∷ []) g
        (All-append _ (queue (from t) g) (t ∷ []) (queue-OfSender (from t) g a) (refl, tt)) a

  push_transaction-IsSorted :
      (g : BySender) (t : SignedTransaction) → IsSorted g → IsSorted (push_transaction g t)
  unfolding push_transaction
  push_transaction-IsSorted g t s = insert-IsSorted (from t) (queue (from t) g ++ t ∷ []) g s

  -- What the grouping keeps: the order of the senders, and each group of one sender.
  group_by_sender-IsSorted :
      (ts : List SignedTransaction) (g : BySender)
      → IsSorted g × AllEntries OfSender g
      → IsSorted (group_by_sender ts g) × AllEntries OfSender (group_by_sender ts g)
  unfolding group_by_sender
  group_by_sender-IsSorted [] g h = h
  group_by_sender-IsSorted (t ∷ ts) g h =
      group_by_sender-IsSorted ts (push_transaction g t)
        (push_transaction-IsSorted g t h.0, push_transaction-OfSender g t h.1)

  weight-group_by_sender :
      (f : SignedTransaction → ℕ) (ts : List SignedTransaction) (g : BySender)
      → IsSorted g
      → weight f (group_by_sender ts g) ≡ sum_by f ts + weight f g
  unfolding group_by_sender
  weight-group_by_sender f [] g s = omega arith
  weight-group_by_sender f (t ∷ ts) g s = omega (
    arith,
    weight-group_by_sender f ts (push_transaction g t) (push_transaction-IsSorted g t s),
    weight-push_transaction f g t s,
  )

  weight-sort_groups :
      (f : SignedTransaction → ℕ) (g : BySender) → weight f (sort_groups g) ≡ weight f g
  unfolding sort_groups
  weight-sort_groups f [] = refl
  weight-sort_groups f ((s, ts) ∷ g) =
      omega (arith, sum_by-sort_by nonce_then_hash f ts, weight-sort_groups f g)

  Above-sort_groups : (i : ℕ) (g : BySender) → Above i g → Above i (sort_groups g)
  unfolding sort_groups
  Above-sort_groups i [] a = tt
  Above-sort_groups i ((s, ts) ∷ g) a = (a.0, Above-sort_groups i g a.1)

  sort_groups-IsSorted : (g : BySender) → IsSorted g → IsSorted (sort_groups g)
  unfolding sort_groups
  sort_groups-IsSorted [] s = tt
  sort_groups-IsSorted ((i, ts) ∷ g) s = (Above-sort_groups i g s.0, sort_groups-IsSorted g s.1)

  sort_groups-OfSender :
      (g : BySender) → AllEntries OfSender g → AllEntries OfSender (sort_groups g)
  unfolding sort_groups
  sort_groups-OfSender [] a = tt
  sort_groups-OfSender ((s, ts) ∷ g) a =
      (All-sort_by nonce_then_hash (λ t. from t ≡ s) ts a.0, sort_groups-OfSender g a.1)

  sort_groups-rising : (g : BySender) → AllEntries (λ _ ts. IsAscending Precedes ts) (sort_groups g)
  unfolding sort_groups
  sort_groups-rising [] = tt
  sort_groups-rising ((s, ts) ∷ g) = (
    sort_by-IsAscending Precedes nonce_then_hash (λ x y e. ground arith) (λ x y e. ground arith)
        (λ x y z p q. omega arith) ts,
    sort_groups-rising g,
  )

  -- The groups of a list of transactions are sorted as the choice needs them.
  pub groups-IsGrouped : (ts : List SignedTransaction) → IsGrouped (groups ts)
  unfolding groups
  groups-IsGrouped ts =
      let h = group_by_sender-IsSorted ts [] (tt, tt) in
      record {
        sorted = sort_groups-IsSorted _ h.0;
        senders = sort_groups-OfSender _ h.1;
        rising = sort_groups-rising _;
      }

  -- The groups hold the transactions of the list, each as often.
  pub weight-groups :
      (f : SignedTransaction → ℕ) (ts : List SignedTransaction) → weight f (groups ts) ≡ sum_by f ts
  unfolding groups
  weight-groups f ts =
      omega (arith, weight-sort_groups f (group_by_sender ts []), weight-group_by_sender f ts [] tt)
