-- ===== src/Wallet/Nonce.antt =====
-- The nonce that `resolve_wallet_nonce` finds is the first free one.
use paqus_node.Base.{
  ℕ, suc, ◌≡◌, ◌≤◌, ◌<◌, refl, sym, ◌∙◌, true, false, List, [], ◌∷◌, leb, ◌==◌, arith, ltb,
  Bool-cases, inl, inr, All, All-imp, All-sort_by, IsAscending, sort_by, sort_by-IsAscending, elem,
  any-sort_by, u64_max, saturating_add,
}
use Prim.Native.String.{String}
use paqus_node.Wallet.{
  BalanceRpcResponse, MempoolRpcResponse, own_nonces, dedup, skip_pending, nonce_or_zero,
  resolve_wallet_nonce,
}

-- The first number from `start` on that is not in the list: every number from `start` to below it
-- is in the list, and it is not.
pub record IsFirstFree (start free : ℕ) (taken : List ℕ) : Type 0 where
  pub from_start : start ≤ free
  pub is_free : elem free taken ≡ false
  pub no_earlier : (n : ℕ) → start ≤ n → n < free → elem n taken ≡ true

elem-above : (v : ℕ) (l : List ℕ) → All (λ x. suc v ≤ x) l → elem v l ≡ false
elem-above v [] a = refl
elem-above v (x ∷ xs) a = ground (arith, elem-above v xs a.1)

taken-IsFirstFree :
    (next x free : ℕ) (xs : List ℕ)
    → x ≡ next
    → IsFirstFree (suc next) free xs
    → IsFirstFree next free (x ∷ xs)
taken-IsFirstFree next x free xs e v = record {
  from_start = omega (arith, v.from_start);
  is_free = ground (arith, v.from_start, v.is_free);
  no_earlier = λ n h k. ground (arith, v.no_earlier n);
}

passed-IsFirstFree :
    (next x free : ℕ) (xs : List ℕ)
    → x < next
    → IsFirstFree next free xs
    → IsFirstFree next free (x ∷ xs)
passed-IsFirstFree next x free xs h v = record {
  from_start = v.from_start;
  is_free = ground (arith, v.from_start, v.is_free);
  no_earlier = λ n k l. ground (arith, v.no_earlier n);
}

-- On a rising list, with room below the largest `u64`.
skip_pending-IsFirstFree :
    (next : ℕ) (l : List ℕ)
    → IsAscending ◌<◌ l
    → All (λ x. x < u64_max) l
    → IsFirstFree next (skip_pending next l) l
unfolding skip_pending
skip_pending-IsFirstFree next [] s b = record {
  from_start = omega arith;
  is_free = refl;
  no_earlier = λ n h k. absurd (omega arith);
}
skip_pending-IsFirstFree next (x ∷ xs) s b = elim (Bool-cases (x == next)) [
  | inl same ↦
      let step : saturating_add next 1 ≡ suc next = ground arith in
      rw (same, step)
        (taken-IsFirstFree next x _ xs (ground arith)
          (skip_pending-IsFirstFree (suc next) xs s.1 b.1))
  | inr other ↦ elim (Bool-cases (ltb next x)) [
    | inl gap ↦
        rw (other, gap)
          (record {
            from_start = omega arith;
            is_free = ground (arith, elem-above next xs (All-imp (λ y h. ground arith) xs s.0));
            no_earlier = λ n h k. absurd (omega arith);
          })
    | inr passed ↦
        rw (other, passed)
          (passed-IsFirstFree next x _ xs (ground arith) (skip_pending-IsFirstFree next xs s.1 b.1))
  ]
]

All-dedup {κ} : (P : ℕ → Type κ) (l : List ℕ) → All P l → All P (dedup l)
unfolding dedup
All-dedup P [] a = tt
All-dedup P (x ∷ []) a = a
All-dedup P (x ∷ y ∷ ys) a = elim (Bool-cases (x == y)) [
  | inl same ↦ rw same (All-dedup P (y ∷ ys) a.1)
  | inr other ↦ rw other (a.0, All-dedup P (y ∷ ys) a.1)
]

-- A sorted list without its repeats rises strictly.
dedup-IsAscending : (l : List ℕ) → IsAscending ◌≤◌ l → IsAscending ◌<◌ (dedup l)
unfolding dedup
dedup-IsAscending [] s = tt
dedup-IsAscending (x ∷ []) s = (tt, tt)
dedup-IsAscending (x ∷ y ∷ ys) s = elim (Bool-cases (x == y)) [
  | inl same ↦ rw same (dedup-IsAscending (y ∷ ys) s.1)
  | inr other ↦ rw other (
    All-dedup (λ z. x < z) (y ∷ ys) (ground arith, All-imp (λ z h. ground arith) ys s.1.0),
    dedup-IsAscending (y ∷ ys) s.1,
  )
]

elem-dedup : (v : ℕ) (l : List ℕ) → elem v (dedup l) ≡ elem v l
unfolding dedup
elem-dedup v [] = refl
elem-dedup v (x ∷ []) = refl
elem-dedup v (x ∷ y ∷ ys) = ground (arith, elem-dedup v (y ∷ ys))

elem-sorted : (v : ℕ) (l : List ℕ) → elem v (dedup (sort_by leb l)) ≡ elem v l
elem-sorted v l = elem-dedup v (sort_by leb l) ∙ any-sort_by leb (λ x. v == x) l

-- The wallet's next nonce is the first number from the account's nonce on (0 without an account) that
-- no pending transaction of its address carries, if all those nonces lie below the largest `u64`.
pub resolve_wallet_nonce-IsFirstFree :
    (address_hex : String) (balance : BalanceRpcResponse) (mempool : MempoolRpcResponse)
    → All (λ n. n < u64_max) (own_nonces address_hex mempool.transactions)
    → IsFirstFree
        (nonce_or_zero balance.nonce)
        (resolve_wallet_nonce address_hex balance mempool)
        (own_nonces address_hex mempool.transactions)
unfolding resolve_wallet_nonce
resolve_wallet_nonce-IsFirstFree address_hex balance mempool b =
    let own = own_nonces address_hex mempool.transactions in
    let sorted =
      sort_by-IsAscending ◌≤◌ leb (λ x y e. ground arith) (λ x y e. ground arith)
        (λ x y z p q. omega arith) own in
    let v =
      skip_pending-IsFirstFree (nonce_or_zero balance.nonce) (dedup (sort_by leb own))
        (dedup-IsAscending (sort_by leb own) sorted)
        (All-dedup _ (sort_by leb own) (All-sort_by leb _ own b)) in
    record {
      from_start = v.from_start;
      is_free = sym (elem-sorted _ own) ∙ v.is_free;
      no_earlier = λ n h k. sym (elem-sorted n own) ∙ v.no_earlier n h k;
    }
