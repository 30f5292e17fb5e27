-- ===== src/Mempool/Select.antt =====
-- src/runtime/mempool/mempool.rs, `select_for_block`: the choice of the transactions of the next block.
-- `none` stands for a panic, of `expect` or of `Vec::remove`.
pub mod Groups
pub mod Step
pub mod Loop
use Prim.Native.Nat.{compare, Ordering}
use paqus_node.Base.{
  ℕ, zero, suc, Bool, true, false, List, [], ◌∷◌, ◌++◌, map, Option, none, some, if◌then◌else◌,
  sort_by,
}
use paqus_node.BTreeMap
use paqus_node.BTreeMap.{BTreeMap}
use paqus_node.Mempool.{Pool, transactions}
use paqus_node.Paqus.{Paqus}

-- The tuple that is compared, a candidate from each sender.
pub record Candidate : Type 0 where
  pub sender : ℕ
  pub fee : ℕ
  pub nonce : ℕ
  pub hash : ℕ

-- `Ordering::then_with`.
abbrev pub then_with : Ordering → Ordering → Ordering
then_with Ordering.eq second = second
then_with first _ = first

-- The closure of `max_by`: the higher fee, then the lower nonce, then the lower hash.
abbrev pub compare_candidates : Candidate → Candidate → Ordering
compare_candidates left right =
    then_with (then_with (compare left.fee right.fee) (compare right.nonce left.nonce))
      (compare right.hash left.hash)

-- `max_by` keeps the later of two equal elements.
abbrev pub later_max : Candidate → Candidate → Candidate
later_max x y = elim (compare_candidates x y) [ Ordering.gt ↦ x | _ ↦ y ]

unfoldable pub max_from : Candidate → List Candidate → Candidate
max_from x [] = x
max_from x (y ∷ ys) = max_from (later_max x y) ys

unfoldable pub max_by : List Candidate → Option Candidate
max_by [] = none
max_by (x ∷ xs) = some (max_from x xs)

module _ ⦃paqus : Paqus⦄ where
  open paqus use {SignedTransaction, from}

  abbrev pub BySender : Type 0
  BySender = BTreeMap (List SignedTransaction)

  -- `by_sender.entry(..).or_default()`
  abbrev pub queue : ℕ → BySender → List SignedTransaction
  queue sender by_sender = elim (BTreeMap.get sender by_sender) [ none ↦ [] | some ts ↦ ts ]

  unfoldable pub push_transaction : BySender → SignedTransaction → BySender
  push_transaction by_sender t =
      BTreeMap.insert (from t) (queue (from t) by_sender ++ t ∷ []) by_sender

  unfoldable pub group_by_sender : List SignedTransaction → BySender → BySender
  group_by_sender [] by_sender = by_sender
  group_by_sender (t ∷ ts) by_sender = group_by_sender ts (push_transaction by_sender t)

  -- The key of `sort_by_key` is the pair of the nonce and the hash.
  abbrev pub nonce_then_hash : SignedTransaction → SignedTransaction → Bool
  nonce_then_hash a b =
      elim (then_with (compare (paqus.nonce a) (paqus.nonce b))
        (compare (paqus.hash a) (paqus.hash b))) [ Ordering.gt ↦ false | _ ↦ true ]

  unfoldable pub sort_groups : BySender → BySender
  sort_groups [] = []
  sort_groups ((s, ts) ∷ rest) = (s, sort_by nonce_then_hash ts) ∷ sort_groups rest

  abbrev pub candidate : ℕ → SignedTransaction → Candidate
  candidate s t = record {
    sender = s;
    fee = paqus.fee t;
    nonce = paqus.nonce t;
    hash = paqus.hash t;
  }

  -- The `filter_map`: the first transaction of each sender.
  unfoldable pub candidates : BySender → List Candidate
  candidates [] = []
  candidates ((s, []) ∷ rest) = candidates rest
  candidates ((s, t ∷ ts) ∷ rest) = candidate s t ∷ candidates rest

  -- `transactions.remove(0)`, and the sender with it when nothing is left.
  unfoldable pub take_first : ℕ → BySender → Option (SignedTransaction × BySender)
  take_first s by_sender = elim (BTreeMap.get s by_sender) [
    | none ↦ none
    | some [] ↦ none
    | some (t ∷ []) ↦ some (t, BTreeMap.remove s by_sender)
    | some (t ∷ u ∷ ts) ↦ some (t, BTreeMap.insert s (u ∷ ts) by_sender)
  ]

  -- The `while`, with the room that is left in the selection.
  unfoldable pub select_loop : ℕ → BySender → Option (List SignedTransaction)
  select_loop zero by_sender = some []
  select_loop (suc room) by_sender = elim (max_by (candidates by_sender)) [
    | none ↦ some []
    | some c ↦ elim (take_first c.sender by_sender) [
      | none ↦ none
      | some (t, rest) ↦ elim (select_loop room rest) [
        | none ↦ none
        | some selected ↦ some (t ∷ selected)
      ]
    ]
  ]

  unfoldable pub groups : List SignedTransaction → BySender
  groups ts = sort_groups (group_by_sender ts [])

  unfoldable pub select_for_block : Pool → ℕ → Option (List SignedTransaction)
  select_for_block m limit = select_loop limit (groups (transactions m))
