-- ===== src/Node/Requests.antt =====
-- src/runtime/node/node.rs: the queue of parents to ask the peers for.
pub mod Laws
pub mod Steps
use paqus_node.Base.{
  ℕ, ◌+◌, min, Bool, true, false, not, ◌||◌, List, [], ◌∷◌, ◌++◌, Option, none, some, leb, ◌==◌,
  if◌then◌else◌, is_some, length, saturating_add,
}
use paqus_node.BTreeMap
use paqus_node.BTreeMap.{BTreeMap, Set}
use paqus_node.Node.{Node, missing_parent_retry_secs}
use paqus_node.Paqus.{Paqus}
use paqus_node.Storage.{StorageApi}

-- `entry(..).and_modify(..).or_insert(..)`.
abbrev pub earlier : ℕ → Option ℕ → ℕ
earlier retry_at none = retry_at
earlier retry_at (some existing) = min existing retry_at

abbrev pub zero_if_none : Option ℕ → ℕ
zero_if_none none = 0
zero_if_none (some t) = t

abbrev pub is_empty {ℓ} : {A : Type ℓ} → List A → Bool
is_empty [] = true
is_empty (x ∷ xs) = false

-- What the loop of `drain_missing_parent_requests_at` has collected.
pub record Drained : Type 0 where
  pub ready : List ℕ
  pub pending : List ℕ
  pub request_set : Set
  pub retry_at : BTreeMap ℕ

unfoldable pub drain_from : ℕ → Set → BTreeMap ℕ → List ℕ → Drained
drain_from now request_set retry_at [] = record {
  ready = [];
  pending = [];
  request_set = request_set;
  retry_at = retry_at;
}
drain_from now request_set retry_at (hash ∷ requests) =
    elim (leb (zero_if_none (BTreeMap.get hash retry_at)) now) [
      | true ↦
          let rest =
            drain_from now (BTreeMap.remove hash request_set) (BTreeMap.remove hash retry_at)
              requests in
          record rest { ready = hash ∷ rest.ready }
      | false ↦
          let rest = drain_from now request_set retry_at requests in
          record rest { pending = hash ∷ rest.pending }
    ]

module _ ⦃paqus : Paqus⦄ ⦃storage_api : StorageApi⦄ where
  open paqus use {fork_contains}

  unfoldable pub queue_missing_parent_request_at : Node → ℕ → ℕ → Node
  queue_missing_parent_request_at n hash retry_at =
      if fork_contains n.fork_choice hash then n else record n {
        missing_parent_retry_at =
            BTreeMap.insert hash (earlier retry_at (BTreeMap.get hash n.missing_parent_retry_at))
              n.missing_parent_retry_at;
        missing_parent_request_set = BTreeMap.insert hash tt n.missing_parent_request_set;
        missing_parent_requests =
            if is_some (BTreeMap.get hash n.missing_parent_request_set)
            then n.missing_parent_requests
            else n.missing_parent_requests ++ hash ∷ [];
      }

  unfoldable pub queue_missing_parent_request : Node → ℕ → ℕ → Node
  queue_missing_parent_request n hash now =
      if fork_contains n.fork_choice hash then n else queue_missing_parent_request_at n hash now

  unfoldable pub retry_missing_parent_request : Node → ℕ → ℕ → Node
  retry_missing_parent_request n hash now =
      queue_missing_parent_request_at n hash (saturating_add now missing_parent_retry_secs)

  unfoldable pub drain_missing_parent_requests_at : Node → ℕ → Node × List ℕ
  drain_missing_parent_requests_at n now =
      let drained =
        drain_from now n.missing_parent_request_set n.missing_parent_retry_at
          n.missing_parent_requests in
      (
        record n {
          missing_parent_requests = drained.pending;
          missing_parent_request_set = drained.request_set;
          missing_parent_retry_at = drained.retry_at;
        },
        drained.ready,
      )

  unfoldable pub has_pending_sync_work : Node → Bool
  has_pending_sync_work n =
      not (is_empty n.orphan_blocks)
      || not (is_empty n.missing_parent_requests)
      || not (is_empty n.missing_parent_retry_at)
