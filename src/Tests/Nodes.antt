-- ===== src/Tests/Nodes.antt =====
-- The node at concrete inputs.
use paqus_node.Base.{
  ℕ, ◌≡◌, ap, ◌⊎◌, refl, false, List, [], ◌∷◌, Option, none, some, Result, ok, err, arith, elem,
}
use mathlib.Core.Path.{subst}
use paqus_node.BTreeMap
use paqus_node.Cache
use paqus_node.Mempool.{with_config, default_config}
use paqus_node.Mempool.Histories.{with_config-IsSound}
use paqus_node.Node.{Node, NodeError}
use paqus_node.Node.Apply.{
  apply_block, apply_known_parent_block, check_block, insert_checked_block, follow_best_tip,
  extend_ledger, cache_block, cache_parties, cache_account, process_orphans_for_parent,
  process_parents, process_children, process_child,
}
use paqus_node.Node.Calls.{new, with_genesis_accounts, index_chain}
use paqus_node.Node.Calls.Histories.{Call, apply_call, run, after, run-new}
use paqus_node.Node.Chain.{
  validate_block_for_known_parent, check_difficulty, validate_block_state_for_known_parent,
  check_state, validate_canonical_state_root, extends_active_tip,
}
use paqus_node.Node.Invariant.{IsNode}
use paqus_node.Node.Orphans.{
  cache_orphan_block, prune_expired_orphans, expired_orphans, is_expired, remove_orphans, make_room,
  store_orphan, orphan_is_too_far_ahead,
}
use paqus_node.Node.Progress.{apply_block-IsNode}
use paqus_node.Node.Requests.{
  queue_missing_parent_request, queue_missing_parent_request_at, drain_missing_parent_requests_at,
  retry_missing_parent_request, drain_from,
}
use paqus_node.Node.Requests.Laws.{IsDrained}
use paqus_node.Node.Requests.Steps.{
  HasQueue, IsQueued, queue_missing_parent_request_at-IsQueued,
  drain_missing_parent_requests_at-IsDrained, drain-retry_missing_parent_request,
}
use paqus_node.Node.Checks.{IsChecked, apply_known_parent_block-IsChecked}
use paqus_node.Node.Startup.{first_ledger, save_genesis, init_or_load}
use paqus_node.Node.Startup.Ends.{IsIndexable, IsReady, init_or_load-IsReady}
use paqus_node.Node.Calls.{pending_balance}
use paqus_node.Node.Calls.Pending.{pending_balance-sums}
use paqus_node.Storage.{StorageApi}
use paqus_node.Tests.Sample.{sample, Book, slab, Slab, payment, empty_book, apply_slab}

-- The heights that were written.
instance abbrev pub disk : StorageApi
disk = record {
  Storage = List ℕ;
  StorageError = ℕ;
  save_side_block = λ s b. (b.height ∷ s, ok tt);
  save_ledger = λ s k. (elim k.height [ none ↦ s | some h ↦ h ∷ s ], ok tt);
  save_genesis_accounts = λ s a. (s, ok tt);
  load_tip = λ s. ok none;
  load_ledger = λ s. (s, ok empty_book);
  load_genesis_accounts = λ s. ok none;
  load_blocks_by_hash = λ s. ok [];
  difficulty_window = λ s height interval. ok none;
}

program : Unit {0}
unfolding new with_genesis_accounts index_chain run after apply_block apply_known_parent_block
    check_block insert_checked_block follow_best_tip extend_ledger cache_block cache_parties
    cache_account process_orphans_for_parent process_parents process_children process_child
    validate_block_for_known_parent check_difficulty validate_block_state_for_known_parent
    check_state validate_canonical_state_root extends_active_tip cache_orphan_block
    prune_expired_orphans expired_orphans is_expired remove_orphans make_room store_orphan
    orphan_is_too_far_ahead queue_missing_parent_request queue_missing_parent_request_at
    drain_missing_parent_requests_at drain_from retry_missing_parent_request BTreeMap.get
    BTreeMap.insert BTreeMap.remove Cache.new Cache.from_ledger Cache.insert_account
    Cache.insert_block Cache.insert_accounts Cache.insert_blocks
program = tt

abbrev pub first : Slab
first = slab 1 1 0

abbrev second : Slab
second = slab 101 2 0

start : Option Node
unfolding program
start = new empty_book [] 0

-- The genesis block, the second block as an orphan, and then its parent.
abbrev calls : List Call
calls = apply_call (slab 0 0 0) 1_000 ∷ apply_call second 1_001 ∷ apply_call first 1_002 ∷ []

abbrev height_after : Option Node → Option ℕ
height_after none = none
height_after (some n) = n.ledger.height

abbrev run_from : Option Node → Option Node
run_from none = none
run_from (some n) = run calls n

reaches_second : height_after (run_from start) ≡ some 2
unfolding start
reaches_second = refl

-- The node on the genesis block, where the second block waits for the first.
pub waiting : Node
unfolding program default_config with_config
waiting = record {
  ledger = apply_slab empty_book (slab 0 0 0);
  mempool = with_config default_config;
  storage = 0 ∷ [];
  consensus = 0;
  cache = Cache.from_ledger (apply_slab empty_book (slab 0 0 0));
  fork_choice = slab 0 0 0 ∷ [];
  genesis_accounts = [];
  orphan_blocks = (201, record { block = second; received_at = 1_001 }) ∷ [];
  orphan_children_by_parent = (101, 201 ∷ []) ∷ [];
  missing_parent_requests = 101 ∷ [];
  missing_parent_request_set = (101, tt) ∷ [];
  missing_parent_retry_at = (101, 1_001) ∷ [];
}

waiting-HasQueue : HasQueue waiting
unfolding waiting
waiting-HasQueue = record {
  distinct = (refl, tt);
  sorted_set = (tt, tt);
  sorted_times = (tt, tt);
  listed = λ v. ground arith;
  timed = λ v. ground arith;
}

pub waiting-IsNode : IsNode [] waiting
unfolding waiting default_config
waiting-IsNode = record {
  orphanage = record {
    sorted_orphans = (tt, tt);
    sorted_index = (tt, tt);
    bounded = omega arith;
    keyed = λ h. ground arith;
    indexed = λ p h. ground arith;
    tidy = λ p. ground arith;
  };
  queue = waiting-HasQueue;
  pool = with_config-IsSound default_config (omega arith);
}

fresh : Node
fresh = record {
  ledger = empty_book;
  mempool = with_config default_config;
  storage = [];
  consensus = 0;
  cache = Cache.from_ledger empty_book;
  fork_choice = [];
  genesis_accounts = [];
  orphan_blocks = [];
  orphan_children_by_parent = [];
  missing_parent_requests = [];
  missing_parent_request_set = [];
  missing_parent_retry_at = [];
}

fresh_lem : new empty_book [] 0 ≡ some fresh
unfolding program fresh
fresh_lem = refl

run-new_example : (last : Node) × (run calls fresh ≡ some last) × IsNode [] last
run-new_example = run-new empty_book [] 0 fresh calls fresh_lem

apply_block-IsNode_example :
    (r : Node × Result NodeError (Unit {0})) × (apply_block waiting first 1_002 ≡ some r)
    × IsNode [] r.0
apply_block-IsNode_example = apply_block-IsNode waiting first 1_002 waiting-IsNode

-- The hash waits already, for an earlier time.
queue_missing_parent_request_at-IsQueued_example :
    IsQueued waiting 101 1_010 (queue_missing_parent_request_at waiting 101 1_010)
queue_missing_parent_request_at-IsQueued_example =
    queue_missing_parent_request_at-IsQueued waiting 101 1_010 waiting-HasQueue

drain_missing_parent_requests_at-IsDrained_example :
    let r = drain_missing_parent_requests_at waiting 1_002 in
    HasQueue r.0
    × IsDrained 1_002 waiting.missing_parent_requests waiting.missing_parent_request_set
        waiting.missing_parent_retry_at
        (record {
          ready = r.1;
          pending = r.0.missing_parent_requests;
          request_set = r.0.missing_parent_request_set;
          retry_at = r.0.missing_parent_retry_at;
        })
drain_missing_parent_requests_at-IsDrained_example =
    drain_missing_parent_requests_at-IsDrained waiting 1_002 waiting-HasQueue

drain-retry_missing_parent_request_example :
    elem 301
      (drain_missing_parent_requests_at (retry_missing_parent_request waiting 301 1_000) 1_004).1
    ≡ false
unfolding waiting
drain-retry_missing_parent_request_example =
    drain-retry_missing_parent_request waiting 301 1_000 1_004 waiting-HasQueue refl refl

apply_known_parent_block-IsChecked_example :
    ((e : NodeError) × (apply_known_parent_block waiting first 1_002 ≡ (waiting, err e)))
    ⊎ IsChecked waiting first 1_002
apply_known_parent_block-IsChecked_example = apply_known_parent_block-IsChecked waiting first 1_002

abbrev book_of : Option (List ℕ × Result NodeError Book) → Book
book_of none = empty_book
book_of (some (s, ok l)) = l
book_of (some (s, err e)) = empty_book

indexable : (saved : List ℕ) (l : Book) → first_ledger [] ≡ some (saved, ok l) → IsIndexable l
unfolding program first_ledger save_genesis
indexable saved l e =
    let same : apply_slab empty_book (slab 0 0 0) ≡ l = ap book_of e in
    (
      slab 0 0 0 ∷ [],
      subst (λ k. index_chain [] (BTreeMap.values k.slabs) ≡ some (slab 0 0 0 ∷ [])) same refl,
    )

init_or_load-IsReady_example :
    (r : List ℕ × Result NodeError Node) × (init_or_load [] 0 ≡ some r) × IsReady r.1
init_or_load-IsReady_example = init_or_load-IsReady [] 0 refl indexable

-- A node whose pool holds a payment of 10 with a fee of 2.
busy : Node
unfolding waiting
busy = record waiting {
  mempool = record (with_config default_config) {
    transactions = (50, record { transaction = payment 1 0 2 50; inserted_at = 1_000 }) ∷ [];
    total_bytes = 100;
  };
}

pending_balance-sums_example :
    ((pending_balance busy 1).incoming ≡ 0) × ((pending_balance busy 1).outgoing ≡ 12)
unfolding busy
pending_balance-sums_example = pending_balance-sums busy 1
