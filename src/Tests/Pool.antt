-- ===== src/Tests/Pool.antt =====
-- The pool at concrete inputs.
use paqus_node.BTreeMap
use paqus_node.Base.{
  ℕ, ◌≡◌, ◌↔◌, ◌≢◌, ◌≤◌, inl, refl, List, [], ◌∷◌, none, some, ok, err, arith, length, sum_by, min,
  IsAscending, if◌then◌else◌, sort_by,
}
use paqus_node.Mempool.{
  Mempool, with_config, ttl, retained_bytes, prune_expired, remove, remove_confirmed, clear,
  default_config, MempoolEntry, MempoolError, transactions,
}
use paqus_node.Mempool.Accounting.{IsSound, IsValid, insert_validated_at-IsValid}
use paqus_node.Mempool.Histories.{
  Call, insert_validated_at_call, apply, run, run-with_config-IsSound,
}
use paqus_node.Mempool.Insert.{
  replacement_size, remove_replaced, store, insert_unchecked, insert_at, admission,
  insert_validated_at,
}
use paqus_node.Mempool.Nonces.{IsNext, insert_validated_at-IsNext, insert_validated_at-blocked}
use paqus_node.Mempool.Outcome.{
  IsInserted, insert_validated_at-IsInserted, insert_validated_at-err, confirms,
  get-remove_confirmed, HasTime, prune_expired_iff,
}
use paqus_node.Mempool.Policy.{
  validate_fee_policy, validate_timestamp_policy, replacement_candidate, pending_from_sender,
  charge, charge_all, validate_against_ledger_excluding,
}
use paqus_node.Mempool.Select.{
  max_from, max_by, push_transaction, group_by_sender, sort_groups, candidates, take_first,
  select_loop, groups, select_for_block,
}
use paqus_node.Mempool.Select.Loop.{select_for_block-IsSelection}
use paqus_node.Mempool.Select.Step.{IsGreedy, RisesTo}
use paqus_node.Mempool.Slots.{HasUniqueSlots, insert_validated_at-HasUniqueSlots}
use paqus_node.Tests.Sample.{Payment, sample, payment, book}

program : Unit {0}
unfolding with_config ttl retained_bytes prune_expired remove remove_confirmed clear apply run
    replacement_size remove_replaced store insert_unchecked insert_at admission insert_validated_at
    validate_fee_policy validate_timestamp_policy replacement_candidate pending_from_sender charge
    charge_all validate_against_ledger_excluding max_from max_by push_transaction group_by_sender
    sort_groups candidates take_first select_loop groups select_for_block default_config sort_by
    BTreeMap.get BTreeMap.insert BTreeMap.remove BTreeMap.retain BTreeMap.find confirms
program = tt

abbrev calls : List Call
calls =
    insert_validated_at_call book (payment 1 0 2 50) 1_000
    ∷ insert_validated_at_call book (payment 2 5 3 40) 1_000
    ∷ insert_validated_at_call book (payment 1 1 9 60) 1_010
    ∷ []

pool : Mempool Payment
unfolding program
pool = run calls (with_config default_config)

pool_lem : (length pool.transactions ≡ 3) × (pool.total_bytes ≡ 300)
unfolding pool
pool_lem = (refl, refl)

abbrev bump : Payment
bump = payment 1 1 12 61

abbrev late : Payment
late = payment 1 0 8 62

run-with_config-IsSound_example :
    IsSound (run calls (with_config default_config))
    × ((run calls (with_config default_config)).config ≡ default_config)
unfolding default_config
run-with_config-IsSound_example = run-with_config-IsSound default_config calls (omega arith)

pool-IsSound : IsSound pool
unfolding pool
pool-IsSound = run-with_config-IsSound_example.0

insert_validated_at-IsValid_example : IsValid (insert_validated_at pool book bump 1_020).0
insert_validated_at-IsValid_example = insert_validated_at-IsValid pool book bump 1_020 pool-IsSound

-- The replacement of the last pending payment goes through.
bumped : (insert_validated_at pool book bump 1_020).1 ≡ ok 61
unfolding pool
bumped = refl

insert_validated_at-IsInserted_example :
    IsInserted
      (prune_expired pool 1_020).0
      book
      bump
      1_020
      61
      (insert_validated_at pool book bump 1_020).0
insert_validated_at-IsInserted_example =
    insert_validated_at-IsInserted pool book bump 1_020 61 pool-IsSound bumped

-- The replacement of an earlier one does not.
refused : (insert_validated_at pool book late 1_020).1 ≡ err (MempoolError.invalid_ledger_state 4)
unfolding pool
refused = refl

insert_validated_at-err_example :
    (insert_validated_at pool book late 1_020).0 ≡ (prune_expired pool 1_020).0
insert_validated_at-err_example =
    insert_validated_at-err pool book late 1_020 (MempoolError.invalid_ledger_state 4) refused

abbrev second_entry : MempoolEntry Payment
second_entry = record { transaction = payment 2 5 3 40; inserted_at = 1_000 }

prune_expired_iff_example :
    (BTreeMap.get 40 (prune_expired pool 87_400).0.transactions ≡ some second_entry) ↔ (
      (BTreeMap.get 40 pool.transactions ≡ some second_entry)
      × HasTime pool.config 87_400 second_entry)
prune_expired_iff_example = prune_expired_iff pool 87_400 40 second_entry pool-IsSound.sorted

-- It is kept in its last second, and gone after it.
last_second :
    (BTreeMap.get 40 (prune_expired pool 87_400).0.transactions ≡ some second_entry)
    × (BTreeMap.get 40 (prune_expired pool 87_401).0.transactions ≡ none)
unfolding pool
last_second = (refl, refl)

get-remove_confirmed_example :
    BTreeMap.get 50 (remove_confirmed pool (payment 1 0 2 50 ∷ [])).transactions
    ≡ (if confirms (payment 1 0 2 50 ∷ []) 50 then none else BTreeMap.get 50 pool.transactions)
get-remove_confirmed_example = get-remove_confirmed (payment 1 0 2 50 ∷ []) pool 50 pool-IsSound

-- The three payments of the pool went in one after another.
pool-HasUniqueSlots : HasUniqueSlots pool
unfolding pool with_config BTreeMap.get default_config run apply
pool-HasUniqueSlots =
    let sound = λ (cs : List Call). (run-with_config-IsSound default_config cs (omega arith)).0 in
    let add =
      λ (cs : List Call) (t : Payment) (now : ℕ)
          (u : HasUniqueSlots (run cs (with_config default_config))).
        insert_validated_at-HasUniqueSlots (run cs (with_config default_config)) book t now
          (sound cs) u in
    let first = insert_validated_at_call book (payment 1 0 2 50) 1_000 in
    let second = insert_validated_at_call book (payment 2 5 3 40) 1_000 in
    add (first ∷ second ∷ []) (payment 1 1 9 60) 1_010 (
      add (first ∷ []) (payment 2 5 3 40) 1_000
        (add [] (payment 1 0 2 50) 1_000 (λ h k d e gd ge f n. absurd (ground arith))))

-- The new payment takes the place of one with its sender and nonce, as `bumped` shows.
insert_validated_at-HasUniqueSlots_example :
    HasUniqueSlots (insert_validated_at pool book bump 1_020).0
insert_validated_at-HasUniqueSlots_example =
    insert_validated_at-HasUniqueSlots pool book bump 1_020 pool-IsSound pool-HasUniqueSlots

insert_validated_at-IsNext_example : IsNext (prune_expired pool 1_020).0 book bump
unfolding pool
insert_validated_at-IsNext_example =
    insert_validated_at-IsNext pool book bump 1_020 61 pool-IsSound (λ sender known. ground arith)
      bumped

insert_validated_at-blocked_example : (insert_validated_at pool book late 1_020).1 ≢ ok 62
unfolding pool
insert_validated_at-blocked_example =
    insert_validated_at-blocked pool book late 1_020 62 60
      (record { transaction = payment 1 1 9 60; inserted_at = 1_010 }) pool-IsSound
      (λ sender known. ground arith) refl refl refl (omega arith) (inl (omega arith))

select_for_block-IsSelection_example :
    (selected : List Payment) × (select_for_block pool 2 ≡ some selected)
    × (length selected ≡ min 2 (length (transactions pool)))
    × ((f : Payment → ℕ) → sum_by f selected ≤ sum_by f (transactions pool))
    × IsAscending RisesTo selected
    × IsGreedy 2 (groups (transactions pool)) selected
select_for_block-IsSelection_example = select_for_block-IsSelection pool 2

-- The payment with the fee of nine waits for its predecessor.
chosen : select_for_block pool 2 ≡ some (payment 2 5 3 40 ∷ payment 1 0 2 50 ∷ [])
unfolding pool
chosen = refl
