-- ===== src/Tests/Sample.antt =====
-- A small stand-in for the crate `paqus`, on which the models run.
use paqus_node.Base.{
  ℕ, ◌+◌, ◌*◌, true, List, [], ◌∷◌, map, ◌++◌, Option, none, some, ltb, leb, ◌==◌, if◌then◌else◌,
  Result, ok, err, reject_if, is_some,
}
use paqus_node.BTreeMap
use paqus_node.BTreeMap.{BTreeMap}
use paqus_node.Paqus.{Paqus}

pub record Payment : Type 0 where
  pub from : ℕ
  pub to : ℕ
  pub amount : ℕ
  pub fee : ℕ
  pub nonce : ℕ
  pub timestamp : ℕ
  pub hash : ℕ

pub record Holder : Type 0 where
  pub address : ℕ
  pub nonce : ℕ
  pub balance : ℕ

pub record Slab : Type 0 where
  pub parent : ℕ
  pub height : ℕ
  pub miner : ℕ
  pub timestamp : ℕ
  pub difficulty : ℕ
  pub nonce : ℕ
  pub root : ℕ
  pub payments : List Payment

pub record Book : Type 0 where
  pub holders : List Holder
  pub slabs : BTreeMap Slab
  pub height : Option ℕ
  pub hash : Option ℕ

abbrev pub holder : List Holder → ℕ → Option Holder
holder [] a = none
holder (h ∷ hs) a = if h.address == a then some h else holder hs a

-- The hash of a block.
abbrev pub slab_hash : Slab → ℕ
slab_hash b = 100 * b.height + b.nonce + 1

-- A record of forks lists its blocks, newest first.
abbrev pub find_slab : ℕ → List Slab → Option Slab
find_slab h [] = none
find_slab h (b ∷ bs) = let rest = find_slab h bs in if slab_hash b == h then some b else rest

abbrev pub insert_slab : Slab → List Slab → List Slab × Result ℕ ℕ
insert_slab b bs =
    if is_some (find_slab (slab_hash b) bs)
    then (bs, err 8)
    else if b.height == 0
    then (b ∷ bs, ok (slab_hash b))
    else if is_some (find_slab b.parent bs)
    then (b ∷ bs, ok (slab_hash b))
    else (bs, err 7)

abbrev pub highest : List Slab → Option Slab
highest [] = none
highest (b ∷ bs) = elim (highest bs) [
  | none ↦ some b
  | some c ↦ if ltb c.height b.height then some b else some c
]

abbrev ancestors : List Slab → ℕ → List ℕ
ancestors [] h = []
ancestors (b ∷ bs) h =
    let up = ancestors bs b.parent in
    let on = ancestors bs h in if slab_hash b == h then h ∷ up else on

-- The blocks above an ancestor, lowest first.
abbrev branch : List Slab → ℕ → ℕ → List Slab
branch [] a h = []
branch (b ∷ bs) a h =
    let up = branch bs a b.parent in
    let on = branch bs a h in if h == a then [] else if slab_hash b == h then up ++ b ∷ [] else on

abbrev pub empty_book : Book
empty_book = record { holders = []; slabs = []; height = none; hash = none }

abbrev pub apply_slab : Book → Slab → Book
apply_slab k b = record k {
  slabs = BTreeMap.insert b.height b k.slabs;
  height = some b.height;
  hash = some (slab_hash b);
}

abbrev pub slab : ℕ → ℕ → ℕ → Slab
slab parent height nonce = record {
  parent = parent;
  height = height;
  miner = 3;
  timestamp = 900;
  difficulty = 1;
  nonce = nonce;
  root = height + 1;
  payments = [];
}

-- Errors are numbers here; a payment without a hash has a bad signature.
instance abbrev pub sample : Paqus
sample = record {
  SignedTransaction = Payment;
  from = λ p. p.from;
  to = λ p. p.to;
  amount = λ p. p.amount;
  fee = λ p. p.fee;
  nonce = λ p. p.nonce;
  timestamp = λ p. p.timestamp;
  hash = λ p. p.hash;
  serialized_size = λ p. 100;
  TransactionError = ℕ;
  from_future = 0;
  expired = 1;
  validate_signed_at = λ p now. reject_if (p.hash == 0) 2;
  validate_signed = λ p. reject_if (p.hash == 0) 2;
  Account = Holder;
  address = λ h. h.address;
  account_nonce = λ h. h.nonce;
  available_balance_at = λ h height. h.balance;
  Ledger = Book;
  account = λ b a. holder b.holders a;
  tip_height = λ b. b.height;
  tip_hash = λ b. b.hash;
  block_time = 60;
  LedgerError = ℕ;
  account_not_found = 3;
  invalid_nonce = 4;
  balance_overflow = 5;
  insufficient_balance = 6;
  invalid_state_root = 9;
  is_duplicate_block = λ e. e == 8;
  set_accounts = λ b m. record b { holders = BTreeMap.values m };
  ledger_state_root = λ b. 0;
  calculate_state_root = λ m. 0;
  is_snapshot_height = λ h. h == 5;
  Block = Slab;
  block_hash = slab_hash;
  previous_hash = λ b. b.parent;
  height = λ b. b.height;
  miner_address = λ b. b.miner;
  block_timestamp = λ b. b.timestamp;
  difficulty = λ b. b.difficulty;
  state_root = λ b. b.root;
  is_genesis = λ b. b.height == 0;
  block_transactions = λ b. b.payments;
  set_nonce = λ b n. record b { nonce = n };
  set_difficulty = λ b n. record b { difficulty = n };
  set_state_root = λ b n. record b { root = n };
  CoinbaseTransaction = ℕ;
  new_coinbase = λ miner subsidy fees. subsidy + fees;
  with_coinbase = λ height parent miner difficulty timestamp nonce coinbase payments. record {
    parent = parent;
    height = height;
    miner = miner;
    timestamp = timestamp;
    difficulty = difficulty;
    nonce = nonce;
    root = 0;
    payments = payments;
  };
  accounts = λ k. map (λ h. (h.address, h)) k.holders;
  chain_blocks = λ k. k.slabs;
  mintable_subsidy = λ k height. ok 50;
  state_root_after_block = λ k b. ok (b.height + 1);
  apply_block = λ k b. (apply_slab k b, ok tt);
  with_accounts = λ a. record empty_book { holders = BTreeMap.values a };
  chain_insert_block = λ k b. (apply_slab k b, ok tt);
  Consensus = ℕ;
  ConsensusError = ℕ;
  invalid_block_state_root = 10;
  unexpected_difficulty = 11;
  config_difficulty = λ c. c;
  proof_of_work_hash = λ c b. ok b.nonce;
  is_proof_of_work = λ c h d. leb d h;
  validate_genesis_block_at = λ c b now. reject_if (ltb now b.timestamp) 12;
  validate_next_block_with_tip_at = λ c b tip now. reject_if (ltb now b.timestamp) 12;
  retarget_difficulty = λ c d first last count. ok d;
  difficulty_start = 1;
  difficulty_adjustment_interval = 10;
  validate_checkpoint = λ height h. true;
  ForkChoice = List Slab;
  ForkNode = Slab;
  node_hash = slab_hash;
  node_height = λ b. b.height;
  node_block = λ b. b;
  ForkChoiceError = ℕ;
  missing_parent = 7;
  is_missing_parent = λ e. e == 7;
  is_duplicate = λ e. e == 8;
  fork_contains = λ bs h. is_some (find_slab h bs);
  fork_get = λ bs h. find_slab h bs;
  fork_insert = λ bs b. insert_slab b bs;
  best_tip = highest;
  ancestor_hashes = ancestors;
  new_fork_choice = [];
  block_at = λ k height. BTreeMap.get height k.slabs;
  protocol_version = 1;
  chain_id = 7;
  chain_name = "sample";
  protocol_stage = "test";
  network_magic = 99;
  new_ledger = empty_book;
  balance = λ k a. none;
  confirmed_balance = λ k a. none;
  unspendable_balance_at = λ h height. 0;
  genesis_block = slab 0 0 0;
  genesis_hash = 1;
  branch_from_ancestor = λ bs a h. some (branch bs a h);
}

abbrev pub payment : ℕ → ℕ → ℕ → ℕ → Payment
payment sender n paid h = record {
  from = sender;
  to = 9;
  amount = 10;
  fee = paid;
  nonce = n;
  timestamp = 1_000;
  hash = h;
}

abbrev pub book : Book
book = record {
  holders =
      record { address = 1; nonce = 0; balance = 100 }
      ∷ record { address = 2; nonce = 5; balance = 50 }
      ∷ [];
  slabs = [];
  height = some 7;
  hash = some 77;
}
