-- ===== src/Cache.antt =====
-- src/runtime/cache.rs: the node's copy of accounts and blocks.
pub mod Reads
use paqus_node.Base.{ℕ, List, [], ◌∷◌, Option, none, some}
use paqus_node.BTreeMap
use paqus_node.BTreeMap.{BTreeMap}
use paqus_node.Paqus.{Paqus}

module _ ⦃paqus : Paqus⦄ where
  open paqus use {
    Account, address, Ledger, tip_height, tip_hash, accounts, chain_blocks, Block, height,
    block_hash,
  }

  pub record CoreCache : Type 0 where
    pub accounts : BTreeMap Account
    pub blocks_by_height : BTreeMap Block
    pub blocks_by_hash : BTreeMap Block
    pub tip_height : Option ℕ
    pub tip_hash : Option ℕ

  unfoldable pub new : CoreCache
  new = record {
    accounts = [];
    blocks_by_height = [];
    blocks_by_hash = [];
    tip_height = none;
    tip_hash = none;
  }

  unfoldable pub insert_account : CoreCache → Account → CoreCache
  insert_account c a = record c { accounts = BTreeMap.insert (address a) a c.accounts }

  unfoldable pub insert_block : CoreCache → Block → CoreCache
  insert_block c b = record c {
    blocks_by_height = BTreeMap.insert (height b) b c.blocks_by_height;
    blocks_by_hash = BTreeMap.insert (block_hash b) b c.blocks_by_hash;
    tip_height = some (height b);
    tip_hash = some (block_hash b);
  }

  unfoldable pub insert_accounts : CoreCache → List Account → CoreCache
  insert_accounts c [] = c
  insert_accounts c (a ∷ rest) = insert_accounts (insert_account c a) rest

  unfoldable pub insert_blocks : CoreCache → List Block → CoreCache
  insert_blocks c [] = c
  insert_blocks c (b ∷ bs) = insert_blocks (insert_block c b) bs

  unfoldable pub from_ledger : Ledger → CoreCache
  from_ledger ledger =
      let filled =
        insert_blocks (insert_accounts new (BTreeMap.values (accounts ledger)))
          (BTreeMap.values (chain_blocks ledger)) in
      record filled { tip_height = tip_height ledger; tip_hash = tip_hash ledger }

  unfoldable pub account : CoreCache → ℕ → Option Account
  account c a = BTreeMap.get a c.accounts

  unfoldable pub block_by_height : CoreCache → ℕ → Option Block
  block_by_height c h = BTreeMap.get h c.blocks_by_height

  unfoldable pub block_by_hash : CoreCache → ℕ → Option Block
  block_by_hash c hash = BTreeMap.get hash c.blocks_by_hash

  unfoldable pub clear : CoreCache → CoreCache
  clear c = record c {
    accounts = [];
    blocks_by_height = [];
    blocks_by_hash = [];
    tip_height = none;
    tip_hash = none;
  }
