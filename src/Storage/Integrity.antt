-- ===== src/Storage/Integrity.antt =====
-- src/runtime/storage/storage.rs, `validate_chain_integrity`, over the two reads that it makes.
pub mod Chain
use paqus_node.Base.{
  ℕ, zero, suc, ◌+◌, Bool, not, Option, none, some, ◌==◌, if◌then◌else◌, Result, ok, err, ◌>>=◌,
  ◌>>◌, ok_or, reject_if,
}
use paqus_node.Paqus.{Paqus}
use paqus_node.Storage.{Lmdb, StorageError, integrity}

module _ ⦃paqus : Paqus⦄ ⦃lmdb : Lmdb⦄ where
  open paqus use {Block, block_hash, previous_hash}

  -- The two reads: of the tip, and of the block at a height.
  pub record Reads : Type 0 where
    pub load_tip : Result StorageError (Option (ℕ × ℕ))
    pub load_block_by_height : ℕ → Result StorageError (Option Block)

  abbrev pub Checked : Type 0
  Checked = Result StorageError (Unit {0})

  -- The loop, from a height down. The hash of 64 zero bytes is 0.
  unfoldable pub check_down : Reads → ℕ → ℕ → Checked
  check_down r zero expected_hash = do
    found ← r.load_block_by_height 0
    block ← ok_or found (integrity "stored chain block is missing")
    reject_if (not (block_hash block == expected_hash))
        (integrity "stored chain block hash does not match expected hash")
    reject_if (not (previous_hash block == 0))
        (integrity "stored genesis block previous hash is not zero")
  check_down r (suc height) expected_hash = do
    found ← r.load_block_by_height (suc height)
    block ← ok_or found (integrity "stored chain block is missing")
    reject_if (not (block_hash block == expected_hash))
        (integrity "stored chain block hash does not match expected hash")
    below ← r.load_block_by_height height
    previous ← ok_or below (integrity "stored previous chain block is missing")
    reject_if (not (previous_hash block == block_hash previous))
        (integrity "stored chain block previous hash is broken")
    check_down r height (block_hash previous)

  unfoldable pub check_tip : Reads → ℕ → ℕ → Checked
  check_tip r tip_height tip_hash = do
    found ← r.load_block_by_height tip_height
    tip_block ← ok_or found (integrity "stored tip height block is missing")
    reject_if (not (block_hash tip_block == tip_hash))
        (integrity "stored tip hash does not match tip height block")
    check_down r tip_height tip_hash

  unfoldable pub validate_chain_integrity : Reads → Checked
  validate_chain_integrity r = elim r.load_tip [
    | err e ↦ err e
    | ok none ↦ ok tt
    | ok (some (tip_height, tip_hash)) ↦ check_tip r tip_height tip_hash
  ]
