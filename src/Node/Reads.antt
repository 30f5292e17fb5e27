-- ===== src/Node/Reads.antt =====
-- src/runtime/node/node.rs: what the node reports of its ledger alone.
use paqus_node.Base.{ℕ, Option}
use paqus_node.Node.{Node}
use paqus_node.Paqus.{Paqus}
use paqus_node.Storage.{StorageApi}

module _ ⦃paqus : Paqus⦄ ⦃storage_api : StorageApi⦄ where
  unfoldable pub tip_height : Node → Option ℕ
  tip_height n = paqus.tip_height n.ledger

  unfoldable pub tip_hash : Node → Option ℕ
  tip_hash n = paqus.tip_hash n.ledger

  unfoldable pub balance : Node → ℕ → Option ℕ
  balance n address = paqus.balance n.ledger address

  unfoldable pub confirmed_balance : Node → ℕ → Option ℕ
  confirmed_balance n address = paqus.confirmed_balance n.ledger address
