-- ===== src/Network/Handler.antt =====
-- src/runtime/network/handler.rs: the answer to a message.
pub mod Answers
use paqus_node.Base.{ℕ, List, [], Option, none, some, Result, ok, err, Bool, true, false}
use paqus_node.Cache.{block_by_hash}
use paqus_node.Network.{
  NetworkMessage, version, ver_ack, reject, ping, pong, get_tip, tip, get_block_by_height,
  get_block_by_hash, block, transaction, get_peers, peers, NetworkError, node, TipInfo, VersionInfo,
  Borsh, local, validate_compatibility,
}
use paqus_node.Node.{Node, NodeError}
use paqus_node.Node.Apply.{apply_block}
use paqus_node.Node.Calls.{submit_transaction}
use paqus_node.Paqus.{Paqus}
use paqus_node.Storage.{StorageApi}

-- `height.zip(hash)` as a tip.
abbrev pub zip_tip : Option ℕ → Option ℕ → Option TipInfo
zip_tip none hash = none
zip_tip (some h) none = none
zip_tip (some h) (some x) = some (record { height = h; hash = x })

abbrev pub some_map {ℓ κ} : {A : Type ℓ} {B : Type κ} → (A → B) → Option A → Option B
some_map f none = none
some_map f (some a) = some (f a)

module _ ⦃paqus : Paqus⦄ ⦃storage_api : StorageApi⦄ ⦃borsh : Borsh⦄ where
  open paqus use {tip_height, tip_hash, block_at}

  abbrev pub own_tip : Node → Option TipInfo
  own_tip n = zip_tip (tip_height n.ledger) (tip_hash n.ledger)

  unfoldable pub local_version : Node → VersionInfo
  local_version n = local (own_tip n)

  -- The node, and the answer or the error.
  abbrev pub Handled : Type 0
  Handled = Node × Result NetworkError (Option NetworkMessage)

  unfoldable pub answer_version : Node → VersionInfo → NetworkMessage
  answer_version n v = elim (validate_compatibility v) [
    | ok _ ↦ ver_ack (local_version n)
    | err reason ↦ reject reason "incompatible peer version"
  ]

  abbrev pub answered {ℓ} : {A : Type ℓ} → Node × Result NodeError A → Handled
  answered (n, ok _) = (n, ok none)
  answered (n, err e) = (n, err (node e))

  unfoldable pub handle_message : Node → NetworkMessage → ℕ → Option Handled
  handle_message n (version v) now = some (n, ok (some (answer_version n v)))
  handle_message n (ver_ack v) now = some (n, ok none)
  handle_message n (reject reason text) now = some (n, ok none)
  handle_message n (ping nonce) now = some (n, ok (some (pong nonce)))
  handle_message n (pong nonce) now = some (n, ok none)
  handle_message n get_tip now = some (n, ok (some_map tip (own_tip n)))
  handle_message n (tip t) now = some (n, ok none)
  handle_message n (get_block_by_height h) now = some (n, ok (some_map block (block_at n.ledger h)))
  handle_message n (get_block_by_hash hash) now =
      some (n, ok (some_map block (block_by_hash n.cache hash)))
  handle_message n (block b) now = some_map answered (apply_block n b now)
  handle_message n (transaction t) now = some (answered (submit_transaction n t now))
  handle_message n get_peers now = some (n, ok (some (peers [])))
  handle_message n (peers ps) now = some (n, ok none)
