-- ===== src/Network/Handler/Answers.antt =====
-- Handling messages ends, keeps the node in step, and the handshake accepts exactly its own chain.
use paqus_node.Base.{
  ℕ, ◌≡◌, refl, ap, true, ◌⊎◌, List, [], ◌∷◌, Option, none, some, Result, ok, err, arith, inl, inr,
  Result-cases,
}
use text.Mathlib.Text.{◌==◌ as str_eq}
use paqus_node.Mempool.Accounting.{IsValid-IsSound, insert_validated_at-IsValid}
use paqus_node.Network.{
  NetworkMessage, version, ver_ack, reject, ping, pong, get_tip, tip, get_block_by_height,
  get_block_by_hash, block, transaction, get_peers, peers, VersionInfo, RejectReason, Borsh,
  validate_compatibility,
}
use paqus_node.Network.Handler.{
  Handled, answered, some_map, handle_message, answer_version, local_version,
}
use paqus_node.Node.{Node, NodeError}
use paqus_node.Node.Calls.{submit_transaction}
use paqus_node.Node.Invariant.{IsNode}
use paqus_node.Node.Progress.{apply_block-IsNode}
use paqus_node.Paqus.{Paqus}
use paqus_node.Storage.{StorageApi}

module _ ⦃paqus : Paqus⦄ ⦃storage_api : StorageApi⦄ ⦃borsh : Borsh⦄ where
  open paqus use {
    SignedTransaction, protocol_version, chain_id, chain_name, protocol_stage, network_magic,
  }

  -- The node after messages, each with the time of its arrival.
  unfoldable pub handle_all : Node → List (NetworkMessage × ℕ) → Option Node
  handle_all n [] = some n
  handle_all n ((m, now) ∷ ms) = elim (handle_message n m now) [
    | none ↦ none
    | some handled ↦ handle_all handled.0 ms
  ]

  abbrev Handles : Option Handled → Type 0
  Handles o = (r : Handled) × (o ≡ some r) × IsNode [] r.0

  answered-IsNode :
      {A : Type 0} (r : Node × Result NodeError A) → IsNode [] r.0 → IsNode [] (answered r).0
  answered-IsNode (n, ok a) v = v
  answered-IsNode (n, err e) v = v

  submit_transaction-IsNode :
      (n : Node) (t : SignedTransaction) (now : ℕ)
      → IsNode [] n
      → IsNode [] (submit_transaction n t now).0
  unfolding submit_transaction
  submit_transaction-IsNode n t now v = record {
    orphanage = v.orphanage;
    queue = v.queue;
    pool = IsValid-IsSound _ (insert_validated_at-IsValid n.mempool n.ledger t now v.pool);
  }

  handle_message-Handles :
      (n : Node) (m : NetworkMessage) (now : ℕ) → IsNode [] n → Handles (handle_message n m now)
  unfolding handle_message
  handle_message-Handles n (version v) now w = (_, refl, w)
  handle_message-Handles n (ver_ack v) now w = (_, refl, w)
  handle_message-Handles n (reject reason text) now w = (_, refl, w)
  handle_message-Handles n (ping nonce) now w = (_, refl, w)
  handle_message-Handles n (pong nonce) now w = (_, refl, w)
  handle_message-Handles n get_tip now w = (_, refl, w)
  handle_message-Handles n (tip t) now w = (_, refl, w)
  handle_message-Handles n (get_block_by_height h) now w = (_, refl, w)
  handle_message-Handles n (get_block_by_hash hash) now w = (_, refl, w)
  handle_message-Handles n (block b) now w =
      let (r, ended, v) = apply_block-IsNode n b now w in
      (answered r, rw (ended, some_map) refl, answered-IsNode r v)
  handle_message-Handles n (transaction t) now w =
      let r = submit_transaction n t now in
      (answered r, refl, answered-IsNode r (submit_transaction-IsNode n t now w))
  handle_message-Handles n get_peers now w = (_, refl, w)
  handle_message-Handles n (peers ps) now w = (_, refl, w)

  -- Whatever messages arrive at a node in step, each is handled to its end, and they leave a node in
  -- step.
  pub handle_all-IsNode :
      (n : Node) (ms : List (NetworkMessage × ℕ))
      → IsNode [] n
      → (last : Node) × (handle_all n ms ≡ some last) × IsNode [] last
  unfolding handle_all
  handle_all-IsNode n [] v = (n, refl, v)
  handle_all-IsNode n ((m, now) ∷ ms) v =
      let (r, handled, w) = handle_message-Handles n m now v in
      rw (handled, handle_all) (handle_all-IsNode r.0 ms w)

  -- All that a version says of the chain.
  pub record IsOwnChain (v : VersionInfo) : Type 0 where
    pub magic : v.network_magic ≡ network_magic
    pub chain : v.chain_id ≡ chain_id
    pub name : str_eq v.chain_name chain_name ≡ true
    pub stage : str_eq v.protocol_stage protocol_stage ≡ true
    pub protocol : v.protocol_version ≡ protocol_version

  validate_compatibility-IsOwnChain :
      (v : VersionInfo) → validate_compatibility v ≡ ok tt → IsOwnChain v
  unfolding validate_compatibility
  validate_compatibility-IsOwnChain v e = record {
    magic = ground arith;
    chain = ground arith;
    name = ground arith;
    stage = ground arith;
    protocol = ground arith;
  }

  IsOwnChain-validate_compatibility :
      (v : VersionInfo) → IsOwnChain v → validate_compatibility v ≡ ok tt
  unfolding validate_compatibility
  IsOwnChain-validate_compatibility v c =
      ground (arith, c.magic, c.chain, c.name, c.stage, c.protocol)

  -- A version message is acknowledged, with the node's own version and tip, if it names the node's chain
  -- (magic, id, name, stage and protocol), and rejected with a reason if it does not; either way the
  -- node stays as it is.
  pub handle_message-version :
      (n : Node) (v : VersionInfo) (now : ℕ)
      → (IsOwnChain v
          × (handle_message n (version v) now ≡ some (n, ok (some (ver_ack (local_version n))))))
        ⊎ ((¬ IsOwnChain v)
            × (reason : RejectReason) × (handle_message n (version v) now
                ≡ some (n, ok (some (reject reason "incompatible peer version")))))
  unfolding handle_message answer_version
  handle_message-version n v now = elim (Result-cases (validate_compatibility v)) [
    | inl (_, fine) ↦
        let answer : answer_version n v ≡ ver_ack (local_version n) =
          rw (fine, answer_version) refl in
        inl (validate_compatibility-IsOwnChain v fine, ap (λ a. some (n, ok (some a))) answer)
    | inr (reason, bad) ↦
        let answer : answer_version n v ≡ reject reason "incompatible peer version" =
          rw (bad, answer_version) refl in
        inr (
          (λ own. absurd (ground (arith, IsOwnChain-validate_compatibility v own))),
          reason,
          ap (λ a. some (n, ok (some a))) answer,
        )
  ]
