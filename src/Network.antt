-- ===== src/Network.antt =====
-- src/runtime/network/message.rs and src/runtime/network/error.rs: the messages between nodes, and the envelope
-- around one. Borsh, which writes an envelope as bytes, is the argument `borsh`.
pub mod Transport
pub mod Handler
use paqus_node.Base.{
  ℕ, ◌*◌, Bool, true, false, not, ◌&&◌, ◌||◌, List, Option, none, some, ltb, ◌==◌, if◌then◌else◌,
  length, Result, ok, err, ◌>>=◌, ◌>>◌, map_err, reject_if,
}
use Prim.Native.String.{String}
use text.Mathlib.Text.{◌==◌ as str_eq}
use paqus_node.Node.{NodeError}
use paqus_node.Paqus.{Paqus}
use paqus_node.Storage.{StorageApi}

-- src/runtime/mod.rs: 8 MiB.
abbrev pub max_network_message_size : ℕ
max_network_message_size = 8_388_608

pub record PeerInfo : Type 0 where
  pub address : String

pub record TipInfo : Type 0 where
  pub height : ℕ
  pub hash : ℕ

pub record VersionInfo : Type 0 where
  pub protocol_version : ℕ
  pub chain_id : ℕ
  pub chain_name : String
  pub protocol_stage : String
  pub network_magic : ℕ
  pub tip : Option TipInfo

pub data RejectReason : Type 0 where
  protocol_version_mismatch : RejectReason
  chain_mismatch : RejectReason
  network_mismatch : RejectReason
  invalid_message : RejectReason

module _ ⦃paqus : Paqus⦄ where
  open paqus use {SignedTransaction, Block}

  pub data NetworkMessage : Type 0 where
    version : VersionInfo → NetworkMessage
    ver_ack : VersionInfo → NetworkMessage
    reject : RejectReason → String → NetworkMessage
    ping : ℕ → NetworkMessage
    pong : ℕ → NetworkMessage
    get_tip : NetworkMessage
    tip : TipInfo → NetworkMessage
    get_block_by_height : ℕ → NetworkMessage
    get_block_by_hash : ℕ → NetworkMessage
    block : Block → NetworkMessage
    transaction : SignedTransaction → NetworkMessage
    get_peers : NetworkMessage
    peers : List PeerInfo → NetworkMessage

  pub record NetworkEnvelope : Type 0 where
    pub magic : ℕ
    pub message : NetworkMessage

  -- `borsh::to_vec` and `try_from_slice`, whose errors are I/O errors, as the stream's are.
  pub record Borsh : Type 1 where
    pub IoError : Type 0
    pub magic_mismatch : IoError
    pub unexpected_end : IoError
    pub to_vec : NetworkEnvelope → Result IoError (List ℕ)
    pub try_from_slice : List ℕ → Result IoError NetworkEnvelope

  unfoldable pub local : Option TipInfo → VersionInfo
  local t = record {
    protocol_version = paqus.protocol_version;
    chain_id = paqus.chain_id;
    chain_name = paqus.chain_name;
    protocol_stage = paqus.protocol_stage;
    network_magic = paqus.network_magic;
    tip = t;
  }

  unfoldable pub validate_compatibility : VersionInfo → Result RejectReason (Unit {0})
  validate_compatibility v = do
    reject_if (not (v.network_magic == paqus.network_magic)) network_mismatch
    reject_if
        (not (v.chain_id == paqus.chain_id)
          || not (str_eq v.chain_name paqus.chain_name)
          || not (str_eq v.protocol_stage paqus.protocol_stage))
        chain_mismatch
    reject_if (not (v.protocol_version == paqus.protocol_version)) protocol_version_mismatch

  module _ ⦃storage_api : StorageApi⦄ ⦃borsh : Borsh⦄ where
    open borsh use {IoError, magic_mismatch, to_vec, try_from_slice}

    pub data NetworkError : Type 0 where
      message_too_large : NetworkError
      node : NodeError → NetworkError
      io : IoError → NetworkError
      serialization : IoError → NetworkError

    unfoldable pub to_envelope : NetworkMessage → NetworkEnvelope
    to_envelope m = record { magic = paqus.network_magic; message = m }

    unfoldable pub to_bytes : NetworkEnvelope → Result NetworkError (List ℕ)
    to_bytes e = do
      bytes ← map_err serialization (to_vec e)
      reject_if (ltb max_network_message_size (length bytes)) message_too_large
      ok bytes

    unfoldable pub from_bytes : List ℕ → Result NetworkError NetworkEnvelope
    from_bytes bytes = do
      reject_if (ltb max_network_message_size (length bytes)) message_too_large
      e ← map_err serialization (try_from_slice bytes)
      reject_if (not (e.magic == paqus.network_magic)) (serialization magic_mismatch)
      ok e
