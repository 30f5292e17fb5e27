-- ===== src/Network/Transport.antt =====
-- src/runtime/network/transport.rs: messages on a stream of bytes, each behind its length. The stream is the
-- list of its bytes: writing on it succeeds, and reading fails at its end.
pub mod Roundtrip
use paqus_node.Base.{
  ℕ, zero, suc, ◌+◌, ◌*◌, ◌/◌, ◌%◌, not, List, [], ◌∷◌, ◌++◌, Option, none, some, ltb,
  if◌then◌else◌, length, Result, ok, err, ◌>>=◌, ◌>>◌, ok_or, reject_if, u32_modulus,
}
use paqus_node.Network.{
  NetworkEnvelope, NetworkError, message_too_large, io, Borsh, to_bytes, from_bytes,
  max_network_message_size,
}
use paqus_node.Paqus.{Paqus}
use paqus_node.Storage.{StorageApi}

-- `u32::to_be_bytes`.
unfoldable pub to_be_bytes : ℕ → List ℕ
to_be_bytes n = n / 16_777_216 ∷ (n / 65_536) % 256 ∷ (n / 256) % 256 ∷ n % 256 ∷ []

-- `u32::from_be_bytes`, on four bytes.
unfoldable pub from_be_bytes : List ℕ → ℕ
from_be_bytes (a ∷ b ∷ c ∷ d ∷ []) = a * 16_777_216 + b * 65_536 + c * 256 + d
from_be_bytes bytes = 0

-- `read_exact`: that many bytes, and the rest of the stream.
unfoldable pub read_exact : ℕ → List ℕ → Option (List ℕ × List ℕ)
read_exact zero stream = some ([], stream)
read_exact (suc n) [] = none
read_exact (suc n) (byte ∷ stream) = elim (read_exact n stream) [
  | none ↦ none
  | some (bytes, rest) ↦ some (byte ∷ bytes, rest)
]

module _ ⦃paqus : Paqus⦄ ⦃storage_api : StorageApi⦄ ⦃borsh : Borsh⦄ where
  open borsh use {unexpected_end}

  -- The stream with the message at its end.
  unfoldable pub write_message : List ℕ → NetworkEnvelope → Result NetworkError (List ℕ)
  write_message written envelope = do
    bytes ← to_bytes envelope
    reject_if (not (ltb (length bytes) u32_modulus)) message_too_large
    ok (written ++ (to_be_bytes (length bytes) ++ bytes))

  -- The message at the head of the stream, and the rest.
  unfoldable pub read_message : List ℕ → Result NetworkError (NetworkEnvelope × List ℕ)
  read_message stream = do
    (length_bytes, behind) ← ok_or (read_exact 4 stream) (io unexpected_end)
    let size = from_be_bytes length_bytes
    reject_if (ltb max_network_message_size size) message_too_large
    (bytes, rest) ← ok_or (read_exact size behind) (io unexpected_end)
    envelope ← from_bytes bytes
    ok (envelope, rest)
