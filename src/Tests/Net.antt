-- ===== src/Tests/Net.antt =====
-- Messages at concrete inputs, with a small codec in place of Borsh.
use paqus_node.Base.{ℕ, ◌≡◌, ◌⊎◌, refl, sym, ap, List, [], ◌∷◌, none, some, Result, ok, err, arith}
use paqus_node.Network.{
  NetworkMessage, NetworkEnvelope, version, ver_ack, reject, ping, get_tip, get_block_by_hash,
  block, VersionInfo, RejectReason, Borsh, to_envelope, to_bytes,
}
use paqus_node.Network.Handler.{handle_message, local_version}
use paqus_node.Network.Handler.Answers.{
  handle_all, handle_all-IsNode, IsOwnChain, handle_message-version,
}
use paqus_node.Network.Transport.{write_message, to_be_bytes}
use paqus_node.Network.Transport.Roundtrip.{write_all, read_all, read_all-write_all}
use paqus_node.Node.{Node}
use paqus_node.Node.Invariant.{IsNode}
use paqus_node.Tests.Nodes.{disk, waiting, waiting-IsNode, first}
use paqus_node.Tests.Sample.{sample}

abbrev encode : ℕ → NetworkMessage → Result ℕ (List ℕ)
encode magic (ping n) = ok (magic ∷ n ∷ [])
encode magic get_tip = ok (magic ∷ [])
encode magic m = err 0

abbrev decode : List ℕ → Result ℕ NetworkEnvelope
decode (magic ∷ []) = ok (record { magic = magic; message = get_tip })
decode (magic ∷ n ∷ []) = ok (record { magic = magic; message = ping n })
decode bytes = err 0

instance abbrev pub codec : Borsh
codec = record {
  IoError = ℕ;
  magic_mismatch = 1;
  unexpected_end = 2;
  to_vec = λ e. encode e.magic e.message;
  try_from_slice = decode;
}

abbrev decode_ok : Result ℕ (List ℕ) → Result ℕ NetworkEnvelope
decode_ok (ok bytes) = decode bytes
decode_ok (err e) = err e

decode-encode :
    (magic : ℕ) (m : NetworkMessage) (b : List ℕ)
    → encode magic m ≡ ok b
    → decode b ≡ ok (record { magic = magic; message = m })
decode-encode magic (ping n) b h = sym (ap decode_ok h)
decode-encode magic get_tip b h = sym (ap decode_ok h)
decode-encode magic m b h = absurd (ground arith)

abbrev messages : List NetworkMessage
messages = ping 5 ∷ get_tip ∷ ping 7 ∷ []

abbrev stream : List ℕ
stream = 0 ∷ 0 ∷ 0 ∷ 2 ∷ 99 ∷ 5 ∷ 0 ∷ 0 ∷ 0 ∷ 1 ∷ 99 ∷ 0 ∷ 0 ∷ 0 ∷ 2 ∷ 99 ∷ 7 ∷ []

stream_lem : write_all [] messages ≡ ok stream
unfolding write_all write_message to_bytes to_envelope to_be_bytes
stream_lem = refl

read_all-write_all_example : read_all 3 stream ≡ ok (messages, [])
read_all-write_all_example =
    read_all-write_all messages stream (λ e b h. decode-encode e.magic e.message b h) stream_lem

abbrev arrivals : List (NetworkMessage × ℕ)
arrivals = (get_tip, 1_001) ∷ (block first, 1_002) ∷ (get_block_by_hash 101, 1_003) ∷ []

handle_all-IsNode_example :
    (last : Node) × (handle_all waiting arrivals ≡ some last) × IsNode [] last
handle_all-IsNode_example = handle_all-IsNode waiting arrivals waiting-IsNode

abbrev stranger : VersionInfo
stranger = record {
  protocol_version = 1;
  chain_id = 8;
  chain_name = "sample";
  protocol_stage = "test";
  network_magic = 99;
  tip = none;
}

handle_message-version_example :
    (IsOwnChain stranger
      × (handle_message waiting (version stranger) 1_001
          ≡ some (waiting, ok (some (ver_ack (local_version waiting))))))
    ⊎ ((¬ IsOwnChain stranger)
        × (reason : RejectReason) × (handle_message waiting (version stranger) 1_001
            ≡ some (waiting, ok (some (reject reason "incompatible peer version")))))
handle_message-version_example = handle_message-version waiting stranger 1_001
