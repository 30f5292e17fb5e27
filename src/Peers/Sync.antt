-- ===== src/Peers/Sync.antt =====
-- src/p2p.rs: the poll of a peer, by which a node downloads the blocks that it misses. The peer is the
-- list of what its stream will give; the node's lock is held by the poll whenever it needs it.
use Prim.Native.String.{String}
use paqus_node.Base.{
  ℕ, zero, suc, ◌-◌, min, Bool, true, false, List, [], ◌∷◌, ◌++◌, map, Option, none, some, leb,
  if◌then◌else◌, Result, ok, err, map_err, saturating_add,
}
use paqus_node.Network.{
  NetworkMessage, version, ver_ack, reject, get_tip, tip, get_block_by_height, get_block_by_hash,
  block, get_peers, peers, PeerInfo, RejectReason, VersionInfo, Borsh, validate_compatibility,
}
use paqus_node.Network.Handler.{local_version}
use paqus_node.Node.{Node, NodeError}
use paqus_node.Node.Apply.{apply_block}
use paqus_node.Node.Calls.{flush_to_storage}
use paqus_node.Node.Requests.{drain_missing_parent_requests_at, retry_missing_parent_request}
use paqus_node.Paqus.{Paqus}
use paqus_node.Storage.{StorageApi}

abbrev pub max_blocks_per_sync : ℕ
max_blocks_per_sync = 64

pub data PeerPoll : Type 0 where
  idle : ℕ → PeerPoll
  synced : ℕ → PeerPoll

module _ ⦃paqus : Paqus⦄ ⦃storage_api : StorageApi⦄ ⦃borsh : Borsh⦄ where
  open paqus use {Block, tip_height}

  -- The texts of the errors, by what they say.
  pub data SyncError : Type 0 where
    stream_failed : String → SyncError
    incompatible : RejectReason → SyncError
    rejected : RejectReason → String → SyncError
    unexpected_handshake : SyncError
    unexpected_tip : SyncError
    unexpected_peers : SyncError
    no_block_at : ℕ → SyncError
    no_block_with : ℕ → SyncError
    not_applied : NodeError → SyncError
    not_flushed : NodeError → SyncError

  -- The node and the connection: the clock, the answers to come, each with the time of its arrival, the
  -- results of the sends to come, and what was written, oldest first.
  pub record Exchange : Type 0 where
    pub node : Node
    pub now : ℕ
    pub answers : List (ℕ × Result String NetworkMessage)
    pub sends : List (Result String (Unit {0}))
    pub sent : List NetworkMessage

  -- A step on an exchange; `none` is a panic of the node.
  abbrev pub Sync {ℓ} : Type ℓ → Type ℓ
  Sync A = Exchange → Option (Exchange × Result SyncError A)

  abbrev pub continue {ℓ κ} :
      {A : Type ℓ} {B : Type κ}
      → Option (Exchange × Result SyncError A)
      → (A → Sync B)
      → Option (Exchange × Result SyncError B)
  continue none f = none
  continue (some (x, err e)) f = some (x, err e)
  continue (some (x, ok a)) f = f a x

  infixl 5 ◌>>=◌ ◌>>◌
  abbrev pub ◌>>=◌ {ℓ κ} : {A : Type ℓ} {B : Type κ} → Sync A → (A → Sync B) → Sync B
  (m >>= f) x = continue (m x) f

  abbrev pub ◌>>◌ {ℓ} : {B : Type ℓ} → Sync (Unit {0}) → Sync B → Sync B
  m >> k = m >>= λ _. k

  abbrev pub pure {ℓ} : {A : Type ℓ} → A → Sync A
  pure a x = some (x, ok a)

  abbrev pub raise {ℓ} : {A : Type ℓ} → SyncError → Sync A
  raise e x = some (x, err e)

  abbrev pub written : NetworkMessage → Exchange → Exchange
  written message x = record x { sent = x.sent ++ message ∷ [] }

  -- What the stream gives next. A stream without answers is at its end.
  abbrev pub receive : List (ℕ × Result String NetworkMessage) → Sync NetworkMessage
  receive [] x = some (x, err (stream_failed "read failed"))
  receive ((time, answer) ∷ rest) x =
      some (record x { now = time; answers = rest }, map_err stream_failed answer)

  -- The message is written, and an answer is read.
  unfoldable pub request : NetworkMessage → Sync NetworkMessage
  request message x = receive x.answers (written message x)

  abbrev pub deliver : List (Result String (Unit {0})) → Sync (Unit {0})
  deliver [] x = some (x, ok tt)
  deliver (result ∷ rest) x = some (record x { sends = rest }, map_err stream_failed result)

  unfoldable pub send : NetworkMessage → Sync (Unit {0})
  send message x = deliver x.sends (written message x)

  abbrev pub with_node {ℓ} : {A : Type ℓ} → (Node → ℕ → Node × A) → Sync A
  with_node f x = let (n, a) = f x.node x.now in some (record x { node = n }, ok a)

  abbrev pub announce : List String → Sync (Unit {0})
  announce [] = pure tt
  announce (addr ∷ addrs) = send (peers (map (λ a. record { address = a }) (addr ∷ addrs)))

  -- The patterns on an answer.
  abbrev pub as_block : NetworkMessage → Option Block
  as_block (block b) = some b
  as_block _ = none

  abbrev pub as_tip : NetworkMessage → Option ℕ
  as_tip (tip t) = some t.height
  as_tip _ = none

  abbrev pub as_peers : NetworkMessage → Option (List PeerInfo)
  as_peers (peers ps) = some ps
  as_peers _ = none

  abbrev pub as_ver_ack : NetworkMessage → Option VersionInfo
  as_ver_ack (ver_ack v) = some v
  as_ver_ack _ = none

  abbrev pub as_reject : NetworkMessage → Option (RejectReason × String)
  as_reject (reject reason message) = some (reason, message)
  as_reject _ = none

  abbrev pub or_raise {ℓ} : {A : Type ℓ} → SyncError → Option A → Sync A
  or_raise e (some a) = pure a
  or_raise e none = raise e

  abbrev pub accept_version : List String → Result RejectReason (Unit {0}) → Sync (Unit {0})
  accept_version public_addrs (err reason) = raise (incompatible reason)
  accept_version public_addrs (ok _) = announce public_addrs

  abbrev pub refuse_handshake : Option (RejectReason × String) → Sync (Unit {0})
  refuse_handshake (some (reason, message)) = raise (rejected reason message)
  refuse_handshake none = raise unexpected_handshake

  abbrev pub finish_handshake :
      List String → Option VersionInfo → Option (RejectReason × String) → Sync (Unit {0})
  finish_handshake public_addrs (some remote) refusal =
      accept_version public_addrs (validate_compatibility remote)
  finish_handshake public_addrs none refusal = refuse_handshake refusal

  unfoldable pub handshake_peer : List String → Sync (Unit {0})
  unfolding request send
  handshake_peer public_addrs = do
    own ← with_node (λ n now. (n, local_version n))
    answer ← request (version own)
    finish_handshake public_addrs (as_ver_ack answer) (as_reject answer)

  unfoldable pub request_tip : Sync ℕ
  unfolding request
  request_tip = do answer ← request get_tip; or_raise unexpected_tip (as_tip answer)

  unfoldable pub request_peers_connection : Sync (List PeerInfo)
  unfolding request
  request_peers_connection = do
    answer ← request get_peers
    or_raise unexpected_peers (as_peers answer)

  abbrev pub apply_downloaded : Option (Node × Result NodeError (Unit {0})) → Sync (Unit {0})
  apply_downloaded none x = none
  apply_downloaded (some (n, err e)) x = some (record x { node = n }, err (not_applied e))
  apply_downloaded (some (n, ok _)) x =
      let (left, saved) = flush_to_storage n in
      some (record x { node = left }, map_err not_flushed saved)

  -- A downloaded block is applied, and the ledger is saved.
  unfoldable pub accept_block : Block → Sync (Unit {0})
  accept_block b x = apply_downloaded (apply_block x.node b x.now) x

  unfoldable pub request_block : ℕ → Sync (Unit {0})
  unfolding request accept_block
  request_block height = do
    answer ← request (get_block_by_height height)
    b ← or_raise (no_block_at height) (as_block answer)
    accept_block b

  unfoldable pub request_block_by_hash : ℕ → Sync (Unit {0})
  unfolding request accept_block
  request_block_by_hash hash = do
    answer ← request (get_block_by_hash hash)
    b ← or_raise (no_block_with hash) (as_block answer)
    accept_block b

  -- `if let Err(error)`: the hash is queued again, and the error is returned.
  abbrev pub or_retry :
      ℕ
      → Option (Exchange × Result SyncError (Unit {0}))
      → Sync (Unit {0})
      → Option (Exchange × Result SyncError (Unit {0}))
  or_retry hash none rest = none
  or_retry hash (some (y, err e)) rest =
      some (record y { node = retry_missing_parent_request y.node hash y.now }, err e)
  or_retry hash (some (y, ok _)) rest = rest y

  unfoldable pub request_each : List ℕ → Sync (Unit {0})
  unfolding request_block_by_hash
  request_each [] x = some (x, ok tt)
  request_each (hash ∷ hashes) x =
      or_retry hash (request_block_by_hash hash x) (request_each hashes)

  abbrev pub is_empty {ℓ} : {A : Type ℓ} → List A → Bool
  is_empty [] = true
  is_empty (a ∷ rest) = false

  unfoldable pub request_missing_parent_blocks : Sync Bool
  unfolding request_each
  request_missing_parent_blocks = do
    hashes ← with_node drain_missing_parent_requests_at
    request_each hashes
    pure (if is_empty hashes then false else true)

  -- The blocks at so many heights, from one upwards.
  unfoldable pub request_blocks : ℕ → ℕ → Sync (Unit {0})
  unfolding request_block
  request_blocks height zero = pure tt
  request_blocks height (suc more) = do request_block height; request_blocks (suc height) more

  abbrev pub height_or_zero : Option ℕ → ℕ
  height_or_zero none = 0
  height_or_zero (some h) = h

  unfoldable pub download : ℕ → ℕ → Sync PeerPoll
  unfolding request_blocks request_missing_parent_blocks
  download remote local_height = do
    request_blocks (saturating_add local_height 1)
        (min remote (saturating_add local_height max_blocks_per_sync) - local_height)
    requested ← request_missing_parent_blocks
    pure (synced remote)

  abbrev pub catch_up : ℕ → ℕ → Bool → Sync PeerPoll
  catch_up remote local_height true = do
    requested ← request_missing_parent_blocks
    pure (if requested then synced remote else idle remote)
  catch_up remote local_height false = download remote local_height

  -- What follows the handshake.
  unfoldable pub follow_tip : Sync PeerPoll
  unfolding request_tip request_missing_parent_blocks download
  follow_tip = do
    remote ← request_tip
    local_height ← with_node (λ n now. (n, height_or_zero (tip_height n.ledger)))
    catch_up remote local_height (leb remote local_height)

  unfoldable pub poll_peer_connection : List String → Sync PeerPoll
  unfolding handshake_peer follow_tip
  poll_peer_connection public_addrs = do handshake_peer public_addrs; follow_tip
