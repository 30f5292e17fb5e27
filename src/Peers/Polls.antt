-- ===== src/Peers/Polls.antt =====
-- The poll of a peer ends, and keeps the node in step, whatever the peer answers.
use Prim.Native.String.{String}
use paqus_node.Base.{
  ℕ, zero, suc, ◌≡◌, refl, ◌∙◌, ap, Bool, true, false, List, [], ◌∷◌, ◌++◌, Option, none, some, leb,
  if◌then◌else◌, Result, ok, err, Result-cases, ◌⊎◌, inl, inr,
}
use paqus_node.Network.{
  NetworkMessage, version, get_tip, get_block_by_height, get_block_by_hash, RejectReason,
  VersionInfo, Borsh, validate_compatibility,
}
use paqus_node.Node.{Node, NodeError}
use paqus_node.Node.Calls.Histories.{retried-IsNode, flushed-IsNode}
use paqus_node.Node.Invariant.{IsNode}
use paqus_node.Node.Progress.{apply_block-IsNode}
use paqus_node.Network.Handler.{local_version}
use paqus_node.Node.Requests.Steps.{drain_missing_parent_requests_at-IsDrained}
use paqus_node.Node.Requests.{drain_missing_parent_requests_at}
use paqus_node.Paqus.{Paqus}
use paqus_node.Peers.Sync.{
  Exchange, Sync, SyncError, continue, ◌>>=◌, pure, raise, request, send, with_node, announce,
  handshake_peer, request_tip, accept_block, request_block, request_block_by_hash, request_each,
  request_missing_parent_blocks, request_blocks, download, catch_up, follow_tip, receive, written,
  deliver, or_raise, finish_handshake, accept_version, as_block, as_tip, height_or_zero,
  unexpected_tip, as_ver_ack, as_reject, apply_downloaded, or_retry, incompatible, rejected,
  unexpected_handshake, no_block_at, no_block_with, idle, synced, poll_peer_connection, PeerPoll,
  is_empty,
}
use paqus_node.Storage.{StorageApi}
use paqus_node.Peers.Gate.{first_version, poll_peer_connection-IsGated}

module _ ⦃paqus : Paqus⦄ ⦃storage_api : StorageApi⦄ ⦃borsh : Borsh⦄ where
  open paqus use {Block, tip_height}

  abbrev Ends : {A : Type 0} → Option (Exchange × Result SyncError A) → Type 0
  Ends {A} o = (x : Exchange) × (r : Result SyncError A) × (o ≡ some (x, r)) × IsNode [] x.node

  -- From a node in step the step ends, without a panic, and leaves a node in step.
  pub record IsStep {A : Type 0} (m : Sync A) : Type 0 where
    pub ends : (x : Exchange) → IsNode [] x.node → Ends (m x)

  bind-IsStep :
      {A : Type 0} {B : Type 0} (m : Sync A) (f : A → Sync B)
      → IsStep m
      → ((a : A) → IsStep (f a))
      → IsStep (m >>= f)
  bind-IsStep m f first rest = record {
    ends = λ x v.
        let (y, r, ended, w) = first.ends x v in
        elim (Result-cases r) [
          | inr (e, failed) ↦
              (y, err e, ap (λ o. continue o f) (ended ∙ ap (λ q. some (y, q)) failed), w)
          | inl (a, done) ↦
              let (z, q, ended', u) = (rest a).ends y w in
              (z, q, ap (λ o. continue o f) (ended ∙ ap (λ q. some (y, q)) done) ∙ ended', u)
        ];
  }

  pure-IsStep : {A : Type 0} (a : A) → IsStep (pure a)
  pure-IsStep a = record { ends = λ x v. (x, ok a, refl, v) }

  raise-IsStep : {A : Type 0} (e : SyncError) → IsStep (raise {A = A} e)
  raise-IsStep e = record { ends = λ x v. (x, err e, refl, v) }

  receive-Ends :
      (answers : List (ℕ × Result String NetworkMessage)) (x : Exchange)
      → IsNode [] x.node
      → Ends (receive answers x)
  receive-Ends [] x v = (_, _, refl, v)
  receive-Ends ((time, answer) ∷ rest) x v = (_, _, refl, v)

  request-IsStep : (m : NetworkMessage) → IsStep (request m)
  unfolding request
  request-IsStep m = record { ends = λ x v. receive-Ends x.answers (written m x) v }

  deliver-Ends :
      (sends : List (Result String (Unit {0}))) (x : Exchange)
      → IsNode [] x.node
      → Ends (deliver sends x)
  deliver-Ends [] x v = (_, _, refl, v)
  deliver-Ends (result ∷ rest) x v = (_, _, refl, v)

  announce-IsStep : (addrs : List String) → IsStep (announce addrs)
  unfolding send
  announce-IsStep [] = pure-IsStep tt
  announce-IsStep (addr ∷ addrs) = record { ends = λ x v. deliver-Ends x.sends (written _ x) v }

  or_raise-IsStep : {A : Type 0} (e : SyncError) (o : Option A) → IsStep (or_raise e o)
  or_raise-IsStep e (some a) = pure-IsStep a
  or_raise-IsStep e none = raise-IsStep e

  with_node-IsStep :
      {A : Type 0} (f : Node → ℕ → Node × A)
      → ((n : Node) (now : ℕ) → IsNode [] n → IsNode [] (f n now).0)
      → IsStep (with_node f)
  with_node-IsStep f keeps = record { ends = λ x v. (_, _, refl, keeps x.node x.now v) }

  finish_handshake-IsStep :
      (addrs : List String) (remote : Option VersionInfo) (refusal : Option (RejectReason × String))
      → IsStep (finish_handshake addrs remote refusal)
  finish_handshake-IsStep addrs (some remote) refusal = accepted (validate_compatibility remote)
    where
      accepted : (r : Result RejectReason (Unit {0})) → IsStep (accept_version addrs r)
      accepted (ok _) = announce-IsStep addrs
      accepted (err reason) = raise-IsStep (incompatible reason)
  finish_handshake-IsStep addrs none (some (reason, message)) =
      raise-IsStep (rejected reason message)
  finish_handshake-IsStep addrs none none = raise-IsStep unexpected_handshake

  handshake_peer-IsStep : (addrs : List String) → IsStep (handshake_peer addrs)
  unfolding handshake_peer
  handshake_peer-IsStep addrs =
      bind-IsStep (with_node (λ n now. (n, local_version n))) _
        (with_node-IsStep (λ n now. (n, local_version n)) (λ n now v. v))
        (λ own.
          bind-IsStep (request (version own)) _ (request-IsStep (version own))
            (λ answer. finish_handshake-IsStep addrs (as_ver_ack answer) (as_reject answer)))

  apply_downloaded-Ends :
      (r : Node × Result NodeError (Unit {0})) (x : Exchange)
      → IsNode [] r.0
      → Ends (apply_downloaded (some r) x)
  apply_downloaded-Ends (n, err e) x v = (_, _, refl, v)
  apply_downloaded-Ends (n, ok u) x v = (_, _, refl, flushed-IsNode n v)

  accept_block-IsStep : (b : Block) → IsStep (accept_block b)
  unfolding accept_block
  accept_block-IsStep b = record {
    ends = λ x v.
        let (r, ended, w) = apply_block-IsNode x.node b x.now v in
        let (y, q, done, u) = apply_downloaded-Ends r x w in
        (y, q, ap (λ o. apply_downloaded o x) ended ∙ done, u);
  }

  request_block-IsStep : (height : ℕ) → IsStep (request_block height)
  unfolding request_block
  request_block-IsStep height =
      bind-IsStep (request (get_block_by_height height)) _
        (request-IsStep (get_block_by_height height))
        (λ answer.
          bind-IsStep (or_raise (no_block_at height) (as_block answer)) accept_block
            (or_raise-IsStep (no_block_at height) (as_block answer)) accept_block-IsStep)

  request_block_by_hash-IsStep : (hash : ℕ) → IsStep (request_block_by_hash hash)
  unfolding request_block_by_hash
  request_block_by_hash-IsStep hash =
      bind-IsStep (request (get_block_by_hash hash)) _ (request-IsStep (get_block_by_hash hash))
        (λ answer.
          bind-IsStep (or_raise (no_block_with hash) (as_block answer)) accept_block
            (or_raise-IsStep (no_block_with hash) (as_block answer)) accept_block-IsStep)

  or_retry-Ends :
      (hash : ℕ) (y : Exchange) (r : Result SyncError (Unit {0})) (rest : Sync (Unit {0}))
      → IsNode [] y.node
      → IsStep rest
      → Ends (or_retry hash (some (y, r)) rest)
  or_retry-Ends hash y (err e) rest v step = (_, _, refl, retried-IsNode y.node hash y.now v)
  or_retry-Ends hash y (ok _) rest v step = step.ends y v

  request_each-IsStep : (hashes : List ℕ) → IsStep (request_each hashes)
  unfolding request_each
  request_each-IsStep [] = record { ends = λ x v. (x, ok tt, refl, v) }
  request_each-IsStep (hash ∷ hashes) = record {
    ends = λ x v.
        let (y, r, ended, w) = (request_block_by_hash-IsStep hash).ends x v in
        let (z, q, done, u) =
          or_retry-Ends hash y r (request_each hashes) w (request_each-IsStep hashes) in
        (z, q, ap (λ o. or_retry hash o (request_each hashes)) ended ∙ done, u);
  }

  drain-IsNode :
      (n : Node) (now : ℕ) → IsNode [] n → IsNode [] (drain_missing_parent_requests_at n now).0
  unfolding drain_missing_parent_requests_at
  drain-IsNode n now v = record {
    orphanage = v.orphanage;
    queue = (drain_missing_parent_requests_at-IsDrained n now v.queue).0;
    pool = v.pool;
  }

  request_missing_parent_blocks-IsStep : IsStep request_missing_parent_blocks
  unfolding request_missing_parent_blocks
  request_missing_parent_blocks-IsStep =
      bind-IsStep (with_node drain_missing_parent_requests_at) _
        (with_node-IsStep drain_missing_parent_requests_at drain-IsNode)
        (λ hashes.
          bind-IsStep (request_each hashes) _ (request_each-IsStep hashes)
            (λ u. pure-IsStep (if is_empty hashes then false else true)))

  request_blocks-IsStep : (height more : ℕ) → IsStep (request_blocks height more)
  unfolding request_blocks
  request_blocks-IsStep height zero = pure-IsStep tt
  request_blocks-IsStep height (suc more) =
      bind-IsStep (request_block height) _ (request_block-IsStep height)
        (λ u. request_blocks-IsStep (suc height) more)

  catch_up-IsStep :
      (remote local_height : ℕ) (behind : Bool) → IsStep (catch_up remote local_height behind)
  unfolding download
  catch_up-IsStep remote local_height true =
      bind-IsStep request_missing_parent_blocks _ request_missing_parent_blocks-IsStep
        (λ requested. pure-IsStep (if requested then synced remote else idle remote))
  catch_up-IsStep remote local_height false =
      bind-IsStep (request_blocks _ _) _ (request_blocks-IsStep _ _) (λ u.
        bind-IsStep request_missing_parent_blocks _ request_missing_parent_blocks-IsStep
          (λ requested. pure-IsStep (synced remote)))

  follow_tip-IsStep : IsStep follow_tip
  unfolding follow_tip request_tip
  follow_tip-IsStep =
      bind-IsStep request_tip _
        (bind-IsStep (request get_tip) _ (request-IsStep get_tip)
          (λ answer. or_raise-IsStep unexpected_tip (as_tip answer)))
        (λ remote.
          bind-IsStep (with_node (λ n now. (n, height_or_zero (tip_height n.ledger)))) _
            (with_node-IsStep (λ n now. (n, height_or_zero (tip_height n.ledger))) (λ n now v. v))
            (λ local_height. catch_up-IsStep remote local_height (leb remote local_height)))

  poll_peer_connection-IsStep : (addrs : List String) → IsStep (poll_peer_connection addrs)
  unfolding poll_peer_connection
  poll_peer_connection-IsStep addrs =
      bind-IsStep (handshake_peer addrs) (λ u. follow_tip) (handshake_peer-IsStep addrs)
        (λ u. follow_tip-IsStep)

  -- Whatever a peer answers, and whenever, the poll of it ends without a panic and leaves a node that was
  -- in step in step; and unless the peer's first answer acknowledges the node's version with a compatible
  -- one, the poll is an error, the node is as it was, and nothing but its version was written.
  pub poll_peer_connection-IsNode :
      (addrs : List String) (x : Exchange)
      → IsNode [] x.node
      → ((y : Exchange) × (r : Result SyncError PeerPoll) × (poll_peer_connection addrs x
            ≡ some (y, r))
          × IsNode [] y.node)
        × (((v : VersionInfo) × (first_version x.answers ≡ some v)
              × (validate_compatibility v ≡ ok tt))
            ⊎ ((y : Exchange) × (e : SyncError) × (poll_peer_connection addrs x ≡ some (y, err e))
                × (y.node ≡ x.node)
                × (y.sent ≡ x.sent ++ version (local_version x.node) ∷ [])))
  poll_peer_connection-IsNode addrs x v =
      ((poll_peer_connection-IsStep addrs).ends x v, poll_peer_connection-IsGated addrs x)
