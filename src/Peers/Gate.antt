-- ===== src/Peers/Gate.antt =====
-- A peer that does not shake hands changes nothing of the node.
use Prim.Native.String.{String}
use paqus_node.Base.{
  ℕ, ◌≡◌, refl, ◌∙◌, ap, List, [], ◌∷◌, ◌++◌, Option, none, some, Result, ok, err, Result-cases,
  Option-cases, ◌⊎◌, inl, inr,
}
use paqus_node.Network.{NetworkMessage, version, VersionInfo, Borsh, validate_compatibility}
use paqus_node.Network.Handler.{local_version}
use paqus_node.Paqus.{Paqus}
use paqus_node.Peers.Sync.{
  Exchange, SyncError, continue, request, handshake_peer, follow_tip, receive, written,
  finish_handshake, as_ver_ack, as_reject, incompatible, rejected, unexpected_handshake,
  poll_peer_connection,
}
use paqus_node.Storage.{StorageApi}

module _ ⦃paqus : Paqus⦄ ⦃storage_api : StorageApi⦄ ⦃borsh : Borsh⦄ where
  open paqus use {Block, tip_height}

  -- The version with which the peer answers first, if it does.
  abbrev pub first_version : List (ℕ × Result String NetworkMessage) → Option VersionInfo
  first_version [] = none
  first_version ((time, err message) ∷ rest) = none
  first_version ((time, ok answer) ∷ rest) = as_ver_ack answer

  -- The peer answers with a compatible version, or the step fails and leaves the node alone.
  abbrev pub IsGated : {A : Type 0} → Exchange → Option (Exchange × Result SyncError A) → Type 0
  IsGated x o =
      ((v : VersionInfo) × (first_version x.answers ≡ some v) × (validate_compatibility v ≡ ok tt))
      ⊎ ((y : Exchange) × (e : SyncError) × (o ≡ some (y, err e))
          × (y.node ≡ x.node)
          × (y.sent ≡ x.sent ++ version (local_version x.node) ∷ []))

  shaken :
      List String
      → Exchange
      → List (ℕ × Result String NetworkMessage)
      → Option (Exchange × Result SyncError (Unit {0}))
  shaken addrs x answers =
      continue (receive answers (written (version (local_version x.node)) x))
        (λ answer. finish_handshake addrs (as_ver_ack answer) (as_reject answer))

  shaken-IsGated :
      (addrs : List String) (x : Exchange) (answers : List (ℕ × Result String NetworkMessage))
      → x.answers ≡ answers
      → IsGated x (shaken addrs x answers)
  unfolding shaken
  shaken-IsGated addrs x [] same = inr (_, _, refl, refl, refl)
  shaken-IsGated addrs x ((time, err message) ∷ rest) same = inr (_, _, refl, refl, refl)
  shaken-IsGated addrs x ((time, ok answer) ∷ rest) same =
      let heard = record (written (version (local_version x.node)) x) {
        now = time;
        answers = rest;
      } in
      elim (Option-cases (as_ver_ack answer)) [
        | inr (v, its) ↦ elim (Result-cases (validate_compatibility v)) [
          | inl (u, fine) ↦ inl (v, ap first_version same ∙ its, fine)
          | inr (reason, bad) ↦ inr (heard, incompatible reason, rw (its, bad) refl, refl, refl)
        ]
        | inl none_there ↦ elim (Option-cases (as_reject answer)) [
          | inl other ↦ inr (heard, unexpected_handshake, rw (none_there, other) refl, refl, refl)
          | inr ((reason, text), refusal) ↦
              inr (heard, rejected reason text, rw (none_there, refusal) refl, refl, refl)
        ]
      ]

  pub poll_peer_connection-IsGated :
      (addrs : List String) (x : Exchange) → IsGated x (poll_peer_connection addrs x)
  unfolding poll_peer_connection handshake_peer request shaken
  poll_peer_connection-IsGated addrs x = elim (shaken-IsGated addrs x x.answers refl) [
    | inl accepted ↦ inl accepted
    | inr (y, e, failed, same, only) ↦
        inr (y, e, ap (λ o. continue o (λ u. follow_tip)) failed, same, only)
  ]
