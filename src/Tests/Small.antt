-- ===== src/Tests/Small.antt =====
-- The smaller parts of the node at concrete inputs.
use paqus_node.Base.{ℕ, ◌≡◌, refl, List, [], ◌∷◌, Bool, none, some, ok, arith}
use mathlib.Core.List.{foldl}
use paqus_node.BTreeMap
use paqus_node.BTreeMap.{Set}
use paqus_node.Gossip.{GossipDedupe, mark_seen, new}
use paqus_node.Gossip.Runs.{
  Mark, block, transaction, mark_all, mark_all-new, IsTracking, blocks_of, transactions_of,
}
use paqus_node.Gossip.Window.{IsWindow, IsMarked, remember, mark_seen-IsMarked}
use paqus_node.Miner.{MiningConfig, mine_from, mine_prepared_block}
use paqus_node.Miner.Search.{Searched, mine_prepared_block-Searched}
use paqus_node.Peers.{PeerState, mark_ok}
use paqus_node.Peers.Backoff.{fail_times, fail_times-doubling}
use paqus_node.Cache.{from_ledger}
use paqus_node.Cache.Reads.{ReadsAs, from_ledger-ReadsAs}
use paqus_node.Peers.{retain_unseen, dedupe_peers}
use paqus_node.Tests.Sample.{sample, slab, Book, book, apply_slab}
use paqus_node.Wallet.{BalanceRpcResponse, MempoolRpcResponse, own_nonces, resolve_wallet_nonce}
use paqus_node.Wallet.Nonce.{IsFirstFree, resolve_wallet_nonce-IsFirstFree}

abbrev marks : List Mark
marks = block 5 ∷ transaction 9 ∷ block 6 ∷ block 5 ∷ block 7 ∷ []

mark_all-new_example :
    (d : GossipDedupe) × (mark_all (new 2) marks ≡ some d)
    × IsTracking d
    × (d.block_order ≡ foldl (remember 2) [] (blocks_of marks))
    × (d.transaction_order ≡ foldl (remember 2) [] (transactions_of marks))
mark_all-new_example = mark_all-new 2 marks

window : IsWindow 2 ((4, tt) ∷ (8, tt) ∷ []) (8 ∷ 4 ∷ [])
unfolding BTreeMap.get
window = record {
  sorted = ((omega arith, tt), (tt, tt));
  same = λ v. ground arith;
  counted = refl;
  distinct = (refl, (refl, tt));
  bounded = omega arith;
}

mark_seen-IsMarked_example :
    (r : Set × List ℕ × Bool) × (mark_seen 2 ((4, tt) ∷ (8, tt) ∷ []) (8 ∷ 4 ∷ []) 6 ≡ some r)
    × IsMarked 2 (8 ∷ 4 ∷ []) 6 r
mark_seen-IsMarked_example = mark_seen-IsMarked 2 ((4, tt) ∷ (8, tt) ∷ []) (8 ∷ 4 ∷ []) 6 window

abbrev peer : PeerState
peer = record { addr = 17; failures = 3; next_attempt = 40; last_tip = none }

fail_times-doubling_example :
    let q = fail_times 4 (mark_ok peer (some 12) 50) 90 in
    (q.next_attempt ≡ 106) × (q.failures ≡ 4) × (q.last_tip ≡ some 12)
fail_times-doubling_example = fail_times-doubling 3 peer (some 12) 50 90 (omega arith)

abbrev balance : BalanceRpcResponse
balance = record { nonce = some 4 }

abbrev pending : MempoolRpcResponse
pending = record {
  transactions =
      record { from = "aa"; nonce = 5 }
      ∷ record { from = "bb"; nonce = 6 }
      ∷ record { from = "aa"; nonce = 4 }
      ∷ [];
}

own_nonces_lem : own_nonces "aa" pending.transactions ≡ 5 ∷ 4 ∷ []
unfolding own_nonces
own_nonces_lem = refl

resolve_wallet_nonce-IsFirstFree_example :
    IsFirstFree 4 (resolve_wallet_nonce "aa" balance pending) (own_nonces "aa" pending.transactions)
unfolding own_nonces
resolve_wallet_nonce-IsFirstFree_example =
    resolve_wallet_nonce-IsFirstFree "aa" balance pending (omega arith, (omega arith, tt))

abbrev mining : MiningConfig
mining = record { difficulty = 3; max_attempts = 10; transaction_limit = 5 }

mine_prepared_block-Searched_example :
    Searched 6 mining (slab 1 1 0) 0 10 (mine_prepared_block (slab 1 1 0) 6 mining)
mine_prepared_block-Searched_example =
    mine_prepared_block-Searched 6 mining (slab 1 1 0) (λ c i j. refl) (omega arith)

-- The fourth attempt is the first whose nonce reaches the target.
mined :
    mine_prepared_block (slab 1 1 0) 6 mining
    ≡ ok (some (record { block = slab 1 1 3; attempts = 4 }))
unfolding mine_prepared_block mine_from
mined = refl

deduped : dedupe_peers (8 ∷ 5 ∷ 8 ∷ []) ≡ 8 ∷ 5 ∷ []
unfolding dedupe_peers retain_unseen BTreeMap.get BTreeMap.insert
deduped = refl

chain : Book
chain = apply_slab (record book { slabs = [] }) (slab 0 0 0)

from_ledger-ReadsAs_example : ReadsAs (from_ledger chain) chain
unfolding chain BTreeMap.insert
from_ledger-ReadsAs_example = from_ledger-ReadsAs chain (record {
  sorted_accounts = ((omega arith, tt), (tt, tt));
  sorted_blocks = (tt, tt);
  keyed_accounts = (refl, (refl, tt));
  keyed_blocks = (refl, tt);
})
