-- ===== src/Wallet.antt =====
-- src/mempool.rs: the nonce of a wallet's next transaction, from what the node's
-- RPC reports. The HTTP requests and the parsing of their JSON are not modelled: the two bodies are
-- arguments.
pub mod Nonce
use paqus_node.Base.{
  ℕ, Bool, List, [], ◌∷◌, Option, none, some, ltb, leb, ◌==◌, if◌then◌else◌, saturating_add,
  sort_by,
}
use Prim.Native.String.{String}
use text.Mathlib.Text.{◌==◌ as str_eq}

pub record BalanceRpcResponse : Type 0 where
  pub nonce : Option ℕ

pub record MempoolTxRpcResponse : Type 0 where
  pub from : String
  pub nonce : ℕ

pub record MempoolRpcResponse : Type 0 where
  pub transactions : List MempoolTxRpcResponse

-- The `filter_map`: the nonces of the address's own transactions.
unfoldable pub own_nonces : String → List MempoolTxRpcResponse → List ℕ
own_nonces address_hex [] = []
own_nonces address_hex (t ∷ ts) =
    if str_eq t.from address_hex
    then t.nonce ∷ own_nonces address_hex ts
    else own_nonces address_hex ts

-- `dedup`: of equal neighbours only the first stays.
unfoldable pub dedup : List ℕ → List ℕ
dedup [] = []
dedup (x ∷ []) = x ∷ []
dedup (x ∷ y ∷ ys) = let rest = dedup (y ∷ ys) in if x == y then rest else x ∷ rest

-- The loop, which stops at the first gap.
unfoldable pub skip_pending : ℕ → List ℕ → ℕ
skip_pending next [] = next
skip_pending next (n ∷ ns) =
    let again = skip_pending (saturating_add next 1) ns in
    let same = skip_pending next ns in
    if n == next then again else if ltb next n then next else same

abbrev pub nonce_or_zero : Option ℕ → ℕ
nonce_or_zero none = 0
nonce_or_zero (some n) = n

unfoldable pub resolve_wallet_nonce : String → BalanceRpcResponse → MempoolRpcResponse → ℕ
resolve_wallet_nonce address_hex balance mempool =
    skip_pending (nonce_or_zero balance.nonce)
      (dedup (sort_by leb (own_nonces address_hex mempool.transactions)))
