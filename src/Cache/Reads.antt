-- ===== src/Cache/Reads.antt =====
-- src/runtime/cache.rs: the cache that is built from a ledger reads as the ledger.
use paqus_node.Base.{ℕ, ◌≡◌, refl, ◌∙◌, ap, List, [], ◌∷◌, Option, none, some, arith}
use paqus_node.BTreeMap
use paqus_node.BTreeMap.{BTreeMap, IsSorted}
use paqus_node.BTreeMap.Laws.{get-insert, get-Above}
use paqus_node.BTreeMap.Sums.{AllEntries}
use paqus_node.Cache.{
  CoreCache, new, insert_account, insert_block, insert_accounts, insert_blocks, from_ledger,
  account, block_by_height,
}
use paqus_node.Paqus.{Paqus}

abbrev or_else {ℓ} : {A : Type ℓ} → Option A → Option A → Option A
or_else none b = b
or_else (some a) b = some a

module _ ⦃paqus : Paqus⦄ where
  open paqus use {
    Account, address, Ledger, tip_height, tip_hash, accounts, chain_blocks, Block, height,
  }

  insert_accounts-reads :
      (m : BTreeMap Account) (c : CoreCache) (k : ℕ)
      → IsSorted m
      → AllEntries (λ i a. address a ≡ i) m
      → BTreeMap.get k (insert_accounts c (BTreeMap.values m)).accounts
        ≡ or_else (BTreeMap.get k m) (BTreeMap.get k c.accounts)
  unfolding insert_accounts insert_account BTreeMap.get
  insert_accounts-reads [] c k s keyed = refl
  insert_accounts-reads ((i, a) ∷ m) c k s keyed =
      insert_accounts-reads m (insert_account c a) k s.1 keyed.1
      ∙ ground (arith, get-insert k (address a) a c.accounts, get-Above k i m)

  insert_blocks-reads :
      (m : BTreeMap Block) (c : CoreCache) (k : ℕ)
      → IsSorted m
      → AllEntries (λ i b. height b ≡ i) m
      → BTreeMap.get k (insert_blocks c (BTreeMap.values m)).blocks_by_height
        ≡ or_else (BTreeMap.get k m) (BTreeMap.get k c.blocks_by_height)
  unfolding insert_blocks insert_block BTreeMap.get
  insert_blocks-reads [] c k s keyed = refl
  insert_blocks-reads ((i, b) ∷ m) c k s keyed =
      insert_blocks-reads m (insert_block c b) k s.1 keyed.1
      ∙ ground (arith, get-insert k (height b) b c.blocks_by_height, get-Above k i m)

  insert_blocks-accounts :
      (bs : List Block) (c : CoreCache) → (insert_blocks c bs).accounts ≡ c.accounts
  unfolding insert_blocks insert_block
  insert_blocks-accounts [] c = refl
  insert_blocks-accounts (b ∷ bs) c = insert_blocks-accounts bs (insert_block c b)

  insert_accounts-blocks :
      (xs : List Account) (c : CoreCache)
      → (insert_accounts c xs).blocks_by_height ≡ c.blocks_by_height
  unfolding insert_accounts insert_account
  insert_accounts-blocks [] c = refl
  insert_accounts-blocks (a ∷ xs) c = insert_accounts-blocks xs (insert_account c a)

  -- The ledger's accounts stand under their addresses and its blocks under their heights.
  pub record IsKeyedLedger (l : Ledger) : Type 0 where
    pub sorted_accounts : IsSorted (accounts l)
    pub sorted_blocks : IsSorted (chain_blocks l)
    pub keyed_accounts : AllEntries (λ i a. address a ≡ i) (accounts l)
    pub keyed_blocks : AllEntries (λ i b. height b ≡ i) (chain_blocks l)

  -- What a look-up finds.
  pub record ReadsAs (c : CoreCache) (l : Ledger) : Type 0 where
    pub accounts : (a : ℕ) → account c a ≡ BTreeMap.get a (accounts l)
    pub blocks : (h : ℕ) → block_by_height c h ≡ BTreeMap.get h (chain_blocks l)
    pub tip_height : c.tip_height ≡ tip_height l
    pub tip_hash : c.tip_hash ≡ tip_hash l

  or_else-none : {A : Type 0} (o : Option A) → or_else o none ≡ o
  or_else-none none = refl
  or_else-none (some a) = refl

  -- The cache of a ledger whose accounts and blocks stand under their addresses and heights reads as the
  -- ledger: the same account under each address, the same block under each height, the same tip.
  pub from_ledger-ReadsAs : (l : Ledger) → IsKeyedLedger l → ReadsAs (from_ledger l) l
  unfolding from_ledger new account block_by_height BTreeMap.get
  from_ledger-ReadsAs l v =
      let filled = insert_accounts new (BTreeMap.values (accounts l)) in
      let blocks = BTreeMap.values (chain_blocks l) in
      record {
        accounts = λ a.
            ap (λ m. BTreeMap.get a m) (insert_blocks-accounts blocks filled)
            ∙ insert_accounts-reads (accounts l) new a v.sorted_accounts v.keyed_accounts
            ∙ or_else-none (BTreeMap.get a (accounts l));
        blocks = λ h.
            insert_blocks-reads (chain_blocks l) filled h v.sorted_blocks v.keyed_blocks
            ∙ ap (λ m. or_else (BTreeMap.get h (chain_blocks l)) (BTreeMap.get h m))
                (insert_accounts-blocks (BTreeMap.values (accounts l)) new)
            ∙ or_else-none (BTreeMap.get h (chain_blocks l));
        tip_height = refl;
        tip_hash = refl;
      }
