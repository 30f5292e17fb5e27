-- ===== src/Storage/ChainRows.antt =====
-- src/runtime/storage/storage.rs, the second loop of `load_ledger`: the blocks, from height 0 to the tip.
use paqus_node.Base.{
  ℕ, zero, suc, ◌+◌, ◌<◌, ◌≤◌, ◌≡◌, refl, sym, ◌∙◌, ap, ◌⊎◌, inl, inr, [], none, some, ◌==◌,
  if◌then◌else◌, ok, arith, Bool-cases,
}
use mathlib.Core.Path.{subst}
use paqus_node.BTreeMap
use paqus_node.BTreeMap.{BTreeMap, get}
use paqus_node.BTreeMap.Laws.{get-insert}
use paqus_node.BTreeMap.Sums.{AllEntries}
use paqus_node.Paqus.{Paqus}
use paqus_node.Storage.{Lmdb}
use paqus_node.Storage.Access.{IsHeight}
use paqus_node.Storage.Tables.{Codecs, Storage}
use paqus_node.Storage.Loads.{load_block_by_height, insert_stored}
use paqus_node.Storage.Restart.{IsLinked}

module _ ⦃paqus : Paqus⦄ where
  open paqus use {
    Account, address, Ledger, Block, height, block_hash, previous_hash, tip_height, tip_hash,
    chain_blocks, new_ledger, set_accounts, chain_insert_block,
  }

  -- The block goes on top of the ledger's chain, or it is the first.
  abbrev pub Follows : Ledger → Block → Type 0
  Follows l b =
      ((tip_height l ≡ none) × (height b ≡ 0) × (previous_hash b ≡ 0))
      ⊎ ((t : ℕ) × (h : ℕ) × (tip_height l ≡ some t)
          × (tip_hash l ≡ some h)
          × (height b ≡ suc t)
          × (previous_hash b ≡ h))

  -- What the loading relies on of the crate's ledger: a new one is empty, the accounts are a field, and
  -- `insert_block` takes a block that follows, which becomes the tip.
  pub record LedgerLaws : Type 0 where
    pub new_accounts : paqus.accounts new_ledger ≡ []
    pub new_tip : tip_height new_ledger ≡ none
    pub accounts-set :
        (l : Ledger) (m : BTreeMap Account)
        → AllEntries (λ a v. address v ≡ a) m
        → paqus.accounts (set_accounts l m) ≡ m
    pub tip-set : (l : Ledger) (m : BTreeMap Account) → tip_height (set_accounts l m) ≡ tip_height l
    pub inserted :
        (l : Ledger) (b : Block)
        → Follows l b
        → (l' : Ledger) × (chain_insert_block l b ≡ (l', ok tt))
          × (chain_blocks l' ≡ BTreeMap.insert (height b) b (chain_blocks l))
          × (paqus.accounts l' ≡ paqus.accounts l)
          × (tip_height l' ≡ some (height b))
          × (tip_hash l' ≡ some (block_hash b))

  module _ (blocks : BTreeMap Block) where
    abbrev pub Links : ℕ → Block → Type 0
    Links zero b = previous_hash b ≡ 0
    Links (suc h) b = (c : Block) × (get h blocks ≡ some c) × (previous_hash b ≡ block_hash c)

    abbrev pub TopIs : ℕ → Ledger → Type 0
    TopIs zero l = tip_height l ≡ none
    TopIs (suc h) l =
        (b : Block) × (get h blocks ≡ some b)
        × (tip_height l ≡ some h)
        × (tip_hash l ≡ some (block_hash b))

    -- The ledger has the lowest blocks, so many of them.
    pub record HasLowest (count : ℕ) (l : Ledger) : Type 0 where
      pub lowest : (h : ℕ) → h < count → get h (chain_blocks l) ≡ get h blocks
      pub top : TopIs count l

    pub linked-top :
        (h hash : ℕ)
        → IsLinked blocks h hash
        → (c : Block) × (get h blocks ≡ some c) × (hash ≡ block_hash c)
    linked-top zero hash (b, there, same, first) = (b, there, sym same)
    linked-top (suc h) hash (b, there, same, below) = (b, there, sym same)

    -- Each block of a linked chain is there, and names the one below it.
    pub linked-Links :
        (top hash : ℕ)
        → IsLinked blocks top hash
        → (h : ℕ) → h ≤ top
        → (b : Block) × (get h blocks ≡ some b) × Links h b
    linked-Links zero hash (b, there, same, first) zero up = (b, there, first)
    linked-Links zero hash (b, there, same, first) (suc h) up = absurd (omega arith)
    linked-Links (suc top) hash (b, there, same, below) h up = elim (Bool-cases (h == suc top)) [
      | inl here ↦
          let at : suc top ≡ h = ground arith in
          subst (λ (i : ℕ). (b : Block) × (get i blocks ≡ some b) × Links i b) at
            (b, there, linked-top top (previous_hash b) below)
      | inr under ↦ linked-Links top (previous_hash b) below h (ground arith)
    ]

    top-Follows :
        (h : ℕ) (l : Ledger) (b : Block) → height b ≡ h → TopIs h l → Links h b → Follows l b
    top-Follows zero l b at empty first = inl (empty, at, first)
    top-Follows (suc h) l b at (c, there, up, known) (d, there', named) =
        let same : c ≡ d = cc in
        inr (h, block_hash c, up, known, at, named ∙ ap block_hash (sym same))

    module _ (laws : LedgerLaws) ⦃lmdb : Lmdb⦄ ⦃codecs : Codecs⦄ (s : Storage)
        (loads : (h : ℕ) → IsHeight h → load_block_by_height s h ≡ ok (get h blocks))
        (keyed : (h : ℕ) (b : Block) → get h blocks ≡ some b → height b ≡ h) where
      pub insert_stored-HasLowest :
          (more at : ℕ) (l : Ledger)
          → ((h : ℕ)
              → h < at + more
              → IsHeight h × (b : Block) × (get h blocks ≡ some b) × Links h b)
          → HasLowest at l
          → (l' : Ledger) × (insert_stored s at more l ≡ ok l')
            × HasLowest (at + more) l'
            × (paqus.accounts l' ≡ paqus.accounts l)
      unfolding insert_stored
      insert_stored-HasLowest zero at l chain low =
          (l, refl, subst (λ (n : ℕ). HasLowest n l) (omega arith) low, refl)
      insert_stored-HasLowest (suc more) at l chain low =
          let (fits, b, there, links) = chain at (omega arith) in
          let (next, taken, blocks', accounts', top, hash) =
            laws.inserted l b (top-Follows at l b (keyed at b there) low.top links) in
          let lowest' : (h : ℕ) → h < suc at → get h (chain_blocks next) ≡ get h blocks = λ h below.
            let found : get h (chain_blocks next)
                ≡ (if h == at then some b else get h (chain_blocks l)) =
              ap (get h) blocks'
              ∙ get-insert h (height b) b (chain_blocks l)
              ∙ ap (λ (i : ℕ). if h == i then some b else get h (chain_blocks l))
                  (keyed at b there) in
            elim (Bool-cases (h == at)) [
              | inl here ↦
                  let same : at ≡ h = ground arith in
                  found ∙ (rw here refl) ∙ sym there ∙ ap (λ i. get i blocks) same
              | inr under ↦ found ∙ (rw under refl) ∙ low.lowest h (ground arith)
            ] in
          let low' : HasLowest (suc at) next = record {
            lowest = lowest';
            top = (b, there, top ∙ ap some (keyed at b there), hash);
          } in
          let (last, done, lowest_all, accounts_all) =
            insert_stored-HasLowest more (suc at) next (λ h below. chain h (omega arith)) low' in
          (
            last,
            rw (loads at fits, there, taken) done,
            subst (λ (n : ℕ). HasLowest n last) (omega arith) lowest_all,
            accounts_all ∙ accounts',
          )
