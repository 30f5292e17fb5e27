-- ===== src/Storage/Integrity/Chain.antt =====
-- The check accepts exactly the stored chains.
use paqus_node.Base.{
  ℕ, zero, suc, ◌≡◌, ◌↔◌, ◌⊎◌, inl, inr, sym, ◌∙◌, ap, none, some, ok, arith, Option-cases,
  Result-cases,
}
use mathlib.Core.Path.{subst}
use paqus_node.Paqus.{Paqus}
use paqus_node.Storage.{Lmdb}
use paqus_node.Storage.Integrity.{Reads, check_down, check_tip, validate_chain_integrity}

module _ ⦃paqus : Paqus⦄ ⦃lmdb : Lmdb⦄ where
  open paqus use {Block, block_hash, previous_hash}

  -- The blocks from a height, under this hash, down to the first, whose previous hash is zero, each
  -- naming the one below it.
  abbrev pub IsChain : Reads → ℕ → ℕ → Type 0
  IsChain r zero hash =
      (b : Block) × (r.load_block_by_height 0 ≡ ok (some b))
      × (block_hash b ≡ hash)
      × (previous_hash b ≡ 0)
  IsChain r (suc height) hash =
      (b : Block) × (r.load_block_by_height (suc height) ≡ ok (some b))
      × (block_hash b ≡ hash)
      × IsChain r height (previous_hash b)

  -- A passing check has read the block below.
  read_below :
      (r : Reads) (height hash : ℕ) (b : Block)
      → r.load_block_by_height (suc height) ≡ ok (some b)
      → check_down r (suc height) hash ≡ ok tt
      → (p : Block) × (r.load_block_by_height height ≡ ok (some p))
  unfolding check_down
  read_below r height hash b here e = elim (Result-cases (r.load_block_by_height height)) [
    | inr (x, failed) ↦ absurd (ground arith)
    | inl (found, read) ↦ elim (Option-cases found) [
      | inl missing ↦ absurd (ground arith)
      | inr (p, there) ↦ (p, read ∙ ap (λ o. ok o) there)
    ]
  ]

  check_down-IsChain :
      (r : Reads) (height hash : ℕ) → check_down r height hash ≡ ok tt → IsChain r height hash
  unfolding check_down
  check_down-IsChain r zero hash e = elim (Result-cases (r.load_block_by_height 0)) [
    | inr (x, failed) ↦ absurd (ground arith)
    | inl (found, read) ↦ elim (Option-cases found) [
      | inl missing ↦ absurd (ground arith)
      | inr (b, there) ↦ (b, ground arith, ground arith, ground arith)
    ]
  ]
  check_down-IsChain r (suc height) hash e =
      elim (Result-cases (r.load_block_by_height (suc height))) [
        | inr (x, failed) ↦ absurd (ground arith)
        | inl (found, read) ↦ elim (Option-cases found) [
          | inl missing ↦ absurd (ground arith)
          | inr (b, there) ↦
              let (p, below) = read_below r height hash b (read ∙ ap (λ o. ok o) there) e in
              let linked : previous_hash b ≡ block_hash p = ground arith in
              let rest = check_down-IsChain r height (block_hash p) (ground arith) in
              (
                b,
                ground arith,
                ground arith,
                subst (λ (h : ℕ). IsChain r height h) (sym linked) rest,
              )
        ]
      ]

  top_of :
      (r : Reads) (height hash : ℕ)
      → IsChain r height hash
      → (b : Block) × (r.load_block_by_height height ≡ ok (some b)) × (block_hash b ≡ hash)
  top_of r zero hash (b, read, same, _) = (b, read, same)
  top_of r (suc height) hash (b, read, same, _) = (b, read, same)

  IsChain-check_down :
      (r : Reads) (height hash : ℕ) → IsChain r height hash → check_down r height hash ≡ ok tt
  unfolding check_down
  IsChain-check_down r zero hash (b, read, same, first) = ground arith
  IsChain-check_down r (suc height) hash (b, read, same, below) =
      let (p, read', linked) = top_of r height (previous_hash b) below in
      let rest =
        IsChain-check_down r height (block_hash p)
          (subst (λ (h : ℕ). IsChain r height h) (sym linked) below) in
      ground arith

  -- What the storage holds: no tip, or a chain up to its tip.
  abbrev pub HoldsChain : Reads → Type 0
  HoldsChain r =
      (r.load_tip ≡ ok none)
      ⊎ ((height : ℕ) × (hash : ℕ) × (r.load_tip ≡ ok (some (height, hash)))
          × IsChain r height hash)

  validate-HoldsChain : (r : Reads) → validate_chain_integrity r ≡ ok tt → HoldsChain r
  unfolding validate_chain_integrity check_tip
  validate-HoldsChain r e = elim (Result-cases r.load_tip) [
    | inr (x, failed) ↦ absurd (ground arith)
    | inl (found, read) ↦ elim (Option-cases found) [
      | inl nothing ↦ inl (ground arith)
      | inr ((height, hash), there) ↦ elim (Result-cases (r.load_block_by_height height)) [
        | inr (x, failed) ↦ absurd (ground arith)
        | inl (top, read_top) ↦ elim (Option-cases top) [
          | inl missing ↦ absurd (ground arith)
          | inr (b, present) ↦
              inr (height, hash, ground arith, check_down-IsChain r height hash (ground arith))
        ]
      ]
    ]
  ]

  HoldsChain-validate : (r : Reads) → HoldsChain r → validate_chain_integrity r ≡ ok tt
  unfolding validate_chain_integrity check_tip
  HoldsChain-validate r (inl nothing) = ground arith
  HoldsChain-validate r (inr (height, hash, read, chain)) =
      let (b, top, same) = top_of r height hash chain in
      let rest = IsChain-check_down r height hash chain in ground arith

  -- The check of the stored chain passes exactly if the storage has no tip, or if it holds a chain: under
  -- the tip's height the block with the tip's hash, below each block the one that it names as its
  -- previous, and at height 0 a block whose previous hash is zero.
  pub validate_chain_integrity_iff :
      (r : Reads) → (validate_chain_integrity r ≡ ok tt) ↔ HoldsChain r
  validate_chain_integrity_iff r = (validate-HoldsChain r, HoldsChain-validate r)
